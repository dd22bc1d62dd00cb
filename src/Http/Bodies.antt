-- ===== src/Http/Bodies.antt =====
-- The bodies of responses: what io.LimitReader, io.CopyN and Read do with them, and contentLength,
-- parseContentRangeTotal, rangeHeader, rangeValidator and sliceBody of blob/httpblob/httpblob.go. An
-- offset is not negative.
pub mod Carried
pub mod Sliced
use gocloud_ext.Common.{
  ℕ, ℤ, zero, suc, pos, negsuc, ◌+◌, ◌-◌, ◌%◌, ◌^◌, Bytes, Bool, true, false, not, ◌&&◌, ◌||◌, ◌==◌,
  ltb, leb, leb_ℤ, if◌then◌else◌, List, [], ◌∷◌, ◌++◌, take, drop, length, Option, none, some,
  Result, ok, err, codes, eqb, has_prefix, last_index,
}
use gocloud_ext.Blob.{invalid_argument}
use gocloud_ext.Decimal.{format_padded, parse_int}
use gocloud_ext.Http.{
  Body, ends, more, Fault, Headers, Response, driver_fault, get_header, low_int64, plain_fault,
}

-- io.LimitReader
unfoldable pub limit_body : ℕ → Body → Body
limit_body n (ends d e) =
    if n == 0
    then ends [] none
    else if leb (length d) n
    then ends d e
    else more (take n d) (ends [] none)
limit_body n (more c r) =
    let rest = limit_body (n - length c) r in if n == 0 then ends [] none else more (take n c) rest

-- io.CopyN to io.Discard: the rest of the body, or that it ended early, or its error.
pub data Skipped : Type 0 where
  skipped : Body → Skipped
  short : Skipped
  torn : Fault → Skipped

unfoldable pub skip_body : ℕ → Body → Skipped
skip_body n (ends d e) =
    if leb n (length d)
    then skipped (ends (drop n d) e)
    else elim e [ none ↦ short | some f ↦ torn f ]
skip_body n (more c r) =
    let rest = skip_body (n - length c) r in
    if ltb n (length c) then skipped (more (drop n c) r) else rest

-- One Read with a buffer of this size: the bytes, how it ended, and what is left. The outer option is
-- `none` where the error is nil, and the inner one where it is io.EOF.
unfoldable pub read_body : ℕ → Body → Bytes × Option (Option Fault) × Body
read_body k (ends d e) =
    if leb (length d) k then (d, some e, ends [] e) else (take k d, none, ends (drop k d) e)
read_body k (more c r) =
    if leb (length c) k then (c, none, r) else (take k c, none, more (drop k c) r)

abbrev pub is_space : ℕ → Bool
is_space c = c == 32 || (leb 9 c && leb c 13)

-- strings.TrimSpace, for a header value, whose spaces are those of ASCII
trim_left : Bytes → Bytes
trim_left [] = []
trim_left (x ∷ s) = let rest = trim_left s in if is_space x then rest else x ∷ s

trim_right : Bytes → Bytes
trim_right [] = []
trim_right (x ∷ s) = elim (trim_right s) [
  | [] ↦ if is_space x then [] else x ∷ []
  | y ∷ t ↦ x ∷ y ∷ t
]

unfoldable pub trim_space : Bytes → Bytes
unfolding trim_left trim_right
trim_space s = trim_right (trim_left s)

-- contentLength, -1 where the response declares none
unfoldable pub content_length : Response → ℤ
content_length resp =
    let cl = get_header resp.header (codes "Content-Length") in
    if leb_ℤ (pos 0) resp.content_length
    then resp.content_length
    else if eqb cl []
    then negsuc 0
    else elim (parse_int cl) [ none ↦ negsuc 0 | some n ↦ n ]

unfoldable pub parse_content_range_total : Bytes → Option ℤ
unfolding trim_space
parse_content_range_total v = elim (last_index v (codes "/")) [
  | none ↦ none
  | some i ↦ parse_int (trim_space (drop (i + 1) v))
]

unfoldable pub range_header : ℕ → ℤ → Bytes
range_header offset (pos zero) =
    if ltb 0 offset then codes "bytes=" ++ (format_padded 0 (pos offset) ++ codes "-") else []
range_header offset (negsuc n) =
    if ltb 0 offset then codes "bytes=" ++ (format_padded 0 (pos offset) ++ codes "-") else []
range_header offset (pos (suc n)) =
    codes "bytes="
    ++ (format_padded 0 (pos offset)
        ++ (codes "-" ++ format_padded 0 (low_int64 ((offset + n) % 2 ^ 64))))

unfoldable pub range_validator : Headers → Bytes
range_validator h =
    let etag = get_header h (codes "ETag") in
    if not (eqb etag []) && not (has_prefix etag (codes "W/"))
    then etag
    else get_header h (codes "Last-Modified")

-- `if length > 0 { body = io.LimitReader(body, length) }`
unfoldable pub limit_positive : ℤ → Body → Body
limit_positive (pos zero) b = b
limit_positive (pos (suc n)) b = limit_body (suc n) b
limit_positive (negsuc n) b = b

-- The size of the object that a 206 tells.
partial_size : Response → ℕ → ℤ
unfolding content_length parse_content_range_total
partial_size resp offset =
    elim (parse_content_range_total (get_header resp.header (codes "Content-Range"))) [
      | some total ↦ total
      | none ↦ elim (content_length resp) [
        | pos n ↦ low_int64 ((offset + n) % 2 ^ 64)
        | negsuc n ↦ negsuc n
      ]
    ]

unfoldable pub slice_body : Response → ℕ → ℤ → Result Fault (Body × ℤ)
unfolding partial_size content_length
slice_body resp offset count =
    if resp.status_code == 206
    then ok (limit_positive count resp.body, partial_size resp offset)
    else if resp.status_code == 200
    then if ltb 0 offset
      then elim (skip_body offset resp.body) [
        | skipped b ↦ ok (limit_positive count b, content_length resp)
        | short ↦ err (driver_fault invalid_argument)
        | torn e ↦ err e
      ]
      else ok (limit_positive count resp.body, content_length resp)
    else err plain_fault
