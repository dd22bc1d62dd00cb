-- ===== src/Http/Object.antt =====
-- headObject and NewRangeReader of blob/httpblob/httpblob.go, and the sidecars of blob/httpblob/attrs.go.
-- The sidecar's request, which the code sends beside the object's own one, is put before it. The JSON
-- codec is a parameter; a hook answers with its error or with the request that it leaves.
pub mod Started
use gocloud_ext.Common.{
  ℕ, ℤ, zero, suc, pos, negsuc, ◌^◌, Bytes, Bool, true, false, ◌&&◌, ◌==◌, leb_ℤ, ltb_ℤ, eqb_ℤ,
  pos_part, if◌then◌else◌, List, [], ◌∷◌, ◌++◌, Option, none, some, Result, ok, err, codes, eqb,
  length,
}
use gocloud_ext.Blob.{is_not_found, invalid_argument}
use gocloud_ext.Sftp.{attrs_ext}
use gocloud_ext.Sftp.Files.{Xattrs}
use gocloud_ext.Http.{
  Body, ends, more, Fault, Headers, Method, Request, Response, get_header, set_header, driver_fault,
  fault_code, head_refused, not_readable, status_of, with_key,
}
use gocloud_ext.Http.Client.{Client, HttpBucket}
use gocloud_ext.Http.Paths.{new_request, object_url, no_headers}
use gocloud_ext.Http.Retry.{do_request}
use gocloud_ext.Http.Bodies.{
  content_length, limit_body, parse_content_range_total, range_header, range_validator, slice_body,
}
use gocloud_ext.Http.Reader.{Reader, minus}

abbrev pub max_sidecar_size : ℕ
max_sidecar_size = 2 ^ 20

abbrev pub zero_attrs : Xattrs
zero_attrs = record {
  cache_control = [];
  content_disposition = [];
  content_encoding = [];
  content_language = [];
  content_type = [];
  metadata = [];
  md5 = [];
}

-- io.ReadAll
unfoldable pub read_all : Body → Result Fault Bytes
read_all (ends d none) = ok d
read_all (ends d (some e)) = err e
read_all (more c r) = elim (read_all r) [ err e ↦ err e | ok d ↦ ok (c ++ d) ]

unfoldable pub first_non_empty : List Bytes → Bytes
first_non_empty [] = []
first_non_empty (v ∷ vs) = if eqb v [] then first_non_empty vs else v

unfoldable pub content_type_for : Xattrs → Headers → Bytes
unfolding first_non_empty
content_type_for xa h =
    first_non_empty (
      xa.content_type ∷ get_header h (codes "Content-Type") ∷ codes "application/octet-stream" ∷ [])

-- parseModTime, with `none` for the zero time
unfoldable pub parse_mod_time : HttpBucket → Headers → Option ℤ
parse_mod_time b h =
    let lm = get_header h (codes "Last-Modified") in if eqb lm [] then none else b.parse_time lm

unfoldable pub use_sidecar : HttpBucket → Bool
use_sidecar b = b.webdav && b.metadata_in_sidecar

-- The request for one byte.
one_byte : HttpBucket → Bytes → Result Fault Request
unfolding new_request
one_byte b url = elim (new_request b Method.get url []) [
  | err e ↦ err e
  | ok req ↦ ok (record req { header = set_header (codes "Range") (codes "bytes=0-0") req.header })
]

-- The size that the response to it tells, or else 0.
total_size : Response → ℤ
unfolding content_length parse_content_range_total
total_size resp =
    elim (parse_content_range_total (get_header resp.header (codes "Content-Range"))) [
      | some total ↦ total
      | none ↦ if leb_ℤ (pos 0) (content_length resp) then content_length resp else pos 0
    ]

-- The bytes still expected: the count, or what the size leaves, or -1.
unfoldable pub expected : ℤ → ℤ → ℕ → ℤ
expected (pos (suc n)) size offset = pos (suc n)
expected (pos zero) (pos n) offset = minus n offset
expected (pos zero) (negsuc n) offset = negsuc 0
expected (negsuc m) (pos n) offset = minus n offset
expected (negsuc m) (negsuc n) offset = negsuc 0

module _ (c : Client) (b : HttpBucket) where
  open c use {State}

  -- The ranged GET, with the headers of the HEAD request or its error.
  fall_back : Bytes → Result Fault Headers → State → Result Fault (Headers × ℤ) × State
  unfolding one_byte total_size
  fall_back url headed s =
      let (answer, s') = do_request c b.max_retries (one_byte b url) s in
      elim answer [
        | err e ↦ elim headed [
          | ok h ↦ (ok (h, pos 0), s')
          | err f ↦ (err (if status_of e == 405 then not_readable f else f), s')
        ]
        | ok resp ↦ elim headed [
          | ok h ↦ (ok (h, total_size resp), s')
          | err f ↦ (ok (resp.header, total_size resp), s')
        ]
      ]

  unfoldable pub head_object : Bytes → State → Result Fault (Headers × ℤ) × State
  unfolding fall_back content_length
  head_object url s =
      let (answer, s') = do_request c b.max_retries (new_request b Method.head url []) s in
      elim answer [
        | ok resp ↦
            if leb_ℤ (pos 0) (content_length resp)
            then (ok (resp.header, content_length resp), s')
            else fall_back url (ok resp.header) s'
        | err e ↦ if head_refused (status_of e) then fall_back url (err e) s' else (err e, s')
      ]

  -- A body that is no sidecar counts as none.
  read_attrs : (Bytes → Option Xattrs) → Body → Result Fault Xattrs
  unfolding read_all
  read_attrs decode body = elim (read_all (limit_body max_sidecar_size body)) [
    | err e ↦ err e
    | ok d ↦ elim (decode d) [ none ↦ ok zero_attrs | some xa ↦ ok xa ]
  ]

  -- fetchAttrs and the wait for it
  unfoldable pub fetch_attrs : (Bytes → Option Xattrs) → Bytes → State → Result Fault Xattrs × State
  unfolding use_sidecar read_attrs
  fetch_attrs decode url s =
      let (answer, s') =
        do_request c b.max_retries (new_request b Method.get (url ++ attrs_ext) []) s in
      if use_sidecar b
      then elim answer [
        | err e ↦ (if is_not_found (fault_code e) then ok zero_attrs else err e, s')
        | ok resp ↦ (read_attrs decode resp.body, s')
      ]
      else (ok zero_attrs, s)

  -- The size, which costs another request where the response does not tell it.
  known_size : Bytes → ℤ → State → ℤ × State
  unfolding head_object
  known_size url (pos n) s = (pos n, s)
  known_size url (negsuc n) s =
      let (answer, s') = head_object url s in
      elim answer [ err e ↦ (pos 0, s') | ok (h, total) ↦ (total, s') ]

  -- From the two requests on.
  unfoldable pub open_range :
      (Bytes → Option Xattrs)
      → Bytes
      → Bytes
      → Request
      → ℕ
      → ℤ
      → State
      → Result Fault Reader × State
  unfolding fetch_attrs known_size expected content_type_for parse_mod_time
  open_range decode key url base offset count s =
      let (attrs, s1) = fetch_attrs decode url s in
      let (answer, s2) = do_request c b.max_retries (ok base) s1 in
      elim answer [
        | err e ↦ (err (with_key (not_readable e) key), s2)
        | ok resp ↦ elim attrs [
          | err e ↦ (err (with_key e key), s2)
          | ok xa ↦ elim (slice_body resp offset count) [
            | err e ↦ (err (with_key e key), s2)
            | ok (body, told) ↦
                let (size, s3) = known_size url told s2 in
                (
                  ok (record {
                    is_live = true;
                    base = base;
                    validator = range_validator resp.header;
                    offset = offset;
                    remaining = expected count size offset;
                    resumes = 0;
                    body = body;
                    content_type = content_type_for xa resp.header;
                    mod_time = parse_mod_time b resp.header;
                    size = size;
                  }),
                  s3,
                )
          ]
        ]
      ]

  abbrev no_request : Request
  no_request = record { method = Method.get; url = []; header = no_headers; body = [] }

  -- A read of no bytes, which only asks for the size.
  empty_range :
      (Bytes → Option Xattrs)
      → Bytes
      → Bytes
      → (Request → Result Fault Request)
      → State
      → Result Fault Reader × State
  unfolding fetch_attrs head_object content_type_for parse_mod_time
  empty_range decode key url hook s =
      let (attrs, s1) = fetch_attrs decode url s in
      let (answer, s2) = head_object url s1 in
      elim answer [
        | err e ↦ (err (with_key e key), s2)
        | ok (h, size) ↦ elim attrs [
          | err e ↦ (err (with_key e key), s2)
          | ok xa ↦
              elim (hook
                (elim (new_request b Method.get url []) [ err e ↦ no_request | ok q ↦ q ])) [
                  | err e ↦ (err e, s2)
                  | ok q ↦ (
                    ok (record {
                      is_live = false;
                      base = no_request;
                      validator = [];
                      offset = 0;
                      remaining = pos 0;
                      resumes = 0;
                      body = ends [] none;
                      content_type = content_type_for xa h;
                      mod_time = parse_mod_time b h;
                      size = size;
                    }),
                    s2,
                  )
                ]
        ]
      ]

  -- The request for a range.
  unfoldable pub range_request : Bytes → ℕ → ℤ → Result Fault Request
  unfolding new_request range_header
  range_request url offset count = elim (new_request b Method.get url []) [
    | err e ↦ err e
    | ok req ↦
        let rng = range_header offset count in
        if eqb rng []
        then ok req
        else ok (record req { header = set_header (codes "Range") rng req.header })
  ]

  unfoldable pub http_new_range_reader :
      ((List ℕ → ℕ → Bool) → Bytes → Bytes)
      → (Bytes → Option Xattrs)
      → Bytes
      → ℤ
      → ℤ
      → (Request → Result Fault Request)
      → State
      → Result Fault Reader × State
  unfolding object_url empty_range range_request open_range
  http_new_range_reader hex_escape decode key offset count hook s =
      if ltb_ℤ offset (pos 0)
      then (err (driver_fault invalid_argument), s)
      else elim (object_url hex_escape b key) [
        | err e ↦ (err e, s)
        | ok url ↦
            if eqb_ℤ count (pos 0)
            then empty_range decode key url hook s
            else elim (range_request url (pos_part offset) count) [
              | err e ↦ (err e, s)
              | ok req ↦ elim (hook req) [
                | err e ↦ (err e, s)
                | ok base ↦ open_range decode key url base (pos_part offset) count s
              ]
            ]
      ]
