-- ===== src/S3/Parts.antt =====
-- UploadPart and ListParts of blob/multipart/s3mp/s3mp.go. The reader is what io.ReadAll makes of
-- it; each page of ListParts takes a unit of fuel.
pub mod Sent
pub mod Paging
use gocloud_ext.Common.{
  ℕ, zero, suc, pos, ℤ, ltb, Bytes, Bool, true, false, if◌then◌else◌, List, [], ◌∷◌, ◌++◌, map,
  length, Option, none, some, Result, ok, err, ◌>>=◌,
}
use gocloud_ext.Multipart.{Part, sort_parts, validate_part_number}
use gocloud_ext.S3.{
  Client, S3Uploader, S3Error, ListedPart, UploadPartInput, ListPartsInput, ListPartsOutput,
  upload_not_found, closed, out_of_fuel, invalid_parts, part_too_large, reading, calling,
  max_part_size, s3_constraints, to_int32, to_string, to_int, is_no_such_upload,
}

listed_s3_part : ListedPart → Part
listed_s3_part p = record {
  number = to_int p.part_number;
  size = to_int p.size;
  tag = to_string p.etag;
}

-- aws.ToBool
abbrev pub to_bool : Option Bool → Bool
to_bool none = false
to_bool (some b) = b

unfoldable pub upload_input : S3Uploader → ℤ → Bytes → UploadPartInput
upload_input u number body = record {
  bucket = u.location.bucket;
  key = u.key;
  upload_id = u.upload_id;
  part_number = to_int32 number;
  body = body;
  content_length = pos (length body);
}

-- The request for the page after a marker.
unfoldable pub list_input : S3Uploader → Option Bytes → ListPartsInput
list_input u marker = record {
  bucket = u.location.bucket;
  key = u.key;
  upload_id = u.upload_id;
  part_number_marker = marker;
  max_parts = none;
}

module _ (c : Client) where
  open c use {State, Err, upload_part, list_parts}

  -- Once the part is read.
  send_part : S3Uploader → ℤ → Bytes → State → Result (S3Error Err) Part × State
  send_part u number body s =
      let (sent, s') = upload_part (upload_input u number body) s in
      if ltb max_part_size (length body)
      then (err (part_too_large number (pos (length body))), s)
      else elim sent [
        | err e ↦ (err (calling e), s')
        | ok etag ↦
            (ok (record { number = number; size = pos (length body); tag = to_string etag }), s')
      ]

  unfoldable pub s3_upload_part :
      S3Uploader → ℤ → Result Err Bytes → State → Result (S3Error Err) Part × State
  unfolding send_part
  s3_upload_part u number body s =
      if u.finished then (err closed, s) else elim (validate_part_number number s3_constraints) [
        | some e ↦ (err (invalid_parts e), s)
        | none ↦ elim body [
          | err e ↦ (err (reading number e), s)
          | ok bytes ↦ send_part u number bytes s
        ]
      ]

  listing_failure : Err → S3Error Err
  listing_failure e = if is_no_such_upload c e then upload_not_found else calling e

  -- The loop over the pages, from a marker.
  pages : ℕ → S3Uploader → Option Bytes → State → Result (S3Error Err) (List Part)
  unfolding listed_s3_part listing_failure
  pages zero u marker s = err out_of_fuel
  pages (suc fuel) u marker s = elim (list_parts (list_input u marker) s) [
    | err e ↦ err (listing_failure e)
    | ok out ↦
        let rest = pages fuel u out.next_part_number_marker s in
        let here = map listed_s3_part out.parts in
        if to_bool out.is_truncated then rest >>= (λ more. ok (here ++ more)) else ok here
  ]

  sorted_parts : List Part → Result (S3Error Err) (List Part)
  sorted_parts [] = ok []
  sorted_parts (p ∷ l) = elim (sort_parts (p ∷ l)) [
    | ok ordered ↦ ok ordered
    | err e ↦ err (invalid_parts e)
  ]

  unfoldable pub s3_list_parts : ℕ → S3Uploader → State → Result (S3Error Err) (List Part)
  unfolding pages sorted_parts
  s3_list_parts fuel u s = pages fuel u none s >>= sorted_parts
