-- ===== src/S3/Finish.antt =====
-- Commit and Abort of blob/multipart/s3mp/s3mp.go.
pub mod Sent
use gocloud_ext.Common.{
  ℤ, Bytes, Bool, true, false, if◌then◌else◌, List, [], ◌∷◌, map, Option, none, some, Result, ok,
  err,
}
use gocloud_ext.Multipart.{Part, sort_parts, check_part_sizes}
use gocloud_ext.S3.{
  Client, S3Uploader, S3Error, CompletedPart, CompleteInput, closed, invalid_parts, calling,
  s3_constraints, to_int32, is_no_such_upload,
}

completed : Part → CompletedPart
completed p = record { part_number = to_int32 p.number; etag = p.tag }

unfoldable pub complete_input : S3Uploader → List Part → CompleteInput
unfolding completed
complete_input u ordered = record {
  bucket = u.location.bucket;
  key = u.key;
  upload_id = u.upload_id;
  parts = map completed ordered;
}

module _ (c : Client) where
  open c use {State, Err, complete, abort}

  complete_upload : S3Uploader → List Part → State → Option (S3Error Err) × S3Uploader × State
  complete_upload u ordered s =
      let (failure, s') = complete (complete_input u ordered) s in
      elim failure [
        | some e ↦ (some (calling e), u, s')
        | none ↦ (none, record u { finished = true }, s')
      ]

  unfoldable pub s3_commit :
      S3Uploader → List Part → State → Option (S3Error Err) × S3Uploader × State
  unfolding complete_upload
  s3_commit u parts s = if u.finished then (some closed, u, s) else elim (sort_parts parts) [
    | err e ↦ (some (invalid_parts e), u, s)
    | ok ordered ↦ elim (check_part_sizes ordered s3_constraints) [
      | some e ↦ (some (invalid_parts e), u, s)
      | none ↦ complete_upload u ordered s
    ]
  ]

  -- A failed call, unless the upload is already gone.
  abort_failure : Option Err → Option (S3Error Err)
  abort_failure none = none
  abort_failure (some e) = if is_no_such_upload c e then none else some (calling e)

  unfoldable pub s3_abort : S3Uploader → State → Option (S3Error Err) × S3Uploader × State
  unfolding abort_failure
  s3_abort u s =
      let (failure, s') =
        abort (record { bucket = u.location.bucket; key = u.key; upload_id = u.upload_id }) s in
      if u.finished then (none, u, s) else (abort_failure failure, record u { finished = true }, s')
