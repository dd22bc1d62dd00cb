-- ===== src/Gcs/Parts.antt =====
-- UploadPart and ListParts of blob/multipart/gcsmp/gcsmp.go.
pub mod Staged
use gocloud_ext.Common.{
  ℤ, pos, Bytes, if◌then◌else◌, List, [], ◌∷◌, Option, none, some, Result, ok, err, ◌>>=◌,
  trim_prefix,
}
use gocloud_ext.Multipart.{Part, validate_part_number, sort_parts}
use gocloud_ext.Decimal.{parse_int}
use gocloud_ext.Blob.{Source, Listing, done, failed, object, io_copy}
use gocloud_ext.Gcs.{
  GcsClient, GcsUploader, GcsError, closed, invalid_parts, uploading_part, closing_part, calling,
  gcs_constraints, part_name, gcs_staging_prefix,
}

module _ (c : GcsClient) where
  open c use {State, Err, Writer, new_writer, write, close, delete, list}

  -- The error paths: the object is deleted.
  remove_part : Bytes → Bytes → GcsError Err → State → Result (GcsError Err) Part × State
  remove_part bucket name e s = let (ignored, s') = delete bucket name s in (err e, s')

  -- io.Copy and Close, once the writer is there.
  write_part : Bytes → ℤ → Bytes → Writer → Source Err → State → Result (GcsError Err) Part × State
  unfolding remove_part
  write_part bucket number name w r s =
      let (n, failure, s') = io_copy write w r 0 s in
      let (close_failure, s'') = close w s' in
      elim failure [
        | some e ↦ remove_part bucket name (uploading_part number e) s''
        | none ↦ elim close_failure [
          | some e ↦ remove_part bucket name (closing_part number e) s''
          | none ↦ (ok (record { number = number; size = pos n; tag = name }), s'')
        ]
      ]

  unfoldable pub gcs_upload_part :
      GcsUploader → ℤ → Source Err → State → Result (GcsError Err) Part × State
  unfolding write_part
  gcs_upload_part u number r s =
      if u.finished then (err closed, s) else elim (validate_part_number number gcs_constraints) [
        | some e ↦ (err (invalid_parts e), s)
        | none ↦
            let name = part_name u number in
            let (w, s') = new_writer u.bucket name s in write_part u.bucket number name w r s'
      ]

  -- One object of the listing, as a part; a name that is not a number is none.
  pub staged_part : Bytes → Bytes → ℤ → Option Part
  staged_part prefix name size = elim (parse_int (trim_prefix name prefix)) [
    | none ↦ none
    | some number ↦ some (record { number = number; size = size; tag = name })
  ]

  -- The loop over the listing.
  pub staged_parts : Bytes → Listing Err → Result Err (List Part)
  unfolding staged_part
  staged_parts prefix done = ok []
  staged_parts prefix (failed e) = err e
  staged_parts prefix (object name size l) = elim (staged_part prefix name size) [
    | none ↦ staged_parts prefix l
    | some p ↦ staged_parts prefix l >>= (λ parts. ok (p ∷ parts))
  ]

  -- `if len(parts) == 0`, and the order
  sort_staged : List Part → Result (GcsError Err) (List Part)
  sort_staged [] = ok []
  sort_staged (p ∷ l) = elim (sort_parts (p ∷ l)) [
    | err e ↦ err (invalid_parts e)
    | ok ordered ↦ ok ordered
  ]

  unfoldable pub gcs_list_parts : GcsUploader → State → Result (GcsError Err) (List Part)
  unfolding staged_parts sort_staged
  gcs_list_parts u s =
      elim (staged_parts (gcs_staging_prefix u) (list u.bucket (gcs_staging_prefix u) s)) [
        | err e ↦ err (calling e)
        | ok parts ↦ sort_staged parts
      ]
