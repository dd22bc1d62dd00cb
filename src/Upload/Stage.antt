-- ===== src/Upload/Stage.antt =====
-- UploadPart and ListParts of blob/multipart/bucket.go.
pub mod Written
pub mod Listed
use gocloud_ext.Common.{
  ℤ, pos, Bytes, Bool, if◌then◌else◌, List, [], ◌∷◌, Option, none, some, Result, ok, err, eqb,
  trim_prefix,
}
use gocloud_ext.Multipart.{Part, validate_part_number, sort_parts}
use gocloud_ext.Decimal.{parse_int}
use gocloud_ext.Blob.{Bucket, Source, Listing, done, failed, object, io_copy}
use gocloud_ext.Upload.{
  Uploader, Error, closed, invalid_parts, driver, constraints, part_key, staging_prefix,
  manifest_name,
}

module _ (b : Bucket) where
  open b use {State, Err, Writer, new_writer, close, delete, list}

  -- UploadPart's error path: the object under the part's name is deleted.
  drop_part : Bytes → Err → State → Result (Error Err) Part × State
  drop_part key e s = let (ignored, s') = delete key s in (err (driver e), s')

  -- io.Copy and Close, with the part's name.
  fill_part : ℤ → Bytes → Writer → Source Err → State → Result (Error Err) Part × State
  unfolding drop_part
  fill_part number key w r s =
      let (n, failure, s') = io_copy b.write w r 0 s in
      let (close_failure, s'') = close w s' in
      elim failure [
        | some e ↦ drop_part key e s''
        | none ↦ elim close_failure [
          | some e ↦ drop_part key e s''
          | none ↦ (ok (record { number = number; size = pos n; tag = key }), s'')
        ]
      ]

  stage_part : ℤ → Bytes → Source Err → State → Result (Error Err) Part × State
  unfolding fill_part
  stage_part number key r s =
      let (opened, s') = new_writer key none s in
      elim opened [ err e ↦ (err (driver e), s') | ok w ↦ fill_part number key w r s' ]

  unfoldable pub upload_part : Uploader → ℤ → Source Err → State → Result (Error Err) Part × State
  unfolding stage_part
  upload_part u number r s =
      if u.finished then (err closed, s) else elim (validate_part_number number constraints) [
        | some e ↦ (err (invalid_parts e), s)
        | none ↦ stage_part number (part_key u number) r s
      ]

  -- One object of the listing, as a part; the manifest and foreign names are none.
  pub listed_part : Bytes → Bytes → ℤ → Option Part
  listed_part prefix key size =
      let name = trim_prefix key prefix in
      if eqb name manifest_name then none else elim (parse_int name) [
        | none ↦ none
        | some number ↦ some (record { number = number; size = size; tag = key })
      ]

  unfoldable pub collect_parts : Bytes → Listing Err → Result Err (List Part)
  unfolding listed_part
  collect_parts prefix done = ok []
  collect_parts prefix (failed e) = err e
  collect_parts prefix (object key size l) = elim (listed_part prefix key size) [
    | none ↦ collect_parts prefix l
    | some p ↦ elim (collect_parts prefix l) [ err e ↦ err e | ok parts ↦ ok (p ∷ parts) ]
  ]

  sort_listed : List Part → Result (Error Err) (List Part)
  sort_listed [] = ok []
  sort_listed (p ∷ l) = elim (sort_parts (p ∷ l)) [
    | err e ↦ err (invalid_parts e)
    | ok out ↦ ok out
  ]

  unfoldable pub list_parts : Uploader → State → Result (Error Err) (List Part)
  unfolding collect_parts sort_listed
  list_parts u s = elim (collect_parts (staging_prefix u) (list (staging_prefix u) s)) [
    | err e ↦ err (driver e)
    | ok parts ↦ sort_listed parts
  ]
