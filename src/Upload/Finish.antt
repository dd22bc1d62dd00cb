-- ===== src/Upload/Finish.antt =====
-- Commit and Abort of blob/multipart/bucket.go.
pub mod Commit
pub mod Abort
pub mod Cleanup
pub mod Frame
pub mod Missing
use gocloud_ext.Common.{
  ℤ, pos, Bytes, Bool, true, ◌&&◌, not, if◌then◌else◌, List, [], ◌∷◌, Option, none, some, Result,
  ok, err, eqb,
}
use gocloud_ext.Multipart.{Part, sort_parts, check_part_sizes}
use gocloud_ext.Blob.{Bucket, is_not_found, Source, Listing, done, failed, object, io_copy}
use gocloud_ext.Upload.{
  Uploader, Error, closed, invalid_parts, foreign_tag, missing_part, copying_part, driver,
  constraints, part_key, staging_prefix, manifest_key, writer_options,
}

-- A package-level error of a driver, where the code returns it as it is.
abbrev driver_error : {E : Type 0} → Option E → Option (Error E)
driver_error none = none
driver_error (some e) = some (driver e)

-- `if firstErr == nil { firstErr = err }`
abbrev pub first_error : {E : Type 0} → Option E → Option E → Option E
first_error (some e) f = some e
first_error none f = f

module _ (b : Bucket) where
  open b use {State, Err, Writer, code, new_writer, close, new_reader, delete, list}

  -- A failed Delete, unless the object was not there.
  delete_failure : Option Err → Option Err
  delete_failure none = none
  delete_failure (some e) = if is_not_found (code e) then none else some e

  -- One object of the listing; the manifest is skipped.
  delete_object : Bytes → Bytes → Option Err → State → Option Err × State
  unfolding delete_failure
  delete_object manifest key first s =
      let (failure, s') = delete key s in
      if eqb key manifest then (first, s) else (first_error first (delete_failure failure), s')

  -- The loop of deleteStagedErr, with its firstErr.
  delete_listed : Bytes → Listing Err → Option Err → State → Option Err × State
  delete_listed manifest done first s = (first, s)
  delete_listed manifest (failed e) first s = (first_error first (some e), s)
  delete_listed manifest (object key size l) first s =
      let (first', s') = delete_object manifest key first s in delete_listed manifest l first' s'

  -- deleteStagedErr: the staged objects, and then the manifest.
  unfoldable pub delete_staged : Uploader → State → Option Err × State
  unfolding delete_listed delete_object
  delete_staged u s =
      let (first, s') = delete_listed (manifest_key u) (list (staging_prefix u) s) none s in
      let (failure, s'') = delete (manifest_key u) s' in
      (first_error first (delete_failure failure), s'')

  -- The check that every tag belongs to this upload.
  unfoldable pub find_foreign : Uploader → List Part → Option (Error Err)
  find_foreign u [] = none
  find_foreign u (p ∷ l) =
      if not (eqb p.tag []) && not (eqb p.tag (part_key u p.number))
      then some (foreign_tag p.number p.tag u.upload_id)
      else find_foreign u l

  copy_failure : ℤ → Option Err → Option (Error Err)
  copy_failure number none = none
  copy_failure number (some e) = some (copying_part number e)

  unfoldable pub copy_part : Uploader → Writer → Part → State → Option (Error Err) × State
  unfolding copy_failure
  copy_part u w p s = elim (new_reader (part_key u p.number) s) [
    | err e ↦ (
      if is_not_found (code e) then some (missing_part p.number u.upload_id e) else some (driver e),
      s,
    )
    | ok r ↦ let (n, failure, s') = io_copy b.write w r 0 s in (copy_failure p.number failure, s')
  ]

  -- The loop over the ordered parts; it stops at the first failure.
  pub copy_parts : Uploader → Writer → List Part → State → Option (Error Err) × State
  copy_parts u w [] s = (none, s)
  copy_parts u w (p ∷ l) s =
      let (failure, s') = copy_part u w p s in
      elim failure [ none ↦ copy_parts u w l s' | some e ↦ (some e, s') ]

  -- After the copies and Close, which publishes: the clean-up, whose failures are ignored.
  clean_up : Uploader → State → Option (Error Err) × Uploader × State
  clean_up u s = let (ignored, s') = delete_staged u s in (none, record u { finished = true }, s')

  publish : Uploader → Writer → List Part → State → Option (Error Err) × Uploader × State
  unfolding copy_parts clean_up
  publish u w ordered s =
      let (failure, s') = copy_parts u w ordered s in
      let (close_failure, s'') = close w s' in
      elim failure [
        | some e ↦ (some e, u, s'')
        | none ↦ elim close_failure [ some e ↦ (some (driver e), u, s'') | none ↦ clean_up u s'' ]
      ]

  assemble : Uploader → List Part → State → Option (Error Err) × Uploader × State
  unfolding publish
  assemble u ordered s =
      let (opened, s') = new_writer u.key (writer_options u) s in
      elim opened [ err e ↦ (some (driver e), u, s') | ok w ↦ publish u w ordered s' ]

  unfoldable pub commit : Uploader → List Part → State → Option (Error Err) × Uploader × State
  unfolding assemble find_foreign
  commit u parts s = if u.finished then (some closed, u, s) else elim (sort_parts parts) [
    | err e ↦ (some (invalid_parts e), u, s)
    | ok ordered ↦ elim (check_part_sizes ordered constraints) [
      | some e ↦ (some (invalid_parts e), u, s)
      | none ↦ elim (find_foreign u ordered) [
        | some e ↦ (some e, u, s)
        | none ↦ assemble u ordered s
      ]
    ]
  ]

  unfoldable pub abort : Uploader → State → Option (Error Err) × Uploader × State
  abort u s =
      if u.finished
      then (none, u, s)
      else (let (failure, s') = delete_staged u s in
          (driver_error failure, record u { finished = true }, s'))
