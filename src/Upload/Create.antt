-- ===== src/Upload/Create.antt =====
-- NewUploader and Open of blob/multipart/bucket.go. The JSON codec of the manifest and what
-- crypto/rand reads are parameters.
pub mod Resume
use gocloud_ext.Common.{
  Bytes, Bool, false, ◌||◌, if◌then◌else◌, [], Option, none, some, Result, ok, err, eqb, contains,
}
use gocloud_ext.Multipart.{Options}
use gocloud_ext.Blob.{Bucket, is_not_found}
use gocloud_ext.Upload.{
  Manifest, Uploader, Error, upload_not_found, other_key, nil_bucket, empty_key, reserved_infix,
  generating_id, marshaling_manifest, writing_manifest, unreadable_manifest, driver, hex_encode,
  manifest_key, manifest_options, staging_infix,
}

module _ (b : Bucket) where
  open b use {State, Err, code, write_all, read_all}

  module _ (marshal : Manifest → Result Err Bytes) where
    -- Once the ID is drawn: the manifest is written first.
    start_upload : Bytes → Option Options → Bytes → State → Result (Error Err) Uploader × State
    start_upload key opts id s =
        let u : Uploader = record { key = key; upload_id = id; opts = opts; finished = false } in
        elim (marshal (record { key = key; options = opts })) [
          | err e ↦ (err (marshaling_manifest e), s)
          | ok body ↦
              let (failure, s') = write_all (manifest_key u) body (some manifest_options) s in
              elim failure [ none ↦ (ok u, s') | some e ↦ (err (writing_manifest e), s') ]
        ]

    -- NewUploader: whether the bucket is nil, the key, the options, and what crypto/rand reads.
    unfoldable pub new_uploader :
        Bool
        → Bytes
        → Option Options
        → Result Err Bytes
        → State
        → Result (Error Err) Uploader × State
    unfolding start_upload
    new_uploader is_nil key opts random s =
        if is_nil
        then (err nil_bucket, s)
        else if eqb key []
        then (err empty_key, s)
        else if contains key staging_infix
        then (err (reserved_infix key), s)
        else elim random [
          | err e ↦ (err (generating_id e), s)
          | ok r ↦ start_upload key opts (hex_encode r) s
        ]

  module _ (unmarshal : Bytes → Result Err Manifest) where
    resume_with : Bytes → Bytes → Result Err Manifest → Result (Error Err) Uploader
    resume_with key id (err e) = err (unreadable_manifest id e)
    resume_with key id (ok m) =
        if eqb m.key key
        then ok (record { key = key; upload_id = id; opts = m.options; finished = false })
        else err (other_key id m.key key)

    -- Open
    unfoldable pub open_upload : Bool → Bytes → Bytes → State → Result (Error Err) Uploader
    unfolding resume_with
    open_upload is_nil key id s =
        if is_nil
        then err nil_bucket
        else if eqb key [] || eqb id []
        then err (upload_not_found id key)
        else elim (read_all
            (manifest_key (record { key = key; upload_id = id; opts = none; finished = false }))
            s) [
              | err e ↦
                  if is_not_found (code e) then err (upload_not_found id key) else err (driver e)
              | ok body ↦ resume_with key id (unmarshal body)
            ]
