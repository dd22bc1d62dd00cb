-- ===== src/Upload/Finish/Abort.antt =====
-- Abort, and what Open says of an upload afterwards.
use gocloud_ext.Common.{
  Bytes, true, false, none, Result, err, has_prefix, ◌≡◌, refl, arith, Bool-cases, inl, inr,
}
use gocloud_ext.Blob.{Bucket}
use gocloud_ext.Blob.Laws.{Laws, CanDelete}
use gocloud_ext.Upload.{Uploader, Manifest, upload_not_found, manifest_key, staging_prefix}
use gocloud_ext.Upload.Create.{open_upload}
use gocloud_ext.Upload.Staging.{manifest_key-prefix}
use gocloud_ext.Upload.Finish.{abort, driver_error, delete_staged}
use gocloud_ext.Upload.Finish.Cleanup.{
  delete_staged-none, delete_staged-manifest, delete_staged-stored,
}

module _ (b : Bucket) where
  abort_live :
      (u : Uploader) (s : b.State)
      → u.finished ≡ false
      → abort b u s ≡ (
        driver_error (delete_staged b u s).0,
        record u { finished = true },
        (delete_staged b u s).1,
      )
  unfolding abort
  abort_live u s live = simp live

  abort_finished : (u : Uploader) (s : b.State) → u.finished ≡ true → abort b u s ≡ (none, u, s)
  unfolding abort
  abort_finished u s done = simp done

  -- Abort finishes the uploader, and a second Abort reports no error and changes nothing.
  pub abort_twice :
      (u : Uploader) (s t : b.State)
      → ((abort b u s).1.finished ≡ true) × (abort b (abort b u s).1 t ≡ (none, (abort b u s).1, t))
  abort_twice u s t = elim (Bool-cases u.finished) [
    | inl e ↦ rw (abort_finished u s e) (e, abort_finished u t e)
    | inr e ↦ rw (abort_live u s e) (refl, abort_finished (record u { finished = true }) t refl)
  ]

module _ (b : Bucket) (laws : Laws b) where
  open b use {State, Err, delete}
  open laws use {stored, read_all-not_found}

  -- An Abort of a live uploader that reports no error leaves no object under its staging prefix, and
  -- every other object as it was.
  pub abort_clears :
      (u : Uploader) (s : State) (j : Bytes)
      → u.finished ≡ false
      → (abort b u s).0 ≡ none
      → ((has_prefix j (staging_prefix u) ≡ true → stored (abort b u s).2 j ≡ none)
          × (has_prefix j (staging_prefix u) ≡ false → stored (abort b u s).2 j ≡ stored s j))
  abort_clears u s j live h =
      let quiet : (delete_staged b u s).0 ≡ none = ground (arith, abort_live b u s live) in
      rw (abort_live b u s live)
        ((λ p. delete_staged-none b laws u s quiet j p), delete_staged-stored b laws u s j)

  open_upload_absent :
      (unmarshal : Bytes → Result Err Manifest) (u : Uploader) (s : State)
      → stored s (manifest_key u) ≡ none
      → open_upload b unmarshal false u.key u.upload_id s ≡ err (upload_not_found u.upload_id u.key)
  unfolding open_upload manifest_key staging_prefix
  open_upload_absent unmarshal u s h =
      let (e, failed, absent) = read_all-not_found (manifest_key u) s h in
      ground (arith, failed, absent)

  -- After an Abort without error of an uploader that is not finished, Open reports that there is no such
  -- upload.
  pub open_upload-abort :
      (unmarshal : Bytes → Result Err Manifest) (u : Uploader) (s : State)
      → u.finished ≡ false
      → (abort b u s).0 ≡ none
      → open_upload b unmarshal false u.key u.upload_id (abort b u s).2
        ≡ err (upload_not_found u.upload_id u.key)
  open_upload-abort unmarshal u s live h =
      open_upload_absent unmarshal u (abort b u s).2
        ((abort_clears u s (manifest_key u) live h).0 (manifest_key-prefix u))

  -- Where the Delete of the manifest succeeds, Open no longer finds the upload after an Abort, also
  -- when that Abort reported that a part could not be deleted.
  pub open_upload-abort_partial :
      (unmarshal : Bytes → Result Err Manifest) (u : Uploader) (s : State)
      → u.finished ≡ false
      → CanDelete b (manifest_key u)
      → open_upload b unmarshal false u.key u.upload_id (abort b u s).2
        ≡ err (upload_not_found u.upload_id u.key)
  open_upload-abort_partial unmarshal u s live h =
      open_upload_absent unmarshal u (abort b u s).2
        (rw (abort_live b u s live) (delete_staged-manifest b laws u s h))
