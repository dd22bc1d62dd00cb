-- ===== src/Upload/Examples/Aborts.antt =====
-- Abort at concrete uploads.
use gocloud_ext.Common.{
  Bytes, codes, [], ◌∷◌, none, some, Result, err, true, false, eqb, has_prefix, ◌≡◌, refl,
}
use gocloud_ext.Blob.{ErrorCode, internal}
use gocloud_ext.Blob.Laws.{CanDelete}
use gocloud_ext.Blob.Memory.{find, remove, listing}
use gocloud_ext.Blob.Memory.Kept.{memory_laws, memory-CanDelete}
use gocloud_ext.Upload.{Manifest, upload_not_found, driver, staging_prefix, manifest_key}
use gocloud_ext.Upload.Create.{open_upload}
use gocloud_ext.Upload.Finish.{abort, delete_staged}
use gocloud_ext.Upload.Finish.Abort.{abort_clears, open_upload-abort, open_upload-abort_partial}
use gocloud_ext.Upload.Examples.{upload, staged, plain, stuck, stuck_keys}

no_json : Bytes → Result ErrorCode Manifest
no_json body = err internal

aborts : (abort plain upload staged).0 ≡ none
unfolding abort delete_staged listing has_prefix remove find eqb staging_prefix manifest_key
aborts = refl

stuck_aborts : (abort stuck upload staged).0 ≡ some (driver internal)
unfolding abort delete_staged listing has_prefix remove find eqb staging_prefix manifest_key
stuck_aborts = refl

-- The first part is left behind.
stuck_leaves :
    find (abort stuck upload staged).2.objects (codes "big.gocdkmpu.0a/00001") ≡ some (7 ∷ 8 ∷ [])
unfolding abort delete_staged listing has_prefix remove find eqb staging_prefix manifest_key
stuck_leaves = refl

abort_clears_example :
    (has_prefix (codes "other") (staging_prefix upload) ≡ true
      → (memory_laws (λ k. false)).stored (abort plain upload staged).2 (codes "other") ≡ none)
    × (has_prefix (codes "other") (staging_prefix upload) ≡ false
        → (memory_laws (λ k. false)).stored (abort plain upload staged).2 (codes "other")
          ≡ (memory_laws (λ k. false)).stored staged (codes "other"))
abort_clears_example =
    abort_clears plain (memory_laws (λ k. false)) upload staged (codes "other") refl aborts

open_upload-abort_example :
    open_upload plain no_json false (codes "big") (codes "0a") (abort plain upload staged).2
    ≡ err (upload_not_found (codes "0a") (codes "big"))
open_upload-abort_example =
    open_upload-abort plain (memory_laws (λ k. false)) no_json upload staged refl aborts

CanDelete-manifest : CanDelete stuck (manifest_key upload)
unfolding eqb manifest_key staging_prefix
CanDelete-manifest = memory-CanDelete stuck_keys (manifest_key upload) refl

open_upload-abort_partial_example :
    open_upload stuck no_json false (codes "big") (codes "0a") (abort stuck upload staged).2
    ≡ err (upload_not_found (codes "0a") (codes "big"))
open_upload-abort_partial_example =
    open_upload-abort_partial stuck (memory_laws stuck_keys) no_json upload staged refl
      CanDelete-manifest
