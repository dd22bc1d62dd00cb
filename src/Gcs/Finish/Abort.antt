-- ===== src/Gcs/Finish/Abort.antt =====
-- Abort: what it removes, and what it leaves alone.
use gocloud_ext.Common.{
  Bytes, true, false, none, has_prefix, if◌then◌else◌, ◌≡◌, refl, arith, Bool-cases, inl, inr,
}
use gocloud_ext.Gcs.{GcsClient, GcsUploader, gcs_staging_prefix}
use gocloud_ext.Gcs.Laws.{GcsLaws}
use gocloud_ext.Gcs.Finish.{gcs_abort, abort_error, gcs_delete_staged}
use gocloud_ext.Gcs.Finish.Cleanup.{gcs_delete_staged-stored, gcs_delete_staged-none}

module _ (c : GcsClient) (u : GcsUploader) (laws : GcsLaws c u.bucket) where
  open laws use {stored}

  gcs_abort_live :
      (s : c.State)
      → u.finished ≡ false
      → gcs_abort c u s ≡ (
        abort_error c (gcs_delete_staged c u s).0,
        record u { finished = true },
        (gcs_delete_staged c u s).1,
      )
  unfolding gcs_abort
  gcs_abort_live s live = simp live

  -- An Abort of a live uploader that reports no error finishes it, leaves no object under its staging
  -- prefix, intermediates included, and every other object as it was.
  pub gcs_abort_clears :
      (s : c.State) (j : Bytes)
      → u.finished ≡ false
      → (gcs_abort c u s).0 ≡ none
      → ((gcs_abort c u s).1 ≡ record u { finished = true })
        × (stored (gcs_abort c u s).2 j
            ≡ (if has_prefix j (gcs_staging_prefix u) then none else stored s j))
  unfolding abort_error
  gcs_abort_clears s j live h =
      let quiet : (gcs_delete_staged c u s).0 ≡ none = ground (arith, gcs_abort_live s live) in
      rw (gcs_abort_live s live) (
        refl,
        elim (Bool-cases (has_prefix j (gcs_staging_prefix u))) [
          | inl p ↦ rw p (gcs_delete_staged-none c u laws s quiet j p)
          | inr p ↦ rw p (gcs_delete_staged-stored c u laws s j p)
        ],
      )
