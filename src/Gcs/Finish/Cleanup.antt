-- ===== src/Gcs/Finish/Cleanup.antt =====
-- deleteStagedErr: what it leaves alone, and what is gone when it reports no error.
use mathlib.Core.Path.{subst}
use gocloud_ext.Common.{
  Bytes, true, false, Option, none, eqb, eqb_iff, has_prefix, ◌≡◌, refl, sym, ◌∙◌, arith,
  Option-cases, Bool-cases, inl, inr,
}
use gocloud_ext.Blob.{Listing, done, failed, object}
use gocloud_ext.Blob.Laws.{AllHavePrefix, lists_key}
use gocloud_ext.Upload.{Uploader, staging_prefix}
use gocloud_ext.Upload.Staging.{key-not_staged, eqb_of_prefix}
use gocloud_ext.Upload.Finish.{first_error}
use gocloud_ext.Gcs.{GcsClient, GcsUploader, gcs_staging_prefix}
use gocloud_ext.Gcs.Laws.{GcsLaws}
use gocloud_ext.Gcs.Finish.{delete_found, not_deleted, gcs_delete_staged}

-- The generic uploader has the same names.
pub name-not_staged : (u : GcsUploader) → has_prefix u.name (gcs_staging_prefix u) ≡ false
unfolding gcs_staging_prefix staging_prefix
name-not_staged u =
    let twin : Uploader = record {
      key = u.name;
      upload_id = u.upload_id;
      opts = u.opts;
      finished = u.finished;
    } in
    key-not_staged twin

module _ (c : GcsClient) (u : GcsUploader) (laws : GcsLaws c u.bucket) where
  open c use {State, Err, delete, is_not_exist, list}
  open laws use {
    stored, delete-stored_self, delete-stored_not_exist, delete-stored_ne, list-prefix,
    list-complete,
  }

  delete_found-stored :
      (p : Bytes) (l : Listing Err) (first : Option Err) (s : State) (j : Bytes)
      → AllHavePrefix p l
      → has_prefix j p ≡ false
      → stored (delete_found c u.bucket l first s).1 j ≡ stored s j
  unfolding delete_found
  delete_found-stored p done first s j a h = refl
  delete_found-stored p (failed e) first s j a h = refl
  delete_found-stored p (object k n l) first s j a h =
      let (failure, s') = delete u.bucket k s in
      delete_found-stored p l (first_error first (not_deleted c failure)) s' j a.1 h
      ∙ delete-stored_ne k s j (eqb_of_prefix p k j a.0 h)

  -- The clean-up touches nothing outside the staging prefix.
  pub gcs_delete_staged-stored :
      (s : State) (j : Bytes)
      → has_prefix j (gcs_staging_prefix u) ≡ false
      → stored (gcs_delete_staged c u s).1 j ≡ stored s j
  unfolding gcs_delete_staged
  gcs_delete_staged-stored s j h =
      let p = gcs_staging_prefix u in
      delete_found-stored p (list u.bucket p s) none s j (list-prefix p s) h

  -- A Delete that counts as no failure leaves no object.
  deleted-stored :
      (k : Bytes) (s : State)
      → not_deleted c (delete u.bucket k s).0 ≡ none
      → stored (delete u.bucket k s).1 k ≡ none
  unfolding not_deleted
  deleted-stored k s h = elim (Option-cases (delete u.bucket k s).0) [
    | inl e ↦ delete-stored_self k s e
    | inr (x, e) ↦ delete-stored_not_exist k s x e (ground arith)
  ]

  deleted-keeps :
      (k : Bytes) (s : State) (j : Bytes)
      → not_deleted c (delete u.bucket k s).0 ≡ none
      → stored s j ≡ none
      → stored (delete u.bucket k s).1 j ≡ none
  deleted-keeps k s j h n = elim (Bool-cases (eqb k j)) [
    | inl e ↦ let same = (eqb_iff k j).0 e in rw (sym same) (deleted-stored k s h)
    | inr e ↦ delete-stored_ne k s j e ∙ n
  ]

  both_none :
      (first failure : Option Err)
      → first_error first failure ≡ none
      → (first ≡ none) × (failure ≡ none)
  both_none first failure h = (ground arith, ground arith)

  delete_found-none :
      (l : Listing Err) (first : Option Err) (s : State)
      → (delete_found c u.bucket l first s).0 ≡ none
      → (first ≡ none)
        × ((j : Bytes) → stored s j ≡ none → stored (delete_found c u.bucket l first s).1 j ≡ none)
        × ((j : Bytes)
            → lists_key j l ≡ true
            → stored (delete_found c u.bucket l first s).1 j ≡ none)
  unfolding delete_found
  delete_found-none done first s h = (h, (λ j n. n), λ j i. absurd (cc))
  delete_found-none (failed e) first s h = absurd (ground arith)
  delete_found-none (object k n l) first s h =
      let (failure, s') = delete u.bucket k s in
      let (quiet, keeps, gone) =
        delete_found-none l (first_error first (not_deleted c failure)) s' h in
      let (start, clean) = both_none first (not_deleted c failure) quiet in
      (
        start,
        (λ j z. keeps j (deleted-keeps k s j clean z)),
        λ j i. elim (Bool-cases (eqb k j)) [
          | inl e ↦
              let same = (eqb_iff k j).0 e in
              keeps j (subst (λ t. stored s' t ≡ none) same (deleted-stored k s clean))
          | inr e ↦ gone j (ground arith)
        ],
      )

  -- A clean-up that reports no error leaves no object under the staging prefix.
  pub gcs_delete_staged-none :
      (s : State)
      → (gcs_delete_staged c u s).0 ≡ none
      → (j : Bytes) → has_prefix j (gcs_staging_prefix u) ≡ true
      → stored (gcs_delete_staged c u s).1 j ≡ none
  unfolding gcs_delete_staged
  gcs_delete_staged-none s h j p =
      let listing = list u.bucket (gcs_staging_prefix u) s in
      let (start, keeps, gone) = delete_found-none listing none s h in
      elim (Option-cases (stored s j)) [
        | inl absent ↦ keeps j absent
        | inr (d, there) ↦ gone j (list-complete (gcs_staging_prefix u) s j d p there)
      ]
