-- ===== src/Upload/Finish/Cleanup.antt =====
-- deleteStagedErr: what it leaves alone, and what is gone when it reports no error.
use mathlib.Core.Path.{subst}
use gocloud_ext.Common.{
  Bytes, true, false, Option, none, eqb, eqb_iff, has_prefix, ◌≡◌, refl, sym, ◌∙◌, arith,
  Option-cases, Bool-cases, inl, inr,
}
use gocloud_ext.Blob.{Bucket, ErrorCode, not_found, is_not_found, Listing, done, failed, object}
use gocloud_ext.Blob.Laws.{Laws, AllHavePrefix, lists_key, CanDelete, delete-stored}
use gocloud_ext.Upload.{Uploader, staging_prefix, manifest_key}
use gocloud_ext.Upload.Staging.{manifest_key-prefix, eqb_of_prefix}
use gocloud_ext.Upload.Finish.{delete_listed, delete_object, delete_failure, delete_staged}

module _ (b : Bucket) (laws : Laws b) where
  open b use {State, Err, delete, code, list}
  open laws use {
    stored, delete-stored_self, delete-stored_not_found, delete-stored_ne, list-prefix,
    list-complete,
  }

  delete_object-stored :
      (m k : Bytes) (first : Option Err) (s : State) (j : Bytes)
      → eqb k j ≡ false
      → stored (delete_object b m k first s).1 j ≡ stored s j
  unfolding delete_object
  delete_object-stored m k first s j h = ground (arith, delete-stored_ne k s j h)

  delete_listed-stored :
      (p m : Bytes) (l : Listing Err) (first : Option Err) (s : State) (j : Bytes)
      → AllHavePrefix p l
      → has_prefix j p ≡ false
      → stored (delete_listed b m l first s).1 j ≡ stored s j
  unfolding delete_listed
  delete_listed-stored p m done first s j a h = refl
  delete_listed-stored p m (failed e) first s j a h = refl
  delete_listed-stored p m (object k n l) first s j a h =
      let (first', s') = delete_object b m k first s in
      delete_listed-stored p m l first' s' j a.1 h
      ∙ delete_object-stored m k first s j (eqb_of_prefix p k j a.0 h)

  -- The clean-up touches nothing outside the staging prefix.
  pub delete_staged-stored :
      (u : Uploader) (s : State) (j : Bytes)
      → has_prefix j (staging_prefix u) ≡ false
      → stored (delete_staged b u s).1 j ≡ stored s j
  unfolding delete_staged
  delete_staged-stored u s j h =
      let p = staging_prefix u in
      let (first, s') = delete_listed b (manifest_key u) (list p s) none s in
      delete-stored_ne (manifest_key u) s' j
        (eqb_of_prefix p (manifest_key u) j (manifest_key-prefix u) h)
      ∙ delete_listed-stored p (manifest_key u) (list p s) none s j (list-prefix p s) h

  not_found_of_is_not_found : (c : ErrorCode) → is_not_found c ≡ true → c ≡ not_found
  not_found_of_is_not_found c h = ground arith

  -- A Delete that counts as no failure leaves no object.
  delete-stored_none :
      (k : Bytes) (s : State)
      → delete_failure b (delete k s).0 ≡ none
      → stored (delete k s).1 k ≡ none
  unfolding delete_failure
  delete-stored_none k s h = elim (Option-cases (delete k s).0) [
    | inl e ↦ delete-stored_self k s e
    | inr (x, e) ↦
        delete-stored_not_found k s x e (not_found_of_is_not_found (code x) (ground arith))
  ]

  delete-keeps_none :
      (k : Bytes) (s : State) (j : Bytes)
      → delete_failure b (delete k s).0 ≡ none
      → stored s j ≡ none
      → stored (delete k s).1 j ≡ none
  delete-keeps_none k s j h n = elim (Bool-cases (eqb k j)) [
    | inl e ↦ let same = (eqb_iff k j).0 e in rw (sym same) (delete-stored_none k s h)
    | inr e ↦ delete-stored_ne k s j e ∙ n
  ]

  delete_object-none :
      (m k : Bytes) (first : Option Err) (s : State)
      → (delete_object b m k first s).0 ≡ none
      → (first ≡ none)
        × ((j : Bytes) → stored s j ≡ none → stored (delete_object b m k first s).1 j ≡ none)
        × (eqb k m ≡ false → stored (delete_object b m k first s).1 k ≡ none)
  unfolding delete_object
  delete_object-none m k first s h = elim (Bool-cases (eqb k m)) [
    | inl e ↦ rw (e, delete_object) (ground arith, (λ j n. n), λ n. absurd (cc))
    | inr e ↦
        let quiet : delete_failure b (delete k s).0 ≡ none = ground arith in
        rw (e, delete_object)
          (ground arith, (λ j. delete-keeps_none k s j quiet), λ n. delete-stored_none k s quiet)
  ]

  delete_listed-none :
      (m : Bytes) (l : Listing Err) (first : Option Err) (s : State)
      → (delete_listed b m l first s).0 ≡ none
      → (first ≡ none)
        × ((j : Bytes) → stored s j ≡ none → stored (delete_listed b m l first s).1 j ≡ none)
        × ((j : Bytes)
            → lists_key j l ≡ true
            → eqb j m ≡ false
            → stored (delete_listed b m l first s).1 j ≡ none)
  unfolding delete_listed
  delete_listed-none m done first s h = (h, (λ j n. n), λ j i n. absurd (cc))
  delete_listed-none m (failed e) first s h = absurd (ground arith)
  delete_listed-none m (object k n l) first s h =
      let (first', s') = delete_object b m k first s in
      let (quiet, keeps, gone) = delete_listed-none m l first' s' h in
      let (start, keeps', gone') = delete_object-none m k first s quiet in
      (
        start,
        (λ j z. keeps j (keeps' j z)),
        λ j i z. elim (Bool-cases (eqb k j)) [
          | inl e ↦
              let same = (eqb_iff k j).0 e in
              keeps j (
                subst (λ t. stored s' t ≡ none) same
                  (gone' (subst (λ t. eqb t m ≡ false) (sym same) z)))
          | inr e ↦ gone j (ground arith) z
        ],
      )

  -- A clean-up that reports no error leaves no object under the staging prefix.
  pub delete_staged-none :
      (u : Uploader) (s : State)
      → (delete_staged b u s).0 ≡ none
      → (j : Bytes) → has_prefix j (staging_prefix u) ≡ true
      → stored (delete_staged b u s).1 j ≡ none
  unfolding delete_staged
  delete_staged-none u s h j p =
      let m = manifest_key u in
      let listing = list (staging_prefix u) s in
      let (first, s') = delete_listed b m listing none s in
      let quiet : first ≡ none = ground arith in
      let last : delete_failure b (delete m s').0 ≡ none = ground arith in
      let (start, keeps, gone) = delete_listed-none m listing none s quiet in
      elim (Bool-cases (eqb j m)) [
        | inl e ↦
            let same = (eqb_iff j m).0 e in
            subst (λ t. stored (delete m s').1 t ≡ none) (sym same) (delete-stored_none m s' last)
        | inr e ↦ delete-keeps_none m s' j last (elim (Option-cases (stored s j)) [
          | inl absent ↦ keeps j absent
          | inr (c, there) ↦ gone j (list-complete (staging_prefix u) s j c p there) e
        ])
      ]

  -- The manifest is deleted whatever happened to the parts.
  pub delete_staged-manifest :
      (u : Uploader) (s : State)
      → CanDelete b (manifest_key u)
      → stored (delete_staged b u s).1 (manifest_key u) ≡ none
  unfolding delete_staged
  delete_staged-manifest u s h =
      let s' = (delete_listed b (manifest_key u) (list (staging_prefix u) s) none s).1 in
      delete-stored b laws (manifest_key u) s' h
