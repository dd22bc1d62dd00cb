-- ===== src/Gcs/Finish/Frame.antt =====
-- Commit: what it leaves alone.
use gocloud_ext.Common.{
  Bytes, false, List, [], ◌∷◌, length, Option, none, some, eqb, has_prefix, ◌≡◌, refl, ap, ◌∙◌,
  Bool-cases, Option-cases, Result-cases, inl, inr,
}
use gocloud_ext.Multipart.{Part, sort_parts}
use gocloud_ext.Gcs.{GcsClient, GcsUploader, GcsError, gcs_staging_prefix, finalising, composing}
use gocloud_ext.Gcs.Laws.{GcsLaws}
use gocloud_ext.Gcs.Compose.{compose_tree}
use gocloud_ext.Gcs.Compose.Frame.{compose_tree-stored_outside}
use gocloud_ext.Gcs.Finish.{
  wrapped, place_object, finish_commit, compose_parts, gcs_commit, source_names,
}
use gocloud_ext.Gcs.Finish.Cleanup.{gcs_delete_staged-stored}
use gocloud_ext.Gcs.Finish.Commit.{attrs}

module _ (c : GcsClient) (to_lower : Bytes → Bytes) (u : GcsUploader) (laws : GcsLaws c u.bucket)
    (j : Bytes) (outside : has_prefix j (gcs_staging_prefix u) ≡ false)
    (other : eqb u.name j ≡ false) where
  open c use {State, Err, compose, copy}
  open laws use {stored, compose-stored_ne, copy-stored_ne}

  wrapped-state :
      (f : Err → GcsError Err) (o : Option Err × State) → (wrapped c to_lower f o).1 ≡ o.1
  unfolding wrapped
  wrapped-state f (none, s) = refl
  wrapped-state f (some e, s) = refl

  place_object-stored_ne :
      (l : List Bytes) (s : State) → stored (place_object c to_lower u l s).1 j ≡ stored s j
  unfolding place_object
  place_object-stored_ne [] s = refl
  place_object-stored_ne (x ∷ []) s = elim (Bool-cases (eqb x u.name)) [
    | inl e ↦ rw (e, place_object) refl
    | inr e ↦
        let a = attrs c to_lower u laws in
        rw (e, place_object)
          (ap (λ t. stored t j) (wrapped-state (finalising u.name) (copy u.bucket u.name a x s))
            ∙ copy-stored_ne u.name a x s j other)
  ]
  place_object-stored_ne (x ∷ y ∷ l) s =
      let a = attrs c to_lower u laws in
      ap (λ t. stored t j)
        (wrapped-state (composing u.name) (compose u.bucket u.name a (x ∷ y ∷ l) s))
      ∙ compose-stored_ne u.name a (x ∷ y ∷ l) s j other

  finish_commit-stored_ne :
      (l : List Bytes) (s : State) → stored (finish_commit c to_lower u l s).2 j ≡ stored s j
  unfolding finish_commit
  finish_commit-stored_ne l s =
      let s' = (place_object c to_lower u l s).1 in
      elim (Option-cases (place_object c to_lower u l s).0) [
        | inr (e, f) ↦ rw (f, finish_commit) (place_object-stored_ne l s)
        | inl f ↦
            rw (f, finish_commit)
              (gcs_delete_staged-stored c u laws s' j outside ∙ place_object-stored_ne l s)
      ]

  compose_parts-stored_ne :
      (l : List Part) (s : State) → stored (compose_parts c to_lower u l s).2 j ≡ stored s j
  unfolding compose_parts
  compose_parts-stored_ne l s =
      let names = source_names u l in
      let s' = (compose_tree c (length names) u 0 names s).1 in
      let first = compose_tree-stored_outside c u laws j outside (length names) 0 names s in
      elim (Result-cases (compose_tree c (length names) u 0 names s).0) [
        | inr (e, f) ↦ rw (f, compose_parts) first
        | inl (final, f) ↦ rw (f, compose_parts) (finish_commit-stored_ne final s' ∙ first)
      ]

  -- A Commit, whatever its outcome, changes no object but the destination and those under the staging
  -- prefix.
  pub gcs_commit-stored_ne :
      (parts : List Part) (s : State) → stored (gcs_commit c to_lower u parts s).2 j ≡ stored s j
  unfolding gcs_commit
  gcs_commit-stored_ne parts s = elim (Bool-cases u.finished) [
    | inl z ↦ rw (z, gcs_commit) refl
    | inr z ↦ elim (Result-cases (sort_parts parts)) [
      | inr (e, h) ↦ rw (z, h, gcs_commit) refl
      | inl (ordered, h) ↦ rw (z, h, gcs_commit) (compose_parts-stored_ne ordered s)
    ]
  ]
