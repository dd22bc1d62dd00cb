-- ===== src/Gcs/Compose/Frame.antt =====
-- composeTree: what it leaves alone.
use gocloud_ext.Common.{
  ℕ, zero, suc, ◌+◌, ◌/◌, Bytes, false, List, [], ◌∷◌, ltb, length, take, drop, eqb, has_prefix,
  ◌≡◌, refl, ◌∙◌, arith, Bool-cases, Result-cases, inl, inr,
}
use gocloud_ext.Upload.Staging.{eqb_of_prefix}
use gocloud_ext.Gcs.{GcsClient, GcsUploader, gcs_staging_prefix}
use gocloud_ext.Gcs.Laws.{GcsLaws}
use gocloud_ext.Gcs.Compose.{compose_group, compose_groups, compose_tree, inter_name}
use gocloud_ext.Gcs.Compose.Names.{inter_name-prefix}
use gocloud_ext.Gcs.Compose.Rounds.{compose_group-stored_ne, compose_groups-state}

module _ (c : GcsClient) (u : GcsUploader) (laws : GcsLaws c u.bucket) where
  open c use {State}
  open laws use {stored}

  module _ (j : Bytes) (outside : has_prefix j (gcs_staging_prefix u) ≡ false) where
    not_inter : (r k : ℕ) → eqb (inter_name u r k) j ≡ false
    not_inter r k =
        eqb_of_prefix (gcs_staging_prefix u) (inter_name u r k) j (inter_name-prefix u r k) outside

    compose_groups-stored_outside :
        (fuel r i : ℕ) (l : List Bytes) (s : State)
        → stored (compose_groups c fuel u r i l s).1 j ≡ stored s j
    unfolding compose_groups
    compose_groups-stored_outside fuel r i [] s = ground arith
    compose_groups-stored_outside zero r i (x ∷ l) s = refl
    compose_groups-stored_outside (suc fuel) r i (x ∷ l) s =
        let s' = (compose_group c u r i (x ∷ take 31 l) s).1 in
        let first = compose_group-stored_ne c u laws r i x (take 31 l) s j (not_inter r (i / 32)) in
        elim (compose_groups-state c fuel u r i x l s) [
          | inl e ↦ rw e first
          | inr e ↦ rw e (compose_groups-stored_outside fuel r (i + 32) (drop 31 l) s' ∙ first)
        ]

    -- composeTree writes under the staging prefix only.
    pub compose_tree-stored_outside :
        (fuel r : ℕ) (l : List Bytes) (s : State)
        → stored (compose_tree c fuel u r l s).1 j ≡ stored s j
    unfolding compose_tree
    compose_tree-stored_outside zero r l s = ground arith
    compose_tree-stored_outside (suc fuel) r l s =
        let s' = (compose_groups c (length l) u r 0 l s).1 in
        let first = compose_groups-stored_outside (length l) r 0 l s in
        elim (Bool-cases (ltb 32 (length l))) [
          | inr e ↦ rw (e, compose_tree) refl
          | inl e ↦ elim (Result-cases (compose_groups c (length l) u r 0 l s).0) [
            | inr (x, k) ↦ rw (e, k, compose_tree) first
            | inl (next, k) ↦
                rw (e, k, compose_tree) (compose_tree-stored_outside fuel (suc r) next s' ∙ first)
          ]
        ]
