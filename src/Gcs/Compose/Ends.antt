-- ===== src/Gcs/Compose/Ends.antt =====
-- composeTree ends, and succeeds where the storage does not fail.
use gocloud_ext.Common.{
  take-drop, length-take, length-drop, All-drop, ℕ, zero, suc, ◌+◌, ◌/◌, ◌^◌, ◌<◌, ◌≤◌, Bytes, List,
  [], ◌∷◌, ltb, ltb→lt, length, take, drop, All, Option, none, some, ok, err, ◌≡◌, ◌≢◌, refl, sym,
  ap, ◌∙◌, arith, false, Bool-cases, Result-cases, inl, inr,
}
use gocloud_ext.Gcs.{GcsClient, GcsUploader, out_of_fuel}
use gocloud_ext.Blob.Contents.{contents, joined, contents-append}
use gocloud_ext.Gcs.Laws.{GcsLaws, GcsReliable}
use gocloud_ext.Gcs.Compose.{compose_group, compose_groups, compose_tree, inter_name, no_attrs}
use gocloud_ext.Gcs.Compose.Names.{IsBefore}
use gocloud_ext.Gcs.Compose.Rounds.{
  compose_groups-length, compose_groups-contents, compose_group-others,
}
use gocloud_ext.Gcs.Compose.Kept.{compose_tree_few, compose_tree_many, compose_tree_failed}

joined-some :
    (x y : Option Bytes) (d : Bytes)
    → joined x y ≡ some d
    → (a : Bytes) × (b : Bytes) × (x ≡ some a) × (y ≡ some b)
joined-some none y d h = absurd (ground arith)
joined-some (some a) none d h = absurd (ground arith)
joined-some (some a) (some b) d h = (a, b, refl, refl)

module _ (c : GcsClient) (u : GcsUploader) where
  open c use {State, Err}

  compose_group_ends :
      (r i : ℕ) (x : Bytes) (g : List Bytes) (s : State)
      → (compose_group c u r i (x ∷ g) s).0 ≢ err out_of_fuel
  unfolding compose_group
  compose_group_ends r i x [] s h = ground arith
  compose_group_ends r i x (y ∷ g) s h = ground arith

  -- As much fuel as there are sources is enough for a round.
  compose_groups_ends :
      (fuel r i : ℕ) (l : List Bytes) (s : State)
      → length l ≤ fuel
      → (compose_groups c fuel u r i l s).0 ≢ err out_of_fuel
  unfolding compose_groups
  compose_groups_ends fuel r i [] s enough h = ground arith
  compose_groups_ends zero r i (x ∷ l) s enough h = absurd (omega (arith, enough))
  compose_groups_ends (suc fuel) r i (x ∷ l) s enough h =
      let s' = (compose_group c u r i (x ∷ take 31 l) s).1 in
      let later =
        compose_groups_ends fuel r (i + 32) (drop 31 l) s'
          (omega (arith, enough, length-drop 31 l)) in
      elim (Result-cases (compose_group c u r i (x ∷ take 31 l) s).0) [
        | inr (e, k) ↦ ground (arith, compose_group_ends r i x (take 31 l) s)
        | inl (name, k) ↦
            elim (Result-cases (compose_groups c fuel u r (i + 32) (drop 31 l) s').0) [
              | inr (e, m) ↦ ground (arith, later)
              | inl (more, m) ↦ ground arith
            ]
      ]

  -- As many rounds as there are sources are enough, and the groups of a round too: composeTree never
  -- runs out of fuel.
  pub compose_tree_ends :
      (fuel r : ℕ) (l : List Bytes) (s : State)
      → length l ≤ fuel
      → (compose_tree c fuel u r l s).0 ≢ err out_of_fuel
  compose_tree_ends zero r l s enough h =
      let few : ltb 32 (length l) ≡ false = ground arith in
      ground (arith, compose_tree_few c u 0 r l s few)
  compose_tree_ends (suc fuel) r l s enough h = elim (Bool-cases (ltb 32 (length l))) [
    | inr e ↦ ground (arith, compose_tree_few c u (suc fuel) r l s e)
    | inl e ↦
        let s' = (compose_groups c (length l) u r 0 l s).1 in
        elim (Result-cases (compose_groups c (length l) u r 0 l s).0) [
          | inr (x, k) ↦
              compose_groups_ends (length l) r 0 l s (omega arith)
                (k ∙ sym (compose_tree_failed c u fuel r l s x e k) ∙ h)
          | inl (next, k) ↦
              let shorter = compose_groups-length c (length l) u r 0 l s next k in
              compose_tree_ends fuel (suc r) next s'
                (omega (arith, enough, ltb→lt 32 (length l) e, shorter))
                (sym (ap (λ t. t.0) (compose_tree_many c u fuel r l s next e k)) ∙ h)
        ]
  ]

module _ (c : GcsClient) (u : GcsUploader) (laws : GcsLaws c u.bucket)
    (reliable : GcsReliable c u.bucket laws) where
  open c use {State, Err, compose}
  open laws use {stored}

  compose_group_succeeds :
      (r i : ℕ) (x : Bytes) (g : List Bytes) (s : State) (d : Bytes)
      → length (x ∷ g) ≤ 32
      → contents (stored s) (x ∷ g) ≡ some d
      → (name : Bytes) × ((compose_group c u r i (x ∷ g) s).0 ≡ ok name)
  unfolding compose_group
  compose_group_succeeds r i x [] s d short h = (x, refl)
  compose_group_succeeds r i x (y ∷ g) s d short h =
      let inter = inter_name u r (i / 32) in
      let quiet = reliable.composes inter no_attrs (x ∷ y ∷ g) s d (λ e. ground arith) short h in
      (inter, ground (arith, quiet))

  -- The contents of a first group and of the rest.
  split_contents :
      (f : Bytes → Option Bytes) (x : Bytes) (l : List Bytes) (d : Bytes)
      → contents f (x ∷ l) ≡ some d
      → (a : Bytes) × (b : Bytes) × (contents f (x ∷ take 31 l) ≡ some a)
        × (contents f (drop 31 l) ≡ some b)
  split_contents f x l d h = joined-some (contents f (x ∷ take 31 l)) (contents f (drop 31 l)) d (
      sym (contents-append f (x ∷ take 31 l) (drop 31 l))
      ∙ ap (contents f) (sym (take-drop 32 (x ∷ l)))
      ∙ h)

  compose_groups_succeed :
      (fuel r i : ℕ) (l : List Bytes) (s : State) (d : Bytes)
      → r < 2 ^ 63
      → i / 32 + length l < 2 ^ 63
      → length l ≤ fuel
      → All (IsBefore u r) l
      → contents (stored s) l ≡ some d
      → (next : List Bytes) × ((compose_groups c fuel u r i l s).0 ≡ ok next)
  unfolding compose_groups
  compose_groups_succeed fuel r i [] s d hr small enough old h = ([], ground arith)
  compose_groups_succeed zero r i (x ∷ l) s d hr small enough old h = absurd (omega (arith, enough))
  compose_groups_succeed (suc fuel) r i (x ∷ l) s d hr small enough old h =
      let s' = (compose_group c u r i (x ∷ take 31 l) s).1 in
      let (a, b, front, back) = split_contents (stored s) x l d h in
      let (name, made) =
        compose_group_succeeds r i x (take 31 l) s a (omega (arith, length-take 31 l)) front in
      let (more, rest) =
        compose_groups_succeed fuel r (i + 32) (drop 31 l) s' b hr
          (omega (arith, small, length-drop 31 l)) (omega (arith, enough, length-drop 31 l))
          (All-drop (IsBefore u r) 31 l old.1)
          (compose_group-others c u laws r i x l s hr (omega (arith, small)) old.1 ∙ back) in
      (name ∷ more, ground (arith, made, rest))

  -- On such a storage composeTree returns, when every source is there.
  pub compose_tree_succeeds :
      (fuel r : ℕ) (l : List Bytes) (s : State) (d : Bytes)
      → r + length l < 2 ^ 63
      → length l ≤ fuel
      → All (IsBefore u r) l
      → contents (stored s) l ≡ some d
      → (final : List Bytes) × ((compose_tree c fuel u r l s).0 ≡ ok final)
  compose_tree_succeeds zero r l s d small enough old h =
      let few : ltb 32 (length l) ≡ false = ground arith in
      (l, ap (λ t. t.0) (compose_tree_few c u 0 r l s few))
  compose_tree_succeeds (suc fuel) r l s d small enough old h =
      elim (Bool-cases (ltb 32 (length l))) [
        | inr e ↦ (l, ap (λ t. t.0) (compose_tree_few c u (suc fuel) r l s e))
        | inl e ↦
            let s' = (compose_groups c (length l) u r 0 l s).1 in
            let hr : r < 2 ^ 63 = omega (arith, small) in
            let bound : 0 / 32 + length l < 2 ^ 63 = omega (arith, small) in
            let (next, k) =
              compose_groups_succeed (length l) r 0 l s d hr bound (omega arith) old h in
            let shorter = compose_groups-length c (length l) u r 0 l s next k in
            let (held, later) =
              compose_groups-contents c u laws (length l) r 0 l s next hr bound old k in
            let (final, done) =
              compose_tree_succeeds fuel (suc r) next s' d
                (omega (arith, ltb→lt 32 (length l) e, shorter, small))
                (omega (arith, ltb→lt 32 (length l) e, shorter, enough)) later (held ∙ h) in
            (final, ap (λ t. t.0) (compose_tree_many c u fuel r l s next e k) ∙ done)
      ]
