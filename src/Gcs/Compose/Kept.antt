-- ===== src/Gcs/Compose/Kept.antt =====
-- composeTree: what the objects that it leaves hold, and how many they are.
use mathlib.Core.Path.{subst}
use gocloud_ext.Common.{
  All-drop, ℕ, zero, suc, ◌+◌, ◌^◌, ◌<◌, ◌≤◌, Bytes, List, ltb, length, All, ok, ◌≡◌, ◌≢◌, refl,
  ltb→lt, ◌∙◌, arith, Bool-cases, take, drop, ◌/◌, ◌∷◌, Result-cases, inl, inr, err, true, false,
  [], sym, ap, Result,
}
use gocloud_ext.Gcs.{GcsClient, GcsUploader, GcsError}
use gocloud_ext.Blob.Contents.{contents}
use gocloud_ext.Gcs.Laws.{GcsLaws}
use gocloud_ext.Gcs.Compose.{compose_group, compose_groups, compose_tree, inter_name}
use gocloud_ext.Gcs.Compose.Names.{IsBefore}
use gocloud_ext.Gcs.Compose.Rounds.{
  compose_groups-length, compose_groups-contents, compose_groups-cons,
}

module _ (c : GcsClient) (u : GcsUploader) where
  -- At most 32 sources are returned as they are.
  pub compose_tree_few :
      (fuel r : ℕ) (l : List Bytes) (s : c.State)
      → ltb 32 (length l) ≡ false
      → compose_tree c fuel u r l s ≡ (ok l, s)
  unfolding compose_tree
  compose_tree_few zero r l s h = rw (h, compose_tree) refl
  compose_tree_few (suc fuel) r l s h = rw (h, compose_tree) refl

  -- More of them go through a round.
  pub compose_tree_many :
      (fuel r : ℕ) (l : List Bytes) (s : c.State) (next : List Bytes)
      → ltb 32 (length l) ≡ true
      → (compose_groups c (length l) u r 0 l s).0 ≡ ok next
      → compose_tree c (suc fuel) u r l s
        ≡ compose_tree c fuel u (suc r) next (compose_groups c (length l) u r 0 l s).1
  unfolding compose_tree
  compose_tree_many fuel r l s next h k = rw (h, k, compose_tree) refl

  -- A round whose groups fail.
  pub compose_tree_failed :
      (fuel r : ℕ) (l : List Bytes) (s : c.State) (e : GcsError c.Err)
      → ltb 32 (length l) ≡ true
      → (compose_groups c (length l) u r 0 l s).0 ≡ err e
      → (compose_tree c (suc fuel) u r l s).0 ≡ err e
  unfolding compose_tree
  compose_tree_failed fuel r l s e h k = rw (h, k, compose_tree) refl

module _ (c : GcsClient) (u : GcsUploader) (laws : GcsLaws c u.bucket) where
  open c use {State}
  open laws use {stored}

  ok_list :
      {x y : List Bytes} → ◌≡◌ {A = Result (GcsError c.Err) (List Bytes)} (ok x) (ok y) → x ≡ y
  ok_list h = ap (λ t. elim t [ ok a ↦ a | err e ↦ [] ]) h

  out_of_rounds :
      (r : ℕ) (l : List Bytes) (s : State) (final : List Bytes)
      → ltb 32 (length l) ≡ true
      → (compose_tree c zero u r l s).0 ≢ ok final
  unfolding compose_tree
  out_of_rounds r l s final e h = ground arith

  few_contents :
      (fuel r : ℕ) (l : List Bytes) (s : State) (final : List Bytes)
      → ltb 32 (length l) ≡ false
      → (compose_tree c fuel u r l s).0 ≡ ok final
      → (length final ≤ 32)
        × (contents (stored (compose_tree c fuel u r l s).1) final ≡ contents (stored s) l)
  few_contents fuel r l s final few h =
      let stay = compose_tree_few c u fuel r l s few in
      let same : l ≡ final = ok_list (sym (ap (λ t. t.0) stay) ∙ h) in
      (
        subst (λ t. length t ≤ 32) same (ground arith),
        ap (λ t. contents (stored t.1) final) stay ∙ ap (contents (stored s)) (sym same),
      )

  -- A composeTree that returns leaves at most 32 objects, which hold, one behind the other, what the
  -- sources held, where no source is named as an intermediate of this round or a later one, and the
  -- numbers of rounds and groups are below 2^63.
  pub compose_tree-contents :
      (fuel r : ℕ) (l : List Bytes) (s : State) (final : List Bytes)
      → r + length l < 2 ^ 63
      → All (IsBefore u r) l
      → (compose_tree c fuel u r l s).0 ≡ ok final
      → (length final ≤ 32)
        × (contents (stored (compose_tree c fuel u r l s).1) final ≡ contents (stored s) l)
  compose_tree-contents zero r l s final small old h = elim (Bool-cases (ltb 32 (length l))) [
    | inr e ↦ few_contents zero r l s final e h
    | inl e ↦ absurd (out_of_rounds r l s final e h)
  ]
  compose_tree-contents (suc fuel) r l s final small old h = elim (Bool-cases (ltb 32 (length l))) [
    | inr e ↦ few_contents (suc fuel) r l s final e h
    | inl e ↦
        let s' = (compose_groups c (length l) u r 0 l s).1 in
        elim (Result-cases (compose_groups c (length l) u r 0 l s).0) [
          | inr (x, k) ↦ absurd (ground (arith, compose_tree_failed c u fuel r l s x e k))
          | inl (next, k) ↦
              let go = compose_tree_many c u fuel r l s next e k in
              let shorter = compose_groups-length c (length l) u r 0 l s next k in
              let (held, later) =
                compose_groups-contents c u laws (length l) r 0 l s next (omega (arith, small))
                  (omega (arith, small)) old k in
              let (few, same) =
                compose_tree-contents fuel (suc r) next s' final
                  (omega (arith, ltb→lt 32 (length l) e, shorter, small)) later
                  (sym (ap (λ t. t.0) go) ∙ h) in
              (few, ap (λ t. contents (stored t.1) final) go ∙ same ∙ held)
        ]
  ]

module _ (c : GcsClient) (u : GcsUploader) where
  compose_groups-ne-nil :
      (fuel r i : ℕ) (l : List Bytes) (s : c.State) (next : List Bytes)
      → l ≢ []
      → (compose_groups c fuel u r i l s).0 ≡ ok next
      → next ≢ []
  unfolding compose_groups
  compose_groups-ne-nil fuel r i [] s next ne h = absurd (ne refl)
  compose_groups-ne-nil zero r i (x ∷ l) s next ne h = absurd (ground arith)
  compose_groups-ne-nil (suc fuel) r i (x ∷ l) s next ne h =
      let (name, more, made, rest, same, after) = compose_groups-cons c fuel u r i x l s next h in
      λ e. omega (arith, ap length same, ap length e)

  -- composeTree leaves something of something.
  pub compose_tree-ne-nil :
      (fuel r : ℕ) (l : List Bytes) (s : c.State) (final : List Bytes)
      → l ≢ []
      → (compose_tree c fuel u r l s).0 ≡ ok final
      → final ≢ []
  unfolding compose_tree
  compose_tree-ne-nil zero r l s final ne h = ground arith
  compose_tree-ne-nil (suc fuel) r l s final ne h = elim (Bool-cases (ltb 32 (length l))) [
    | inr e ↦ ground arith
    | inl e ↦
        let s' = (compose_groups c (length l) u r 0 l s).1 in
        elim (Result-cases (compose_groups c (length l) u r 0 l s).0) [
          | inr (x, k) ↦ absurd (ground arith)
          | inl (next, k) ↦
              compose_tree-ne-nil fuel (suc r) next s' final
                (compose_groups-ne-nil (length l) r 0 l s next ne k)
                (sym (ap (λ t. t.0) (compose_tree_many c u fuel r l s next e k)) ∙ h)
        ]
  ]

-- What holds of every source and of every intermediate holds of what composeTree leaves.
module _ (c : GcsClient) (u : GcsUploader) (P : Bytes → Type 0)
    (inter : (r k : ℕ) → P (inter_name u r k)) where
  compose_group-All :
      (r i : ℕ) (x : Bytes) (g : List Bytes) (s : c.State) (name : Bytes)
      → P x
      → (compose_group c u r i (x ∷ g) s).0 ≡ ok name
      → P name
  unfolding compose_group
  compose_group-All r i x [] s name h k = let same : x ≡ name = ground arith in subst P same h
  compose_group-All r i x (y ∷ g) s name h k =
      let same : inter_name u r (i / 32) ≡ name = ground arith in subst P same (inter r (i / 32))

  compose_groups-All :
      (fuel r i : ℕ) (l : List Bytes) (s : c.State) (next : List Bytes)
      → All P l
      → (compose_groups c fuel u r i l s).0 ≡ ok next
      → All P next
  unfolding compose_groups
  compose_groups-All fuel r i [] s [] h k = tt
  compose_groups-All fuel r i [] s (y ∷ next) h k = absurd (ground arith)
  compose_groups-All zero r i (x ∷ l) s next h k = absurd (ground arith)
  compose_groups-All (suc fuel) r i (x ∷ l) s next h k =
      let (name, more, made, rest, same, after) = compose_groups-cons c fuel u r i x l s next k in
      let s' = (compose_group c u r i (x ∷ take 31 l) s).1 in
      rw same (
        compose_group-All r i x (take 31 l) s name h.0 made,
        compose_groups-All fuel r (i + 32) (drop 31 l) s' more (All-drop P 31 l h.1) rest,
      )

  pub compose_tree-All :
      (fuel r : ℕ) (l : List Bytes) (s : c.State) (final : List Bytes)
      → All P l
      → (compose_tree c fuel u r l s).0 ≡ ok final
      → All P final
  unfolding compose_tree
  compose_tree-All zero r l s final h k =
      let same : l ≡ final = ground arith in subst (All P) same h
  compose_tree-All (suc fuel) r l s final h k = elim (Bool-cases (ltb 32 (length l))) [
    | inr e ↦ let same : l ≡ final = ground arith in subst (All P) same h
    | inl e ↦
        let s' = (compose_groups c (length l) u r 0 l s).1 in
        elim (Result-cases (compose_groups c (length l) u r 0 l s).0) [
          | inr (x, m) ↦ absurd (ground arith)
          | inl (next, m) ↦
              compose_tree-All fuel (suc r) next s' final
                (compose_groups-All (length l) r 0 l s next h m)
                (sym (ap (λ t. t.0) (compose_tree_many c u fuel r l s next e m)) ∙ k)
        ]
  ]
