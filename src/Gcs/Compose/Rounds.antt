-- ===== src/Gcs/Compose/Rounds.antt =====
-- One round of composeTree: how many objects it leaves, which it writes, and what they hold.
use mathlib.Core.Path.{subst}
use gocloud_ext.Common.{
  take-drop, length-drop, length-drop_all, All-drop, ℕ, zero, suc, ◌+◌, ◌*◌, ◌/◌, ◌^◌, ◌<◌, Bytes,
  List, [], ◌∷◌, ◌++◌, length, take, drop, All, All-map, some, ok, eqb, false, ◌≡◌, refl, sym, ap,
  ◌∙◌, arith, append-nil, Option-cases, Result-cases, inl, inr, ◌⊎◌,
}
use gocloud_ext.Gcs.{GcsClient, GcsUploader}
use gocloud_ext.Blob.Contents.{contents, joined, contents-append, contents-agree}
use gocloud_ext.Gcs.Laws.{GcsLaws}
use gocloud_ext.Gcs.Compose.{compose_group, compose_groups, inter_name, no_attrs}
use gocloud_ext.Gcs.Compose.Names.{IsBefore, IsAside, IsBefore-inter_name, IsAside-inter_name}

module _ (c : GcsClient) where
  open c use {State, Err}

  -- A round that goes on past its first group.
  pub compose_groups-cons :
      (fuel : ℕ) (u : GcsUploader) (r i : ℕ) (x : Bytes) (l : List Bytes) (s : State)
      (next : List Bytes)
      → (compose_groups c (suc fuel) u r i (x ∷ l) s).0 ≡ ok next
      → (name : Bytes) × (more : List Bytes) × ((compose_group c u r i (x ∷ take 31 l) s).0
          ≡ ok name)
        × ((compose_groups c fuel u r
              (i + 32)
              (drop 31 l)
              (compose_group c u r i (x ∷ take 31 l) s).1).0
            ≡ ok more)
        × (next ≡ name ∷ more)
        × ((compose_groups c (suc fuel) u r i (x ∷ l) s).1
            ≡ (compose_groups c fuel u r
                (i + 32)
                (drop 31 l)
                (compose_group c u r i (x ∷ take 31 l) s).1).1)
  unfolding compose_groups
  compose_groups-cons fuel u r i x l s next h =
      let (made, s') = compose_group c u r i (x ∷ take 31 l) s in
      elim (Result-cases made) [
        | inr (e, k) ↦ absurd (ground arith)
        | inl (name, k) ↦
            elim (Result-cases (compose_groups c fuel u r (i + 32) (drop 31 l) s').0) [
              | inr (e, m) ↦ absurd (ground arith)
              | inl (more, m) ↦ (name, more, k, m, ground arith, ground arith)
            ]
      ]

  -- A round ends after its first group, or as the rest of it does.
  pub compose_groups-state :
      (fuel : ℕ) (u : GcsUploader) (r i : ℕ) (x : Bytes) (l : List Bytes) (s : State)
      → ((compose_groups c (suc fuel) u r i (x ∷ l) s).1
          ≡ (compose_group c u r i (x ∷ take 31 l) s).1)
        ⊎ ((compose_groups c (suc fuel) u r i (x ∷ l) s).1
            ≡ (compose_groups c fuel u r
                (i + 32)
                (drop 31 l)
                (compose_group c u r i (x ∷ take 31 l) s).1).1)
  unfolding compose_groups
  compose_groups-state fuel u r i x l s =
      elim (Result-cases (compose_group c u r i (x ∷ take 31 l) s).0) [
        | inr (e, k) ↦ inl (rw (k, compose_groups) refl)
        | inl (name, k) ↦ inr (rw (k, compose_groups) refl)
      ]

  -- Every group but the last has 32 sources, so a round leaves the 32nd part, rounded up.
  pub compose_groups-length :
      (fuel : ℕ) (u : GcsUploader) (r i : ℕ) (l : List Bytes) (s : State) (next : List Bytes)
      → (compose_groups c fuel u r i l s).0 ≡ ok next
      → 32 * length next < length l + 32
  unfolding compose_groups
  compose_groups-length fuel u r i [] s next h = ground arith
  compose_groups-length zero u r i (x ∷ l) s next h = absurd (ground arith)
  compose_groups-length (suc fuel) u r i (x ∷ l) s next h =
      let (name, more, made, rest, same, after) = compose_groups-cons fuel u r i x l s next h in
      let s' = (compose_group c u r i (x ∷ take 31 l) s).1 in
      rw same (
        omega (
          arith,
          compose_groups-length fuel u r (i + 32) (drop 31 l) s' more rest,
          length-drop_all 31 l,
        ))

module _ (c : GcsClient) (u : GcsUploader) (laws : GcsLaws c u.bucket) where
  open c use {State, Err, compose}
  open laws use {stored, compose-stored_self, compose-stored_ne}

  pub compose_group-stored_ne :
      (r i : ℕ) (x : Bytes) (g : List Bytes) (s : State) (j : Bytes)
      → eqb (inter_name u r (i / 32)) j ≡ false
      → stored (compose_group c u r i (x ∷ g) s).1 j ≡ stored s j
  unfolding compose_group
  compose_group-stored_ne r i x [] s j h = refl
  compose_group-stored_ne r i x (y ∷ g) s j h =
      ground (arith, compose-stored_ne (inter_name u r (i / 32)) no_attrs (x ∷ y ∷ g) s j h)

  -- The object that a group leaves holds the contents of the group.
  compose_group-contents :
      (r i : ℕ) (x : Bytes) (g : List Bytes) (s : State) (name : Bytes)
      → (compose_group c u r i (x ∷ g) s).0 ≡ ok name
      → stored (compose_group c u r i (x ∷ g) s).1 name ≡ contents (stored s) (x ∷ g)
  unfolding compose_group
  compose_group-contents r i x [] s name h = elim (Option-cases (stored s x)) [
    | inl e ↦ ground arith
    | inr (d, e) ↦ ground (arith, append-nil d)
  ]
  compose_group-contents r i x (y ∷ g) s name h =
      let inter = inter_name u r (i / 32) in
      elim (Option-cases (compose u.bucket inter no_attrs (x ∷ y ∷ g) s).0) [
        | inr (e, k) ↦ absurd (ground arith)
        | inl k ↦
            let (d, read, put) = compose-stored_self inter no_attrs (x ∷ y ∷ g) s k in
            let same : inter ≡ name = ground arith in
            rw (k, compose_group)
              (subst (λ n. stored (compose u.bucket inter no_attrs (x ∷ y ∷ g) s).1 n ≡ some d) same
                  put
                ∙ sym read)
      ]

  -- What the sources behind the group hold.
  pub compose_group-others :
      (r i : ℕ) (x : Bytes) (l : List Bytes) (s : State)
      → r < 2 ^ 63
      → i / 32 < 2 ^ 63
      → All (IsBefore u r) l
      → contents (stored (compose_group c u r i (x ∷ take 31 l) s).1) (drop 31 l)
        ≡ contents (stored s) (drop 31 l)
  compose_group-others r i x l s hr hi old =
      let s' = (compose_group c u r i (x ∷ take 31 l) s).1 in
      contents-agree (stored s') (stored s) (drop 31 l) (
        All-map (IsBefore u r) (λ j. stored s' j ≡ stored s j)
          (λ j b. compose_group-stored_ne r i x (take 31 l) s j (b r (i / 32) (omega arith) hr hi))
          (drop 31 l) (All-drop (IsBefore u r) 31 l old))

  -- Its name is that of a source, or of an intermediate of this group.
  compose_group-name :
      (r i : ℕ) (x : Bytes) (g : List Bytes) (s : State) (name : Bytes)
      → r < 2 ^ 63
      → i / 32 < 2 ^ 63
      → IsBefore u r x
      → (compose_group c u r i (x ∷ g) s).0 ≡ ok name
      → IsBefore u (suc r) name × IsAside u r (suc (i / 32)) name
  unfolding compose_group
  compose_group-name r i x [] s name hr hi old h =
      let same : x ≡ name = ground arith in
      subst (λ n. IsBefore u (suc r) n × IsAside u r (suc (i / 32)) n) same
        (
          (λ q k later hq hk. old q k (omega (arith, later)) hq hk),
          λ m later hm. old r m (omega arith) hr hm,
        )
  compose_group-name r i x (y ∷ g) s name hr hi old h =
      let same : inter_name u r (i / 32) ≡ name = ground arith in
      subst (λ n. IsBefore u (suc r) n × IsAside u r (suc (i / 32)) n) same
        (IsBefore-inter_name u r (i / 32) hr hi, IsAside-inter_name u r (i / 32) hr hi)

  -- A round writes intermediates of its own only.
  compose_groups-stored_ne :
      (fuel r i : ℕ) (l : List Bytes) (s : State) (j : Bytes)
      → i / 32 + length l < 2 ^ 63
      → IsAside u r (i / 32) j
      → stored (compose_groups c fuel u r i l s).1 j ≡ stored s j
  unfolding compose_groups
  compose_groups-stored_ne fuel r i [] s j small away = ground arith
  compose_groups-stored_ne zero r i (x ∷ l) s j small away = refl
  compose_groups-stored_ne (suc fuel) r i (x ∷ l) s j small away =
      let s' = (compose_group c u r i (x ∷ take 31 l) s).1 in
      let bound : (i + 32) / 32 + length (drop 31 l) < 2 ^ 63 =
        omega (arith, small, length-drop 31 l) in
      let first =
        compose_group-stored_ne r i x (take 31 l) s j
          (away (i / 32) (omega arith) (omega (arith, small))) in
      elim (compose_groups-state c fuel u r i x l s) [
        | inl e ↦ rw e first
        | inr e ↦ rw e (
            compose_groups-stored_ne fuel r (i + 32) (drop 31 l) s' j bound
              (λ m later hm. away m (omega (arith, later)) hm)
            ∙ first)
      ]

  -- After a round without error the objects that are left hold, one behind the other, what the sources
  -- held, and no later round writes over them.
  pub compose_groups-contents :
      (fuel r i : ℕ) (l : List Bytes) (s : State) (next : List Bytes)
      → r < 2 ^ 63
      → i / 32 + length l < 2 ^ 63
      → All (IsBefore u r) l
      → (compose_groups c fuel u r i l s).0 ≡ ok next
      → (contents (stored (compose_groups c fuel u r i l s).1) next ≡ contents (stored s) l)
        × All (IsBefore u (suc r)) next
  unfolding compose_groups
  compose_groups-contents fuel r i [] s [] hr small old h = (refl, tt)
  compose_groups-contents fuel r i [] s (y ∷ next) hr small old h = absurd (ground arith)
  compose_groups-contents zero r i (x ∷ l) s next hr small old h = absurd (ground arith)
  compose_groups-contents (suc fuel) r i (x ∷ l) s next hr small old h =
      let (name, more, made, rest, same, after) = compose_groups-cons c fuel u r i x l s next h in
      let s' = (compose_group c u r i (x ∷ take 31 l) s).1 in
      let s'' = (compose_groups c fuel u r (i + 32) (drop 31 l) s').1 in
      let bound : (i + 32) / 32 + length (drop 31 l) < 2 ^ 63 =
        omega (arith, small, length-drop 31 l) in
      let (before, aside) =
        compose_group-name r i x (take 31 l) s name hr (omega (arith, small)) old.0 made in
      let (held, kept) =
        compose_groups-contents fuel r (i + 32) (drop 31 l) s' more hr bound
          (All-drop (IsBefore u r) 31 l old.1) rest in
      let first : stored s'' name ≡ contents (stored s) (x ∷ take 31 l) =
        compose_groups-stored_ne fuel r (i + 32) (drop 31 l) s' name bound
          (λ m later hm. aside m (omega (arith, later)) hm)
        ∙ compose_group-contents r i x (take 31 l) s name made in
      let others = compose_group-others r i x l s hr (omega (arith, small)) old.1 in
      let whole : contents (stored s) ((x ∷ take 31 l) ++ drop 31 l) ≡ contents (stored s) (x ∷ l) =
        ap (contents (stored s)) (sym (take-drop 32 (x ∷ l))) in
      rw same (
        ap (λ t. contents (stored t) (name ∷ more)) after
            ∙ ap (λ t. joined t (contents (stored s'') more)) first
            ∙ ap (joined (contents (stored s) (x ∷ take 31 l))) (held ∙ others)
            ∙ sym (contents-append (stored s) (x ∷ take 31 l) (drop 31 l))
            ∙ whole,
        (before, kept),
      )
