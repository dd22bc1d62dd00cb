-- ===== src/Http/Collections/Above.antt =====
-- The collections above a path in ensureCollections of blob/httpblob/webdav.go: whatever comes before a
-- slash of the path.
use mathlib.Core.Path.{subst}
use gocloud_ext.Common.{
  ℕ, Bytes, ◌==◌, List, [], ◌∷◌, ◌++◌, All, append-nil, append_assoc, ◌≡◌, refl, sym, ap, arith,
  Bool-cases, inl, inr,
}
use gocloud_ext.Sftp.Emit.{slash}
use gocloud_ext.Http.Collections.{split_slash, joined_before, ancestors}

-- There is always a first segment.
split_slash-cons : (s : Bytes) → (seg : Bytes) × (segs : List Bytes) × (split_slash s ≡ seg ∷ segs)
unfolding split_slash
split_slash-cons [] = ([], [], refl)
split_slash-cons (x ∷ s) =
    let (seg, segs, e) = split_slash-cons s in
    elim (Bool-cases (x == slash)) [
      | inl k ↦ ([], split_slash s, rw (split_slash, k) refl)
      | inr k ↦ (x ∷ seg, segs, rw (split_slash, k, e) refl)
    ]

joined_before-nil :
    (before : Bytes) (segs : List Bytes) (seg : Bytes) (rest : List Bytes)
    → segs ≡ seg ∷ rest
    → joined_before before ([] ∷ segs) ≡ before ∷ joined_before (before ++ slash ∷ []) segs
unfolding joined_before
joined_before-nil before [] seg rest h = absurd (ground arith)
joined_before-nil before (t ∷ segs) seg rest h =
    ap (λ z. z ∷ joined_before (z ++ slash ∷ []) (t ∷ segs)) (append-nil before)

-- A byte of a segment counts as well as one of what comes before it.
joined_before-shift :
    (before : Bytes) (x : ℕ) (seg : Bytes) (segs : List Bytes)
    → joined_before before ((x ∷ seg) ∷ segs) ≡ joined_before (before ++ x ∷ []) (seg ∷ segs)
unfolding joined_before
joined_before-shift before x seg [] = refl
joined_before-shift before x seg (next ∷ segs) =
    ap (λ t. t ∷ joined_before (t ++ slash ∷ []) (next ∷ segs))
      (sym (append_assoc before (x ∷ []) seg))

module _ (P : Bytes → Type 0) where
  joined_before-All :
      (before q r : Bytes)
      → All P (joined_before before (split_slash (q ++ slash ∷ r)))
      → P (before ++ q)
  unfolding split_slash
  joined_before-All before [] r h =
      let (seg, segs, e) = split_slash-cons r in
      subst P (sym (append-nil before))
        (rw (joined_before-nil before (split_slash r) seg segs e) at h).0
  joined_before-All before (x ∷ q) r h =
      let rest = split_slash (q ++ slash ∷ r) in
      let (seg, segs, e) = split_slash-cons (q ++ slash ∷ r) in
      elim (Bool-cases (x == slash)) [
        | inl k ↦
            let z : x ≡ slash = ground arith in
            let deeper =
              joined_before-All (before ++ slash ∷ []) q r
                (rw (split_slash, k, joined_before-nil before rest seg segs e) at h).1 in
            rw z (subst P (append_assoc before (slash ∷ []) q) deeper)
        | inr k ↦
            let l = rw (split_slash, k, e, joined_before-shift) at h in
            subst P (append_assoc before (x ∷ []) q)
              (joined_before-All (before ++ x ∷ []) q r (rw e l))
      ]

  pub ancestors-above : (q r : Bytes) → All P (ancestors (q ++ slash ∷ r)) → P q
  unfolding ancestors
  ancestors-above q r h = joined_before-All [] q r h
