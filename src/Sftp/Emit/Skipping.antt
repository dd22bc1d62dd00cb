-- ===== src/Sftp/Emit/Skipping.antt =====
-- `descend`: the directories that can add nothing to the page.
use gocloud_ext.Common.{
  ℕ, suc, zero, Bytes, true, false, [], ◌∷◌, ◌++◌, take, Option, none, some, eqb, lt_bytes,
  lt_bytes_irrefl, lt_bytes_trans, has_prefix, has_prefix_iff, ◌≡◌, refl, sym, ◌∙◌, append_assoc,
  ap, arith, Bool-cases, inl, inr, ◌⊎◌,
}
use gocloud_ext.Sftp.Emit.Cases.{emit-cases}
use gocloud_ext.Sftp.Emit.{Lister, ListObject, IsAt, slash, add, fold, emit, descend}

-- A string that starts with a smaller one, and not as a continuation of it, stays smaller.
lt_bytes-extend :
    (s r t : Bytes) → lt_bytes t s ≡ false → has_prefix t s ≡ false → lt_bytes (s ++ r) t ≡ true
unfolding lt_bytes has_prefix
lt_bytes-extend [] r t h k = ground arith
lt_bytes-extend (x ∷ s) r [] h k = ground arith
lt_bytes-extend (x ∷ s) r (y ∷ t) h k = ground (arith, lt_bytes-extend s r t)

-- What overlaps neither way has no common continuation.
no-overlap :
    (s r p : Bytes)
    → has_prefix s p ≡ false
    → has_prefix p s ≡ false
    → has_prefix (s ++ r) p ≡ false
unfolding has_prefix
no-overlap [] r p h k = ground arith
no-overlap (x ∷ s) r [] h k = ground arith
no-overlap (x ∷ s) r (y ∷ p) h k = ground (arith, no-overlap s r p)

-- A part of a key from the start is not above what the key is not above.
take-lt : (n : ℕ) (s t : Bytes) → lt_bytes t s ≡ false → lt_bytes t (take n s) ≡ false
unfolding lt_bytes
take-lt zero s [] h = refl
take-lt zero s (y ∷ t) h = refl
take-lt (suc n) [] t h = h
take-lt (suc n) (x ∷ s) [] h = ground arith
take-lt (suc n) (x ∷ s) (y ∷ t) h = ground (arith, take-lt n s t)

take-lt_below :
    (p : Bytes) (n : ℕ) (s t : Bytes)
    → lt_bytes t (p ++ s) ≡ false
    → lt_bytes t (p ++ take n s) ≡ false
unfolding lt_bytes
take-lt_below [] n s t h = take-lt n s t h
take-lt_below (x ∷ p) n s [] h = ground arith
take-lt_below (x ∷ p) n s (y ∷ t) h = ground (arith, take-lt_below p n s t)

-- The page is the same: only the last directory may differ.
abbrev pub SamePage : Lister → Lister → Type 0
SamePage l m = (m.objects ≡ l.objects) × (m.full ≡ l.full)

lt_bytes-asymm : (s t : Bytes) → lt_bytes s t ≡ true → lt_bytes t s ≡ false
lt_bytes-asymm s t h = elim (Bool-cases (lt_bytes t s)) [
  | inl k ↦ absurd (ground (arith, lt_bytes_trans s t s h k, lt_bytes_irrefl s))
  | inr k ↦ k
]

module _ (l : Lister) (token : eqb l.page_token [] ≡ false) where
  add-old :
      (key : Bytes) (obj : Option ListObject)
      → IsAt key obj
      → lt_bytes l.page_token key ≡ false
      → add obj l ≡ l
  unfolding add
  add-old key none at h = refl
  add-old key (some o) at h = rw (at, token, h) refl

  fold-old : (dir : Bytes) → lt_bytes l.page_token dir ≡ false → SamePage l (fold dir l)
  unfolding fold add
  fold-old dir h = elim (Bool-cases (eqb dir l.last_prefix)) [
    | inl e ↦ rw e (refl, refl)
    | inr e ↦ rw (e, token, h) (refl, refl)
  ]

  emit-old :
      (key : Bytes) (obj : Option ListObject)
      → IsAt key obj
      → lt_bytes l.page_token key ≡ false
      → SamePage l (emit key obj l)
  emit-old key obj at h = elim (emit-cases key obj l) [
    | inl e ↦ rw e (refl, refl)
    | inr (inl (p, e)) ↦ rw (e, add-old key obj at h) (refl, refl)
    | inr (inr (n, p, e)) ↦ rw e (
        fold-old _ (
          take-lt_below l.prefix n _ l.page_token
            (ap (lt_bytes l.page_token) (sym (has_prefix_iff key l.prefix p)) ∙ h)))
  ]

emit-unmatched :
    (key : Bytes) (obj : Option ListObject) (l : Lister)
    → has_prefix key l.prefix ≡ false
    → emit key obj l ≡ l
unfolding emit
emit-unmatched key obj l h = rw h refl

emit-skipped :
    (sub r : Bytes) (obj : Option ListObject) (l : Lister)
    → IsAt (sub ++ r) obj
    → ((has_prefix sub l.prefix ≡ false) × (has_prefix l.prefix sub ≡ false))
      ⊎ ((eqb l.page_token [] ≡ false)
          × (lt_bytes l.page_token sub ≡ false)
          × (has_prefix l.page_token sub ≡ false))
    → SamePage l (emit (sub ++ r) obj l)
emit-skipped sub r obj l at (inl (h, k)) =
    rw (emit-unmatched (sub ++ r) obj l (no-overlap sub r l.prefix h k)) (refl, refl)
emit-skipped sub r obj l at (inr (t, h, k)) =
    emit-old l t (sub ++ r) obj at
      (lt_bytes-asymm (sub ++ r) l.page_token (lt_bytes-extend sub r l.page_token h k))

descend-cases :
    (d : Bytes) (l : Lister)
    → descend d l ≡ false
    → ((has_prefix (d ++ (slash ∷ [])) l.prefix ≡ false)
        × (has_prefix l.prefix (d ++ (slash ∷ [])) ≡ false))
      ⊎ ((eqb l.page_token [] ≡ false)
          × (lt_bytes l.page_token (d ++ (slash ∷ [])) ≡ false)
          × (has_prefix l.page_token (d ++ (slash ∷ [])) ≡ false))
unfolding descend
descend-cases d l h = ground arith

-- Where `descend` refuses a directory, no key beneath it would add to the page or fill it.
pub emit-descend :
    (d r : Bytes) (obj : Option ListObject) (l : Lister)
    → IsAt (d ++ slash ∷ r) obj
    → descend d l ≡ false
    → SamePage l (emit (d ++ slash ∷ r) obj l)
emit-descend d r obj l at h =
    let key = append_assoc d (slash ∷ []) r in
    rw (sym key) (emit-skipped (d ++ (slash ∷ [])) r obj l (rw key at) (descend-cases d l h))
