-- ===== src/Sftp/Emit/Folding.antt =====
-- `collapses`: the keys under a directory that fold into one result.
use gocloud_ext.Common.{
  ℕ, suc, zero, ◌+◌, ◌<◌, ◌≤◌, ◌==◌, ==_iff, Bytes, true, false, [], ◌∷◌, ◌++◌, append_assoc,
  length, length-append, take, drop, Option, none, some, eqb, eqb_iff, has_prefix, index, ◌≡◌, refl,
  sym, ap, ◌∙◌, arith, Bool-cases, inl, inr,
}
use gocloud_ext.Sftp.Emit.{Lister, ListObject, slash, fold, emit, collapses}

-- The first separator in `u ++ c ∷ r`, when it is not in `u`, is the one after `u`.
FoundIn : ℕ → Bytes → Bytes → Type 0
FoundIn c u r =
    (i : ℕ) × (index (u ++ c ∷ r) (c ∷ []) ≡ some i)
    × (index (u ++ c ∷ []) (c ∷ []) ≡ some i)
    × (take (suc i) (u ++ c ∷ r) ≡ take (suc i) (u ++ c ∷ []))

index-append : (c : ℕ) (u r : Bytes) → FoundIn c u r
unfolding FoundIn index has_prefix
index-append c [] r = (0, ground (arith, ==_iff c c), ground (arith, ==_iff c c), refl)
index-append c (x ∷ u) r =
    let (i, a, b, t) = index-append c u r in
    elim (Bool-cases (x == c)) [
      | inl h ↦ (0, ground arith, ground arith, refl)
      | inr h ↦ (suc i, ground arith, ground arith, ap (λ s. x ∷ s) t)
    ]

drop-append_le : (n : ℕ) (s t : Bytes) → n ≤ length s → drop n (s ++ t) ≡ drop n s ++ t
drop-append_le zero s t h = refl
drop-append_le (suc n) [] t h = ground arith
drop-append_le (suc n) (x ∷ s) t h = drop-append_le n s t (omega arith)

has_prefix-append_left : (s t p : Bytes) → has_prefix s p ≡ true → has_prefix (s ++ t) p ≡ true
unfolding has_prefix
has_prefix-append_left [] t [] h = ground arith
has_prefix-append_left [] t (y ∷ p) h = ground arith
has_prefix-append_left (x ∷ s) t [] h = refl
has_prefix-append_left (x ∷ s) t (y ∷ p) h = ground (arith, has_prefix-append_left s t p)

-- A directory key with its slash, split after the prefix.
sub-split :
    (d p r : Bytes)
    → has_prefix (d ++ (slash ∷ [])) p ≡ true
    → length p < length (d ++ (slash ∷ []))
    → drop (length p) (d ++ slash ∷ r) ≡ drop (length p) d ++ slash ∷ r
sub-split d p r h k =
    drop-append_le (length p) d (slash ∷ r) (omega (arith, length-append d (slash ∷ [])))

has_prefix-below :
    (d p r : Bytes) → has_prefix (d ++ (slash ∷ [])) p ≡ true → has_prefix (d ++ slash ∷ r) p ≡ true
has_prefix-below d p r h =
    rw (sym (append_assoc d (slash ∷ []) r)) (has_prefix-append_left (d ++ (slash ∷ [])) r p h)

emit-index :
    (key : Bytes) (obj : Option ListObject) (l : Lister) (i : ℕ)
    → has_prefix key l.prefix ≡ true
    → eqb l.delimiter [] ≡ false
    → index (drop (length l.prefix) key) l.delimiter ≡ some i
    → emit key obj l
      ≡ fold (l.prefix ++ take (i + length l.delimiter) (drop (length l.prefix) key)) l
unfolding emit
emit-index key obj l i h d e = rw (h, d, e) refl

emit-folds :
    (key : Bytes) (obj : Option ListObject) (l : Lister) (i : ℕ)
    → has_prefix key l.prefix ≡ true
    → l.delimiter ≡ slash ∷ []
    → index (drop (length l.prefix) key) (slash ∷ []) ≡ some i
    → emit key obj l ≡ fold (l.prefix ++ take (suc i) (drop (length l.prefix) key)) l
unfolding eqb
emit-folds key obj l i h d e =
    let size : length l.delimiter ≡ 1 = ap length d in
    let step : i + length l.delimiter ≡ suc i = omega arith in
    emit-index key obj l i h (ap (λ s. eqb s []) d) (ap (index (drop (length l.prefix) key)) d ∙ e)
    ∙ ap (λ n. fold (l.prefix ++ take n (drop (length l.prefix) key)) l) step

-- Where `collapses` holds of a directory, every key beneath it has the same effect on the page as
-- the directory itself, whatever object it comes with.
pub emit-collapses :
    (d r : Bytes) (obj : Option ListObject) (l : Lister)
    → collapses d l ≡ true
    → emit (d ++ slash ∷ r) obj l ≡ emit (d ++ (slash ∷ [])) none l
unfolding collapses FoundIn
emit-collapses d r obj l h =
    let delim : l.delimiter ≡ slash ∷ [] = (eqb_iff l.delimiter (slash ∷ [])).0 (ground arith) in
    let starts : has_prefix (d ++ (slash ∷ [])) l.prefix ≡ true = ground arith in
    let longer : length l.prefix < length (d ++ (slash ∷ [])) = ground arith in
    let (i, a, b, t) = index-append slash (drop (length l.prefix) d) r in
    let below = sub-split d l.prefix r starts longer in
    let self = sub-split d l.prefix [] starts longer in
    emit-folds (d ++ slash ∷ r) obj l i (has_prefix-below d l.prefix r starts) delim
      (ap (λ s. index s (slash ∷ [])) below ∙ a)
    ∙ ap (λ s. fold (l.prefix ++ s) l) (ap (take (suc i)) below ∙ t ∙ sym (ap (take (suc i)) self))
    ∙ sym (
        emit-folds (d ++ (slash ∷ [])) none l i starts delim
          (ap (λ s. index s (slash ∷ [])) self ∙ b))
