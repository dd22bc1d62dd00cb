-- ===== src/Gcs/Compose/Names.antt =====
-- The names of the intermediate objects of composeTree, among each other and beside those of parts.
use mathlib.Core.Path.{subst}
use gocloud_ext.Common.{
  ℕ, suc, ◌^◌, ◌<◌, ◌≤◌, ℤ, pos, negsuc, Bytes, codes, [], ◌∷◌, ◌++◌, drop, true, false, All, eqb,
  eqb_iff, ◌≡◌, ◌≢◌, inl, inr, refl, sym, ap, ◌∙◌, arith, Bool-cases, append_cancel, has_prefix,
  has_prefix-append, Option, some,
}
use gocloud_ext.Decimal.{format_padded, parse_int}
use gocloud_ext.Decimal.RoundTrip.{IsDigit, parse_int-format_padded, format_padded-IsDigit}
use gocloud_ext.Gcs.{GcsUploader, gcs_staging_prefix, part_name}
use gocloud_ext.Gcs.Compose.{inter_name}

abbrev first_or : ℕ → Bytes → ℕ
first_or d [] = d
first_or d (x ∷ s) = x

-- Two numbers, each followed by a dash.
same_digits :
    (a b x y : Bytes)
    → All IsDigit a
    → All IsDigit b
    → a ++ (b'-' ∷ x) ≡ b ++ (b'-' ∷ y)
    → (a ≡ b) × (x ≡ y)
same_digits [] [] x y ha hb h = (refl, ap (drop 1) h)
same_digits [] (d ∷ b) x y ha hb h = absurd (omega (arith, ap (first_or 0) h, hb.0))
same_digits (d ∷ a) [] x y ha hb h = absurd (omega (arith, ap (first_or 0) h, ha.0))
same_digits (d ∷ a) (e ∷ b) x y ha hb h =
    let (p, q) = same_digits a b x y ha.1 hb.1 (ap (drop 1) h) in
    let heads : d ≡ e = ap (first_or 0) h in (rw (heads, p) refl, q)

pos_number : Option ℤ → ℕ
pos_number (some (pos n)) = n
pos_number _ = 0

format_padded_injective :
    (m n : ℕ) → m < 2 ^ 63 → n < 2 ^ 63 → format_padded 0 (pos m) ≡ format_padded 0 (pos n) → m ≡ n
unfolding pos_number
format_padded_injective m n hm hn h =
    ap pos_number
      (sym (parse_int-format_padded 0 m hm) ∙ ap parse_int h ∙ parse_int-format_padded 0 n hn)

inter_name_injective :
    (u : GcsUploader) (q k r m : ℕ)
    → q < 2 ^ 63
    → k < 2 ^ 63
    → r < 2 ^ 63
    → m < 2 ^ 63
    → inter_name u q k ≡ inter_name u r m
    → (q ≡ r) × (k ≡ m)
unfolding inter_name
inter_name_injective u q k r m hq hk hr hm h =
    let tails = append_cancel (codes "inter-") _ _ (append_cancel (gcs_staging_prefix u) _ _ h) in
    let (a, b) =
      same_digits (format_padded 0 (pos q)) (format_padded 0 (pos r)) (format_padded 0 (pos k))
        (format_padded 0 (pos m)) (format_padded-IsDigit 0 q) (format_padded-IsDigit 0 r) tails in
    (format_padded_injective q r hq hr a, format_padded_injective k m hk hm b)

-- The name is not that of an intermediate of a round from `r` on.
abbrev pub IsBefore : GcsUploader → ℕ → Bytes → Type 0
IsBefore u r j = (q k : ℕ) → r ≤ q → q < 2 ^ 63 → k < 2 ^ 63 → eqb (inter_name u q k) j ≡ false

-- Nor that of an intermediate of this round from the group `k` on.
abbrev pub IsAside : GcsUploader → ℕ → ℕ → Bytes → Type 0
IsAside u r k j = (m : ℕ) → k ≤ m → m < 2 ^ 63 → eqb (inter_name u r m) j ≡ false

pub eqb-ne : (s t : Bytes) → s ≢ t → eqb s t ≡ false
eqb-ne s t h = elim (Bool-cases (eqb s t)) [ inl e ↦ absurd (h ((eqb_iff s t).0 e)) | inr e ↦ e ]

pub IsBefore-inter_name :
    (u : GcsUploader) (r k : ℕ) → r < 2 ^ 63 → k < 2 ^ 63 → IsBefore u (suc r) (inter_name u r k)
IsBefore-inter_name u r k hr hk q m later hq hm =
    eqb-ne (inter_name u q m) (inter_name u r k)
      (λ e. omega (arith, (inter_name_injective u q m r k hq hm hr hk e).0))

pub IsAside-inter_name :
    (u : GcsUploader) (r k : ℕ) → r < 2 ^ 63 → k < 2 ^ 63 → IsAside u r (suc k) (inter_name u r k)
IsAside-inter_name u r k hr hk m later hm =
    eqb-ne (inter_name u r m) (inter_name u r k)
      (λ e. omega (arith, (inter_name_injective u r m r k hr hm hr hk e).1))

minus : (n : ℕ) (s : Bytes) → format_padded 5 (negsuc n) ≢ codes "inter-" ++ s
unfolding format_padded
minus n s h = omega (arith, ap (first_or 0) h)

-- A padded number begins with a digit or with a minus.
padded_not_inter : (n : ℤ) (s : Bytes) → codes "inter-" ++ s ≢ format_padded 5 n
padded_not_inter (pos n) s h =
    let digits = format_padded-IsDigit 5 n in
    let all : All IsDigit (codes "inter-" ++ s) = subst (All IsDigit) (sym h) digits in
    omega (arith, all.0)
padded_not_inter (negsuc n) s h = minus n s (sym h)

pub IsBefore-part_name : (u : GcsUploader) (n : ℤ) → IsBefore u 0 (part_name u n)
unfolding inter_name part_name
IsBefore-part_name u n q k later hq hk =
    eqb-ne (inter_name u q k) (part_name u n)
      (λ e. padded_not_inter n _ (append_cancel (gcs_staging_prefix u) _ _ e))

pub inter_name-prefix :
    (u : GcsUploader) (r k : ℕ) → has_prefix (inter_name u r k) (gcs_staging_prefix u) ≡ true
unfolding inter_name
inter_name-prefix u r k = has_prefix-append (gcs_staging_prefix u) _
