-- ===== src/Decimal/Trimmed.antt =====
-- Padded numbers whose leading zeros are taken away.
use gocloud_ext.Common.{
  ℕ, ◌^◌, ◌<◌, ◌≤◌, pos, Bytes, [], ◌∷◌, ◌≡◌, ◌≢◌, refl, sym, ap, ◌∙◌, Option, some, none, arith,
  All, Bool-cases, inl, inr, ◌==◌, ◌||◌, false,
}
use gocloud_ext.Decimal.{format_padded, parse_int, trim_zeros, scan_digits, signed}
use gocloud_ext.Decimal.RoundTrip.{
  IsDigit, format_padded-IsDigit, scan_digits-format_padded, parse_int-digits, signed_pos,
}

scan_digits-trim_zeros :
    (s : Bytes) → All IsDigit s → scan_digits (trim_zeros s) 0 ≡ scan_digits s 0
unfolding trim_zeros scan_digits
scan_digits-trim_zeros [] h = refl
scan_digits-trim_zeros (c ∷ s) h = ground (arith, scan_digits-trim_zeros s h.1)

trim_zeros-IsDigit : (s : Bytes) → All IsDigit s → All IsDigit (trim_zeros s)
unfolding trim_zeros
trim_zeros-IsDigit [] h = tt
trim_zeros-IsDigit (c ∷ s) h = elim (Bool-cases (c == b'0' || c == 0)) [
  | inl e ↦ rw e (trim_zeros-IsDigit s h.1)
  | inr e ↦ rw e h
]

or_zero : Option ℕ → ℕ
or_zero none = 0
or_zero (some n) = n

-- Something is left of a number that is not 0.
trim_zeros-ne-nil :
    (s : Bytes) (n : ℕ) → All IsDigit s → scan_digits s 0 ≡ some n → 1 ≤ n → trim_zeros s ≢ []
unfolding scan_digits or_zero
trim_zeros-ne-nil s n h k p e =
    let zero_left : scan_digits (trim_zeros s) 0 ≡ some 0 = ap (λ t. scan_digits t 0) e in
    omega (arith, p, ap or_zero (sym zero_left ∙ scan_digits-trim_zeros s h ∙ k))

-- A positive number of an int64 is read back from its padded form without the leading zeros.
pub parse_int-trim_zeros :
    (w n : ℕ) → 1 ≤ n → n < 2 ^ 63 → parse_int (trim_zeros (format_padded w (pos n))) ≡ some (pos n)
parse_int-trim_zeros w n p h =
    let padded = format_padded w (pos n) in
    let all = format_padded-IsDigit w n in
    let scanned = scan_digits-format_padded w n h in
    parse_int-digits (trim_zeros padded) (trim_zeros-ne-nil padded n all scanned p)
      (trim_zeros-IsDigit padded all)
    ∙ ap (signed false) (scan_digits-trim_zeros padded all ∙ scanned)
    ∙ signed_pos n h
