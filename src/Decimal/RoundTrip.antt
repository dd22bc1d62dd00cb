-- ===== src/Decimal/RoundTrip.antt =====
-- Reading padded numbers back, and the order of their names.
use gocloud_ext.Common.{
  ℕ, zero, suc, ◌+◌, ◌-◌, ◌*◌, ◌/◌, ◌%◌, ◌^◌, ◌<◌, ◌≤◌, pos, Bytes, ltb, lt→ltb, [], ◌∷◌, ◌++◌, ◌≡◌,
  ◌≢◌, refl, Option, some, none, lt_bytes, eqb, codes, arith, length, length-append, Bool-cases,
  false, inl, inr, All, All-append, sym, ap, ◌∙◌,
}
use gocloud_ext.Decimal.{digits, zeros, format_padded, parse_int, scan_digits, signed}

abbrev pub IsDigit : ℕ → Type 0
IsDigit c = (b'0' ≤ c) × (c ≤ b'9')

-- At most `f + 1` digits.
abbrev Fits : ℕ → ℕ → Type 0
Fits zero n = n < 10
Fits (suc f) n = Fits f (n / 10)

abbrev then_scan : Bytes → Option ℕ → Option ℕ
then_scan t none = none
then_scan t (some m) = scan_digits t m

scan_digits-append : (s t : Bytes) (a : ℕ) → scan_digits (s ++ t) a ≡ then_scan t (scan_digits s a)
unfolding scan_digits
scan_digits-append [] t a = refl
scan_digits-append (c ∷ s) t a = ground (arith, scan_digits-append s t (a * 10 + (c - b'0')))

one_digit : (c a : ℕ) → c < 10 → scan_digits ((b'0' + c) ∷ []) a ≡ some (a * 10 + c)
unfolding scan_digits
one_digit c a h = ground arith

scan_digits-digits : (f n : ℕ) → Fits f n → scan_digits (digits (suc f) n) 0 ≡ some n
unfolding digits
scan_digits-digits zero n h = ground (arith, one_digit n 0)
scan_digits-digits (suc f) n h = elim (Bool-cases (ltb n 10)) [
  | inl e ↦ rw e (ground (arith, one_digit n 0))
  | inr e ↦
      rw (e, scan_digits-append)
        (let ih = scan_digits-digits f (n / 10) h in
          ground (arith, ih, one_digit (n % 10) (n / 10)))
]

digits-IsDigit : (f n : ℕ) → All IsDigit (digits f n)
unfolding digits
digits-IsDigit zero n = tt
digits-IsDigit (suc f) n = elim (Bool-cases (ltb n 10)) [
  | inl e ↦ rw e (ground arith, tt)
  | inr e ↦ rw e (All-append IsDigit _ _ (digits-IsDigit f (n / 10)) (omega arith, tt))
]

zeros-IsDigit : (k : ℕ) → All IsDigit (zeros k)
unfolding zeros
zeros-IsDigit zero = tt
zeros-IsDigit (suc k) = (omega arith, zeros-IsDigit k)

scan_digits-zeros : (k : ℕ) (s : Bytes) → scan_digits (zeros k ++ s) 0 ≡ scan_digits s 0
unfolding scan_digits zeros
scan_digits-zeros zero s = refl
scan_digits-zeros (suc k) s = scan_digits-zeros k s

length-digits : (f n : ℕ) → Fits f n → length (digits (suc f) n) ≤ suc f
unfolding digits
length-digits zero n h = ground arith
length-digits (suc f) n h = elim (Bool-cases (ltb n 10)) [
  | inl e ↦ rw e (omega arith)
  | inr e ↦ rw e (
      omega (
        arith,
        length-append (digits (suc f) (n / 10)) ((b'0' + n % 10) ∷ []),
        length-digits f (n / 10) h,
      ))
]

digits_more : (f g n : ℕ) → Fits f n → f ≤ g → digits (suc g) n ≡ digits (suc f) n
unfolding digits
digits_more zero zero n h k = refl
digits_more zero (suc g) n h k = ground arith
digits_more (suc f) zero n h k = absurd (omega arith)
digits_more (suc f) (suc g) n h k = elim (Bool-cases (ltb n 10)) [
  | inl e ↦ rw e
  | inr e ↦ rw (e, digits_more f g (n / 10) h (omega arith))
]

length-zeros : (k : ℕ) → length (zeros k) ≡ k
unfolding zeros
length-zeros zero = refl
length-zeros (suc k) = ground (arith, length-zeros k)

format_padded-pos :
    (w n : ℕ) → format_padded w (pos n) ≡ zeros (w - length (digits 20 n)) ++ digits 20 n
unfolding format_padded
format_padded-pos w n = refl

pub format_padded-IsDigit : (w n : ℕ) → All IsDigit (format_padded w (pos n))
format_padded-IsDigit w n =
    rw format_padded-pos
      (All-append IsDigit _ _ (zeros-IsDigit (w - length (digits 20 n))) (digits-IsDigit 20 n))

pub parse_int-digits :
    (s : Bytes) → s ≢ [] → All IsDigit s → parse_int s ≡ signed false (scan_digits s 0)
unfolding parse_int
parse_int-digits [] ne h = absurd (ne refl)
parse_int-digits (c ∷ s) ne h = ground arith

int64-Fits : (n : ℕ) → n < 2 ^ 63 → Fits 19 n
int64-Fits n h = omega arith

pub signed_pos : (n : ℕ) → n < 2 ^ 63 → signed false (some n) ≡ some (pos n)
unfolding signed
signed_pos n h = rw (lt→ltb n (2 ^ 63) h)

digits-pos : (f n : ℕ) → 0 < length (digits (suc f) n)
unfolding digits
digits-pos f n = elim (Bool-cases (ltb n 10)) [
  | inl e ↦ rw e (omega arith)
  | inr e ↦ rw e (omega (arith, length-append (digits f (n / 10)) ((b'0' + n % 10) ∷ [])))
]

format_padded-ne-nil : (w n : ℕ) → format_padded w (pos n) ≢ []
format_padded-ne-nil w n e =
    let d = digits 20 n in
    omega (
      arith,
      ap length (sym (format_padded-pos w n) ∙ e),
      length-append (zeros (w - length d)) d,
      digits-pos 19 n,
    )

digits_short : (f n : ℕ) → length (digits (suc (suc f)) n) ≤ 1 → n < 10
unfolding digits
digits_short f n h = elim (Bool-cases (ltb n 10)) [
  | inl e ↦ ground arith
  | inr e ↦
      let l = length-append (digits (suc f) (n / 10)) ((b'0' + n % 10) ∷ []) in
      absurd (omega (arith, (rw e at h), l, digits-pos f (n / 10)))
]

-- A number that is printed with one digit, and without padding, is below 10.
pub format_padded_short : (n : ℕ) → length (format_padded 0 (pos n)) ≤ 1 → n < 10
format_padded_short n h =
    let d = digits 20 n in
    let l = ap length (format_padded-pos 0 n) ∙ length-append (zeros (0 - length d)) d in
    digits_short 18 n (omega (arith, h, l))

pub scan_digits-format_padded :
    (w n : ℕ) → n < 2 ^ 63 → scan_digits (format_padded w (pos n)) 0 ≡ some n
scan_digits-format_padded w n h =
    rw (format_padded-pos, scan_digits-zeros) (scan_digits-digits 19 n (int64-Fits n h))

-- A number of an int64 that is not negative is read back from its padded form, at every width.
pub parse_int-format_padded :
    (width n : ℕ) → n < 2 ^ 63 → parse_int (format_padded width (pos n)) ≡ some (pos n)
parse_int-format_padded width n h =
    parse_int-digits (format_padded width (pos n)) (format_padded-ne-nil width n)
      (format_padded-IsDigit width n)
    ∙ ap (signed false) (scan_digits-format_padded width n h)
    ∙ signed_pos n h

-- The comparison of two digit strings of one length.
lt_bytes-scan :
    (s t : Bytes) (a b x y : ℕ)
    → length s ≡ length t
    → All IsDigit s
    → All IsDigit t
    → scan_digits s a ≡ some x
    → scan_digits t b ≡ some y
    → (a < b → x < y) × (b < a → y < x) × (a ≡ b → lt_bytes s t ≡ ltb x y)
unfolding scan_digits lt_bytes
lt_bytes-scan [] [] a b x y l ds dt p q = (λ h. ground arith, λ h. ground arith, λ h. ground arith)
lt_bytes-scan [] (d ∷ t) a b x y l ds dt p q = absurd (omega arith)
lt_bytes-scan (c ∷ s) [] a b x y l ds dt p q = absurd (omega arith)
lt_bytes-scan (c ∷ s) (d ∷ t) a b x y l ds dt p q =
    let ps : scan_digits s (a * 10 + (c - b'0')) ≡ some x = ground arith in
    let qs : scan_digits t (b * 10 + (d - b'0')) ≡ some y = ground arith in
    let ih =
      lt_bytes-scan s t (a * 10 + (c - b'0')) (b * 10 + (d - b'0')) x y (omega arith) ds.1 dt.1 ps
        qs in
    ((λ h. ih.0 (omega arith)), (λ h. ih.1 (omega arith)), λ h. ground (arith, ih.0, ih.1, ih.2))

length-format_padded : (w n : ℕ) → length (digits 20 n) ≤ w → length (format_padded w (pos n)) ≡ w
length-format_padded w n h =
    let d = digits 20 n in
    rw format_padded-pos
      (omega (arith, length-append (zeros (w - length d)) d, length-zeros (w - length d)))

five_digits : (n : ℕ) → n < 100000 → length (digits 20 n) ≤ 5
five_digits n h =
    let fits : Fits 4 n = omega arith in
    rw (digits_more 4 19 n fits (omega arith)) (length-digits 4 n fits)

-- Below 100000 the names of five digits are ordered as the numbers are.
pub lt_bytes-format_padded :
    (m n : ℕ)
    → m < 100000
    → n < 100000
    → lt_bytes (format_padded 5 (pos m)) (format_padded 5 (pos n)) ≡ ltb m n
lt_bytes-format_padded m n hm hn =
    (lt_bytes-scan (format_padded 5 (pos m)) (format_padded 5 (pos n)) 0 0 m n
        (length-format_padded 5 m (five_digits m hm)
          ∙ sym (length-format_padded 5 n (five_digits n hn)))
        (format_padded-IsDigit 5 m) (format_padded-IsDigit 5 n)
        (scan_digits-format_padded 5 m (omega arith))
        (scan_digits-format_padded 5 n (omega arith))).2
      refl

-- A padded number is not the name of the manifest, which begins with a letter.
pub format_padded_head : (w n : ℕ) → eqb (format_padded w (pos n)) (codes "manifest.json") ≡ false
format_padded_head w n = go (format_padded w (pos n)) (format_padded-IsDigit w n)
  where
    go : (s : Bytes) → All IsDigit s → eqb s (codes "manifest.json") ≡ false
    go [] h = unfold eqb in refl
    go (c ∷ s) h = unfold eqb in ground arith

-- Below 100000 a number has the width it is padded to, from five on.
pub length-format_padded_small :
    (w n : ℕ) → 5 ≤ w → n < 100000 → length (format_padded w (pos n)) ≡ w
length-format_padded_small w n h k = length-format_padded w n (omega (arith, h, five_digits n k))
