-- ===== src/Http/Reader/Ranges.antt =====
-- The bytes that remain of a range in the reader of blob/httpblob/httpblob.go.
use mathlib.Core.Path.{subst}
use gocloud_ext.Common.{
  take-drop, ℕ, ℤ, zero, suc, pos, negsuc, ◌+◌, ◌-◌, ◌≤◌, Bytes, true, leb, [], ◌∷◌, ◌++◌, take,
  drop, length, length-append, drop-append, append-nil, ◌≡◌, ◌⊎◌, refl, sym, ap, ◌∙◌, arith, inl,
  inr,
}
use gocloud_ext.Http.Bodies.Sliced.{range_of, length-take}
use gocloud_ext.Http.Reader.{minus, less}

pub drop-drop : (n m : ℕ) (x : Bytes) → drop m (drop n x) ≡ drop (n + m) x
drop-drop zero m x = let e : zero + m ≡ m = omega arith in rw e refl
drop-drop (suc n) zero [] = let e : suc n + 0 ≡ suc n = omega arith in rw e refl
drop-drop (suc n) (suc m) [] = let e : suc n + suc m ≡ suc (n + suc m) = omega arith in rw e refl
drop-drop (suc n) m (y ∷ x) =
    let e : suc n + m ≡ suc (n + m) = omega arith in rw e (drop-drop n m x)

take-nil : (n : ℕ) → take {A = ℕ} n [] ≡ []
take-nil zero = refl
take-nil (suc n) = refl

pub drop-take : (n m : ℕ) (x : Bytes) → drop m (take n x) ≡ take (n - m) (drop m x)
drop-take n zero x = let e : n - 0 ≡ n = omega arith in rw e refl
drop-take zero (suc m) x = let e : 0 - suc m ≡ 0 = omega arith in rw e refl
drop-take (suc n) (suc m) [] = sym (take-nil (suc n - suc m))
drop-take (suc n) (suc m) (y ∷ x) =
    let e : suc n - suc m ≡ n - m = omega arith in rw e (drop-take n m x)

pub suffix : (d y z : Bytes) → d ++ y ≡ z → y ≡ drop (length d) z
suffix d y z h = sym (drop-append d y) ∙ ap (drop (length d)) h

pub suffix_from : (x d y : Bytes) (o : ℕ) → drop o x ≡ d ++ y → drop (o + length d) x ≡ y
suffix_from x d y o h = sym (drop-drop o (length d) x) ∙ sym (suffix d y _ (sym h))

pub range_of-within : (o : ℕ) (n : ℤ) (x : Bytes) → (y : Bytes) × (drop o x ≡ range_of o n x ++ y)
range_of-within o (pos zero) x = ([], sym (append-nil _))
range_of-within o (negsuc n) x = ([], sym (append-nil _))
range_of-within o (pos (suc n)) x = (drop (suc n) (drop o x), take-drop (suc n) (drop o x))

take_positive :
    (k o : ℕ) (x y : Bytes) → y ≡ take k (drop o x) → (pos k ≡ pos 0) ⊎ (y ≡ range_of o (pos k) x)
take_positive zero o x y h = inl refl
take_positive (suc k) o x y h = inr h

pub range_of-less :
    (x : Bytes) (o : ℕ) (n : ℤ) (d y : Bytes)
    → d ++ y ≡ range_of o n x
    → (less n (length d) ≡ pos 0) ⊎ (y ≡ range_of (o + length d) (less n (length d)) x)
unfolding less
range_of-less x o (pos zero) d y h = inl refl
range_of-less x o (negsuc n) d y h = inr (suffix d y _ h ∙ drop-drop o (length d) x)
range_of-less x o (pos (suc n)) d y h =
    let a : length d + length y ≤ suc n =
      subst (λ k. k ≤ suc n) (ap length (sym h) ∙ length-append d y)
        (length-take (suc n) (drop o x)) in
    let l : leb (length d) (suc n) ≡ true = ground (arith, a) in
    let e : minus (suc n) (length d) ≡ pos (suc n - length d) = rw (minus, l) refl in
    rw e (
      take_positive (suc n - length d) (o + length d) x y (
        suffix d y _ h
        ∙ drop-take (suc n) (length d) (drop o x)
        ∙ ap (take (suc n - length d)) (drop-drop o (length d) x)))
