-- ===== src/Http/Bodies/Carried.antt =====
-- The bytes that a body of blob/httpblob/httpblob.go carries.
use mathlib.Core.Path.{subst}
use gocloud_ext.Common.{
  take-drop, ℕ, zero, suc, ◌+◌, ◌-◌, ◌≤◌, ◌<◌, Bytes, leb, ltb, ◌==◌, [], ◌∷◌, ◌++◌, take, drop,
  length, Option, none, some, ◌≡◌, refl, sym, ap, ◌∙◌, arith, append-nil, append_assoc,
  length-append, Bool-cases, inl, inr,
}
use gocloud_ext.Http.{Body, ends, more, Fault}
use gocloud_ext.Http.Bodies.{limit_body, skip_body, Skipped, skipped, short, torn, read_body}

-- The body yields bytes of `x` from its start on, and ends without an error only after all of them.
abbrev pub Carries : Body → Bytes → Type 0
Carries (ends d none) x = d ≡ x
Carries (ends d (some e)) x = (y : Bytes) × (x ≡ d ++ y)
Carries (more c r) x = (y : Bytes) × (x ≡ c ++ y) × Carries r y

pub take-append : (n : ℕ) (d y : Bytes) → take n (d ++ y) ≡ take n d ++ take (n - length d) y
take-append zero d y = let e : zero - length d ≡ 0 = omega arith in rw e refl
take-append (suc n) [] y = let e : suc n - 0 ≡ suc n = omega arith in rw e refl
take-append (suc n) (x ∷ d) y =
    let e : suc n - suc (length d) ≡ n - length d = omega arith in
    rw e (ap (λ t. x ∷ t) (take-append n d y))

pub drop-append_le : (n : ℕ) (d y : Bytes) → n ≤ length d → drop n (d ++ y) ≡ drop n d ++ y
drop-append_le zero d y h = refl
drop-append_le (suc n) [] y h = absurd (omega (arith, h))
drop-append_le (suc n) (x ∷ d) y h = drop-append_le n d y (omega (arith, h))

pub drop-append_ge : (n : ℕ) (d y : Bytes) → length d ≤ n → drop n (d ++ y) ≡ drop (n - length d) y
drop-append_ge n [] y h = let e : n - 0 ≡ n = omega arith in rw e refl
drop-append_ge zero (x ∷ d) y h = absurd (omega (arith, h))
drop-append_ge (suc n) (x ∷ d) y h =
    let e : suc n - suc (length d) ≡ n - length d = omega arith in
    rw e (drop-append_ge n d y (omega (arith, h)))

pub take_all : (n : ℕ) (d : Bytes) → length d ≤ n → take n d ≡ d
take_all zero [] h = refl
take_all zero (x ∷ d) h = absurd (omega (arith, h))
take_all (suc n) [] h = refl
take_all (suc n) (x ∷ d) h = ap (λ t. x ∷ t) (take_all n d (omega (arith, h)))

pub take_nothing : (n : ℕ) (d : Bytes) → n ≡ 0 → take n d ≡ []
take_nothing zero d h = refl
take_nothing (suc n) d h = absurd (omega (arith, h))

ends-prefix :
    (d : Bytes) (e : Option Fault) (x : Bytes) → Carries (ends d e) x → (y : Bytes) × (x ≡ d ++ y)
ends-prefix d none x h = ([], sym h ∙ sym (append-nil d))
ends-prefix d (some e) x h = h

ends-take :
    (n : ℕ) (d : Bytes) (e : Option Fault) (x : Bytes)
    → length d ≤ n
    → Carries (ends d e) x
    → Carries (ends d e) (take n x)
ends-take n d none x l h = sym (take_all n d l) ∙ ap (take n) h
ends-take n d (some e) x l (y, h) = (
  take (n - length d) y,
  ap (take n) h ∙ take-append n d y ∙ ap (λ t. t ++ take (n - length d) y) (take_all n d l),
)

ends-take_less :
    (n : ℕ) (d : Bytes) (e : Option Fault) (x : Bytes)
    → n ≤ length d
    → Carries (ends d e) x
    → take n x ≡ take n d ++ []
ends-take_less n d e x l h =
    let (y, k) = ends-prefix d e x h in
    ap (take n) k
    ∙ take-append n d y
    ∙ ap (λ t. take n d ++ t) (take_nothing (n - length d) y (omega (arith, l)))

ends-drop :
    (n : ℕ) (d : Bytes) (e : Option Fault) (x : Bytes)
    → n ≤ length d
    → Carries (ends d e) x
    → Carries (ends (drop n d) e) (drop n x)
ends-drop n d none x l h = ap (drop n) h
ends-drop n d (some e) x l (y, h) = (y, ap (drop n) h ∙ drop-append_le n d y l)

pub limit_body-Carries :
    (n : ℕ) (b : Body) (x : Bytes) → Carries b x → Carries (limit_body n b) (take n x)
unfolding limit_body
limit_body-Carries n (ends d e) x h = elim (Bool-cases (n == 0)) [
  | inl z ↦ rw (limit_body, z) (sym (take_nothing n x (ground arith)))
  | inr z ↦ elim (Bool-cases (leb (length d) n)) [
    | inl l ↦ rw (limit_body, z, l) (ends-take n d e x (ground arith) h)
    | inr l ↦ rw (limit_body, z, l) ([], ends-take_less n d e x (ground arith) h, refl)
  ]
]
limit_body-Carries n (more c r) x (y, h, k) = elim (Bool-cases (n == 0)) [
  | inl z ↦ rw (limit_body, z) (sym (take_nothing n x (ground arith)))
  | inr z ↦
      rw (limit_body, z)
        (
          take (n - length c) y,
          ap (take n) h ∙ take-append n c y,
          limit_body-Carries (n - length c) r y k,
        )
]

-- What CopyN leaves of a body.
abbrev pub IsRest : ℕ → Skipped → Bytes → Type 0
IsRest n (skipped b) x = Carries b (drop n x) × (n ≤ length x)
IsRest n short x = length x < n
IsRest n (torn e) x = Unit

skip_ends-IsRest :
    (n : ℕ) (d : Bytes) (e : Option Fault) (x : Bytes)
    → Carries (ends d e) x
    → length d < n
    → IsRest n (elim e [ none ↦ short | some f ↦ torn f ]) x
skip_ends-IsRest n d none x h l = rw (sym h) l
skip_ends-IsRest n d (some e) x h l = tt

IsRest-drop :
    (n : ℕ) (s : Skipped) (c y : Bytes)
    → length c ≤ n
    → IsRest (n - length c) s y
    → IsRest n s (c ++ y)
IsRest-drop n (skipped b) c y l (h, k) =
    (rw (drop-append_ge n c y l) h, omega (arith, l, k, length-append c y))
IsRest-drop n short c y l h = omega (arith, l, h, length-append c y)
IsRest-drop n (torn e) c y l h = tt

pub skip_body-IsRest : (n : ℕ) (b : Body) (x : Bytes) → Carries b x → IsRest n (skip_body n b) x
unfolding skip_body
skip_body-IsRest n (ends d e) x h = elim (Bool-cases (leb n (length d))) [
  | inl l ↦
      let (y, k) = ends-prefix d e x h in
      let a : length x ≡ length d + length y = ap length k ∙ length-append d y in
      let m : n ≤ length d = ground arith in
      rw (skip_body, l) (ends-drop n d e x m h, omega (arith, a, m))
  | inr l ↦ rw (skip_body, l) (skip_ends-IsRest n d e x h (ground arith))
]
skip_body-IsRest n (more c r) x (y, h, k) = elim (Bool-cases (ltb n (length c))) [
  | inl l ↦
      let m : n < length c = ground arith in
      let a : length x ≡ length c + length y = ap length h ∙ length-append c y in
      rw (skip_body, l)
        ((y, ap (drop n) h ∙ drop-append_le n c y (omega (arith, m)), k), omega (arith, a, m))
  | inr l ↦
      rw (skip_body, l)
        (subst (λ t. IsRest n (skip_body (n - length c) r) t) (sym h)
          (IsRest-drop n (skip_body (n - length c) r) c y (ground arith)
            (skip_body-IsRest (n - length c) r y k)))
]

-- Nothing is left where the end was io.EOF.
abbrev pub AtEnd : Option (Option Fault) → Bytes → Type 0
AtEnd (some none) y = y ≡ []
AtEnd (some (some e)) y = Unit
AtEnd none y = Unit

-- One Read takes the first bytes of what the body carries, and all of them where it says io.EOF.
abbrev pub IsRead : Bytes × Option (Option Fault) × Body → Bytes → Type 0
IsRead (d, e, b) x = (y : Bytes) × (x ≡ d ++ y) × Carries b y × AtEnd e y

ends-split :
    (k : ℕ) (d : Bytes) (e : Option Fault) (x : Bytes)
    → Carries (ends d e) x
    → (y : Bytes) × (x ≡ take k d ++ y) × Carries (ends (drop k d) e) y
ends-split k d none x h = (drop k d, sym h ∙ take-drop k d, refl)
ends-split k d (some e) x (y, h) = (
  drop k d ++ y,
  h ∙ ap (λ t. t ++ y) (take-drop k d) ∙ append_assoc (take k d) (drop k d) y,
  (y, refl),
)

ends-IsRead :
    (d : Bytes) (e : Option Fault) (x : Bytes)
    → Carries (ends d e) x
    → IsRead (d, some e, ends [] e) x
ends-IsRead d none x h = ([], sym h ∙ sym (append-nil d), refl, refl)
ends-IsRead d (some f) x (y, h) = (y, h, (y, refl), tt)

pub read_body-IsRead : (k : ℕ) (b : Body) (x : Bytes) → Carries b x → IsRead (read_body k b) x
unfolding read_body
read_body-IsRead k (ends d e) x h = elim (Bool-cases (leb (length d) k)) [
  | inl l ↦ rw (read_body, l) (ends-IsRead d e x h)
  | inr l ↦ let (y, p, q) = ends-split k d e x h in rw (read_body, l) (y, p, q, tt)
]
read_body-IsRead k (more c r) x (y, h, q) = elim (Bool-cases (leb (length c) k)) [
  | inl l ↦ rw (read_body, l) (y, h, q, tt)
  | inr l ↦
      rw (read_body, l)
        (
          drop k c ++ y,
          h ∙ ap (λ t. t ++ y) (take-drop k c) ∙ append_assoc (take k c) (drop k c) y,
          (y, refl, q),
          tt,
        )
]
