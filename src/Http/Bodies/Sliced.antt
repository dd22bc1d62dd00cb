-- ===== src/Http/Bodies/Sliced.antt =====
-- What sliceBody of blob/httpblob/httpblob.go makes of a response to a request for a range.
use mathlib.Core.Path.{subst}
use gocloud_ext.Blob.{invalid_argument}
use gocloud_ext.Common.{
  ℕ, ℤ, zero, suc, pos, negsuc, ◌≤◌, Bytes, ltb, ◌==◌, [], ◌∷◌, take, drop, length, Result, ok, err,
  ◌≡◌, sym, arith, Bool-cases, inl, inr,
}
use gocloud_ext.Http.{Body, Fault, Response, driver_fault}
use gocloud_ext.Http.Bodies.{limit_body, limit_positive, skipped, short, torn, Skipped, slice_body}
use gocloud_ext.Http.Bodies.Carried.{
  Carries, IsRest, limit_body-Carries, skip_body-IsRest, take_all,
}

-- The bytes of `x` from an offset on, at most so many where the count is positive.
abbrev pub range_of : ℕ → ℤ → Bytes → Bytes
range_of offset (pos zero) x = drop offset x
range_of offset (pos (suc n)) x = take (suc n) (drop offset x)
range_of offset (negsuc n) x = drop offset x

-- A response of a server that holds `x`: a 206 carries the range, and a 200 the whole.
pub record Conforms (resp : Response) (offset : ℕ) (count : ℤ) (x : Bytes) : Type 0 where
  pub partial : resp.status_code ≡ 206 → Carries resp.body (range_of offset count x)
  pub whole : resp.status_code ≡ 200 → Carries resp.body x

pub length-take : (n : ℕ) (x : Bytes) → length (take n x) ≤ n
length-take zero x = omega arith
length-take (suc n) [] = omega arith
length-take (suc n) (x ∷ xs) = omega (arith, length-take n xs)

pub limit_positive-Carries :
    (offset : ℕ) (count : ℤ) (b : Body) (x : Bytes)
    → Carries b (drop offset x)
    → Carries (limit_positive count b) (range_of offset count x)
unfolding limit_positive
limit_positive-Carries offset (pos zero) b x h = h
limit_positive-Carries offset (pos (suc n)) b x h = limit_body-Carries (suc n) b _ h
limit_positive-Carries offset (negsuc n) b x h = h

pub limit_positive-range :
    (offset : ℕ) (count : ℤ) (b : Body) (x : Bytes)
    → Carries b (range_of offset count x)
    → Carries (limit_positive count b) (range_of offset count x)
unfolding limit_positive
limit_positive-range offset (pos zero) b x h = h
limit_positive-range offset (pos (suc n)) b x h =
    subst (λ t. Carries (limit_body (suc n) b) t)
      (take_all (suc n) (take (suc n) (drop offset x)) (length-take (suc n) (drop offset x)))
      (limit_body-Carries (suc n) b _ h)
limit_positive-range offset (negsuc n) b x h = h

abbrev pub IsSliced : ℕ → ℤ → Bytes → Result Fault (Body × ℤ) → Type 0
IsSliced offset count x (ok (b, size)) = Carries b (range_of offset count x)
IsSliced offset count x (err e) = Unit

skipped-IsSliced :
    (offset : ℕ) (count size : ℤ) (x : Bytes) (s : Skipped)
    → IsRest offset s x
    → IsSliced offset count x (elim s [
      | skipped b ↦ ok (limit_positive count b, size)
      | short ↦ err (driver_fault invalid_argument)
      | torn e ↦ err e
    ])
skipped-IsSliced offset count size x (skipped b) (h, k) = limit_positive-Carries offset count b x h
skipped-IsSliced offset count size x short h = tt
skipped-IsSliced offset count size x (torn e) h = tt

-- Whether the server answers with the range or with the whole object, the body that sliceBody returns
-- carries exactly the range that was asked for.
pub slice_body-IsSliced :
    (resp : Response) (offset : ℕ) (count : ℤ) (x : Bytes)
    → Conforms resp offset count x
    → IsSliced offset count x (slice_body resp offset count)
unfolding slice_body
slice_body-IsSliced resp offset count x h = elim (Bool-cases (resp.status_code == 206)) [
  | inl p ↦
      rw (slice_body, p) (limit_positive-range offset count resp.body x (h.partial (ground arith)))
  | inr p ↦ elim (Bool-cases (resp.status_code == 200)) [
    | inr w ↦ rw (slice_body, p, w) tt
    | inl w ↦
        let c : Carries resp.body x = h.whole (ground arith) in
        elim (Bool-cases (ltb 0 offset)) [
          | inl o ↦
              rw (slice_body, p, w, o)
                (skipped-IsSliced offset count _ x _ (skip_body-IsRest offset resp.body x c))
          | inr o ↦
              let z : offset ≡ 0 = ground arith in
              rw (slice_body, p, w, o)
                (limit_positive-Carries offset count resp.body x
                  (subst (λ n. Carries resp.body (drop n x)) (sym z) c))
        ]
  ]
]
