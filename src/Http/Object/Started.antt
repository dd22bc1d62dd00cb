-- ===== src/Http/Object/Started.antt =====
-- The reader that NewRangeReader of blob/httpblob/httpblob.go starts.
use mathlib.Core.Path.{subst}
use gocloud_ext.Common.{
  pos_part, ℕ, ℤ, zero, suc, pos, negsuc, ◌-◌, Bytes, leb, [], ◌∷◌, drop, length, Option, Result,
  ok, err, ◌≡◌, ◌⊎◌, refl, sym, ap, ◌∙◌, arith, Result-cases, Bool-cases, inl, inr,
}
use gocloud_ext.Http.{Body, Fault, Request, Response}
use gocloud_ext.Http.Client.{Client, HttpBucket}
use gocloud_ext.Http.Retry.{do_request}
use gocloud_ext.Http.Retry.Answers.{do_request-answered}
use gocloud_ext.Http.Bodies.{range_validator, slice_body}
use gocloud_ext.Http.Bodies.Carried.{Carries, take_all}
use gocloud_ext.Http.Bodies.Sliced.{range_of, Conforms, IsSliced, slice_body-IsSliced}
use gocloud_ext.Http.Reader.{Reader, minus}
use gocloud_ext.Http.Reader.Kept.{IsReading}
use gocloud_ext.Sftp.Files.{Xattrs}
use gocloud_ext.Http.Reader.Ranges.{range_of-within}
use gocloud_ext.Http.Object.{open_range, fetch_attrs, expected}

length-drop : (n : ℕ) (x : Bytes) → length (drop n x) ≡ length x - n
length-drop zero x = omega arith
length-drop (suc n) [] = omega arith
length-drop (suc n) (y ∷ x) = omega (arith, length-drop n x)

full_range :
    (k o : ℕ) (x : Bytes)
    → length (drop o x) ≡ k
    → (pos k ≡ pos 0) ⊎ (drop o x ≡ range_of o (pos k) x)
full_range zero o x h = inl refl
full_range (suc k) o x h = inr (sym (take_all (suc k) (drop o x) (omega (arith, h))))

minus-range :
    (o : ℕ) (x : Bytes)
    → (minus (length x) o ≡ pos 0) ⊎ (drop o x ≡ range_of o (minus (length x) o) x)
minus-range o x = elim (Bool-cases (leb o (length x))) [
  | inl l ↦ rw (minus, l) (full_range (length x - o) o x (length-drop o x))
  | inr l ↦ rw (minus, l) (inr refl)
]

-- What is known of the bytes that remain: the count, or the size.
abbrev pub IsKnown : ℤ → ℤ → Bytes → Type 0
IsKnown count size x = ((n : ℕ) × (count ≡ pos (suc n))) ⊎ (size ≡ pos (length x))

expected-exact :
    (count size : ℤ) (o : ℕ) (x : Bytes)
    → IsKnown count size x
    → (expected count size o ≡ pos 0) ⊎ (range_of o count x ≡ range_of o (expected count size o) x)
unfolding expected
expected-exact (pos (suc n)) size o x h = inr refl
expected-exact (pos zero) size o x (inl (n, h)) = absurd (ground arith)
expected-exact (negsuc m) size o x (inl (n, h)) = absurd (ground arith)
expected-exact (pos zero) (pos n) o x (inr h) =
    subst (λ k. (minus k o ≡ pos 0) ⊎ (drop o x ≡ range_of o (minus k o) x)) (sym (ap pos_part h))
      (minus-range o x)
expected-exact (negsuc m) (pos n) o x (inr h) =
    subst (λ k. (minus k o ≡ pos 0) ⊎ (drop o x ≡ range_of o (minus k o) x)) (sym (ap pos_part h))
      (minus-range o x)
expected-exact (pos zero) (negsuc n) o x (inr h) = absurd (ground arith)
expected-exact (negsuc m) (negsuc n) o x (inr h) = absurd (ground arith)

-- What the reader's fields are, for the answer that it was made of.
abbrev pub IsStarted : Request → ℕ → ℤ → Response → Reader → Body × ℤ → Type 0
IsStarted base o count resp r (body, told) =
    (r.base ≡ base)
    × (r.validator ≡ range_validator resp.header)
    × (r.offset ≡ o)
    × (r.remaining ≡ expected count r.size o)
    × (r.body ≡ body)

started :
    (base : Request) (o : ℕ) (count : ℤ) (x : Bytes) (resp : Response) (r : Reader) (a : Body × ℤ)
    → IsStarted base o count resp r a
    → IsSliced o count x (ok a)
    → IsKnown count r.size x
    → IsReading base r.validator x r
started base o count x resp r (body, told) (h1, h2, h3, h4, h5) q k = record {
  same_base = h1;
  same_validator = refl;
  carried = range_of o count x;
  after = (range_of-within o count x).0;
  carries = subst (λ z. Carries z (range_of o count x)) (sym h5) q;
  within = ap (λ z. drop z x) h3 ∙ (range_of-within o count x).1;
  exact =
      subst (λ z. (z ≡ pos 0) ⊎ (range_of o count x ≡ range_of r.offset z x)) (sym h4)
        (subst
          (λ z.
            (expected count r.size o ≡ pos 0)
            ⊎ (range_of o count x ≡ range_of z (expected count r.size o) x))
          (sym h3) (expected-exact count r.size o x k));
}

request_injective : (p q : Request) → ◌≡◌ {A = Result Fault Request} (ok p) (ok q) → p ≡ q
request_injective p q h = ap (λ t. elim t [ ok a ↦ a | err e ↦ p ]) h

reader_injective : (r q : Reader) → ◌≡◌ {A = Result Fault Reader} (ok r) (ok q) → r ≡ q
reader_injective r q h = ap (λ t. elim t [ ok a ↦ a | err e ↦ r ]) h

module _ (c : Client) (b : HttpBucket) where
  open c use {State, send}

  open_range-IsStarted :
      (decode : Bytes → Option Xattrs) (key url : Bytes) (base : Request) (o : ℕ) (count : ℤ)
      (s : State) (r : Reader)
      → (open_range c b decode key url base o count s).0 ≡ ok r
      → (resp : Response) × (t : State) × (a : Body × ℤ) × ((send base t).0 ≡ ok resp)
        × (slice_body resp o count ≡ ok a)
        × IsStarted base o count resp r a
  unfolding open_range
  open_range-IsStarted decode key url base o count s r h =
      let s1 = (fetch_attrs c b decode url s).1 in
      elim (Result-cases (do_request c b.max_retries (ok base) s1).0) [
        | inr (e, d) ↦ absurd (ground arith)
        | inl (resp, d) ↦ elim (Result-cases (fetch_attrs c b decode url s).0) [
          | inr (e, f) ↦ absurd (ground arith)
          | inl (xa, f) ↦ elim (Result-cases (slice_body resp o count)) [
            | inr (e, g) ↦ absurd (ground arith)
            | inl ((body, told), g) ↦
                let k = rw (open_range, d, f, g) at h in
                let q = sym (reader_injective _ r k) in
                let (req, t, w, a, z, l) =
                  do_request-answered c b.max_retries (ok base) s1 resp d in
                (
                  resp,
                  t,
                  (body, told),
                  ap (λ v. (send v t).0) (request_injective base req w) ∙ a,
                  g,
                  (
                    ap (λ v. v.base) q,
                    ap (λ v. v.validator) q,
                    ap (λ v. v.offset) q,
                    ap (λ v. v.remaining) q
                        ∙ ap (λ v. expected count v o) (sym (ap (λ v. v.size) q)),
                    ap (λ v. v.body) q,
                  ),
                )
          ]
        ]
      ]

  -- A reader that NewRangeReader starts with its request `base` reads the object `x` from the offset
  -- on, where the server answers that request with the range or with the whole of `x`, and where the
  -- count is positive or the size that the reader reports is that of `x`.
  pub open_range-IsReading :
      (decode : Bytes → Option Xattrs) (key url : Bytes) (base : Request) (o : ℕ) (count : ℤ)
      (x : Bytes) (s : State) (r : Reader)
      → ((t : State) (resp : Response) → (send base t).0 ≡ ok resp → Conforms resp o count x)
      → (open_range c b decode key url base o count s).0 ≡ ok r
      → IsKnown count r.size x
      → IsReading base r.validator x r × (r.offset ≡ o)
  open_range-IsReading decode key url base o count x s r answers h k =
      let (resp, t, a, sent, g, fields) = open_range-IsStarted decode key url base o count s r h in
      let q = slice_body-IsSliced resp o count x (answers t resp sent) in
      (started base o count x resp r a fields (subst (IsSliced o count x) g q) k, fields.2)
