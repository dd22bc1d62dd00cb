-- ===== src/Http/Reader/Asked.antt =====
-- The request by which the reader of blob/httpblob/httpblob.go resumes, said of its headers.
use gocloud_ext.Common.{
  ℕ, ℤ, zero, suc, pos, negsuc, ◌+◌, ◌%◌, ◌^◌, Bytes, true, false, ltb, [], ◌++◌, codes, eqb, eqb_ℤ,
  ◌≡◌, ◌⊎◌, refl, arith, inl, inr,
}
use gocloud_ext.Decimal.{format_padded}
use gocloud_ext.Http.{Request, get_header, low_int64}
use gocloud_ext.Http.Bodies.{range_header}
use gocloud_ext.Http.Reader.{resume_request}

-- The value of Range that asks for the bytes from an offset on: so many of them, up to a last position
-- that is an int64, where the count is positive; where it is negative all of them, which also no
-- value says from the start on. Nothing asks for no bytes.
abbrev pub Asks : Bytes → ℕ → ℤ → Type 0
Asks v o (pos zero) = ⊥
Asks v o (negsuc n) =
    (v ≡ codes "bytes=" ++ (format_padded 0 (pos o) ++ codes "-")) ⊎ ((v ≡ []) × (o ≡ 0))
Asks v o (pos (suc n)) =
    v
    ≡ codes "bytes="
      ++ (format_padded 0 (pos o) ++ (codes "-" ++ format_padded 0 (low_int64 ((o + n) % 2 ^ 64))))

range_header-Asks : (o : ℕ) (n : ℤ) → eqb_ℤ n (pos 0) ≡ false → Asks (range_header o n) o n
unfolding range_header
range_header-Asks o (pos zero) h = absurd (ground arith)
range_header-Asks o (pos (suc n)) h = refl
range_header-Asks zero (negsuc n) h = inr (refl, refl)
range_header-Asks (suc o) (negsuc n) h =
    let k : ltb 0 (suc o) ≡ true = ground arith in inl (rw (range_header, k) refl)

-- The request of a resumption: the base request, with the validator and the range.
pub record IsResumption (base : Request) (validator : Bytes) (o : ℕ) (n : ℤ) (req : Request)
    : Type 0 where
  pub method : req.method ≡ base.method
  pub url : req.url ≡ base.url
  pub if_range : get_header req.header (codes "If-Range") ≡ validator
  pub range : Asks (get_header req.header (codes "Range")) o n

pub resume_request-IsResumption :
    (base : Request) (validator : Bytes) (o : ℕ) (n : ℤ)
    → eqb_ℤ n (pos 0) ≡ false
    → IsResumption base validator o n (resume_request base validator o n)
unfolding resume_request eqb
resume_request-IsResumption base validator o n h = record {
  method = refl;
  url = refl;
  if_range = refl;
  range = range_header-Asks o n h;
}
