-- ===== src/Http/Reader.antt =====
-- The reader of blob/httpblob/httpblob.go: Read, canResume and resume. An offset is not negative, and
-- io.EOF is an inner `none`. The loop of Read runs on fuel.
pub mod Ends
pub mod Ranges
pub mod Asked
pub mod Kept
pub mod Reading
use gocloud_ext.Common.{
  ℕ, ℤ, zero, suc, pos, negsuc, ◌+◌, ◌-◌, Bytes, Bool, true, false, not, ◌&&◌, ◌==◌, ltb, leb,
  eqb_ℤ, if◌then◌else◌, [], ◌∷◌, length, Option, none, some, Result, ok, err, codes, eqb,
}
use gocloud_ext.Http.{Body, Fault, Request, Response, plain_fault, set_header}
use gocloud_ext.Http.Client.{Client}
use gocloud_ext.Http.Retry.{do_request}
use gocloud_ext.Http.Bodies.{limit_positive, range_header, read_body}

abbrev pub max_resumes : ℕ
max_resumes = 3

-- `is_live` where the fields b and ctx are not nil.
pub record Reader : Type 0 where
  pub is_live : Bool
  pub base : Request
  pub validator : Bytes
  pub offset : ℕ
  pub remaining : ℤ
  pub resumes : ℕ
  pub body : Body
  -- its Attributes
  pub content_type : Bytes
  pub mod_time : Option ℤ
  pub size : ℤ

-- The difference of two lengths.
abbrev pub minus : ℕ → ℕ → ℤ
minus n m = if leb m n then pos (n - m) else negsuc (m - n - 1)

-- `if r.remaining > 0 { r.remaining -= int64(n) }`
unfoldable pub less : ℤ → ℕ → ℤ
less (pos zero) m = pos zero
less (pos (suc n)) m = minus (suc n) m
less (negsuc n) m = negsuc n

-- What Read does with the bytes of one Read of the body.
unfoldable pub advance : Reader → Bytes → Body → Reader
unfolding less
advance r [] b = record r { body = b }
advance r (y ∷ d) b = record r {
  body = b;
  offset = r.offset + length (y ∷ d);
  remaining = less r.remaining (length (y ∷ d));
  resumes = 0;
}

-- The request of resume.
unfoldable pub resume_request : Request → Bytes → ℕ → ℤ → Request
resume_request base validator offset remaining = record base {
  header =
      set_header (codes "If-Range") validator
        (set_header (codes "Range") (range_header offset remaining) base.header);
}

module _ (c : Client) where
  open c use {State, ctx_err}

  unfoldable pub can_resume : Reader → State → Bool
  can_resume r s =
      r.is_live
      && (elim (ctx_err s) [ none ↦ true | some e ↦ false ])
      && not (eqb_ℤ r.remaining (pos 0))
      && ltb r.resumes max_resumes
      && not (eqb r.validator [])

  unfoldable pub resume : ℕ → Reader → State → Option Fault × Reader × State
  unfolding resume_request
  resume max_retries r s =
      let r1 = record r { resumes = r.resumes + 1 } in
      let (answer, s') =
        do_request c max_retries (ok (resume_request r.base r.validator r.offset r.remaining)) s in
      elim answer [
        | err e ↦ (some e, r1, s')
        | ok resp ↦
            if resp.status_code == 206
            then (none, record r1 { body = limit_positive r.remaining resp.body }, s')
            else (some plain_fault, r1, s')
      ]

  -- What one round of Read's loop comes to: what Read returns, or another round.
  pub data Turn : Type 0 where
    returned : Bytes → Option (Option Fault) → Reader → State → Turn
    again : Reader → State → Turn

  -- After an error of the body, with the reader that resume leaves.
  unfoldable pub after_resume : Bytes → Fault → Option Fault × Reader × State → Turn
  after_resume d x (some y, r, s) = returned d (some (some x)) r s
  after_resume [] x (none, r, s) = again r s
  after_resume (y ∷ d) x (none, r, s) = returned (y ∷ d) none r s

  unfoldable pub after_read : ℕ → Bytes → Option (Option Fault) → Reader → State → Turn
  unfolding can_resume resume after_resume
  after_read m d none r s = returned d none r s
  after_read m d (some none) r s = returned d (some none) r s
  after_read m d (some (some x)) r s =
      if can_resume r s then after_resume d x (resume m r s) else returned d (some (some x)) r s

  -- One round, with a buffer of `k` bytes.
  unfoldable pub read_round : ℕ → ℕ → Reader → State → Turn
  unfolding advance after_read
  read_round m k r s = let (d, e, b) = read_body k r.body in after_read m d e (advance r d b) s

  unfoldable pub read_rounds :
      ℕ → ℕ → ℕ → Reader → State → Option (Bytes × Option (Option Fault) × Reader × State)
  unfolding read_round
  read_rounds m zero k r s = none
  read_rounds m (suc fuel) k r s = elim (read_round m k r s) [
    | returned d e r' s' ↦ some (d, e, r', s')
    | again r' s' ↦ read_rounds m fuel k r' s'
  ]

  -- Read with a buffer of `k` bytes.
  unfoldable pub read_reader :
      ℕ → ℕ → Reader → State → Option (Bytes × Option (Option Fault) × Reader × State)
  unfolding read_rounds
  read_reader max_retries k r s = read_rounds max_retries (max_resumes + 1) k r s
