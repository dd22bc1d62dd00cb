-- ===== src/Http/Reader/Kept.antt =====
-- A reader of blob/httpblob/httpblob.go that reads an object, and its resumptions.
use mathlib.Core.Path.{subst}
use gocloud_ext.Common.{
  ◌≢◌, false, eqb, eqb_iff, eqb_ℤ, ℕ, ℤ, pos, ◌+◌, Bytes, ◌==◌, [], ◌∷◌, ◌++◌, drop, length,
  append_assoc, Result, ok, err, ◌≡◌, ◌⊎◌, refl, sym, ap, ◌∙◌, arith, Result-cases, Bool-cases, inl,
  inr,
}
use gocloud_ext.Http.{Body, Fault, Request, Response}
use gocloud_ext.Http.Client.{Client}
use gocloud_ext.Http.Retry.{do_request}
use gocloud_ext.Http.Retry.Answers.{do_request-answered}
use gocloud_ext.Http.Bodies.{limit_positive}
use gocloud_ext.Http.Bodies.Carried.{Carries}
use gocloud_ext.Http.Bodies.Sliced.{range_of, limit_positive-range}
use gocloud_ext.Http.Reader.Asked.{IsResumption, resume_request-IsResumption}
use gocloud_ext.Http.Reader.Ranges.{suffix_from, range_of-within, range_of-less}
use gocloud_ext.Http.Reader.{Reader, less, advance, resume, resume_request}

ok_injective : (p q : Request) → ◌≡◌ {A = Result Fault Request} (ok p) (ok q) → p ≡ q
ok_injective p q h = ap (λ t. elim t [ ok a ↦ a | err e ↦ p ]) h

module _ (base : Request) (validator : Bytes) (x : Bytes) where
  -- The body carries bytes of `x` from the reader's offset on: all those of the range that remains,
  -- unless nothing is known to remain, when the reader does not resume.
  pub record IsReading (r : Reader) : Type 0 where
    pub same_base : r.base ≡ base
    pub same_validator : r.validator ≡ validator
    pub carried : Bytes
    pub after : Bytes
    pub carries : Carries r.body carried
    pub within : drop r.offset x ≡ carried ++ after
    pub exact : (r.remaining ≡ pos 0) ⊎ (carried ≡ range_of r.offset r.remaining x)

  pub advance-IsReading :
      (r : Reader) (d : Bytes) (b : Body) (h : IsReading r) (y : Bytes)
      → h.carried ≡ d ++ y
      → Carries b y
      → IsReading (advance r d b)
  unfolding advance
  advance-IsReading r [] b h y p k = record {
    same_base = h.same_base;
    same_validator = h.same_validator;
    carried = y;
    after = h.after;
    carries = k;
    within = h.within ∙ ap (λ t. t ++ h.after) p;
    exact = ground (arith, h.exact, p);
  }
  advance-IsReading r (z ∷ d) b h y p k = record {
    same_base = h.same_base;
    same_validator = h.same_validator;
    carried = y;
    after = h.after;
    carries = k;
    within =
        suffix_from x (z ∷ d) (y ++ h.after) r.offset
          (h.within ∙ ap (λ t. t ++ h.after) p ∙ append_assoc (z ∷ d) y h.after);
    exact = elim h.exact [
      | inl e ↦ inl (ap (λ n. less n (length (z ∷ d))) e)
      | inr e ↦ range_of-less x r.offset r.remaining (z ∷ d) y (sym p ∙ e)
    ];
  }

  pub advance-offset :
      (r : Reader) (d : Bytes) (b : Body) → (advance r d b).offset ≡ r.offset + length d
  unfolding advance
  advance-offset r [] b = omega arith
  advance-offset r (z ∷ d) b = refl

  pub advance-remaining :
      (r : Reader) (d : Bytes) (b : Body) → d ≡ [] → (advance r d b).remaining ≡ r.remaining
  unfolding advance
  advance-remaining r [] b h = refl
  advance-remaining r (z ∷ d) b h = absurd (ground arith)

  -- The second reader reads what the first one does.
  pub record IsKept (r r' : Reader) : Type 0 where
    pub reading : IsReading r'
    pub same_offset : r'.offset ≡ r.offset
    pub same_remaining : r'.remaining ≡ r.remaining

  module _ (c : Client) where
    open c use {State, ctx_err, send}

    -- A server answers 206 to a request at the object's URL whose If-Range is the validator, which is not
    -- empty, only with the bytes of the object that its Range asks for.
    pub record Serves : Type 0 where
      pub partial :
          (req : Request) (o : ℕ) (n : ℤ) (s : State) (resp : Response)
          → validator ≢ []
          → IsResumption base validator o n req
          → (send req s).0 ≡ ok resp
          → resp.status_code ≡ 206
          → Carries resp.body (range_of o n x)

    resumed-Carries :
        (serves : Serves) (m : ℕ) (r : Reader) (s : State) (resp : Response)
        → r.base ≡ base
        → r.validator ≡ validator
        → eqb r.validator [] ≡ false
        → eqb_ℤ r.remaining (pos 0) ≡ false
        → (do_request c m (ok (resume_request r.base r.validator r.offset r.remaining)) s).0
          ≡ ok resp
        → resp.status_code ≡ 206
        → Carries resp.body (range_of r.offset r.remaining x)
    resumed-Carries serves m r s resp b v named left h p =
        let (req, s', q, a, t, l) = do_request-answered c m _ s resp h in
        let e : req ≡ resume_request base validator r.offset r.remaining =
          sym (ok_injective _ req q)
          ∙ ap (λ z. resume_request z r.validator r.offset r.remaining) b
          ∙ ap (λ z. resume_request base z r.offset r.remaining) v in
        serves.partial req r.offset r.remaining s' resp
          (λ z. ground (arith, eqb_iff r.validator [], v ∙ z))
          (subst (IsResumption base validator r.offset r.remaining) (sym e)
            (resume_request-IsResumption base validator r.offset r.remaining left))
          a p

    kept : (r : Reader) (k : ℕ) → IsReading r → IsKept r (record r { resumes = k })
    kept r k h = record {
      reading = record {
        same_base = h.same_base;
        same_validator = h.same_validator;
        carried = h.carried;
        after = h.after;
        carries = h.carries;
        within = h.within;
        exact = h.exact;
      };
      same_offset = refl;
      same_remaining = refl;
    }

    -- A body that carries the range that remains takes the place of the reader's.
    replaced :
        (r : Reader) (k : ℕ) (b : Body)
        → IsReading r
        → Carries b (range_of r.offset r.remaining x)
        → IsKept r (record r { resumes = k; body = limit_positive r.remaining b })
    replaced r k b h g = record {
      reading = record {
        same_base = h.same_base;
        same_validator = h.same_validator;
        carried = range_of r.offset r.remaining x;
        after = (range_of-within r.offset r.remaining x).0;
        carries = limit_positive-range r.offset r.remaining b x g;
        within = (range_of-within r.offset r.remaining x).1;
        exact = inr refl;
      };
      same_offset = refl;
      same_remaining = refl;
    }

    pub resume-IsKept :
        (serves : Serves) (m : ℕ) (r : Reader) (s : State)
        → IsReading r
        → eqb r.validator [] ≡ false
        → eqb_ℤ r.remaining (pos 0) ≡ false
        → IsKept r (resume c m r s).1
    unfolding resume
    resume-IsKept serves m r s h named left =
        elim (Result-cases
          (do_request c m (ok (resume_request r.base r.validator r.offset r.remaining)) s).0) [
            | inr (e, k) ↦ rw (resume, k) (kept r (r.resumes + 1) h)
            | inl (resp, k) ↦ elim (Bool-cases (resp.status_code == 206)) [
              | inr p ↦ rw (resume, k, p) (kept r (r.resumes + 1) h)
              | inl p ↦
                  rw (resume, k, p)
                    (replaced r (r.resumes + 1) resp.body h (
                      resumed-Carries serves m r s resp h.same_base h.same_validator named left k
                        (ground arith)))
            ]
          ]
