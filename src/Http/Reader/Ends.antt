-- ===== src/Http/Reader/Ends.antt =====
-- The loop of Read in blob/httpblob/httpblob.go ends.
use gocloud_ext.Common.{
  ℕ, zero, suc, ◌+◌, ◌≤◌, ◌<◌, Bytes, true, Option, none, some, ok, ◌≡◌, refl, arith, Option-cases,
  Result-cases, Bool-cases, [], ◌∷◌, ap, ◌∙◌, ◌⊎◌, inl, inr,
}
use gocloud_ext.Http.{Body, Fault}
use gocloud_ext.Http.Client.{Client}
use gocloud_ext.Http.Bodies.{read_body}
use gocloud_ext.Http.Retry.{do_request}
use gocloud_ext.Http.Reader.{
  Reader, max_resumes, advance, can_resume, resume, resume_request, Turn, returned, again,
  after_resume, after_read, read_round, read_rounds, read_reader,
}

module _ (c : Client) where
  open c use {State}

  resume-resumes : (m : ℕ) (r : Reader) (s : State) → (resume c m r s).1.resumes ≡ r.resumes + 1
  unfolding resume
  resume-resumes m r s = ground (
    arith,
    Result-cases (do_request c m (ok (resume_request r.base r.validator r.offset r.remaining)) s).0,
  )

  can_resume-resumes : (r : Reader) (s : State) → can_resume c r s ≡ true → r.resumes < max_resumes
  unfolding can_resume
  can_resume-resumes r s h = ground (arith, Option-cases (c.ctx_err s))

  after_resume-again :
      (d : Bytes) (x : Fault) (a : Option Fault × Reader × State) (r : Reader) (s : State)
      → after_resume c d x a ≡ again r s
      → (d ≡ []) × (r ≡ a.1)
  unfolding after_resume
  after_resume-again d x (some y, r', s') r s h = absurd (ground arith)
  after_resume-again [] x (none, r', s') r s h = ground arith
  after_resume-again (y ∷ d) x (none, r', s') r s h = absurd (ground arith)

  -- Another round comes only after a resumption, of which there are fewer than three.
  after_read-again :
      (m : ℕ) (d : Bytes) (e : Option (Option Fault)) (r1 : Reader) (s : State) (r : Reader)
      (s' : State)
      → after_read c m d e r1 s ≡ again r s'
      → (d ≡ []) × (r.resumes ≡ r1.resumes + 1) × (r1.resumes < max_resumes)
  unfolding after_read
  after_read-again m d none r1 s r s' h = absurd (ground arith)
  after_read-again m d (some none) r1 s r s' h = absurd (ground arith)
  after_read-again m d (some (some x)) r1 s r s' h = elim (Bool-cases (can_resume c r1 s)) [
    | inr q ↦ absurd (ground arith)
    | inl q ↦
        let k : after_resume c d x (resume c m r1 s) ≡ again r s' = ground arith in
        let (z, p) = after_resume-again d x (resume c m r1 s) r s' k in
        (z, ap (λ t. t.resumes) p ∙ resume-resumes m r1 s, can_resume-resumes r1 s q)
  ]

  advance-resumes :
      (r : Reader) (d : Bytes) (b : Body) → d ≡ [] → (advance r d b).resumes ≡ r.resumes
  unfolding advance
  advance-resumes r [] b h = refl
  advance-resumes r (y ∷ d) b h = absurd (ground arith)

  read_round-again :
      (m k : ℕ) (r : Reader) (s : State) (r' : Reader) (s' : State)
      → read_round c m k r s ≡ again r' s'
      → (r'.resumes ≡ r.resumes + 1) × (r.resumes < max_resumes)
  unfolding read_round
  read_round-again m k r s r' s' h =
      let (z, p, q) =
        after_read-again m _ (read_body k r.body).1
          (advance r (read_body k r.body).0 (read_body k r.body).2) s r' s' h in
      let a = advance-resumes r (read_body k r.body).0 (read_body k r.body).2 z in
      (omega (arith, p, a), omega (arith, q, a))

  Turn-cases :
      (t : Turn c)
      → ((d : Bytes) × (e : Option (Option Fault)) × (r : Reader) × (s : State) × (t
            ≡ returned d e r s))
        ⊎ ((r : Reader) × (s : State) × (t ≡ again r s))
  Turn-cases (returned d e r s) = inl (d, e, r, s, refl)
  Turn-cases (again r s) = inr (r, s, refl)

  read_rounds_ends :
      (m fuel k : ℕ) (r : Reader) (s : State)
      → 1 ≤ fuel
      → 4 ≤ fuel + r.resumes
      → (a : Bytes × Option (Option Fault) × Reader × State) × (read_rounds c m fuel k r s ≡ some a)
  unfolding read_rounds
  read_rounds_ends m zero k r s p b = absurd (omega (arith, p))
  read_rounds_ends m (suc fuel) k r s p b = elim (Turn-cases (read_round c m k r s)) [
    | inl (d, e, r', s', h) ↦ ((d, e, r', s'), rw (read_rounds, h) refl)
    | inr (r', s', h) ↦
        let (q, small) = read_round-again m k r s r' s' h in
        let (a, g) =
          read_rounds_ends m fuel k r' s' (omega (arith, b, small)) (omega (arith, q, b)) in
        (a, rw (read_rounds, h) g)
  ]

  -- A Read returns: four rounds of its loop are enough.
  pub read_reader_ends :
      (max_retries k : ℕ) (r : Reader) (s : State)
      → (a : Bytes × Option (Option Fault) × Reader × State) × (read_reader c max_retries k r s
          ≡ some a)
  unfolding read_reader
  read_reader_ends max_retries k r s =
      read_rounds_ends max_retries (max_resumes + 1) k r s (omega arith) (omega arith)
