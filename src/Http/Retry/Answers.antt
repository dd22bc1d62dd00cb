-- ===== src/Http/Retry/Answers.antt =====
-- The answers of the loop of `do` in blob/httpblob/httpblob.go.
use gocloud_ext.Common.{
  ℕ, zero, suc, ◌≤◌, ◌<◌, ℤ, true, false, ◌⊎◌, ◌≢◌, Option, none, some, Result, ok, err, ◌≡◌, arith,
  Option-cases, Bool-cases, inl, inr, refl, ap,
}
use gocloud_ext.Http.{Fault, Request, Response, is_retryable_method}
use gocloud_ext.Http.Client.{Client}
use gocloud_ext.Http.Retry.{
  Outcome, answered, stopped, refused, finished, failed, judge, round, is_retryable, outcome,
  attempts, wait, do_request,
}
use gocloud_ext.Http.Retry.Bounded.{Round-cases}

module _ (c : Client) where
  open c use {State, ctx_err, send}

  -- The response is what the client answered to the request, in the state before the last one.
  abbrev pub IsAnswer : Result Fault Request → Response → State → Type 0
  IsAnswer prepare resp t =
      (req : Request) × (s : State) × (prepare ≡ ok req)
      × ((send req s).0 ≡ ok resp)
      × (t ≡ (send req s).1)
      × (resp.status_code < 300)

  Outcome-cases :
      (o : Outcome c)
      → ((r : Response) × (o ≡ answered r))
        ⊎ (((e : Fault) × (o ≡ stopped e)) ⊎ ((e : Fault) × (d : ℤ) × (o ≡ refused e d)))
  Outcome-cases (answered r) = inl (r, refl)
  Outcome-cases (stopped e) = inr (inl (e, refl))
  Outcome-cases (refused e d) = inr (inr (e, d, refl))

  outcome-answered :
      (req : Request) (answer : Result Fault Response) (s : State) (resp : Response)
      → outcome c req answer s ≡ answered resp
      → (answer ≡ ok resp) × (resp.status_code < 300)
  unfolding outcome
  outcome-answered req (err e) s resp h = ground (arith, Option-cases (ctx_err s))
  outcome-answered req (ok r) s resp h = ground arith

  judge-answered :
      (req : Request) (o : Outcome c) (resp : Response)
      → judge c req o ≡ finished (ok resp)
      → o ≡ answered resp
  unfolding judge
  judge-answered req (answered r) resp h = ground arith
  judge-answered req (stopped e) resp h = ground arith
  judge-answered req (refused e d) resp h = ground (arith, Bool-cases (is_retryable c req e))

  round-answered :
      (prepare : Result Fault Request) (last : Option Fault) (s : State) (resp : Response)
      → (round c prepare last s).0 ≡ finished (ok resp)
      → IsAnswer prepare resp (round c prepare last s).1
  unfolding round
  round-answered (err e) last s resp h =
      absurd (ground (arith, Option-cases (ctx_err s), Option-cases last))
  round-answered (ok req) last s resp h = elim (Option-cases (ctx_err s)) [
    | inr (e, k) ↦ absurd (ground (arith, Option-cases last))
    | inl k ↦
        let j : judge c req (outcome c req (send req s).0 (send req s).1) ≡ finished (ok resp) =
          ground arith in
        let (o, small) =
          outcome-answered req (send req s).0 (send req s).1 resp (judge-answered req _ resp j) in
        rw (round, k) (req, s, refl, o, refl, small)
  ]

  attempts-answered :
      (prepare : Result Fault Request) (n : ℕ) (last : Option Fault) (s : State) (resp : Response)
      → (attempts c prepare n last s).0 ≡ ok resp
      → IsAnswer prepare resp (attempts c prepare n last s).1
  unfolding attempts
  attempts-answered prepare zero last s resp h = elim (Round-cases c (round c prepare last s).0) [
    | inl (a, k) ↦
        let r : (round c prepare last s).0 ≡ finished (ok resp) = ground arith in
        rw (attempts, k) (round-answered prepare last s resp r)
    | inr (e, d, k) ↦ absurd (ground arith)
  ]
  attempts-answered prepare (suc n) last s resp h =
      let s1 = (round c prepare last s).1 in
      elim (Round-cases c (round c prepare last s).0) [
        | inl (a, k) ↦
            let r : (round c prepare last s).0 ≡ finished (ok resp) = ground arith in
            rw (attempts, k) (round-answered prepare last s resp r)
        | inr (e, d, k) ↦ elim (Option-cases (wait c d s1).0) [
          | inr (f, w) ↦ absurd (ground arith)
          | inl w ↦
              let r : (attempts c prepare n (some e) (wait c d s1).1).0 ≡ ok resp = ground arith in
              rw (attempts, k, w) (attempts-answered prepare n (some e) (wait c d s1).1 resp r)
        ]
      ]

  -- A response that `do` returns is what the client answered to the prepared request, and its status is
  -- below 300.
  pub do_request-answered :
      (max_retries : ℕ) (prepare : Result Fault Request) (s : State) (resp : Response)
      → (do_request c max_retries prepare s).0 ≡ ok resp
      → IsAnswer prepare resp (do_request c max_retries prepare s).1
  unfolding do_request
  do_request-answered max_retries prepare s resp h =
      attempts-answered prepare max_retries none s resp h

  -- What a round answers of a request is what the client answers to it in that state.
  round-sent :
      (req : Request) (last : Option Fault) (s : State) (resp : Response)
      → (round c (ok req) last s).0 ≡ finished (ok resp)
      → ((send req s).0 ≡ ok resp) × (resp.status_code < 300)
  unfolding round
  round-sent req last s resp h = elim (Option-cases (ctx_err s)) [
    | inr (e, k) ↦ absurd (ground (arith, Option-cases last))
    | inl k ↦
        outcome-answered req (send req s).0 (send req s).1 resp
          (judge-answered req _ resp (ground arith))
  ]

  round-ne-failed :
      (req : Request) (last : Option Fault) (s : State) (e : Fault) (d : ℤ)
      → is_retryable_method req.method ≡ false
      → (round c (ok req) last s).0 ≢ failed e d
  unfolding round judge is_retryable
  round-ne-failed req last s e d m h = elim (Option-cases (ctx_err s)) [
    | inr (f, k) ↦ ground (arith, Option-cases last)
    | inl k ↦ elim (Outcome-cases (outcome c req (send req s).0 (send req s).1)) [
      | inl (r, o) ↦ ground arith
      | inr (inl (f, o)) ↦ ground arith
      | inr (inr (f, x, o)) ↦ ground arith
    ]
  ]

  -- A request whose method is not retried is sent once, in the state in which `do` is called.
  pub do_request_once :
      (max_retries : ℕ) (req : Request) (s : State) (resp : Response)
      → is_retryable_method req.method ≡ false
      → (do_request c max_retries (ok req) s).0 ≡ ok resp
      → ((send req s).0 ≡ ok resp) × (resp.status_code < 300)
  unfolding do_request attempts
  do_request_once zero req s resp m h = elim (Round-cases c (round c (ok req) none s).0) [
    | inl (a, k) ↦ round-sent req none s resp (ground arith)
    | inr (e, d, k) ↦ absurd (round-ne-failed req none s e d m k)
  ]
  do_request_once (suc n) req s resp m h = elim (Round-cases c (round c (ok req) none s).0) [
    | inl (a, k) ↦ round-sent req none s resp (ground arith)
    | inr (e, d, k) ↦ absurd (round-ne-failed req none s e d m k)
  ]

  module _ (req : Request) where
    -- From the first state to the second one there are so many rounds whose error may be retried.
    pub data Transient : ℕ → State → State → Type 0 where
      no_round : {s : State} → Transient 0 s s
      one_round :
          {k : ℕ} {s t : State} (e : Fault) (d : ℤ)
          → ctx_err s ≡ none
          → outcome c req (send req s).0 (send req s).1 ≡ refused e d
          → is_retryable c req e ≡ true
          → (wait c d (send req s).1).0 ≡ none
          → Transient k (wait c d (send req s).1).1 t
          → Transient (suc k) s t

    round-failed :
        (last : Option Fault) (s : State) (e : Fault) (d : ℤ)
        → ctx_err s ≡ none
        → outcome c req (send req s).0 (send req s).1 ≡ refused e d
        → is_retryable c req e ≡ true
        → round c (ok req) last s ≡ (failed e d, (send req s).1)
    unfolding round judge
    round-failed last s e d h k r =
        rw (round, h) (ap (λ x. (x, (send req s).1)) (rw (k, judge, r) refl))

    round-finished :
        (last : Option Fault) (s : State) (resp : Response)
        → ctx_err s ≡ none
        → (send req s).0 ≡ ok resp
        → resp.status_code < 300
        → round c (ok req) last s ≡ (finished (ok resp), (send req s).1)
    unfolding round judge outcome
    round-finished last s resp h k small =
        rw (round, h) (ap (λ x. (x, (send req s).1)) (rw k (ground arith)))

    attempts-Transient :
        {k : ℕ} {s t : State} (n : ℕ) (last : Option Fault) (resp : Response)
        → Transient k s t
        → k ≤ n
        → ctx_err t ≡ none
        → (send req t).0 ≡ ok resp
        → resp.status_code < 300
        → attempts c (ok req) n last s ≡ (ok resp, (send req t).1)
    unfolding attempts
    attempts-Transient zero last resp no_round b h a small =
        let p = round-finished last _ resp h a small in
        rw (attempts, ap (λ x. x.0) p, ap (λ x. x.1) p) refl
    attempts-Transient (suc n) last resp no_round b h a small =
        let p = round-finished last _ resp h a small in
        rw (attempts, ap (λ x. x.0) p, ap (λ x. x.1) p) refl
    attempts-Transient zero last resp (one_round e d x o r w rest) b h a small =
        absurd (omega (arith, b))
    attempts-Transient (suc n) last resp (one_round {k = k} {s = s} e d x o r w rest) b h a small =
        let p = round-failed last s e d x o r in
        let q = ap (λ x. x.1) p in
        rw (attempts, ap (λ x. x.0) p, q, w)
          (rw q (attempts-Transient {k = k} n (some e) resp rest (omega (arith, b)) h a small))

    -- Where at most MaxRetries transient failures come before an answer below 300, `do` returns that
    -- answer.
    pub do_request-Transient :
        {k : ℕ} {s t : State} (max_retries : ℕ) (resp : Response)
        → Transient k s t
        → k ≤ max_retries
        → ctx_err t ≡ none
        → (send req t).0 ≡ ok resp
        → resp.status_code < 300
        → do_request c max_retries (ok req) s ≡ (ok resp, (send req t).1)
    unfolding do_request
    do_request-Transient max_retries resp rounds b h a small =
        attempts-Transient max_retries none resp rounds b h a small
