-- ===== src/Http/Retry/Bounded.antt =====
-- How often the loop of `do` in blob/httpblob/httpblob.go sends its request.
use gocloud_ext.Common.{
  ℕ, zero, suc, ◌+◌, ◌≤◌, ℤ, false, Option, none, some, Result, ok, err, ◌≡◌, arith, Option-cases,
  Bool-cases, if◌then◌else◌, inl, inr, ◌⊎◌, refl, ◌∙◌,
}
use gocloud_ext.Http.{Fault, Request, Response, is_retryable_method}
use gocloud_ext.Http.Client.{Client}
use gocloud_ext.Http.Client.Laws.{Counts}
use gocloud_ext.Http.Retry.{
  Outcome, answered, stopped, refused, Round, finished, failed, judge, round, is_retryable,
  attempts, wait, do_request,
}

pub Round-cases :
    (c : Client) (r : Round c)
    → ((a : Result Fault Response) × (r ≡ finished a)) ⊎ ((e : Fault) × (d : ℤ) × (r ≡ failed e d))
Round-cases c (finished a) = inl (a, refl)
Round-cases c (failed e d) = inr (e, d, refl)

module _ (c : Client) (counts : Counts c) where
  open c use {State, ctx_err, send, pause, sleep}
  open counts use {sent}

  round-sent :
      (prepare : Result Fault Request) (last : Option Fault) (s : State)
      → sent (round c prepare last s).1 ≤ suc (sent s)
  unfolding round
  round-sent (err e) last s = ground (arith, Option-cases (ctx_err s), Option-cases last)
  round-sent (ok req) last s =
      ground (arith, Option-cases (ctx_err s), Option-cases last, counts.send-sent req s)

  wait-sent : (d : ℤ) (s : State) → sent (wait c d s).1 ≡ sent s
  unfolding wait
  wait-sent d s = counts.sleep-sent _ (pause s).1 ∙ counts.pause-sent s

  attempts-sent :
      (prepare : Result Fault Request) (n : ℕ) (last : Option Fault) (s : State)
      → sent (attempts c prepare n last s).1 ≤ sent s + n + 1
  unfolding attempts
  attempts-sent prepare zero last s =
      ground (arith, round-sent prepare last s, Round-cases c (round c prepare last s).0)
  attempts-sent prepare (suc n) last s =
      let s1 = (round c prepare last s).1 in
      let b : sent s1 ≤ suc (sent s) = round-sent prepare last s in
      elim (Round-cases c (round c prepare last s).0) [
        | inl (a, h) ↦ rw (attempts, h) (omega (arith, b))
        | inr (e, d, h) ↦ elim (Option-cases (wait c d s1).0) [
          | inr (k, w) ↦ rw (attempts, h, w) (omega (arith, b, wait-sent d s1))
          | inl w ↦
              rw (attempts, h, w)
                (omega (arith, b, wait-sent d s1, attempts-sent prepare n (some e) (wait c d s1).1))
        ]
      ]

  -- A request that may not be repeated is not judged to be worth a retry.
  judge-finished :
      (req : Request) (o : Outcome c)
      → is_retryable_method req.method ≡ false
      → (a : Result Fault Response) × (judge c req o ≡ finished a)
  unfolding judge is_retryable
  judge-finished req (answered resp) h = (ok resp, refl)
  judge-finished req (stopped e) h = (err e, refl)
  judge-finished req (refused e d) h = (err e, rw (is_retryable, h) refl)

  round-finished :
      (req : Request) (last : Option Fault) (s : State)
      → is_retryable_method req.method ≡ false
      → (a : Result Fault Response) × ((round c (ok req) last s).0 ≡ finished a)
  unfolding round
  round-finished req last s h = elim (Option-cases (ctx_err s)) [
    | inl k ↦ rw (round, k) (judge-finished req _ h)
    | inr (e, k) ↦ elim (Option-cases last) [
      | inl n ↦ (err e, rw (round, k, n) refl)
      | inr (l, n) ↦ (err l, rw (round, k, n) refl)
    ]
  ]

  attempts-sent_once :
      (req : Request) (n : ℕ) (last : Option Fault) (s : State)
      → is_retryable_method req.method ≡ false
      → sent (attempts c (ok req) n last s).1 ≤ suc (sent s)
  unfolding attempts
  attempts-sent_once req zero last s h =
      let (a, k) = round-finished req last s h in rw (attempts, k) (round-sent (ok req) last s)
  attempts-sent_once req (suc n) last s h =
      let (a, k) = round-finished req last s h in rw (attempts, k) (round-sent (ok req) last s)

  -- `do` sends its request at most MaxRetries + 1 times, and at most once where the method may not be
  -- repeated.
  pub do_request-sent :
      (max_retries : ℕ) (req : Request) (s : State)
      → sent (do_request c max_retries (ok req) s).1
        ≤ sent s + (if is_retryable_method req.method then max_retries else 0) + 1
  unfolding do_request
  do_request-sent max_retries req s = elim (Bool-cases (is_retryable_method req.method)) [
    | inl h ↦ ground (arith, attempts-sent (ok req) max_retries none s)
    | inr h ↦ ground (arith, attempts-sent_once req max_retries none s h)
  ]
