-- ===== src/Http/Retry.antt =====
-- retryAfter and `do` of blob/httpblob/httpblob.go.
pub mod Bounded
pub mod Answers
use gocloud_ext.Common.{
  ℕ, ℤ, zero, suc, pos, negsuc, ◌+◌, ◌-◌, ◌*◌, ◌%◌, ◌^◌, Bytes, Bool, true, false, ◌&&◌, ◌||◌, ltb,
  leb, ltb_ℤ, leb_ℤ, ◌==◌, if◌then◌else◌, Option, none, some, Result, ok, err, codes, eqb, [],
}
use gocloud_ext.Decimal.{parse_int}
use gocloud_ext.Http.{
  Fault, Headers, Request, Response, get_header, fault_of, low_int64, new_error, status_of,
  is_retryable_method, is_retryable_status,
}
use gocloud_ext.Http.Client.{Client}

-- time.Duration(secs) * time.Second
unfoldable pub seconds : ℕ → ℤ
seconds n = low_int64 (n * 1000000000 % 2 ^ 64)

module _ (c : Client) where
  open c use {State, ctx_err, send, pause, sleep, until}

  -- The HTTP-date form.
  date_pause : Bytes → State → ℤ
  date_pause v s = elim (until v s) [ none ↦ pos 0 | some d ↦ if ltb_ℤ (pos 0) d then d else pos 0 ]

  unfoldable pub retry_after : Headers → State → ℤ
  unfolding date_pause
  retry_after h s =
      let v = get_header h (codes "Retry-After") in
      if eqb v [] then pos 0 else elim (parse_int v) [
        | some (pos n) ↦ seconds n
        | some (negsuc n) ↦ pos 0
        | none ↦ date_pause v s
      ]

  -- What one request came to: the response, an error to return at once, or an error that may be
  -- retried, with the pause that the server asked for.
  pub data Outcome : Type 0 where
    answered : Response → Outcome
    stopped : Fault → Outcome
    refused : Fault → ℤ → Outcome

  unfoldable pub outcome : Request → Result Fault Response → State → Outcome
  unfolding retry_after
  outcome req (err e) s = elim (ctx_err s) [ some d ↦ stopped e | none ↦ refused e (pos 0) ]
  outcome req (ok resp) s =
      if leb 400 resp.status_code
      then refused (fault_of (new_error req resp)) (retry_after resp.header s)
      else if leb 300 resp.status_code
      then refused (fault_of (new_error req resp)) (pos 0)
      else answered resp

  unfoldable pub is_retryable : Request → Fault → Bool
  is_retryable req e =
      is_retryable_method req.method && (status_of e == 0 || is_retryable_status (status_of e))

  -- The pause before the next attempt.
  unfoldable pub wait : ℤ → State → Option Fault × State
  wait asked s = let (next, s') = pause s in sleep (if leb_ℤ asked (pos 0) then next else asked) s'

  -- One round of the loop up to the decision to retry, with lastErr: what is returned, or the error that
  -- may be retried.
  pub data Round : Type 0 where
    finished : Result Fault Response → Round
    failed : Fault → ℤ → Round

  unfoldable pub judge : Request → Outcome → Round
  unfolding is_retryable
  judge req (answered resp) = finished (ok resp)
  judge req (stopped e) = finished (err e)
  judge req (refused e asked) = if is_retryable req e then failed e asked else finished (err e)

  unfoldable pub round : Result Fault Request → Option Fault → State → Round × State
  unfolding outcome judge
  round prepare last s = elim (ctx_err s) [
    | some e ↦ elim last [ some l ↦ (finished (err l), s) | none ↦ (finished (err e), s) ]
    | none ↦ elim prepare [
      | err e ↦ (finished (err e), s)
      | ok req ↦ let (answer, s1) = send req s in (judge req (outcome req answer s1), s1)
    ]
  ]

  -- The loop, with the number of retries that are left.
  unfoldable pub attempts :
      Result Fault Request → ℕ → Option Fault → State → Result Fault Response × State
  unfolding round wait
  attempts prepare zero last s =
      let (r, s1) = round prepare last s in
      elim r [ finished a ↦ (a, s1) | failed e asked ↦ (err e, s1) ]
  attempts prepare (suc n) last s =
      let (r, s1) = round prepare last s in
      elim r [
        | finished a ↦ (a, s1)
        | failed e asked ↦
            let (interrupted, s2) = wait asked s1 in
            elim interrupted [ some d ↦ (err e, s2) | none ↦ attempts prepare n (some e) s2 ]
      ]

  -- `do`; `prepare` is what the callback answers, every time.
  unfoldable pub do_request : ℕ → Result Fault Request → State → Result Fault Response × State
  unfolding attempts
  do_request max_retries prepare s = attempts prepare max_retries none s
