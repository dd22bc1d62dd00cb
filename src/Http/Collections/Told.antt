-- ===== src/Http/Collections/Told.antt =====
-- What a WebDAV server tells of collections to the MKCOL of blob/httpblob/webdav.go.
use mathlib.Core.Path.{subst}
use gocloud_ext.Common.{
  ℕ, zero, suc, ◌<◌, leb, ℤ, Bytes, true, false, [], Option, none, some, Result, ok, err, ◌≡◌, ◌⊎◌,
  inl, inr, refl, sym, ap, ◌∙◌, arith, Option-cases, Result-cases, Bool-cases, if_both,
}
use gocloud_ext.Http.{Fault, Method, Request, Response, status_of, fault_of, new_error}
use gocloud_ext.Http.Client.{Client, HttpBucket}
use gocloud_ext.Http.Paths.{new_request}
use gocloud_ext.Http.Retry.{
  Outcome, answered, stopped, refused, Round, finished, failed, judge, round, is_retryable, outcome,
  attempts, wait, do_request,
}
use gocloud_ext.Http.Retry.Bounded.{Round-cases}
use gocloud_ext.Http.Collections.{is_there}

-- What a WebDAV server does with MKCOL: it removes no collection; below 300 the collection is there; a
-- 405, which RFC 4918 gives for a URL that is mapped, and a redirect by 301, 302 or 308, as to the URL
-- with a slash, are answered only where the collection is there. An error without an answer has no
-- status.
pub record Laws (c : Client) (b : HttpBucket) : Type 1 where
  pub Has : c.State → Bytes → Type 0
  pub send-Has :
      (req : Request) (s : c.State) (u : Bytes)
      → req.method ≡ Method.mkcol
      → Has s u
      → Has (c.send req s).1 u
  pub pause-Has : (s : c.State) (u : Bytes) → Has s u → Has (c.pause s).1 u
  pub sleep-Has : (d : ℤ) (s : c.State) (u : Bytes) → Has s u → Has (c.sleep d s).1 u
  pub made :
      (req : Request) (s : c.State) (resp : Response)
      → req.method ≡ Method.mkcol
      → (c.send req s).0 ≡ ok resp
      → resp.status_code < 300
      → Has (c.send req s).1 req.url
  pub there :
      (req : Request) (s : c.State) (resp : Response)
      → req.method ≡ Method.mkcol
      → (c.send req s).0 ≡ ok resp
      → (resp.status_code ≡ 405)
        ⊎ ((resp.status_code ≡ 301) ⊎ ((resp.status_code ≡ 302) ⊎ (resp.status_code ≡ 308)))
      → Has (c.send req s).1 req.url
  pub send-status :
      (req : Request) (s : c.State) (e : Fault) → (c.send req s).0 ≡ err e → status_of e ≡ 0
  pub ctx-status : (s : c.State) (e : Fault) → c.ctx_err s ≡ some e → status_of e ≡ 0
  pub url-status : (u : Bytes) (e : Fault) → b.url_failure u ≡ some e → status_of e ≡ 0

is_there-cases : (n : ℕ) → is_there n ≡ true → (n ≡ 405) ⊎ ((n ≡ 301) ⊎ ((n ≡ 302) ⊎ (n ≡ 308)))
unfolding is_there
is_there-cases n h = ground arith

module _ (c : Client) (b : HttpBucket) (laws : Laws c b) where
  open c use {State, ctx_err, send}
  open laws use {Has}

  -- An error that says that the collection is there tells the truth.
  abbrev pub Told : Bytes → Fault → State → Type 0
  Told u e s = (is_there (status_of e) ≡ false) ⊎ Has s u

  abbrev pub Tells : Bytes → Result Fault Response → State → Type 0
  Tells u (ok resp) s = Has s u
  Tells u (err e) s = Told u e s

  abbrev RoundTells : Bytes → Round c → State → Type 0
  RoundTells u (finished a) s = Tells u a s
  RoundTells u (failed e d) s = Told u e s

  Told-zero : (u : Bytes) (e : Fault) (s : State) → status_of e ≡ 0 → Told u e s
  unfolding is_there
  Told-zero u e s h = inl (rw h refl)

  answer-Told :
      (req : Request) (s : State) (resp : Response)
      → req.method ≡ Method.mkcol
      → (send req s).0 ≡ ok resp
      → Told req.url (fault_of (new_error req resp)) (send req s).1
  unfolding new_error status_of
  answer-Told req s resp m h = elim (Bool-cases (is_there resp.status_code)) [
    | inl t ↦ inr (laws.there req s resp m h (is_there-cases resp.status_code t))
    | inr f ↦ inl f
  ]

  abbrev OutcomeTells : Bytes → Outcome c → State → Type 0
  OutcomeTells u (answered resp) s = Has s u
  OutcomeTells u (stopped e) s = Told u e s
  OutcomeTells u (refused e d) s = Told u e s

  outcome-OutcomeTells :
      (req : Request) (s : State)
      → req.method ≡ Method.mkcol
      → OutcomeTells req.url (outcome c req (send req s).0 (send req s).1) (send req s).1
  unfolding outcome
  outcome-OutcomeTells req s m = elim (Result-cases (send req s).0) [
    | inr (e, h) ↦
        let z = Told-zero req.url e (send req s).1 (laws.send-status req s e h) in
        elim (Option-cases (ctx_err (send req s).1)) [
          | inl k ↦ rw (h, outcome, k) z
          | inr (d, k) ↦ rw (h, outcome, k) z
        ]
    | inl (resp, h) ↦
        let t = answer-Told req s resp m h in
        elim (Bool-cases (leb 400 resp.status_code)) [
          | inl k ↦ rw (h, outcome, k) t
          | inr k ↦ elim (Bool-cases (leb 300 resp.status_code)) [
            | inl l ↦ rw (h, outcome, k, l) t
            | inr l ↦ rw (h, outcome, k, l) (laws.made req s resp m h (ground arith))
          ]
        ]
  ]

  judge-RoundTells :
      (u : Bytes) (req : Request) (o : Outcome c) (s : State)
      → OutcomeTells u o s
      → RoundTells u (judge c req o) s
  unfolding judge
  judge-RoundTells u req (answered resp) s h = h
  judge-RoundTells u req (stopped e) s h = h
  judge-RoundTells u req (refused e d) s h =
      if_both (λ r. RoundTells u r s) (is_retryable c req e) (failed e d) (finished (err e)) h h

  abbrev Last : Bytes → Option Fault → State → Type 0
  Last u none s = Unit
  Last u (some e) s = Told u e s

  -- What a round is told of, when it may be stopped before it sends anything.
  interrupted :
      (u : Bytes) (last : Option Fault) (e : Fault) (s : State)
      → Last u last s
      → ctx_err s ≡ some e
      → RoundTells u (elim last [ some l ↦ finished (err l) | none ↦ finished (err e) ]) s
  interrupted u none e s h k = Told-zero u e s (laws.ctx-status s e k)
  interrupted u (some l) e s h k = h

  round-RoundTells :
      (req : Request) (last : Option Fault) (s : State)
      → req.method ≡ Method.mkcol
      → Last req.url last s
      → RoundTells req.url (round c (ok req) last s).0 (round c (ok req) last s).1
  unfolding round
  round-RoundTells req last s m h = elim (Option-cases (ctx_err s)) [
    | inl k ↦ rw (round, k) (judge-RoundTells req.url req _ _ (outcome-OutcomeTells req s m))
    | inr (e, k) ↦ elim (Option-cases last) [
      | inl n ↦ rw (round, k, n) (Told-zero req.url e s (laws.ctx-status s e k))
      | inr (l, n) ↦ rw (round, k, n) (subst (λ o. Last req.url o s) n h)
    ]
  ]

  wait-Has : (d : ℤ) (s : State) (u : Bytes) → Has s u → Has (wait c d s).1 u
  unfolding wait
  wait-Has d s u h = laws.sleep-Has _ _ u (laws.pause-Has s u h)

  wait-Told : (d : ℤ) (s : State) (u : Bytes) (e : Fault) → Told u e s → Told u e (wait c d s).1
  wait-Told d s u e (inl h) = inl h
  wait-Told d s u e (inr h) = inr (wait-Has d s u h)

  attempts-Tells :
      (req : Request) (n : ℕ) (last : Option Fault) (s : State)
      → req.method ≡ Method.mkcol
      → Last req.url last s
      → Tells req.url (attempts c (ok req) n last s).0 (attempts c (ok req) n last s).1
  unfolding attempts
  attempts-Tells req zero last s m h =
      let t = round-RoundTells req last s m h in
      elim (Round-cases c (round c (ok req) last s).0) [
        | inl (a, k) ↦
            rw (attempts, k) (subst (λ r. RoundTells req.url r (round c (ok req) last s).1) k t)
        | inr (e, d, k) ↦
            rw (attempts, k) (subst (λ r. RoundTells req.url r (round c (ok req) last s).1) k t)
      ]
  attempts-Tells req (suc n) last s m h =
      let s1 = (round c (ok req) last s).1 in
      let t = round-RoundTells req last s m h in
      elim (Round-cases c (round c (ok req) last s).0) [
        | inl (a, k) ↦ rw (attempts, k) (subst (λ r. RoundTells req.url r s1) k t)
        | inr (e, d, k) ↦
            let w = wait-Told d s1 req.url e (subst (λ r. RoundTells req.url r s1) k t) in
            elim (Option-cases (wait c d s1).0) [
              | inr (f, i) ↦ rw (attempts, k, i) w
              | inl i ↦ rw (attempts, k, i) (attempts-Tells req n (some e) (wait c d s1).1 m w)
            ]
      ]

  -- The collections that there are stay.
  round-Has :
      (req : Request) (last : Option Fault) (s : State) (u : Bytes)
      → req.method ≡ Method.mkcol
      → Has s u
      → Has (round c (ok req) last s).1 u
  unfolding round
  round-Has req last s u m h = elim (Option-cases (ctx_err s)) [
    | inl k ↦ rw (round, k) (laws.send-Has req s u m h)
    | inr (e, k) ↦ elim (Option-cases last) [
      | inl n ↦ rw (round, k, n) h
      | inr (l, n) ↦ rw (round, k, n) h
    ]
  ]

  attempts-Has :
      (req : Request) (n : ℕ) (last : Option Fault) (s : State) (u : Bytes)
      → req.method ≡ Method.mkcol
      → Has s u
      → Has (attempts c (ok req) n last s).1 u
  unfolding attempts
  attempts-Has req zero last s u m h =
      let t = round-Has req last s u m h in
      elim (Round-cases c (round c (ok req) last s).0) [
        | inl (a, k) ↦ rw (attempts, k) t
        | inr (e, d, k) ↦ rw (attempts, k) t
      ]
  attempts-Has req (suc n) last s u m h =
      let s1 = (round c (ok req) last s).1 in
      let t = round-Has req last s u m h in
      elim (Round-cases c (round c (ok req) last s).0) [
        | inl (a, k) ↦ rw (attempts, k) t
        | inr (e, d, k) ↦
            let w = wait-Has d s1 u t in
            elim (Option-cases (wait c d s1).0) [
              | inr (f, i) ↦ rw (attempts, k, i) w
              | inl i ↦ rw (attempts, k, i) (attempts-Has req n (some e) (wait c d s1).1 u m w)
            ]
      ]

  new_request-fields :
      (url : Bytes) (req : Request)
      → new_request b Method.mkcol url [] ≡ ok req
      → (req.method ≡ Method.mkcol) × (req.url ≡ url)
  unfolding new_request
  new_request-fields url req h = elim (Option-cases (b.url_failure url)) [
    | inr (e, k) ↦ absurd (ground arith)
    | inl k ↦
        let q = rw (new_request, k) at h in
        (
          ap (λ t. elim t [ ok a ↦ a.method | err e ↦ Method.mkcol ]) (sym q),
          ap (λ t. elim t [ ok a ↦ a.url | err e ↦ url ]) (sym q),
        )
  ]

  new_request-status :
      (url : Bytes) (e : Fault) → new_request b Method.mkcol url [] ≡ err e → status_of e ≡ 0
  unfolding new_request
  new_request-status url e h = elim (Option-cases (b.url_failure url)) [
    | inr (f, k) ↦
        let q = rw (new_request, k) at h in
        laws.url-status url e (k ∙ ap (λ t. elim t [ ok a ↦ some f | err g ↦ some g ]) q)
    | inl k ↦ absurd (ground arith)
  ]

  -- Without a request, `do` fails.
  do_request-err :
      (n : ℕ) (e : Fault) (s : State)
      → status_of e ≡ 0
      → (f : Fault) × (do_request c n (err e) s ≡ (err f, s)) × (status_of f ≡ 0)
  unfolding do_request attempts round
  do_request-err zero e s h = elim (Option-cases (ctx_err s)) [
    | inl k ↦ (e, rw (do_request, attempts, round, k) (rw (round, k) refl), h)
    | inr (f, k) ↦
        (f, rw (do_request, attempts, round, k) (rw (round, k) refl), laws.ctx-status s f k)
  ]
  do_request-err (suc n) e s h = elim (Option-cases (ctx_err s)) [
    | inl k ↦ (e, rw (do_request, attempts, round, k) (rw (round, k) refl), h)
    | inr (f, k) ↦
        (f, rw (do_request, attempts, round, k) (rw (round, k) refl), laws.ctx-status s f k)
  ]

  pub do_request-Has :
      (url : Bytes) (n : ℕ) (s : State) (u : Bytes)
      → Has s u
      → Has (do_request c n (new_request b Method.mkcol url []) s).1 u
  unfolding do_request
  do_request-Has url n s u h = elim (Result-cases (new_request b Method.mkcol url [])) [
    | inl (req, k) ↦ rw k (attempts-Has req n none s u (new_request-fields url req k).0 h)
    | inr (e, k) ↦
        let (f, q, z) = do_request-err n e s (new_request-status url e k) in
        rw k (subst (λ r. Has r.1 u) (sym q) h)
  ]

  pub do_request-Tells :
      (url : Bytes) (n : ℕ) (s : State)
      → Tells url
          (do_request c n (new_request b Method.mkcol url []) s).0
          (do_request c n (new_request b Method.mkcol url []) s).1
  unfolding do_request
  do_request-Tells url n s = elim (Result-cases (new_request b Method.mkcol url [])) [
    | inl (req, k) ↦
        let (m, same) = new_request-fields url req k in
        rw k (
          subst (λ v. Tells v (do_request c n (ok req) s).0 (do_request c n (ok req) s).1) same
            (attempts-Tells req n none s m tt))
    | inr (e, k) ↦
        let (f, q, z) = do_request-err n e s (new_request-status url e k) in
        rw k (subst (λ r. Tells url r.0 r.1) (sym q) (Told-zero url f s z))
  ]
