-- ===== src/Http/Writes/Published.antt =====
-- What a Close of the writer of blob/httpblob/httpblob.go has done.
use mathlib.Core.Path.{subst}
use gocloud_ext.Common.{
  true, ap, eqb, codes, if◌then◌else◌, ◌<◌, Bytes, Bool, false, not, none, Result, ok, err, ◌≡◌,
  refl, arith, Option-cases, Result-cases, inl, inr,
}
use gocloud_ext.Sftp.Files.{Xattrs}
use gocloud_ext.Http.{Fault, Method, Request, Response, get_header, is_retryable_method}
use gocloud_ext.Http.Paths.{new_request}
use gocloud_ext.Http.Client.{Client, HttpBucket}
use gocloud_ext.Http.Retry.{do_request}
use gocloud_ext.Http.Retry.Answers.{do_request-answered, do_request_once}
use gocloud_ext.Http.Writes.{
  HttpWriter, overwrite_header, close_open, failure_of, http_close_writer, move_object,
  move_request, publish_object, put_failure, put_of,
}

ok_injective : (p q : Request) → ◌≡◌ {A = Result Fault Request} (ok p) (ok q) → p ≡ q
ok_injective p q h = ap (λ t. elim t [ ok a ↦ a | err e ↦ p ]) h

overwrite_not : (f : Bool) → overwrite_header (not f) ≡ (if f then codes "F" else codes "T")
overwrite_not true = refl
overwrite_not false = refl

module _ (c : Client) (b : HttpBucket) where
  open c use {State, ctx_err, send}

  -- The MOVE of what the writer staged to the blob's URL, which overwrites unless IfNotExist was asked
  -- for.
  pub record IsMove (w : HttpWriter) (req : Request) : Type 0 where
    pub method : req.method ≡ Method.move
    pub url : req.url ≡ w.temp_url
    pub destination : get_header req.header (codes "Destination") ≡ w.obj_url
    pub overwrite :
        get_header req.header (codes "Overwrite")
        ≡ (if w.if_not_exist then codes "F" else codes "T")

  -- The server answered the PUT, with all the bytes that were written, below 400, and then, in the
  -- state that the PUT left, the MOVE below 300.
  pub record IsWritten (w : HttpWriter) (s : State) : Type 0 where
    pub put_answer : Response
    pub put_sent : (send (record w.put { body = w.written }) s).0 ≡ ok put_answer
    pub put_taken : put_answer.status_code < 400
    pub move : Request
    pub is_move : IsMove w move
    pub move_answer : Response
    pub move_sent : (send move (send (record w.put { body = w.written }) s).1).0 ≡ ok move_answer
    pub move_taken : move_answer.status_code < 300

  put_failure-none :
      (req : Request) (a : Result Fault Response)
      → put_failure req a ≡ none
      → (resp : Response) × (a ≡ ok resp) × (resp.status_code < 400)
  unfolding put_failure
  put_failure-none req (err e) h = absurd (ground arith)
  put_failure-none req (ok resp) h = (resp, refl, ground arith)

  move_request-IsMove :
      (w : HttpWriter) (req : Request)
      → move_request b w.temp_url w.obj_url (not w.if_not_exist) ≡ ok req
      → IsMove w req
  unfolding move_request new_request eqb
  move_request-IsMove w req h = elim (Option-cases (b.url_failure w.temp_url)) [
    | inr (e, k) ↦ absurd (ground arith)
    | inl k ↦
        subst (IsMove w) (ok_injective _ req (rw (k, move_request, new_request) at h)) record {
          method = refl;
          url = refl;
          destination = refl;
          overwrite = overwrite_not w.if_not_exist;
        }
  ]

  -- A MOVE is not retried.
  move_object-none :
      (w : HttpWriter) (s : State)
      → (move_object c b w.temp_url w.obj_url (not w.if_not_exist) s).0 ≡ none
      → (req : Request) × (resp : Response) × IsMove w req
        × ((send req s).0 ≡ ok resp)
        × (resp.status_code < 300)
  unfolding move_object failure_of is_retryable_method
  move_object-none w s h =
      let prepare = move_request b w.temp_url w.obj_url (not w.if_not_exist) in
      elim (Result-cases (do_request c b.max_retries prepare s).0) [
        | inr (e, k) ↦ absurd (ground arith)
        | inl (resp, k) ↦
            let (req, _, p, _, _, _) = do_request-answered c b.max_retries prepare s resp k in
            let m = move_request-IsMove w req p in
            let (sent, small) =
              do_request_once c b.max_retries req s resp (rw (m.method) refl) (rw p at k) in
            (req, resp, m, sent, small)
      ]

  publish_object-moved :
      (md5 : Bytes → Bytes) (encode : Xattrs → Bytes) (w : HttpWriter) (s : State)
      → (publish_object c b md5 encode w s).0 ≡ none
      → (move_object c b w.temp_url w.obj_url (not w.if_not_exist) s).0 ≡ none
  unfolding publish_object
  publish_object-moved md5 encode w s h =
      elim (Option-cases (move_object c b w.temp_url w.obj_url (not w.if_not_exist) s).0) [
        | inl k ↦ k
        | inr (e, k) ↦ absurd (ground arith)
      ]

  close_open-IsWritten :
      (aborted : State → State) (md5 : Bytes → Bytes) (encode : Xattrs → Bytes) (w : HttpWriter)
      (s : State)
      → (close_open c b aborted md5 encode w s).0 ≡ none
      → IsWritten w s
  unfolding close_open
  close_open-IsWritten aborted md5 encode w s h =
      let s1 = (send (put_of w) s).1 in
      elim (Option-cases (ctx_err s)) [
        | inr (e, k) ↦ absurd (ground arith)
        | inl k ↦ elim (Option-cases (ctx_err s1)) [
          | inr (e, l) ↦ absurd (ground arith)
          | inl l ↦ elim (Option-cases (put_failure (put_of w) (send (put_of w) s).0)) [
            | inr (e, f) ↦ absurd (ground arith)
            | inl f ↦
                let (resp, sent, small) = put_failure-none (put_of w) (send (put_of w) s).0 f in
                let p : (publish_object c b md5 encode w s1).0 ≡ none = ground arith in
                let (req, answer, m, moved, taken) =
                  move_object-none w s1 (publish_object-moved md5 encode w s1 p) in
                record {
                  put_answer = resp;
                  put_sent = sent;
                  put_taken = small;
                  move = req;
                  is_move = m;
                  move_answer = answer;
                  move_sent = moved;
                  move_taken = taken;
                }
          ]
        ]
      ]

  -- A Close without error of an open writer has written the blob: the server answered the PUT, with all
  -- the bytes, below 400, and, in the state that the PUT left, it answered below 300 the MOVE of the
  -- temporary URL to the blob's URL, whose Overwrite is F where IfNotExist was asked for and else T.
  pub http_close_writer-IsWritten :
      (aborted : State → State) (md5 : Bytes → Bytes) (encode : Xattrs → Bytes) (w : HttpWriter)
      (s : State)
      → w.closed ≡ false
      → (http_close_writer c b aborted md5 encode w s).0 ≡ none
      → IsWritten w s
  unfolding http_close_writer
  http_close_writer-IsWritten aborted md5 encode w s live h =
      close_open-IsWritten aborted md5 encode w s (ground arith)
