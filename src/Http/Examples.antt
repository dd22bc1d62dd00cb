-- ===== src/Http/Examples.antt =====
-- The HTTP driver on two small servers.
pub mod Dav
pub mod Lists
use mathlib.Core.Path.{subst}
use gocloud_ext.Common.{
  ◌&&◌, ℕ, zero, suc, pos, ◌≤◌, Bytes, true, false, if◌then◌else◌, [], Option, none, some, Result,
  ok, err, codes, eqb, has_prefix, ◌≡◌, refl, ap, arith, inl,
}
use gocloud_ext.Sftp.Files.{Xattrs}
use gocloud_ext.Http.{
  Body, ends, more, Fault, Request, Response, get_header, set_header, plain_fault, fault_of,
  new_error, status_of, is_retryable_status, is_retryable_method, get,
}
use gocloud_ext.Http.Client.{Client, HttpBucket}
use gocloud_ext.Http.Client.Laws.{Counts}
use gocloud_ext.Http.Paths.{no_headers}
use gocloud_ext.Http.Retry.{do_request, wait, outcome, is_retryable}
use gocloud_ext.Http.Retry.Bounded.{do_request-sent}
use gocloud_ext.Http.Retry.Answers.{Transient, no_round, one_round, do_request-Transient}
use gocloud_ext.Decimal.{format_padded}
use gocloud_ext.Http.Bodies.{
  range_header, slice_body, skip_body, range_validator, limit_positive, limit_body, read_body,
}
use gocloud_ext.Http.Bodies.Sliced.{Conforms, IsSliced, slice_body-IsSliced}
use gocloud_ext.Http.Reader.{Reader, read_reader}
use gocloud_ext.Http.Reader.Ends.{read_reader_ends}
use gocloud_ext.Http.Reader.Kept.{IsReading}
use gocloud_ext.Http.Object.{open_range}
use gocloud_ext.Http.Object.Started.{open_range-IsReading}

abbrev hello : Bytes
hello = codes "hello"

abbrev validator : Bytes
validator = codes "v"

abbrev reply : ℕ → Body → Response
reply status body = record {
  status_code = status;
  header = set_header (codes "ETag") validator no_headers;
  content_length = pos 5;
  body = body;
}

-- It answers 503 to the first request and 200 to the others, which it counts.
abbrev busy_send : Request → ℕ → Result Fault Response × ℕ
busy_send req zero = (ok (reply 503 (ends [] none)), 1)
busy_send req (suc n) = (ok (reply 200 (ends hello none)), suc (suc n))

abbrev busy : Client
busy = record {
  State = ℕ;
  ctx_err = λ s. none;
  send = busy_send;
  pause = λ s. (pos 1, s);
  sleep = λ d s. (none, s);
  until = λ v s. none;
}

busy_send-sent : (req : Request) (s : ℕ) → (busy_send req s).1 ≡ suc s
busy_send-sent req zero = refl
busy_send-sent req (suc n) = refl

abbrev counts : Counts busy
counts = record {
  sent = λ s. s;
  send-sent = busy_send-sent;
  pause-sent = λ s. refl;
  sleep-sent = λ d s. refl;
}

abbrev request : Request
request = record { method = get; url = codes "u"; header = no_headers; body = [] }

one_busy : Transient busy request 1 0 1
unfolding outcome is_retryable wait eqb is_retryable_method status_of new_error is_retryable_status
one_busy =
    one_round (fault_of (new_error request (reply 503 (ends [] none)))) (pos 0) refl refl refl refl
      no_round

do_request-Transient_example :
    do_request busy 3 (ok request) 0 ≡ (ok (reply 200 (ends hello none)), 2)
do_request-Transient_example =
    do_request-Transient busy request 3 (reply 200 (ends hello none)) one_busy (omega arith) refl
      refl (omega arith)

-- It ignores ranges but the one of a resumption that it knows, and breaks that answer off after a byte.
abbrev server : Client
server = record {
  State = ℕ;
  ctx_err = λ s. none;
  send = λ req s. (
    ok (
        if eqb (get_header req.header (codes "Range")) (codes "bytes=2-4")
          && eqb (get_header req.header (codes "If-Range")) validator
        then reply 206 (ends (codes "l") (some plain_fault))
        else reply 200 (ends hello none)),
    suc s,
  );
  pause = λ s. (pos 1, s);
  sleep = λ d s. (none, s);
  until = λ v s. none;
}

conforms : Conforms (reply 200 (ends hello none)) 1 (pos 3) hello
conforms = record { partial = λ h. absurd (ground arith); whole = λ h. refl }

slice_body-IsSliced_example :
    IsSliced 1 (pos 3) hello (slice_body (reply 200 (ends hello none)) 1 (pos 3))
slice_body-IsSliced_example =
    slice_body-IsSliced (reply 200 (ends hello none)) 1 (pos 3) hello conforms

abbrev reader : Reader
reader = record {
  is_live = true;
  base = request;
  validator = validator;
  offset = 0;
  remaining = pos 5;
  resumes = 0;
  body = ends (codes "he") (some plain_fault);
  content_type = [];
  mod_time = none;
  size = pos 5;
}

read_reader_ends_example :
    (a : Bytes × Option (Option Fault) × Reader × ℕ) × (read_reader server 3 9 reader 0 ≡ some a)
read_reader_ends_example = read_reader_ends server 3 9 reader 0

abbrev ok_or_whole : Result Fault Response → Response
ok_or_whole (ok r) = r
ok_or_whole (err e) = reply 200 (ends hello none)

abbrev next_reader : Reader
next_reader = record reader {
  offset = 2;
  remaining = pos 3;
  resumes = 1;
  body = ends (codes "l") (some plain_fault);
}

resumes : read_reader server 3 9 reader 0 ≡ some (codes "he", none, next_reader, 1)
unfolding read_reader eqb read_body do_request limit_positive limit_body range_header format_padded
resumes = refl

abbrev bucket : HttpBucket
bucket = record {
  max_retries = 3;
  auth_token = [];
  basic_auth_user = [];
  basic_auth_password = [];
  headers = [];
  webdav = false;
  metadata_in_sidecar = false;
  base_path = [];
  base_url = codes "b";
  url_with_path = λ p. p;
  url_failure = λ u. none;
  parse_time = λ v. none;
  basic = λ u p. [];
}

abbrev decode : Bytes → Option Xattrs
decode d = none

abbrev opened : Reader
opened = record {
  is_live = true;
  base = request;
  validator = validator;
  offset = 1;
  remaining = pos 3;
  resumes = 0;
  body = more (codes "ell") (ends [] none);
  content_type = codes "application/octet-stream";
  mod_time = none;
  size = pos 5;
}

opens : (open_range server bucket decode (codes "k") (codes "u") request 1 (pos 3) 0).0 ≡ ok opened
unfolding open_range eqb do_request slice_body skip_body range_validator limit_positive has_prefix
    limit_body
opens = refl

answers :
    (t : ℕ) (resp : Response) → (server.send request t).0 ≡ ok resp → Conforms resp 1 (pos 3) hello
unfolding eqb
answers t resp h =
    subst (λ r. Conforms r 1 (pos 3) hello)
      (ap (λ a. elim a [ ok r ↦ r | err e ↦ reply 200 (ends hello none) ]) h) conforms

open_range-IsReading_example : IsReading request opened.validator hello opened × (opened.offset ≡ 1)
open_range-IsReading_example =
    open_range-IsReading server bucket decode (codes "k") (codes "u") request 1 (pos 3) hello 0
      opened answers opens (inl (2, refl))
