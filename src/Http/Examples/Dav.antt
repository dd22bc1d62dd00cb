-- ===== src/Http/Examples/Dav.antt =====
-- Collections on a WebDAV server that remembers the URLs that it was told to make.
use gocloud_ext.Common.{
  suc, refl, ℕ, Bytes, Bool, true, false, ◌||◌, if◌then◌else◌, [], none, Result, ok, codes, eqb,
  ◌≡◌, pos,
}
use gocloud_ext.Http.{Method, ends, Fault, Request, Response}
use gocloud_ext.Http.Client.{Client, HttpBucket}
use gocloud_ext.Http.Paths.{new_request, no_headers}
use gocloud_ext.Sftp.Files.{Xattrs}
use gocloud_ext.Http.Object.{zero_attrs, use_sidecar}
use gocloud_ext.Http.Retry.{do_request}
use gocloud_ext.Http.Writes.{HttpWriter, http_close_writer, move_request}
use gocloud_ext.Http.Writes.Published.{IsWritten, http_close_writer-IsWritten}
use gocloud_ext.Http.Collections.{Known}

abbrev reply : ℕ → Response
reply status = record {
  status_code = status;
  header = no_headers;
  content_length = pos 0;
  body = ends [] none;
}

-- 405 where the collection is there, and else 201
abbrev dav_send : Request → (Bytes → Bool) → Result Fault Response × (Bytes → Bool)
dav_send req s = (ok (reply (if s req.url then 405 else 201)), λ u. eqb req.url u || s u)

abbrev dav : Client
dav = record {
  State = Bytes → Bool;
  ctx_err = λ s. none;
  send = dav_send;
  pause = λ s. (pos 1, s);
  sleep = λ d s. (none, s);
  until = λ v s. none;
}

abbrev bucket : HttpBucket
bucket = record {
  max_retries = 3;
  auth_token = [];
  basic_auth_user = [];
  basic_auth_password = [];
  headers = [];
  webdav = true;
  metadata_in_sidecar = true;
  base_path = [];
  base_url = codes "b";
  url_with_path = λ p. p;
  url_failure = λ u. none;
  parse_time = λ v. none;
  basic = λ u p. [];
}

abbrev nothing : Known
nothing = λ d. false

-- It takes every request.
abbrev taking : Client
taking = record {
  State = ℕ;
  ctx_err = λ s. none;
  send = λ req s. (ok (reply 201), suc s);
  pause = λ s. (pos 1, s);
  sleep = λ d s. (none, s);
  until = λ v s. none;
}

abbrev writer : HttpWriter
writer = record {
  key = codes "k";
  obj_url = codes "u";
  temp_url = codes "t";
  put = record { method = Method.put; url = codes "t"; header = no_headers; body = [] };
  if_not_exist = true;
  attrs = zero_attrs;
  written = codes "new";
  closed = false;
}

abbrev sum : Bytes → Bytes
sum d = codes "sum"

abbrev encode : Xattrs → Bytes
encode xa = xa.md5

closes : (http_close_writer taking bucket (λ s. s) sum encode writer 0).0 ≡ none
unfolding http_close_writer do_request use_sidecar move_request new_request
closes = refl

http_close_writer-IsWritten_example : IsWritten taking bucket writer 0
http_close_writer-IsWritten_example =
    http_close_writer-IsWritten taking bucket (λ s. s) sum encode writer 0 refl closes
