-- ===== src/Http/Client.antt =====
-- What blob/httpblob/httpblob.go uses of net/http, the context and gax, none of which is part of the
-- repository: a record of operations on a state, in which the calls of the world around are counted.
pub mod Laws
use gocloud_ext.Common.{ℕ, ℤ, Bytes, Bool, List, Option, Result}
use gocloud_ext.Http.{Fault, Request, Response}

pub record Client : Type 1 where
  pub State : Type 0
  -- ctx.Err
  pub ctx_err : State → Option Fault
  -- client.Do, which does not follow redirects but those of GET and HEAD
  pub send : Request → State → Result Fault Response × State
  -- backoff.Pause and gax.Sleep, in nanoseconds
  pub pause : State → ℤ × State
  pub sleep : ℤ → State → Option Fault × State
  -- http.ParseTime and time.Until
  pub until : Bytes → State → Option ℤ

-- The bucket's fields that requests depend on. `parse_time` is http.ParseTime, `url_failure` is what http.NewRequest says of a URL,
-- `basic` is the value that SetBasicAuth sets.
pub record HttpBucket : Type 0 where
  pub max_retries : ℕ
  pub auth_token : Bytes
  pub basic_auth_user : Bytes
  pub basic_auth_password : Bytes
  pub headers : List (Bytes × List Bytes)
  pub webdav : Bool
  pub metadata_in_sidecar : Bool
  -- the path of the base URL, and the URL with a path in its place
  pub base_path : Bytes
  pub base_url : Bytes
  pub url_with_path : Bytes → Bytes
  pub url_failure : Bytes → Option Fault
  pub parse_time : Bytes → Option ℤ
  pub basic : Bytes → Bytes → Bytes
