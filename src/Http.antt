-- ===== src/Http.antt =====
-- blob/httpblob: the driver's errors, its reserved names and the messages of HTTP that it looks at.
-- What Go's errors.As and errors.Is find in an error is a record.
pub mod Client
pub mod Paths
pub mod Retry
pub mod Bodies
pub mod Reader
pub mod Object
pub mod Collections
pub mod Writes
pub mod Propfind
pub mod Listing
pub mod Examples
use gocloud_ext.Common.{
  ℕ, ℤ, zero, suc, pos, negsuc, ◌-◌, ◌^◌, Bytes, Bool, true, false, ◌||◌, ◌&&◌, ◌==◌, leb, ltb,
  if◌then◌else◌, List, [], ◌∷◌, ◌++◌, take, Option, none, some, codes, eqb,
}
use gocloud_ext.Blob.{
  ErrorCode, unknown, not_found, invalid_argument, internal, unimplemented, failed_precondition,
  permission_denied, resource_exhausted, canceled, deadline_exceeded,
}

pub data Method : Type 0 where
  get head options put delete propfind mkcol move copy : Method

-- *Error; the code is `none` where it is gcerrors.OK. The text of an error of the driver is left out.
pub record HttpError : Type 0 where
  pub method : Option Method
  pub url : Bytes
  pub key : Bytes
  pub status_code : ℕ
  pub body : Bytes
  pub code : Option ErrorCode

-- An error: the *Error that errors.As finds in it, and what errors.Is answers.
pub record Fault : Type 0 where
  pub http : Option HttpError
  pub is_canceled : Bool
  pub is_deadline_exceeded : Bool

abbrev pub fault_of : HttpError → Fault
fault_of e = record { http = some e; is_canceled = false; is_deadline_exceeded = false }

-- fmt.Errorf, wrapping no error
abbrev pub plain_fault : Fault
plain_fault = record { http = none; is_canceled = false; is_deadline_exceeded = false }

-- errorf
abbrev pub driver_fault : ErrorCode → Fault
driver_fault c =
    fault_of record { method = none; url = []; key = []; status_code = 0; body = []; code = some c }

-- A header: the values of each name, which are in their canonical form.
abbrev pub Headers : Type 0
Headers = Bytes → List Bytes

abbrev pub first : List Bytes → Bytes
first [] = []
first (v ∷ vs) = v

-- Header.Get
abbrev pub get_header : Headers → Bytes → Bytes
get_header h k = first (h k)

-- Header.Set and Header.Add
abbrev pub set_header : Bytes → Bytes → Headers → Headers
set_header k v h = λ j. if eqb k j then v ∷ [] else h j

abbrev pub add_header : Bytes → Bytes → Headers → Headers
add_header k v h = λ j. if eqb k j then h j ++ v ∷ [] else h j

-- What the Read calls on a body yield: bytes, and with the last ones io.EOF (`none`) or an error.
pub data Body : Type 0 where
  ends : Bytes → Option Fault → Body
  more : Bytes → Body → Body

-- The bytes that come before the end.
abbrev pub body_bytes : Body → Bytes
body_bytes (ends d e) = d
body_bytes (more c r) = c ++ body_bytes r

pub record Request : Type 0 where
  pub method : Method
  pub url : Bytes
  pub header : Headers
  pub body : Bytes

pub record Response : Type 0 where
  pub status_code : ℕ
  pub header : Headers
  -- -1 where the length is unknown
  pub content_length : ℤ
  pub body : Body

abbrev pub max_error_body_size : ℕ
max_error_body_size = 1024

unfoldable pub new_error : Request → Response → HttpError
new_error req resp = record {
  method = some req.method;
  url = req.url;
  key = [];
  status_code = resp.status_code;
  body = take max_error_body_size (body_bytes resp.body);
  code = none;
}

unfoldable pub status_of : Fault → ℕ
status_of e = elim e.http [ none ↦ 0 | some h ↦ h.status_code ]

unfoldable pub is_redirect : Fault → Bool
unfolding status_of
is_redirect e = leb 300 (status_of e) && ltb (status_of e) 400

unfoldable pub head_refused : ℕ → Bool
head_refused status = status == 403 || status == 405 || status == 501

unfoldable pub not_readable : Fault → Fault
not_readable e = elim e.http [
  | none ↦ e
  | some h ↦
      if h.status_code == 405
      then fault_of record {
        method = h.method;
        url = h.url;
        key = h.key;
        status_code = 404;
        body = codes "the key does not name a readable object";
        code = none;
      }
      else e
]

unfoldable pub with_key : Fault → Bytes → Fault
with_key e key = elim e.http [
  | none ↦ e
  | some h ↦ if eqb h.key [] then record e { http = some (record h { key = key }) } else e
]

-- `switch httpErr.StatusCode` of ErrorCode, and what follows it
unfoldable pub code_of_status : ℕ → ErrorCode
code_of_status n =
    if n == 404 || n == 410
    then not_found
    else if n == 401 || n == 403
    then permission_denied
    else if n == 412 || n == 409
    then failed_precondition
    else if n == 405 || n == 501
    then unimplemented
    else if n == 400 || n == 422 || n == 416
    then invalid_argument
    else if n == 408 || n == 504
    then deadline_exceeded
    else if n == 429 || n == 507
    then resource_exhausted
    else if leb 500 n
    then internal
    else unknown

-- ErrorCode of an error that is not nil
unfoldable pub fault_code : Fault → ErrorCode
unfolding code_of_status
fault_code e = elim e.http [
  | some h ↦ elim h.code [ some c ↦ c | none ↦ code_of_status h.status_code ]
  | none ↦
      if e.is_canceled
      then canceled
      else if e.is_deadline_exceeded
      then deadline_exceeded
      else unknown
]

unfoldable pub is_retryable_method : Method → Bool
is_retryable_method get = true
is_retryable_method head = true
is_retryable_method options = true
is_retryable_method propfind = true
is_retryable_method mkcol = true
is_retryable_method _ = false

unfoldable pub is_retryable_status : ℕ → Bool
is_retryable_status code = leb 500 code || code == 429 || code == 423

-- An int64 by its 64 bits.
abbrev pub low_int64 : ℕ → ℤ
low_int64 m = if ltb m (2 ^ 63) then pos m else negsuc (2 ^ 64 - m - 1)
