-- ===== src/Sftp.antt =====
-- blob/sftpblob: the driver's errors and its reserved names. What a server reports of a file and what
-- Go's errors.As and errors.Is find in an error are records.
pub mod Emit
pub mod Walk
pub mod Server
pub mod Files
pub mod Reading
pub mod Write
pub mod Copies
pub mod Examples
use gocloud_ext.Common.{
  ℕ, ℤ, Bytes, Bool, true, false, ◌||◌, ◌==◌, if◌then◌else◌, Option, none, some, codes, has_suffix,
  contains,
}
use gocloud_ext.Blob.{
  ErrorCode, unknown, not_found, already_exists, internal, unimplemented, failed_precondition,
  permission_denied, canceled, deadline_exceeded,
}

-- fs.FileInfo; a time is a number of nanoseconds since the zero time.
pub record FileInfo : Type 0 where
  pub name : Bytes
  pub is_dir : Bool
  pub mod_time : ℤ
  pub size : ℤ

-- An error, by what errors.As and errors.Is answer: an *Error's code, the sentinel errors, the code
-- of an *sftp.StatusError, and Timeout of a net.Error.
pub record Failure : Type 0 where
  pub driver_code : Option ErrorCode
  pub is_canceled : Bool
  pub is_deadline_exceeded : Bool
  pub is_not_exist : Bool
  pub is_permission : Bool
  pub is_exist : Bool
  pub is_eof : Bool
  pub status : Option ℕ
  pub net_timeout : Option Bool

abbrev pub attrs_ext : Bytes
attrs_ext = codes ".attrs"

abbrev pub temp_infix : Bytes
temp_infix = codes ".gocdktmp."

abbrev pub default_page_size : ℕ
default_page_size = 1000

unfoldable pub is_internal_path : Bytes → Bool
is_internal_path p = has_suffix p attrs_ext || contains p temp_infix

-- `switch statusErr.Code`; `none` where the switch has no case.
status_code : ℕ → Option ErrorCode
status_code n =
    if n == 2
    then some not_found
    else if n == 3 || n == 27
    then some permission_denied
    else if n == 8
    then some unimplemented
    else if n == 11
    then some already_exists
    else if n == 6 || n == 7
    then some internal
    else if n == 21 || n == 22 || n == 24
    then some failed_precondition
    else none

net_code : Option Bool → ErrorCode
net_code none = unknown
net_code (some timeout) = if timeout then deadline_exceeded else internal

server_code : Failure → Option ErrorCode → ErrorCode
unfolding net_code
server_code e (some c) = c
server_code e none = net_code e.net_timeout

status_error : Failure → Option ℕ → ErrorCode
unfolding server_code status_code
status_error e none = server_code e none
status_error e (some n) = server_code e (status_code n)

unfoldable pub error_code : Failure → ErrorCode
unfolding status_error
error_code e = elim e.driver_code [
  | some c ↦ c
  | none ↦
      if e.is_canceled
      then canceled
      else if e.is_deadline_exceeded
      then deadline_exceeded
      else if e.is_not_exist
      then not_found
      else if e.is_permission
      then permission_denied
      else if e.is_exist
      then already_exists
      else if e.is_eof
      then internal
      else status_error e e.status
]
