-- ===== src/Sftp/Server.antt =====
-- The SFTP client of github.com/pkg/sftp, as blob/sftpblob/sftpblob.go uses it. It is not part of this
-- repository, so it is a record of operations on the server's state.
pub mod Laws
pub mod Memory
use gocloud_ext.Common.{ℕ, ℤ, Bytes, Bool, false, Option, none, some, Result}
use gocloud_ext.Blob.{ErrorCode, Source}
use gocloud_ext.Sftp.{FileInfo, Failure}

pub record Server : Type 1 where
  pub State : Type 0
  pub Handle : Type 0
  pub File : Type 0
  pub stat : Bytes → State → Result Failure FileInfo
  pub rename : Bytes → Bytes → State → Option Failure × State
  pub posix_rename : Bytes → Bytes → State → Option Failure × State
  pub remove : Bytes → State → Option Failure × State
  pub mkdir_all : Bytes → State → Option Failure × State
  -- OpenFile with O_CREATE and O_EXCL, and Create
  pub open_new : Bytes → State → Result Failure Handle × State
  pub create : Bytes → State → Result Failure Handle × State
  pub write : Handle → Bytes → State → ℕ × Option Failure × State
  pub close : Handle → State → Option Failure × State
  -- Open; Seek and the reads that follow it
  pub open_file : Bytes → State → Result Failure File
  pub seek : File → ℤ → Option Failure
  pub contents : File → ℤ → Source Failure

-- errors.New
abbrev pub plain_error : Failure
plain_error = record {
  driver_code = none;
  is_canceled = false;
  is_deadline_exceeded = false;
  is_not_exist = false;
  is_permission = false;
  is_exist = false;
  is_eof = false;
  status = none;
  net_timeout = none;
}

-- errorf, with the error that it wraps
abbrev pub errorf : ErrorCode → Option Failure → Failure
errorf code none = record plain_error { driver_code = some code }
errorf code (some e) = record e { driver_code = some code }

-- `err == nil` keeps the first error
abbrev pub or_else : Option Failure → Option Failure → Option Failure
or_else none e = e
or_else (some d) e = some d
