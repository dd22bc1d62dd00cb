-- ===== src/Blob.antt =====
-- The bucket of gocloud.dev/blob that blob/multipart/bucket.go is given. It is not part of this
-- repository, so it is a record of operations, with what its documentation promises in `Laws`.
pub mod Laws
pub mod Copy
pub mod Contents
pub mod Memory
use gocloud_ext.Common.{
  Bytes, Bool, List, Option, none, some, ◌++◌, [], ◌∷◌, ℤ, ℕ, ◌+◌, length, Result,
}

-- The codes of gocloud.dev/gcerrors.
pub data ErrorCode : Type 0 where
  unknown not_found already_exists invalid_argument internal unimplemented : ErrorCode
  failed_precondition permission_denied resource_exhausted canceled deadline_exceeded : ErrorCode

abbrev pub is_not_found : ErrorCode → Bool
is_not_found not_found = Bool.true
is_not_found _ = Bool.false

-- The fields of blob.WriterOptions that bucket.go sets.
pub record WriterOptions : Type 0 where
  pub content_type : Bytes
  pub cache_control : Bytes
  pub content_disposition : Bytes
  pub content_encoding : Bytes
  pub content_language : Bytes
  pub metadata : List (Bytes × Bytes)
  pub content_md5 : Bytes
  pub disable_content_type_detection : Bool

-- What an io.Reader yields: chunks, and then the end or an error.
pub data Source (E : Type 0) : Type 0 where
  eof : Source E
  broken : E → Source E
  chunk : Bytes → Source E → Source E

-- What a blob.ListIterator yields: objects (key and size), and then the end or an error.
pub data Listing (E : Type 0) : Type 0 where
  done : Listing E
  failed : E → Listing E
  object : Bytes → ℤ → Listing E → Listing E

pub record Bucket : Type 1 where
  pub State : Type 0
  pub Err : Type 0
  pub Writer : Type 0
  pub code : Err → ErrorCode
  pub new_writer : Bytes → Option WriterOptions → State → Result Err Writer × State
  pub write : Writer → Bytes → State → Option Err × State
  pub close : Writer → State → Option Err × State
  pub write_all : Bytes → Bytes → Option WriterOptions → State → Option Err × State
  pub read_all : Bytes → State → Result Err Bytes
  pub new_reader : Bytes → State → Result Err (Source Err)
  pub delete : Bytes → State → Option Err × State
  pub list : Bytes → State → Listing Err

-- The whole of a source that ends without an error.
abbrev pub drain : {E : Type 0} → Source E → Option Bytes
drain eof = some []
drain (broken e) = none
drain (chunk c r) = elim (drain r) [ none ↦ none | some rest ↦ some (c ++ rest) ]

module _ {State Err Writer : Type 0} (write : Writer → Bytes → State → Option Err × State) where
  -- io.Copy(w, r), with the number of bytes written so far.
  unfoldable pub io_copy : Writer → Source Err → ℕ → State → ℕ × Option Err × State
  io_copy w eof n s = (n, none, s)
  io_copy w (broken e) n s = (n, some e, s)
  io_copy w (chunk c r) n s =
      let (failure, s') = write w c s in
      elim failure [ none ↦ io_copy w r (n + length c) s' | some e ↦ (n, some e, s') ]
