-- ===== src/S3.antt =====
-- blob/multipart/s3mp/s3mp.go: the uploader over an S3 client. The client is a parameter: a record of
-- the five calls, with what the code looks at in an error. A nil pointer of the SDK is `none`.
pub mod Start
pub mod Parts
pub mod Finish
pub mod Examples
use gocloud_ext.Common.{
  ℕ, zero, suc, pos, negsuc, ℤ, ◌-◌, ◌+◌, ◌%◌, ◌^◌, Bytes, Bool, true, ◌&&◌, ◌||◌, ltb, List, [],
  codes, Option, none, some, if◌then◌else◌, contains, eqb, Result,
}
use gocloud_ext.Multipart.{Part, PartError, Constraints, Location}
use gocloud_ext.Escape.{is_rune, is_control}

-- The fields of s3.CreateMultipartUploadInput that the code sets.
pub record CreateInput : Type 0 where
  pub bucket : Bytes
  pub key : Bytes
  pub content_type : Option Bytes
  pub cache_control : Option Bytes
  pub content_disposition : Option Bytes
  pub content_encoding : Option Bytes
  pub content_language : Option Bytes
  pub metadata : Option (List (Bytes × Bytes))

pub record UploadPartInput : Type 0 where
  pub bucket : Bytes
  pub key : Bytes
  pub upload_id : Bytes
  pub part_number : ℤ
  pub body : Bytes
  pub content_length : ℤ

pub record CompletedPart : Type 0 where
  pub part_number : ℤ
  pub etag : Bytes

pub record CompleteInput : Type 0 where
  pub bucket : Bytes
  pub key : Bytes
  pub upload_id : Bytes
  pub parts : List CompletedPart

pub record AbortInput : Type 0 where
  pub bucket : Bytes
  pub key : Bytes
  pub upload_id : Bytes

pub record ListPartsInput : Type 0 where
  pub bucket : Bytes
  pub key : Bytes
  pub upload_id : Bytes
  pub part_number_marker : Option Bytes
  pub max_parts : Option ℤ

pub record ListedPart : Type 0 where
  pub part_number : Option ℤ
  pub size : Option ℤ
  pub etag : Option Bytes

pub record ListPartsOutput : Type 0 where
  pub parts : List ListedPart
  pub is_truncated : Option Bool
  pub next_part_number_marker : Option Bytes

-- API
pub record Client : Type 1 where
  pub State : Type 0
  pub Err : Type 0
  -- errors.As finds a *types.NoSuchUpload
  pub is_no_such_upload_type : Err → Bool
  pub error_text : Err → Bytes
  pub create : CreateInput → State → Result Err (Option Bytes) × State
  pub upload_part : UploadPartInput → State → Result Err (Option Bytes) × State
  pub complete : CompleteInput → State → Option Err × State
  pub abort : AbortInput → State → Option Err × State
  pub list_parts : ListPartsInput → State → Result Err ListPartsOutput

-- uploader, without its client
pub record S3Uploader : Type 0 where
  pub location : Location
  pub key : Bytes
  pub upload_id : Bytes
  pub finished : Bool

pub data S3Error (E : Type 0) : Type 0 where
  nil_client : S3Error E
  no_bucket : S3Error E
  empty_key : S3Error E
  upload_not_found : S3Error E
  closed : S3Error E
  out_of_fuel : S3Error E
  invalid_parts : PartError → S3Error E
  part_too_large : ℤ → ℤ → S3Error E
  reading : ℤ → E → S3Error E
  calling : E → S3Error E

abbrev pub min_part_size : ℕ
min_part_size = 5242880

abbrev pub max_part_size : ℕ
max_part_size = 5368709120

abbrev pub s3_max_parts : ℕ
s3_max_parts = 10000

abbrev pub s3_constraints : Constraints
s3_constraints = record {
  min_part_size = pos min_part_size;
  max_part_size = pos max_part_size;
  max_parts = pos s3_max_parts;
  resumable = true;
}

-- The low 32 bits of a number that is not negative, as an int32.
low_int32 : ℕ → ℤ
low_int32 m = if ltb m (2 ^ 31) then pos m else negsuc (2 ^ 32 - m - 1)

-- The conversion int32(n).
unfoldable pub to_int32 : ℤ → ℤ
unfolding low_int32
to_int32 (pos n) = low_int32 (n % 2 ^ 32)
to_int32 (negsuc n) = low_int32 (2 ^ 32 - n % 2 ^ 32 - 1)

-- The test of EscapeKey, for a position of the key.
s3_should_escape : List ℕ → ℕ → Bool
unfolding is_control
s3_should_escape r i =
    is_control r i || (ltb 1 i && is_rune r i 47 && is_rune r (i - 1) 46 && is_rune r (i - 2) 46)

unfoldable pub s3_escape_key : ((List ℕ → ℕ → Bool) → Bytes → Bytes) → Bytes → Bytes
unfolding s3_should_escape
s3_escape_key hex_escape key = hex_escape s3_should_escape key

-- aws.ToString
abbrev pub to_string : Option Bytes → Bytes
to_string none = []
to_string (some s) = s

-- aws.ToInt32 and aws.ToInt64
abbrev pub to_int : Option ℤ → ℤ
to_int none = pos 0
to_int (some n) = n

-- isNoSuchUpload
unfoldable pub is_no_such_upload : (c : Client) → c.Err → Bool
is_no_such_upload c e =
    c.is_no_such_upload_type e || contains (c.error_text e) (codes "NoSuchUpload")
