-- ===== src/Azure.antt =====
-- blob/multipart/azmp/azmp.go: the uploader that stages parts as uncommitted blocks of an Azure blob.
-- The client of the blob and base64 are parameters. A nil pointer of the SDK is `none`.
pub mod Start
pub mod Blocks
pub mod Parts
pub mod Finish
pub mod Laws
pub mod Examples
use gocloud_ext.Common.{
  ℤ, pos, ℕ, ◌+◌, ◌-◌, Bytes, length, some, Bool, true, ◌&&◌, ◌||◌, ◌==◌, ltb, List, Option, none,
  Result,
}
use gocloud_ext.Multipart.{Constraints, Options, PartError, max_part_number}
use gocloud_ext.Decimal.{format_padded, parse_int, trim_zeros}
use gocloud_ext.Escape.{is_rune, is_control}

-- blob.HTTPHeaders, in the fields that the code sets
pub record HttpHeaders : Type 0 where
  pub content_type : Option Bytes
  pub cache_control : Option Bytes
  pub content_disposition : Option Bytes
  pub content_encoding : Option Bytes
  pub content_language : Option Bytes
  pub content_md5 : Option Bytes

-- A block of the answer of GetBlockList.
pub record ListedBlock : Type 0 where
  pub name : Option Bytes
  pub size : Option ℤ

-- API
pub record AzureClient : Type 1 where
  pub State : Type 0
  pub Err : Type 0
  pub stage_block : Bytes → Bytes → State → Option Err × State
  -- GetBlockList, of the uncommitted blocks
  pub get_block_list : State → Result Err (List ListedBlock)
  pub commit_block_list :
      List Bytes → HttpHeaders → Option (List (Bytes × Bytes)) → State → Option Err × State

-- base64.StdEncoding; an error of DecodeString is `none`
pub record Base64 : Type 0 where
  pub encode : Bytes → Bytes
  pub decode : Bytes → Option Bytes

-- uploader, without its client
pub record AzureUploader : Type 0 where
  pub name : Bytes
  pub opts : Option Options
  pub finished : Bool

pub data AzureError (E : Type 0) : Type 0 where
  nil_client : AzureError E
  empty_key : AzureError E
  key_required : AzureError E
  foreign_upload : Bytes → Bytes → AzureError E
  closed : AzureError E
  invalid_parts : PartError → AzureError E
  part_too_large : ℤ → ℤ → AzureError E
  reading : ℤ → E → AzureError E
  staging : ℤ → E → AzureError E
  committing : Bytes → E → AzureError E
  calling : E → AzureError E

abbrev pub azure_max_part_size : ℕ
azure_max_part_size = 4194304000

abbrev pub block_id_width : ℕ
block_id_width = 10

abbrev pub azure_constraints : Constraints
azure_constraints = record {
  min_part_size = pos 0;
  max_part_size = pos azure_max_part_size;
  max_parts = max_part_number;
  resumable = true;
}

-- The test of EscapeKey, for a key of so many bytes and a position of it.
azure_should_escape : ℕ → List ℕ → ℕ → Bool
unfolding is_control
azure_should_escape bytes r i =
    is_rune r i 92
    || (is_control r i
        || is_rune r i 34
        || is_rune r i 35
        || is_rune r i 37
        || is_rune r i 63
        || is_rune r i 127)
    || (i + 1 == bytes && is_rune r i 47)
    || (ltb 1 i && is_rune r i 47 && is_rune r (i - 1) 46 && is_rune r (i - 2) 46)

unfoldable pub azure_escape_key : ((List ℕ → ℕ → Bool) → Bytes → Bytes) → Bytes → Bytes
unfolding azure_should_escape
azure_escape_key hex_escape key = hex_escape (azure_should_escape (length key)) key

module _ (base64 : Base64) where
  open base64 use {encode, decode}

  -- blockID
  unfoldable pub block_id : ℤ → Bytes
  block_id number = encode (format_padded block_id_width number)

  -- partNumber; an error is `none`
  unfoldable pub part_number : Bytes → Option ℤ
  part_number id = elim (decode id) [ none ↦ none | some raw ↦ parse_int (trim_zeros raw) ]
