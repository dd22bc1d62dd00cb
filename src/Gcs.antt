-- ===== src/Gcs.antt =====
-- blob/multipart/gcsmp/gcsmp.go: the uploader that stages parts as objects of Google Cloud Storage
-- and composes them there. The client is a parameter: a record of the calls that the code makes of
-- cloud.google.com/go/storage, each with the name of the bucket that its handle was made for.
pub mod Start
pub mod Parts
pub mod Compose
pub mod Finish
pub mod Laws
pub mod Memory
pub mod Examples
use gocloud_ext.Common.{
  ℤ, pos, ℕ, ◌-◌, Bytes, codes, Bool, true, ◌&&◌, ◌||◌, ltb, List, [], ◌++◌, Option, Result,
}
use gocloud_ext.Multipart.{Constraints, Options, PartError, max_part_number}
use gocloud_ext.Blob.{Listing}
use gocloud_ext.Decimal.{format_padded}
use gocloud_ext.Escape.{is_rune}

-- The fields of storage.ObjectAttrs that applyAttrs sets; a nil map is `none`.
pub record ObjectAttrs : Type 0 where
  pub content_type : Bytes
  pub cache_control : Bytes
  pub content_disposition : Bytes
  pub content_encoding : Bytes
  pub content_language : Bytes
  pub metadata : Option (List (Bytes × Bytes))

-- API
pub record GcsClient : Type 1 where
  pub State : Type 0
  pub Err : Type 0
  pub Writer : Type 0
  -- errors.Is(err, storage.ErrObjectNotExist)
  pub is_not_exist : Err → Bool
  -- Object(name).NewWriter, with Write and Close of the writer
  pub new_writer : Bytes → Bytes → State → Writer × State
  pub write : Writer → Bytes → State → Option Err × State
  pub close : Writer → State → Option Err × State
  -- Object(name).Delete
  pub delete : Bytes → Bytes → State → Option Err × State
  -- Objects, with a prefix
  pub list : Bytes → Bytes → State → Listing Err
  -- Object(name).ComposerFrom(sources...).Run
  pub compose : Bytes → Bytes → ObjectAttrs → List Bytes → State → Option Err × State
  -- Object(name).CopierFrom(source).Run
  pub copy : Bytes → Bytes → ObjectAttrs → Bytes → State → Option Err × State

-- uploader; its bucket handle is the name of the bucket
pub record GcsUploader : Type 0 where
  pub bucket : Bytes
  pub name : Bytes
  pub upload_id : Bytes
  pub opts : Option Options
  pub finished : Bool

pub data GcsError (E : Type 0) : Type 0 where
  nil_client : GcsError E
  no_bucket : GcsError E
  empty_key : GcsError E
  reserved_infix : Bytes → GcsError E
  generating_id : E → GcsError E
  upload_not_found : GcsError E
  closed : GcsError E
  invalid_parts : PartError → GcsError E
  uploading_part : ℤ → E → GcsError E
  closing_part : ℤ → E → GcsError E
  composing_intermediate : ℕ → ℕ → E → GcsError E
  finalising : Bytes → E → GcsError E
  composing : Bytes → E → GcsError E
  calling : E → GcsError E
  out_of_fuel : GcsError E

abbrev pub max_compose_sources : ℕ
max_compose_sources = 32

abbrev pub gcs_staging_infix : Bytes
gcs_staging_infix = codes ".gocdkmpu."

abbrev pub gcs_part_name_width : ℕ
gcs_part_name_width = 5

-- The test of EscapeKey, for a position of the key.
gcs_should_escape : List ℕ → ℕ → Bool
gcs_should_escape r i =
    (is_rune r i 10 || is_rune r i 13)
    || (ltb 1 i && is_rune r i 47 && is_rune r (i - 1) 46 && is_rune r (i - 2) 46)

unfoldable pub gcs_escape_key : ((List ℕ → ℕ → Bool) → Bytes → Bytes) → Bytes → Bytes
unfolding gcs_should_escape
gcs_escape_key hex_escape key = hex_escape gcs_should_escape key

-- stagingPrefix
unfoldable pub gcs_staging_prefix : GcsUploader → Bytes
gcs_staging_prefix u = u.name ++ (gcs_staging_infix ++ (u.upload_id ++ codes "/"))

-- partName
unfoldable pub part_name : GcsUploader → ℤ → Bytes
part_name u number = gcs_staging_prefix u ++ format_padded gcs_part_name_width number

abbrev pub gcs_constraints : Constraints
gcs_constraints = record {
  min_part_size = pos 0;
  max_part_size = pos 0;
  max_parts = max_part_number;
  resumable = true;
}
