-- ===== src/Upload.antt =====
-- blob/multipart/bucket.go: the uploader that stages parts as objects of a blob.Bucket.
-- The bucket, the JSON codec of the manifest and the random bytes of an upload ID are parameters.
-- A method takes the uploader and the bucket's state and returns its result with the new ones. The
-- listing that a loop walks is what the iterator yields from the state in which List was called.
pub mod Create
pub mod Stage
pub mod Finish
pub mod Staging
pub mod Examples
use gocloud_ext.Common.{
  ℤ, pos, ℕ, ◌+◌, ◌-◌, ◌/◌, ◌%◌, ltb, Bytes, codes, Bool, true, false, if◌then◌else◌, List, [], ◌∷◌,
  ◌++◌, Option, none, some, eqb,
}
use gocloud_ext.Multipart.{Constraints, Options, PartError, max_part_number}
use gocloud_ext.Decimal.{format_padded}
use gocloud_ext.Blob.{WriterOptions}

abbrev pub staging_infix : Bytes
staging_infix = codes ".gocdkmpu."

abbrev pub manifest_name : Bytes
manifest_name = codes "manifest.json"

abbrev pub part_name_width : ℕ
part_name_width = 5

pub record Manifest : Type 0 where
  pub key : Bytes
  pub options : Option Options

-- `bucketUploader`, less the bucket.
pub record Uploader : Type 0 where
  pub key : Bytes
  pub upload_id : Bytes
  pub opts : Option Options
  pub finished : Bool

-- The errors of bucket.go; the first two constructors wrap ErrUploadNotFound.
pub data Error (E : Type 0) : Type 0 where
  upload_not_found : Bytes → Bytes → Error E
  other_key : Bytes → Bytes → Bytes → Error E
  nil_bucket : Error E
  empty_key : Error E
  reserved_infix : Bytes → Error E
  generating_id : E → Error E
  marshaling_manifest : E → Error E
  writing_manifest : E → Error E
  unreadable_manifest : Bytes → E → Error E
  closed : Error E
  invalid_parts : PartError → Error E
  foreign_tag : ℤ → Bytes → Bytes → Error E
  missing_part : ℤ → Bytes → E → Error E
  copying_part : ℤ → E → Error E
  driver : E → Error E

-- `errors.Is(err, ErrUploadNotFound)`
abbrev pub is_upload_not_found : {E : Type 0} → Error E → Bool
is_upload_not_found (upload_not_found id k) = true
is_upload_not_found (other_key id k k') = true
is_upload_not_found _ = false

hex_digit : ℕ → ℕ
hex_digit n = if ltb n 10 then b'0' + n else b'a' + (n - 10)

-- hex.EncodeToString
unfoldable pub hex_encode : Bytes → Bytes
unfolding hex_digit
hex_encode [] = []
hex_encode (c ∷ s) = hex_digit (c / 16) ∷ hex_digit (c % 16) ∷ hex_encode s

unfoldable pub staging_prefix : Uploader → Bytes
staging_prefix u = u.key ++ (staging_infix ++ (u.upload_id ++ codes "/"))

unfoldable pub manifest_key : Uploader → Bytes
manifest_key u = staging_prefix u ++ manifest_name

unfoldable pub part_key : Uploader → ℤ → Bytes
part_key u number = staging_prefix u ++ format_padded part_name_width number

abbrev pub constraints : Constraints
constraints = record {
  min_part_size = pos 0;
  max_part_size = pos 0;
  max_parts = max_part_number;
  resumable = true;
}

unfoldable pub writer_options : Uploader → Option WriterOptions
writer_options u = elim u.opts [
  | none ↦ none
  | some o ↦ some (record {
    content_type = o.content_type;
    cache_control = o.cache_control;
    content_disposition = o.content_disposition;
    content_encoding = o.content_encoding;
    content_language = o.content_language;
    metadata = o.metadata;
    content_md5 = o.content_md5;
    disable_content_type_detection = eqb o.content_type [];
  })
]

-- `blob.WriterOptions{ContentType: "application/json"}`
abbrev pub manifest_options : WriterOptions
manifest_options = record {
  content_type = codes "application/json";
  cache_control = [];
  content_disposition = [];
  content_encoding = [];
  content_language = [];
  metadata = [];
  content_md5 = [];
  disable_content_type_detection = false;
}
