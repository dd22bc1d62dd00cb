-- ===== src/S3/Start.antt =====
-- NewUploader and Open of blob/multipart/s3mp/s3mp.go. HexEscape and strings.ToLower are parameters.
pub mod Resume
use gocloud_ext.Common.{
  ℕ, pos, Bytes, Bool, false, ◌||◌, if◌then◌else◌, List, [], ◌∷◌, Option, none, some, Result, ok,
  err, eqb,
}
use gocloud_ext.Metadata.{lowercase_keys}
use gocloud_ext.Multipart.{Options, Location, object_name}
use gocloud_ext.S3.{
  Client, CreateInput, ListPartsInput, S3Uploader, S3Error, nil_client, no_bucket, empty_key,
  upload_not_found, calling, s3_escape_key, to_string, is_no_such_upload,
}

-- A field that is set only when the option is not empty.
abbrev pub unless_empty : Bytes → Option Bytes
unless_empty s = if eqb s [] then none else some s

-- `if len(opts.Metadata) > 0`
create_metadata : (Bytes → Bytes) → List (Bytes × Bytes) → Option (List (Bytes × Bytes))
unfolding lowercase_keys
create_metadata to_lower [] = none
create_metadata to_lower (p ∷ m) = some (lowercase_keys to_lower (p ∷ m))

create_input : (Bytes → Bytes) → Bytes → Bytes → Option Options → CreateInput
unfolding create_metadata
create_input to_lower bucket name none = record {
  bucket = bucket;
  key = name;
  content_type = none;
  cache_control = none;
  content_disposition = none;
  content_encoding = none;
  content_language = none;
  metadata = none;
}
create_input to_lower bucket name (some o) = record {
  bucket = bucket;
  key = name;
  content_type = unless_empty o.content_type;
  cache_control = unless_empty o.cache_control;
  content_disposition = unless_empty o.content_disposition;
  content_encoding = unless_empty o.content_encoding;
  content_language = unless_empty o.content_language;
  metadata = create_metadata to_lower o.metadata;
}

-- The request for one part, which shows that the upload exists.
unfoldable pub probe_input : Location → Bytes → Bytes → ListPartsInput
probe_input loc name id = record {
  bucket = loc.bucket;
  key = name;
  upload_id = id;
  part_number_marker = none;
  max_parts = some (pos 1);
}

module _ (c : Client) (hex_escape : (List ℕ → ℕ → Bool) → Bytes → Bytes) where
  open c use {State, Err, create, list_parts}

  -- NewUploader: whether the client is nil, the location, the key and the options.
  unfoldable pub s3_new_uploader :
      (Bytes → Bytes)
      → Bool
      → Location
      → Bytes
      → Option Options
      → State
      → Result (S3Error Err) S3Uploader × State
  unfolding create_input
  s3_new_uploader to_lower is_nil loc key opts s =
      let name = object_name loc key (some (s3_escape_key hex_escape)) in
      let (created, s') = create (create_input to_lower loc.bucket name opts) s in
      if is_nil
      then (err nil_client, s)
      else if eqb loc.bucket []
      then (err no_bucket, s)
      else if eqb key []
      then (err empty_key, s)
      else elim created [
        | err e ↦ (err (calling e), s')
        | ok id ↦ (
          ok (record { location = loc; key = name; upload_id = to_string id; finished = false }),
          s',
        )
      ]

  -- Open
  unfoldable pub s3_open : Bool → Location → Bytes → Bytes → State → Result (S3Error Err) S3Uploader
  s3_open is_nil loc key id s =
      let name = object_name loc key (some (s3_escape_key hex_escape)) in
      if is_nil
      then err nil_client
      else if eqb loc.bucket []
      then err no_bucket
      else if eqb key [] || eqb id []
      then err upload_not_found
      else elim (list_parts (probe_input loc name id) s) [
        | err e ↦ if is_no_such_upload c e then err upload_not_found else err (calling e)
        | ok out ↦ ok (record { location = loc; key = name; upload_id = id; finished = false })
      ]
