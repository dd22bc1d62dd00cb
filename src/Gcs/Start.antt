-- ===== src/Gcs/Start.antt =====
-- NewUploader and Open of blob/multipart/gcsmp/gcsmp.go. HexEscape and what crypto/rand reads are
-- parameters.
pub mod Resume
use gocloud_ext.Common.{
  ℕ, Bytes, Bool, false, ◌||◌, if◌then◌else◌, List, [], Option, some, Result, ok, err, eqb,
  contains,
}
use gocloud_ext.Multipart.{Options, Location, object_name}
use gocloud_ext.Upload.{hex_encode}
use gocloud_ext.Gcs.{
  GcsUploader, GcsError, nil_client, no_bucket, empty_key, reserved_infix, generating_id,
  upload_not_found, gcs_staging_infix, gcs_escape_key,
}

module _ (hex_escape : (List ℕ → ℕ → Bool) → Bytes → Bytes) where
  -- The uploader that NewUploader and Open return.
  unfoldable pub gcs_uploader : Location → Bytes → Bytes → Option Options → GcsUploader
  gcs_uploader loc key id opts = record {
    bucket = loc.bucket;
    name = object_name loc key (some (gcs_escape_key hex_escape));
    upload_id = id;
    opts = opts;
    finished = false;
  }

  module _ {Err : Type 0} where
    -- NewUploader: whether the client is nil, and what crypto/rand reads.
    unfoldable pub gcs_new_uploader :
        Bool
        → Location
        → Bytes
        → Option Options
        → Result Err Bytes
        → Result (GcsError Err) GcsUploader
    gcs_new_uploader is_nil loc key opts random =
        if is_nil
        then err nil_client
        else if eqb loc.bucket []
        then err no_bucket
        else if eqb key []
        then err empty_key
        else if contains key gcs_staging_infix
        then err (reserved_infix key)
        else elim random [
          | err e ↦ err (generating_id e)
          | ok buf ↦ ok (gcs_uploader loc key (hex_encode buf) opts)
        ]

    -- Open
    unfoldable pub gcs_open :
        Bool → Location → Bytes → Bytes → Option Options → Result (GcsError Err) GcsUploader
    gcs_open is_nil loc key id opts =
        if is_nil
        then err nil_client
        else if eqb loc.bucket []
        then err no_bucket
        else if eqb key [] || eqb id []
        then err upload_not_found
        else ok (gcs_uploader loc key id opts)
