-- ===== src/Azure/Start.antt =====
-- NewUploader and Open of blob/multipart/azmp/azmp.go. HexEscape is a parameter.
pub mod Resume
use gocloud_ext.Common.{
  ℕ, Bytes, Bool, false, ◌&&◌, not, if◌then◌else◌, List, [], Option, some, Result, ok, err, eqb,
}
use gocloud_ext.Multipart.{Options, Location, object_name}
use gocloud_ext.Azure.{
  AzureUploader, AzureError, nil_client, empty_key, key_required, foreign_upload, azure_escape_key,
}

-- UploadID
abbrev pub azure_upload_id : AzureUploader → Bytes
azure_upload_id u = u.name

module _ (hex_escape : (List ℕ → ℕ → Bool) → Bytes → Bytes) {Err : Type 0} where
  -- NewUploader: whether the client is nil, the location, the key and the options.
  unfoldable pub azure_new_uploader :
      Bool → Location → Bytes → Option Options → Result (AzureError Err) AzureUploader
  azure_new_uploader is_nil loc key opts =
      if is_nil
      then err nil_client
      else if eqb key []
      then err empty_key
      else ok (record {
        name = object_name loc key (some (azure_escape_key hex_escape));
        opts = opts;
        finished = false;
      })

  -- Open
  unfoldable pub azure_open :
      Bool → Location → Bytes → Bytes → Option Options → Result (AzureError Err) AzureUploader
  azure_open is_nil loc key id opts =
      let name = object_name loc key (some (azure_escape_key hex_escape)) in
      if is_nil
      then err nil_client
      else if eqb key []
      then err key_required
      else if not (eqb id []) && not (eqb id name)
      then err (foreign_upload id key)
      else ok (record { name = name; opts = opts; finished = false })
