-- ===== src/Azure/Start/Resume.antt =====
-- Open: which upload IDs it accepts for a key.
use gocloud_ext.Common.{
  ℕ, Bytes, Bool, List, [], Option, ok, err, eqb, ◌≡◌, arith, if◌then◌else◌, ◌||◌,
}
use gocloud_ext.Multipart.{Options, Location}
use gocloud_ext.Azure.{AzureUploader, foreign_upload}
use gocloud_ext.Azure.Start.{azure_new_uploader, azure_open, azure_upload_id}

module _ (hex_escape : (List ℕ → ℕ → Bool) → Bytes → Bytes) {Err : Type 0} where
  -- For a key for which NewUploader returns an uploader, Open returns that uploader if the upload ID is
  -- empty or the ID of that uploader, and refuses any other ID as that of another upload.
  pub azure_open-azure_new_uploader :
      (is_nil : Bool) (loc : Location) (key id : Bytes) (opts : Option Options) (u : AzureUploader)
      → azure_new_uploader hex_escape {Err = Err} is_nil loc key opts ≡ ok u
      → azure_open hex_escape {Err = Err} is_nil loc key id opts
        ≡ (if eqb id [] || eqb id (azure_upload_id u) then ok u else err (foreign_upload id key))
  unfolding azure_new_uploader azure_open
  azure_open-azure_new_uploader is_nil loc key id opts u h = ground arith
