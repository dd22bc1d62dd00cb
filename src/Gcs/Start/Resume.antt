-- ===== src/Gcs/Start/Resume.antt =====
-- NewUploader and Open: an upload that is opened again.
use gocloud_ext.Common.{
  ℕ, Bytes, Bool, false, List, [], ◌∷◌, Option, ok, eqb, contains, ◌≡◌, refl, arith,
}
use gocloud_ext.Multipart.{Options, Location}
use gocloud_ext.Upload.{hex_encode}
use gocloud_ext.Gcs.{GcsUploader, gcs_staging_infix}
use gocloud_ext.Gcs.Start.{gcs_uploader, gcs_new_uploader, gcs_open}

encoded-ne-nil : (x : ℕ) (r : Bytes) → eqb (hex_encode (x ∷ r)) [] ≡ false
unfolding hex_encode eqb
encoded-ne-nil x r = refl

module _ (hex_escape : (List ℕ → ℕ → Bool) → Bytes → Bytes) {Err : Type 0} where
  -- What a NewUploader that returns an uploader has checked.
  gcs_new_uploader-eq-ok :
      (is_nil : Bool) (loc : Location) (key : Bytes) (opts : Option Options) (buf : Bytes)
      (u : GcsUploader)
      → gcs_new_uploader hex_escape {Err = Err} is_nil loc key opts (ok buf) ≡ ok u
      → (is_nil ≡ false)
        × (eqb loc.bucket [] ≡ false)
        × (eqb key [] ≡ false)
        × (contains key gcs_staging_infix ≡ false)
        × (u ≡ gcs_uploader hex_escape loc key (hex_encode buf) opts)
  unfolding gcs_new_uploader
  gcs_new_uploader-eq-ok is_nil loc key opts buf u h =
      (ground arith, ground arith, ground arith, ground arith, ground arith)

  -- Open with the ID of an uploader that NewUploader returned, the same location, key and options,
  -- returns that uploader.
  pub gcs_open-gcs_new_uploader :
      (is_nil : Bool) (loc : Location) (key : Bytes) (opts : Option Options) (x : ℕ) (r : Bytes)
      (u : GcsUploader)
      → gcs_new_uploader hex_escape {Err = Err} is_nil loc key opts (ok (x ∷ r)) ≡ ok u
      → gcs_open hex_escape {Err = Err} is_nil loc key u.upload_id opts ≡ ok u
  unfolding gcs_open gcs_uploader
  gcs_open-gcs_new_uploader is_nil loc key opts x r u h =
      let (a, b, d, e, same) = gcs_new_uploader-eq-ok is_nil loc key opts (x ∷ r) u h in
      rw (same, a, b, d, encoded-ne-nil x r) refl
