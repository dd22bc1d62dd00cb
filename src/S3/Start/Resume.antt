-- ===== src/S3/Start/Resume.antt =====
-- An S3 upload that is opened again.
use gocloud_ext.Common.{ap, ◌∙◌, ℕ, Bytes, Bool, false, List, [], Option, some, ok, eqb, ◌≡◌, arith}
use gocloud_ext.Multipart.{Options, Location, object_name}
use gocloud_ext.S3.{Client, S3Uploader, ListPartsOutput, s3_escape_key}
use gocloud_ext.S3.Start.{probe_input, s3_new_uploader, s3_open}

module _ (c : Client) (hex_escape : (List ℕ → ℕ → Bool) → Bytes → Bytes) where
  -- What NewUploader returns: the guards passed, and S3 named the upload.
  s3_new_uploader-ok :
      (to_lower : Bytes → Bytes) (is_nil : Bool) (loc : Location) (key : Bytes)
      (opts : Option Options) (s : c.State) (u : S3Uploader)
      → (s3_new_uploader c hex_escape to_lower is_nil loc key opts s).0 ≡ ok u
      → (is_nil ≡ false)
        × (eqb loc.bucket [] ≡ false)
        × (eqb key [] ≡ false)
        × (record {
          location = loc;
          key = object_name loc key (some (s3_escape_key hex_escape));
          upload_id = u.upload_id;
          finished = false;
        }
            ≡ u)
  unfolding s3_new_uploader
  s3_new_uploader-ok to_lower is_nil loc key opts s u h =
      (ground arith, ground arith, ground arith, ground arith)

  -- Where S3 named the upload, and lists its parts, Open with the location, the key and the ID
  -- returns the uploader that NewUploader returned.
  pub s3_open-s3_new_uploader :
      (to_lower : Bytes → Bytes) (is_nil : Bool) (loc : Location) (key : Bytes)
      (opts : Option Options) (s t : c.State) (u : S3Uploader) (out : ListPartsOutput)
      → (s3_new_uploader c hex_escape to_lower is_nil loc key opts s).0 ≡ ok u
      → eqb u.upload_id [] ≡ false
      → c.list_parts (probe_input loc u.key u.upload_id) t ≡ ok out
      → s3_open c hex_escape is_nil loc key u.upload_id t ≡ ok u
  unfolding s3_open
  s3_open-s3_new_uploader to_lower is_nil loc key opts s t u out h named there =
      let (present, bucket, given, same) = s3_new_uploader-ok to_lower is_nil loc key opts s u h in
      let there' : c.list_parts
            (probe_input loc (object_name loc key (some (s3_escape_key hex_escape))) u.upload_id) t
          ≡ ok out =
        ap (λ v. c.list_parts (probe_input loc (S3Uploader.key v) u.upload_id) t) same ∙ there in
      rw (present, bucket, given, named, there') (ap ok same)
