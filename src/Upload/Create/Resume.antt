-- ===== src/Upload/Create/Resume.antt =====
-- NewUploader and Open: the guards, and an upload that is opened again.
use mathlib.Core.Path.{subst}
use gocloud_ext.Common.{
  ℕ, ◌∷◌, Bytes, Bool, true, false, ◌⊎◌, [], Option, none, some, Result, ok, eqb, eqb_iff, eqb_refl,
  contains, ◌≡◌, ◌≢◌, refl, arith, Result-cases, inl, inr, ap,
}
use gocloud_ext.Multipart.{Options}
use gocloud_ext.Blob.{Bucket}
use gocloud_ext.Blob.Laws.{Laws}
use gocloud_ext.Upload.{
  Uploader, Manifest, manifest_key, manifest_options, hex_encode, staging_infix, staging_prefix,
}
use gocloud_ext.Upload.Create.{new_uploader, open_upload, start_upload}

abbrev fresh : Bytes → Option Options → Bytes → Uploader
fresh key opts id = record { key = key; upload_id = id; opts = opts; finished = false }

hex_encode-ne-nil : (c : ℕ) (r : Bytes) → eqb (hex_encode (c ∷ r)) [] ≡ false
unfolding hex_encode eqb
hex_encode-ne-nil c r = refl

module _ (b : Bucket) (marshal : Manifest → Result b.Err Bytes) where
  open b use {State, Err, write_all}

  -- What `start_upload` did when it returned an uploader.
  start_upload-eq-ok :
      (key : Bytes) (opts : Option Options) (id : Bytes) (s : State) (u : Uploader)
      → (start_upload b marshal key opts id s).0 ≡ ok u
      → (u ≡ fresh key opts id)
        × (body : Bytes) × (marshal (record { key = key; options = opts }) ≡ ok body)
        × (write_all (manifest_key u) body (some manifest_options) s
            ≡ (none, (start_upload b marshal key opts id s).1))
  unfolding start_upload
  start_upload-eq-ok key opts id s u h =
      elim (Result-cases (marshal (record { key = key; options = opts }))) [
        | inl (body, e) ↦ (ground arith, body, e, ground arith)
        | inr (x, e) ↦ absurd (ground arith)
      ]

  -- A NewUploader that returns an uploader passed the guards.
  new_uploader-eq-start :
      (is_nil : Bool) (key : Bytes) (opts : Option Options) (r : Bytes) (s : State) (u : Uploader)
      → (new_uploader b marshal is_nil key opts (ok r) s).0 ≡ ok u
      → (eqb key [] ≡ false)
        × (contains key staging_infix ≡ false)
        × (new_uploader b marshal is_nil key opts (ok r) s
            ≡ start_upload b marshal key opts (hex_encode r) s)
  unfolding new_uploader
  new_uploader-eq-start is_nil key opts r s u h = (ground arith, ground arith, ground arith)

  -- A nil bucket, an empty key and a key that contains the reserved infix are refused before anything
  -- is written.
  pub new_uploader_refused :
      (is_nil : Bool) (key : Bytes) (opts : Option Options) (random : Result Err Bytes) (s : State)
      → (is_nil ≡ true) ⊎ ((key ≡ []) ⊎ (contains key staging_infix ≡ true))
      → ((u : Uploader) → (new_uploader b marshal is_nil key opts random s).0 ≢ ok u)
        × ((new_uploader b marshal is_nil key opts random s).1 ≡ s)
  unfolding new_uploader
  new_uploader_refused is_nil key opts random s h =
      ((λ u. ground (arith, eqb_iff key [])), ground (arith, eqb_iff key []))

module _ (b : Bucket) (laws : Laws b)
    (reads_all : (k : Bytes) (s : b.State) (c : Bytes)
      → laws.stored s k ≡ some c
      → b.read_all k s ≡ ok c) where
  open b use {State, Err}
  open laws use {stored, write_all-stored_self}

  open_upload_stored :
      (unmarshal : Bytes → Result Err Manifest) (key : Bytes) (opts : Option Options)
      (id body : Bytes) (t : State)
      → eqb key [] ≡ false
      → eqb id [] ≡ false
      → stored t (manifest_key (fresh key opts id)) ≡ some body
      → unmarshal body ≡ ok (record { key = key; options = opts })
      → open_upload b unmarshal false key id t ≡ ok (fresh key opts id)
  unfolding open_upload manifest_key staging_prefix
  open_upload_stored unmarshal key opts id body t k i there decoded =
      ground (arith, reads_all (manifest_key (fresh key opts id)) t body there, eqb_refl key)

  -- On a bucket whose ReadAll of an object that is there does not fail, and where the encoding of the
  -- key and the options is decoded to them, Open returns the uploader that NewUploader returned: its
  -- key, its ID and its options.
  pub open_upload-new_uploader :
      (marshal : Manifest → Result Err Bytes) (unmarshal : Bytes → Result Err Manifest)
      → (key : Bytes) (opts : Option Options) (c : ℕ) (r : Bytes) (s : State) (u : Uploader)
      → ((body : Bytes)
          → marshal (record { key = key; options = opts }) ≡ ok body
          → unmarshal body ≡ ok (record { key = key; options = opts }))
      → (new_uploader b marshal false key opts (ok (c ∷ r)) s).0 ≡ ok u
      → open_upload b unmarshal false key u.upload_id
          (new_uploader b marshal false key opts (ok (c ∷ r)) s).1
        ≡ ok u
  open_upload-new_uploader marshal unmarshal key opts c r s u decodes h =
      let (k, free, same) = new_uploader-eq-start b marshal false key opts (c ∷ r) s u h in
      let id = hex_encode (c ∷ r) in
      let (e, body, encoded, written) =
        start_upload-eq-ok b marshal key opts id s u (rw same at h) in
      let t = (start_upload b marshal key opts id s).1 in
      let there : stored t (manifest_key u) ≡ some body =
        subst (λ (x : Option Err × State). stored x.1 (manifest_key u) ≡ some body) written
          (write_all-stored_self (manifest_key u) body (some manifest_options) s
            (ap (λ (x : Option Err × State). x.0) written)) in
      rw (same, e)
        (open_upload_stored unmarshal key opts id body t k (hex_encode-ne-nil c r) (rw e at there)
          (decodes body encoded))
