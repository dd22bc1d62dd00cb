-- ===== src/S3/Parts/Sent.antt =====
-- What an UploadPart that returns a part has sent.
use gocloud_ext.Common.{
  ℤ, pos, ◌≤ℤ◌, ◌≤◌, Bytes, length, none, some, Result, ok, ◌≡◌, refl, arith, [], ◌⊎◌, Option-cases,
  Result-cases, inl, inr,
}
use gocloud_ext.Multipart.{Part, validate_part_number}
use gocloud_ext.Multipart.Numbers.{validate_part_number_iff}
use gocloud_ext.S3.{Client, S3Uploader, UploadPartInput, max_part_size, s3_constraints, to_int32}
use gocloud_ext.S3.Parts.{send_part, upload_input, s3_upload_part}

-- A request for the upload that carries the bytes, all of them, under the number.
pub record IsRequestOf (u : S3Uploader) (number : ℤ) (bytes : Bytes) (i : UploadPartInput)
    : Type 0 where
  pub bucket : i.bucket ≡ u.location.bucket
  pub key : i.key ≡ u.key
  pub upload : i.upload_id ≡ u.upload_id
  pub same_number : i.part_number ≡ number
  pub same_body : i.body ≡ bytes
  pub length : i.content_length ≡ pos (length bytes)

-- The part of a source: its number is one that S3 has, and it was sent in a request with the
-- whole source.
abbrev pub IsPartOf : (c : Client) → S3Uploader → ℤ → Bytes → c.State → Part → Type 0
IsPartOf c u number bytes s p =
    (pos 1 ≤ℤ number)
    × (number ≤ℤ pos 10000)
    × (length bytes ≤ max_part_size)
    × (p.number ≡ number)
    × (p.size ≡ pos (length bytes))
    × (i : UploadPartInput) × IsRequestOf u number bytes i
    × ((c.upload_part i s).0 ≡ ok (some p.tag) ⊎ ((p.tag ≡ []) × ((c.upload_part i s).0 ≡ ok none)))

to_int32_small : (n : ℤ) → pos 1 ≤ℤ n → n ≤ℤ pos 10000 → to_int32 n ≡ n
unfolding to_int32
to_int32_small n h k = ground arith

module _ (c : Client) where
  send_part-ok :
      (u : S3Uploader) (number : ℤ) (bytes : Bytes) (s : c.State) (p : Part)
      → (send_part c u number bytes s).0 ≡ ok p
      → (length bytes ≤ max_part_size) × (p.number ≡ number) × (p.size ≡ pos (length bytes))
  unfolding send_part
  send_part-ok u number bytes s p h = (ground arith, ground arith, ground arith)

  send_part-tag :
      (u : S3Uploader) (number : ℤ) (bytes : Bytes) (s : c.State) (p : Part)
      → (send_part c u number bytes s).0 ≡ ok p
      → ((c.upload_part (upload_input u number bytes) s).0 ≡ ok (some p.tag)
          ⊎ ((p.tag ≡ []) × ((c.upload_part (upload_input u number bytes) s).0 ≡ ok none)))
  unfolding send_part
  send_part-tag u number bytes s p h =
      elim (Result-cases (c.upload_part (upload_input u number bytes) s).0) [
        | inr (e, r) ↦ absurd (ground arith)
        | inl (etag, r) ↦ elim (Option-cases etag) [
          | inl n ↦ inr (ground arith, ground arith)
          | inr (tag, n) ↦ inl (ground arith)
        ]
      ]

  -- An UploadPart that returns a part accepted a number from 1 to 10000, read the whole source, of at
  -- most 5 GiB, and sent S3 a request for the upload with that number, which the conversion to int32 does
  -- not change, and with the bytes of the source and their count; the part has the number, the byte
  -- count and the ETag that S3 answered, or the empty tag where it answered none.
  pub s3_upload_part-sent :
      (u : S3Uploader) (number : ℤ) (body : Result c.Err Bytes) (s : c.State) (p : Part)
      → (s3_upload_part c u number body s).0 ≡ ok p
      → (bytes : Bytes) × (body ≡ ok bytes) × IsPartOf c u number bytes s p
  unfolding s3_upload_part upload_input
  s3_upload_part-sent u number body s p h =
      elim (Option-cases (validate_part_number number s3_constraints)) [
        | inr (e, v) ↦ absurd (ground arith)
        | inl v ↦ elim (Result-cases body) [
          | inr (e, r) ↦ absurd (ground arith)
          | inl (bytes, r) ↦
              let (low, high, _) = (validate_part_number_iff number s3_constraints).0 v in
              let (size, same, count) = send_part-ok u number bytes s p (ground arith) in
              (
                bytes,
                r,
                (
                  low,
                  high,
                  size,
                  same,
                  count,
                  upload_input u number bytes,
                  record {
                    bucket = refl;
                    key = refl;
                    upload = refl;
                    same_number = to_int32_small number low high;
                    same_body = refl;
                    length = refl;
                  },
                  send_part-tag u number bytes s p (ground arith),
                ),
              )
        ]
      ]
