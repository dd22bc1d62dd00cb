-- ===== src/Upload/Staging.antt =====
-- The keys of an upload: what lies under its staging prefix, and what does not.
use gocloud_ext.Common.{
  ℤ, ◌<◌, Bytes, codes, ◌++◌, length, length-append, true, false, ◌≡◌, ap, eqb, eqb_iff, has_prefix,
  has_prefix-append, has_prefix_iff, arith, Bool-cases, inl, inr, drop,
}
use gocloud_ext.Decimal.{format_padded}
use gocloud_ext.Upload.{
  Uploader, staging_prefix, manifest_key, part_key, manifest_name, staging_infix, part_name_width,
}

pub part_key-prefix : (u : Uploader) (n : ℤ) → has_prefix (part_key u n) (staging_prefix u) ≡ true
unfolding part_key
part_key-prefix u n = has_prefix-append (staging_prefix u) (format_padded part_name_width n)

pub manifest_key-prefix : (u : Uploader) → has_prefix (manifest_key u) (staging_prefix u) ≡ true
unfolding manifest_key
manifest_key-prefix u = has_prefix-append (staging_prefix u) manifest_name

longer : (u : Uploader) → length u.key < length (staging_prefix u)
unfolding staging_prefix
longer u = omega (
  arith,
  length-append u.key (staging_infix ++ (u.upload_id ++ codes "/")),
  length-append staging_infix (u.upload_id ++ codes "/"),
)

-- The destination does not lie under the staging prefix of its upload.
pub key-not_staged : (u : Uploader) → has_prefix u.key (staging_prefix u) ≡ false
key-not_staged u = elim (Bool-cases (has_prefix u.key (staging_prefix u))) [
  | inl h ↦
      let e = ap length (has_prefix_iff u.key (staging_prefix u) h) in
      absurd (
        omega (
          arith,
          e,
          longer u,
          length-append (staging_prefix u) (drop (length (staging_prefix u)) u.key),
        ))
  | inr h ↦ h
]

-- A key with a prefix is not one without it.
pub eqb_of_prefix :
    (p k j : Bytes) → has_prefix k p ≡ true → has_prefix j p ≡ false → eqb k j ≡ false
eqb_of_prefix p k j h n = elim (Bool-cases (eqb k j)) [
  | inl e ↦ absurd (ground (arith, (eqb_iff k j).0 e))
  | inr e ↦ e
]
