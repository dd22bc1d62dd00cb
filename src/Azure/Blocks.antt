-- ===== src/Azure/Blocks.antt =====
-- blockID and partNumber of blob/multipart/azmp/azmp.go: what one makes, the other reads.
use mathlib.Core.Option.{some-injective}
use gocloud_ext.Common.{
  ℕ, ℤ, pos, negsuc, ◌≤◌, ◌<◌, ◌^◌, Bytes, length, none, some, ◌≡◌, sym, ap, ◌∙◌, arith,
}
use gocloud_ext.Multipart.{validate_part_number}
use gocloud_ext.Multipart.Numbers.{validate_part_number_iff}
use gocloud_ext.Decimal.{format_padded}
use gocloud_ext.Decimal.RoundTrip.{length-format_padded_small}
use gocloud_ext.Decimal.Trimmed.{parse_int-trim_zeros}
use gocloud_ext.Azure.{Base64, block_id, part_number, azure_constraints}

module _ (base64 : Base64) (decodes : (s : Bytes) → base64.decode (base64.encode s) ≡ some s) where
  part_number-pos :
      (n : ℕ) → 1 ≤ n → n < 2 ^ 63 → part_number base64 (block_id base64 (pos n)) ≡ some (pos n)
  unfolding part_number block_id
  part_number-pos n p h =
      rw (decodes (format_padded 10 (pos n)), part_number) (parse_int-trim_zeros 10 n p h)

  -- The ID of the block of a number that ValidatePartNumber accepts decodes to ten bytes, and the
  -- number is read back from it.
  pub part_number-block_id :
      (number : ℤ)
      → validate_part_number number azure_constraints ≡ none
      → (part_number base64 (block_id base64 number) ≡ some number)
        × (raw : Bytes) × (base64.decode (block_id base64 number) ≡ some raw)
        × (length raw ≡ 10)
  unfolding block_id
  part_number-block_id (pos n) h =
      let (low, high, _) = (validate_part_number_iff (pos n) azure_constraints).0 h in
      (
        part_number-pos n (omega arith) (omega arith),
        format_padded 10 (pos n),
        decodes (format_padded 10 (pos n)),
        length-format_padded_small 10 n (omega arith) (omega arith),
      )
  part_number-block_id (negsuc n) h =
      let (low, high, _) = (validate_part_number_iff (negsuc n) azure_constraints).0 h in
      absurd (omega arith)

  -- Two accepted numbers with one block ID are the same number.
  pub block_id_injective :
      (m n : ℤ)
      → validate_part_number m azure_constraints ≡ none
      → validate_part_number n azure_constraints ≡ none
      → block_id base64 m ≡ block_id base64 n
      → m ≡ n
  block_id_injective m n hm hn e = some-injective m n (
      sym (part_number-block_id m hm).0 ∙ ap (part_number base64) e ∙ (part_number-block_id n hn).0)
