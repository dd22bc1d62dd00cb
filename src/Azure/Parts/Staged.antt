-- ===== src/Azure/Parts/Staged.antt =====
-- UploadPart and ListParts: the blocks that are staged, and the parts that are listed.
use mathlib.Core.List.{Perm}
use mathlib.Core.List.Perm
use gocloud_ext.Common.{
  ℤ, pos, ◌≤◌, Bytes, false, List, [], ◌∷◌, length, Option, none, some, Result, ok, eqb, eqb_iff,
  ◌≡◌, ◌≢◌, refl, sym, arith, Bool-cases, Option-cases, Result-cases, inl, inr,
}
use gocloud_ext.Multipart.{Part, validate_part_number}
use gocloud_ext.Multipart.Sorting.{IsAscending, sort_parts-IsAscending}
use gocloud_ext.Azure.{
  AzureClient, Base64, AzureUploader, ListedBlock, azure_constraints, azure_max_part_size, block_id,
}
use gocloud_ext.Azure.Laws.{AzureLaws}
use gocloud_ext.Azure.Blocks.{part_number-block_id, block_id_injective}
use gocloud_ext.Azure.Parts.{
  stage_body, azure_upload_part, block_part, block_parts, sort_blocks, size_or_zero,
  azure_list_parts,
}

module _ (c : AzureClient) (base64 : Base64)
    (decodes : (s : Bytes) → base64.decode (base64.encode s) ≡ some s) where
  open c use {State, Err, get_block_list}

  -- The block of an accepted number is listed as the part of that number.
  pub block_part-block_id :
      (number : ℤ) (size : Option ℤ)
      → validate_part_number number azure_constraints ≡ none
      → block_part c base64 (record { name = some (block_id base64 number); size = size })
        ≡ some (record { number = number; size = size_or_zero size; tag = block_id base64 number })
  unfolding block_part
  block_part-block_id number size h =
      rw ((part_number-block_id base64 decodes number h).0, block_part) refl

  sort_blocks-IsAscending :
      (found parts : List Part)
      → sort_blocks c base64 found ≡ ok parts
      → Perm parts found × IsAscending parts
  unfolding sort_blocks
  sort_blocks-IsAscending [] [] h = (Perm.refl [], tt)
  sort_blocks-IsAscending [] (p ∷ parts) h = absurd (ground arith)
  sort_blocks-IsAscending (q ∷ found) parts h = sort_parts-IsAscending (q ∷ found) (ground arith)

  -- What ListParts returns is the parts of the uncommitted blocks, by strictly ascending numbers.
  pub azure_list_parts-IsAscending :
      (u : AzureUploader) (s : State) (parts : List Part)
      → azure_list_parts c base64 u s ≡ ok parts
      → (blocks : List ListedBlock) × (get_block_list s ≡ ok blocks)
        × Perm parts (block_parts c base64 blocks)
        × IsAscending parts
  unfolding azure_list_parts
  azure_list_parts-IsAscending u s parts h = elim (Result-cases (get_block_list s)) [
    | inr (e, k) ↦ absurd (ground arith)
    | inl (blocks, k) ↦
        let (p, a) = sort_blocks-IsAscending (block_parts c base64 blocks) parts (ground arith) in
        (blocks, k, p, a)
  ]

  module _ (laws : AzureLaws c) where
    open laws use {
      staged, committed, stage_block-staged_self, stage_block-staged_ne, stage_block-committed,
    }

    stage_body-staged :
        (number : ℤ) (body : Bytes) (s : State) (p : Part)
        → (stage_body c base64 number body s).0 ≡ ok p
        → (length body ≤ azure_max_part_size)
          × (p ≡ record { number = number; size = pos (length body); tag = block_id base64 number })
          × (staged (stage_body c base64 number body s).1 (block_id base64 number) ≡ some body)
          × (committed (stage_body c base64 number body s).1 ≡ committed s)
    unfolding stage_body
    stage_body-staged number body s p h =
        let quiet : (c.stage_block (block_id base64 number) body s).0 ≡ none = ground arith in
        (
          ground arith,
          ground arith,
          ground (arith, stage_block-staged_self (block_id base64 number) body s quiet),
          ground (arith, stage_block-committed (block_id base64 number) body s),
        )

    stage_body-staged_ne :
        (number : ℤ) (body : Bytes) (s : State) (other : Bytes)
        → eqb (block_id base64 number) other ≡ false
        → staged (stage_body c base64 number body s).1 other ≡ staged s other
    unfolding stage_body
    stage_body-staged_ne number body s other h =
        ground (arith, stage_block-staged_ne (block_id base64 number) body s other h)

    different :
        (m n : ℤ)
        → validate_part_number m azure_constraints ≡ none
        → validate_part_number n azure_constraints ≡ none
        → n ≢ m
        → eqb (block_id base64 m) (block_id base64 n) ≡ false
    different m n hm hn ne = elim (Bool-cases (eqb (block_id base64 m) (block_id base64 n))) [
      | inr e ↦ e
      | inl e ↦ absurd (
          ne (
            sym (
              block_id_injective base64 decodes m n hm hn
                ((eqb_iff (block_id base64 m) (block_id base64 n)).0 e))))
    ]

    -- What the blocks of an UploadPart that returns a part hold afterwards.
    abbrev pub IsStagedAs : AzureUploader → ℤ → Bytes → State → Part → State → Type 0
    IsStagedAs u number bytes s p t =
        (validate_part_number number azure_constraints ≡ none)
        × (length bytes ≤ azure_max_part_size)
        × (p ≡ record { number = number; size = pos (length bytes); tag = block_id base64 number })
        × (staged t (block_id base64 number) ≡ some bytes)
        × (committed t ≡ committed s)

    -- An UploadPart that returns a part accepted the number, read the whole source, of at most 4000
    -- MiB, and staged exactly its bytes under the ID of the number; the part has the number, the byte
    -- count and that ID, the blob is as it was, and so is the block of every other accepted number.
    pub azure_upload_part-staged :
        (u : AzureUploader) (number other : ℤ) (body : Result Err Bytes) (s : State) (p : Part)
        → (azure_upload_part c base64 u number body s).0 ≡ ok p
        → other ≢ number
        → validate_part_number other azure_constraints ≡ none
        → ((bytes : Bytes) × (body ≡ ok bytes)
            × IsStagedAs u number bytes s p (azure_upload_part c base64 u number body s).1)
          × (staged (azure_upload_part c base64 u number body s).1 (block_id base64 other)
              ≡ staged s (block_id base64 other))
    unfolding azure_upload_part
    azure_upload_part-staged u number other body s p h ne valid = elim (Bool-cases u.finished) [
      | inl z ↦ absurd (ground arith)
      | inr z ↦ elim (Option-cases (validate_part_number number azure_constraints)) [
        | inr (e, v) ↦ absurd (ground arith)
        | inl v ↦ elim (Result-cases body) [
          | inr (e, r) ↦ absurd (ground arith)
          | inl (bytes, r) ↦
              let done = rw (z, v, r, azure_upload_part) at h in
              let (few, same, put, kept) = stage_body-staged number bytes s p done in
              (
                (
                  bytes,
                  r,
                  (
                    v,
                    few,
                    same,
                    rw (z, v, r, azure_upload_part) put,
                    rw (z, v, r, azure_upload_part) kept,
                  ),
                ),
                rw (z, v, r, azure_upload_part)
                    (stage_body-staged_ne number bytes s (block_id base64 other)
                      (different number other v valid ne)),
              )
        ]
      ]
    ]
