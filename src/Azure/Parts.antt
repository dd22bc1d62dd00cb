-- ===== src/Azure/Parts.antt =====
-- UploadPart and ListParts of blob/multipart/azmp/azmp.go. The reader is what io.ReadAll makes of it.
pub mod Staged
use gocloud_ext.Common.{
  ℤ, pos, ltb, Bytes, if◌then◌else◌, List, [], ◌∷◌, length, Option, none, some, Result, ok, err,
}
use gocloud_ext.Multipart.{Part, sort_parts, validate_part_number}
use gocloud_ext.Azure.{
  AzureClient, Base64, AzureUploader, AzureError, ListedBlock, closed, invalid_parts,
  part_too_large, reading, staging, calling, azure_constraints, azure_max_part_size, block_id,
  part_number,
}

-- `if b.Size != nil`
abbrev pub size_or_zero : Option ℤ → ℤ
size_or_zero none = pos 0
size_or_zero (some n) = n

module _ (c : AzureClient) (base64 : Base64) where
  open c use {State, Err, stage_block, get_block_list}

  -- Once the part is read.
  stage_body : ℤ → Bytes → State → Result (AzureError Err) Part × State
  stage_body number body s =
      let id = block_id base64 number in
      let (failure, s') = stage_block id body s in
      if ltb azure_max_part_size (length body)
      then (err (part_too_large number (pos (length body))), s)
      else elim failure [
        | some e ↦ (err (staging number e), s')
        | none ↦ (ok (record { number = number; size = pos (length body); tag = id }), s')
      ]

  unfoldable pub azure_upload_part :
      AzureUploader → ℤ → Result Err Bytes → State → Result (AzureError Err) Part × State
  unfolding stage_body
  azure_upload_part u number body s =
      if u.finished then (err closed, s) else elim (validate_part_number number azure_constraints) [
        | some e ↦ (err (invalid_parts e), s)
        | none ↦ elim body [
          | err e ↦ (err (reading number e), s)
          | ok bytes ↦ stage_body number bytes s
        ]
      ]

  -- One block of the list, as a part; a block without a name or with another's name is none.
  pub block_part : ListedBlock → Option Part
  block_part b = elim b.name [
    | none ↦ none
    | some id ↦ elim (part_number base64 id) [
      | none ↦ none
      | some number ↦ some (record { number = number; size = size_or_zero b.size; tag = id })
    ]
  ]

  -- The loop over the blocks.
  pub block_parts : List ListedBlock → List Part
  unfolding block_part
  block_parts [] = []
  block_parts (b ∷ l) =
      let rest = block_parts l in elim (block_part b) [ none ↦ rest | some p ↦ p ∷ rest ]

  -- `if len(parts) == 0`, and the order
  sort_blocks : List Part → Result (AzureError Err) (List Part)
  sort_blocks [] = ok []
  sort_blocks (p ∷ l) = elim (sort_parts (p ∷ l)) [
    | err e ↦ err (invalid_parts e)
    | ok ordered ↦ ok ordered
  ]

  unfoldable pub azure_list_parts : AzureUploader → State → Result (AzureError Err) (List Part)
  unfolding block_parts sort_blocks
  azure_list_parts u s = elim (get_block_list s) [
    | err e ↦ err (calling e)
    | ok blocks ↦ sort_blocks (block_parts blocks)
  ]
