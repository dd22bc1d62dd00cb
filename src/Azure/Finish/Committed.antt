-- ===== src/Azure/Finish/Committed.antt =====
-- What Commit makes of the blocks.
use mathlib.Core.List.{Perm}
use gocloud_ext.Common.{
  Bytes, true, false, List, map, none, some, ok, ◌≡◌, refl, arith, Bool-cases, Option-cases,
  Result-cases, inl, inr,
}
use gocloud_ext.Multipart.{Part, sort_parts}
use gocloud_ext.Multipart.Sorting.{IsAscending, sort_parts-IsAscending}
use gocloud_ext.Decimal.{format_padded}
use gocloud_ext.Blob.Contents.{contents}
use gocloud_ext.Azure.{AzureClient, Base64, AzureUploader, block_id}
use gocloud_ext.Azure.Laws.{AzureLaws}
use gocloud_ext.Azure.Finish.{block_ids, commit_blocks, azure_commit, http_headers, blob_metadata}

module _ (c : AzureClient) (base64 : Base64) (to_lower : Bytes → Bytes) (laws : AzureLaws c) where
  open c use {State, commit_block_list}
  open laws use {staged, committed, commit_block_list-committed}

  commit_blocks-committed :
      (u : AzureUploader) (l : List Part) (s : State)
      → (commit_blocks c base64 to_lower u l s).0 ≡ none
      → (d : Bytes) × (contents (staged s) (block_ids c base64 to_lower l) ≡ some d)
        × (committed (commit_blocks c base64 to_lower u l s).2 ≡ some d)
        × ((commit_blocks c base64 to_lower u l s).1 ≡ record u { finished = true })
  unfolding commit_blocks
  commit_blocks-committed u l s h =
      let ids = block_ids c base64 to_lower l in
      let headers = http_headers u.opts in
      let metadata = blob_metadata to_lower u.opts in
      elim (Option-cases (commit_block_list ids headers metadata s).0) [
        | inr (e, k) ↦ absurd (ground arith)
        | inl k ↦
            let (d, held, put) = commit_block_list-committed ids headers metadata s k in
            (d, held, rw (k, commit_blocks) put, rw (k, commit_blocks) refl)
      ]

  azure_commit_live :
      (u : AzureUploader) (parts ordered : List Part) (s : State)
      → u.finished ≡ false
      → sort_parts parts ≡ ok ordered
      → azure_commit c base64 to_lower u parts s ≡ commit_blocks c base64 to_lower u ordered s
  unfolding azure_commit
  azure_commit_live u parts ordered s z k = simp (z, k) refl

  -- A Commit that reports no error arranged the parts by strictly ascending numbers, found of every
  -- one the block whose ID is the base64 of its number in ten digits, whatever its tag, and made the
  -- blob of the contents of those blocks in that order; the uploader is finished.
  pub azure_commit-committed :
      (u : AzureUploader) (parts : List Part) (s : State)
      → (azure_commit c base64 to_lower u parts s).0 ≡ none
      → (ordered : List Part) × (d : Bytes) × Perm ordered parts
        × IsAscending ordered
        × (contents (staged s) (map (λ p. base64.encode (format_padded 10 p.number)) ordered)
            ≡ some d)
        × (committed (azure_commit c base64 to_lower u parts s).2 ≡ some d)
        × ((azure_commit c base64 to_lower u parts s).1 ≡ record u { finished = true })
  unfolding azure_commit block_id
  azure_commit-committed u parts s h = elim (Bool-cases u.finished) [
    | inl z ↦ absurd (ground arith)
    | inr z ↦ elim (Result-cases (sort_parts parts)) [
      | inr (e, k) ↦ absurd (ground arith)
      | inl (ordered, k) ↦
          let same = azure_commit_live u parts ordered s z k in
          let (d, held, put, finished) = commit_blocks-committed u ordered s (rw same at h) in
          let (arranged, ascending) = sort_parts-IsAscending parts k in
          (ordered, d, arranged, ascending, held, rw same put, rw same finished)
    ]
  ]
