-- ===== src/Azure/Laws.antt =====
-- What Azure documents of the blocks of a blob: StageBlock keeps a block under its ID until
-- CommitBlockList makes the blob of the listed blocks, in the order of the list.
use gocloud_ext.Common.{Bytes, false, List, Option, none, some, ◌≡◌, eqb}
use gocloud_ext.Blob.Contents.{contents}
use gocloud_ext.Azure.{AzureClient, HttpHeaders}

module _ (c : AzureClient) where
  open c use {State, Err, stage_block, commit_block_list}

  pub record AzureLaws : Type 1 where
    -- the uncommitted block with an ID, and the blob
    pub staged : State → Bytes → Option Bytes
    pub committed : State → Option Bytes
    pub stage_block-staged_self :
        (id body : Bytes) (s : State)
        → (stage_block id body s).0 ≡ none
        → staged (stage_block id body s).1 id ≡ some body
    pub stage_block-staged_ne :
        (id body : Bytes) (s : State) (other : Bytes)
        → eqb id other ≡ false
        → staged (stage_block id body s).1 other ≡ staged s other
    pub stage_block-committed :
        (id body : Bytes) (s : State) → committed (stage_block id body s).1 ≡ committed s
    pub commit_block_list-committed :
        (ids : List Bytes) (h : HttpHeaders) (m : Option (List (Bytes × Bytes))) (s : State)
        → (commit_block_list ids h m s).0 ≡ none
        → (d : Bytes) × (contents (staged s) ids ≡ some d)
          × (committed (commit_block_list ids h m s).1 ≡ some d)
