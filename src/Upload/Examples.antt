-- ===== src/Upload/Examples.antt =====
-- Uploaders, parts and stores for the runs of the generic uploader on the bucket in memory.
pub mod Commits
pub mod Aborts
pub mod Starts
use gocloud_ext.Common.{ℕ, pos, Bytes, Bool, codes, [], ◌∷◌, none, false, eqb}
use gocloud_ext.Multipart.{Part}
use gocloud_ext.Blob.{Bucket}
use gocloud_ext.Blob.Memory.{Store, memory}
use gocloud_ext.Upload.{Uploader}

abbrev pub upload : Uploader
upload = record { key = codes "big"; upload_id = codes "0a"; opts = none; finished = false }

abbrev pub first : Part
first = record { number = pos 1; size = pos 2; tag = codes "big.gocdkmpu.0a/00001" }

abbrev pub second : Part
second = record { number = pos 2; size = pos 1; tag = codes "big.gocdkmpu.0a/00002" }

abbrev pub third : Part
third = record { number = pos 3; size = pos 1; tag = [] }

abbrev pub stranger : Part
stranger = record { number = pos 1; size = pos 2; tag = codes "big.gocdkmpu.0b/00001" }

-- Both parts and the manifest are staged.
abbrev pub staged : Store
staged = record {
  objects =
      (codes "big.gocdkmpu.0a/00001", 7 ∷ 8 ∷ [])
      ∷ (codes "big.gocdkmpu.0a/00002", 9 ∷ [])
      ∷ (codes "big.gocdkmpu.0a/manifest.json", [])
      ∷ (codes "other", 1 ∷ [])
      ∷ [];
  buffers = [];
}

abbrev pub empty : Store
empty = record { objects = []; buffers = [] }

-- A bucket that deletes everything, and one that refuses to delete the first part.
abbrev pub plain : Bucket
plain = memory (λ k. false)

abbrev pub stuck_keys : Bytes → Bool
stuck_keys k = eqb k (codes "big.gocdkmpu.0a/00001")

abbrev pub stuck : Bucket
stuck = memory stuck_keys
