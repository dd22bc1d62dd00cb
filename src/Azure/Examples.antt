-- ===== src/Azure/Examples.antt =====
-- The uploader of azmp on blocks in memory, with a base64 that changes nothing.
use mathlib.Core.List.{Perm}
use gocloud_ext.Common.{
  ℕ, pos, Bytes, codes, List, [], ◌∷◌, map, length, Option, none, some, Result, ok, true, false,
  eqb, ◌≡◌, refl, ap, arith,
}
use gocloud_ext.Multipart.{Part, sort_parts, validate_part_number, object_name}
use gocloud_ext.Multipart.Sorting.{IsAscending}
use gocloud_ext.Decimal.{format_padded, parse_int, trim_zeros}
use gocloud_ext.Blob.Memory.{Table, find, put, find-put_self, find-put_ne}
use gocloud_ext.Blob.Contents.{contents}
use gocloud_ext.Azure.{
  AzureClient, Base64, AzureUploader, ListedBlock, azure_constraints, azure_escape_key, block_id,
  part_number,
}
use gocloud_ext.Azure.Laws.{AzureLaws}
use gocloud_ext.Azure.Blocks.{part_number-block_id}
use gocloud_ext.Azure.Start.{azure_new_uploader}
use gocloud_ext.Azure.Parts.{azure_upload_part, azure_list_parts}
use gocloud_ext.Azure.Parts.Staged.{IsStagedAs, azure_upload_part-staged}
use gocloud_ext.Azure.Finish.{azure_commit}
use gocloud_ext.Azure.Finish.Committed.{azure_commit-committed}

abbrev Blocks : Type 0
Blocks = Table × Option Bytes

abbrev commit_read : Option Bytes → Blocks → Option Bytes × Blocks
commit_read none s = (some (codes "InvalidBlockList"), s)
commit_read (some d) s = (none, ([], some d))

abbrev listed : Table → List ListedBlock
listed [] = []
listed ((id, body) ∷ t) = record { name = some id; size = some (pos (length body)) } ∷ listed t

abbrev blocks : AzureClient
blocks = record {
  State = Blocks;
  Err = Bytes;
  stage_block = λ id body s. (none, (put s.0 id body, s.1));
  get_block_list = λ s. ok (listed s.0);
  commit_block_list = λ ids h m s. commit_read (contents (find s.0) ids) s;
}

commit_read-committed :
    (o : Option Bytes) (s : Blocks)
    → (commit_read o s).0 ≡ none
    → (d : Bytes) × (o ≡ some d) × ((commit_read o s).1.1 ≡ some d)
commit_read-committed none s h = absurd (ground arith)
commit_read-committed (some d) s h = (d, refl, refl)

abbrev laws : AzureLaws blocks
laws = record {
  staged = λ s id. find s.0 id;
  committed = λ s. s.1;
  stage_block-staged_self = λ id body s h. find-put_self s.0 id body;
  stage_block-staged_ne = λ id body s other h. find-put_ne s.0 id body other h;
  stage_block-committed = λ id body s. refl;
  commit_block_list-committed = λ ids h m s k. commit_read-committed (contents (find s.0) ids) s k;
}

abbrev plain : Base64
plain = record { encode = λ s. s; decode = λ s. some s }

abbrev upload : AzureUploader
upload = record { name = codes "k"; opts = none; finished = false }

-- Part 2 is staged before part 1.
abbrev staged : Blocks
staged = ((codes "0000000002", 3 ∷ []) ∷ (codes "0000000001", 1 ∷ 2 ∷ []) ∷ [], none)

abbrev part : ℕ → Part
part n = record { number = pos n; size = pos 1; tag = codes "lost" }

ids :
    (block_id plain (pos 1) ≡ codes "0000000001")
    × (part_number plain (codes "0000000012") ≡ some (pos 12))
unfolding block_id part_number format_padded parse_int trim_zeros
ids = (refl, refl)

lists :
    azure_list_parts blocks plain upload staged
    ≡ ok (
        record { number = pos 1; size = pos 2; tag = codes "0000000001" }
        ∷ record { number = pos 2; size = pos 1; tag = codes "0000000002" }
        ∷ [])
unfolding azure_list_parts part_number parse_int trim_zeros sort_parts
lists = refl

accepted :
    (validate_part_number (pos 3) azure_constraints ≡ none)
    × (validate_part_number (pos 4) azure_constraints ≡ none)
unfolding validate_part_number
accepted = (refl, refl)

part_number-block_id_example :
    (part_number plain (block_id plain (pos 3)) ≡ some (pos 3))
    × (raw : Bytes) × (plain.decode (block_id plain (pos 3)) ≡ some raw)
    × (length raw ≡ 10)
part_number-block_id_example = part_number-block_id plain (λ s. refl) (pos 3) accepted.0

starts :
    azure_new_uploader
      (λ test s. s)
      {Err = Bytes}
      false
      (record { bucket = codes "c"; prefix = [] })
      (codes "k")
      none
    ≡ ok upload
unfolding azure_new_uploader object_name azure_escape_key eqb
starts = refl

uploads :
    (azure_upload_part blocks plain upload (pos 3) (ok (5 ∷ 6 ∷ [])) staged).0
    ≡ ok (record { number = pos 3; size = pos 2; tag = block_id plain (pos 3) })
unfolding azure_upload_part validate_part_number
uploads = refl

azure_upload_part-staged_example :
    ((bytes : Bytes) × (◌≡◌ {A = Result Bytes Bytes} (ok (5 ∷ 6 ∷ [])) (ok bytes))
      × IsStagedAs blocks plain
          (λ s. refl)
          laws
          upload
          (pos 3)
          bytes
          staged
          (record { number = pos 3; size = pos 2; tag = block_id plain (pos 3) })
          (azure_upload_part blocks plain upload (pos 3) (ok (5 ∷ 6 ∷ [])) staged).1)
    × (laws.staged
          (azure_upload_part blocks plain upload (pos 3) (ok (5 ∷ 6 ∷ [])) staged).1
          (block_id plain (pos 4))
        ≡ laws.staged staged (block_id plain (pos 4)))
azure_upload_part-staged_example =
    azure_upload_part-staged blocks plain (λ s. refl) laws upload (pos 3) (pos 4) (ok (5 ∷ 6 ∷ []))
      staged (record { number = pos 3; size = pos 2; tag = block_id plain (pos 3) }) uploads
      (λ e. ground arith) accepted.1

commits :
    azure_commit blocks plain (λ s. s) upload (part 2 ∷ part 1 ∷ []) staged
    ≡ (none, record upload { finished = true }, ([], some (1 ∷ 2 ∷ 3 ∷ [])))
unfolding azure_commit sort_parts block_id format_padded find eqb
commits = refl

quiet : (azure_commit blocks plain (λ s. s) upload (part 2 ∷ part 1 ∷ []) staged).0 ≡ none
quiet = ap (λ t. t.0) commits

azure_commit-committed_example :
    (ordered : List Part) × (d : Bytes) × Perm ordered (part 2 ∷ part 1 ∷ [])
    × IsAscending ordered
    × (contents (laws.staged staged) (map (λ p. plain.encode (format_padded 10 p.number)) ordered)
        ≡ some d)
    × (laws.committed (azure_commit blocks plain (λ s. s) upload (part 2 ∷ part 1 ∷ []) staged).2
        ≡ some d)
    × ((azure_commit blocks plain (λ s. s) upload (part 2 ∷ part 1 ∷ []) staged).1
        ≡ record upload { finished = true })
azure_commit-committed_example =
    azure_commit-committed blocks plain (λ s. s) laws upload (part 2 ∷ part 1 ∷ []) staged quiet
