-- ===== src/Gcs/Examples.antt =====
-- The uploader of gcsmp on the storage in memory: 33 parts, which take one round of composes, and the
-- theorems at concrete inputs.
use gocloud_ext.Common.{
  ℕ, zero, suc, ◌+◌, pos, Bytes, codes, List, [], ◌∷◌, length, none, some, ok, err, true, false,
  eqb, has_prefix, ◌≡◌, ◌≢◌, refl, arith, if◌then◌else◌,
}
use gocloud_ext.Multipart.{Part, sort_parts, validate_part_number}
use gocloud_ext.Decimal.{format_padded}
use gocloud_ext.Blob.{Source, eof, chunk, drain, ErrorCode, io_copy}
use gocloud_ext.Blob.Memory.{Store, Table, find, remove, listing}
use gocloud_ext.Gcs.{GcsUploader, gcs_constraints, out_of_fuel, part_name, gcs_staging_prefix}
use gocloud_ext.Blob.Contents.{contents}
use gocloud_ext.Gcs.Laws.{GcsLaws}
use gocloud_ext.Gcs.Memory.{gcs_memory, gcs_memory_laws, gcs_memory-GcsReliable}
use gocloud_ext.Gcs.Compose.{compose_tree, inter_name}
use gocloud_ext.Gcs.Finish.{source_names, gcs_delete_staged, gcs_commit, gcs_abort}
use gocloud_ext.Gcs.Finish.Commit.{gcs_commit-stored}
use gocloud_ext.Gcs.Finish.Done.{gcs_commit_succeeds}
use gocloud_ext.Gcs.Finish.Frame.{gcs_commit-stored_ne}
use gocloud_ext.Gcs.Finish.Abort.{gcs_abort_clears}
use gocloud_ext.Gcs.Parts.{gcs_upload_part}
use gocloud_ext.Gcs.Parts.Staged.{gcs_upload_part-stored}
use gocloud_ext.Gcs.Compose.Ends.{compose_tree_ends}

abbrev upload : GcsUploader
upload = record {
  bucket = codes "b";
  name = codes "k";
  upload_id = codes "0a";
  opts = none;
  finished = false;
}

-- The parts from a number on, one byte each.
abbrev parts_from : ℕ → ℕ → List Part
parts_from zero n = []
parts_from (suc count) n =
    record { number = pos n; size = pos 1; tag = [] } ∷ parts_from count (n + 1)

abbrev objects_of : List Part → ℕ → Table
objects_of [] n = []
objects_of (p ∷ l) n = (part_name upload p.number, n ∷ []) ∷ objects_of l (n + 1)

abbrev parts : List Part
parts = parts_from 33 1

abbrev staged : Store
staged = record { objects = (codes "other", 7 ∷ []) ∷ objects_of parts 1; buffers = [] }

names :
    (part_name upload (pos 33) ≡ codes "k.gocdkmpu.0a/00033")
    × (inter_name upload 0 0 ≡ codes "k.gocdkmpu.0a/inter-0-0")
unfolding part_name inter_name gcs_staging_prefix format_padded
names = (refl, refl)

sorted : sort_parts parts ≡ ok parts
unfolding sort_parts
sorted = refl

bytes_from : ℕ → ℕ → Bytes
bytes_from zero n = []
bytes_from (suc count) n = n ∷ bytes_from count (n + 1)

there : contents (λ k. find staged.objects k) (source_names upload parts) ≡ some (bytes_from 33 1)
unfolding find eqb part_name gcs_staging_prefix format_padded bytes_from
there = refl

-- The run itself: one intermediate of 32 parts, which is composed with the last part.
composed :
    (compose_tree gcs_memory 33 upload 0 (source_names upload parts) staged).0
    ≡ ok (codes "k.gocdkmpu.0a/inter-0-0" ∷ codes "k.gocdkmpu.0a/00033" ∷ [])
unfolding compose_tree find eqb remove part_name inter_name gcs_staging_prefix format_padded
composed = refl

commit_run :
    (gcs_commit gcs_memory (λ s. s) upload parts staged).2.objects
    ≡ (codes "k", bytes_from 33 1) ∷ (codes "other", 7 ∷ []) ∷ []
unfolding gcs_commit compose_tree find eqb remove part_name inter_name gcs_staging_prefix
    format_padded sort_parts listing has_prefix bytes_from gcs_delete_staged
commit_run = refl

commits : (gcs_commit gcs_memory (λ s. s) upload parts staged).0 ≡ none
unfolding gcs_commit compose_tree find eqb remove part_name inter_name gcs_staging_prefix
    format_padded sort_parts
commits = refl

abbrev laws : GcsLaws gcs_memory (codes "b")
laws = gcs_memory_laws (codes "b")

gcs_commit-stored_example :
    (ordered : List Part) × (d : Bytes) × (sort_parts parts ≡ ok ordered)
    × (contents (laws.stored staged) (source_names upload ordered) ≡ some d)
    × (laws.stored (gcs_commit gcs_memory (λ s. s) upload parts staged).2 (codes "k") ≡ some d)
    × ((gcs_commit gcs_memory (λ s. s) upload parts staged).1 ≡ record upload { finished = true })
gcs_commit-stored_example =
    gcs_commit-stored gcs_memory (λ s. s) upload laws parts staged (omega arith) commits

gcs_commit_succeeds_example :
    ((gcs_commit gcs_memory (λ s. s) upload parts staged).0 ≡ none)
    × (laws.stored (gcs_commit gcs_memory (λ s. s) upload parts staged).2 (codes "k")
        ≡ some (bytes_from 33 1))
unfolding gcs_memory_laws
gcs_commit_succeeds_example =
    gcs_commit_succeeds gcs_memory (λ s. s) upload (gcs_memory_laws (codes "b"))
      (gcs_memory-GcsReliable (codes "b")) parts parts staged (bytes_from 33 1) refl (omega arith)
      sorted there

compose_tree_ends_example :
    (compose_tree gcs_memory 33 upload 0 (source_names upload parts) staged).0 ≢ err out_of_fuel
compose_tree_ends_example =
    compose_tree_ends gcs_memory upload 33 0 (source_names upload parts) staged (omega arith)

outside : has_prefix (codes "other") (gcs_staging_prefix upload) ≡ false
unfolding has_prefix gcs_staging_prefix
outside = refl

elsewhere : eqb (codes "k") (codes "other") ≡ false
unfolding eqb
elsewhere = refl

gcs_commit-stored_ne_example :
    laws.stored (gcs_commit gcs_memory (λ s. s) upload parts staged).2 (codes "other")
    ≡ laws.stored staged (codes "other")
gcs_commit-stored_ne_example =
    gcs_commit-stored_ne gcs_memory (λ s. s) upload laws (codes "other") outside elsewhere parts
      staged

aborts : (gcs_abort gcs_memory upload staged).0 ≡ none
unfolding gcs_abort gcs_delete_staged find remove listing has_prefix eqb part_name
    gcs_staging_prefix format_padded
aborts = refl

gcs_abort_clears_example :
    ((gcs_abort gcs_memory upload staged).1 ≡ record upload { finished = true })
    × (laws.stored (gcs_abort gcs_memory upload staged).2 (codes "k.gocdkmpu.0a/00033") ≡ (
        if has_prefix (codes "k.gocdkmpu.0a/00033") (gcs_staging_prefix upload)
        then none
        else laws.stored staged (codes "k.gocdkmpu.0a/00033")))
gcs_abort_clears_example =
    gcs_abort_clears gcs_memory upload laws staged (codes "k.gocdkmpu.0a/00033") refl aborts

abbrev nothing : Store
nothing = record { objects = []; buffers = [] }

abbrev source : Source ErrorCode
source = chunk (1 ∷ 2 ∷ []) (chunk (3 ∷ []) eof)

uploads :
    (gcs_upload_part gcs_memory upload (pos 2) source nothing).0
    ≡ ok (record { number = pos 2; size = pos 3; tag = part_name upload (pos 2) })
unfolding gcs_upload_part io_copy validate_part_number
uploads = refl

apart : eqb (part_name upload (pos 2)) (codes "other") ≡ false
unfolding eqb part_name gcs_staging_prefix
apart = refl

gcs_upload_part-stored_example :
    (validate_part_number (pos 2) gcs_constraints ≡ none)
    × ((d : Bytes) × (drain source ≡ some d)
        × (◌≡◌ {A = Part}
            (record { number = pos 2; size = pos 3; tag = part_name upload (pos 2) })
            (record { number = pos 2; size = pos (length d); tag = part_name upload (pos 2) }))
        × (laws.stored
              (gcs_upload_part gcs_memory upload (pos 2) source nothing).1
              (part_name upload (pos 2))
            ≡ some d))
    × (laws.stored (gcs_upload_part gcs_memory upload (pos 2) source nothing).1 (codes "other")
        ≡ laws.stored nothing (codes "other"))
gcs_upload_part-stored_example =
    gcs_upload_part-stored gcs_memory upload laws (pos 2) source nothing
      (record { number = pos 2; size = pos 3; tag = part_name upload (pos 2) }) (codes "other")
      apart uploads
