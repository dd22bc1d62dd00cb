-- ===== src/Upload/Examples/Commits.antt =====
-- Commit at concrete parts.
use mathlib.Core.List.{mem-cons_self}
use mathlib.Core.Bool.{false≢true}
use gocloud_ext.Common.{
  pos, Bytes, codes, List, [], ◌∷◌, none, some, ok, true, false, eqb, has_prefix, ◌≡◌, ◌≢◌, refl,
  eqb_iff, ◌∙◌,
}
use gocloud_ext.Multipart.{Part, sort_parts, check_part_sizes}
use gocloud_ext.Decimal.{format_padded}
use gocloud_ext.Blob.{ErrorCode, io_copy}
use gocloud_ext.Blob.Memory.{find, remove, listing}
use gocloud_ext.Blob.Memory.Kept.{memory_laws, memory-Reliable}
use gocloud_ext.Upload.{missing_part, staging_prefix, manifest_key, part_key, writer_options}
use gocloud_ext.Upload.Finish.{commit, copy_part, delete_staged, find_foreign}
use gocloud_ext.Upload.Finish.Commit.{assembled, commit-stored}
use gocloud_ext.Upload.Finish.Frame.{commit-stored_ne, commit_foreign_tag}
use gocloud_ext.Upload.Finish.Missing.{commit_succeeds, commit_missing_publishes}
use gocloud_ext.Upload.Examples.{upload, first, second, third, stranger, staged, plain}

keys :
    (part_key upload (pos 1) ≡ codes "big.gocdkmpu.0a/00001")
    × (part_key upload (pos 2) ≡ codes "big.gocdkmpu.0a/00002")
    × (part_key upload (pos 3) ≡ codes "big.gocdkmpu.0a/00003")
    × (manifest_key upload ≡ codes "big.gocdkmpu.0a/manifest.json")
    × (staging_prefix upload ≡ codes "big.gocdkmpu.0a/")
unfolding part_key manifest_key staging_prefix format_padded
keys = (refl, refl, refl, refl, refl)

sorted : sort_parts (second ∷ first ∷ []) ≡ ok (first ∷ second ∷ [])
unfolding sort_parts
sorted = refl

sorted_with_gap : sort_parts (third ∷ second ∷ first ∷ []) ≡ ok (first ∷ second ∷ third ∷ [])
unfolding sort_parts
sorted_with_gap = refl

ours :
    (find_foreign plain upload (first ∷ second ∷ []) ≡ none)
    × (find_foreign plain upload (first ∷ second ∷ third ∷ []) ≡ none)
unfolding find_foreign part_key staging_prefix format_padded eqb
ours = (refl, refl)

there : assembled (λ k. find staged.objects k) upload (first ∷ second ∷ []) ≡ some (7 ∷ 8 ∷ 9 ∷ [])
unfolding find eqb part_key staging_prefix format_padded
there = refl

absent : find staged.objects (part_key upload (pos 3)) ≡ none
unfolding find eqb part_key staging_prefix format_padded
absent = refl

commits : (commit plain upload (second ∷ first ∷ []) staged).0 ≡ none
unfolding memory_laws
commits =
    commit_succeeds plain (memory_laws (λ k. false)) (memory-Reliable (λ k. false)) upload
      (second ∷ first ∷ []) (first ∷ second ∷ []) staged (7 ∷ 8 ∷ 9 ∷ []) refl sorted ours.0 there

-- The run itself: the object, and the staged parts gone.
commit_run :
    (commit plain upload (second ∷ first ∷ []) staged).2.objects
    ≡ (codes "big", 7 ∷ 8 ∷ 9 ∷ []) ∷ (codes "other", 1 ∷ []) ∷ []
unfolding commit copy_part io_copy delete_staged sort_parts check_part_sizes eqb find remove listing
    has_prefix writer_options part_key staging_prefix format_padded manifest_key
commit_run = refl

commit-stored_example :
    (ordered : List Part) × (c : Bytes) × (sort_parts (second ∷ first ∷ []) ≡ ok ordered)
    × (assembled ((memory_laws (λ k. false)).stored staged) upload ordered ≡ some c)
    × ((memory_laws (λ k. false)).stored
          (commit plain upload (second ∷ first ∷ []) staged).2
          upload.key
        ≡ some c)
    × ((commit plain upload (second ∷ first ∷ []) staged).1.finished ≡ true)
commit-stored_example =
    commit-stored plain (memory_laws (λ k. false)) upload (second ∷ first ∷ []) staged commits

commit_succeeds_example : (commit plain upload (second ∷ first ∷ []) staged).0 ≡ none
unfolding memory_laws
commit_succeeds_example =
    commit_succeeds plain (memory_laws (λ k. false)) (memory-Reliable (λ k. false)) upload
      (second ∷ first ∷ []) (first ∷ second ∷ []) staged (7 ∷ 8 ∷ 9 ∷ []) refl sorted ours.0 there

commit_missing_publishes_example :
    (e : ErrorCode) × ((commit plain upload (third ∷ second ∷ first ∷ []) staged).0
      ≡ some (missing_part (pos 3) (codes "0a") e))
    × ((memory_laws (λ k. false)).stored
          (commit plain upload (third ∷ second ∷ first ∷ []) staged).2
          (codes "big")
        ≡ some (7 ∷ 8 ∷ 9 ∷ []))
unfolding memory_laws
commit_missing_publishes_example =
    commit_missing_publishes plain (memory_laws (λ k. false)) (memory-Reliable (λ k. false)) upload
      (third ∷ second ∷ first ∷ []) (first ∷ second ∷ []) [] third staged (7 ∷ 8 ∷ 9 ∷ []) refl
      sorted_with_gap ours.1 there absent

elsewhere :
    (eqb (codes "big") (codes "other") ≡ false)
    × (has_prefix (codes "other") (staging_prefix upload) ≡ false)
unfolding eqb has_prefix staging_prefix
elsewhere = (refl, refl)

commit-stored_ne_example :
    (memory_laws (λ k. false)).stored
      (commit plain upload (second ∷ first ∷ []) staged).2
      (codes "other")
    ≡ (memory_laws (λ k. false)).stored staged (codes "other")
commit-stored_ne_example =
    commit-stored_ne plain (memory_laws (λ k. false)) upload (second ∷ first ∷ []) staged
      (codes "other") elsewhere.0 elsewhere.1

foreign : stranger.tag ≢ part_key upload stranger.number
unfolding eqb
foreign e = absurd (false≢true (sym_tag ∙ (eqb_iff stranger.tag (part_key upload (pos 1))).1 e))
  where
    sym_tag : false ≡ eqb stranger.tag (part_key upload (pos 1))
    sym_tag = unfold eqb part_key staging_prefix format_padded in refl

commit_foreign_tag_example :
    ((commit plain upload (stranger ∷ second ∷ []) staged).0 ≢ none)
    × ((commit plain upload (stranger ∷ second ∷ []) staged).1 ≡ upload)
    × ((commit plain upload (stranger ∷ second ∷ []) staged).2 ≡ staged)
commit_foreign_tag_example =
    commit_foreign_tag plain upload (stranger ∷ second ∷ []) staged stranger mem-cons_self (cc)
      foreign

duplicated : (out : List Part) → sort_parts (first ∷ first ∷ []) ≢ ok out
unfolding sort_parts
duplicated out h = cc
