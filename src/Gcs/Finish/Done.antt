-- ===== src/Gcs/Finish/Done.antt =====
-- Commit on a storage that does not fail.
use gocloud_ext.Common.{
  ◌^◌, ◌<◌, ◌≤◌, Bytes, false, List, [], ◌∷◌, length, All, Option, none, some, ok, err, Result, eqb,
  ◌≡◌, refl, sym, ap, ◌∙◌, append-nil, arith, Option-cases, inl, inr,
}
use gocloud_ext.Multipart.{Part, PartError, sort_parts}
use gocloud_ext.Multipart.Sorting.{length-sort_parts}
use gocloud_ext.Gcs.{GcsClient, GcsUploader, GcsError, part_name, finalising, composing}
use gocloud_ext.Blob.Contents.{contents}
use gocloud_ext.Gcs.Laws.{GcsLaws, GcsReliable}
use gocloud_ext.Gcs.Compose.{compose_tree}
use gocloud_ext.Gcs.Compose.Kept.{compose_tree-contents}
use gocloud_ext.Gcs.Compose.Ends.{compose_tree_succeeds}
use gocloud_ext.Gcs.Finish.{
  source_names, wrapped, place_object, finish_commit, compose_parts, gcs_commit,
}
use gocloud_ext.Gcs.Finish.Commit.{
  attrs, source_names-IsBefore, final-apart, names-staged, length-map, gcs_commit-stored,
}

module _ (c : GcsClient) (to_lower : Bytes → Bytes) (u : GcsUploader) (laws : GcsLaws c u.bucket)
    (reliable : GcsReliable c u.bucket laws) where
  open c use {State, Err, compose, copy}
  open laws use {stored}

  wrapped_quiet :
      (f : Err → GcsError Err) (o : Option Err × State)
      → o.0 ≡ none
      → (wrapped c to_lower f o).0 ≡ none
  unfolding wrapped
  wrapped_quiet f (none, s) h = refl
  wrapped_quiet f (some e, s) h = absurd (ground arith)

  held_single :
      (f : Bytes → Option Bytes) (k : Bytes) (d : Bytes)
      → contents f (k ∷ []) ≡ some d
      → f k ≡ some d
  held_single f k d h = elim (Option-cases (f k)) [
    | inl e ↦ absurd (ground arith)
    | inr (a, e) ↦ ground (arith, append-nil a)
  ]

  place_object_succeeds :
      (l : List Bytes) (s : State) (d : Bytes)
      → length l ≤ 32
      → All (λ k. eqb k u.name ≡ false) l
      → contents (stored s) l ≡ some d
      → (place_object c to_lower u l s).0 ≡ none
  unfolding place_object
  place_object_succeeds [] s d few apart h = refl
  place_object_succeeds (x ∷ []) s d few apart h =
      let a = attrs c to_lower u laws in
      rw (apart.0, place_object)
        (wrapped_quiet (finalising u.name) (copy u.bucket u.name a x s)
          (reliable.copies u.name a x s d (held_single (stored s) x d h)))
  place_object_succeeds (x ∷ y ∷ l) s d few apart h =
      let a = attrs c to_lower u laws in
      wrapped_quiet (composing u.name) (compose u.bucket u.name a (x ∷ y ∷ l) s)
        (reliable.composes u.name a (x ∷ y ∷ l) s d (λ e. ground arith) few h)

  compose_parts_succeeds :
      (l : List Part) (s : State) (d : Bytes)
      → length l < 2 ^ 63
      → contents (stored s) (source_names u l) ≡ some d
      → (compose_parts c to_lower u l s).0 ≡ none
  unfolding compose_parts finish_commit
  compose_parts_succeeds l s d small held =
      let names = source_names u l in
      let s' = (compose_tree c (length names) u 0 names s).1 in
      let count = length-map (λ p. part_name u p.number) l in
      let before = source_names-IsBefore u l in
      let (final, f) =
        compose_tree_succeeds c u laws reliable (length names) 0 names s d
          (omega (arith, small, count)) (omega arith) before held in
      let (few, same) =
        compose_tree-contents c u laws (length names) 0 names s final (omega (arith, small, count))
          before f in
      let placed =
        place_object_succeeds final s' d few
          (final-apart c to_lower u laws names s final (names-staged c to_lower u laws l) f)
          (same ∙ held) in
      ground (arith, f, placed)

  ok_parts : {x y : List Part} → ◌≡◌ {A = Result PartError (List Part)} (ok x) (ok y) → x ≡ y
  ok_parts h = ap (λ t. elim t [ ok a ↦ a | err e ↦ [] ]) h

  -- Where a compose of 1 to 32 objects that are there and a copy of one that is there succeed, a Commit
  -- of a live uploader whose parts, fewer than 2^63, are sorted and all staged reports no error, and
  -- the destination holds their contents in ascending order of the part numbers.
  pub gcs_commit_succeeds :
      (parts ordered : List Part) (s : State) (d : Bytes)
      → u.finished ≡ false
      → length parts < 2 ^ 63
      → sort_parts parts ≡ ok ordered
      → contents (stored s) (source_names u ordered) ≡ some d
      → ((gcs_commit c to_lower u parts s).0 ≡ none)
        × (stored (gcs_commit c to_lower u parts s).2 u.name ≡ some d)
  unfolding gcs_commit
  gcs_commit_succeeds parts ordered s d live small sorted held =
      let (long, _) = length-sort_parts parts sorted in
      let quiet : (gcs_commit c to_lower u parts s).0 ≡ none =
        rw (live, sorted, gcs_commit)
          (compose_parts_succeeds ordered s d (omega (arith, long, small)) held) in
      let (ordered', d', sorted', held', put, finished) =
        gcs_commit-stored c to_lower u laws parts s small quiet in
      let same : ordered ≡ ordered' = ok_parts (sym sorted ∙ sorted') in
      let found : contents (stored s) (source_names u ordered) ≡ some d' =
        ap (λ l. contents (stored s) (source_names u l)) same ∙ held' in
      (quiet, put ∙ sym found ∙ held)
