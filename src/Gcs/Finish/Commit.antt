-- ===== src/Gcs/Finish/Commit.antt =====
-- What Commit stores at the destination.
use gocloud_ext.Common.{
  suc, ◌^◌, ◌<◌, Bytes, true, false, List, [], ◌∷◌, map, length, All, Option, none, some, ok, eqb,
  ◌≡◌, ◌≢◌, refl, sym, ap, ◌∙◌, append-nil, arith, Bool-cases, ℤ, All-map, has_prefix,
  has_prefix-append, Option-cases, Result-cases, inl, inr,
}
use gocloud_ext.Multipart.{Part, sort_parts}
use gocloud_ext.Multipart.Sorting.{length-sort_parts}
use gocloud_ext.Upload.Staging.{eqb_of_prefix}
use gocloud_ext.Gcs.{
  GcsClient, GcsUploader, GcsError, ObjectAttrs, part_name, gcs_staging_prefix, finalising,
  composing,
}
use gocloud_ext.Blob.Contents.{contents}
use gocloud_ext.Gcs.Laws.{GcsLaws}
use gocloud_ext.Gcs.Compose.{compose_tree, no_attrs}
use gocloud_ext.Gcs.Compose.Names.{IsBefore, IsBefore-part_name, inter_name-prefix}
use gocloud_ext.Gcs.Compose.Kept.{compose_tree-contents, compose_tree-ne-nil, compose_tree-All}
use gocloud_ext.Gcs.Finish.{
  apply_attrs, source_names, wrapped, place_object, finish_commit, compose_parts, gcs_commit,
}
use gocloud_ext.Gcs.Finish.Cleanup.{gcs_delete_staged-stored, name-not_staged}

pub length-map {ℓ κ} :
    {A : Type ℓ} {B : Type κ} (f : A → B) (l : List A) → length (map f l) ≡ length l
length-map f [] = refl
length-map f (x ∷ l) = ap suc (length-map f l)

pub source_names-IsBefore :
    (u : GcsUploader) (l : List Part) → All (IsBefore u 0) (source_names u l)
source_names-IsBefore u [] = tt
source_names-IsBefore u (p ∷ l) = (IsBefore-part_name u p.number, source_names-IsBefore u l)

module _ (c : GcsClient) (to_lower : Bytes → Bytes) (u : GcsUploader)
    (laws : GcsLaws c u.bucket) where
  open c use {State, Err, compose, copy}
  open laws use {stored, compose-stored_self, copy-stored_self}

  abbrev pub attrs : ObjectAttrs
  attrs = apply_attrs to_lower u.opts no_attrs

  abbrev pub IsStaged : Bytes → Type 0
  IsStaged j = has_prefix j (gcs_staging_prefix u) ≡ true

  part_name-IsStaged : (n : ℤ) → IsStaged (part_name u n)
  unfolding part_name
  part_name-IsStaged n = has_prefix-append (gcs_staging_prefix u) _

  -- A call whose error is wrapped.
  wrapped-none :
      (f : Err → GcsError Err) (o : Option Err × State)
      → (wrapped c to_lower f o).0 ≡ none
      → (o.0 ≡ none) × ((wrapped c to_lower f o).1 ≡ o.1)
  unfolding wrapped
  wrapped-none f (none, s) h = (refl, refl)
  wrapped-none f (some e, s) h = absurd (ground arith)

  contents_single :
      (f : Bytes → Option Bytes) (k : Bytes) (d : Bytes)
      → f k ≡ some d
      → contents f (k ∷ []) ≡ some d
  contents_single f k d h = rw h (ap some (append-nil d))

  -- Where the last step reports no error, the destination holds what the objects held, which are not
  -- the destination.
  place_object-stored :
      (l : List Bytes) (s : State)
      → l ≢ []
      → All (λ k. eqb k u.name ≡ false) l
      → (place_object c to_lower u l s).0 ≡ none
      → (d : Bytes) × (contents (stored s) l ≡ some d)
        × (stored (place_object c to_lower u l s).1 u.name ≡ some d)
  unfolding place_object
  place_object-stored [] s ne apart k = absurd (ne refl)
  place_object-stored (x ∷ []) s ne apart k =
      let run = copy u.bucket u.name attrs x s in
      let (quiet, after) = wrapped-none (finalising u.name) run (rw (apart.0, place_object) at k) in
      let (a, read, put) = copy-stored_self u.name attrs x s quiet in
      (
        a,
        contents_single (stored s) x a read,
        rw (apart.0, place_object) (ap (λ t. stored t u.name) after ∙ put),
      )
  place_object-stored (x ∷ y ∷ l) s ne apart k =
      let run = compose u.bucket u.name attrs (x ∷ y ∷ l) s in
      let (quiet, after) = wrapped-none (composing u.name) run k in
      let (a, read, put) = compose-stored_self u.name attrs (x ∷ y ∷ l) s quiet in
      (a, read, ap (λ t. stored t u.name) after ∙ put)

  finish_commit-stored :
      (l : List Bytes) (s : State)
      → l ≢ []
      → All (λ k. eqb k u.name ≡ false) l
      → (finish_commit c to_lower u l s).0 ≡ none
      → (d : Bytes) × (contents (stored s) l ≡ some d)
        × (stored (finish_commit c to_lower u l s).2 u.name ≡ some d)
        × ((finish_commit c to_lower u l s).1 ≡ record u { finished = true })
  unfolding finish_commit
  finish_commit-stored l s ne apart k = elim (Option-cases (place_object c to_lower u l s).0) [
    | inr (e, f) ↦ absurd (ground arith)
    | inl f ↦
        let (d, held, put) = place_object-stored l s ne apart f in
        let s' = (place_object c to_lower u l s).1 in
        (
          d,
          held,
          rw (f, finish_commit)
              (gcs_delete_staged-stored c u laws s' u.name (name-not_staged u) ∙ put),
          rw (f, finish_commit) refl,
        )
  ]

  map_ne_nil : (l : List Part) → l ≢ [] → source_names u l ≢ []
  map_ne_nil [] ne h = ne refl
  map_ne_nil (p ∷ l) ne h = ground arith

  pub names-staged : (l : List Part) → All IsStaged (source_names u l)
  names-staged [] = tt
  names-staged (p ∷ l) = (part_name-IsStaged p.number, names-staged l)

  -- What composeTree leaves is staged, so it is not the destination.
  pub final-apart :
      (l : List Bytes) (s : State) (final : List Bytes)
      → All IsStaged l
      → (compose_tree c (length l) u 0 l s).0 ≡ ok final
      → All (λ k. eqb k u.name ≡ false) final
  final-apart l s final h k =
      All-map IsStaged (λ j. eqb j u.name ≡ false)
        (λ j p. eqb_of_prefix (gcs_staging_prefix u) j u.name p (name-not_staged u)) final
        (compose_tree-All c u IsStaged (inter_name-prefix u) (length l) 0 l s final h k)

  compose_parts-stored :
      (l : List Part) (s : State)
      → length l < 2 ^ 63
      → l ≢ []
      → (compose_parts c to_lower u l s).0 ≡ none
      → (d : Bytes) × (contents (stored s) (source_names u l) ≡ some d)
        × (stored (compose_parts c to_lower u l s).2 u.name ≡ some d)
        × ((compose_parts c to_lower u l s).1 ≡ record u { finished = true })
  unfolding compose_parts
  compose_parts-stored l s small ne k =
      let names = source_names u l in
      let (composed, s') = compose_tree c (length names) u 0 names s in
      elim (Result-cases composed) [
        | inr (e, f) ↦ absurd (ground arith)
        | inl (final, f) ↦
            let (few, same) =
              compose_tree-contents c u laws (length names) 0 names s final
                (omega (arith, small, length-map (λ p. part_name u p.number) l))
                (source_names-IsBefore u l) f in
            let some_left =
              compose_tree-ne-nil c u (length names) 0 names s final (map_ne_nil l ne) f in
            let (d, held, put, finished) =
              finish_commit-stored final s' some_left (final-apart names s final (names-staged l) f)
                (rw (f, compose_parts) at k) in
            (d, sym same ∙ held, rw (f, compose_parts) put, rw (f, compose_parts) finished)
      ]

  -- A Commit of fewer than 2^63 parts that reports no error sorted the parts, found every one of them
  -- under its staging name, and left their contents, in ascending order of the part numbers, at the
  -- destination, however many rounds of composes it took; the uploader is finished.
  pub gcs_commit-stored :
      (parts : List Part) (s : State)
      → length parts < 2 ^ 63
      → (gcs_commit c to_lower u parts s).0 ≡ none
      → (ordered : List Part) × (d : Bytes) × (sort_parts parts ≡ ok ordered)
        × (contents (stored s) (source_names u ordered) ≡ some d)
        × (stored (gcs_commit c to_lower u parts s).2 u.name ≡ some d)
        × ((gcs_commit c to_lower u parts s).1 ≡ record u { finished = true })
  unfolding gcs_commit
  gcs_commit-stored parts s small k = elim (Bool-cases u.finished) [
    | inl z ↦ absurd (ground arith)
    | inr z ↦ elim (Result-cases (sort_parts parts)) [
      | inr (e, h) ↦ absurd (ground arith)
      | inl (ordered, h) ↦
          let (long, ne) = length-sort_parts parts h in
          let (d, held, put, finished) =
            compose_parts-stored ordered s (omega (arith, long, small)) ne
              (rw (z, h, gcs_commit) at k) in
          (ordered, d, h, held, rw (z, h, gcs_commit) put, rw (z, h, gcs_commit) finished)
    ]
  ]
