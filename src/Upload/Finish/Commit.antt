-- ===== src/Upload/Finish/Commit.antt =====
-- What Commit publishes.
use mathlib.Core.Path.{subst}
use gocloud_ext.Common.{
  Bytes, true, List, [], ◌∷◌, ◌++◌, Option, none, some, ok, ◌≡◌, refl, sym, ap, ◌∙◌, append-nil,
  append_assoc, arith, Option-cases, inl, inr, Result-cases,
}
use gocloud_ext.Multipart.{Part, sort_parts}
use gocloud_ext.Blob.{Bucket, io_copy}
use gocloud_ext.Blob.Laws.{Laws}
use gocloud_ext.Blob.Copy.{io_copy-stored, io_copy-buffered}
use gocloud_ext.Upload.{Uploader, part_key, writer_options}
use gocloud_ext.Upload.Staging.{key-not_staged}
use gocloud_ext.Upload.Finish.Cleanup.{delete_staged-stored}
use gocloud_ext.Upload.Finish.{copy_part, copy_parts, publish, assemble, commit}

-- The contents staged for the parts, one behind the other; none if one of them is not there.
abbrev pub assembled : (Bytes → Option Bytes) → Uploader → List Part → Option Bytes
assembled f u [] = some []
assembled f u (p ∷ l) = elim (f (part_key u p.number)) [
  | none ↦ none
  | some c ↦ elim (assembled f u l) [ none ↦ none | some rest ↦ some (c ++ rest) ]
]

pub assembled-cons :
    (f : Bytes → Option Bytes) (u : Uploader) (p : Part) (l : List Part) (c rest : Bytes)
    → f (part_key u p.number) ≡ some c
    → assembled f u l ≡ some rest
    → assembled f u (p ∷ l) ≡ some (c ++ rest)
assembled-cons f u p l c rest h k = ground arith

pub assembled-cons_inv :
    (f : Bytes → Option Bytes) (u : Uploader) (p : Part) (l : List Part) (c : Bytes)
    → assembled f u (p ∷ l) ≡ some c
    → (d : Bytes) × (rest : Bytes) × (f (part_key u p.number) ≡ some d)
      × (assembled f u l ≡ some rest)
      × (d ++ rest ≡ c)
assembled-cons_inv f u p l c h = elim (Option-cases (f (part_key u p.number))) [
  | inl e ↦ absurd (ground arith)
  | inr (d, e) ↦ elim (Option-cases (assembled f u l)) [
    | inl e' ↦ absurd (ground arith)
    | inr (rest, e') ↦ (d, rest, e, e', ground arith)
  ]
]

module _ (b : Bucket) (laws : Laws b) where
  open b use {State, Err, Writer, new_reader}
  open laws use {stored, buffered, new_reader-stored}

  pub copy_part-stored :
      (u : Uploader) (w : Writer) (p : Part) (s : State) (j : Bytes)
      → stored (copy_part b u w p s).1 j ≡ stored s j
  unfolding copy_part
  copy_part-stored u w p s j = elim (Result-cases (new_reader (part_key u p.number) s)) [
    | inl (r, h) ↦
        rw (h, copy_part) (io_copy-stored b.write laws.stored laws.write-stored w r 0 s j)
    | inr (e, h) ↦ rw (h, copy_part) refl
  ]

  pub copy_part-buffered :
      (u : Uploader) (w : Writer) (p : Part) (s : State)
      → (copy_part b u w p s).0 ≡ none
      → (c : Bytes) × (stored s (part_key u p.number) ≡ some c)
        × (buffered (copy_part b u w p s).1 w ≡ buffered s w ++ c)
  unfolding copy_part
  copy_part-buffered u w p s k = elim (Result-cases (new_reader (part_key u p.number) s)) [
    | inl (r, h) ↦
        let copied : (io_copy b.write w r 0 s).1 ≡ none = ground arith in
        let (c, d, e) = io_copy-buffered b.write laws.buffered laws.write-buffered w r 0 s copied in
        (c, new_reader-stored (part_key u p.number) s r c h d, rw (h, copy_part) e)
    | inr (e, h) ↦ absurd (ground arith)
  ]

  pub copy_parts-stored :
      (u : Uploader) (w : Writer) (l : List Part) (s : State) (j : Bytes)
      → stored (copy_parts b u w l s).1 j ≡ stored s j
  unfolding copy_parts
  copy_parts-stored u w [] s j = refl
  copy_parts-stored u w (p ∷ l) s j =
      ground (arith, copy_parts-stored u w l (copy_part b u w p s).1 j, copy_part-stored u w p s j)

  -- Copies that all succeed leave the staged contents in the writer.
  pub copy_parts-buffered :
      (f : Bytes → Option Bytes) (u : Uploader) (w : Writer) (l : List Part) (s : State)
      → ((j : Bytes) → stored s j ≡ f j)
      → (copy_parts b u w l s).0 ≡ none
      → (c : Bytes) × (assembled f u l ≡ some c)
        × (buffered (copy_parts b u w l s).1 w ≡ buffered s w ++ c)
  unfolding copy_parts
  copy_parts-buffered f u w [] s same k = ([], refl, sym (append-nil (buffered s w)))
  copy_parts-buffered f u w (p ∷ l) s same k = elim (Option-cases (copy_part b u w p s).0) [
    | inl h ↦
        let (c, d, e) = copy_part-buffered u w p s h in
        let s' = (copy_part b u w p s).1 in
        let (rest, d', e') =
          copy_parts-buffered f u w l s' (λ j. copy_part-stored u w p s j ∙ same j)
            (rw (h, copy_parts) at k) in
        (
          c ++ rest,
          assembled-cons f u p l c rest (sym (same (part_key u p.number)) ∙ d) d',
          rw (h, copy_parts) (e' ∙ ap (λ t. t ++ rest) e ∙ append_assoc (buffered s w) c rest),
        )
    | inr (x, h) ↦ absurd (ground arith)
  ]

  open b use {close, new_writer}
  open laws use {
    target, new_writer-stored, new_writer-target, new_writer-buffered, close-stored_self,
    close-stored_ne,
  }

  -- The destination after the copies, a Close without error and the clean-up.
  publish-stored :
      (f : Bytes → Option Bytes) (u : Uploader) (w : Writer) (l : List Part) (s : State)
      → ((j : Bytes) → stored s j ≡ f j)
      → target w ≡ u.key
      → buffered s w ≡ []
      → (publish b u w l s).0 ≡ none
      → (c : Bytes) × (assembled f u l ≡ some c) × (stored (publish b u w l s).2 u.key ≡ some c)
  unfolding publish
  publish-stored f u w l s same tw bw k =
      let s' = (copy_parts b u w l s).1 in
      let copied : (copy_parts b u w l s).0 ≡ none = ground arith in
      let closed : (close w s').0 ≡ none = ground arith in
      let (c, a, e) = copy_parts-buffered f u w l s same copied in
      (
        c,
        a,
        rw (copied, closed, publish)
            (delete_staged-stored b laws u (close w s').1 u.key (key-not_staged u)
              ∙ subst (λ j. stored (close w s').1 j ≡ some (buffered s' w)) tw
                  (close-stored_self w s' closed)
              ∙ ap some (e ∙ ap (λ t. t ++ c) bw)),
      )

  assemble-stored :
      (u : Uploader) (l : List Part) (s : State)
      → (assemble b u l s).0 ≡ none
      → (c : Bytes) × (assembled (stored s) u l ≡ some c)
        × (stored (assemble b u l s).2 u.key ≡ some c)
  unfolding assemble
  assemble-stored u l s k = elim (Result-cases (new_writer u.key (writer_options u) s).0) [
    | inl (w, h) ↦
        let s' = (new_writer u.key (writer_options u) s).1 in
        let published : (publish b u w l s').0 ≡ none = rw (h, assemble) at k in
        rw (h, assemble)
          (publish-stored (stored s) u w l s' (new_writer-stored u.key (writer_options u) s)
            (new_writer-target u.key (writer_options u) s w h)
            (new_writer-buffered u.key (writer_options u) s w h) published)
    | inr (e, h) ↦ absurd (ground arith)
  ]

  assemble-finished :
      (u : Uploader) (l : List Part) (s : State)
      → (assemble b u l s).0 ≡ none
      → (assemble b u l s).1.finished ≡ true
  unfolding assemble
  assemble-finished u l s k = ground arith

  -- Past the guards a Commit is the assembly of the sorted parts.
  commit-eq-assemble :
      (u : Uploader) (parts : List Part) (s : State)
      → (commit b u parts s).0 ≡ none
      → (ordered : List Part) × (sort_parts parts ≡ ok ordered)
        × (commit b u parts s ≡ assemble b u ordered s)
  unfolding commit
  commit-eq-assemble u parts s k = elim (Result-cases (sort_parts parts)) [
    | inl (ordered, h) ↦ (ordered, h, ground arith)
    | inr (e, h) ↦ absurd (ground arith)
  ]

  -- A Commit that reports no error sorted the parts, found the content of every one of them under its
  -- staging name, and published their contents, in ascending order of the part numbers, at the
  -- destination; the uploader is finished.
  pub commit-stored :
      (u : Uploader) (parts : List Part) (s : State)
      → (commit b u parts s).0 ≡ none
      → (ordered : List Part) × (c : Bytes) × (sort_parts parts ≡ ok ordered)
        × (assembled (stored s) u ordered ≡ some c)
        × (stored (commit b u parts s).2 u.key ≡ some c)
        × ((commit b u parts s).1.finished ≡ true)
  commit-stored u parts s k =
      let (ordered, h, same) = commit-eq-assemble u parts s k in
      let done : (assemble b u ordered s).0 ≡ none = rw same at k in
      let (c, a, e) = assemble-stored u ordered s done in
      (ordered, c, h, a, rw same e, rw same (assemble-finished u ordered s done))
