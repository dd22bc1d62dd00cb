-- ===== src/Upload/Finish/Frame.antt =====
-- What Commit leaves alone, whatever its outcome, and the guards that stop it before any write.
use mathlib.Core.Path.{subst}
use mathlib.Core.List.{Mem, not-mem-nil, mem-cons}
use mathlib.Core.Logic.Or
use mathlib.Core.HLevel.{¬_prop}
use mathlib.Core.List.Perm
use gocloud_ext.Common.{
  Bytes, true, false, List, [], ◌∷◌, none, ok, eqb, eqb_iff, has_prefix, ◌≡◌, ◌≢◌, refl, sym, ap,
  ◌∙◌, arith, Option-cases, ◌⊎◌, inl, inr, Result-cases,
}
use gocloud_ext.Multipart.{Part, sort_parts}
use gocloud_ext.Multipart.Sorting.{sort_parts-IsAscending}
use gocloud_ext.Blob.{Bucket}
use gocloud_ext.Blob.Laws.{Laws}
use gocloud_ext.Upload.{Uploader, part_key, writer_options, staging_prefix}
use gocloud_ext.Upload.Finish.{copy_parts, publish, assemble, commit, find_foreign}
use gocloud_ext.Upload.Finish.Commit.{copy_parts-stored}
use gocloud_ext.Upload.Finish.Cleanup.{delete_staged-stored}

module _ (b : Bucket) (laws : Laws b) where
  open b use {State, Err, Writer, close, new_writer}
  open laws use {stored, target, new_writer-stored, new_writer-target, close-stored_ne}

  publish-stored_ne :
      (u : Uploader) (w : Writer) (l : List Part) (s : State) (j : Bytes)
      → eqb (target w) j ≡ false
      → has_prefix j (staging_prefix u) ≡ false
      → stored (publish b u w l s).2 j ≡ stored s j
  unfolding publish
  publish-stored_ne u w l s j h n =
      let s' = (copy_parts b u w l s).1 in
      let s'' = (close w s').1 in
      ground (
        arith,
        copy_parts-stored b laws u w l s j,
        close-stored_ne w s' j h,
        delete_staged-stored b laws u s'' j n,
      )

  assemble-stored_ne :
      (u : Uploader) (l : List Part) (s : State) (j : Bytes)
      → eqb u.key j ≡ false
      → has_prefix j (staging_prefix u) ≡ false
      → stored (assemble b u l s).2 j ≡ stored s j
  unfolding assemble
  assemble-stored_ne u l s j h n = elim (Result-cases (new_writer u.key (writer_options u) s).0) [
    | inl (w, e) ↦
        let t = new_writer-target u.key (writer_options u) s w e in
        rw (e, assemble)
          (publish-stored_ne u w l (new_writer u.key (writer_options u) s).1 j
              (subst (λ k. eqb k j ≡ false) (sym t) h) n
            ∙ new_writer-stored u.key (writer_options u) s j)
    | inr (x, e) ↦ rw (e, assemble) (new_writer-stored u.key (writer_options u) s j)
  ]

  -- Whether it succeeds or fails, Commit changes no object but the destination and those under the
  -- upload's staging prefix.
  pub commit-stored_ne :
      (u : Uploader) (parts : List Part) (s : State) (j : Bytes)
      → eqb u.key j ≡ false
      → has_prefix j (staging_prefix u) ≡ false
      → stored (commit b u parts s).2 j ≡ stored s j
  unfolding commit
  commit-stored_ne u parts s j h n = elim (Result-cases (sort_parts parts)) [
    | inl (ordered, e) ↦ ground (arith, assemble-stored_ne u ordered s j h n)
    | inr (x, e) ↦ ground arith
  ]

module _ (b : Bucket) where
  open b use {State, Err}

  find_foreign-ne-none :
      (u : Uploader) (l : List Part) {p : Part}
      → Mem p l
      → p.tag ≢ []
      → p.tag ≢ part_key u p.number
      → find_foreign b u l ≢ none
  unfolding find_foreign
  find_foreign-ne-none u [] m h k = absurd (not-mem-nil m)
  find_foreign-ne-none u (q ∷ l) {p} m h k =
      Or.elim (¬_prop) (mem-cons.0 m)
        (λ e z.
          let given : q.tag ≢ [] = λ t. h (ap (λ (r : Part). r.tag) e ∙ t) in
          let foreign : q.tag ≢ part_key u q.number =
            subst (λ (r : Part). r.tag ≢ part_key u r.number) e k in
          ground (arith, eqb_iff q.tag [], eqb_iff q.tag (part_key u q.number), given, foreign))
        (λ m' z. find_foreign-ne-none u l m' h k (ground arith))

  -- A part whose tag is given and is not the name that this upload stages its number under makes
  -- Commit fail with the uploader and the bucket unchanged.
  pub commit_foreign_tag :
      (u : Uploader) (parts : List Part) (s : State) (p : Part)
      → Mem p parts
      → p.tag ≢ []
      → p.tag ≢ part_key u p.number
      → ((commit b u parts s).0 ≢ none)
        × ((commit b u parts s).1 ≡ u)
        × ((commit b u parts s).2 ≡ s)
  unfolding commit
  commit_foreign_tag u parts s p m h k = elim (Result-cases (sort_parts parts)) [
    | inl (ordered, e) ↦
        let there = (Perm.mem_iff (sort_parts-IsAscending parts e).0).1 m in
        let found = find_foreign-ne-none u ordered there h k in
        elim (Option-cases (find_foreign b u ordered)) [
          | inl none_found ↦ absurd (found none_found)
          | inr (x, some_found) ↦ (ground arith, ground arith, ground arith)
        ]
    | inr (x, e) ↦ (ground arith, ground arith, ground arith)
  ]

  -- A finished uploader, no part, a duplicate number: Commit reports it and changes nothing.
  pub commit_rejected :
      (u : Uploader) (parts : List Part) (s : State)
      → (u.finished ≡ true) ⊎ ((out : List Part) → sort_parts parts ≢ ok out)
      → ((commit b u parts s).0 ≢ none)
        × ((commit b u parts s).1 ≡ u)
        × ((commit b u parts s).2 ≡ s)
  unfolding commit
  commit_rejected u parts s (inl h) = rw h (cc, refl, refl)
  commit_rejected u parts s (inr h) = elim (Result-cases (sort_parts parts)) [
    | inl (ordered, e) ↦ absurd (h ordered e)
    | inr (x, e) ↦ (ground arith, ground arith, ground arith)
  ]
