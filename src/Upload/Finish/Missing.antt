-- ===== src/Upload/Finish/Missing.antt =====
-- Commit on a bucket that does not fail, with every part staged and with a part missing.
use mathlib.Core.Path.{subst}
use mathlib.Core.Option.{some-injective}
use gocloud_ext.Common.{
  ℕ, Bytes, false, List, [], ◌∷◌, ◌++◌, Option, none, some, ok, ◌≡◌, refl, sym, ap, ◌∙◌, arith,
  Option-cases, inl, inr, append-nil, append_assoc, ◌+◌, length,
}
use gocloud_ext.Multipart.{Part, sort_parts, check_part_sizes}
use gocloud_ext.Multipart.Sizes.{check_part_sizes_iff}
use gocloud_ext.Blob.{Bucket, Source, eof, broken, chunk, drain, io_copy}
use gocloud_ext.Blob.Laws.{Laws, Reliable}
use gocloud_ext.Upload.{Uploader, Error, missing_part, part_key, writer_options, constraints}
use gocloud_ext.Upload.Finish.{copy_part, copy_parts, find_foreign, publish, commit}
use gocloud_ext.Upload.Finish.Commit.{
  assembled, assembled-cons_inv, copy_part-stored, copy_part-buffered,
}

module _ (b : Bucket) (laws : Laws b) (reliable : Reliable b laws) where
  open b use {State, Err, Writer, new_reader, new_writer, write, close, code}
  open laws use {
    stored, buffered, target, new_reader-not_found, new_writer-stored, new_writer-target,
    new_writer-buffered, close-stored_self,
  }
  open reliable use {opens, writes, closes, reads}

  io_copy-none :
      (w : Writer) (r : Source Err) (n : ℕ) (s : State) (c : Bytes)
      → drain r ≡ some c
      → (io_copy b.write w r n s).1 ≡ none
  unfolding io_copy
  io_copy-none w eof n s c h = refl
  io_copy-none w (broken e) n s c h = absurd (cc)
  io_copy-none w (chunk d r) n s c h = elim (Option-cases (drain r)) [
    | inl e ↦ absurd (ground arith)
    | inr (rest, e) ↦
        ground (arith, writes w d s, io_copy-none w r (n + length d) (write w d s).1 rest e)
  ]

  copy_part-none :
      (u : Uploader) (w : Writer) (p : Part) (s : State) (c : Bytes)
      → stored s (part_key u p.number) ≡ some c
      → (copy_part b u w p s).0 ≡ none
  unfolding copy_part
  copy_part-none u w p s c h =
      let (r, e, d) = reads (part_key u p.number) s c h in
      ground (arith, e, io_copy-none w r 0 s c d)

  -- A part that is not staged.
  copy_part-missing :
      (u : Uploader) (w : Writer) (p : Part) (s : State)
      → stored s (part_key u p.number) ≡ none
      → (e : Err) × (copy_part b u w p s ≡ (some (missing_part p.number u.upload_id e), s))
  unfolding copy_part
  copy_part-missing u w p s h =
      let (e, failed, absent) = new_reader-not_found (part_key u p.number) s h in
      (e, ground (arith, failed, absent))

  copy_parts-none :
      (f : Bytes → Option Bytes) (u : Uploader) (w : Writer) (l : List Part) (s : State) (c : Bytes)
      → ((j : Bytes) → stored s j ≡ f j)
      → assembled f u l ≡ some c
      → (copy_parts b u w l s).0 ≡ none
  unfolding copy_parts
  copy_parts-none f u w [] s c same h = refl
  copy_parts-none f u w (p ∷ l) s c same h =
      let (d, rest, e, e', joined) = assembled-cons_inv f u p l c h in
      ground (
        arith,
        copy_part-none u w p s d (same (part_key u p.number) ∙ e),
        copy_parts-none f u w l (copy_part b u w p s).1 rest
            (λ j. copy_part-stored b laws u w p s j ∙ same j) e',
      )

  -- The copies stop at the missing part, with the contents of the parts before it in the writer.
  copy_parts-missing :
      (f : Bytes → Option Bytes) (u : Uploader) (w : Writer) (front back : List Part) (p : Part)
      (s : State) (c : Bytes)
      → ((j : Bytes) → stored s j ≡ f j)
      → assembled f u front ≡ some c
      → f (part_key u p.number) ≡ none
      → (e : Err) × ((copy_parts b u w (front ++ p ∷ back) s).0
          ≡ some (missing_part p.number u.upload_id e))
        × (buffered (copy_parts b u w (front ++ p ∷ back) s).1 w ≡ buffered s w ++ c)
  unfolding copy_parts
  copy_parts-missing f u w [] back p s c same h absent =
      let (e, stopped) = copy_part-missing u w p s (same (part_key u p.number) ∙ absent) in
      (
        e,
        ground (arith, stopped),
        rw (stopped, copy_parts)
            (ap (λ (t : Option (Error Err) × State). buffered t.1 w) stopped
              ∙ sym (append-nil (buffered s w))
              ∙ ap (λ t. buffered s w ++ t) (some-injective [] c h)),
      )
  copy_parts-missing f u w (q ∷ front) back p s c same h absent =
      let (d, rest, e, e', joined) = assembled-cons_inv f u q front c h in
      let s' = (copy_part b u w q s).1 in
      let copied = copy_part-none u w q s d (same (part_key u q.number) ∙ e) in
      let (d', there, grown) = copy_part-buffered b laws u w q s copied in
      let (x, stopped, held) =
        copy_parts-missing f u w front back p s' rest
          (λ j. copy_part-stored b laws u w q s j ∙ same j) e' absent in
      let same_content : d' ≡ d =
        some-injective d' d (sym there ∙ same (part_key u q.number) ∙ e) in
      (
        x,
        rw (copied, copy_parts) stopped,
        rw (copied, copy_parts)
            (held
              ∙ ap (λ t. t ++ rest) grown
              ∙ append_assoc (buffered s w) d' rest
              ∙ ap (λ t. buffered s w ++ t) (ap (λ t. t ++ rest) same_content ∙ joined)),
      )

  -- Guards that pass and a writer that opens leave the copies, Close and the clean-up.
  commit-eq-publish :
      (u : Uploader) (parts ordered : List Part) (s : State)
      → u.finished ≡ false
      → sort_parts parts ≡ ok ordered
      → find_foreign b u ordered ≡ none
      → (w : Writer) × ((new_writer u.key (writer_options u) s).0 ≡ ok w)
        × (commit b u parts s ≡ publish b u w ordered (new_writer u.key (writer_options u) s).1)
  unfolding commit
  commit-eq-publish u parts ordered s live sorted ours =
      let (w, opened) = opens u.key (writer_options u) s in
      let sized : check_part_sizes ordered constraints ≡ none =
        (check_part_sizes_iff ordered constraints).1 (λ k. absurd (omega arith)) in
      (w, opened, ground (arith, live, sorted, sized, ours, opened))

  -- On a bucket that does not fail, Commit succeeds when the uploader is live, the parts have distinct
  -- numbers and no foreign tag, and each of them is staged.
  pub commit_succeeds :
      (u : Uploader) (parts ordered : List Part) (s : State) (c : Bytes)
      → u.finished ≡ false
      → sort_parts parts ≡ ok ordered
      → find_foreign b u ordered ≡ none
      → assembled (stored s) u ordered ≡ some c
      → (commit b u parts s).0 ≡ none
  unfolding publish
  commit_succeeds u parts ordered s c live sorted ours there =
      let (w, opened, same) = commit-eq-publish u parts ordered s live sorted ours in
      let s' = (new_writer u.key (writer_options u) s).1 in
      let copied =
        copy_parts-none (stored s) u w ordered s' c (new_writer-stored u.key (writer_options u) s)
          there in
      rw same (ground (arith, copied, closes w (copy_parts b u w ordered s').1))

  -- On a bucket that does not fail, a Commit in which the part `p` is the first that is not staged
  -- fails with the missing-part error, and yet leaves an object at the destination: the contents of
  -- the parts before `p`.
  pub commit_missing_publishes :
      (u : Uploader) (parts front back : List Part) (p : Part) (s : State) (c : Bytes)
      → u.finished ≡ false
      → sort_parts parts ≡ ok (front ++ p ∷ back)
      → find_foreign b u (front ++ p ∷ back) ≡ none
      → assembled (stored s) u front ≡ some c
      → stored s (part_key u p.number) ≡ none
      → (e : Err) × ((commit b u parts s).0 ≡ some (missing_part p.number u.upload_id e))
        × (stored (commit b u parts s).2 u.key ≡ some c)
  unfolding publish
  commit_missing_publishes u parts front back p s c live sorted ours there absent =
      let ordered = front ++ p ∷ back in
      let (w, opened, same) = commit-eq-publish u parts ordered s live sorted ours in
      let s' = (new_writer u.key (writer_options u) s).1 in
      let (e, stopped, held) =
        copy_parts-missing (stored s) u w front back p s' c
          (new_writer-stored u.key (writer_options u) s) there absent in
      let s'' = (copy_parts b u w ordered s').1 in
      let published = close-stored_self w s'' (closes w s'') in
      (
        e,
        rw same (ground (arith, stopped)),
        rw same (
            rw (stopped, publish)
              (subst (λ j. stored (close w s'').1 j ≡ some (buffered s'' w))
                  (new_writer-target u.key (writer_options u) s w opened) published
                ∙ ap some (
                    held
                    ∙ ap (λ t. t ++ c) (new_writer-buffered u.key (writer_options u) s w opened)))),
      )
