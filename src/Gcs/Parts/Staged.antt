-- ===== src/Gcs/Parts/Staged.antt =====
-- UploadPart and ListParts: what is stored, and what is listed.
use mathlib.Core.Path.{subst}
use mathlib.Core.List.{Perm}
use mathlib.Core.List.Perm
use gocloud_ext.Common.{
  ℕ, ℤ, pos, ◌^◌, ◌<◌, Bytes, false, List, [], ◌∷◌, ◌++◌, length, none, some, ok, eqb, ◌≡◌, refl,
  sym, ap, ◌∙◌, inl, inr, arith, Bool-cases, Option-cases, Result-cases,
}
use gocloud_ext.Multipart.{Part, validate_part_number}
use gocloud_ext.Multipart.Sorting.{IsAscending, sort_parts-IsAscending}
use gocloud_ext.Decimal.{format_padded}
use gocloud_ext.Decimal.RoundTrip.{parse_int-format_padded}
use gocloud_ext.Blob.{Source, drain, io_copy}
use gocloud_ext.Blob.Copy.{io_copy-stored, io_copy-buffered, io_copy-count}
use gocloud_ext.Upload.Stage.Listed.{trim_prefix-append}
use gocloud_ext.Gcs.{
  GcsClient, GcsUploader, gcs_constraints, gcs_staging_prefix, part_name, gcs_part_name_width,
}
use gocloud_ext.Gcs.Laws.{GcsLaws}
use gocloud_ext.Gcs.Parts.{
  write_part, gcs_upload_part, staged_part, staged_parts, sort_staged, gcs_list_parts,
}

-- The object of a part whose number is not negative is listed as that part, and no other.
pub staged_part-part_name :
    (c : GcsClient) (u : GcsUploader) (n : ℕ) (size : ℤ)
    → n < 2 ^ 63
    → staged_part c (gcs_staging_prefix u) (part_name u (pos n)) size
      ≡ some (record { number = pos n; size = size; tag = part_name u (pos n) })
unfolding staged_part part_name
staged_part-part_name c u n size h =
    let name = format_padded gcs_part_name_width (pos n) in
    ground (arith, trim_prefix-append (gcs_staging_prefix u) name, parse_int-format_padded 5 n h)

module _ (c : GcsClient) where
  sort_staged-IsAscending :
      (found parts : List Part)
      → sort_staged c found ≡ ok parts
      → Perm parts found × IsAscending parts
  unfolding sort_staged
  sort_staged-IsAscending [] [] h = (Perm.refl [], tt)
  sort_staged-IsAscending [] (p ∷ parts) h = absurd (ground arith)
  sort_staged-IsAscending (q ∷ found) parts h = sort_parts-IsAscending (q ∷ found) (ground arith)

  -- What ListParts returns is the parts that the listing shows, by strictly ascending numbers.
  pub gcs_list_parts-IsAscending :
      (u : GcsUploader) (s : c.State) (parts : List Part)
      → gcs_list_parts c u s ≡ ok parts
      → (found : List Part) × (staged_parts c
            (gcs_staging_prefix u)
            (c.list u.bucket (gcs_staging_prefix u) s)
          ≡ ok found)
        × Perm parts found
        × IsAscending parts
  unfolding gcs_list_parts
  gcs_list_parts-IsAscending u s parts h =
      elim (Result-cases
        (staged_parts c (gcs_staging_prefix u) (c.list u.bucket (gcs_staging_prefix u) s))) [
          | inl (found, e) ↦
              let (p, a) = sort_staged-IsAscending found parts (ground arith) in (found, e, p, a)
          | inr (x, e) ↦ absurd (ground arith)
        ]

module _ (c : GcsClient) (u : GcsUploader) (laws : GcsLaws c u.bucket) where
  open c use {State, Err, Writer, new_writer, write, close, delete}
  open laws use {
    stored, buffered, target, new_writer-stored, new_writer-target, new_writer-buffered,
    write-stored, write-buffered, close-stored_self, close-stored_ne, delete-stored_ne,
  }

  write_part-stored :
      (number : ℤ) (name : Bytes) (w : Writer) (r : Source Err) (s : State) (p : Part)
      → target w ≡ name
      → buffered s w ≡ []
      → (write_part c u.bucket number name w r s).0 ≡ ok p
      → (d : Bytes) × (drain r ≡ some d)
        × (p ≡ record { number = number; size = pos (length d); tag = name })
        × (stored (write_part c u.bucket number name w r s).1 name ≡ some d)
  unfolding write_part
  write_part-stored number name w r s p tw bw h =
      let s' = (io_copy write w r 0 s).2 in
      let copied : (io_copy write w r 0 s).1 ≡ none = ground arith in
      let shut : (close w s').0 ≡ none = ground arith in
      let (d, e, f) = io_copy-buffered write buffered write-buffered w r 0 s copied in
      (
        d,
        e,
        ground (arith, io_copy-count write w r 0 s d copied e),
        rw (copied, shut, write_part)
            (subst (λ j. stored (close w s').1 j ≡ some (buffered s' w)) tw
                (close-stored_self w s' shut)
              ∙ ap some (f ∙ ap (λ t. t ++ d) bw)),
      )

  -- Nothing but the part's own object changes, whatever the outcome.
  write_part-stored_ne :
      (number : ℤ) (name : Bytes) (w : Writer) (r : Source Err) (s : State) (j : Bytes)
      → target w ≡ name
      → eqb name j ≡ false
      → stored (write_part c u.bucket number name w r s).1 j ≡ stored s j
  unfolding write_part
  write_part-stored_ne number name w r s j tw h =
      let s' = (io_copy write w r 0 s).2 in
      let s'' = (close w s').1 in
      ground (
        arith,
        io_copy-stored write stored write-stored w r 0 s j,
        close-stored_ne w s' j (subst (λ k. eqb k j ≡ false) (sym tw) h),
        delete-stored_ne name s'' j h,
      )

  gcs_upload_part_live :
      (number : ℤ) (r : Source Err) (s : State)
      → u.finished ≡ false
      → validate_part_number number gcs_constraints ≡ none
      → gcs_upload_part c u number r s
        ≡ write_part c u.bucket number
            (part_name u number)
            (new_writer u.bucket (part_name u number) s).0
            r
            (new_writer u.bucket (part_name u number) s).1
  unfolding gcs_upload_part
  gcs_upload_part_live number r s z v = simp (z, v) refl

  -- An UploadPart that returns a part accepted the number, read the whole source, and stored exactly
  -- its bytes under the part's name; the part has the number, the byte count and that name, and every
  -- other object is as it was.
  pub gcs_upload_part-stored :
      (number : ℤ) (r : Source Err) (s : State) (p : Part) (j : Bytes)
      → eqb (part_name u number) j ≡ false
      → (gcs_upload_part c u number r s).0 ≡ ok p
      → (validate_part_number number gcs_constraints ≡ none)
        × ((d : Bytes) × (drain r ≡ some d)
            × (p ≡ record { number = number; size = pos (length d); tag = part_name u number })
            × (stored (gcs_upload_part c u number r s).1 (part_name u number) ≡ some d))
        × (stored (gcs_upload_part c u number r s).1 j ≡ stored s j)
  unfolding gcs_upload_part
  gcs_upload_part-stored number r s p j h k = elim (Bool-cases u.finished) [
    | inl z ↦ absurd (ground arith)
    | inr z ↦ elim (Option-cases (validate_part_number number gcs_constraints)) [
      | inr (e, v) ↦ absurd (ground arith)
      | inl v ↦
          let name = part_name u number in
          let (w, s') = new_writer u.bucket name s in
          let live = gcs_upload_part_live number r s z v in
          let wrote =
            write_part-stored number name w r s' p (new_writer-target name s)
              (new_writer-buffered name s) (sym (ap (λ t. t.0) live) ∙ k) in
          (
            v,
            rw live wrote,
            rw live (
                write_part-stored_ne number name w r s' j (new_writer-target name s) h
                ∙ new_writer-stored name s j),
          )
    ]
  ]
