-- ===== src/Upload/Stage/Written.antt =====
-- UploadPart: what it stores, what it refuses, and what a failure leaves.
use mathlib.Core.Path.{subst}
use gocloud_ext.Common.{
  ℤ, pos, Bytes, false, none, some, ok, err, eqb, ◌≡◌, ◌≢◌, refl, sym, ap, ◌∙◌, ◌⊎◌, inl, inr, ◌++◌,
  [], length, arith, Option-cases, Result-cases, Bool-cases,
}
use gocloud_ext.Multipart.{Part, validate_part_number}
use gocloud_ext.Blob.{Bucket, Source, drain, io_copy}
use gocloud_ext.Blob.Laws.{Laws, CanDelete, delete-stored}
use gocloud_ext.Blob.Copy.{io_copy-stored, io_copy-buffered, io_copy-count}
use gocloud_ext.Upload.{Uploader, Error, constraints, part_key}
use gocloud_ext.Upload.Stage.{upload_part, stage_part, fill_part}

module _ (b : Bucket) (laws : Laws b) where
  open b use {State, Err, Writer, new_writer, close, delete}
  open laws use {
    stored, buffered, target, new_writer-stored, new_writer-target, new_writer-buffered,
    close-stored_self, close-stored_ne, delete-stored_ne,
  }

  -- A part that was written whole.
  fill_part-stored :
      (number : ℤ) (key : Bytes) (w : Writer) (r : Source Err) (s : State) (p : Part)
      → target w ≡ key
      → buffered s w ≡ []
      → (fill_part b number key w r s).0 ≡ ok p
      → (c : Bytes) × (drain r ≡ some c)
        × (p ≡ record { number = number; size = pos (length c); tag = key })
        × (stored (fill_part b number key w r s).1 key ≡ some c)
  unfolding fill_part
  fill_part-stored number key w r s p tw bw h =
      let s' = (io_copy b.write w r 0 s).2 in
      let copied : (io_copy b.write w r 0 s).1 ≡ none = ground arith in
      let shut : (close w s').0 ≡ none = ground arith in
      let (c, d, e) = io_copy-buffered b.write laws.buffered laws.write-buffered w r 0 s copied in
      (
        c,
        d,
        ground (arith, io_copy-count b.write w r 0 s c copied d),
        rw (copied, shut, fill_part)
            (subst (λ j. stored (close w s').1 j ≡ some (buffered s' w)) tw
                (close-stored_self w s' shut)
              ∙ ap some (e ∙ ap (λ t. t ++ c) bw)),
      )

  stage_part-stored :
      (number : ℤ) (key : Bytes) (r : Source Err) (s : State) (p : Part)
      → (stage_part b number key r s).0 ≡ ok p
      → (c : Bytes) × (drain r ≡ some c)
        × (p ≡ record { number = number; size = pos (length c); tag = key })
        × (stored (stage_part b number key r s).1 key ≡ some c)
  unfolding stage_part
  stage_part-stored number key r s p h = elim (Result-cases (new_writer key none s).0) [
    | inl (w, e) ↦
        let s' = (new_writer key none s).1 in
        rw (e, stage_part)
          (fill_part-stored number key w r s' p (new_writer-target key none s w e)
            (new_writer-buffered key none s w e) (rw (e, stage_part) at h))
    | inr (x, e) ↦ absurd (ground arith)
  ]

  -- Nothing but the part's own object changes, whatever the outcome.
  fill_part-stored_ne :
      (number : ℤ) (key : Bytes) (w : Writer) (r : Source Err) (s : State) (j : Bytes)
      → target w ≡ key
      → eqb key j ≡ false
      → stored (fill_part b number key w r s).1 j ≡ stored s j
  unfolding fill_part
  fill_part-stored_ne number key w r s j tw h =
      let s' = (io_copy b.write w r 0 s).2 in
      let s'' = (close w s').1 in
      ground (
        arith,
        io_copy-stored b.write laws.stored laws.write-stored w r 0 s j,
        close-stored_ne w s' j (subst (λ k. eqb k j ≡ false) (sym tw) h),
        delete-stored_ne key s'' j h,
      )

  -- A copy or a Close that failed has been deleted, where Delete succeeds.
  fill_part-dropped :
      (number : ℤ) (key : Bytes) (w : Writer) (r : Source Err) (s : State) (e : Error Err)
      → CanDelete b key
      → (fill_part b number key w r s).0 ≡ err e
      → stored (fill_part b number key w r s).1 key ≡ none
  unfolding fill_part
  fill_part-dropped number key w r s e quiet h =
      let s'' = (close w (io_copy b.write w r 0 s).2).1 in
      ground (arith, delete-stored b laws key s'' quiet)

  upload_part-eq-stage :
      (u : Uploader) (number : ℤ) (r : Source Err) (s : State)
      → ((upload_part b u number r s ≡ stage_part b number (part_key u number) r s)
          × (u.finished ≡ false)
          × (validate_part_number number constraints ≡ none))
        ⊎ (((p : Part) → (upload_part b u number r s).0 ≢ ok p)
            × ((upload_part b u number r s).1 ≡ s))
  unfolding upload_part
  upload_part-eq-stage u number r s = elim (Bool-cases u.finished) [
    | inl e ↦ inr ((λ p. ground arith), ground arith)
    | inr e ↦ elim (Option-cases (validate_part_number number constraints)) [
      | inl v ↦ inl (ground arith, e, v)
      | inr (x, v) ↦ inr ((λ p. ground arith), ground arith)
    ]
  ]

  -- An UploadPart that returns a part accepted the number, read the whole source, and stored exactly
  -- its bytes under the part's name; the part has the number, the byte count and that name.
  pub upload_part-stored :
      (u : Uploader) (number : ℤ) (r : Source Err) (s : State) (p : Part)
      → (upload_part b u number r s).0 ≡ ok p
      → (validate_part_number number constraints ≡ none)
        × ((c : Bytes) × (drain r ≡ some c)
            × (p ≡ record { number = number; size = pos (length c); tag = part_key u number })
            × (stored (upload_part b u number r s).1 (part_key u number) ≡ some c))
  upload_part-stored u number r s p h = elim (upload_part-eq-stage u number r s) [
    | inl (same, live, valid) ↦
        (valid, rw same (stage_part-stored number (part_key u number) r s p (rw same at h)))
    | inr (refused, kept) ↦ absurd (refused p h)
  ]

  -- Whatever its outcome, UploadPart changes no object but the one under the part's name.
  pub upload_part-stored_ne :
      (u : Uploader) (number : ℤ) (r : Source Err) (s : State) (j : Bytes)
      → eqb (part_key u number) j ≡ false
      → stored (upload_part b u number r s).1 j ≡ stored s j
  upload_part-stored_ne u number r s j h = elim (upload_part-eq-stage u number r s) [
    | inl (same, live, valid) ↦
        rw same (elim (Result-cases (new_writer (part_key u number) none s).0) [
          | inl (w, e) ↦
              let s' = (new_writer (part_key u number) none s).1 in
              unfold stage_part in
              rw (e, stage_part)
                (fill_part-stored_ne number (part_key u number) w r s' j
                    (new_writer-target (part_key u number) none s w e) h
                  ∙ new_writer-stored (part_key u number) none s j)
          | inr (x, e) ↦
              unfold stage_part in
              rw (e, stage_part) (new_writer-stored (part_key u number) none s j)
        ])
    | inr (refused, kept) ↦ rw kept refl
  ]

  -- Where Delete of the part's name succeeds, an UploadPart that fails leaves the object under that
  -- name as it was, when nothing was written, or absent, so that a retry reads no stale bytes.
  pub upload_part_failed :
      (u : Uploader) (number : ℤ) (r : Source Err) (s : State) (e : Error Err)
      → CanDelete b (part_key u number)
      → (upload_part b u number r s).0 ≡ err e
      → (stored (upload_part b u number r s).1 (part_key u number) ≡ stored s (part_key u number))
        ⊎ (stored (upload_part b u number r s).1 (part_key u number) ≡ none)
  upload_part_failed u number r s e quiet h = elim (upload_part-eq-stage u number r s) [
    | inl (same, live, valid) ↦
        rw same (elim (Result-cases (new_writer (part_key u number) none s).0) [
          | inl (w, k) ↦
              let s' = (new_writer (part_key u number) none s).1 in
              let failed : (stage_part b number (part_key u number) r s).0 ≡ err e = rw same at h in
              unfold stage_part in
              inr (
                rw (k, stage_part)
                  (fill_part-dropped number (part_key u number) w r s' e quiet
                    (rw (k, stage_part) at failed)))
          | inr (x, k) ↦
              unfold stage_part in
              inl (
                rw (k, stage_part)
                  (new_writer-stored (part_key u number) none s (part_key u number)))
        ])
    | inr (refused, kept) ↦ inl (rw kept refl)
  ]
