-- ===== src/S3/Finish/Sent.antt =====
-- What Commit and Abort ask of S3, and what they leave.
use mathlib.Core.List.{Perm}
use gocloud_ext.Common.{
  ℤ, pos, negsuc, ◌≤ℤ◌, ltb, Bool-cases, ◌⊎◌, [], ◌∷◌, map, true, List, none, ok, ◌≡◌, ◌≢◌, refl,
  arith, Option-cases, Result-cases, inl, inr,
}
use gocloud_ext.Multipart.{Part, sort_parts, check_part_sizes}
use gocloud_ext.Multipart.Sorting.{IsAscending, sort_parts-IsAscending}
use gocloud_ext.S3.{Client, S3Uploader, CompletedPart, CompleteInput, s3_constraints, to_int32}
use gocloud_ext.S3.Finish.{completed, complete_input, complete_upload, s3_commit, s3_abort}

-- The completed parts are the parts one by one, each with its ETag and, where it fits an int32, its
-- number.
abbrev pub AreCompleted : List CompletedPart → List Part → Type 0
AreCompleted [] [] = Unit
AreCompleted [] (p ∷ l) = ⊥
AreCompleted (c ∷ cs) [] = ⊥
AreCompleted (c ∷ cs) (p ∷ l) =
    (c.etag ≡ p.tag)
    × ((c.part_number ≡ p.number)
        ⊎ ((pos 2147483648 ≤ℤ p.number) ⊎ (p.number ≤ℤ negsuc 2147483648)))
    × AreCompleted cs l

-- A request that completes the upload with those parts in that order.
pub record IsCompletionOf (u : S3Uploader) (ordered : List Part) (i : CompleteInput) : Type 0 where
  pub bucket : i.bucket ≡ u.location.bucket
  pub key : i.key ≡ u.key
  pub upload : i.upload_id ≡ u.upload_id
  pub completed_parts : AreCompleted i.parts ordered

to_int32_fits : (n : ℤ) → (to_int32 n ≡ n) ⊎ ((pos 2147483648 ≤ℤ n) ⊎ (n ≤ℤ negsuc 2147483648))
unfolding to_int32
to_int32_fits (pos n) = elim (Bool-cases (ltb n 2147483648)) [
  | inl k ↦ inl (ground arith)
  | inr k ↦ inr (inl (ground arith))
]
to_int32_fits (negsuc n) = elim (Bool-cases (ltb n 2147483648)) [
  | inl k ↦ inl (ground arith)
  | inr k ↦ inr (inr (ground arith))
]

AreCompleted-map : (l : List Part) → AreCompleted (map completed l) l
unfolding completed
AreCompleted-map [] = tt
AreCompleted-map (p ∷ l) = (refl, to_int32_fits p.number, AreCompleted-map l)

complete_input-IsCompletionOf :
    (u : S3Uploader) (ordered : List Part) → IsCompletionOf u ordered (complete_input u ordered)
unfolding complete_input
complete_input-IsCompletionOf u ordered = record {
  bucket = refl;
  key = refl;
  upload = refl;
  completed_parts = AreCompleted-map ordered;
}

-- The parts were valid, and S3 completed the upload with them.
abbrev pub IsCompleted : (c : Client) → S3Uploader → List Part → c.State → List Part → Type 0
IsCompleted c u parts s ordered =
    Perm ordered parts
    × IsAscending ordered
    × (check_part_sizes ordered s3_constraints ≡ none)
    × (i : CompleteInput) × IsCompletionOf u ordered i
    × ((c.complete i s).0 ≡ none)
    × ((s3_commit c u parts s).1 ≡ record u { finished = true })
    × ((s3_commit c u parts s).2 ≡ (c.complete i s).1)

module _ (c : Client) where
  -- The two outcomes of the call.
  complete_upload-none :
      (u : S3Uploader) (ordered : List Part) (s : c.State)
      → (complete_upload c u ordered s).0 ≡ none
      → ((c.complete (complete_input u ordered) s).0 ≡ none)
        × ((complete_upload c u ordered s).1 ≡ record u { finished = true })
        × ((complete_upload c u ordered s).2 ≡ (c.complete (complete_input u ordered) s).1)
  unfolding complete_upload
  complete_upload-none u ordered s h =
      elim (Option-cases (c.complete (complete_input u ordered) s).0) [
        | inl e ↦ rw (complete_upload, e) (refl, refl, refl)
        | inr (x, e) ↦ absurd (let k = rw (complete_upload, e) at h in ground arith)
      ]

  complete_upload-failed :
      (u : S3Uploader) (ordered : List Part) (s : c.State)
      → (complete_upload c u ordered s).0 ≢ none
      → (complete_upload c u ordered s).1 ≡ u
  unfolding complete_upload
  complete_upload-failed u ordered s h =
      elim (Option-cases (c.complete (complete_input u ordered) s).0) [
        | inl e ↦ absurd (h (rw (complete_upload, e) refl))
        | inr (x, e) ↦ rw (complete_upload, e) refl
      ]

  -- Past the guards a Commit is the call.
  s3_commit-eq-complete_upload :
      (u : S3Uploader) (parts : List Part) (s : c.State)
      → (s3_commit c u parts s).0 ≡ none
      → (ordered : List Part) × (sort_parts parts ≡ ok ordered)
        × (check_part_sizes ordered s3_constraints ≡ none)
        × (s3_commit c u parts s ≡ complete_upload c u ordered s)
  unfolding s3_commit
  s3_commit-eq-complete_upload u parts s h = elim (Result-cases (sort_parts parts)) [
    | inr (e, k) ↦ absurd (ground arith)
    | inl (ordered, k) ↦ elim (Option-cases (check_part_sizes ordered s3_constraints)) [
      | inl n ↦ (ordered, k, n, ground arith)
      | inr (e, n) ↦ absurd (ground arith)
    ]
  ]

  -- A Commit without error arranged the parts by strictly ascending numbers and found them large enough;
  -- S3 completed the upload with those parts in that order, each with its ETag and, where it fits an
  -- int32, its number; and the uploader is finished.
  pub s3_commit-sent :
      (u : S3Uploader) (parts : List Part) (s : c.State)
      → (s3_commit c u parts s).0 ≡ none
      → (ordered : List Part) × IsCompleted c u parts s ordered
  s3_commit-sent u parts s h =
      let (ordered, k, n, same) = s3_commit-eq-complete_upload u parts s h in
      let (done, finished, after) = complete_upload-none u ordered s (rw same at h) in
      let (arranged, ascending) = sort_parts-IsAscending parts k in
      (
        ordered,
        (
          arranged,
          ascending,
          n,
          complete_input u ordered,
          complete_input-IsCompletionOf u ordered,
          done,
          rw same finished,
          rw same after,
        ),
      )

  -- A Commit that fails leaves the uploader as it was, so that it can be tried again.
  pub s3_commit-failed :
      (u : S3Uploader) (parts : List Part) (s : c.State)
      → (s3_commit c u parts s).0 ≢ none
      → (s3_commit c u parts s).1 ≡ u
  unfolding s3_commit
  s3_commit-failed u parts s h = elim (Result-cases (sort_parts parts)) [
    | inr (e, k) ↦ ground arith
    | inl (ordered, k) ↦ ground (arith, complete_upload-failed u ordered s)
  ]

  s3_abort_finished :
      (u : S3Uploader) (s : c.State) → u.finished ≡ true → s3_abort c u s ≡ (none, u, s)
  unfolding s3_abort
  s3_abort_finished u s f = simp f refl

  s3_abort_finishes : (u : S3Uploader) (s : c.State) → (s3_abort c u s).1.finished ≡ true
  unfolding s3_abort
  s3_abort_finishes u s = ground arith

  -- An Abort finishes the uploader whatever S3 answers, and a second one reports no error and changes
  -- nothing.
  pub s3_abort_twice :
      (u : S3Uploader) (s t : c.State)
      → ((s3_abort c u s).1.finished ≡ true)
        × (s3_abort c (s3_abort c u s).1 t ≡ (none, (s3_abort c u s).1, t))
  s3_abort_twice u s t =
      (s3_abort_finishes u s, s3_abort_finished (s3_abort c u s).1 t (s3_abort_finishes u s))
