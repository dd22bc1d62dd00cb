-- ===== src/Blob/Copy.antt =====
-- io.Copy into a writer: the objects it leaves alone, and what the writer holds afterwards.
use mathlib.Core.Option.{some-injective}
use gocloud_ext.Common.{
  ℕ, ◌+◌, Bytes, none, some, ◌≡◌, refl, sym, ◌∙◌, ◌++◌, append-nil, append_assoc, [], length, arith,
  Option-cases, inl, inr, ap, length-append, Option,
}
use gocloud_ext.Blob.{Source, eof, broken, chunk, drain, io_copy}

module _ {State Err Writer : Type 0} (write : Writer → Bytes → State → Option Err × State)
    (stored : State → Bytes → Option Bytes)
    (write-stored : (w : Writer) (c : Bytes) (s : State) (j : Bytes)
      → stored (write w c s).1 j ≡ stored s j) where
  pub io_copy-stored :
      (w : Writer) (r : Source Err) (n : ℕ) (s : State) (j : Bytes)
      → stored (io_copy write w r n s).2 j ≡ stored s j
  unfolding io_copy
  io_copy-stored w eof n s j = refl
  io_copy-stored w (broken e) n s j = refl
  io_copy-stored w (chunk c r) n s j =
      ground (arith, io_copy-stored w r (n + length c) (write w c s).1 j, write-stored w c s j)

module _ {State Err Writer : Type 0} (write : Writer → Bytes → State → Option Err × State)
    (buffered : State → Writer → Bytes)
    (write-buffered : (w : Writer) (c : Bytes) (s : State)
      → (write w c s).0 ≡ none
      → buffered (write w c s).1 w ≡ buffered s w ++ c) where
  pub io_copy-buffered :
      (w : Writer) (r : Source Err) (n : ℕ) (s : State)
      → (io_copy write w r n s).1 ≡ none
      → (c : Bytes) × (drain r ≡ some c)
        × (buffered (io_copy write w r n s).2 w ≡ buffered s w ++ c)
  unfolding io_copy
  io_copy-buffered w eof n s h = ([], refl, sym (append-nil (buffered s w)))
  io_copy-buffered w (broken e) n s h = absurd (cc)
  io_copy-buffered w (chunk c r) n s h = elim (Option-cases (write w c s).0) [
    | inl e ↦
        let (rest, d, k) =
          io_copy-buffered w r (n + length c) (write w c s).1 (rw (e, io_copy) at h) in
        (
          c ++ rest,
          rw d,
          rw (e, io_copy)
              (k
                ∙ ap (λ t. t ++ rest) (write-buffered w c s e)
                ∙ append_assoc (buffered s w) c rest),
        )
    | inr (x, e) ↦ absurd (ground arith)
  ]

module _ {State Err Writer : Type 0} (write : Writer → Bytes → State → Option Err × State) where
  -- The count that io.Copy returns.
  pub io_copy-count :
      (w : Writer) (r : Source Err) (n : ℕ) (s : State) (c : Bytes)
      → (io_copy write w r n s).1 ≡ none
      → drain r ≡ some c
      → (io_copy write w r n s).0 ≡ n + length c
  unfolding io_copy
  io_copy-count w eof n s c h d = ground (arith, ap length (some-injective [] c d))
  io_copy-count w (broken e) n s c h d = absurd (cc)
  io_copy-count w (chunk a r) n s c h d = elim (Option-cases (drain r)) [
    | inl e ↦ absurd (ground arith)
    | inr (rest, e) ↦
        let joined : a ++ rest ≡ c = ground arith in
        let quiet : (write w a s).0 ≡ none = ground arith in
        let later : (io_copy write w r (n + length a) (write w a s).1).1 ≡ none =
          rw (quiet, io_copy) at h in
        rw (quiet, io_copy)
          (omega (
            arith,
            io_copy-count w r (n + length a) (write w a s).1 rest later e,
            length-append a rest,
            ap length joined,
          ))
  ]
