-- ===== src/Blob/Memory.antt =====
-- A bucket in memory. It shows that the documented laws of a bucket can be met, and the tests run on
-- it; it models no code of the repository.
pub mod Kept
use gocloud_ext.Common.{
  Bytes, Bool, true, false, List, [], ◌∷◌, ◌++◌, Option, none, some, Result, ok, err, eqb, eqb_iff,
  eqb_refl, has_prefix, ◌≡◌, refl, sym, arith, if◌then◌else◌, Bool-cases, inl, inr, pos, length,
}
use gocloud_ext.Blob.{
  Bucket, ErrorCode, not_found, internal, Source, eof, chunk, Listing, done, failed, object,
  WriterOptions, drain,
}
use gocloud_ext.Blob.Laws.{Laws, Reliable, AllHavePrefix, lists_key}

abbrev pub Table : Type 0
Table = List (Bytes × Bytes)

unfoldable pub find : Table → Bytes → Option Bytes
find [] k = none
find ((j, c) ∷ t) k = if eqb j k then some c else find t k

unfoldable pub remove : Table → Bytes → Table
remove [] k = []
remove ((j, c) ∷ t) k = let rest = remove t k in if eqb j k then rest else (j, c) ∷ rest

unfoldable pub listing : Bytes → Table → Listing ErrorCode
listing p [] = done
listing p ((j, c) ∷ t) =
    let rest = listing p t in if has_prefix j p then object j (pos (length c)) rest else rest

pub find-remove_self : (t : Table) (k : Bytes) → find (remove t k) k ≡ none
unfolding find remove
find-remove_self [] k = refl
find-remove_self ((j, c) ∷ t) k = ground (arith, find-remove_self t k)

pub find-remove_ne : (t : Table) (k j : Bytes) → eqb k j ≡ false → find (remove t k) j ≡ find t j
unfolding find remove
find-remove_ne [] k j h = refl
find-remove_ne ((i, c) ∷ t) k j h =
    ground (arith, find-remove_ne t k j h, eqb_iff i k, eqb_iff i j, eqb_iff k j)

pub AllHavePrefix-listing : (p : Bytes) (t : Table) → AllHavePrefix p (listing p t)
unfolding listing
AllHavePrefix-listing p [] = tt
AllHavePrefix-listing p ((j, c) ∷ t) = elim (Bool-cases (has_prefix j p)) [
  | inl e ↦ rw e (e, AllHavePrefix-listing p t)
  | inr e ↦ rw e (AllHavePrefix-listing p t)
]

pub lists_key-listing :
    (p : Bytes) (t : Table) (k c : Bytes)
    → has_prefix k p ≡ true
    → find t k ≡ some c
    → lists_key k (listing p t) ≡ true
unfolding find listing
lists_key-listing p [] k c h there = absurd (ground arith)
lists_key-listing p ((j, d) ∷ t) k c h there =
    ground (arith, eqb_iff j k, lists_key-listing p t k c h)

pub record Store : Type 0 where
  pub objects : Table
  pub buffers : Table

abbrev pub or_empty : Option Bytes → Bytes
or_empty none = []
or_empty (some c) = c

abbrev pub put : Table → Bytes → Bytes → Table
put t k c = (k, c) ∷ remove t k

abbrev pub removed : Option Bytes → Option ErrorCode
removed none = some not_found
removed (some c) = none

abbrev pub read : Option Bytes → Result ErrorCode Bytes
read none = err not_found
read (some c) = ok c

abbrev pub stream : Option Bytes → Result ErrorCode (Source ErrorCode)
stream none = err not_found
stream (some c) = ok (chunk c eof)

-- Delete fails on the keys that are locked.
abbrev pub locked_delete : (Bytes → Bool) → Bytes → Store → Option ErrorCode × Store
locked_delete locked k s =
    if locked k
    then (some internal, s)
    else (removed (find s.objects k), record { objects = remove s.objects k; buffers = s.buffers })

abbrev pub memory : (Bytes → Bool) → Bucket
memory locked = record {
  State = Store;
  Err = ErrorCode;
  Writer = Bytes;
  code = λ e. e;
  new_writer = λ k o s. (ok k, record { objects = s.objects; buffers = put s.buffers k [] });
  write = λ w c s. (
    none,
    record { objects = s.objects; buffers = put s.buffers w (or_empty (find s.buffers w) ++ c) },
  );
  close = λ w s. (
    none,
    record { objects = put s.objects w (or_empty (find s.buffers w)); buffers = s.buffers },
  );
  write_all = λ k c o s. (none, record { objects = put s.objects k c; buffers = s.buffers });
  read_all = λ k s. read (find s.objects k);
  new_reader = λ k s. stream (find s.objects k);
  delete = locked_delete locked;
  list = λ p s. listing p s.objects;
}

pub find-put_self : (t : Table) (k c : Bytes) → find (put t k c) k ≡ some c
unfolding find
find-put_self t k c = ground (arith, eqb_refl k)

pub find-put_ne : (t : Table) (k c j : Bytes) → eqb k j ≡ false → find (put t k c) j ≡ find t j
unfolding find
find-put_ne t k c j h = ground (arith, find-remove_ne t k j h)
