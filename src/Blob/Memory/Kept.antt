-- ===== src/Blob/Memory/Kept.antt =====
-- The bucket in memory keeps the documented laws, and nothing fails on it.
use mathlib.Core.Path.{subst}
use gocloud_ext.Common.{
  Bytes, Bool, false, Option, none, some, Result, ok, eqb, ◌≡◌, refl, sym, ap, ◌∙◌, arith, [],
  append-nil, Option-cases, inl, inr,
}
use gocloud_ext.Blob.{ErrorCode, not_found, Source, drain, chunk, eof}
use gocloud_ext.Blob.Laws.{Laws, Reliable, CanDelete}
use gocloud_ext.Blob.Memory.{
  Store, memory, find, find-put_self, find-put_ne, find-remove_self, find-remove_ne,
  AllHavePrefix-listing, lists_key-listing, or_empty, stream, read, put, locked_delete,
}

stream-drain :
    (o : Option Bytes) (r : Source ErrorCode) (c : Bytes)
    → stream o ≡ ok r
    → drain r ≡ some c
    → o ≡ some c
stream-drain none r c h d = absurd (cc)
stream-drain (some a) r c h d =
    let e : chunk a eof ≡ r = cc in sym (ap some (append-nil a)) ∙ ap drain e ∙ d

read-eq-ok : (o : Option Bytes) (c : Bytes) → read o ≡ ok c → o ≡ some c
read-eq-ok none c h = absurd (cc)
read-eq-ok (some a) c h = cc

some_of_ok : (o : Option Bytes) (c : Bytes) → o ≡ some c → read o ≡ ok c
some_of_ok o c h = rw h refl

same_writer : (k w : Bytes) → Path (Result ErrorCode Bytes) (ok k) (ok w) → w ≡ k
same_writer k w h = cc

fresh_buffer :
    (s : Store) (k w : Bytes)
    → Path (Result ErrorCode Bytes) (ok k) (ok w)
    → or_empty (find (put s.buffers k []) w) ≡ []
fresh_buffer s k w h =
    subst (λ j. or_empty (find (put s.buffers k []) j) ≡ []) (sym (same_writer k w h))
      (ap or_empty (find-put_self s.buffers k []))

unlocked :
    (locked : Bytes → Bool) (k : Bytes) (s : Store)
    → (locked_delete locked k s).0 ≡ none
    → find (locked_delete locked k s).1.objects k ≡ none
unlocked locked k s h = ground (arith, find-remove_self s.objects k)

unlocked_not_found :
    (locked : Bytes → Bool) (k : Bytes) (s : Store) (e : ErrorCode)
    → (locked_delete locked k s).0 ≡ some e
    → e ≡ not_found
    → find (locked_delete locked k s).1.objects k ≡ none
unlocked_not_found locked k s e h n = ground (arith, find-remove_self s.objects k)

locked-ne :
    (locked : Bytes → Bool) (k : Bytes) (s : Store) (j : Bytes)
    → eqb k j ≡ false
    → find (locked_delete locked k s).1.objects j ≡ find s.objects j
locked-ne locked k s j h = ground (arith, find-remove_ne s.objects k j h)

unfoldable pub memory_laws : (locked : Bytes → Bool) → Laws (memory locked)
unfolding read-eq-ok stream-drain same_writer fresh_buffer unlocked unlocked_not_found locked-ne
memory_laws locked = record {
  stored = λ s k. find s.objects k;
  target = λ w. w;
  buffered = λ s w. or_empty (find s.buffers w);
  new_writer-stored = λ k o s j. refl;
  new_writer-target = λ k o s w h. same_writer k w h;
  new_writer-buffered = λ k o s w h. fresh_buffer s k w h;
  write-stored = λ w c s j. refl;
  write-buffered = λ w c s h. rw find-put_self refl;
  close-stored_self = λ w s h. find-put_self s.objects w (or_empty (find s.buffers w));
  close-stored_ne = λ w s j h. find-put_ne s.objects w (or_empty (find s.buffers w)) j h;
  write_all-stored_self = λ k c o s h. find-put_self s.objects k c;
  write_all-stored_ne = λ k c o s j h. find-put_ne s.objects k c j h;
  read_all-stored = λ k s c h. read-eq-ok (find s.objects k) c h;
  read_all-not_found = λ k s h. (not_found, rw h refl, refl);
  new_reader-stored = λ k s r c h d. stream-drain (find s.objects k) r c h d;
  new_reader-not_found = λ k s h. (not_found, rw h refl, refl);
  delete-stored_self = λ k s h. unlocked locked k s h;
  delete-stored_not_found = λ k s e h n. unlocked_not_found locked k s e h n;
  delete-stored_ne = λ k s j h. locked-ne locked k s j h;
  list-prefix = λ p s. AllHavePrefix-listing p s.objects;
  list-complete = λ p s k c h there. lists_key-listing p s.objects k c h there;
}

pub memory-Reliable : (locked : Bytes → Bool) → Reliable (memory locked) (memory_laws locked)
unfolding memory_laws
memory-Reliable locked = record {
  opens = λ k o s. (k, refl);
  writes = λ w c s. refl;
  closes = λ w s. refl;
  reads = λ k s c h. (chunk c eof, ap stream h, ap some (append-nil c));
  reads_all = λ k s c h. some_of_ok (find s.objects k) c h;
}

-- A key that is not locked can be deleted.
pub memory-CanDelete :
    (locked : Bytes → Bool) (k : Bytes) → locked k ≡ false → CanDelete (memory locked) k
memory-CanDelete locked k h t = elim (Option-cases (find t.objects k)) [
  | inl e ↦ inr (not_found, ground arith, refl)
  | inr (c, e) ↦ inl (ground arith)
]
