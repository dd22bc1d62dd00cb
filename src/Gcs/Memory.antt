-- ===== src/Gcs/Memory.antt =====
-- A storage in memory. It shows that the documented laws of the calls can be met, and the tests run on
-- it; it models no code of the repository.
use gocloud_ext.Common.{
  Bytes, false, List, [], ◌++◌, Option, none, some, ltb, length, eqb, ◌≡◌, refl, ap, arith,
  Bool-cases, inl, inr, ◌≤◌, if◌then◌else◌,
}
use gocloud_ext.Blob.{ErrorCode, not_found, internal, is_not_found}
use gocloud_ext.Blob.Memory.{
  Store, find, put, remove, removed, listing, or_empty, find-put_self, find-put_ne,
  find-remove_self, find-remove_ne, AllHavePrefix-listing, lists_key-listing,
}
use gocloud_ext.Gcs.{GcsClient}
use gocloud_ext.Blob.Contents.{contents}
use gocloud_ext.Gcs.Laws.{GcsLaws, GcsReliable}

-- What was read is put under a name.
abbrev put_read : Bytes → Option Bytes → Store → Option ErrorCode × Store
put_read k none s = (some not_found, s)
put_read k (some d) s = (none, record { objects = put s.objects k d; buffers = s.buffers })

abbrev compose_stored : Bytes → List Bytes → Store → Option ErrorCode × Store
compose_stored k l s =
    if ltb 32 (length l) then (some internal, s) else put_read k (contents (find s.objects) l) s

abbrev pub gcs_memory : GcsClient
gcs_memory = record {
  State = Store;
  Err = ErrorCode;
  Writer = Bytes;
  is_not_exist = is_not_found;
  new_writer = λ b k s. (k, record { objects = s.objects; buffers = put s.buffers k [] });
  write = λ w d s. (
    none,
    record { objects = s.objects; buffers = put s.buffers w (or_empty (find s.buffers w) ++ d) },
  );
  close = λ w s. (
    none,
    record { objects = put s.objects w (or_empty (find s.buffers w)); buffers = s.buffers },
  );
  delete = λ b k s.
      (removed (find s.objects k), record { objects = remove s.objects k; buffers = s.buffers });
  list = λ b p s. listing p s.objects;
  compose = λ b k a l s. compose_stored k l s;
  copy = λ b k a from s. put_read k (find s.objects from) s;
}

put_read-self :
    (k : Bytes) (o : Option Bytes) (s : Store)
    → (put_read k o s).0 ≡ none
    → (d : Bytes) × (o ≡ some d) × (find (put_read k o s).1.objects k ≡ some d)
put_read-self k none s h = absurd (ground arith)
put_read-self k (some d) s h = (d, refl, find-put_self s.objects k d)

put_read-ne :
    (k : Bytes) (o : Option Bytes) (s : Store) (j : Bytes)
    → eqb k j ≡ false
    → find (put_read k o s).1.objects j ≡ find s.objects j
put_read-ne k none s j h = refl
put_read-ne k (some d) s j h = find-put_ne s.objects k d j h

compose_stored-self :
    (k : Bytes) (l : List Bytes) (s : Store)
    → (compose_stored k l s).0 ≡ none
    → (d : Bytes) × (contents (find s.objects) l ≡ some d)
      × (find (compose_stored k l s).1.objects k ≡ some d)
compose_stored-self k l s h = elim (Bool-cases (ltb 32 (length l))) [
  | inl e ↦ absurd (ground arith)
  | inr e ↦ rw e (put_read-self k (contents (find s.objects) l) s (rw e at h))
]

compose_stored-ne :
    (k : Bytes) (l : List Bytes) (s : Store) (j : Bytes)
    → eqb k j ≡ false
    → find (compose_stored k l s).1.objects j ≡ find s.objects j
compose_stored-ne k l s j h = elim (Bool-cases (ltb 32 (length l))) [
  | inl e ↦ rw e refl
  | inr e ↦ rw e (put_read-ne k (contents (find s.objects) l) s j h)
]

put_read-quiet :
    (k : Bytes) (o : Option Bytes) (s : Store) (d : Bytes) → o ≡ some d → (put_read k o s).0 ≡ none
put_read-quiet k o s d h = rw h refl

compose_stored-quiet :
    (k : Bytes) (l : List Bytes) (s : Store) (d : Bytes)
    → length l ≤ 32
    → contents (find s.objects) l ≡ some d
    → (compose_stored k l s).0 ≡ none
compose_stored-quiet k l s d few h =
    let e : ltb 32 (length l) ≡ false = ground arith in
    rw e (put_read-quiet k (contents (find s.objects) l) s d h)

unfoldable pub gcs_memory_laws : (bucket : Bytes) → GcsLaws gcs_memory bucket
unfolding put_read-self put_read-ne compose_stored-self compose_stored-ne
gcs_memory_laws bucket = record {
  stored = λ s k. find s.objects k;
  target = λ w. w;
  buffered = λ s w. or_empty (find s.buffers w);
  new_writer-stored = λ k s j. refl;
  new_writer-target = λ k s. refl;
  new_writer-buffered = λ k s. ap or_empty (find-put_self s.buffers k []);
  write-stored = λ w d s j. refl;
  write-buffered = λ w d s h. rw find-put_self refl;
  close-stored_self = λ w s h. find-put_self s.objects w (or_empty (find s.buffers w));
  close-stored_ne = λ w s j h. find-put_ne s.objects w (or_empty (find s.buffers w)) j h;
  delete-stored_self = λ k s h. find-remove_self s.objects k;
  delete-stored_not_exist = λ k s e h n. find-remove_self s.objects k;
  delete-stored_ne = λ k s j h. find-remove_ne s.objects k j h;
  list-prefix = λ p s. AllHavePrefix-listing p s.objects;
  list-complete = λ p s k d h there. lists_key-listing p s.objects k d h there;
  compose-stored_self = λ k a l s h. compose_stored-self k l s h;
  compose-stored_ne = λ k a l s j h. compose_stored-ne k l s j h;
  copy-stored_self = λ k a from s h. put_read-self k (find s.objects from) s h;
  copy-stored_ne = λ k a from s j h. put_read-ne k (find s.objects from) s j h;
}

pub gcs_memory-GcsReliable :
    (bucket : Bytes) → GcsReliable gcs_memory bucket (gcs_memory_laws bucket)
unfolding gcs_memory_laws
gcs_memory-GcsReliable bucket = record {
  composes = λ k a l s d ne few h. compose_stored-quiet k l s d few h;
  copies = λ k a from s d h. put_read-quiet k (find s.objects from) s d h;
}
