-- ===== src/Blob/Laws.antt =====
-- What gocloud.dev/blob documents of a bucket, stated over the published objects and the bytes that
-- an open writer holds: a write is published by Close alone, and Delete removes one object.
use gocloud_ext.Common.{
  Bytes, Bool, true, false, Option, none, some, ◌++◌, [], ◌≡◌, ok, err, eqb, has_prefix,
  if◌then◌else◌, ◌⊎◌, inl, inr,
}
use gocloud_ext.Blob.{
  Bucket, not_found, Source, Listing, done, failed, object, drain, WriterOptions,
}

-- Every object of a listing has a key with the prefix.
abbrev pub AllHavePrefix : {E : Type 0} → Bytes → Listing E → Type 0
AllHavePrefix p done = Unit
AllHavePrefix p (failed e) = Unit
AllHavePrefix p (object k n l) = (has_prefix k p ≡ true) × AllHavePrefix p l

-- The listing names the key, or fails before it could.
abbrev pub lists_key : {E : Type 0} → Bytes → Listing E → Bool
lists_key k done = false
lists_key k (failed e) = true
lists_key k (object j n l) = if eqb j k then true else lists_key k l

module _ (b : Bucket) where
  open b use {
    State, Err, Writer, code, new_writer, write, close, write_all, read_all, new_reader, delete,
    list,
  }

  pub record Laws : Type 1 where
    -- the published object at a key, the key of a writer, and what it has been given
    pub stored : State → Bytes → Option Bytes
    pub target : Writer → Bytes
    pub buffered : State → Writer → Bytes
    pub new_writer-stored :
        (k : Bytes) (o : Option WriterOptions) (s : State) (j : Bytes)
        → stored (new_writer k o s).1 j ≡ stored s j
    pub new_writer-target :
        (k : Bytes) (o : Option WriterOptions) (s : State) (w : Writer)
        → (new_writer k o s).0 ≡ ok w
        → target w ≡ k
    pub new_writer-buffered :
        (k : Bytes) (o : Option WriterOptions) (s : State) (w : Writer)
        → (new_writer k o s).0 ≡ ok w
        → buffered (new_writer k o s).1 w ≡ []
    pub write-stored :
        (w : Writer) (c : Bytes) (s : State) (j : Bytes) → stored (write w c s).1 j ≡ stored s j
    pub write-buffered :
        (w : Writer) (c : Bytes) (s : State)
        → (write w c s).0 ≡ none
        → buffered (write w c s).1 w ≡ buffered s w ++ c
    pub close-stored_self :
        (w : Writer) (s : State)
        → (close w s).0 ≡ none
        → stored (close w s).1 (target w) ≡ some (buffered s w)
    pub close-stored_ne :
        (w : Writer) (s : State) (j : Bytes)
        → eqb (target w) j ≡ false
        → stored (close w s).1 j ≡ stored s j
    pub write_all-stored_self :
        (k c : Bytes) (o : Option WriterOptions) (s : State)
        → (write_all k c o s).0 ≡ none
        → stored (write_all k c o s).1 k ≡ some c
    pub write_all-stored_ne :
        (k c : Bytes) (o : Option WriterOptions) (s : State) (j : Bytes)
        → eqb k j ≡ false
        → stored (write_all k c o s).1 j ≡ stored s j
    pub read_all-stored :
        (k : Bytes) (s : State) (c : Bytes) → read_all k s ≡ ok c → stored s k ≡ some c
    pub read_all-not_found :
        (k : Bytes) (s : State)
        → stored s k ≡ none
        → (e : Err) × (read_all k s ≡ err e) × (code e ≡ not_found)
    pub new_reader-stored :
        (k : Bytes) (s : State) (r : Source Err) (c : Bytes)
        → new_reader k s ≡ ok r
        → drain r ≡ some c
        → stored s k ≡ some c
    pub new_reader-not_found :
        (k : Bytes) (s : State)
        → stored s k ≡ none
        → (e : Err) × (new_reader k s ≡ err e) × (code e ≡ not_found)
    pub delete-stored_self :
        (k : Bytes) (s : State) → (delete k s).0 ≡ none → stored (delete k s).1 k ≡ none
    pub delete-stored_not_found :
        (k : Bytes) (s : State) (e : Err)
        → (delete k s).0 ≡ some e
        → code e ≡ not_found
        → stored (delete k s).1 k ≡ none
    pub delete-stored_ne :
        (k : Bytes) (s : State) (j : Bytes) → eqb k j ≡ false → stored (delete k s).1 j ≡ stored s j
    pub list-prefix : (p : Bytes) (s : State) → AllHavePrefix p (list p s)
    pub list-complete :
        (p : Bytes) (s : State) (k c : Bytes)
        → has_prefix k p ≡ true
        → stored s k ≡ some c
        → lists_key k (list p s) ≡ true

-- Delete of the key works, or finds that there is no such object.
abbrev pub CanDelete : (b : Bucket) → Bytes → Type 0
CanDelete b k =
    (t : b.State)
    → ((b.delete k t).0 ≡ none)
      ⊎ ((e : b.Err) × ((b.delete k t).0 ≡ some e) × (b.code e ≡ not_found))

pub delete-stored :
    (b : Bucket) (laws : Laws b) (k : Bytes) (t : b.State)
    → CanDelete b k
    → laws.stored (b.delete k t).1 k ≡ none
delete-stored b laws k t h = elim (h t) [
  | inl e ↦ laws.delete-stored_self k t e
  | inr (x, e, c) ↦ laws.delete-stored_not_found k t x e c
]

-- A bucket on which nothing fails: an object that is stored is read to its end.
pub record Reliable (b : Bucket) (laws : Laws b) : Type 0 where
  pub opens :
      (k : Bytes) (o : Option WriterOptions) (s : b.State)
      → (w : b.Writer) × ((b.new_writer k o s).0 ≡ ok w)
  pub writes : (w : b.Writer) (c : Bytes) (s : b.State) → (b.write w c s).0 ≡ none
  pub closes : (w : b.Writer) (s : b.State) → (b.close w s).0 ≡ none
  pub reads :
      (k : Bytes) (s : b.State) (c : Bytes)
      → laws.stored s k ≡ some c
      → (r : Source b.Err) × (b.new_reader k s ≡ ok r) × (drain r ≡ some c)
  pub reads_all :
      (k : Bytes) (s : b.State) (c : Bytes) → laws.stored s k ≡ some c → b.read_all k s ≡ ok c
