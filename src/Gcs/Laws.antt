-- ===== src/Gcs/Laws.antt =====
-- What Google Cloud Storage documents of the calls, for one bucket: stated over its objects and the
-- bytes that an open writer holds. A compose stores its sources one behind the other, a copy stores
-- its source, and each changes the destination only.
use gocloud_ext.Common.{
  ◌≤◌, Bytes, true, false, List, [], ◌++◌, Option, none, some, ◌≡◌, ◌≢◌, eqb, has_prefix, length,
}
use gocloud_ext.Blob.Contents.{contents}
use gocloud_ext.Blob.Laws.{AllHavePrefix, lists_key}
use gocloud_ext.Gcs.{GcsClient, ObjectAttrs}

module _ (c : GcsClient) (bucket : Bytes) where
  open c use {
    State, Err, Writer, is_not_exist, new_writer, write, close, delete, list, compose, copy,
  }

  pub record GcsLaws : Type 1 where
    -- the object at a name, the name of a writer, and what it has been given
    pub stored : State → Bytes → Option Bytes
    pub target : Writer → Bytes
    pub buffered : State → Writer → Bytes
    pub new_writer-stored :
        (k : Bytes) (s : State) (j : Bytes) → stored (new_writer bucket k s).1 j ≡ stored s j
    pub new_writer-target : (k : Bytes) (s : State) → target (new_writer bucket k s).0 ≡ k
    pub new_writer-buffered :
        (k : Bytes) (s : State) → buffered (new_writer bucket k s).1 (new_writer bucket k s).0 ≡ []
    pub write-stored :
        (w : Writer) (d : Bytes) (s : State) (j : Bytes) → stored (write w d s).1 j ≡ stored s j
    pub write-buffered :
        (w : Writer) (d : Bytes) (s : State)
        → (write w d s).0 ≡ none
        → buffered (write w d s).1 w ≡ buffered s w ++ d
    pub close-stored_self :
        (w : Writer) (s : State)
        → (close w s).0 ≡ none
        → stored (close w s).1 (target w) ≡ some (buffered s w)
    pub close-stored_ne :
        (w : Writer) (s : State) (j : Bytes)
        → eqb (target w) j ≡ false
        → stored (close w s).1 j ≡ stored s j
    pub delete-stored_self :
        (k : Bytes) (s : State)
        → (delete bucket k s).0 ≡ none
        → stored (delete bucket k s).1 k ≡ none
    pub delete-stored_not_exist :
        (k : Bytes) (s : State) (e : Err)
        → (delete bucket k s).0 ≡ some e
        → is_not_exist e ≡ true
        → stored (delete bucket k s).1 k ≡ none
    pub delete-stored_ne :
        (k : Bytes) (s : State) (j : Bytes)
        → eqb k j ≡ false
        → stored (delete bucket k s).1 j ≡ stored s j
    pub list-prefix : (p : Bytes) (s : State) → AllHavePrefix p (list bucket p s)
    pub list-complete :
        (p : Bytes) (s : State) (k d : Bytes)
        → has_prefix k p ≡ true
        → stored s k ≡ some d
        → lists_key k (list bucket p s) ≡ true
    pub compose-stored_self :
        (k : Bytes) (a : ObjectAttrs) (l : List Bytes) (s : State)
        → (compose bucket k a l s).0 ≡ none
        → (d : Bytes) × (contents (stored s) l ≡ some d)
          × (stored (compose bucket k a l s).1 k ≡ some d)
    pub compose-stored_ne :
        (k : Bytes) (a : ObjectAttrs) (l : List Bytes) (s : State) (j : Bytes)
        → eqb k j ≡ false
        → stored (compose bucket k a l s).1 j ≡ stored s j
    pub copy-stored_self :
        (k : Bytes) (a : ObjectAttrs) (from : Bytes) (s : State)
        → (copy bucket k a from s).0 ≡ none
        → (d : Bytes) × (stored s from ≡ some d) × (stored (copy bucket k a from s).1 k ≡ some d)
    pub copy-stored_ne :
        (k : Bytes) (a : ObjectAttrs) (from : Bytes) (s : State) (j : Bytes)
        → eqb k j ≡ false
        → stored (copy bucket k a from s).1 j ≡ stored s j

-- Nothing fails that the documentation allows: a compose of 1 to 32 objects that are there, and a
-- copy of an object that is there.
pub record GcsReliable (c : GcsClient) (bucket : Bytes) (laws : GcsLaws c bucket) : Type 0 where
  pub composes :
      (k : Bytes) (a : ObjectAttrs) (l : List Bytes) (s : c.State) (d : Bytes)
      → l ≢ []
      → length l ≤ 32
      → contents (laws.stored s) l ≡ some d
      → (c.compose bucket k a l s).0 ≡ none
  pub copies :
      (k : Bytes) (a : ObjectAttrs) (from : Bytes) (s : c.State) (d : Bytes)
      → laws.stored s from ≡ some d
      → (c.copy bucket k a from s).0 ≡ none
