-- ===== src/Sftp/Server/Laws.antt =====
-- What an SFTP server does with files: each call changes the files that it names, and one that fails
-- changes none but the file that it was writing.
use gocloud_ext.Common.{Bytes, pos, false, Option, none, some, ◌++◌, [], ok, eqb, ◌≡◌}
use gocloud_ext.Blob.{drain}
use gocloud_ext.Sftp.{Failure}
use gocloud_ext.Sftp.Server.{Server}

module _ (c : Server) where
  open c use {
    State, Handle, File, rename, posix_rename, remove, mkdir_all, open_new, create, write, close,
    open_file, contents,
  }

  pub record Laws : Type 1 where
    -- the bytes of the file at a path, and the path of a handle
    pub stored : State → Bytes → Option Bytes
    pub target : Handle → Bytes
    pub rename-stored_dst :
        (p q : Bytes) (s : State) → (rename p q s).0 ≡ none → stored (rename p q s).1 q ≡ stored s p
    pub rename-stored_ne :
        (p q : Bytes) (s : State) (j : Bytes)
        → eqb p j ≡ false
        → eqb q j ≡ false
        → stored (rename p q s).1 j ≡ stored s j
    pub rename-failed :
        (p q : Bytes) (s : State) (e : Failure) (j : Bytes)
        → (rename p q s).0 ≡ some e
        → stored (rename p q s).1 j ≡ stored s j
    pub posix_rename-stored_dst :
        (p q : Bytes) (s : State)
        → (posix_rename p q s).0 ≡ none
        → stored (posix_rename p q s).1 q ≡ stored s p
    pub posix_rename-stored_ne :
        (p q : Bytes) (s : State) (j : Bytes)
        → eqb p j ≡ false
        → eqb q j ≡ false
        → stored (posix_rename p q s).1 j ≡ stored s j
    pub posix_rename-failed :
        (p q : Bytes) (s : State) (e : Failure) (j : Bytes)
        → (posix_rename p q s).0 ≡ some e
        → stored (posix_rename p q s).1 j ≡ stored s j
    pub remove-stored_self :
        (p : Bytes) (s : State) → (remove p s).0 ≡ none → stored (remove p s).1 p ≡ none
    pub remove-stored_ne :
        (p : Bytes) (s : State) (j : Bytes) → eqb p j ≡ false → stored (remove p s).1 j ≡ stored s j
    pub remove-failed :
        (p : Bytes) (s : State) (e : Failure) (j : Bytes)
        → (remove p s).0 ≡ some e
        → stored (remove p s).1 j ≡ stored s j
    pub mkdir_all-stored :
        (p : Bytes) (s : State) (j : Bytes) → stored (mkdir_all p s).1 j ≡ stored s j
    pub open_new-target :
        (p : Bytes) (s : State) (h : Handle) → (open_new p s).0 ≡ ok h → target h ≡ p
    pub open_new-stored_self :
        (p : Bytes) (s : State) (h : Handle)
        → (open_new p s).0 ≡ ok h
        → stored (open_new p s).1 p ≡ some []
    pub open_new-stored_ne :
        (p : Bytes) (s : State) (j : Bytes)
        → eqb p j ≡ false
        → stored (open_new p s).1 j ≡ stored s j
    pub create-target : (p : Bytes) (s : State) (h : Handle) → (create p s).0 ≡ ok h → target h ≡ p
    pub create-stored_self :
        (p : Bytes) (s : State) (h : Handle)
        → (create p s).0 ≡ ok h
        → stored (create p s).1 p ≡ some []
    pub create-stored_ne :
        (p : Bytes) (s : State) (j : Bytes) → eqb p j ≡ false → stored (create p s).1 j ≡ stored s j
    pub write-stored_self :
        (h : Handle) (b d : Bytes) (s : State)
        → (write h b s).1 ≡ none
        → stored s (target h) ≡ some d
        → stored (write h b s).2 (target h) ≡ some (d ++ b)
    pub write-stored_ne :
        (h : Handle) (b : Bytes) (s : State) (j : Bytes)
        → eqb (target h) j ≡ false
        → stored (write h b s).2 j ≡ stored s j
    pub close-stored : (h : Handle) (s : State) (j : Bytes) → stored (close h s).1 j ≡ stored s j
    pub open_file-stored :
        (p : Bytes) (s : State) (f : File) (d : Bytes)
        → open_file p s ≡ ok f
        → drain (contents f (pos 0)) ≡ some d
        → stored s p ≡ some d

-- The rename of the base protocol fails when the destination exists.
abbrev pub IsExclusive : (c : Server) → Laws c → Type 0
IsExclusive c laws =
    (p q : Bytes) (s : c.State) → (c.rename p q s).0 ≡ none → laws.stored s q ≡ none
