-- ===== src/Sftp/Write.antt =====
-- The writers of blob/sftpblob/sftpblob.go: a blob is staged in a file beside it, and Close renames it
-- into place. `writer` and `writerWithSidecar` are one record, with the attributes of the second;
-- `stamp` is the time in the staged file's name, and `ctx` is what ctx.Err returns. The lock is left out.
pub mod Names
pub mod Staged
pub mod Closed
pub mod Published
pub mod Refused
use gocloud_ext.Common.{
  ℕ, Bytes, Bool, true, false, not, ◌&&◌, ◌||◌, if◌then◌else◌, List, [], ◌∷◌, ◌++◌, take, Option,
  none, some, Result, ok, err, eqb,
}
use gocloud_ext.Blob.{failed_precondition}
use gocloud_ext.Sftp.{Failure, attrs_ext, temp_infix}
use gocloud_ext.Sftp.Server.{Server, plain_error, errorf, or_else}
use gocloud_ext.Sftp.Files.{Xattrs, full_path, set_attrs, commit_rename}

pub record Writer (H : Type 0) : Type 0 where
  pub handle : H
  pub path : Bytes
  pub tmp : Bytes
  pub attrs : Option Xattrs
  pub content_md5 : Bytes
  -- what the MD5 hash was given
  pub hashed : Bytes
  pub closed : Bool
  pub if_not_exist : Bool
  pub failed : Bool

-- driver.WriterOptions; the hook is the error that it returns
pub record FileOptions : Type 0 where
  pub cache_control : Bytes
  pub content_disposition : Bytes
  pub content_encoding : Bytes
  pub content_language : Bytes
  pub metadata : List (Bytes × Bytes)
  pub content_md5 : Bytes
  pub if_not_exist : Bool
  pub before_write : Option Failure

-- MetadataDontWrite writes no sidecar.
writer_attrs : Bool → Bytes → FileOptions → Option Xattrs
writer_attrs true content_type o = none
writer_attrs false content_type o = some record {
  cache_control = o.cache_control;
  content_disposition = o.content_disposition;
  content_encoding = o.content_encoding;
  content_language = o.content_language;
  content_type = content_type;
  metadata = o.metadata;
  md5 = [];
}

module _ (c : Server) where
  open c use {State, Handle, write, close, remove, mkdir_all, open_new}

  -- The staged file, and the hook.
  start_writer :
      Bool → Bytes → Bytes → Bytes → FileOptions → State → Result Failure (Writer Handle) × State
  unfolding writer_attrs
  start_writer dont_write content_type p stamp o s =
      let tmp = p ++ (temp_infix ++ stamp) in
      let (opened, s') = open_new tmp s in
      elim opened [
        | err e ↦ (err e, s')
        | ok f ↦ elim o.before_write [
          | some e ↦ let (ignored, s2) = close f s' in let (gone, s3) = remove tmp s2 in (err e, s3)
          | none ↦ (
            ok record {
              handle = f;
              path = p;
              tmp = tmp;
              attrs = writer_attrs dont_write content_type o;
              content_md5 = o.content_md5;
              hashed = [];
              closed = false;
              if_not_exist = o.if_not_exist;
              failed = false;
            },
            s',
          )
        ]
      ]

  -- NewTypedWriter
  unfoldable pub new_typed_writer :
      (Bytes → Bytes → Bytes)
      → (Bytes → Bytes)
      → ((List ℕ → ℕ → Bool) → Bytes → Bytes)
      → Bytes
      → Bool
      → Bytes
      → Bytes
      → Bytes
      → FileOptions
      → State
      → Result Failure (Writer Handle) × State
  unfolding start_writer
  new_typed_writer join dir_of hex_escape dir dont_write key content_type stamp o s =
      if eqb key [] then (err plain_error, s) else elim (full_path join hex_escape dir key) [
        | err e ↦ (err e, s)
        | ok p ↦
            let (failure, s') = mkdir_all (dir_of p) s in
            elim failure [
              | some e ↦ (err e, s')
              | none ↦ start_writer dont_write content_type p stamp o s'
            ]
      ]

  -- Write, unless the writer is closed.
  write_open :
      Writer Handle → Bytes → Option Failure → State → ℕ × Option Failure × Writer Handle × State
  write_open w p (some e) s = (0, some e, w, s)
  write_open w p none s =
      let (n, failure, s') = write w.handle p s in
      elim failure [
        | none ↦ (n, none, record w { hashed = w.hashed ++ p }, s')
        | some e ↦ (n, some e, record w { hashed = w.hashed ++ take n p; failed = true }, s')
      ]

  unfoldable pub write_bytes :
      Writer Handle → Bytes → Option Failure → State → ℕ × Option Failure × Writer Handle × State
  unfolding write_open
  write_bytes w p ctx s = if w.closed then (0, some plain_error, w, s) else write_open w p ctx s

  -- The checks of Close before the rename: a failed write, the error of the file's Close, the context
  -- and the checksum.
  refusal : (Bytes → Bytes) → Writer Handle → Option Failure → Option Failure → Option Failure
  refusal md5 w close_failure ctx = if w.failed then some plain_error else elim close_failure [
    | some e ↦ some e
    | none ↦ elim ctx [
      | some e ↦ some e
      | none ↦
          if not (eqb w.content_md5 []) && not (eqb w.content_md5 (md5 w.hashed))
          then some (errorf failed_precondition none)
          else none
    ]
  ]

  -- The staged sidecar, where there is one, is removed.
  drop_attrs : Option Xattrs → Bytes → State → Option Failure × State
  drop_attrs none tmp s = (none, s)
  drop_attrs (some xa) tmp s = remove (tmp ++ attrs_ext) s

  -- A failed Close removes the staged sidecar and the staged file.
  pub discard : Writer Handle → Failure → Bool → State → Option Failure × Bool × State
  unfolding drop_attrs
  discard w e unsupported s =
      let (ignored, s') = drop_attrs w.attrs w.tmp s in
      let (gone, s'') = remove w.tmp s' in (some e, unsupported, s'')

  -- The rename into place, after which only the sidecar is renamed.
  publish_file : Writer Handle → Bool → State → Option Failure × Bool × State
  unfolding discard
  publish_file w unsupported s =
      let (failure, flag, s') = commit_rename c w.tmp w.path w.if_not_exist unsupported s in
      elim failure [
        | some e ↦ discard w e flag s'
        | none ↦ elim w.attrs [
          | none ↦ (none, flag, s')
          | some xa ↦ commit_rename c (w.tmp ++ attrs_ext) (w.path ++ attrs_ext) false flag s'
        ]
      ]

  commit_file :
      (Bytes → Bytes)
      → (Xattrs → Bytes)
      → Writer Handle
      → Option Failure
      → Bool
      → State
      → Option Failure × Bool × State
  unfolding publish_file
  commit_file md5 encode w ctx unsupported s = elim w.attrs [
    | none ↦ publish_file w unsupported s
    | some xa ↦
        let (failure, s') = set_attrs c encode ctx w.tmp (record xa { md5 = md5 w.hashed }) s in
        elim failure [ some e ↦ discard w e unsupported s' | none ↦ publish_file w unsupported s' ]
  ]

  finish_file :
      (Bytes → Bytes)
      → (Xattrs → Bytes)
      → Writer Handle
      → Option Failure
      → Bool
      → Option Failure
      → State
      → Option Failure × Bool × State
  unfolding refusal commit_file
  finish_file md5 encode w ctx unsupported close_failure s =
      elim (refusal md5 w close_failure ctx) [
        | some e ↦ discard w e unsupported s
        | none ↦ commit_file md5 encode w ctx unsupported s
      ]

  -- Close, with the bucket's flag posixRenameUnsupported.
  unfoldable pub close_writer :
      (Bytes → Bytes)
      → (Xattrs → Bytes)
      → Writer Handle
      → Option Failure
      → Bool
      → State
      → Option Failure × Writer Handle × Bool × State
  unfolding finish_file
  close_writer md5 encode w ctx unsupported s =
      let (close_failure, s') = close w.handle s in
      let (failure, flag, s'') = finish_file md5 encode w ctx unsupported close_failure s' in
      if w.closed
      then (some plain_error, w, unsupported, s)
      else (failure, record w { closed = true }, flag, s'')
