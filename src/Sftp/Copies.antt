-- ===== src/Sftp/Copies.antt =====
-- Copy and Delete of blob/sftpblob/sftpblob.go, on the paths that fullPath gives. The hooks are the
-- errors that they return; `ctx` is what ctx.Err returns.
pub mod Copied
use gocloud_ext.Common.{
  ℕ, Bytes, Bool, true, false, ◌||◌, if◌then◌else◌, List, [], ◌∷◌, ◌++◌, ◌+◌, Option, none, some,
  Result, ok, err, eqb, pos,
}
use gocloud_ext.Blob.{Source, eof, broken, chunk}
use gocloud_ext.Sftp.{Failure, attrs_ext, temp_infix}
use gocloud_ext.Sftp.Server.{Server, plain_error, or_else}
use gocloud_ext.Sftp.Files.{Xattrs, full_path, get_attrs, set_attrs, commit_rename}

module _ (c : Server) where
  open c use {State, Handle, write, close, remove, mkdir_all, open_new, open_file, contents}

  -- io.Copy into a file.
  unfoldable pub copy_file : Handle → Source Failure → State → Option Failure × State
  copy_file f eof s = (none, s)
  copy_file f (broken e) s = (some e, s)
  copy_file f (chunk d r) s =
      let (n, failure, s') = write f d s in
      elim failure [ none ↦ copy_file f r s' | some e ↦ (some e, s') ]

  -- The staged sidecar, unless metadata is not written: whether there is one.
  stage_attrs :
      (Source Failure → Result Failure Xattrs)
      → (Xattrs → Bytes)
      → Option Failure
      → Bool
      → Bytes
      → Bytes
      → State
      → Option Failure × State
  stage_attrs decode encode ctx dont_write src tmp s =
      if dont_write then (none, s) else elim (get_attrs c decode ctx src s) [
        | err e ↦ (some e, s)
        | ok xa ↦ set_attrs c encode ctx tmp xa s
      ]

  -- The renames into place.
  finish_copy : Bool → Bytes → Bytes → Bool → State → Option Failure × Bool × State
  finish_copy dont_write tmp dst unsupported s =
      let (failure, flag, s') = commit_rename c tmp dst false unsupported s in
      elim failure [
        | some e ↦
            let (ignored, s2) = if dont_write then (none, s') else remove (tmp ++ attrs_ext) s' in
            let (gone, s3) = remove tmp s2 in (some e, flag, s3)
        | none ↦
            if dont_write
            then (none, flag, s')
            else commit_rename c (tmp ++ attrs_ext) (dst ++ attrs_ext) false flag s'
      ]

  module _ (decode : Source Failure → Result Failure Xattrs) (encode : Xattrs → Bytes) where
    -- From the staged file on.
    fill_copy :
        Option Failure
        → Bool
        → Bytes
        → Bytes
        → Bytes
        → Source Failure
        → Handle
        → Bool
        → State
        → Option Failure × Bool × State
    unfolding stage_attrs finish_copy
    fill_copy (some e) dont_write src dst tmp body f unsupported s =
        let (ignored, s') = close f s in
        let (gone, s'') = remove tmp s' in (some e, unsupported, s'')
    fill_copy none dont_write src dst tmp body f unsupported s =
        let (copied, s1) = copy_file f body s in
        let (closed, s2) = close f s1 in
        elim (or_else copied closed) [
          | some e ↦ let (gone, s3) = remove tmp s2 in (some e, unsupported, s3)
          | none ↦
              let (staged, s3) = stage_attrs decode encode none dont_write src tmp s2 in
              elim staged [
                | some e ↦ let (gone, s4) = remove tmp s3 in (some e, unsupported, s4)
                | none ↦ finish_copy dont_write tmp dst unsupported s3
              ]
        ]

    copy_paths :
        (Bytes → Bytes)
        → Option Failure
        → Bool
        → Bytes
        → Bytes
        → Bytes
        → Option Failure
        → Bool
        → State
        → Option Failure × Bool × State
    unfolding fill_copy
    copy_paths dir_of ctx dont_write src dst stamp hook unsupported s = elim (open_file src s) [
      | err e ↦ (some e, unsupported, s)
      | ok f ↦ elim hook [
        | some e ↦ (some e, unsupported, s)
        | none ↦
            let (made, s1) = mkdir_all (dir_of dst) s in
            elim made [
              | some e ↦ (some e, unsupported, s1)
              | none ↦
                  let (opened, s2) = open_new (dst ++ (temp_infix ++ stamp)) s1 in
                  elim opened [
                    | err e ↦ (some e, unsupported, s2)
                    | ok h ↦
                        fill_copy ctx dont_write src dst (dst ++ (temp_infix ++ stamp))
                          (contents f (pos 0)) h unsupported s2
                  ]
            ]
      ]
    ]

    -- Copy
    unfoldable pub copy_blob :
        (Bytes → Bytes → Bytes)
        → (Bytes → Bytes)
        → ((List ℕ → ℕ → Bool) → Bytes → Bytes)
        → Bytes
        → Option Failure
        → Bool
        → Bytes
        → Bytes
        → Bytes
        → Option Failure
        → Bool
        → State
        → Option Failure × Bool × State
    unfolding copy_paths
    copy_blob join dir_of hex_escape dir ctx dont_write dst_key src_key stamp hook unsupported s =
        if eqb dst_key [] || eqb src_key []
        then (some plain_error, unsupported, s)
        else elim (full_path join hex_escape dir src_key) [
          | err e ↦ (some e, unsupported, s)
          | ok src ↦ elim (full_path join hex_escape dir dst_key) [
            | err e ↦ (some e, unsupported, s)
            | ok dst ↦ copy_paths dir_of ctx dont_write src dst stamp hook unsupported s
          ]
        ]

  -- Delete: the blob, and then its sidecar, which need not be there.
  unfoldable pub delete_blob :
      (Bytes → Bytes → Bytes)
      → ((List ℕ → ℕ → Bool) → Bytes → Bytes)
      → Bytes
      → Bytes
      → Option Failure
      → State
      → Option Failure × State
  delete_blob join hex_escape dir key hook s = elim (full_path join hex_escape dir key) [
    | err e ↦ (some e, s)
    | ok p ↦ elim hook [
      | some e ↦ (some e, s)
      | none ↦
          let (failure, s') = remove p s in
          let (ignored, s'') = remove (p ++ attrs_ext) s' in
          elim failure [ some e ↦ (some e, s') | none ↦ (none, s'') ]
    ]
  ]
