-- ===== src/Sftp/Files.antt =====
-- The paths, sidecars and renames of blob/sftpblob/sftpblob.go. path.Join, the JSON codec and HexEscape
-- are parameters; `ctx` is what ctx.Err returns.
pub mod Renames
pub mod Sidecars
use gocloud_ext.Common.{
  ltb_ℤ, leb_ℤ, pos_part, ◌==◌, ◌-◌, take, length, ℕ, ℤ, pos, Bytes, Bool, true, false, not,
  if◌then◌else◌, List, [], ◌∷◌, ◌++◌, Option, none, some, Result, ok, err, eqb, has_prefix,
  has_suffix, contains, codes,
}
use gocloud_ext.Blob.{
  is_not_found, invalid_argument, failed_precondition, already_exists, unimplemented, ErrorCode,
  Source,
}
use gocloud_ext.Escape.{key_escape}
use gocloud_ext.Sftp.{FileInfo, Failure, attrs_ext, temp_infix, error_code}
use gocloud_ext.Sftp.Server.{Server, plain_error, errorf}
use gocloud_ext.Sftp.Emit.{slash}

-- xattrs
pub record Xattrs : Type 0 where
  pub cache_control : Bytes
  pub content_disposition : Bytes
  pub content_encoding : Bytes
  pub content_language : Bytes
  pub content_type : Bytes
  pub metadata : List (Bytes × Bytes)
  pub md5 : Bytes

abbrev pub default_attrs : Xattrs
default_attrs = record {
  cache_control = [];
  content_disposition = [];
  content_encoding = [];
  content_language = [];
  content_type = codes "application/octet-stream";
  metadata = [];
  md5 = [];
}

abbrev pub is_code_already_exists : ErrorCode → Bool
is_code_already_exists already_exists = true
is_code_already_exists _ = false

abbrev pub is_code_unimplemented : ErrorCode → Bool
is_code_unimplemented unimplemented = true
is_code_unimplemented _ = false

-- The directory with the slash that a path beneath it has.
abbrev pub dir_prefix : Bytes → Bytes
dir_prefix dir = if has_suffix dir (slash ∷ []) then dir else dir ++ slash ∷ []

-- The checks of fullPath on the joined path.
check_path : Bytes → Bytes → Result Failure Bytes
check_path dir p =
    if not (has_prefix (p ++ slash ∷ []) (dir_prefix dir))
    then err (errorf invalid_argument none)
    else if has_suffix p attrs_ext
    then err (errorf invalid_argument none)
    else if contains p temp_infix
    then err (errorf invalid_argument none)
    else ok p

unfoldable pub full_path :
    (Bytes → Bytes → Bytes)
    → ((List ℕ → ℕ → Bool) → Bytes → Bytes)
    → Bytes
    → Bytes
    → Result Failure Bytes
unfolding check_path
full_path join hex_escape dir key =
    if eqb key []
    then err (errorf invalid_argument none)
    else check_path dir (join dir (key_escape hex_escape key))

module _ (c : Server) where
  open c use {
    State, Handle, File, stat, rename, posix_rename, remove, create, write, close, open_file,
    contents,
  }

  -- A rename that must not replace: the destination is looked for first.
  rename_new : Bytes → Bytes → State → Option Failure × State
  rename_new src dst s =
      let (failure, s') = rename src dst s in
      elim (stat dst s) [
        | ok info ↦ (some (errorf failed_precondition none), s)
        | err gone ↦ elim failure [
          | none ↦ (none, s')
          | some e ↦ (
            some (
                if is_code_already_exists (error_code e)
                then errorf failed_precondition (some e)
                else e),
            s',
          )
        ]
      ]

  -- The fallback: remove, then rename.
  replace : Bytes → Bytes → State → Option Failure × State
  replace src dst s =
      let (removed, s') = remove dst s in
      let (renamed, s'') = rename src dst s' in
      elim removed [
        | none ↦ (renamed, s'')
        | some e ↦ if is_not_found (error_code e) then (renamed, s'') else (some e, s')
      ]

  -- commitRename, with the flag posixRenameUnsupported.
  unfoldable pub commit_rename : Bytes → Bytes → Bool → Bool → State → Option Failure × Bool × State
  unfolding rename_new replace
  commit_rename src dst if_not_exist unsupported s =
      let (refused, s0) = rename_new src dst s in
      let (replaced, s1) = replace src dst s in
      let (failure, s2) = posix_rename src dst s in
      let (again, s3) = replace src dst s2 in
      if if_not_exist
      then (refused, unsupported, s0)
      else if unsupported
      then (replaced, unsupported, s1)
      else elim failure [
        | none ↦ (none, unsupported, s2)
        | some e ↦
            if is_code_unimplemented (error_code e)
            then (again, true, s3)
            else (some e, unsupported, s2)
      ]

  -- getAttrs
  unfoldable pub get_attrs :
      (Source Failure → Result Failure Xattrs)
      → Option Failure
      → Bytes
      → State
      → Result Failure Xattrs
  get_attrs decode (some e) p s = err e
  get_attrs decode none p s = elim (open_file (p ++ attrs_ext) s) [
    | err e ↦ if e.is_not_exist then ok default_attrs else err e
    | ok f ↦ decode (contents f (pos 0))
  ]

  -- The encoder's bytes are written, and the file is closed; a failed write removes it.
  fill_attrs : Bytes → Bytes → Handle → State → Option Failure × State
  fill_attrs p body f s =
      let (n, failure, s') = write f body s in
      let (closed, s'') = close f s' in
      elim failure [
        | none ↦ (closed, s'')
        | some e ↦ let (ignored, s3) = remove p s'' in (some e, s3)
      ]

  -- setAttrs
  unfoldable pub set_attrs :
      (Xattrs → Bytes) → Option Failure → Bytes → Xattrs → State → Option Failure × State
  unfolding fill_attrs
  set_attrs encode (some e) p xa s = (some e, s)
  set_attrs encode none p xa s =
      let (created, s') = create (p ++ attrs_ext) s in
      elim created [ err e ↦ (some e, s') | ok f ↦ fill_attrs (p ++ attrs_ext) (encode xa) f s' ]

  -- forKey, on a path of fullPath: a directory is not a blob.
  unfoldable pub for_path :
      (Source Failure → Result Failure Xattrs)
      → Option Failure
      → Bytes
      → State
      → Result Failure (Bytes × FileInfo × Xattrs)
  unfolding get_attrs
  for_path decode ctx p s = elim (stat p s) [
    | err e ↦ err e
    | ok info ↦
        if info.is_dir
        then err (record plain_error { is_not_exist = true })
        else elim (get_attrs decode ctx p s) [ err e ↦ err e | ok xa ↦ ok (p, info, xa) ]
  ]
