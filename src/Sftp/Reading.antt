-- ===== src/Sftp/Reading.antt =====
-- Attributes and NewRangeReader of blob/sftpblob/sftpblob.go.
use gocloud_ext.Common.{
  ltb_ℤ, leb_ℤ, pos_part, ◌==◌, ◌-◌, take, length, ℕ, ℤ, pos, Bytes, Bool, if◌then◌else◌, List,
  Option, none, some, Result, ok, err,
}
use gocloud_ext.Blob.{Source, eof, broken, chunk}
use gocloud_ext.Sftp.{FileInfo, Failure}
use gocloud_ext.Sftp.Server.{Server}
use gocloud_ext.Sftp.Files.{Xattrs, full_path, for_path}

-- io.LimitReader
unfoldable pub limit_source : ℕ → Source Failure → Source Failure
limit_source n eof = eof
limit_source n (broken e) = if n == 0 then eof else broken e
limit_source n (chunk c r) =
    let rest = limit_source (n - length c) r in if n == 0 then eof else chunk (take n c) rest

-- driver.Attributes, without its ETag
pub record Attributes : Type 0 where
  pub attrs : Xattrs
  pub mod_time : ℤ
  pub size : ℤ

module _ (c : Server) where
  open c use {State, open_file, seek, contents}

  module _ (decode : Source Failure → Result Failure Xattrs) (join : Bytes → Bytes → Bytes)
      (hex_escape : (List ℕ → ℕ → Bool) → Bytes → Bytes) where
    -- forKey
    for_key : Bytes → Option Failure → Bytes → State → Result Failure (Bytes × FileInfo × Xattrs)
    unfolding for_path
    for_key dir (some e) key s = err e
    for_key dir none key s = elim (full_path join hex_escape dir key) [
      | err e ↦ err e
      | ok p ↦ for_path c decode none p s
    ]

    unfoldable pub attributes : Bytes → Option Failure → Bytes → State → Result Failure Attributes
    unfolding for_key
    attributes dir ctx key s = elim (for_key dir ctx key s) [
      | err e ↦ err e
      | ok (p, info, xa) ↦ ok (record { attrs = xa; mod_time = info.mod_time; size = info.size })
    ]

    -- NewRangeReader, with the error of the BeforeRead hook: what the reader then yields.
    unfoldable pub new_range_reader :
        Bytes
        → Option Failure
        → Bytes
        → ℤ
        → ℤ
        → Option Failure
        → State
        → Result Failure (Attributes × Source Failure)
    unfolding for_key
    new_range_reader dir ctx key offset count hook s = elim (for_key dir ctx key s) [
      | err e ↦ err e
      | ok (p, info, xa) ↦ elim (open_file p s) [
        | err e ↦ err e
        | ok f ↦ elim hook [
          | some e ↦ err e
          | none ↦ elim (if ltb_ℤ (pos 0) offset then seek f offset else none) [
            | some e ↦ err e
            | none ↦
                let body = contents f (if ltb_ℤ (pos 0) offset then offset else pos 0) in
                ok (
                  record { attrs = xa; mod_time = info.mod_time; size = info.size },
                  if leb_ℤ (pos 0) count then limit_source (pos_part count) body else body,
                )
          ]
        ]
      ]
    ]
