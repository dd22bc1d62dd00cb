-- ===== src/Http/Propfind/Hrefs.antt =====
-- The hrefs that relativePath of blob/httpblob/webdav.go reads.
use gocloud_ext.Common.{
  Bytes, false, [], ◌∷◌, ◌++◌, Option, some, eqb, has_prefix, has_suffix, trim_prefix,
  has_prefix-append, drop-append, ◌≡◌, refl,
}
use gocloud_ext.Sftp.Emit.{slash}
use gocloud_ext.Http.Client.{HttpBucket}
use gocloud_ext.Http.Bodies.{trim_space}
use gocloud_ext.Http.Propfind.{relative_path}

module _ (url_path : Bytes → Option Bytes) (b : HttpBucket) where
  -- Where the path of an href is the bucket's one with a slash and `p`, which is not empty and does
  -- not end in a slash, relativePath answers `p`.
  pub relative_path-object :
      (href p : Bytes)
      → url_path (trim_space href) ≡ some (b.base_path ++ (slash ∷ p))
      → has_suffix p (slash ∷ []) ≡ false
      → eqb p [] ≡ false
      → relative_path url_path b href ≡ some p
  unfolding relative_path trim_prefix has_prefix
  relative_path-object href p h n e =
      rw
        (
          relative_path,
          h,
          has_prefix-append b.base_path (slash ∷ p),
          drop-append b.base_path (slash ∷ p),
        )
        (rw (n, e) refl)
