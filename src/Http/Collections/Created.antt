-- ===== src/Http/Collections/Created.antt =====
-- The collections that ensureCollections of blob/httpblob/webdav.go leaves on the server.
use gocloud_ext.Common.{Bytes, true, List, All, Option, none, some, ◌≡◌}
use gocloud_ext.Http.{Fault}
use gocloud_ext.Http.Client.{Client, HttpBucket}
use gocloud_ext.Http.Paths.{path_url}
use gocloud_ext.Http.Collections.Told.{Laws}
use gocloud_ext.Http.Collections.{Known}

module _ (c : Client) (b : HttpBucket) (laws : Laws c b) where
  open c use {State, ctx_err, send}
  open laws use {Has}

  -- Every collection that the cache knows is on the server.
  abbrev pub IsSound : Known → State → Type 0
  IsSound known s = (dir : Bytes) → known dir ≡ true → Has s (path_url b dir)

  -- What ensureCollections leaves: the cache is still sound, it has lost nothing, and on success the
  -- directories are on the server.
  abbrev IsEnsured : List Bytes → Option Fault × Known × State → Type 0
  IsEnsured dirs (some e, known, s) = IsSound known s
  IsEnsured dirs (none, known, s) = IsSound known s × All (λ dir. Has s (path_url b dir)) dirs

  -- What ensureCollections leaves for a collection above the path.
  abbrev pub IsEnsuredAt : Bytes → Option Fault × Known × State → Type 0
  IsEnsuredAt dir (some e, known, s) = IsSound known s
  IsEnsuredAt dir (none, known, s) = IsSound known s × Has s (path_url b dir)
