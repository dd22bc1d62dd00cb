-- ===== src/Http/Collections.antt =====
-- mkcol and ensureCollections of blob/httpblob/webdav.go. The map knownCollections is a function; the
-- locks are left out.
pub mod Told
pub mod Above
pub mod Created
use gocloud_ext.Common.{
  ℕ, Bytes, Bool, true, false, ◌||◌, ◌==◌, if◌then◌else◌, List, [], ◌∷◌, ◌++◌, Option, none, some,
  Result, ok, err, codes, eqb,
}
use gocloud_ext.Sftp.Emit.{slash}
use gocloud_ext.Http.{Fault, Method, status_of}
use gocloud_ext.Http.Client.{Client, HttpBucket}
use gocloud_ext.Http.Paths.{new_request, path_url}
use gocloud_ext.Http.Retry.{do_request}

-- strings.Split at slashes
unfoldable pub split_slash : Bytes → List Bytes
split_slash [] = [] ∷ []
split_slash (x ∷ s) =
    let rest = split_slash s in
    if x == slash
    then [] ∷ rest
    else elim rest [ [] ↦ (x ∷ []) ∷ [] | seg ∷ segs ↦ (x ∷ seg) ∷ segs ]

-- strings.Join of the segments up to each one but the last, behind what comes before them
unfoldable pub joined_before : Bytes → List Bytes → List Bytes
joined_before before [] = []
joined_before before (seg ∷ []) = []
joined_before before (seg ∷ next ∷ segs) =
    (before ++ seg) ∷ joined_before (before ++ seg ++ slash ∷ []) (next ∷ segs)

-- The collections above a path, from the root on.
unfoldable pub ancestors : Bytes → List Bytes
unfolding split_slash joined_before
ancestors p = joined_before [] (split_slash p)

abbrev pub Known : Type 0
Known = Bytes → Bool

abbrev pub mark : Bytes → Known → Known
mark dir known = λ d. if eqb dir d then true else known d

-- The statuses by which a server says that the collection is there.
unfoldable pub is_there : ℕ → Bool
is_there status = status == 405 || status == 301 || status == 308 || status == 302

module _ (c : Client) (b : HttpBucket) where
  open c use {State}

  unfoldable pub mkcol : Bytes → State → Option Fault × State
  unfolding is_there
  mkcol url s =
      let (answer, s') = do_request c b.max_retries (new_request b Method.mkcol url []) s in
      elim answer [
        | ok resp ↦ (none, s')
        | err e ↦ (if is_there (status_of e) then none else some e, s')
      ]

  -- The loop of ensureCollections.
  unfoldable pub ensure_all : List Bytes → Known → State → Option Fault × Known × State
  unfolding mkcol
  ensure_all [] known s = (none, known, s)
  ensure_all (dir ∷ dirs) known s =
      let (failure, s') = mkcol (path_url b dir) s in
      let rest = ensure_all dirs known s in
      let made = ensure_all dirs (mark dir known) s' in
      if known dir then rest else elim failure [ some e ↦ (some e, known, s') | none ↦ made ]

  unfoldable pub ensure_collections : Bytes → Known → State → Option Fault × Known × State
  unfolding ancestors ensure_all
  ensure_collections p known s = ensure_all (ancestors p) known s
