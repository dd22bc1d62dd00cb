-- ===== src/Http/Listing.antt =====
-- The lister of blob/httpblob/webdav.go and the rules that it applies to one key. driver.ListObject
-- and driver.ListPage are those of the SFTP listing. The As hooks of the results are left out;
-- PageSize is a natural number, as the driver contract has it.
pub mod Walk
pub mod Rules
use gocloud_ext.Common.{
  ℕ, pos, ℤ, ◌+◌, ◌==◌, Bytes, Bool, true, false, ◌&&◌, ◌||◌, not, ltb, if◌then◌else◌, List, [],
  ◌∷◌, ◌++◌, length, take, drop, Option, none, some, Result, ok, codes, eqb, has_prefix, has_suffix,
  contains, index,
}
use gocloud_ext.Sftp.Emit.{ListObject, ListPage, slash, le_bytes, last_key}
use gocloud_ext.Http.{Fault, Request}
use gocloud_ext.Http.Propfind.{DavEntry}

-- The BeforeList hook, which changes the request or fails.
abbrev pub Hook : Type 0
Hook = Request → Result Fault Request

-- lister, without its bucket
pub record DavLister : Type 0 where
  pub prefix : Bytes
  pub delimiter : Bytes
  pub page_size : ℕ
  pub page_token : Bytes
  pub before : Option Hook
  pub objects : List ListObject
  pub last_prefix : Bytes
  pub full : Bool

-- listChild
pub record DavChild : Type 0 where
  pub key : Bytes
  pub sort_key : Bytes
  pub entry : DavEntry

-- takeBefore; a nil hook changes nothing
unfoldable pub dav_take_before : DavLister → Hook × DavLister
dav_take_before l = elim l.before [
  | none ↦ (ok, record l { before = none })
  | some hook ↦ (hook, record l { before = none })
]

-- The page token, the page size and the append at the end of emit.
pub dav_add : Option ListObject → DavLister → DavLister
dav_add none l = l
dav_add (some obj) l =
    if not (eqb l.page_token []) && le_bytes obj.key l.page_token
    then l
    else if length l.objects == l.page_size
    then record l { full = true }
    else record l { objects = l.objects ++ (obj ∷ []) }

-- A key that folds into the directory `dir`.
pub dav_fold : Bytes → DavLister → DavLister
unfolding dav_add
dav_fold dir l =
    if eqb dir l.last_prefix
    then l
    else dav_add (some record { key = dir; mod_time = pos 0; size = pos 0; is_dir = true })
        (record l { last_prefix = dir })

unfoldable pub dav_emit : Bytes → Option ListObject → DavLister → DavLister
unfolding dav_add dav_fold
dav_emit key obj l =
    let rest = drop (length l.prefix) key in
    if not (has_prefix key l.prefix)
    then l
    else if eqb l.delimiter []
    then dav_add obj l
    else elim (index rest l.delimiter) [
      | none ↦ dav_add obj l
      | some i ↦ dav_fold (l.prefix ++ take (i + length l.delimiter) rest) l
    ]

unfoldable pub dav_descend : Bytes → DavLister → Bool
dav_descend collection_key l =
    let sub = collection_key ++ (slash ∷ []) in
    if not (has_prefix sub l.prefix) && not (has_prefix l.prefix sub)
    then false
    else if not (eqb l.page_token [])
        && le_bytes sub l.page_token
        && not (has_prefix l.page_token sub)
    then false
    else true

unfoldable pub dav_collapses : Bytes → DavLister → Bool
dav_collapses collection_key l =
    let sub = collection_key ++ (slash ∷ []) in
    eqb l.delimiter (codes "/") && has_prefix sub l.prefix && ltb (length l.prefix) (length sub)

unfoldable pub dav_page : DavLister → ListPage
dav_page l = record {
  objects = l.objects;
  next_page_token = if l.full && ltb 0 (length l.objects) then last_key l.objects else none;
}

unfoldable pub dav_is_internal_path : Bytes → Bool
dav_is_internal_path path = has_suffix path (codes ".attrs") || contains path (codes ".gocdktmp.")
