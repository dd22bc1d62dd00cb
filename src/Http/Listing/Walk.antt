-- ===== src/Http/Listing/Walk.antt =====
-- The walk of blob/httpblob/webdav.go: visit, hasKey and ListPaged. A PROPFIND of a collection may
-- change the state of the client; each level of the tree takes a unit of fuel.
pub mod Steps
pub mod Kept
pub mod Taken
pub mod Pages
pub mod Ends
use gocloud_ext.Common.{
  ℕ, zero, suc, pos, ℤ, ◌==◌, Bytes, Bool, true, false, ◌||◌, not, if◌then◌else◌, List, [], ◌∷◌,
  ◌++◌, take, Option, none, some, eqb, codes, lt_bytes, last_index, Result, ok, err,
}
use gocloud_ext.Blob.{is_not_found, unimplemented}
use gocloud_ext.Escape.{key_escape}
use gocloud_ext.Sftp.Emit.{ListObject, ListPage, slash}
use gocloud_ext.Http.{Body, Fault, fault_code, driver_fault}
use gocloud_ext.Http.Client.{Client, HttpBucket}
use gocloud_ext.Http.Paths.{collection_url}
use gocloud_ext.Http.Object.{parse_mod_time}
use gocloud_ext.Http.Propfind.{DavEntry, DavResponse, entry_header, propfind}
use gocloud_ext.Http.Listing.{
  Hook, DavLister, DavChild, dav_take_before, dav_emit, dav_descend, dav_collapses, dav_page,
  dav_is_internal_path,
}

-- An error of the driver, or the end of the fuel.
pub data DavError : Type 0 where
  out_of_fuel : DavError
  fault : Fault → DavError

-- driver.ListOptions
pub record DavListOptions : Type 0 where
  pub prefix : Bytes
  pub delimiter : Bytes
  pub page_size : ℕ
  pub page_token : Bytes
  pub before_list : Option Hook

-- `sort.Slice` by `children[i].sortKey < children[j].sortKey`
insert_dav_child : DavChild → List DavChild → List DavChild
insert_dav_child c [] = c ∷ []
insert_dav_child c (d ∷ l) =
    if lt_bytes d.sort_key c.sort_key then d ∷ insert_dav_child c l else c ∷ d ∷ l

pub sort_dav_children : List DavChild → List DavChild
unfolding insert_dav_child
sort_dav_children [] = []
sort_dav_children (c ∷ l) = insert_dav_child c (sort_dav_children l)

-- The collection itself and the driver's own files.
pub is_skipped : Bytes → DavEntry → Bool
is_skipped dir e = eqb e.path dir || dav_is_internal_path e.path

-- The children of a collection.
pub dav_children : (Bytes → Bytes) → Bytes → List DavEntry → List DavChild
unfolding is_skipped
dav_children hex_unescape dir [] = []
dav_children hex_unescape dir (e ∷ l) =
    let rest = dav_children hex_unescape dir l in
    let key = hex_unescape e.path in
    let sort_key = if e.is_collection then key ++ slash ∷ [] else key in
    if is_skipped dir e then rest else record { key = key; sort_key = sort_key; entry = e } ∷ rest

-- A time, which the zero time begins.
date_or_zero : Option ℤ → ℤ
date_or_zero none = pos 0
date_or_zero (some t) = t

dav_object : HttpBucket → DavChild → ListObject
unfolding date_or_zero
dav_object b c = record {
  key = c.key;
  mod_time = date_or_zero (parse_mod_time b (entry_header c.entry));
  size = c.entry.size;
  is_dir = false;
}

-- The first loop of hasKey: a blob ends it; where there is none, the rest are collections.
has_blob : Bytes → List DavEntry → Bool
unfolding is_skipped
has_blob dir [] = false
has_blob dir (e ∷ l) =
    if is_skipped dir e
    then has_blob dir l
    else if not e.is_collection
    then true
    else has_blob dir l

pub collections : Bytes → List DavEntry → List Bytes
unfolding is_skipped
collections dir [] = []
collections dir (e ∷ l) =
    let rest = collections dir l in if is_skipped dir e then rest else e.path ∷ rest

module _ {State : Type 0} where
  -- A collection that does not exist, or vanished, contributes nothing.
  unless_vanished : {A : Type 0} → Fault → A → State → Result DavError A × State
  unless_vanished e a s = if is_not_found (fault_code e) then (ok a, s) else (err (fault e), s)

  -- The second loop of hasKey.
  pub any_blob :
      (Bytes → State → Result DavError Bool × State)
      → List Bytes
      → State
      → Result DavError Bool × State
  any_blob has [] s = (ok false, s)
  any_blob has (sub ∷ l) s =
      let (found, s') = has sub s in
      elim found [
        | err e ↦ (err e, s')
        | ok yes_there ↦ elim yes_there [ true ↦ (ok true, s') | false ↦ any_blob has l s' ]
      ]

  -- A directory result, where there is a key.
  dir_result : Bytes → Result DavError Bool × State → DavLister → Result DavError DavLister × State
  dir_result key (found, s) l = elim found [
    | err e ↦ (err e, s)
    | ok there ↦ (ok (if there then dav_emit (key ++ slash ∷ []) none l else l), s)
  ]

  -- One child: a blob is emitted; a collection is skipped, probed or visited.
  pub dav_visit_child :
      HttpBucket
      → (Bytes → State → Result DavError Bool × State)
      → (Bytes → DavLister → State → Result DavError DavLister × State)
      → DavChild
      → DavLister
      → State
      → Result DavError DavLister × State
  unfolding dav_object dir_result
  dav_visit_child b has visit c l s =
      if not c.entry.is_collection
      then (ok (dav_emit c.key (some (dav_object b c)) l), s)
      else if not (dav_descend c.key l)
      then (ok l, s)
      else if dav_collapses c.key l
      then dir_result c.key (has c.entry.path s) l
      else visit c.entry.path l s

  pub dav_visit_children :
      HttpBucket
      → (Bytes → State → Result DavError Bool × State)
      → (Bytes → DavLister → State → Result DavError DavLister × State)
      → List DavChild
      → DavLister
      → State
      → Result DavError DavLister × State
  unfolding dav_visit_child
  dav_visit_children b has visit [] l s = (ok l, s)
  dav_visit_children b has visit (c ∷ cs) l s =
      let (done, s') = dav_visit_child b has visit c l s in
      if l.full
      then (ok l, s)
      else elim done [ err e ↦ (err e, s') | ok m ↦ dav_visit_children b has visit cs m s' ]

  -- The walk, over the PROPFIND of depth 1 of a collection.
  module _ (b : HttpBucket)
      (probe : Bytes → Hook → State → Result Fault (List DavEntry) × State) where
    pub dav_has_key : ℕ → Bytes → State → Result DavError Bool × State
    unfolding unless_vanished has_blob collections any_blob
    dav_has_key zero dir s = (err out_of_fuel, s)
    dav_has_key (suc n) dir s =
        let (found, s') = probe dir ok s in
        elim found [
          | err e ↦ unless_vanished e false s'
          | ok entries ↦
              if has_blob dir entries
              then (ok true, s')
              else any_blob (dav_has_key n) (collections dir entries) s'
        ]

    pub dav_visit :
        (Bytes → Bytes) → ℕ → Bytes → DavLister → State → Result DavError DavLister × State
    unfolding dav_has_key dav_children sort_dav_children dav_visit_children
    dav_visit hex_unescape zero dir l s = (err out_of_fuel, s)
    dav_visit hex_unescape (suc n) dir l s =
        let (hook, l') = dav_take_before l in
        let (found, s') = probe dir hook s in
        elim found [
          | err e ↦ unless_vanished e l' s'
          | ok entries ↦
              dav_visit_children b (dav_has_key n) (dav_visit hex_unescape n)
                (sort_dav_children (dav_children hex_unescape dir entries)) l' s'
        ]

-- `if pageSize == 0`
abbrev pub dav_limit : DavListOptions → ℕ
dav_limit o = if o.page_size == 0 then 1000 else o.page_size

unfoldable pub start_dav_lister : DavListOptions → DavLister
start_dav_lister o = record {
  prefix = o.prefix;
  delimiter = o.delimiter;
  page_size = dav_limit o;
  page_token = o.page_token;
  before = o.before_list;
  objects = [];
  last_prefix = [];
  full = false;
}

-- The deepest collection that can contain the prefix.
unfoldable pub dav_root : ((List ℕ → ℕ → Bool) → Bytes → Bytes) → Bytes → Bytes
dav_root hex_escape prefix = elim (last_index prefix (slash ∷ [])) [
  | none ↦ []
  | some i ↦ key_escape hex_escape (take i prefix)
]

pub dav_finish :
    {State : Type 0} → Result DavError DavLister × State → Result DavError ListPage × State
dav_finish (ok l, s) = (ok (dav_page l), s)
dav_finish (err e, s) = (err e, s)

module _ (c : Client) (b : HttpBucket) (url_path : Bytes → Option Bytes)
    (decode_xml : Body → Result Fault (List DavResponse)) (body : Bytes) where
  -- propfind at a collection, with depth 1
  abbrev pub list_collection : Bytes → Hook → c.State → Result Fault (List DavEntry) × c.State
  list_collection dir hook s =
      propfind c b url_path decode_xml body (collection_url b dir) (codes "1") hook s

  unfoldable pub dav_list_paged :
      (Bytes → Bytes)
      → ((List ℕ → ℕ → Bool) → Bytes → Bytes)
      → ℕ
      → DavListOptions
      → c.State
      → Result DavError ListPage × c.State
  unfolding dav_visit dav_finish start_dav_lister dav_root
  dav_list_paged hex_unescape hex_escape fuel o s =
      if b.webdav
      then dav_finish (
          dav_visit b list_collection hex_unescape fuel (dav_root hex_escape o.prefix)
            (start_dav_lister o) s)
      else (err (fault (driver_fault unimplemented)), s)
