-- ===== src/Sftp/Walk.antt =====
-- The walk of blob/sftpblob/list.go: visit, hasKey and ListPaged. The server answers ReadDir the same
-- way while a page is made, and the context is not cancelled.
pub mod Steps
pub mod Pages
pub mod Depth
use gocloud_ext.Common.{
  ℕ, zero, suc, ◌==◌, Bytes, Bool, true, false, not, if◌then◌else◌, List, [], ◌∷◌, ◌++◌, take,
  Option, none, some, eqb, lt_bytes, last_index, Result, ok, err, ◌>>=◌,
}
use gocloud_ext.Blob.{is_not_found}
use gocloud_ext.Escape.{key_escape}
use gocloud_ext.Sftp.{FileInfo, Failure, is_internal_path, error_code, default_page_size}
use gocloud_ext.Sftp.Emit.{ListObject, Lister, ListPage, slash, emit, descend, collapses, page}

-- An error of the server or the hook, or the end of the fuel.
pub data WalkError : Type 0 where
  out_of_fuel : WalkError
  failure : Failure → WalkError

-- listChild
pub record Child : Type 0 where
  pub key : Bytes
  pub sort_key : Bytes
  pub path : Bytes
  pub info : FileInfo

-- driver.ListOptions; the hook is the error that it returns
pub record ListOptions : Type 0 where
  pub prefix : Bytes
  pub delimiter : Bytes
  pub page_size : ℕ
  pub page_token : Bytes
  pub before_list : Option (Option Failure)

unfoldable pub take_before : Lister → Option Failure × Lister
take_before l = elim l.before [
  | none ↦ (none, l)
  | some result ↦ (result, record l { before = none })
]

-- `dir + "/" + name`, and the name alone in the root
abbrev pub relative : Bytes → Bytes → Bytes
relative dir name = if eqb dir [] then name else dir ++ slash ∷ name

-- A missing directory contributes nothing, any other error ends the walk.
unless_missing : {A : Type 0} → Failure → A → Result WalkError A
unless_missing e a = if is_not_found (error_code e) then ok a else err (failure e)

-- `sort.Slice` by `children[i].sortKey < children[j].sortKey`
insert_child : Child → List Child → List Child
insert_child c [] = c ∷ []
insert_child c (d ∷ l) = if lt_bytes d.sort_key c.sort_key then d ∷ insert_child c l else c ∷ d ∷ l

pub sort_children : List Child → List Child
unfolding insert_child
sort_children [] = []
sort_children (c ∷ l) = insert_child c (sort_children l)

child_object : Child → ListObject
child_object c = record {
  key = c.key;
  mod_time = c.info.mod_time;
  size = c.info.size;
  is_dir = false;
}

-- The first loop of hasKey: a file ends it; where there is none, the rest are directories.
has_file : Bytes → List FileInfo → Bool
has_file dir [] = false
has_file dir (i ∷ l) =
    if is_internal_path (dir ++ slash ∷ i.name)
    then has_file dir l
    else if not i.is_dir
    then true
    else has_file dir l

subdirs : Bytes → List FileInfo → List Bytes
subdirs dir [] = []
subdirs dir (i ∷ l) =
    if is_internal_path (dir ++ slash ∷ i.name)
    then subdirs dir l
    else (dir ++ slash ∷ i.name) ∷ subdirs dir l

-- The second loop of hasKey.
any_key : (Bytes → Result WalkError Bool) → List Bytes → Result WalkError Bool
any_key has [] = ok false
any_key has (sub ∷ l) = let rest = any_key has l in has sub >>= (λ b. if b then ok true else rest)

-- One child: a file is emitted; a directory is skipped, probed or visited.
pub visit_child :
    (Bytes → Result WalkError Bool)
    → (Bytes → Lister → Result WalkError Lister)
    → Child
    → Lister
    → Result WalkError Lister
unfolding child_object
visit_child has visit c l =
    if not c.info.is_dir
    then ok (emit c.key (some (child_object c)) l)
    else if not (descend c.key l)
    then ok l
    else if collapses c.key l
    then has c.path >>= (λ b. ok (if b then emit (c.key ++ slash ∷ []) none l else l))
    else visit c.path l

pub visit_children :
    (Bytes → Result WalkError Bool)
    → (Bytes → Lister → Result WalkError Lister)
    → List Child
    → Lister
    → Result WalkError Lister
unfolding visit_child
visit_children has visit [] l = ok l
visit_children has visit (c ∷ cs) l =
    if l.full then ok l else visit_child has visit c l >>= (λ m. visit_children has visit cs m)

-- The deepest directory that can contain the prefix.
unfoldable pub list_root : ((List ℕ → ℕ → Bool) → Bytes → Bytes) → Bytes → Bytes
list_root hex_escape prefix = elim (last_index prefix (slash ∷ [])) [
  | none ↦ []
  | some i ↦ key_escape hex_escape (take i prefix)
]

-- The size of a page, where 0 asks for the default.
abbrev pub limit : ListOptions → ℕ
limit o = if o.page_size == 0 then default_page_size else o.page_size

start_lister : ListOptions → Lister
start_lister o = record {
  prefix = o.prefix;
  delimiter = o.delimiter;
  page_size = limit o;
  page_token = o.page_token;
  objects = [];
  last_prefix = [];
  full = false;
  before = o.before_list;
}

module _ (read_dir : Bytes → Result Failure (List FileInfo)) where
  pub has_key : ℕ → Bytes → Result WalkError Bool
  unfolding has_file subdirs any_key unless_missing
  has_key zero dir = err out_of_fuel
  has_key (suc n) dir = elim (read_dir dir) [
    | err e ↦ unless_missing e false
    | ok infos ↦ if has_file dir infos then ok true else any_key (has_key n) (subdirs dir infos)
  ]

  module _ (hex_unescape : Bytes → Bytes) where
    -- The children of a directory, without the driver's own files.
    children : Bytes → List FileInfo → List Child
    children dir [] = []
    children dir (i ∷ l) =
        let path = relative dir i.name in
        let key = hex_unescape path in
        let sort_key = if i.is_dir then key ++ slash ∷ [] else key in
        if is_internal_path path
        then children dir l
        else record { key = key; sort_key = sort_key; path = path; info = i } ∷ children dir l

    -- The directory, after the hook.
    visit_dir :
        (Bytes → Result WalkError Bool)
        → (Bytes → Lister → Result WalkError Lister)
        → Option Failure
        → Bytes
        → Lister
        → Result WalkError Lister
    unfolding unless_missing children sort_children visit_children
    visit_dir has go (some e) dir l = err (failure e)
    visit_dir has go none dir l = elim (read_dir dir) [
      | err e ↦ unless_missing e l
      | ok infos ↦ visit_children has go (sort_children (children dir infos)) l
    ]

    pub visit : ℕ → Bytes → Lister → Result WalkError Lister
    unfolding take_before has_key visit_dir
    visit zero dir l = err out_of_fuel
    visit (suc n) dir l =
        let (hook, l') = take_before l in visit_dir (has_key n) (visit n) hook dir l'

    unfoldable pub list_paged :
        ((List ℕ → ℕ → Bool) → Bytes → Bytes) → ℕ → ListOptions → Result WalkError ListPage
    unfolding visit list_root start_lister
    list_paged hex_escape fuel o =
        visit fuel (list_root hex_escape o.prefix) (start_lister o) >>= (λ l. ok (page l))
