-- ===== src/Sftp/Emit.antt =====
-- The lister of blob/sftpblob/list.go, and the rules that it applies to one key. The As hooks of the
-- results are not modelled; PageSize is a natural number, as the driver contract has it.
pub mod Cases
pub mod Pages
pub mod Folding
pub mod Skipping
use gocloud_ext.Common.{
  ℕ, pos, ℤ, ◌+◌, ◌==◌, Bytes, Bool, true, false, ◌&&◌, ◌||◌, not, ltb, if◌then◌else◌, List, [],
  ◌∷◌, ◌++◌, length, take, drop, Option, none, some, eqb, lt_bytes, has_prefix, index, ◌≡◌,
}
use gocloud_ext.Sftp.{Failure}

-- driver.ListObject
pub record ListObject : Type 0 where
  pub key : Bytes
  pub mod_time : ℤ
  pub size : ℤ
  pub is_dir : Bool

-- The lister without its bucket and context. The BeforeList hook is the error that it returns.
pub record Lister : Type 0 where
  pub prefix : Bytes
  pub delimiter : Bytes
  pub page_size : ℕ
  pub page_token : Bytes
  pub objects : List ListObject
  pub last_prefix : Bytes
  pub full : Bool
  pub before : Option (Option Failure)

-- "/"
abbrev pub slash : ℕ
slash = 47

-- `s <= t`
abbrev pub le_bytes : Bytes → Bytes → Bool
le_bytes s t = not (lt_bytes t s)

-- The object that emit is given is the one at the key.
abbrev pub IsAt : Bytes → Option ListObject → Type 0
IsAt key none = Unit
IsAt key (some o) = o.key ≡ key

-- The page token, the page size and the append at the end of emit.
unfoldable pub add : Option ListObject → Lister → Lister
add none l = l
add (some obj) l =
    if not (eqb l.page_token []) && le_bytes obj.key l.page_token
    then l
    else if length l.objects == l.page_size
    then record l { full = true }
    else record l { objects = l.objects ++ (obj ∷ []) }

-- A key that folds into the directory `dir`.
unfoldable pub fold : Bytes → Lister → Lister
unfolding add
fold dir l =
    if eqb dir l.last_prefix
    then l
    else add (some record { key = dir; mod_time = pos 0; size = pos 0; is_dir = true })
        (record l { last_prefix = dir })

unfoldable pub emit : Bytes → Option ListObject → Lister → Lister
unfolding add fold
emit key obj l =
    let rest = drop (length l.prefix) key in
    if not (has_prefix key l.prefix)
    then l
    else if eqb l.delimiter []
    then add obj l
    else elim (index rest l.delimiter) [
      | none ↦ add obj l
      | some i ↦ fold (l.prefix ++ take (i + length l.delimiter) rest) l
    ]

unfoldable pub descend : Bytes → Lister → Bool
descend dir_key l =
    let sub = dir_key ++ (slash ∷ []) in
    if not (has_prefix sub l.prefix) && not (has_prefix l.prefix sub)
    then false
    else not (
        not (eqb l.page_token []) && le_bytes sub l.page_token && not (has_prefix l.page_token sub))

unfoldable pub collapses : Bytes → Lister → Bool
collapses dir_key l =
    let sub = dir_key ++ (slash ∷ []) in
    eqb l.delimiter (slash ∷ []) && has_prefix sub l.prefix && ltb (length l.prefix) (length sub)

-- driver.ListPage; a nil token is `none`
pub record ListPage : Type 0 where
  pub objects : List ListObject
  pub next_page_token : Option Bytes

-- `l.objects[len(l.objects)-1].Key` where there is one
abbrev pub last_key : List ListObject → Option Bytes
last_key [] = none
last_key (o ∷ []) = some o.key
last_key (o ∷ p ∷ l) = last_key (p ∷ l)

unfoldable pub page : Lister → ListPage
page l = record {
  objects = l.objects;
  next_page_token = if l.full then last_key l.objects else none;
}
