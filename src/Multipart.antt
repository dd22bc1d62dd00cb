-- ===== src/Multipart.antt =====
-- blob/multipart/multipart.go: parts, constraints, and the rules that every backend shares.
-- Go's int64 is ℤ; a nil error is `none`. `sort.Slice` is an insertion sort on the part numbers.
pub mod Numbers
pub mod Sorting
pub mod Unique
pub mod Sizes
pub mod Examples
use gocloud_ext.Common.{
  ℤ, pos, ltb_ℤ, leb_ℤ, eqb_ℤ, Bytes, Bool, ◌||◌, if◌then◌else◌, ltb, length, List, [], ◌∷◌, ◌++◌,
  Option, none, some, Result, ok, err,
}

pub record Part : Type 0 where
  pub number : ℤ
  pub size : ℤ
  pub tag : Bytes

pub record Constraints : Type 0 where
  pub min_part_size : ℤ
  pub max_part_size : ℤ
  pub max_parts : ℤ
  pub resumable : Bool

pub record Options : Type 0 where
  pub content_type : Bytes
  pub cache_control : Bytes
  pub content_disposition : Bytes
  pub content_encoding : Bytes
  pub content_language : Bytes
  pub metadata : List (Bytes × Bytes)
  pub content_md5 : Bytes

-- ErrNoParts, ErrPartTooSmall (part, size, minimum), InvalidPartNumberError and DuplicatePartError.
pub data PartError : Type 0 where
  no_parts : PartError
  part_too_small : ℤ → ℤ → ℤ → PartError
  invalid_part_number : ℤ → ℤ → PartError
  duplicate_part : ℤ → PartError

abbrev pub max_part_number : ℤ
max_part_number = pos 10000

-- The part-number ceiling in force.
unfoldable pub max_parts : Constraints → ℤ
max_parts c =
    if leb_ℤ c.max_parts (pos 0) || ltb_ℤ max_part_number c.max_parts
    then max_part_number
    else c.max_parts

unfoldable pub validate_part_number : ℤ → Constraints → Option PartError
unfolding max_parts
validate_part_number number c =
    let max = max_parts c in
    if ltb_ℤ number (pos 1) || ltb_ℤ max number then some (invalid_part_number number max) else none

-- `sort.Slice` by `out[i].Number < out[j].Number`
insert : Part → List Part → List Part
insert p [] = p ∷ []
insert p (q ∷ l) = if ltb_ℤ q.number p.number then q ∷ insert p l else p ∷ q ∷ l

pub sort : List Part → List Part
unfolding insert
sort [] = []
sort (p ∷ l) = insert p (sort l)

-- The loop that compares each part with the one before it.
duplicate_after : ℤ → List Part → Option ℤ
duplicate_after n [] = none
duplicate_after n (q ∷ l) = if eqb_ℤ q.number n then some q.number else duplicate_after q.number l

find_duplicate : List Part → Option ℤ
unfolding duplicate_after
find_duplicate [] = none
find_duplicate (p ∷ l) = duplicate_after p.number l

reject_duplicate : List Part → Option ℤ → Result PartError (List Part)
reject_duplicate out none = ok out
reject_duplicate out (some n) = err (duplicate_part n)

unfoldable pub sort_parts : List Part → Result PartError (List Part)
unfolding sort find_duplicate reject_duplicate
sort_parts [] = err no_parts
sort_parts (p ∷ l) = let out = sort (p ∷ l) in reject_duplicate out (find_duplicate out)

-- `parts[:len(parts)-1]`
abbrev pub drop_last : List Part → List Part
drop_last [] = []
drop_last (p ∷ []) = []
drop_last (p ∷ q ∷ l) = p ∷ drop_last (q ∷ l)

first_small : ℤ → List Part → Option PartError
first_small min [] = none
first_small min (p ∷ l) =
    if ltb_ℤ p.size min then some (part_too_small p.number p.size min) else first_small min l

unfoldable pub check_part_sizes : List Part → Constraints → Option PartError
unfolding first_small
check_part_sizes parts c =
    if leb_ℤ c.min_part_size (pos 0) || ltb (length parts) 2
    then none
    else first_small c.min_part_size (drop_last parts)

pub record Location : Type 0 where
  pub bucket : Bytes
  pub prefix : Bytes

-- A nil escape function is `none`.
unfoldable pub object_name : Location → Bytes → Option (Bytes → Bytes) → Bytes
object_name loc key none = loc.prefix ++ key
object_name loc key (some esc) = esc (loc.prefix ++ key)
