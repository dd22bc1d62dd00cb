-- ===== src/Multipart/Examples.antt =====
-- The rules on parts at concrete parts.
use mathlib.Core.List.{Nodup}
use mathlib.Core.List.Perm
use gocloud_ext.Common.{pos, codes, List, [], ◌∷◌, ok, err, true, ◌≡◌, ◌≢◌, ◌↔◌, refl}
use gocloud_ext.Multipart.{Part, Constraints, sort_parts, duplicate_part}
use gocloud_ext.Multipart.Unique.{sort_parts-perm, sort_parts_iff, numbers}

abbrev first : Part
first = record { number = pos 1; size = pos 3; tag = codes "x" }

abbrev second : Part
second = record { number = pos 2; size = pos 4; tag = codes "y" }

abbrev limits : Constraints
limits = record {
  min_part_size = pos 3;
  max_part_size = pos 0;
  max_parts = pos 20;
  resumable = true;
}

duplicated : sort_parts (first ∷ second ∷ first ∷ []) ≡ err (duplicate_part (pos 1))
unfolding sort_parts
duplicated = refl

swapped : sort_parts (second ∷ first ∷ []) ≡ ok (first ∷ second ∷ [])
unfolding sort_parts
swapped = refl

sort_parts-perm_example : sort_parts (first ∷ second ∷ []) ≡ ok (first ∷ second ∷ [])
sort_parts-perm_example =
    sort_parts-perm (second ∷ first ∷ []) (first ∷ second ∷ []) (Perm.swap first second []) swapped

sort_parts_iff_example :
    ((out : List Part) × (sort_parts (second ∷ first ∷ []) ≡ ok out))
    ↔ (((second ∷ first ∷ []) ≢ []) × Nodup (numbers (second ∷ first ∷ [])))
sort_parts_iff_example = sort_parts_iff (second ∷ first ∷ [])
