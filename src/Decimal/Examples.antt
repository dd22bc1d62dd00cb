-- ===== src/Decimal/Examples.antt =====
-- Staged part names at concrete numbers.
use gocloud_ext.Common.{pos, negsuc, codes, none, some, ◌≡◌, refl}
use gocloud_ext.Decimal.{format_padded, parse_int}

formats : (format_padded 5 (pos 42) ≡ codes "00042") × (format_padded 5 (negsuc 0) ≡ codes "-0001")
unfolding format_padded
formats = (refl, refl)

parses :
    (parse_int (codes "-7") ≡ some (negsuc 6))
    × (parse_int (codes "manifest.json") ≡ none)
    × (parse_int (codes "9223372036854775808") ≡ none)
unfolding parse_int
parses = (refl, refl, refl)
