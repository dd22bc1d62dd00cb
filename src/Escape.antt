-- ===== src/Escape.antt =====
-- internal/escape/key.go: which runes of a blob key are escaped. HexEscape is a parameter: it is
-- given the test of a rune by its position.
use gocloud_ext.Common.{
  ℕ, zero, suc, ◌-◌, ◌+◌, Bytes, Bool, false, ◌&&◌, ◌||◌, ◌==◌, ltb, List, [], ◌∷◌, length, codes,
}

-- The rune at a position is this one.
abbrev pub is_rune : List ℕ → ℕ → ℕ → Bool
is_rune [] i c = false
is_rune (x ∷ r) zero c = x == c
is_rune (x ∷ r) (suc i) c = is_rune r i c

-- The rune at a position is a control character.
unfoldable pub is_control : List ℕ → ℕ → Bool
is_control [] i = false
is_control (x ∷ r) zero = ltb x 32
is_control (x ∷ r) (suc i) = is_control r i

is_one_of : List ℕ → ℕ → Bytes → Bool
is_one_of r i [] = false
is_one_of r i (c ∷ l) = is_rune r i c || is_one_of r i l

-- The test of KeyEscape, for a position of the key.
unfoldable pub should_escape : List ℕ → ℕ → Bool
unfolding is_control is_one_of
should_escape r i =
    is_control r i
    || is_rune r i 92
    || (ltb 1 i && is_rune r i 47 && is_rune r (i - 1) 46 && is_rune r (i - 2) 46)
    || (ltb 0 i && is_rune r i 47 && is_rune r (i - 1) 47)
    || (is_rune r i 47 && i + 1 == length r)
    || is_one_of r i (codes "><:\"|?*")

abbrev pub key_escape : ((List ℕ → ℕ → Bool) → Bytes → Bytes) → Bytes → Bytes
key_escape hex_escape s = hex_escape should_escape s
