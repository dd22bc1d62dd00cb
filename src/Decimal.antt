-- ===== src/Decimal.antt =====
-- The numbers in the names of staged parts: fmt's `%0*d` and strconv.ParseInt in base 10, as
-- blob/multipart uses them. An int64 has at most 19 digits, so 20 rounds of `digits` are enough.
pub mod RoundTrip
pub mod Trimmed
pub mod Examples
use gocloud_ext.Common.{
  ℕ, zero, suc, ◌+◌, ◌-◌, ◌*◌, ◌/◌, ◌%◌, ◌^◌, ℤ, pos, negsuc, Bytes, Bool, ◌&&◌, ◌||◌, ltb, leb,
  ◌==◌, if◌then◌else◌, List, [], ◌∷◌, ◌++◌, length, Option, none, some,
}

-- The decimal digits of a number, with a bound on their count.
digits : ℕ → ℕ → Bytes
digits zero n = []
digits (suc f) n =
    let more = digits f (n / 10) ++ (b'0' + n % 10) ∷ [] in
    if ltb n 10 then (b'0' + n) ∷ [] else more

zeros : ℕ → Bytes
zeros zero = []
zeros (suc n) = b'0' ∷ zeros n

-- `fmt.Sprintf("%0*d", width, number)`: the sign counts for the width.
unfoldable pub format_padded : ℕ → ℤ → Bytes
unfolding digits zeros
format_padded width (pos n) = let d = digits 20 n in zeros (width - length d) ++ d
format_padded width (negsuc n) =
    let d = digits 20 (suc n) in b'-' ∷ (zeros (width - 1 - length d) ++ d)

pub scan_digits : Bytes → ℕ → Option ℕ
scan_digits [] n = some n
scan_digits (c ∷ s) n =
    if leb b'0' c && leb c b'9' then scan_digits s (n * 10 + (c - b'0')) else none

parse_unsigned : Bytes → Option ℕ
unfolding scan_digits
parse_unsigned [] = none
parse_unsigned (c ∷ s) = scan_digits (c ∷ s) 0

negative : ℕ → ℤ
negative zero = pos 0
negative (suc n) = negsuc n

-- The range of an int64.
in_range : Bool → ℕ → Option ℤ
unfolding negative
in_range Bool.false n = if ltb n (2 ^ 63) then some (pos n) else none
in_range Bool.true n = if leb n (2 ^ 63) then some (negative n) else none

pub signed : Bool → Option ℕ → Option ℤ
unfolding in_range
signed minus none = none
signed minus (some n) = in_range minus n

-- `strconv.ParseInt(s, 10, 64)`; an error is `none`.
unfoldable pub parse_int : Bytes → Option ℤ
unfolding parse_unsigned signed
parse_int [] = none
parse_int (c ∷ s) =
    if c == b'-'
    then signed Bool.true (parse_unsigned s)
    else if c == b'+'
    then signed Bool.false (parse_unsigned s)
    else signed Bool.false (parse_unsigned (c ∷ s))

-- `strings.TrimLeft(s, "0"+string(rune(0)))`
unfoldable pub trim_zeros : Bytes → Bytes
trim_zeros [] = []
trim_zeros (c ∷ s) = let rest = trim_zeros s in if c == b'0' || c == 0 then rest else c ∷ s
