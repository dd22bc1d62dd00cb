-- ===== src/Common/Text.antt =====
-- Go strings as lists of bytes, with the operations of package strings that the drivers use.
use Prim.Native.Nat.{ℕ, suc}
use Prim.Native.Char.{code}
use Prim.Native.String.{String}
use mathlib.Core.Path.{◌≡◌, refl, ap}
use mathlib.Core.Bool.{Bool, true, false, ◌&&◌, ◌||◌}
use mathlib.Core.Logic.{◌↔◌}
use mathlib.Core.Option.{Option, none, some, map}
use mathlib.Core.List.{List, [], ◌∷◌, ◌++◌}
use native.Mathlib.Omega.{arith}
use gocloud_ext.Common.Tests.{ltb, ◌==◌, if◌then◌else◌}
use gocloud_ext.Common.Lists.{length, drop}

abbrev pub Bytes : Type 0
Bytes = List ℕ

-- The code points of a literal, which are its bytes when it is ASCII.
abbrev pub codes : String → Bytes
codes String.[] = []
codes (String.◌∷◌ c s) = code c ∷ codes s

-- `s == t`
unfoldable pub eqb : Bytes → Bytes → Bool
eqb [] [] = true
eqb [] (y ∷ t) = false
eqb (x ∷ s) [] = false
eqb (x ∷ s) (y ∷ t) = x == y && eqb s t

-- `s < t`, byte by byte
unfoldable pub lt_bytes : Bytes → Bytes → Bool
lt_bytes [] [] = false
lt_bytes [] (y ∷ t) = true
lt_bytes (x ∷ s) [] = false
lt_bytes (x ∷ s) (y ∷ t) = ltb x y || (x == y && lt_bytes s t)

-- strings.HasPrefix(s, p)
unfoldable pub has_prefix : Bytes → Bytes → Bool
has_prefix s [] = true
has_prefix [] (y ∷ p) = false
has_prefix (x ∷ s) (y ∷ p) = x == y && has_prefix s p

-- strings.Contains(s, sub)
unfoldable pub contains : Bytes → Bytes → Bool
unfolding has_prefix
contains [] sub = has_prefix [] sub
contains (x ∷ s) sub = has_prefix (x ∷ s) sub || contains s sub

-- strings.TrimPrefix(s, p)
unfoldable pub trim_prefix : Bytes → Bytes → Bytes
unfolding has_prefix
trim_prefix s p = if has_prefix s p then drop (length p) s else s

-- strings.HasSuffix(s, p)
unfoldable pub has_suffix : Bytes → Bytes → Bool
unfolding eqb
has_suffix [] p = eqb [] p
has_suffix (x ∷ s) p = eqb (x ∷ s) p || has_suffix s p

-- strings.Index(s, sub); `none` is -1
unfoldable pub index : Bytes → Bytes → Option ℕ
unfolding has_prefix
index [] sub = if has_prefix [] sub then some 0 else none
index (x ∷ s) sub =
    let rest = index s sub in if has_prefix (x ∷ s) sub then some 0 else map suc rest

-- strings.LastIndex(s, sub)
unfoldable pub last_index : Bytes → Bytes → Option ℕ
unfolding has_prefix
last_index [] sub = if has_prefix [] sub then some 0 else none
last_index (x ∷ s) sub = elim (last_index s sub) [
  | some i ↦ some (suc i)
  | none ↦ if has_prefix (x ∷ s) sub then some 0 else none
]

pub eqb_iff : (s t : Bytes) → (eqb s t ≡ true) ↔ (s ≡ t)
unfolding eqb
eqb_iff [] [] = ground arith
eqb_iff [] (y ∷ t) = ground arith
eqb_iff (x ∷ s) [] = ground arith
eqb_iff (x ∷ s) (y ∷ t) = ground (arith, eqb_iff s t)

pub eqb_refl : (s : Bytes) → eqb s s ≡ true
eqb_refl s = (eqb_iff s s).1 refl

pub lt_bytes_irrefl : (s : Bytes) → lt_bytes s s ≡ false
unfolding lt_bytes
lt_bytes_irrefl [] = refl
lt_bytes_irrefl (x ∷ s) = ground (arith, lt_bytes_irrefl s)

pub lt_bytes_trans :
    (s t u : Bytes) → lt_bytes s t ≡ true → lt_bytes t u ≡ true → lt_bytes s u ≡ true
unfolding lt_bytes
lt_bytes_trans [] [] u h k = ground arith
lt_bytes_trans [] (y ∷ t) [] h k = ground arith
lt_bytes_trans [] (y ∷ t) (z ∷ u) h k = refl
lt_bytes_trans (x ∷ s) [] u h k = ground arith
lt_bytes_trans (x ∷ s) (y ∷ t) [] h k = ground arith
lt_bytes_trans (x ∷ s) (y ∷ t) (z ∷ u) h k = ground (arith, lt_bytes_trans s t u)

-- Bytes that are not below nor equal are above.
pub lt_bytes_total : (s t : Bytes) → lt_bytes s t ≡ false → eqb s t ≡ false → lt_bytes t s ≡ true
unfolding lt_bytes eqb
lt_bytes_total [] [] h k = ground arith
lt_bytes_total [] (y ∷ t) h k = ground arith
lt_bytes_total (x ∷ s) [] h k = refl
lt_bytes_total (x ∷ s) (y ∷ t) h k = ground (arith, lt_bytes_total s t)

pub lt_bytes-append : (p s t : Bytes) → lt_bytes (p ++ s) (p ++ t) ≡ lt_bytes s t
unfolding lt_bytes
lt_bytes-append [] s t = refl
lt_bytes-append (x ∷ p) s t = ground (arith, lt_bytes-append p s t)

pub has_prefix-append : (p s : Bytes) → has_prefix (p ++ s) p ≡ true
unfolding has_prefix
has_prefix-append [] s = ground arith
has_prefix-append (x ∷ p) s = ground (arith, has_prefix-append p s)

pub has_prefix_iff : (s p : Bytes) → has_prefix s p ≡ true → s ≡ p ++ drop (length p) s
unfolding has_prefix
has_prefix_iff s [] h = refl
has_prefix_iff [] (y ∷ p) h = ground arith
has_prefix_iff (x ∷ s) (y ∷ p) h = ground (arith, has_prefix_iff s p)

pub append_cancel : (p s t : Bytes) → p ++ s ≡ p ++ t → s ≡ t
append_cancel [] s t h = h
append_cancel (x ∷ p) s t h = append_cancel p s t (ap (drop 1) h)
