-- ===== src/Blob/Contents.antt =====
-- The contents of several objects, one behind the other.
use gocloud_ext.Common.{
  Bytes, List, [], ◌∷◌, ◌++◌, Option, none, some, All, ap, append_assoc, refl, sym, ◌∙◌,
  Option-cases, inl, inr, arith, ◌≡◌,
}

abbrev pub joined : Option Bytes → Option Bytes → Option Bytes
joined none y = none
joined (some a) none = none
joined (some a) (some b) = some (a ++ b)

-- The contents of the named objects, one behind the other; none if one of them is not there.
abbrev pub contents : (Bytes → Option Bytes) → List Bytes → Option Bytes
contents f [] = some []
contents f (k ∷ l) = joined (f k) (contents f l)

joined_assoc : (x y z : Option Bytes) → joined (joined x y) z ≡ joined x (joined y z)
joined_assoc none y z = ground arith
joined_assoc (some a) none z = ground arith
joined_assoc (some a) (some b) none = ground arith
joined_assoc (some a) (some b) (some d) = ap some (append_assoc a b d)

pub contents-append :
    (f : Bytes → Option Bytes) (k l : List Bytes)
    → contents f (k ++ l) ≡ joined (contents f k) (contents f l)
contents-append f [] l = elim (Option-cases (contents f l)) [
  | inl e ↦ rw e refl
  | inr (d, e) ↦ rw e refl
]
contents-append f (x ∷ k) l =
    ap (joined (f x)) (contents-append f k l)
    ∙ sym (joined_assoc (f x) (contents f k) (contents f l))

-- Objects that are the same have the same contents.
pub contents-agree :
    (f g : Bytes → Option Bytes) (l : List Bytes)
    → All (λ k. f k ≡ g k) l
    → contents f l ≡ contents g l
contents-agree f g [] h = refl
contents-agree f g (x ∷ l) h = rw (h.0, contents-agree f g l h.1) refl
