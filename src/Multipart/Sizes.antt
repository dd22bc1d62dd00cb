-- ===== src/Multipart/Sizes.antt =====
-- CheckPartSizes.
use gocloud_ext.Common.{
  ℤ, pos, ◌≤ℤ◌, leb_ℤ, ltb, length, false, ◌≡◌, ◌↔◌, refl, List, [], ◌∷◌, none, All, arith,
  Bool-cases, inl, inr,
}
use gocloud_ext.Multipart.{Part, Constraints, drop_last, first_small, check_part_sizes}

first_small_iff :
    (min : ℤ) (l : List Part) → (first_small min l ≡ none) ↔ All (λ p. min ≤ℤ p.size) l
unfolding first_small
first_small_iff min [] = (λ h. tt, λ h. refl)
first_small_iff min (p ∷ l) =
    (λ h. ground (arith, first_small_iff min l), λ h. ground (arith, first_small_iff min l))

several : (p q : Part) (l : List Part) → ltb (length (p ∷ q ∷ l)) 2 ≡ false
several p q l = ground arith

-- CheckPartSizes passes exactly when there is no positive minimum, or every part but the last one
-- is at least that large.
pub check_part_sizes_iff :
    (parts : List Part) (c : Constraints)
    → (check_part_sizes parts c ≡ none)
      ↔ (pos 1 ≤ℤ c.min_part_size → All (λ p. c.min_part_size ≤ℤ p.size) (drop_last parts))
unfolding check_part_sizes
check_part_sizes_iff [] c = (λ h k. tt, λ h. ground arith)
check_part_sizes_iff (p ∷ []) c = (λ h k. tt, λ h. ground arith)
check_part_sizes_iff (p ∷ q ∷ l) c = elim (Bool-cases (leb_ℤ c.min_part_size (pos 0))) [
  | inl e ↦ rw e ((λ h k. absurd (ground arith)), λ h. refl)
  | inr e ↦
      rw (e, several p q l)
        (
          (λ h k. (first_small_iff c.min_part_size (drop_last (p ∷ q ∷ l))).0 h),
          λ h. (first_small_iff c.min_part_size (drop_last (p ∷ q ∷ l))).1 (h (ground arith)),
        )
]
