-- ===== src/Multipart/Numbers.antt =====
-- What ValidatePartNumber accepts.
use gocloud_ext.Common.{ℤ, pos, ◌≤ℤ◌, ◌≡◌, ◌↔◌, none, arith}
use gocloud_ext.Multipart.{Constraints, validate_part_number}

-- ValidatePartNumber accepts exactly the numbers from 1 to 10000 that are at most MaxParts, where
-- MaxParts is positive.
pub validate_part_number_iff :
    (number : ℤ) (c : Constraints)
    → (validate_part_number number c ≡ none)
      ↔ ((pos 1 ≤ℤ number) × (number ≤ℤ pos 10000) × (pos 1 ≤ℤ c.max_parts → number ≤ℤ c.max_parts))
unfolding validate_part_number
validate_part_number_iff number c = (λ h. ground arith, λ h. ground arith)
