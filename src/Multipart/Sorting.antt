-- ===== src/Multipart/Sorting.antt =====
-- SortParts: the order of its result, and the parts in it.
use mathlib.Core.List.{Perm}
use mathlib.Core.List.Perm
use gocloud_ext.Common.{
  ℤ, ◌≤ℤ◌, ◌<ℤ◌, eqb_ℤ, ◌≡◌, List, [], ◌∷◌, none, ok, All, All-map, arith, Bool-cases, inl, inr,
  ltb_ℤ, suc, length, ap, refl, ◌≢◌,
}
use gocloud_ext.Multipart.{
  Part, insert, sort, duplicate_after, find_duplicate, reject_duplicate, sort_parts,
}

-- Strictly ascending part numbers.
abbrev pub IsAscending : List Part → Type 0
IsAscending [] = Unit
IsAscending (p ∷ l) = All (λ q. p.number <ℤ q.number) l × IsAscending l

abbrev pub IsOrdered : List Part → Type 0
IsOrdered [] = Unit
IsOrdered (p ∷ l) = All (λ q. p.number ≤ℤ q.number) l × IsOrdered l

insert-perm : (p : Part) (l : List Part) → Perm (insert p l) (p ∷ l)
unfolding insert
insert-perm p [] = Perm.refl (p ∷ [])
insert-perm p (q ∷ l) = elim (Bool-cases (ltb_ℤ q.number p.number)) [
  | inl h ↦ rw h (Perm.trans (Perm.cons q (insert-perm p l)) (Perm.swap p q l))
  | inr h ↦ rw h (Perm.refl (p ∷ q ∷ l))
]

pub sort-perm : (l : List Part) → Perm (sort l) l
unfolding sort
sort-perm [] = Perm.refl []
sort-perm (p ∷ l) = Perm.trans (insert-perm p (sort l)) (Perm.cons p (sort-perm l))

All-insert : (P : Part → Type 0) (p : Part) (l : List Part) → P p → All P l → All P (insert p l)
unfolding insert
All-insert P p [] hp hl = (hp, tt)
All-insert P p (q ∷ l) hp hl = elim (Bool-cases (ltb_ℤ q.number p.number)) [
  | inl h ↦ rw h (hl.0, All-insert P p l hp hl.1)
  | inr h ↦ rw h (hp, hl)
]

insert-IsOrdered : (p : Part) (l : List Part) → IsOrdered l → IsOrdered (insert p l)
unfolding insert
insert-IsOrdered p [] h = (tt, tt)
insert-IsOrdered p (q ∷ l) h = elim (Bool-cases (ltb_ℤ q.number p.number)) [
  | inl e ↦
      rw e (All-insert (λ r. q.number ≤ℤ r.number) p l (ground arith) h.0, insert-IsOrdered p l h.1)
  | inr e ↦ rw e (
    (
      ground arith,
      All-map (λ r. q.number ≤ℤ r.number) (λ r. p.number ≤ℤ r.number) (λ r k. ground arith) l h.0,
    ),
    h,
  )
]

pub sort-IsOrdered : (l : List Part) → IsOrdered (sort l)
unfolding sort
sort-IsOrdered [] = tt
sort-IsOrdered (p ∷ l) = insert-IsOrdered p (sort l) (sort-IsOrdered l)

above_of_no_duplicate :
    (n : ℤ) (l : List Part)
    → All (λ q. n ≤ℤ q.number) l
    → IsOrdered l
    → duplicate_after n l ≡ none
    → All (λ q. n <ℤ q.number) l × IsAscending l
unfolding duplicate_after
above_of_no_duplicate n [] h o d = (tt, tt)
above_of_no_duplicate n (q ∷ l) h o d = elim (Bool-cases (eqb_ℤ q.number n)) [
  | inl e ↦ absurd (ground arith)
  | inr e ↦
      let rest = above_of_no_duplicate q.number l o.0 o.1 (ground arith) in
      let lt : n <ℤ q.number = ground arith in
      (
        (
          lt,
          All-map (λ r. q.number <ℤ r.number) (λ r. n <ℤ r.number) (λ r k. omega arith) l rest.0,
        ),
        rest,
      )
]

IsAscending-of_no_duplicate :
    (l : List Part) → IsOrdered l → find_duplicate l ≡ none → IsAscending l
unfolding find_duplicate
IsAscending-of_no_duplicate [] o d = tt
IsAscending-of_no_duplicate (p ∷ l) o d = above_of_no_duplicate p.number l o.0 o.1 d

reject_duplicate-eq-ok :
    (l : List Part) {out : List Part}
    → reject_duplicate l (find_duplicate l) ≡ ok out
    → (find_duplicate l ≡ none) × (l ≡ out)
unfolding reject_duplicate
reject_duplicate-eq-ok l h = ground arith

-- A list that SortParts returns holds exactly the given parts, and their numbers ascend strictly.
pub sort_parts-IsAscending :
    (parts : List Part) {out : List Part}
    → sort_parts parts ≡ ok out
    → Perm out parts × IsAscending out
unfolding sort_parts
sort_parts-IsAscending [] h = absurd (cc)
sort_parts-IsAscending (p ∷ l) h =
    let (d, e) = reject_duplicate-eq-ok (sort (p ∷ l)) h in
    rw (← e) (sort-perm (p ∷ l), IsAscending-of_no_duplicate _ (sort-IsOrdered (p ∷ l)) d)

length-insert : (p : Part) (l : List Part) → length (insert p l) ≡ suc (length l)
unfolding insert
length-insert p [] = refl
length-insert p (q ∷ l) = ground (arith, length-insert p l)

length-sort : (l : List Part) → length (sort l) ≡ length l
unfolding sort
length-sort [] = refl
length-sort (p ∷ l) = omega (arith, length-insert p (sort l), length-sort l)

-- The list that SortParts returns is as long as the given one, and not empty.
pub length-sort_parts :
    (parts : List Part) {out : List Part}
    → sort_parts parts ≡ ok out
    → (length out ≡ length parts) × (out ≢ [])
unfolding sort_parts
length-sort_parts [] h = absurd (cc)
length-sort_parts (p ∷ l) h =
    let (d, e) = reject_duplicate-eq-ok (sort (p ∷ l)) h in
    let same = length-sort (p ∷ l) in rw (← e) (same, λ n. omega (arith, same, ap length n))
