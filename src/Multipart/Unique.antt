-- ===== src/Multipart/Unique.antt =====
-- SortParts: the order of the given parts, and repeated numbers.
use mathlib.Core.List.{
  Mem, Perm, Nodup, Nodup-nil, Nodup-cons, mem-cons, not-mem-nil, mem-cons_self,
}
use mathlib.Core.List.Perm
use mathlib.Core.Logic.Or
use mathlib.Core.HLevel.{⊥_prop}
use native.Mathlib.Bridge.{le_prop}
use gocloud_ext.Common.{
  ℤ, ◌≤ℤ◌, ◌<ℤ◌, eq_of_parts, ◌≡◌, ◌≢◌, ◌↔◌, refl, sym, List, [], ◌∷◌, none, ok, All, map, arith,
}
use gocloud_ext.Multipart.{
  Part, sort, duplicate_after, find_duplicate, reject_duplicate, sort_parts,
}
use gocloud_ext.Multipart.Sorting.{
  IsAscending, IsOrdered, sort-perm, sort-IsOrdered, sort_parts-IsAscending,
}

Part-set : IsSet Part
Part-set = hlevel

number_of_mem_lt :
    (n : ℤ) (l : List Part) {q : Part} → All (λ r. n <ℤ r.number) l → Mem q l → n <ℤ q.number
number_of_mem_lt n [] h m = absurd (not-mem-nil m)
number_of_mem_lt n (r ∷ l) h m =
    Or.elim le_prop (mem-cons.0 m) (λ e. rw e h.0) (λ k. number_of_mem_lt n l h.1 k)

number_of_mem_le :
    (n : ℤ) (l : List Part) {q : Part} → All (λ r. n ≤ℤ r.number) l → Mem q l → n ≤ℤ q.number
number_of_mem_le n [] h m = absurd (not-mem-nil m)
number_of_mem_le n (r ∷ l) h m =
    Or.elim le_prop (mem-cons.0 m) (λ e. rw e h.0) (λ k. number_of_mem_le n l h.1 k)

heads-eq :
    (x y : Part) (l r : List Part)
    → All (λ q. x.number ≤ℤ q.number) l
    → All (λ q. y.number <ℤ q.number) r
    → Perm (x ∷ l) (y ∷ r)
    → x ≡ y
heads-eq x y l r o a p =
    Or.elim (Part-set x y) (mem-cons.0 ((Perm.mem_iff p).0 mem-cons_self)) (λ e. e)
      λ below.
        Or.elim (Part-set x y) (mem-cons.0 ((Perm.mem_iff p).1 mem-cons_self)) (λ e. sym e)
          λ above. absurd (
            omega (arith, number_of_mem_lt y.number r a below, number_of_mem_le x.number l o above))

-- An ordered list with the same parts as a strictly ascending one is that list.
ordered_unique : (l r : List Part) → IsOrdered l → IsAscending r → Perm l r → l ≡ r
ordered_unique [] [] o a p = refl
ordered_unique [] (y ∷ r) o a p = absurd (not-mem-nil ((Perm.mem_iff p).1 mem-cons_self))
ordered_unique (x ∷ l) [] o a p = absurd (not-mem-nil ((Perm.mem_iff p).0 mem-cons_self))
ordered_unique (x ∷ l) (y ∷ r) o a p =
    let e = heads-eq x y l r o.0 a.0 p in
    let tails : l ≡ r = ordered_unique l r o.1 a.1 (Perm.cons_inv (rw e at p)) in cc

duplicate_after-IsAscending :
    (n : ℤ) (l : List Part)
    → All (λ q. n <ℤ q.number) l
    → IsAscending l
    → duplicate_after n l ≡ none
unfolding duplicate_after
duplicate_after-IsAscending n [] h a = refl
duplicate_after-IsAscending n (q ∷ l) h a =
    ground (arith, duplicate_after-IsAscending q.number l a.0 a.1)

find_duplicate-IsAscending : (l : List Part) → IsAscending l → find_duplicate l ≡ none
unfolding find_duplicate
find_duplicate-IsAscending [] a = refl
find_duplicate-IsAscending (p ∷ l) a = duplicate_after-IsAscending p.number l a.0 a.1

-- For any ascending arrangement `out` of at least one part, SortParts of the parts in any order
-- returns `out`.
pub sort_parts_unique :
    (parts out : List Part)
    → out ≢ []
    → IsAscending out
    → Perm parts out
    → sort_parts parts ≡ ok out
unfolding sort_parts reject_duplicate
sort_parts_unique [] [] ne a p = absurd (ne refl)
sort_parts_unique [] (q ∷ out) ne a p = absurd (not-mem-nil ((Perm.mem_iff p).1 mem-cons_self))
sort_parts_unique (q ∷ parts) out ne a p =
    let l = q ∷ parts in
    rw (ordered_unique (sort l) out (sort-IsOrdered l) a (Perm.trans (sort-perm l) p))
      (rw (find_duplicate-IsAscending out a) refl)

ok-ne-nil : (parts out : List Part) → sort_parts parts ≡ ok out → out ≢ []
ok-ne-nil parts out h e = let p = (sort_parts-IsAscending parts h).0 in nonempty parts h (rw e at p)
  where
    nonempty : (l : List Part) → sort_parts l ≡ ok out → Perm [] l → ⊥
    nonempty [] k p = absurd (unfold sort_parts in cc)
    nonempty (q ∷ l) k p = not-mem-nil ((Perm.mem_iff p).1 mem-cons_self)

-- Two orders of the same parts are assembled alike: where SortParts succeeds on the one it returns
-- the same list on the other.
pub sort_parts-perm :
    (xs ys : List Part) {out : List Part}
    → Perm xs ys
    → sort_parts xs ≡ ok out
    → sort_parts ys ≡ ok out
sort_parts-perm xs ys {out} p h =
    let (q, a) = sort_parts-IsAscending xs h in
    sort_parts_unique ys out (ok-ne-nil xs out h) a (Perm.symm (Perm.trans q p))

abbrev pub numbers : List Part → List ℤ
numbers = map (λ (p : Part). p.number)

not-mem-numbers : (n : ℤ) (l : List Part) → All (λ q. n <ℤ q.number) l → ¬ Mem n (numbers l)
not-mem-numbers n [] a m = not-mem-nil m
not-mem-numbers n (q ∷ l) a m =
    Or.elim ⊥_prop (mem-cons.0 m) (λ e. ground (arith, a.0)) (not-mem-numbers n l a.1)

Nodup-IsAscending : (l : List Part) → IsAscending l → Nodup (numbers l)
Nodup-IsAscending [] a = Nodup-nil
Nodup-IsAscending (p ∷ l) a = Nodup-cons.1 (not-mem-numbers p.number l a.0, Nodup-IsAscending l a.1)

above_of_not-mem :
    (n : ℤ) (l : List Part)
    → All (λ q. n ≤ℤ q.number) l
    → ¬ Mem n (numbers l)
    → All (λ q. n <ℤ q.number) l
above_of_not-mem n [] h m = tt
above_of_not-mem n (q ∷ l) h m =
    let ne : n ≢ q.number = λ e. m (mem-cons.1 (Or.inl e)) in
    (
      ground (arith, eq_of_parts n q.number),
      above_of_not-mem n l h.1 (λ k. m (mem-cons.1 (Or.inr k))),
    )

IsAscending-of_Nodup : (l : List Part) → IsOrdered l → Nodup (numbers l) → IsAscending l
IsAscending-of_Nodup [] o d = tt
IsAscending-of_Nodup (p ∷ l) o d =
    let (m, d') = Nodup-cons.0 d in
    (above_of_not-mem p.number l o.0 m, IsAscending-of_Nodup l o.1 d')

-- SortParts returns a list exactly when there is a part and no two parts have the same number.
pub sort_parts_iff :
    (parts : List Part)
    → ((out : List Part) × (sort_parts parts ≡ ok out)) ↔ ((parts ≢ []) × Nodup (numbers parts))
sort_parts_iff parts = (λ r. (forth r.0 r.1), λ d. (sort parts, back d.0 d.1))
  where
    forth : (out : List Part) → sort_parts parts ≡ ok out → (parts ≢ []) × Nodup (numbers parts)
    forth out h =
        let (p, a) = sort_parts-IsAscending parts h in
        (
          (λ e. ok-ne-nil parts out h (Perm.eq-nil (rw e at p))),
          Perm.nodup (Perm.map (λ (q : Part). q.number) p) (Nodup-IsAscending out a),
        )

    back : parts ≢ [] → Nodup (numbers parts) → sort_parts parts ≡ ok (sort parts)
    back ne d =
        let p = sort-perm parts in
        sort_parts_unique parts (sort parts) (λ e. ne (Perm.eq-nil (Perm.symm (rw e at p))))
          (IsAscending-of_Nodup (sort parts) (sort-IsOrdered parts)
            (Perm.nodup (Perm.map (λ (q : Part). q.number) (Perm.symm p)) d))
          (Perm.symm p)
