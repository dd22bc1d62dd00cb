-- ===== src/Sftp/Emit/Pages.antt =====
-- What every page satisfies: its size, the prefix, and the page token.
use gocloud_ext.Common.{
  ◌≤◌, ◌==◌, Bytes, true, false, ◌&&◌, not, [], ◌∷◌, All, All-append, length, length-append, Option,
  none, some, eqb, has_prefix, has_prefix-append, ◌≡◌, refl, arith, Bool-cases, inl, inr,
}
use gocloud_ext.Sftp.Emit.Cases.{emit-cases}
use gocloud_ext.Sftp.Emit.{Lister, ListObject, IsAt, le_bytes, add, fold, emit}

-- A result may be on a page: it has the prefix, and comes after the page token.
abbrev pub IsListed : Bytes → Bytes → ListObject → Type 0
IsListed prefix token o =
    (has_prefix o.key prefix ≡ true) × ((not (eqb token []) && le_bytes o.key token) ≡ false)

-- The request of a lister, which the walk does not change.
abbrev pub SameRequest : Lister → Lister → Type 0
SameRequest l m =
    (m.prefix ≡ l.prefix)
    × (m.delimiter ≡ l.delimiter)
    × (m.page_size ≡ l.page_size)
    × (m.page_token ≡ l.page_token)

-- The results so far are within the page size, which a full page has reached, and may be listed.
abbrev pub IsPage : Lister → Type 0
IsPage l =
    (length l.objects ≤ l.page_size)
    × (l.full ≡ true → length l.objects ≡ l.page_size)
    × All (IsListed l.prefix l.page_token) l.objects

-- The lister after a step has the same request and is a page still.
abbrev pub IsStep : Lister → Lister → Type 0
IsStep l m = SameRequest l m × IsPage m

add-IsStep :
    (o : ListObject) (l : Lister)
    → IsPage l
    → has_prefix o.key l.prefix ≡ true
    → IsStep l (add (some o) l)
unfolding add
add-IsStep o l (n, f, a) h =
    elim (Bool-cases (not (eqb l.page_token []) && le_bytes o.key l.page_token)) [
      | inl e ↦ rw e ((refl, refl, refl, refl), (n, f, a))
      | inr e ↦ elim (Bool-cases (length l.objects == l.page_size)) [
        | inl z ↦ rw (e, z) ((refl, refl, refl, refl), (n, (λ _. ground arith), a))
        | inr z ↦
            rw (e, z)
              (
                (refl, refl, refl, refl),
                (
                  ground (arith, length-append l.objects (o ∷ [])),
                  (λ k. absurd (ground (arith, f k))),
                  All-append (IsListed l.prefix l.page_token) l.objects (o ∷ []) a ((h, e), tt),
                ),
              )
      ]
    ]

add_at :
    (key : Bytes) (obj : Option ListObject) (l : Lister)
    → IsAt key obj
    → IsPage l
    → has_prefix key l.prefix ≡ true
    → IsStep l (add obj l)
unfolding add
add_at key none l at p h = ((refl, refl, refl, refl), p)
add_at key (some o) l at p h = add-IsStep o l p (rw at h)

fold-IsStep :
    (dir : Bytes) (l : Lister) → IsPage l → has_prefix dir l.prefix ≡ true → IsStep l (fold dir l)
unfolding fold
fold-IsStep dir l p h = elim (Bool-cases (eqb dir l.last_prefix)) [
  | inl e ↦ rw e ((refl, refl, refl, refl), p)
  | inr e ↦ rw e (add-IsStep _ (record l { last_prefix = dir }) p h)
]

-- emit keeps the request, and whatever it adds to the page may be listed and fits.
pub emit-IsStep :
    (key : Bytes) (obj : Option ListObject) (l : Lister)
    → IsAt key obj
    → IsPage l
    → IsStep l (emit key obj l)
emit-IsStep key obj l at p = elim (emit-cases key obj l) [
  | inl e ↦ rw e ((refl, refl, refl, refl), p)
  | inr (inl (h, e)) ↦ rw e (add_at key obj l at p h)
  | inr (inr (n, h, e)) ↦ rw e (fold-IsStep _ l p (has_prefix-append l.prefix _))
]
