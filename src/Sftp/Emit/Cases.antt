-- ===== src/Sftp/Emit/Cases.antt =====
-- The three outcomes of emit.
use gocloud_ext.Common.{
  ℕ, ◌+◌, Bytes, true, [], ◌++◌, length, take, drop, Option, eqb, has_prefix, index, ◌≡◌, refl,
  Bool-cases, Option-cases, inl, inr, ◌⊎◌,
}
use gocloud_ext.Sftp.Emit.{Lister, ListObject, add, fold, emit}

-- Nothing is done, the object is added, or the key folds into a directory that starts the key.
abbrev pub Outcome : Bytes → Option ListObject → Lister → Type 0
Outcome key obj l =
    (emit key obj l ≡ l)
    ⊎ ((has_prefix key l.prefix ≡ true) × (emit key obj l ≡ add obj l))
    ⊎ ((n : ℕ) × (has_prefix key l.prefix ≡ true)
        × (emit key obj l ≡ fold (l.prefix ++ take n (drop (length l.prefix) key)) l))

pub emit-cases : (key : Bytes) (obj : Option ListObject) (l : Lister) → Outcome key obj l
unfolding emit
emit-cases key obj l = elim (Bool-cases (has_prefix key l.prefix)) [
  | inr e ↦ inl (rw e refl)
  | inl e ↦ elim (Bool-cases (eqb l.delimiter [])) [
    | inl d ↦ inr (inl (e, rw (e, d) refl))
    | inr d ↦ elim (Option-cases (index (drop (length l.prefix) key) l.delimiter)) [
      | inl i ↦ inr (inl (e, rw (e, d, i) refl))
      | inr (n, i) ↦ inr (inr (n + length l.delimiter, e, rw (e, d, i) refl))
    ]
  ]
]
