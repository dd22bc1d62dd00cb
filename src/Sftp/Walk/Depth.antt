-- ===== src/Sftp/Walk/Depth.antt =====
-- The fuel of the walk, in levels of directories.
use mathlib.Core.Path.{subst}
use gocloud_ext.Common.{
  ℕ, zero, suc, Bytes, Bool, true, false, List, [], ◌∷◌, ◌++◌, All, All-map, Option, none, some,
  eqb, lt_bytes, Result, ok, err, ◌>>=◌, ◌≡◌, ◌≢◌, refl, sym, arith, Bool-cases, Result-cases, inl,
  inr,
}
use gocloud_ext.Blob.{is_not_found}
use gocloud_ext.Sftp.{FileInfo, Failure, is_internal_path, error_code}
use gocloud_ext.Sftp.Emit.{Lister, slash, descend, collapses, page}
use gocloud_ext.Sftp.Walk.Steps.{visit_children-full, visit_children-next}
use gocloud_ext.Sftp.Walk.{
  WalkError, out_of_fuel, failure, Child, ListOptions, take_before, relative, unless_missing,
  insert_child, sort_children, has_file, subdirs, any_key, children, has_key, visit_child,
  visit_children, visit, visit_dir, start_lister, list_root, list_paged,
}

-- The result is a value or a failure of the server.
IsDone : {A : Type 0} → Result WalkError A → Type 0
IsDone (ok a) = Unit
IsDone (err out_of_fuel) = ⊥
IsDone (err (failure e)) = Unit

bind-IsDone :
    {A B : Type 0} (r : Result WalkError A) (f : A → Result WalkError B)
    → IsDone r
    → ((a : A) → IsDone (f a))
    → IsDone (r >>= f)
unfolding IsDone
bind-IsDone (ok a) f h k = k a
bind-IsDone (err out_of_fuel) f h k = h
bind-IsDone (err (failure e)) f h k = h

unless_missing-IsDone : {A : Type 0} (e : Failure) (a : A) → IsDone (unless_missing e a)
unfolding IsDone unless_missing
unless_missing-IsDone e a = elim (Bool-cases (is_not_found (error_code e))) [
  | inl h ↦ rw h tt
  | inr h ↦ rw h tt
]

any_key-IsDone :
    (has : Bytes → Result WalkError Bool) (l : List Bytes)
    → All (λ s. IsDone (has s)) l
    → IsDone (any_key has l)
unfolding any_key IsDone
any_key-IsDone has [] h = tt
any_key-IsDone has (s ∷ l) h =
    bind-IsDone (has s) _ h.0
      (λ b. elim (Bool-cases b) [ inl y ↦ rw y tt | inr y ↦ rw y (any_key-IsDone has l h.1) ])

-- Both ways to look into a child that is a directory end.
abbrev IsReady :
    (Bytes → Result WalkError Bool) → (Bytes → Lister → Result WalkError Lister) → Child → Type 0
IsReady has go c =
    c.info.is_dir ≡ true → IsDone (has c.path) × ((l : Lister) → IsDone (go c.path l))

module _ (has : Bytes → Result WalkError Bool) (go : Bytes → Lister → Result WalkError Lister) where
  visit_child-IsDone : (c : Child) (l : Lister) → IsReady has go c → IsDone (visit_child has go c l)
  unfolding visit_child IsDone
  visit_child-IsDone c l h = elim (Bool-cases c.info.is_dir) [
    | inr f ↦ rw f tt
    | inl f ↦ elim (Bool-cases (descend c.key l)) [
      | inr d ↦ rw (f, d) tt
      | inl d ↦ elim (Bool-cases (collapses c.key l)) [
        | inl e ↦ rw (f, d, e) (bind-IsDone (has c.path) _ (h f).0 (λ b. tt))
        | inr e ↦ rw (f, d, e) ((h f).1 l)
      ]
    ]
  ]

  visit_children-IsDone :
      (cs : List Child) (l : Lister) → All (IsReady has go) cs → IsDone (visit_children has go cs l)
  unfolding visit_children IsDone
  visit_children-IsDone [] l h = tt
  visit_children-IsDone (c ∷ cs) l h = elim (Bool-cases l.full) [
    | inl f ↦ rw (visit_children-full has go (c ∷ cs) l f) tt
    | inr f ↦ rw (visit_children-next has go c cs l f) (
        bind-IsDone (visit_child has go c l) _ (visit_child-IsDone c l h.0)
          (λ m. visit_children-IsDone cs m h.1))
  ]

All-insert_child :
    (P : Child → Type 0) (c : Child) (l : List Child) → P c → All P l → All P (insert_child c l)
unfolding insert_child
All-insert_child P c [] p h = (p, tt)
All-insert_child P c (d ∷ l) p h = elim (Bool-cases (lt_bytes d.sort_key c.sort_key)) [
  | inl e ↦ rw e (h.0, All-insert_child P c l p h.1)
  | inr e ↦ rw e (p, h)
]

pub All-sort_children : (P : Child → Type 0) (l : List Child) → All P l → All P (sort_children l)
unfolding sort_children
All-sort_children P [] h = tt
All-sort_children P (c ∷ l) h =
    All-insert_child P c (sort_children l) h.0 (All-sort_children P l h.1)

module _ (read_dir : Bytes → Result Failure (List FileInfo)) where
  -- Below a directory there are fewer levels of directories than this, and every entry has a name.
  unfoldable pub HasDepth : ℕ → Bytes → Type 0
  HasDepth zero dir = ⊥
  HasDepth (suc n) dir = elim (read_dir dir) [
    | err e ↦ Unit
    | ok infos ↦
        All (λ i. (i.name ≢ []) × (i.is_dir ≡ true → HasDepth n (relative dir i.name))) infos
  ]

  entries :
      (n : ℕ) (dir : Bytes) (infos : List FileInfo)
      → HasDepth (suc n) dir
      → read_dir dir ≡ ok infos
      → All (λ i. (i.name ≢ []) × (i.is_dir ≡ true → HasDepth n (relative dir i.name))) infos
  unfolding HasDepth
  entries n dir infos h r = rw (HasDepth, r) at h

  subdirs-All :
      (P : Bytes → Type 0) (dir : Bytes) (infos : List FileInfo)
      → has_file dir infos ≡ false
      → All (λ i. i.is_dir ≡ true → P (dir ++ slash ∷ i.name)) infos
      → All P (subdirs dir infos)
  unfolding has_file subdirs
  subdirs-All P dir [] f h = tt
  subdirs-All P dir (i ∷ l) f h = elim (Bool-cases (is_internal_path (dir ++ slash ∷ i.name))) [
    | inl e ↦ rw e (subdirs-All P dir l (rw e at f) h.1)
    | inr e ↦ elim (Bool-cases i.is_dir) [
      | inl d ↦ rw e (h.0 d, subdirs-All P dir l (rw (e, d) at f) h.1)
      | inr d ↦ absurd (let k = rw (e, d) at f in ground arith)
    ]
  ]

  relative-below : (dir name : Bytes) → dir ≢ [] → relative dir name ≡ dir ++ slash ∷ name
  unfolding eqb
  relative-below [] name h = absurd (h refl)
  relative-below (x ∷ dir) name h = refl

  below-ne : (dir name : Bytes) → dir ++ slash ∷ name ≢ []
  below-ne [] name h = ground arith
  below-ne (x ∷ dir) name h = ground arith

  relative-ne : (dir name : Bytes) → name ≢ [] → relative dir name ≢ []
  unfolding eqb
  relative-ne [] name h = h
  relative-ne (x ∷ dir) name h = below-ne (x ∷ dir) name

  has_key-IsDone :
      (n : ℕ) (dir : Bytes) → dir ≢ [] → HasDepth n dir → IsDone (has_key read_dir n dir)
  unfolding has_key HasDepth IsDone
  has_key-IsDone zero dir d h = absurd h
  has_key-IsDone (suc n) dir d h = elim (Result-cases (read_dir dir)) [
    | inr (e, r) ↦ rw (has_key, r) (unless_missing-IsDone e false)
    | inl (infos, r) ↦ elim (Bool-cases (has_file dir infos)) [
      | inl f ↦ rw (has_key, r, f) tt
      | inr f ↦
          rw (has_key, r, f)
            (any_key-IsDone (has_key read_dir n) (subdirs dir infos) (
              subdirs-All (λ s. IsDone (has_key read_dir n s)) dir infos f
                (All-map _ _
                  (λ i k g.
                    has_key-IsDone n (dir ++ slash ∷ i.name) (below-ne dir i.name)
                      (rw (sym (relative-below dir i.name d)) (k.1 g)))
                  infos (entries n dir infos h r))))
    ]
  ]

  module _ (hex_unescape : Bytes → Bytes) where
    children-All :
        (P : Bytes → Type 0) (dir : Bytes) (infos : List FileInfo)
        → All (λ i. i.is_dir ≡ true → P (relative dir i.name)) infos
        → All (λ c. c.info.is_dir ≡ true → P c.path) (children read_dir hex_unescape dir infos)
    unfolding children
    children-All P dir [] h = tt
    children-All P dir (i ∷ l) h = elim (Bool-cases (is_internal_path (relative dir i.name))) [
      | inl e ↦ rw e (children-All P dir l h.1)
      | inr e ↦ rw e (h.0, children-All P dir l h.1)
    ]

    visit_dir-IsDone :
        (has : Bytes → Result WalkError Bool) (go : Bytes → Lister → Result WalkError Lister)
        (hook : Option Failure) (dir : Bytes) (l : Lister)
        → ((infos : List FileInfo)
            → read_dir dir ≡ ok infos
            → All (IsReady has go) (children read_dir hex_unescape dir infos))
        → IsDone (visit_dir read_dir hex_unescape has go hook dir l)
    unfolding visit_dir IsDone
    visit_dir-IsDone has go (some e) dir l h = tt
    visit_dir-IsDone has go none dir l h = elim (Result-cases (read_dir dir)) [
      | inr (e, r) ↦ rw (visit_dir, r) (unless_missing-IsDone e l)
      | inl (infos, r) ↦
          rw (visit_dir, r)
            (visit_children-IsDone has go _ l (All-sort_children (IsReady has go) _ (h infos r)))
    ]

    visit-IsDone :
        (n : ℕ) (dir : Bytes) (l : Lister)
        → HasDepth n dir
        → IsDone (visit read_dir hex_unescape n dir l)
    unfolding visit HasDepth
    visit-IsDone zero dir l h = absurd h
    visit-IsDone (suc n) dir l h =
        let (hook, l') = take_before l in
        visit_dir-IsDone (has_key read_dir n) (visit read_dir hex_unescape n) hook dir l'
          (λ infos r.
            children-All
              (λ s.
                IsDone (has_key read_dir n s)
                × ((m : Lister) → IsDone (visit read_dir hex_unescape n s m)))
              dir infos
              (All-map _ _
                (λ i k g. (
                  has_key-IsDone n (relative dir i.name) (relative-ne dir i.name k.0) (k.1 g),
                  λ m. visit-IsDone n (relative dir i.name) m (k.1 g),
                ))
                infos (entries n dir infos h r)))

    -- ListPaged does not run out of fuel where the fuel is above the number of levels of directories
    -- below the one that it starts at, and every entry of those has a name.
    pub list_paged_ends :
        (hex_escape : (List ℕ → ℕ → Bool) → Bytes → Bytes) (fuel : ℕ) (o : ListOptions)
        → HasDepth fuel (list_root hex_escape o.prefix)
        → list_paged read_dir hex_unescape hex_escape fuel o ≢ err out_of_fuel
    unfolding list_paged IsDone
    list_paged_ends hex_escape fuel o h e =
        let done =
          bind-IsDone
            (visit read_dir hex_unescape fuel (list_root hex_escape o.prefix) (start_lister o))
            (λ l. ok (page l)) (visit-IsDone fuel _ _ h) (λ l. tt) in
        subst (λ r. IsDone r) e done
