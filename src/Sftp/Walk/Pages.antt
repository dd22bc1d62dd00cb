-- ===== src/Sftp/Walk/Pages.antt =====
-- The pages that the walk returns.
use gocloud_ext.Common.{
  ℕ, zero, suc, ◌≤◌, Bytes, Bool, true, false, List, [], ◌∷◌, ◌++◌, All, length, Option, none, some,
  Result, ok, ◌≡◌, refl, sym, ◌∙◌, arith, Bool-cases, Option-cases, if◌then◌else◌, Result-cases,
  inl, inr,
}
use gocloud_ext.Blob.{is_not_found}
use gocloud_ext.Sftp.{FileInfo, Failure, error_code}
use gocloud_ext.Sftp.Emit.{Lister, ListPage, slash, descend, collapses, page, last_key}
use gocloud_ext.Sftp.Emit.Pages.{IsListed, IsPage, IsStep, emit-IsStep}
use gocloud_ext.Sftp.Walk.Steps.{bind-ok, visit_children-full, visit_children-next}
use gocloud_ext.Sftp.Walk.{
  WalkError, Child, ListOptions, take_before, unless_missing, visit_child, visit_children, visit,
  visit_dir, start_lister, list_root, limit, list_paged,
}

pub IsStep-trans : (l m k : Lister) → IsStep l m → IsStep m k → IsStep l k
IsStep-trans l m k ((a, b, c, d), p) ((a', b', c', d'), q) = ((a' ∙ a, b' ∙ b, c' ∙ c, d' ∙ d), q)

take_before-IsStep : (l : Lister) → IsPage l → IsStep l (take_before l).1
unfolding take_before
take_before-IsStep l p = elim (Option-cases l.before) [
  | inl e ↦ rw e ((refl, refl, refl, refl), p)
  | inr (r, e) ↦ rw e ((refl, refl, refl, refl), p)
]

-- The step that a result names.
IsStep-of_ok :
    (l m k : Lister) → IsStep l k → ◌≡◌ {A = Result WalkError Lister} (ok k) (ok m) → IsStep l m
IsStep-of_ok l m k s h = let e : k ≡ m = cc in rw (sym e) s

-- A way to visit a directory that keeps the page.
abbrev pub Keeps : (Bytes → Lister → Result WalkError Lister) → Type 0
Keeps go = (dir : Bytes) (l m : Lister) → IsPage l → go dir l ≡ ok m → IsStep l m

module _ (has : Bytes → Result WalkError Bool) (go : Bytes → Lister → Result WalkError Lister)
    (keeps : Keeps go) where
  visit_child-IsStep :
      (c : Child) (l m : Lister) → IsPage l → visit_child has go c l ≡ ok m → IsStep l m
  unfolding visit_child
  visit_child-IsStep c l m p h = elim (Bool-cases c.info.is_dir) [
    | inr f ↦ IsStep-of_ok l m _ (emit-IsStep c.key _ l refl p) (rw f at h)
    | inl f ↦ elim (Bool-cases (descend c.key l)) [
      | inr d ↦ IsStep-of_ok l m l ((refl, refl, refl, refl), p) (rw (f, d) at h)
      | inl d ↦ elim (Bool-cases (collapses c.key l)) [
        | inr e ↦ keeps c.path l m p (rw (f, d, e) at h)
        | inl e ↦
            let (b, _, k) = bind-ok (has c.path) _ m (rw (f, d, e) at h) in
            elim (Bool-cases b) [
              | inl y ↦
                  IsStep-of_ok l m _ (emit-IsStep (c.key ++ slash ∷ []) none l tt p) (rw y at k)
              | inr y ↦ IsStep-of_ok l m l ((refl, refl, refl, refl), p) (rw y at k)
            ]
      ]
    ]
  ]

  visit_children-IsStep :
      (cs : List Child) (l m : Lister) → IsPage l → visit_children has go cs l ≡ ok m → IsStep l m
  unfolding visit_children
  visit_children-IsStep [] l m p h = IsStep-of_ok l m l ((refl, refl, refl, refl), p) h
  visit_children-IsStep (c ∷ cs) l m p h = elim (Bool-cases l.full) [
    | inl f ↦
        IsStep-of_ok l m l ((refl, refl, refl, refl), p)
          (sym (visit_children-full has go (c ∷ cs) l f) ∙ h)
    | inr f ↦
        let (k, here, there) =
          bind-ok (visit_child has go c l) _ m (sym (visit_children-next has go c cs l f) ∙ h) in
        let s = visit_child-IsStep c l k p here in
        IsStep-trans l k m s (visit_children-IsStep cs k m s.1 there)
  ]

-- What a page satisfies for a request.
abbrev pub IsBounded : ListOptions → ListPage → Type 0
IsBounded o p =
    (length p.objects ≤ limit o)
    × All (IsListed o.prefix o.page_token) p.objects
    × ((t : Bytes)
        → p.next_page_token ≡ some t
        → (length p.objects ≡ limit o) × (last_key p.objects ≡ some t))

start_lister-IsPage : (o : ListOptions) → IsPage (start_lister o)
unfolding start_lister
start_lister-IsPage o = (omega arith, (λ f. absurd (ground arith)), tt)

pub if_some :
    (b : Bool) (o : Option Bytes) (k : Bytes)
    → (if b then o else none) ≡ some k
    → (b ≡ true) × (o ≡ some k)
if_some true o k e = (refl, e)
if_some false o k e = absurd (ground arith)

page-IsBounded : (o : ListOptions) (l : Lister) → IsStep (start_lister o) l → IsBounded o (page l)
unfolding start_lister page
page-IsBounded o l ((p, d, n, t), (size, full, listed)) = (
  rw (sym n) size,
  rw (sym p, sym t) listed,
  λ k e. let (f, at) = if_some l.full (last_key l.objects) k e in (full f ∙ n, at),
)

module _ (read_dir : Bytes → Result Failure (List FileInfo)) (hex_unescape : Bytes → Bytes) where
  unless_missing-IsStep :
      (e : Failure) (l m : Lister) → IsPage l → unless_missing e l ≡ ok m → IsStep l m
  unfolding unless_missing
  unless_missing-IsStep e l m p h = elim (Bool-cases (is_not_found (error_code e))) [
    | inl n ↦ IsStep-of_ok l m l ((refl, refl, refl, refl), p) (rw n at h)
    | inr n ↦ absurd (let k = rw n at h in ground arith)
  ]

  visit_dir-IsStep :
      (has : Bytes → Result WalkError Bool) (go : Bytes → Lister → Result WalkError Lister)
      (hook : Option Failure) (dir : Bytes) (l m : Lister)
      → Keeps go
      → IsPage l
      → visit_dir read_dir hex_unescape has go hook dir l ≡ ok m
      → IsStep l m
  unfolding visit_dir
  visit_dir-IsStep has go (some e) dir l m keeps p h = absurd (ground arith)
  visit_dir-IsStep has go none dir l m keeps p h = elim (Result-cases (read_dir dir)) [
    | inr (e, r) ↦ unless_missing-IsStep e l m p (rw (visit_dir, r) at h)
    | inl (infos, r) ↦ visit_children-IsStep has go keeps _ l m p (rw (visit_dir, r) at h)
  ]

  pub visit-IsStep : (n : ℕ) → Keeps (visit read_dir hex_unescape n)
  unfolding visit
  visit-IsStep zero dir l m p h = absurd (ground arith)
  visit-IsStep (suc n) dir l m p h =
      let (hook, l') = take_before l in
      let s = take_before-IsStep l p in
      IsStep-trans l l' m s (visit_dir-IsStep _ _ hook dir l' m (visit-IsStep n) s.1 h)

  -- The page that ListPaged returns holds at most PageSize results (1000, where PageSize is 0); every
  -- one has the prefix and a key above the page token; and a next token is given only with a page of
  -- that size, of which it is the last key.
  pub list_paged-bounds :
      (hex_escape : (List ℕ → ℕ → Bool) → Bytes → Bytes) (fuel : ℕ) (o : ListOptions) (p : ListPage)
      → list_paged read_dir hex_unescape hex_escape fuel o ≡ ok p
      → IsBounded o p
  unfolding list_paged
  list_paged-bounds hex_escape fuel o p h =
      let (l, walked, same) =
        bind-ok (visit read_dir hex_unescape fuel (list_root hex_escape o.prefix) (start_lister o))
          _ p h in
      let e : page l ≡ p = cc in
      rw (sym e)
        (page-IsBounded o l (visit-IsStep fuel _ (start_lister o) l (start_lister-IsPage o) walked))
