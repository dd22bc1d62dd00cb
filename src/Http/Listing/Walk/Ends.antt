-- ===== src/Http/Listing/Walk/Ends.antt =====
-- The WebDAV walk ends on a tree of collections.
use mathlib.Core.Path.{subst}
use gocloud_ext.Common.{
  ℕ, zero, suc, ◌<◌, Bytes, Bool, true, false, List, [], ◌∷◌, All, All-map, eqb, eqb_iff, Option,
  none, Result, ok, err, lt_bytes, ◌≡◌, ◌≢◌, ◌⊎◌, sym, ap, ◌∙◌, arith, Bool-cases, Result-cases,
  inl, inr,
}
use gocloud_ext.Http.{Body, Fault}
use gocloud_ext.Http.Client.{Client, HttpBucket}
use gocloud_ext.Http.Propfind.{DavEntry, DavResponse}
use gocloud_ext.Http.Listing.{
  Hook, DavLister, DavChild, dav_take_before, dav_descend, dav_collapses,
}
use gocloud_ext.Http.Listing.Walk.{
  DavError, out_of_fuel, DavListOptions, insert_dav_child, sort_dav_children, is_skipped,
  dav_children, has_blob, collections, unless_vanished, any_blob, dir_result, dav_visit_child,
  dav_visit_children, dav_has_key, dav_visit, start_dav_lister, dav_root, dav_finish,
  dav_list_paged, list_collection,
}
use gocloud_ext.Http.Listing.Walk.Kept.{KeepsDav, dav_visit_child-kept, dav_visit-kept}
use gocloud_ext.Http.Listing.Walk.Taken.{
  StaysTaken, taken_refl, taken_trans, taken_emits, taken_takes, dav_take_before-before, taken_hook,
}
use gocloud_ext.Http.Listing.Walk.Steps.{
  dav_visit_children_full, dav_visit_children_next, dav_visit_children_failed,
  dav_list_paged_webdav,
}

-- The result is not the end of the fuel.
abbrev pub Ended : {A State : Type 0} → Result DavError A × State → Type 0
Ended r = r.0 ≢ err out_of_fuel

module _ (rank : Bytes → ℕ) (dir : Bytes) where
  -- An entry is the collection itself, which a PROPFIND of depth 1 lists too, or lies deeper.
  abbrev pub IsBelow : DavEntry → Type 0
  IsBelow e = (e.path ≡ dir) ⊎ (rank e.path < rank dir)

  -- What the walk goes into lies deeper: the collection itself is left out.
  kept-below : (e : DavEntry) → is_skipped dir e ≡ false → IsBelow e → rank e.path < rank dir
  unfolding is_skipped
  kept-below e s (inr deeper) = deeper
  kept-below e s (inl same) =
      let self : eqb e.path dir ≡ true = (eqb_iff e.path dir).1 same in absurd (ground arith)

  collections-below :
      (l : List DavEntry) → All IsBelow l → All (λ p. rank p < rank dir) (collections dir l)
  unfolding collections
  collections-below [] h = tt
  collections-below (e ∷ l) h = elim (Bool-cases (is_skipped dir e)) [
    | inl s ↦ rw (s, collections) (collections-below l h.1)
    | inr s ↦ rw (s, collections) (kept-below e s h.0, collections-below l h.1)
  ]

  abbrev ChildBelow : DavChild → Type 0
  ChildBelow c = rank c.entry.path < rank dir

  dav_children-below :
      (hex_unescape : Bytes → Bytes) (l : List DavEntry)
      → All IsBelow l
      → All ChildBelow (dav_children hex_unescape dir l)
  unfolding dav_children
  dav_children-below hex_unescape [] h = tt
  dav_children-below hex_unescape (e ∷ l) h = elim (Bool-cases (is_skipped dir e)) [
    | inl s ↦ rw (s, dav_children) (dav_children-below hex_unescape l h.1)
    | inr s ↦ rw (s, dav_children) (kept-below e s h.0, dav_children-below hex_unescape l h.1)
  ]

All-insert_dav_child :
    (P : DavChild → Type 0) (c : DavChild) (l : List DavChild)
    → P c
    → All P l
    → All P (insert_dav_child c l)
unfolding insert_dav_child
All-insert_dav_child P c [] h k = (h, tt)
All-insert_dav_child P c (d ∷ l) h k = elim (Bool-cases (lt_bytes d.sort_key c.sort_key)) [
  | inl e ↦ rw e (k.0, All-insert_dav_child P c l h k.1)
  | inr e ↦ rw e (h, k)
]

All-sort_dav_children :
    (P : DavChild → Type 0) (l : List DavChild) → All P l → All P (sort_dav_children l)
unfolding sort_dav_children
All-sort_dav_children P [] h = tt
All-sort_dav_children P (c ∷ l) h =
    All-insert_dav_child P c (sort_dav_children l) h.0 (All-sort_dav_children P l h.1)

module _ {State : Type 0} where
  unless_vanished-Ended :
      {A : Type 0} (e : Fault) (a : A) (s : State) → Ended (unless_vanished e a s)
  unfolding unless_vanished
  unless_vanished-Ended e a s h = ground arith

  any_blob-Ended :
      (has : Bytes → State → Result DavError Bool × State) (l : List Bytes) (s : State)
      → All (λ p. (t : State) → Ended (has p t)) l
      → Ended (any_blob has l s)
  unfolding any_blob
  any_blob-Ended has [] s a h = ground arith
  any_blob-Ended has (p ∷ l) s a h = elim (Result-cases (has p s).0) [
    | inr (e, k) ↦ ground (arith, a.0 s)
    | inl (found, k) ↦ elim (Bool-cases found) [
      | inl y ↦ ground arith
      | inr y ↦ any_blob-Ended has l (has p s).1 a.1 (rw (k, y, any_blob) at h)
    ]
  ]

  dav_finish-Ended :
      (r : Result DavError DavLister × State) → Ended r → (dav_finish r).0 ≢ err out_of_fuel
  unfolding dav_finish
  dav_finish-Ended (ok l, s) e h = ground arith
  dav_finish-Ended (err x, s) e h = ground (arith, e)

  module _ (b : HttpBucket) (has : Bytes → State → Result DavError Bool × State)
      (go : Bytes → DavLister → State → Result DavError DavLister × State) where
    dir_result-Ended :
        (key : Bytes) (r : Result DavError Bool × State) (l : DavLister)
        → Ended r
        → Ended (dir_result key r l)
    unfolding dir_result
    dir_result-Ended key (ok there, s) l e h = ground arith
    dir_result-Ended key (err x, s) l e h = ground (arith, e)

    dav_visit_child-Ended :
        (c : DavChild) (l : DavLister) (s : State)
        → ((t : State) → Ended (has c.entry.path t))
        → Ended (go c.entry.path l s)
        → Ended (dav_visit_child b has go c l s)
    unfolding dav_visit_child
    dav_visit_child-Ended c l s h g k = elim (Bool-cases c.entry.is_collection) [
      | inr f ↦ absurd (let z = rw f at k in ground arith)
      | inl f ↦ elim (Bool-cases (dav_descend c.key l)) [
        | inr d ↦ absurd (let z = rw (f, d) at k in ground arith)
        | inl d ↦ elim (Bool-cases (dav_collapses c.key l)) [
          | inr e ↦ g (rw (f, d, e) at k)
          | inl e ↦ dir_result-Ended c.key (has c.entry.path s) l (h s) (rw (f, d, e) at k)
        ]
      ]
    ]

    dav_visit_children-Ended :
        (cs : List DavChild) (l : DavLister) (s : State)
        → l.before ≡ none
        → KeepsDav StaysTaken taken_refl taken_trans taken_emits taken_takes go
        → All
            (λ c.
              (m : DavLister) (t : State)
              → m.before ≡ none
              → Ended (dav_visit_child b has go c m t))
            cs
        → Ended (dav_visit_children b has go cs l s)
    unfolding dav_visit_children
    dav_visit_children-Ended [] l s z keeps a h = ground arith
    dav_visit_children-Ended (c ∷ cs) l s z keeps a h = elim (Bool-cases l.full) [
      | inl f ↦ let y = dav_visit_children_full b has go (c ∷ cs) l s f in ground (arith, y)
      | inr f ↦ elim (Result-cases (dav_visit_child b has go c l s).0) [
        | inr (e, k) ↦ a.0 l s z (k ∙ sym (dav_visit_children_failed b has go c cs l s e f k) ∙ h)
        | inl (n, k) ↦
            dav_visit_children-Ended cs n (dav_visit_child b has go c l s).1
              (dav_visit_child-kept StaysTaken taken_refl taken_trans taken_emits taken_takes b has
                go keeps c l n s k z)
              keeps a.1 (sym (ap (λ t. t.0) (dav_visit_children_next b has go c cs l n s f k)) ∙ h)
      ]
    ]

-- A server whose collections are a tree: what a PROPFIND of depth 1 with this hook lists is the
-- collection itself or lies below it, by a rank.
abbrev pub IsTree :
    {State : Type 0}
    → (Bytes → Hook → State → Result Fault (List DavEntry) × State)
    → (Bytes → ℕ)
    → Hook
    → Type 0
IsTree {State} probe rank hook =
    (dir : Bytes) (s : State) (l : List DavEntry)
    → (probe dir hook s).0 ≡ ok l
    → All (IsBelow rank dir) l

module _ {State : Type 0} (b : HttpBucket)
    (probe : Bytes → Hook → State → Result Fault (List DavEntry) × State) (rank : Bytes → ℕ)
    (tree : IsTree probe rank ok) where
  dav_has_key-Ended :
      (n : ℕ) (dir : Bytes) (s : State) → rank dir < n → Ended (dav_has_key b probe n dir s)
  unfolding dav_has_key
  dav_has_key-Ended zero dir s r h = absurd (omega (arith, r))
  dav_has_key-Ended (suc n) dir s r h =
      let s' = (probe dir ok s).1 in
      elim (Result-cases (probe dir ok s).0) [
        | inr (e, k) ↦ unless_vanished-Ended e false s' (rw (k, dav_has_key) at h)
        | inl (l, k) ↦ elim (Bool-cases (has_blob dir l)) [
          | inl y ↦ absurd (let z = rw (k, y, dav_has_key) at h in ground arith)
          | inr y ↦
              any_blob-Ended (dav_has_key b probe n) (collections dir l) s'
                (All-map (λ p. rank p < rank dir) _
                  (λ p below t. dav_has_key-Ended n p t (omega (arith, r, below)))
                  (collections dir l) (collections-below rank dir l (tree dir s l k)))
                (rw (k, y, dav_has_key) at h)
        ]
      ]

  dav_visit-Ended :
      (hex_unescape : Bytes → Bytes) (n : ℕ) (dir : Bytes) (l : DavLister) (s : State)
      → IsTree probe rank (dav_take_before l).0
      → rank dir < n
      → Ended (dav_visit b probe hex_unescape n dir l s)
  unfolding dav_visit
  dav_visit-Ended hex_unescape zero dir l s first r h = absurd (omega (arith, r))
  dav_visit-Ended hex_unescape (suc n) dir l s first r h =
      let (hook, l') = dav_take_before l in
      let s' = (probe dir hook s).1 in
      elim (Result-cases (probe dir hook s).0) [
        | inr (e, k) ↦ unless_vanished-Ended e l' s' (rw (k, dav_visit) at h)
        | inl (entries, k) ↦
            let cs = dav_children hex_unescape dir entries in
            let has = dav_has_key b probe n in
            let go = dav_visit b probe hex_unescape n in
            let keeps =
              dav_visit-kept StaysTaken taken_refl taken_trans taken_emits taken_takes b probe
                hex_unescape n in
            dav_visit_children-Ended b has go (sort_dav_children cs) l' s'
              (dav_take_before-before l) keeps
              (All-map (ChildBelow rank dir) _
                (λ c below m t z.
                  dav_visit_child-Ended b has go c m t
                    (λ t'. dav_has_key-Ended n c.entry.path t' (omega (arith, r, below)))
                    (dav_visit-Ended hex_unescape n c.entry.path m t
                      (subst (IsTree probe rank) (taken_hook m z) tree) (omega (arith, r, below))))
                (sort_dav_children cs)
                (All-sort_dav_children (ChildBelow rank dir) cs
                  (dav_children-below rank dir hex_unescape entries (first dir s entries k))))
              (rw (k, dav_visit) at h)
      ]

module _ (c : Client) (b : HttpBucket) (url_path : Bytes → Option Bytes)
    (decode_xml : Body → Result Fault (List DavResponse)) (body : Bytes) where
  -- On a server whose collections are a tree by a rank, so that a PROPFIND of depth 1, with the
  -- BeforeList hook and without, lists the collection itself and what has a smaller rank, ListPaged
  -- returns a page or an error of the driver: one level more than the rank of the collection that it
  -- starts at is fuel enough.
  pub dav_list_paged_ends :
      (hex_unescape : Bytes → Bytes) (hex_escape : (List ℕ → ℕ → Bool) → Bytes → Bytes)
      (rank : Bytes → ℕ) (fuel : ℕ) (o : DavListOptions) (s : c.State)
      → IsTree (list_collection c b url_path decode_xml body) rank ok
      → IsTree
          (list_collection c b url_path decode_xml body)
          rank
          (dav_take_before (start_dav_lister o)).0
      → rank (dav_root hex_escape o.prefix) < fuel
      → (dav_list_paged c b url_path decode_xml body hex_unescape hex_escape fuel o s).0
        ≢ err out_of_fuel
  unfolding dav_list_paged
  dav_list_paged_ends hex_unescape hex_escape rank fuel o s tree first deep h =
      elim (Bool-cases b.webdav) [
        | inr w ↦ absurd (let z = rw w at h in ground arith)
        | inl w ↦
            let probe = list_collection c b url_path decode_xml body in
            let root = dav_root hex_escape o.prefix in
            let step =
              dav_list_paged_webdav c b url_path decode_xml body hex_unescape hex_escape fuel o s
                w in
            dav_finish-Ended (dav_visit b probe hex_unescape fuel root (start_dav_lister o) s)
              (dav_visit-Ended b probe rank tree hex_unescape fuel root (start_dav_lister o) s first
                deep)
              (sym (ap (λ t. t.0) step) ∙ h)
      ]
