-- ===== src/Http/Listing/Walk/Kept.antt =====
-- What every step of the WebDAV walk keeps, the walk keeps.
use gocloud_ext.Common.{
  ℕ, zero, suc, Bytes, Bool, true, false, List, [], ◌∷◌, ◌++◌, Option, none, Result, ok, err, ◌≡◌,
  refl, sym, ap, ◌∙◌, arith, Bool-cases, Result-cases, inl, inr,
}
use mathlib.Core.Path.{subst}
use gocloud_ext.Blob.{is_not_found}
use gocloud_ext.Sftp.Emit.{ListObject, IsAt, slash}
use gocloud_ext.Http.{Fault, fault_code}
use gocloud_ext.Http.Client.{HttpBucket}
use gocloud_ext.Http.Propfind.{DavEntry}
use gocloud_ext.Http.Listing.{
  Hook, DavLister, DavChild, dav_take_before, dav_emit, dav_descend, dav_collapses,
}
use gocloud_ext.Http.Listing.Walk.Steps.{
  dav_visit_children_full, dav_visit_children_next, dav_visit_children_failed,
}
use gocloud_ext.Http.Listing.Walk.{
  DavError, unless_vanished, dir_result, dav_object, dav_visit_child, dav_visit_children, dav_visit,
}

abbrev pub ListerResult : Type 0
ListerResult = Result DavError DavLister

module _ (R : DavLister → DavLister → Type 0) (same : (l : DavLister) → R l l)
    (trans : (l m k : DavLister) → R l m → R m k → R l k)
    (emits : (key : Bytes) (obj : Option ListObject) (l : DavLister)
      → IsAt key obj
      → R l (dav_emit key obj l))
    (takes : (l : DavLister) → R l (dav_take_before l).1) where
  at_result : (l m k : DavLister) → R l k → ◌≡◌ {A = ListerResult} (ok k) (ok m) → R l m
  at_result l m k s h = let e : k ≡ m = cc in subst (R l) e s

  module _ {State : Type 0} where
    -- A way to visit a collection that keeps what is kept.
    abbrev pub KeepsDav : (Bytes → DavLister → State → ListerResult × State) → Type 0
    KeepsDav go = (dir : Bytes) (l m : DavLister) (s : State) → (go dir l s).0 ≡ ok m → R l m

    unless_vanished-kept :
        (e : Fault) (l m : DavLister) (s : State) → (unless_vanished e l s).0 ≡ ok m → R l m
    unfolding unless_vanished
    unless_vanished-kept e l m s h = elim (Bool-cases (is_not_found (fault_code e))) [
      | inl n ↦ at_result l m l (same l) (rw n at h)
      | inr n ↦ absurd (let k = rw n at h in ground arith)
    ]

    dir_result-kept :
        (key : Bytes) (r : Result DavError Bool × State) (l m : DavLister)
        → (dir_result key r l).0 ≡ ok m
        → R l m
    unfolding dir_result
    dir_result-kept key (ok true, s) l m h = at_result l m _ (emits (key ++ slash ∷ []) none l tt) h
    dir_result-kept key (ok false, s) l m h = at_result l m l (same l) h
    dir_result-kept key (err e, s) l m h = absurd (ground arith)

    module _ (b : HttpBucket) (has : Bytes → State → Result DavError Bool × State)
        (go : Bytes → DavLister → State → ListerResult × State) (keeps : KeepsDav go) where
      pub dav_visit_child-kept :
          (c : DavChild) (l m : DavLister) (s : State)
          → (dav_visit_child b has go c l s).0 ≡ ok m
          → R l m
      unfolding dav_visit_child dav_object
      dav_visit_child-kept c l m s h = elim (Bool-cases c.entry.is_collection) [
        | inr f ↦ at_result l m _ (emits c.key _ l refl) (rw f at h)
        | inl f ↦ elim (Bool-cases (dav_descend c.key l)) [
          | inr d ↦ at_result l m l (same l) (rw (f, d) at h)
          | inl d ↦ elim (Bool-cases (dav_collapses c.key l)) [
            | inr e ↦ keeps c.entry.path l m s (rw (f, d, e) at h)
            | inl e ↦ dir_result-kept c.key (has c.entry.path s) l m (rw (f, d, e) at h)
          ]
        ]
      ]

      pub dav_visit_children-kept :
          (cs : List DavChild) (l m : DavLister) (s : State)
          → (dav_visit_children b has go cs l s).0 ≡ ok m
          → R l m
      unfolding dav_visit_children
      dav_visit_children-kept [] l m s h = at_result l m l (same l) h
      dav_visit_children-kept (c ∷ cs) l m s h = elim (Bool-cases l.full) [
        | inl f ↦
            at_result l m l (same l)
              (sym (ap (λ t. t.0) (dav_visit_children_full b has go (c ∷ cs) l s f)) ∙ h)
        | inr f ↦ elim (Result-cases (dav_visit_child b has go c l s).0) [
          | inr (e, k) ↦ absurd (ground (arith, dav_visit_children_failed b has go c cs l s e f k))
          | inl (n, k) ↦ trans l n m (dav_visit_child-kept c l n s k) (
              dav_visit_children-kept cs n m (dav_visit_child b has go c l s).1
                (sym (ap (λ t. t.0) (dav_visit_children_next b has go c cs l n s f k)) ∙ h))
        ]
      ]

    pub dav_visit-kept :
        (b : HttpBucket) (probe : Bytes → Hook → State → Result Fault (List DavEntry) × State)
        (hex_unescape : Bytes → Bytes) (n : ℕ)
        → KeepsDav (dav_visit b probe hex_unescape n)
    unfolding dav_visit
    dav_visit-kept b probe hex_unescape zero dir l m s h = absurd (ground arith)
    dav_visit-kept b probe hex_unescape (suc n) dir l m s h =
        let (hook, l') = dav_take_before l in
        let s' = (probe dir hook s).1 in
        elim (Result-cases (probe dir hook s).0) [
          | inr (e, k) ↦
              trans l l' m (takes l) (unless_vanished-kept e l' m s' (rw (k, dav_visit) at h))
          | inl (entries, k) ↦ trans l l' m (takes l) (
              dav_visit_children-kept b _ _ (dav_visit-kept b probe hex_unescape n) _ l' m s'
                (rw (k, dav_visit) at h))
        ]
