-- ===== src/Http/Listing/Walk/Taken.antt =====
-- The BeforeList hook of the WebDAV lister, which is used once.
use gocloud_ext.Common.{
  ◌+◌, pos, Bytes, [], true, ◌++◌, length, take, drop, Option, none, some, ok, eqb, has_prefix,
  index, ◌≡◌, refl, ◌∙◌, arith, Bool-cases, Option-cases, inl, inr,
}
use gocloud_ext.Sftp.Emit.{ListObject, IsAt}
use gocloud_ext.Http.Listing.{DavLister, dav_take_before, dav_add, dav_fold, dav_emit}

-- A lister whose hook is taken keeps none.
abbrev pub StaysTaken : DavLister → DavLister → Type 0
StaysTaken l m = l.before ≡ none → m.before ≡ none

dav_add-before : (obj : Option ListObject) (l : DavLister) → (dav_add obj l).before ≡ l.before
unfolding dav_add
dav_add-before none l = refl
dav_add-before (some o) l = ground arith

dav_fold-before : (dir : Bytes) (l : DavLister) → (dav_fold dir l).before ≡ l.before
unfolding dav_fold
dav_fold-before dir l = elim (Bool-cases (eqb dir l.last_prefix)) [
  | inl e ↦ rw e refl
  | inr e ↦ rw e (
      dav_add-before (some record { key = dir; mod_time = pos 0; size = pos 0; is_dir = true })
        (record l { last_prefix = dir }))
]

dav_emit-before :
    (key : Bytes) (obj : Option ListObject) (l : DavLister) → (dav_emit key obj l).before ≡ l.before
unfolding dav_emit
dav_emit-before key obj l = elim (Bool-cases (has_prefix key l.prefix)) [
  | inr p ↦ rw p refl
  | inl p ↦ elim (Bool-cases (eqb l.delimiter [])) [
    | inl d ↦ rw (p, d) (dav_add-before obj l)
    | inr d ↦ elim (Option-cases (index (drop (length l.prefix) key) l.delimiter)) [
      | inl n ↦ rw (p, d, n) (dav_add-before obj l)
      | inr (i, n) ↦
          rw (p, d, n)
            (dav_fold-before
              (l.prefix ++ take (i + length l.delimiter) (drop (length l.prefix) key)) l)
    ]
  ]
]

pub dav_take_before-before : (l : DavLister) → (dav_take_before l).1.before ≡ none
unfolding dav_take_before
dav_take_before-before l = ground arith

pub taken_hook : (l : DavLister) → l.before ≡ none → ok ≡ (dav_take_before l).0
unfolding dav_take_before
taken_hook l h = rw h refl

pub taken_refl : (l : DavLister) → StaysTaken l l
taken_refl l h = h

pub taken_trans : (l m k : DavLister) → StaysTaken l m → StaysTaken m k → StaysTaken l k
taken_trans l m k f g h = g (f h)

pub taken_emits :
    (key : Bytes) (obj : Option ListObject) (l : DavLister)
    → IsAt key obj
    → StaysTaken l (dav_emit key obj l)
taken_emits key obj l at h = dav_emit-before key obj l ∙ h

pub taken_takes : (l : DavLister) → StaysTaken l (dav_take_before l).1
taken_takes l h = dav_take_before-before l
