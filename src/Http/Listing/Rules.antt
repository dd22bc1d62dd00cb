-- ===== src/Http/Listing/Rules.antt =====
-- The rules of the WebDAV lister beside those of the SFTP lister.
use gocloud_ext.Common.{
  ◌+◌, ◌==◌, Bytes, Bool, true, false, ◌&&◌, not, List, [], ◌∷◌, ◌++◌, length, take, drop, Option,
  none, some, eqb, has_prefix, index, ◌≡◌, refl, ap, ltb, if◌then◌else◌, arith, Bool-cases,
  Option-cases, inl, inr, pos,
}
use gocloud_ext.Sftp.Emit.{
  ListObject, Lister, le_bytes, add, fold, emit, descend, collapses, page, last_key,
}
use gocloud_ext.Http.Listing.{
  DavLister, dav_add, dav_fold, dav_emit, dav_descend, dav_collapses, dav_page,
}

-- The lister without its hook, as one of the SFTP listing.
abbrev pub plain_lister : DavLister → Lister
plain_lister l = record {
  prefix = l.prefix;
  delimiter = l.delimiter;
  page_size = l.page_size;
  page_token = l.page_token;
  objects = l.objects;
  last_prefix = l.last_prefix;
  full = l.full;
  before = none;
}

dav_add-eq-add :
    (obj : Option ListObject) (l : DavLister)
    → plain_lister (dav_add obj l) ≡ add obj (plain_lister l)
unfolding dav_add add
dav_add-eq-add none l = refl
dav_add-eq-add (some obj) l =
    elim (Bool-cases (not (eqb l.page_token []) && le_bytes obj.key l.page_token)) [
      | inl e ↦ rw e refl
      | inr e ↦ elim (Bool-cases (length l.objects == l.page_size)) [
        | inl z ↦ rw (e, z) refl
        | inr z ↦ rw (e, z) refl
      ]
    ]

dav_fold-eq-fold :
    (dir : Bytes) (l : DavLister) → plain_lister (dav_fold dir l) ≡ fold dir (plain_lister l)
unfolding dav_fold fold
dav_fold-eq-fold dir l = elim (Bool-cases (eqb dir l.last_prefix)) [
  | inl e ↦ rw e refl
  | inr e ↦ rw e (
      dav_add-eq-add (some record { key = dir; mod_time = pos 0; size = pos 0; is_dir = true })
        (record l { last_prefix = dir }))
]

pub dav_emit-eq-emit :
    (key : Bytes) (obj : Option ListObject) (l : DavLister)
    → plain_lister (dav_emit key obj l) ≡ emit key obj (plain_lister l)
unfolding dav_emit emit
dav_emit-eq-emit key obj l = elim (Bool-cases (has_prefix key l.prefix)) [
  | inr p ↦ rw p refl
  | inl p ↦ elim (Bool-cases (eqb l.delimiter [])) [
    | inl d ↦ rw (p, d) (dav_add-eq-add obj l)
    | inr d ↦ elim (Option-cases (index (drop (length l.prefix) key) l.delimiter)) [
      | inl n ↦ rw (p, d, n) (dav_add-eq-add obj l)
      | inr (i, n) ↦
          rw (p, d, n)
            (dav_fold-eq-fold
              (l.prefix ++ take (i + length l.delimiter) (drop (length l.prefix) key)) l)
    ]
  ]
]

dav_descend-eq-descend :
    (key : Bytes) (l : DavLister) → dav_descend key l ≡ descend key (plain_lister l)
unfolding dav_descend descend
dav_descend-eq-descend key l = ground arith

dav_collapses-eq-collapses :
    (key : Bytes) (l : DavLister) → dav_collapses key l ≡ collapses key (plain_lister l)
unfolding dav_collapses collapses
dav_collapses-eq-collapses key l = refl

token_of :
    (full : Bool) (l : List ListObject)
    → (if full && ltb 0 (length l) then last_key l else none) ≡ (if full then last_key l else none)
token_of true [] = refl
token_of true (o ∷ l) = ground arith
token_of false l = refl

-- The two drivers list by the same rules: emit, descend, collapses and page of the WebDAV lister do
-- what those of the SFTP lister do.
pub dav_rules-eq-sftp_rules :
    (key : Bytes) (obj : Option ListObject) (l : DavLister)
    → (plain_lister (dav_emit key obj l) ≡ emit key obj (plain_lister l))
      × (dav_descend key l ≡ descend key (plain_lister l))
      × (dav_collapses key l ≡ collapses key (plain_lister l))
      × (dav_page l ≡ page (plain_lister l))
unfolding dav_page page
dav_rules-eq-sftp_rules key obj l = (
  dav_emit-eq-emit key obj l,
  dav_descend-eq-descend key l,
  dav_collapses-eq-collapses key l,
  ap (λ k. record { objects = l.objects; next_page_token = k }) (token_of l.full l.objects),
)
