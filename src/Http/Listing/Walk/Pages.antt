-- ===== src/Http/Listing/Walk/Pages.antt =====
-- The pages that the WebDAV walk returns.
use mathlib.Core.Path.{subst}
use gocloud_ext.Common.{
  ℕ, ◌≤◌, Bytes, Bool, List, [], All, length, Option, none, Result, ok, err, ◌≡◌, refl, sym, ap,
  ◌∙◌, arith, Bool-cases, Option-cases, inl, inr, ◌⊎◌,
}
use gocloud_ext.Sftp.Emit.{Lister, ListObject, IsAt, ListPage, page, last_key}
use gocloud_ext.Sftp.Emit.Pages.{IsListed, IsPage, IsStep, emit-IsStep}
use gocloud_ext.Sftp.Walk.Pages.{IsStep-trans}
use gocloud_ext.Http.{Body, Fault}
use gocloud_ext.Http.Client.{Client, HttpBucket}
use gocloud_ext.Http.Propfind.{DavResponse}
use gocloud_ext.Http.Listing.{DavLister, dav_take_before, dav_emit, dav_page}
use gocloud_ext.Http.Listing.Rules.{plain_lister, dav_emit-eq-emit, dav_rules-eq-sftp_rules}
use gocloud_ext.Http.Listing.Walk.Kept.{ListerResult, dav_visit-kept}
use gocloud_ext.Http.Listing.Walk.Steps.{dav_list_paged_webdav}
use gocloud_ext.Http.Listing.Walk.{
  DavListOptions, dav_visit, dav_limit, start_dav_lister, dav_finish, dav_list_paged, dav_root,
  list_collection,
}

-- A step of the lister, seen without its hook.
abbrev pub IsDavStep : DavLister → DavLister → Type 0
IsDavStep l m = IsStep (plain_lister l) (plain_lister m)

dav_emit-IsStep :
    (key : Bytes) (obj : Option ListObject) (l : DavLister)
    → IsAt key obj
    → IsPage (plain_lister l)
    → IsDavStep l (dav_emit key obj l)
dav_emit-IsStep key obj l at p =
    subst (λ t. IsStep (plain_lister l) t) (sym (dav_emit-eq-emit key obj l))
      (emit-IsStep key obj (plain_lister l) at p)

dav_take_before-IsStep :
    (l : DavLister) → IsPage (plain_lister l) → IsDavStep l (dav_take_before l).1
unfolding dav_take_before
dav_take_before-IsStep l p = elim (Option-cases l.before) [
  | inl e ↦ rw e ((refl, refl, refl, refl), p)
  | inr (r, e) ↦ rw e ((refl, refl, refl, refl), p)
]

-- A page stays a page.
abbrev Stays : DavLister → DavLister → Type 0
Stays l m = IsPage (plain_lister l) → IsDavStep l m

Stays-trans : (l m k : DavLister) → Stays l m → Stays m k → Stays l k
Stays-trans l m k f g p =
    let s = f p in IsStep-trans (plain_lister l) (plain_lister m) (plain_lister k) s (g s.1)

-- What a page satisfies for a request.
abbrev pub IsDavBounded : DavListOptions → ListPage → Type 0
IsDavBounded o p =
    (length p.objects ≤ dav_limit o)
    × All (IsListed o.prefix o.page_token) p.objects
    × ((p.next_page_token ≡ none)
        ⊎ ((length p.objects ≡ dav_limit o) × (p.next_page_token ≡ last_key p.objects)))

start_dav_lister-IsPage : (o : DavListOptions) → IsPage (plain_lister (start_dav_lister o))
unfolding start_dav_lister
start_dav_lister-IsPage o = (omega arith, (λ f. absurd (ground arith)), tt)

page_bounded :
    (o : DavListOptions) (l : Lister)
    → IsStep (plain_lister (start_dav_lister o)) l
    → IsDavBounded o (page l)
unfolding start_dav_lister page
page_bounded o l ((p, d, n, t), (size, full, listed)) = (
  rw (sym n) size,
  rw (sym p, sym t) listed,
  elim (Bool-cases l.full) [ inl f ↦ inr (full f ∙ n, rw f refl) | inr f ↦ inl (rw f refl) ],
)

module _ {State : Type 0} where
  dav_finish-ok :
      (r : ListerResult × State) (p : ListPage)
      → (dav_finish r).0 ≡ ok p
      → (l : DavLister) × (r.0 ≡ ok l) × (dav_page l ≡ p)
  unfolding dav_finish
  dav_finish-ok (ok l, s) p h = (l, refl, cc)
  dav_finish-ok (err e, s) p h = absurd (ground arith)

module _ (c : Client) (b : HttpBucket) (url_path : Bytes → Option Bytes)
    (decode_xml : Body → Result Fault (List DavResponse)) (body : Bytes) where
  -- The page that ListPaged returns holds at most PageSize results (1000, where PageSize is 0); every
  -- one has the prefix and a key above the page token; and a next token is given only with a page of
  -- that size, of which it is the last key.
  pub dav_list_paged-bounds :
      (hex_unescape : Bytes → Bytes) (hex_escape : (List ℕ → ℕ → Bool) → Bytes → Bytes) (fuel : ℕ)
      (o : DavListOptions) (s : c.State) (p : ListPage)
      → (dav_list_paged c b url_path decode_xml body hex_unescape hex_escape fuel o s).0 ≡ ok p
      → IsDavBounded o p
  unfolding dav_list_paged
  dav_list_paged-bounds hex_unescape hex_escape fuel o s p h = elim (Bool-cases b.webdav) [
    | inr w ↦ absurd (let z = rw w at h in ground arith)
    | inl w ↦
        let probe = list_collection c b url_path decode_xml body in
        let root = dav_root hex_escape o.prefix in
        let walked = dav_visit b probe hex_unescape fuel root (start_dav_lister o) s in
        let (l, done, same) = dav_finish-ok walked p (
          sym (
            ap (λ t. t.0)
              (dav_list_paged_webdav c b url_path decode_xml body hex_unescape hex_escape fuel o s
                w))
          ∙ h) in
        let step =
          dav_visit-kept Stays (λ m q. ((refl, refl, refl, refl), q)) Stays-trans
            (λ key obj m at. dav_emit-IsStep key obj m at) dav_take_before-IsStep b probe
            hex_unescape fuel root (start_dav_lister o) l s done (start_dav_lister-IsPage o) in
        let (_, _, _, paged) = dav_rules-eq-sftp_rules [] none l in
        subst (IsDavBounded o) (sym paged ∙ same) (page_bounded o (plain_lister l) step)
  ]
