-- ===== src/Http/Listing/Walk/Steps.antt =====
-- The loops of the WebDAV walk, one step at a time.
use gocloud_ext.Common.{
  ℕ, Bytes, Bool, true, false, List, [], ◌∷◌, Option, Result, ok, err, ◌≡◌, refl,
}
use gocloud_ext.Http.{Body, Fault}
use gocloud_ext.Http.Client.{Client, HttpBucket}
use gocloud_ext.Http.Propfind.{DavResponse}
use gocloud_ext.Http.Listing.{DavLister, DavChild}
use gocloud_ext.Http.Listing.Walk.{
  DavError, DavListOptions, dav_visit_child, dav_visit_children, dav_visit, start_dav_lister,
  dav_root, dav_finish, dav_list_paged, list_collection,
}

module _ {State : Type 0} (b : HttpBucket) (has : Bytes → State → Result DavError Bool × State)
    (go : Bytes → DavLister → State → Result DavError DavLister × State) where
  pub dav_visit_children_full :
      (cs : List DavChild) (l : DavLister) (s : State)
      → l.full ≡ true
      → dav_visit_children b has go cs l s ≡ (ok l, s)
  unfolding dav_visit_children
  dav_visit_children_full [] l s f = refl
  dav_visit_children_full (c ∷ cs) l s f = simp f refl

  pub dav_visit_children_next :
      (c : DavChild) (cs : List DavChild) (l n : DavLister) (s : State)
      → l.full ≡ false
      → (dav_visit_child b has go c l s).0 ≡ ok n
      → dav_visit_children b has go (c ∷ cs) l s
        ≡ dav_visit_children b has go cs n (dav_visit_child b has go c l s).1
  unfolding dav_visit_children
  dav_visit_children_next c cs l n s f k = simp (f, k) refl

  pub dav_visit_children_failed :
      (c : DavChild) (cs : List DavChild) (l : DavLister) (s : State) (e : DavError)
      → l.full ≡ false
      → (dav_visit_child b has go c l s).0 ≡ err e
      → (dav_visit_children b has go (c ∷ cs) l s).0 ≡ err e
  unfolding dav_visit_children
  dav_visit_children_failed c cs l s e f k = simp (f, k) refl

module _ (c : Client) (b : HttpBucket) (url_path : Bytes → Option Bytes)
    (decode_xml : Body → Result Fault (List DavResponse)) (body : Bytes) where
  pub dav_list_paged_webdav :
      (hex_unescape : Bytes → Bytes) (hex_escape : (List ℕ → ℕ → Bool) → Bytes → Bytes) (fuel : ℕ)
      (o : DavListOptions) (s : c.State)
      → b.webdav ≡ true
      → dav_list_paged c b url_path decode_xml body hex_unescape hex_escape fuel o s
        ≡ dav_finish (
            dav_visit b
              (list_collection c b url_path decode_xml body)
              hex_unescape
              fuel
              (dav_root hex_escape o.prefix)
              (start_dav_lister o)
              s)
  unfolding dav_list_paged
  dav_list_paged_webdav hex_unescape hex_escape fuel o s w = simp w refl
