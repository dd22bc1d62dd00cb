-- ===== src/Http/Examples/Lists.antt =====
-- The WebDAV listing of a small tree: a blob `a`, and a collection `d` with a blob `x`. The server's
-- answer carries the URL that was asked for, which the decoder of XML looks up.
use mathlib.Core.Path.{subst}
use gocloud_ext.Common.{
  ℕ, suc, pos, ◌<◌, Bytes, Bool, true, false, List, [], ◌∷◌, none, some, Result, ok, err, codes,
  eqb, eqb_iff, if◌then◌else◌, ◌≡◌, ◌≢◌, refl, sym, ap, ◌∙◌, arith, Bool-cases, inl, inr,
  has_prefix, has_suffix, contains, trim_prefix, last_index, lt_bytes, All,
}
use gocloud_ext.Sftp.Emit.{ListObject, emit, descend, collapses, page}
use gocloud_ext.Http.{Body, ends, more, Fault}
use gocloud_ext.Http.Client.{Client, HttpBucket}
use gocloud_ext.Http.Paths.{new_request, no_headers, collection_url}
use gocloud_ext.Http.Retry.{do_request}
use gocloud_ext.Decimal.{parse_int}
use gocloud_ext.Http.Bodies.{trim_space}
use gocloud_ext.Http.Object.{parse_mod_time}
use gocloud_ext.Http.Propfind.{
  DavEntry, DavResponse, entry_header, propfind, relative_path, dav_entries, is_found,
}
use gocloud_ext.Http.Listing.{
  DavLister, dav_take_before, dav_emit, dav_descend, dav_collapses, dav_page, dav_is_internal_path,
}
use gocloud_ext.Http.Listing.Rules.{plain_lister, dav_rules-eq-sftp_rules}
use gocloud_ext.Http.Listing.Walk.{
  out_of_fuel, DavListOptions, dav_list_paged, dav_root, list_collection, start_dav_lister,
}
use gocloud_ext.Http.Listing.Walk.Pages.{IsDavBounded, dav_list_paged-bounds}
use gocloud_ext.Http.Listing.Walk.Ends.{IsTree, IsBelow, dav_list_paged_ends}

abbrev server : Client
server = record {
  State = ℕ;
  ctx_err = λ s. none;
  send = λ req s. (
    ok (record {
      status_code = 207;
      header = no_headers;
      content_length = pos 0;
      body = ends req.url none;
    }),
    suc s,
  );
  pause = λ s. (pos 1, s);
  sleep = λ d s. (none, s);
  until = λ v s. none;
}

abbrev bucket : HttpBucket
bucket = record {
  max_retries = 3;
  auth_token = [];
  basic_auth_user = [];
  basic_auth_password = [];
  headers = [];
  webdav = true;
  metadata_in_sidecar = true;
  base_path = [];
  base_url = [];
  url_with_path = λ p. p;
  url_failure = λ u. none;
  parse_time = λ v. none;
  basic = λ u p. [];
}

abbrev found : Bool → Bytes → DavResponse
found is_collection href = record {
  href = href;
  prop_stat =
      record {
        is_collection = is_collection;
        get_content_length = codes "7";
        get_last_modified = [];
        get_etag = [];
        get_content_type = [];
        status = codes "HTTP/1.1 200 OK";
      }
      ∷ [];
}

abbrev tree_at : Bytes → List DavResponse
tree_at url =
    if eqb url (codes "/")
    then found true (codes "/") ∷ found false (codes "/a") ∷ found true (codes "/d/") ∷ []
    else if eqb url (codes "/d/")
    then found true (codes "/d/") ∷ found false (codes "/d/x") ∷ []
    else []

abbrev decode : Body → Result Fault (List DavResponse)
decode (ends d e) = ok (tree_at d)
decode (more d b) = ok []

abbrev options : DavListOptions
options = record { prefix = []; delimiter = []; page_size = 0; page_token = []; before_list = none }

abbrev blob : Bytes → ListObject
blob key = record { key = key; mod_time = pos 0; size = pos 7; is_dir = false }

listed : (dav_list_paged server bucket some decode [] (λ s. s) (λ test s. s) 2 options 0) ≡ (
  ok (record { objects = blob (codes "a") ∷ blob (codes "d/x") ∷ []; next_page_token = none }),
  2,
)
unfolding dav_list_paged propfind do_request new_request collection_url relative_path dav_entries
    is_found dav_take_before dav_emit dav_descend dav_page eqb has_prefix has_suffix contains
    trim_prefix dav_is_internal_path parse_mod_time entry_header last_index trim_space parse_int
    lt_bytes dav_collapses
listed = refl

quiet :
    (dav_list_paged server bucket some decode [] (λ s. s) (λ test s. s) 2 options 0).0
    ≡ ok (record { objects = blob (codes "a") ∷ blob (codes "d/x") ∷ []; next_page_token = none })
quiet = ap (λ t. t.0) listed

dav_list_paged-bounds_example :
    IsDavBounded options
      (record { objects = blob (codes "a") ∷ blob (codes "d/x") ∷ []; next_page_token = none })
dav_list_paged-bounds_example =
    dav_list_paged-bounds server bucket some decode [] (λ s. s) (λ test s. s) 2 options 0
      (record { objects = blob (codes "a") ∷ blob (codes "d/x") ∷ []; next_page_token = none })
      quiet

-- The rank of a collection, by its URL.
abbrev rank_of : Bytes → ℕ
rank_of url = if eqb url (codes "/") then 2 else if eqb url (codes "/d/") then 1 else 0

abbrev rank : Bytes → ℕ
rank dir = rank_of (collection_url bucket dir)

abbrev entry : Bool → Bytes → DavEntry
entry is_collection path = record {
  path = path;
  is_collection = is_collection;
  size = pos 7;
  mod_time = [];
  etag = [];
  content_type = [];
}

probed :
    (dir : Bytes) (s : ℕ)
    → (list_collection server bucket some decode [] dir ok s).0
      ≡ ok (dav_entries some bucket (tree_at (collection_url bucket dir)))
unfolding propfind do_request new_request
probed dir s = refl

rank_root :
    (dir url : Bytes) → collection_url bucket dir ≡ url → eqb url (codes "/") ≡ true → rank dir ≡ 2
rank_root dir url same e = ap rank_of same ∙ (let z : rank_of url ≡ 2 = rw e refl in z)

rank_below :
    (dir url : Bytes)
    → collection_url bucket dir ≡ url
    → eqb url (codes "/") ≡ false
    → eqb url (codes "/d/") ≡ true
    → rank dir ≡ 1
rank_below dir url same e f = ap rank_of same ∙ (let z : rank_of url ≡ 1 = rw (e, f) refl in z)

ranks : (rank (codes "a") ≡ 0) × (rank (codes "d") ≡ 1) × (rank (codes "d/x") ≡ 0)
unfolding collection_url eqb
ranks = (refl, refl, refl)

entries :
    (dav_entries some bucket (tree_at (codes "/"))
      ≡ entry false (codes "a") ∷ entry true (codes "d") ∷ [])
    × (dav_entries some bucket (found true (codes "/d/") ∷ found false (codes "/d/x") ∷ [])
        ≡ entry true (codes "d") ∷ entry false (codes "d/x") ∷ [])
unfolding dav_entries relative_path trim_space eqb has_prefix has_suffix trim_prefix is_found
    parse_int
entries = (refl, refl)

named_d : (dir : Bytes) → collection_url bucket dir ≡ codes "/d/" → codes "d" ≡ dir
unfolding collection_url eqb
named_d [] h = absurd (ground arith)
named_d (x ∷ []) h = ground arith
named_d (x ∷ y ∷ []) h = absurd (ground arith)
named_d (x ∷ y ∷ z ∷ r) h = absurd (ground arith)

below :
    (dir url : Bytes)
    → collection_url bucket dir ≡ url
    → All (IsBelow rank dir) (dav_entries some bucket (tree_at url))
unfolding dav_entries
below dir url same = elim (Bool-cases (eqb url (codes "/"))) [
  | inl e ↦
      let r = rank_root dir url same e in
      let all : All (IsBelow rank dir) (entry false (codes "a") ∷ entry true (codes "d") ∷ []) =
        (inr (omega (arith, r, ranks.0)), (inr (omega (arith, r, ranks.1)), tt)) in
      let list : tree_at url ≡ tree_at (codes "/") = ap tree_at ((eqb_iff url (codes "/")).0 e) in
      subst (All (IsBelow rank dir)) (sym (ap (dav_entries some bucket) list ∙ entries.0)) all
  | inr e ↦ elim (Bool-cases (eqb url (codes "/d/"))) [
    | inl f ↦
        let r = rank_below dir url same e f in
        let d = named_d dir (same ∙ (eqb_iff url (codes "/d/")).0 f) in
        let all : All (IsBelow rank dir) (entry true (codes "d") ∷ entry false (codes "d/x") ∷ []) =
          (inl d, (inr (omega (arith, r, ranks.2)), tt)) in
        let list : tree_at url ≡ found true (codes "/d/") ∷ found false (codes "/d/x") ∷ [] =
          rw (e, f) refl in
        subst (All (IsBelow rank dir)) (sym (ap (dav_entries some bucket) list ∙ entries.1)) all
    | inr f ↦
        let list : tree_at url ≡ [] = rw (e, f) refl in
        subst (All (IsBelow rank dir)) (sym (ap (dav_entries some bucket) list)) tt
  ]
]

tree : IsTree (list_collection server bucket some decode []) rank ok
tree dir s l h =
    let same : dav_entries some bucket (tree_at (collection_url bucket dir)) ≡ l =
      ap (λ t. elim t [ ok a ↦ a | err e ↦ [] ]) (sym (probed dir s) ∙ h) in
    subst (All (IsBelow rank dir)) same (below dir (collection_url bucket dir) refl)

first :
    IsTree
      (list_collection server bucket some decode [])
      rank
      (dav_take_before (start_dav_lister options)).0
unfolding dav_take_before start_dav_lister
first = tree

deep : rank (dav_root (λ test s. s) []) < 3
unfolding dav_root last_index collection_url eqb has_prefix
deep = omega arith

dav_list_paged_ends_example :
    (dav_list_paged server bucket some decode [] (λ s. s) (λ test s. s) 3 options 0).0
    ≢ err out_of_fuel
dav_list_paged_ends_example =
    dav_list_paged_ends server bucket some decode [] (λ s. s) (λ test s. s) rank 3 options 0 tree
      first deep

abbrev lister : DavLister
lister = record {
  prefix = codes "d";
  delimiter = codes "/";
  page_size = 1;
  page_token = [];
  before = none;
  objects = [];
  last_prefix = [];
  full = false;
}

dav_rules-eq-sftp_rules_example :
    (plain_lister (dav_emit (codes "d/x") (some (blob (codes "d/x"))) lister)
      ≡ emit (codes "d/x") (some (blob (codes "d/x"))) (plain_lister lister))
    × (dav_descend (codes "d/x") lister ≡ descend (codes "d/x") (plain_lister lister))
    × (dav_collapses (codes "d/x") lister ≡ collapses (codes "d/x") (plain_lister lister))
    × (dav_page lister ≡ page (plain_lister lister))
dav_rules-eq-sftp_rules_example =
    dav_rules-eq-sftp_rules (codes "d/x") (some (blob (codes "d/x"))) lister
