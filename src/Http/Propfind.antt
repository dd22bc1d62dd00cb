-- ===== src/Http/Propfind.antt =====
-- propfind, stat and relativePath of blob/httpblob/webdav.go, and Attributes and statObject of
-- blob/httpblob/httpblob.go. The decoder of XML is a parameter, and so are `url_path`, the Path of
-- url.Parse, and the decoders of base64 and hex. White space is that of ASCII; `body` is the
-- constant propfindBody.
pub mod Hrefs
use gocloud_ext.Common.{
  ℕ, ℤ, pos, Bytes, Bool, true, false, not, ◌&&◌, ◌||◌, ◌==◌, leb_ℤ, ltb_ℤ, if◌then◌else◌, List, [],
  ◌∷◌, length, drop, take, ◌-◌, ◌+◌, Option, none, some, Result, ok, err, codes, eqb, has_prefix,
  has_suffix, trim_prefix, index,
}
use gocloud_ext.Decimal.{format_padded, parse_int}
use gocloud_ext.Sftp.Emit.{slash}
use gocloud_ext.Sftp.Files.{Xattrs}
use gocloud_ext.Http.{
  Body, Fault, Headers, Method, Request, fault_of, get_header, is_redirect, set_header, with_key,
}
use gocloud_ext.Http.Client.{Client, HttpBucket}
use gocloud_ext.Http.Paths.{new_request, no_headers, object_url}
use gocloud_ext.Http.Retry.{do_request}
use gocloud_ext.Http.Bodies.{is_space, trim_space}
use gocloud_ext.Http.Object.{
  content_type_for, fetch_attrs, first_non_empty, head_object, parse_mod_time,
}

-- strings.Fields
fields_from : Bytes → List Bytes × Bytes
fields_from [] = ([], [])
fields_from (x ∷ s) =
    let (rest, word) = fields_from s in
    if is_space x then (if eqb word [] then rest else word ∷ rest, []) else (rest, x ∷ word)

fields : Bytes → List Bytes
unfolding fields_from
fields s = let (rest, word) = fields_from s in if eqb word [] then rest else word ∷ rest

-- davProp and davPropStat
pub record DavPropStat : Type 0 where
  pub is_collection : Bool
  pub get_content_length : Bytes
  pub get_last_modified : Bytes
  pub get_etag : Bytes
  pub get_content_type : Bytes
  pub status : Bytes

pub record DavResponse : Type 0 where
  pub href : Bytes
  pub prop_stat : List DavPropStat

pub record DavEntry : Type 0 where
  pub path : Bytes
  pub is_collection : Bool
  pub size : ℤ
  pub mod_time : Bytes
  pub etag : Bytes
  pub content_type : Bytes

is_success : Option ℤ → Bool
is_success none = false
is_success (some n) = leb_ℤ (pos 200) n && ltb_ℤ n (pos 300)

-- davPropStat.ok
unfoldable pub is_found : DavPropStat → Bool
unfolding fields is_success
is_found ps = elim (fields ps.status) [
  | [] ↦ false
  | version ∷ rest ↦ elim rest [ [] ↦ false | code ∷ words ↦ is_success (parse_int code) ]
]

-- davEntry.header
unfoldable pub entry_header : DavEntry → Headers
entry_header e =
    let etag = if eqb e.etag [] then no_headers else set_header (codes "ETag") e.etag no_headers in
    let dated =
      if eqb e.mod_time [] then etag else set_header (codes "Last-Modified") e.mod_time etag in
    let typed =
      if eqb e.content_type []
      then dated
      else set_header (codes "Content-Type") e.content_type dated in
    if e.is_collection
    then typed
    else set_header (codes "Content-Length") (format_padded 0 e.size) typed

-- strings.TrimSuffix of a slash
trim_slash : Bytes → Bytes
trim_slash s = if has_suffix s (slash ∷ []) then take (length s - 1) s else s

unfoldable pub relative_path : (Bytes → Option Bytes) → HttpBucket → Bytes → Option Bytes
unfolding trim_slash
relative_path url_path b href = elim (url_path (trim_space href)) [
  | none ↦ none
  | some p ↦
      let below = trim_slash (trim_prefix (drop (length b.base_path) p) (slash ∷ [])) in
      if not (has_prefix p b.base_path) then none else if eqb below [] then none else some below
]

-- `if v != "" { field = strings.TrimSpace(v) }`
abbrev pub unless_blank : Bytes → Bytes → Bytes
unless_blank v field = if eqb v [] then field else trim_space v

-- The properties of one propstat, added to an entry.
add_props : DavEntry → DavPropStat → DavEntry
add_props e ps =
    if is_found ps
    then record e {
      is_collection = if ps.is_collection then true else e.is_collection;
      size = elim (parse_int (trim_space ps.get_content_length)) [ none ↦ e.size | some n ↦ n ];
      mod_time = unless_blank ps.get_last_modified e.mod_time;
      etag = unless_blank ps.get_etag e.etag;
      content_type = unless_blank ps.get_content_type e.content_type;
    }
    else e

add_all_props : DavEntry → List DavPropStat → DavEntry
unfolding add_props
add_all_props e [] = e
add_all_props e (ps ∷ l) = add_all_props (add_props e ps) l

-- The loop over the responses.
unfoldable pub dav_entries : (Bytes → Option Bytes) → HttpBucket → List DavResponse → List DavEntry
unfolding relative_path add_all_props
dav_entries url_path b [] = []
dav_entries url_path b (r ∷ l) = elim (relative_path url_path b r.href) [
  | none ↦ dav_entries url_path b l
  | some p ↦
      add_all_props
        record {
          path = p;
          is_collection = false;
          size = pos 0;
          mod_time = [];
          etag = [];
          content_type = [];
        }
        r.prop_stat
      ∷ dav_entries url_path b l
]

-- The 404 of stat.
abbrev pub not_there : Bytes → Bytes → Fault
not_there url body = fault_of record {
  method = some Method.propfind;
  url = url;
  key = [];
  status_code = 404;
  body = body;
  code = none;
}

module _ (c : Client) (b : HttpBucket) (url_path : Bytes → Option Bytes)
    (decode_xml : Body → Result Fault (List DavResponse)) where
  open c use {State}

  unfoldable pub propfind :
      Bytes
      → Bytes
      → Bytes
      → (Request → Result Fault Request)
      → State
      → Result Fault (List DavEntry) × State
  unfolding new_request dav_entries
  propfind body url depth hook s = elim (new_request b Method.propfind url body) [
    | err e ↦ (err e, s)
    | ok req ↦
        elim (hook (record req {
          header = set_header (codes "Depth") depth (
              set_header (codes "Content-Type") (codes "application/xml; charset=utf-8")
                req.header);
        })) [
          | err e ↦ (err e, s)
          | ok r ↦
              let (answer, s') = do_request c b.max_retries (ok (record r { body = body })) s in
              elim answer [
                | err e ↦ (err e, s')
                | ok resp ↦ elim (decode_xml resp.body) [
                  | err e ↦ (err e, s')
                  | ok l ↦ (ok (dav_entries url_path b l), s')
                ]
              ]
        ]
  ]

  unfoldable pub stat : Bytes → Bytes → State → Result Fault DavEntry × State
  unfolding propfind
  stat body url s =
      let (found, s') = propfind body url (codes "0") ok s in
      elim found [
        | err e ↦ (
          err (
              if is_redirect e
              then not_there url (codes "the key names a collection, not a blob")
              else e),
          s',
        )
        | ok l ↦ elim l [
          | [] ↦ (err (not_there url (codes "no properties returned")), s')
          | e ∷ rest ↦ (
            if e.is_collection
                then err (not_there url (codes "the key names a collection, not a blob"))
                else ok e,
            s',
          )
        ]
      ]

  unfoldable pub stat_object : Bytes → Bytes → State → Result Fault (Headers × ℤ) × State
  unfolding stat head_object entry_header
  stat_object body url s =
      let (found, s') = stat body url s in
      if b.webdav
      then elim found [ err e ↦ (err e, s') | ok e ↦ (ok (entry_header e, e.size), s') ]
      else head_object c b url s

-- strings.Split at commas
split_comma : Bytes → List Bytes
split_comma [] = [] ∷ []
split_comma (x ∷ s) =
    let rest = split_comma s in
    if x == 44 then [] ∷ rest else elim rest [ [] ↦ (x ∷ []) ∷ [] | seg ∷ segs ↦ (x ∷ seg) ∷ segs ]

-- strings.EqualFold with "md5"
is_md5 : Bytes → Bool
is_md5 s = eqb s (codes "md5") || eqb s (codes "Md5") || eqb s (codes "mD5") || eqb s (codes "MD5")

-- A decoded digest, where it has the length of an MD5.
digest : Option Bytes → Option Bytes
digest none = none
digest (some d) = if length d == 16 then some d else none

-- One part of a Digest header.
part_digest : (Bytes → Option Bytes) → Bytes → Option Bytes
unfolding is_md5 digest
part_digest base64 part =
    let s = trim_space part in
    elim (index s (codes "=")) [
      | none ↦ none
      | some i ↦
          if is_md5 (trim_space (take i s))
          then digest (base64 (trim_space (drop (i + 1) s)))
          else none
    ]

first_digest : (Bytes → Option Bytes) → List Bytes → Option Bytes
unfolding part_digest
first_digest base64 [] = none
first_digest base64 (p ∷ l) = elim (part_digest base64 p) [
  | some d ↦ some d
  | none ↦ first_digest base64 l
]

digest_values : (Bytes → Option Bytes) → List Bytes → Bytes
unfolding first_digest split_comma
digest_values base64 [] = []
digest_values base64 (v ∷ l) = elim (first_digest base64 (split_comma v)) [
  | some d ↦ d
  | none ↦ digest_values base64 l
]

-- parseMD5, with no bytes for nil
unfoldable pub parse_md5 : (Bytes → Option Bytes) → (Bytes → Option Bytes) → Headers → Bytes
unfolding digest digest_values
parse_md5 base64 hex h =
    let v = get_header h (codes "Content-MD5") in
    let values = digest_values base64 (h (codes "Digest")) in
    if eqb v [] then values else elim (digest (base64 v)) [
      | some d ↦ d
      | none ↦ elim (digest (hex v)) [ some d ↦ d | none ↦ values ]
    ]

-- driver.Attributes
pub record HttpAttributes : Type 0 where
  pub attrs : Xattrs
  pub mod_time : Option ℤ
  pub size : ℤ
  pub etag : Bytes

-- The attributes of the sidecar, and where it has none those of the headers.
merge_attrs : (Bytes → Option Bytes) → (Bytes → Option Bytes) → Xattrs → Headers → Xattrs
unfolding first_non_empty content_type_for parse_md5
merge_attrs base64 hex xa h = record {
  cache_control = first_non_empty (xa.cache_control ∷ get_header h (codes "Cache-Control") ∷ []);
  content_disposition =
      first_non_empty (xa.content_disposition ∷ get_header h (codes "Content-Disposition") ∷ []);
  content_encoding =
      first_non_empty (xa.content_encoding ∷ get_header h (codes "Content-Encoding") ∷ []);
  content_language =
      first_non_empty (xa.content_language ∷ get_header h (codes "Content-Language") ∷ []);
  content_type = content_type_for xa h;
  metadata = xa.metadata;
  md5 = first_non_empty (xa.md5 ∷ parse_md5 base64 hex h ∷ []);
}

module _ (c : Client) (b : HttpBucket) (url_path : Bytes → Option Bytes)
    (decode_xml : Body → Result Fault (List DavResponse)) where
  open c use {State}

  unfoldable pub http_attributes :
      ((List ℕ → ℕ → Bool) → Bytes → Bytes)
      → (Bytes → Option Xattrs)
      → (Bytes → Option Bytes)
      → (Bytes → Option Bytes)
      → Bytes
      → Bytes
      → State
      → Result Fault HttpAttributes × State
  unfolding object_url fetch_attrs stat_object merge_attrs parse_mod_time
  http_attributes hex_escape decode base64 hex body key s = elim (object_url hex_escape b key) [
    | err e ↦ (err e, s)
    | ok url ↦
        let (attrs, s1) = fetch_attrs c b decode url s in
        let (found, s2) = stat_object c b url_path decode_xml body url s1 in
        elim found [
          | err e ↦ (err (with_key e key), s2)
          | ok (h, size) ↦ elim attrs [
            | err e ↦ (err (with_key e key), s2)
            | ok xa ↦ (
              ok (record {
                attrs = merge_attrs base64 hex xa h;
                mod_time = parse_mod_time b h;
                size = size;
                etag = get_header h (codes "ETag");
              }),
              s2,
            )
          ]
        ]
  ]
