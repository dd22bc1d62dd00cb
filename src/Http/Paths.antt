-- ===== src/Http/Paths.antt =====
-- escapedPath, objectURL, pathURL, collectionURL and newRequest of blob/httpblob/httpblob.go.
use gocloud_ext.Common.{
  ℕ, Bytes, Bool, not, ◌&&◌, if◌then◌else◌, List, [], ◌∷◌, ◌++◌, none, some, Result, ok, err, codes,
  eqb, has_prefix, has_suffix, contains,
}
use gocloud_ext.Blob.{invalid_argument}
use gocloud_ext.Escape.{key_escape}
use gocloud_ext.Sftp.{attrs_ext, temp_infix}
use gocloud_ext.Http.{Fault, Headers, Method, Request, driver_fault, set_header, add_header}
use gocloud_ext.Http.Client.{HttpBucket}

unfoldable pub escaped_path : ((List ℕ → ℕ → Bool) → Bytes → Bytes) → Bytes → Result Fault Bytes
escaped_path hex_escape key =
    if eqb key []
    then err (driver_fault invalid_argument)
    else if has_suffix key attrs_ext
    then err (driver_fault invalid_argument)
    else if contains key temp_infix
    then err (driver_fault invalid_argument)
    else if has_prefix (key_escape hex_escape key) (codes "/")
    then err (driver_fault invalid_argument)
    else ok (key_escape hex_escape key)

unfoldable pub path_url : HttpBucket → Bytes → Bytes
path_url b p = if eqb p [] then b.base_url else b.url_with_path (b.base_path ++ (codes "/" ++ p))

unfoldable pub collection_url : HttpBucket → Bytes → Bytes
unfolding path_url
collection_url b p =
    if eqb p [] then b.url_with_path (b.base_path ++ codes "/") else path_url b p ++ codes "/"

unfoldable pub object_url :
    ((List ℕ → ℕ → Bool) → Bytes → Bytes) → HttpBucket → Bytes → Result Fault Bytes
unfolding path_url escaped_path
object_url hex_escape b key = elim (escaped_path hex_escape key) [
  | err e ↦ err e
  | ok p ↦ ok (path_url b p)
]

-- The first value of a custom header is set, the others are added.
add_values : Bytes → List Bytes → Headers → Headers
add_values k [] h = h
add_values k (v ∷ vs) h = add_values k vs (add_header k v h)

custom_values : Bytes → List Bytes → Headers → Headers
unfolding add_values
custom_values k [] h = h
custom_values k (v ∷ vs) h = add_values k vs (set_header k v h)

custom_headers : List (Bytes × List Bytes) → Headers → Headers
unfolding custom_values
custom_headers [] h = h
custom_headers ((k, vs) ∷ l) h = custom_headers l (custom_values k vs h)

abbrev pub no_headers : Headers
no_headers = λ j. []

authorized : HttpBucket → Headers
authorized b =
    if not (eqb b.auth_token [])
    then set_header (codes "Authorization") (codes "Bearer " ++ b.auth_token) no_headers
    else if eqb b.basic_auth_user [] && eqb b.basic_auth_password []
    then no_headers
    else set_header (codes "Authorization") (b.basic b.basic_auth_user b.basic_auth_password)
        no_headers

unfoldable pub new_request : HttpBucket → Method → Bytes → Bytes → Result Fault Request
unfolding authorized custom_headers
new_request b method url body = elim (b.url_failure url) [
  | some e ↦ err e
  | none ↦ ok (record {
    method = method;
    url = url;
    header = custom_headers b.headers (authorized b);
    body = body;
  })
]
