-- ===== src/Http/Writes.antt =====
-- The writer, Copy and Delete of blob/httpblob/httpblob.go, `move` and copyOne of
-- blob/httpblob/webdav.go, and putAttrs of blob/httpblob/attrs.go. The PUT, whose body is a pipe, is
-- sent where Close waits for it; `aborted` is what an interrupted PUT leaves on the server. The context
-- of cleanup never ends. JSON, base64 and MD5 are parameters, `random` is the temporary name or the
-- error of crypto/rand, and a hook answers with its error or with the request that it leaves.
pub mod Published
use gocloud_ext.Common.{
  ℕ, Bytes, Bool, true, false, not, ◌&&◌, leb, if◌then◌else◌, List, [], ◌∷◌, ◌++◌, take, Option,
  none, some, Result, ok, err, codes, eqb,
}
use gocloud_ext.Blob.{is_not_found, unimplemented}
use gocloud_ext.Sftp.{attrs_ext, temp_infix}
use gocloud_ext.Sftp.Files.{Xattrs}
use gocloud_ext.Http.{
  Fault, Headers, Method, Request, Response, driver_fault, fault_code, fault_of, new_error,
  set_header, with_key,
}
use gocloud_ext.Http.Client.{Client, HttpBucket}
use gocloud_ext.Http.Paths.{escaped_path, new_request, object_url, path_url}
use gocloud_ext.Http.Retry.{do_request}
use gocloud_ext.Http.Object.{use_sidecar}
use gocloud_ext.Http.Collections.{Known, ensure_collections}

abbrev pub overwrite_header : Bool → Bytes
overwrite_header true = codes "T"
overwrite_header false = codes "F"

abbrev pub with_headers : (Headers → Headers) → Result Fault Request → Result Fault Request
with_headers f (err e) = err e
with_headers f (ok req) = ok (record req { header = f req.header })

-- The request of `move`.
unfoldable pub move_request : HttpBucket → Bytes → Bytes → Bool → Result Fault Request
unfolding new_request
move_request b src dst overwrite =
    with_headers
      (λ h.
        set_header (codes "Overwrite") (overwrite_header overwrite)
          (set_header (codes "Destination") dst h))
      (new_request b Method.move src [])

-- The request of copyOne, before its hook.
copy_request : HttpBucket → Bytes → Bytes → Result Fault Request
unfolding new_request
copy_request b src dst =
    with_headers
      (λ h. set_header (codes "Depth") (codes "0") (
        set_header (codes "Overwrite") (overwrite_header true)
          (set_header (codes "Destination") dst h)))
      (new_request b Method.copy src [])

-- driver.WriterOptions
pub record PutOptions : Type 0 where
  pub cache_control : Bytes
  pub content_disposition : Bytes
  pub content_encoding : Bytes
  pub content_language : Bytes
  pub metadata : List (Bytes × Bytes)
  pub content_md5 : Bytes
  pub if_not_exist : Bool

abbrev pub set_non_empty : Bytes → Bytes → Headers → Headers
set_non_empty k v h = if eqb v [] then h else set_header k v h

put_headers : (Bytes → Bytes) → Bytes → PutOptions → Headers → Headers
put_headers base64 content_type o h =
    let md5 = if eqb o.content_md5 [] then [] else base64 o.content_md5 in
    set_non_empty (codes "Content-MD5") md5 (
      set_non_empty (codes "Content-Language") o.content_language (
        set_non_empty (codes "Content-Encoding") o.content_encoding (
          set_non_empty (codes "Content-Disposition") o.content_disposition (
            set_non_empty (codes "Cache-Control") o.cache_control
              (set_non_empty (codes "Content-Type") content_type h)))))

-- `put` is the request of the PUT; `written` is what went into the pipe and the MD5 hash.
pub record HttpWriter : Type 0 where
  pub key : Bytes
  pub obj_url : Bytes
  pub temp_url : Bytes
  pub put : Request
  pub if_not_exist : Bool
  pub attrs : Xattrs
  pub written : Bytes
  pub closed : Bool

start_http_writer : Bytes → Bytes → Bytes → Bytes → PutOptions → Request → HttpWriter
start_http_writer key obj_url temp_url content_type o put = record {
  key = key;
  obj_url = obj_url;
  temp_url = temp_url;
  put = put;
  if_not_exist = o.if_not_exist;
  attrs = record {
    cache_control = o.cache_control;
    content_disposition = o.content_disposition;
    content_encoding = o.content_encoding;
    content_language = o.content_language;
    content_type = content_type;
    metadata = o.metadata;
    md5 = [];
  };
  written = [];
  closed = false;
}

-- Write, where the pipe took `n` bytes of `p` and answered with this error.
unfoldable pub write_piped : HttpWriter → Bytes → ℕ → Option Fault → ℕ × Option Fault × HttpWriter
write_piped w p n failure = (n, failure, record w { written = w.written ++ take n p })

-- The PUT with its whole body.
abbrev pub put_of : HttpWriter → Request
put_of w = record w.put { body = w.written }

-- What the goroutine makes of the answer to the PUT.
put_failure : Request → Result Fault Response → Option Fault
put_failure req (err e) = some e
put_failure req (ok resp) =
    if leb 400 resp.status_code then some (fault_of (new_error req resp)) else none

with_key_of : Bytes → Option Fault → Option Fault
with_key_of key none = none
with_key_of key (some e) = some (with_key e key)

failure_of : Result Fault Response → Option Fault
failure_of (err e) = some e
failure_of (ok resp) = none

unfoldable pub delete_url : (c : Client) → HttpBucket → Bytes → c.State → c.State
delete_url c b url s = (do_request c b.max_retries (new_request b Method.delete url []) s).1

-- cleanup: the staged object is deleted, in a context of its own.
unfoldable pub clean_up_staged : (c : Client) → HttpBucket → HttpWriter → c.State → c.State
unfolding delete_url
clean_up_staged c b w s = delete_url (record c { ctx_err = λ t. none }) b w.temp_url s

module _ (c : Client) (b : HttpBucket) where
  open c use {State, ctx_err, send}

  unfoldable pub move_object : Bytes → Bytes → Bool → State → Option Fault × State
  unfolding move_request failure_of
  move_object src dst overwrite s =
      let (answer, s') = do_request c b.max_retries (move_request b src dst overwrite) s in
      (failure_of answer, s')

  unfoldable pub copy_one :
      Bytes → Bytes → (Request → Result Fault Request) → State → Option Fault × State
  unfolding copy_request failure_of
  copy_one src dst hook s = elim (copy_request b src dst) [
    | err e ↦ (some e, s)
    | ok req ↦ elim (hook req) [
      | err e ↦ (some e, s)
      | ok r ↦ let (answer, s') = do_request c b.max_retries (ok r) s in (failure_of answer, s')
    ]
  ]

  unfoldable pub put_attrs : (Xattrs → Bytes) → Bytes → Xattrs → State → Option Fault × State
  unfolding failure_of
  put_attrs encode url xa s =
      let prepare =
        with_headers (set_header (codes "Content-Type") (codes "application/json"))
          (new_request b Method.put (url ++ attrs_ext) (encode xa)) in
      let (answer, s') = do_request c b.max_retries prepare s in
      if use_sidecar b then (failure_of answer, s') else (none, s)

  -- The checks and requests of NewTypedWriter.
  unfoldable pub http_new_typed_writer :
      ((List ℕ → ℕ → Bool) → Bytes → Bytes)
      → (Bytes → Bytes)
      → Bytes
      → Bytes
      → PutOptions
      → Result Fault Bytes
      → (Request → Result Fault Request)
      → Known
      → State
      → Result Fault HttpWriter × Known × State
  unfolding put_headers start_http_writer
  http_new_typed_writer hex_escape base64 key content_type o random hook known s =
      if not b.webdav
      then (err (driver_fault unimplemented), known, s)
      else elim (escaped_path hex_escape key) [
        | err e ↦ (err e, known, s)
        | ok p ↦ elim random [
          | err e ↦ (err e, known, s)
          | ok name ↦
              let (failure, known', s') = ensure_collections c b p known s in
              let temp_url = path_url b (p ++ (temp_infix ++ name)) in
              elim failure [
                | some e ↦ (err (with_key e key), known', s')
                | none ↦ elim (new_request b Method.put temp_url []) [
                  | err e ↦ (err e, known', s')
                  | ok req ↦
                      elim (hook
                        (record req { header = put_headers base64 content_type o req.header })) [
                          | err e ↦ (err e, known', s')
                          | ok put ↦ (
                            ok (start_http_writer key (path_url b p) temp_url content_type o put),
                            known',
                            s',
                          )
                        ]
                ]
              ]
        ]
      ]

  -- From the MOVE on.
  publish_object : (Bytes → Bytes) → (Xattrs → Bytes) → HttpWriter → State → Option Fault × State
  unfolding move_object put_attrs with_key_of clean_up_staged
  publish_object md5 encode w s =
      let (failure, s') = move_object w.temp_url w.obj_url (not w.if_not_exist) s in
      let xa = record w.attrs { md5 = md5 w.written } in
      let (unset, s'') = put_attrs encode w.obj_url xa s' in
      elim failure [
        | some e ↦ (some (with_key e w.key), clean_up_staged c b w s')
        | none ↦ (with_key_of w.key unset, s'')
      ]

  -- Close of a writer that is not closed.
  close_open :
      (State → State)
      → (Bytes → Bytes)
      → (Xattrs → Bytes)
      → HttpWriter
      → State
      → Option Fault × State
  unfolding put_failure publish_object clean_up_staged
  close_open aborted md5 encode w s = elim (ctx_err s) [
    | some e ↦ (some e, clean_up_staged c b w (aborted s))
    | none ↦
        let (answer, s1) = send (put_of w) s in
        elim (ctx_err s1) [
          | some e ↦ (some e, clean_up_staged c b w s1)
          | none ↦ elim (put_failure (put_of w) answer) [
            | some e ↦ (some (with_key e w.key), clean_up_staged c b w s1)
            | none ↦ publish_object md5 encode w s1
          ]
        ]
  ]

  -- Close.
  unfoldable pub http_close_writer :
      (State → State)
      → (Bytes → Bytes)
      → (Xattrs → Bytes)
      → HttpWriter
      → State
      → Option Fault × HttpWriter × State
  unfolding close_open
  http_close_writer aborted md5 encode w s =
      let (failure, s') = close_open aborted md5 encode w s in
      if w.closed then (none, w, s) else (failure, record w { closed = true }, s')

  -- Copy, without its hook's As.
  unfoldable pub http_copy :
      ((List ℕ → ℕ → Bool) → Bytes → Bytes)
      → Bytes
      → Bytes
      → (Request → Result Fault Request)
      → Known
      → State
      → Option Fault × Known × State
  unfolding copy_one
  http_copy hex_escape dst_key src_key hook known s =
      if not b.webdav
      then (some (driver_fault unimplemented), known, s)
      else elim (object_url hex_escape b src_key) [
        | err e ↦ (some e, known, s)
        | ok src ↦ elim (escaped_path hex_escape dst_key) [
          | err e ↦ (some e, known, s)
          | ok p ↦
              let dst = path_url b p in
              let (made, known', s1) = ensure_collections c b p known s in
              let (copied, s2) = copy_one src dst hook s1 in
              let (beside, s3) = copy_one (src ++ attrs_ext) (dst ++ attrs_ext) ok s2 in
              elim made [
                | some e ↦ (some (with_key e dst_key), known', s1)
                | none ↦ elim copied [
                  | some e ↦ (some (with_key e src_key), known', s2)
                  | none ↦
                      if use_sidecar b
                      then elim beside [
                        | none ↦ (none, known', s3)
                        | some e ↦ (
                          if is_not_found (fault_code e) then none else some (with_key e src_key),
                          known',
                          s3,
                        )
                      ]
                      else (none, known', s2)
                ]
              ]
        ]
      ]

  -- Delete, and then the sidecar, whatever comes of it.
  unfoldable pub http_delete :
      ((List ℕ → ℕ → Bool) → Bytes → Bytes)
      → Bytes
      → (Request → Result Fault Request)
      → State
      → Option Fault × State
  unfolding delete_url
  http_delete hex_escape key hook s =
      if not b.webdav
      then (some (driver_fault unimplemented), s)
      else elim (object_url hex_escape b key) [
        | err e ↦ (some e, s)
        | ok url ↦ elim (new_request b Method.delete url []) [
          | err e ↦ (some e, s)
          | ok req ↦ elim (hook req) [
            | err e ↦ (some e, s)
            | ok r ↦
                let (answer, s1) = do_request c b.max_retries (ok r) s in
                elim answer [
                  | err e ↦ (some (with_key e key), s1)
                  | ok resp ↦
                      (none, if use_sidecar b then delete_url c b (url ++ attrs_ext) s1 else s1)
                ]
          ]
        ]
      ]
