-- ===== src/Gcs/Finish.antt =====
-- Commit and Abort of blob/multipart/gcsmp/gcsmp.go. strings.ToLower is a parameter.
pub mod Cleanup
pub mod Commit
pub mod Done
pub mod Frame
pub mod Abort
use gocloud_ext.Common.{
  Bytes, Bool, true, if◌then◌else◌, List, [], ◌∷◌, map, length, Option, none, some, Result, ok, err,
  eqb,
}
use gocloud_ext.Metadata.{lowercase_keys}
use gocloud_ext.Multipart.{Part, Options, sort_parts}
use gocloud_ext.Blob.{Listing, done, failed, object}
use gocloud_ext.Upload.Finish.{first_error}
use gocloud_ext.Gcs.{
  GcsClient, GcsUploader, GcsError, ObjectAttrs, closed, invalid_parts, finalising, composing,
  calling, part_name, gcs_staging_prefix,
}
use gocloud_ext.Gcs.Compose.{no_attrs, compose_tree}

-- `if len(u.opts.Metadata) > 0`
attrs_metadata :
    (Bytes → Bytes)
    → List (Bytes × Bytes)
    → Option (List (Bytes × Bytes))
    → Option (List (Bytes × Bytes))
unfolding lowercase_keys
attrs_metadata to_lower [] m = m
attrs_metadata to_lower (p ∷ l) m = some (lowercase_keys to_lower (p ∷ l))

unfoldable pub apply_attrs : (Bytes → Bytes) → Option Options → ObjectAttrs → ObjectAttrs
unfolding attrs_metadata
apply_attrs to_lower none attrs = attrs
apply_attrs to_lower (some o) attrs = record {
  content_type = o.content_type;
  cache_control = o.cache_control;
  content_disposition = o.content_disposition;
  content_encoding = o.content_encoding;
  content_language = o.content_language;
  metadata = attrs_metadata to_lower o.metadata attrs.metadata;
}

-- The names of the parts, in their order.
abbrev pub source_names : GcsUploader → List Part → List Bytes
source_names u ordered = map (λ p. part_name u p.number) ordered

module _ (c : GcsClient) where
  open c use {State, Err, is_not_exist, delete, list, compose, copy}

  -- A failed Delete, unless the object was not there.
  not_deleted : Option Err → Option Err
  not_deleted none = none
  not_deleted (some e) = if is_not_exist e then none else some e

  -- The loop of deleteStagedErr, with its firstErr.
  delete_found : Bytes → Listing Err → Option Err → State → Option Err × State
  unfolding not_deleted
  delete_found bucket done first s = (first, s)
  delete_found bucket (failed e) first s = (first_error first (some e), s)
  delete_found bucket (object name size l) first s =
      let (failure, s') = delete bucket name s in
      delete_found bucket l (first_error first (not_deleted failure)) s'

  -- deleteStagedErr
  unfoldable pub gcs_delete_staged : GcsUploader → State → Option Err × State
  unfolding delete_found
  gcs_delete_staged u s = delete_found u.bucket (list u.bucket (gcs_staging_prefix u) s) none s

  module _ (to_lower : Bytes → Bytes) where
    wrapped : (Err → GcsError Err) → Option Err × State → Option (GcsError Err) × State
    wrapped f (none, s) = (none, s)
    wrapped f (some e, s) = (some (f e), s)

    -- The last step of Commit: one object is copied, several are composed.
    place_object : GcsUploader → List Bytes → State → Option (GcsError Err) × State
    unfolding wrapped
    place_object u [] s = (none, s)
    place_object u (name ∷ []) s =
        let copied = copy u.bucket u.name (apply_attrs to_lower u.opts no_attrs) name s in
        if eqb name u.name then (none, s) else wrapped (finalising u.name) copied
    place_object u (name ∷ other ∷ more) s =
        wrapped (composing u.name)
          (compose u.bucket u.name (apply_attrs to_lower u.opts no_attrs) (name ∷ other ∷ more) s)

    -- After composeTree: the object is placed, and the failures of the clean-up are ignored.
    finish_commit : GcsUploader → List Bytes → State → Option (GcsError Err) × GcsUploader × State
    unfolding place_object
    finish_commit u final s =
        let (failure, s') = place_object u final s in
        let (ignored, s'') = gcs_delete_staged u s' in
        elim failure [ some e ↦ (some e, u, s') | none ↦ (none, record u { finished = true }, s'') ]

    compose_parts : GcsUploader → List Part → State → Option (GcsError Err) × GcsUploader × State
    unfolding finish_commit
    compose_parts u ordered s =
        let sources = source_names u ordered in
        let (composed, s') = compose_tree c (length sources) u 0 sources s in
        elim composed [ err e ↦ (some e, u, s') | ok final ↦ finish_commit u final s' ]

    unfoldable pub gcs_commit :
        GcsUploader → List Part → State → Option (GcsError Err) × GcsUploader × State
    unfolding compose_parts
    gcs_commit u parts s = if u.finished then (some closed, u, s) else elim (sort_parts parts) [
      | err e ↦ (some (invalid_parts e), u, s)
      | ok ordered ↦ compose_parts u ordered s
    ]

  abort_error : Option Err → Option (GcsError Err)
  abort_error none = none
  abort_error (some e) = some (calling e)

  unfoldable pub gcs_abort : GcsUploader → State → Option (GcsError Err) × GcsUploader × State
  unfolding abort_error
  gcs_abort u s =
      let (failure, s') = gcs_delete_staged u s in
      if u.finished then (none, u, s) else (abort_error failure, record u { finished = true }, s')
