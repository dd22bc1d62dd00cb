-- ===== src/Gcs/Compose.antt =====
-- composeTree of blob/multipart/gcsmp/gcsmp.go. Each group of a round and each round takes a unit of
-- fuel; a round has at most as many groups as sources, and so it is with the rounds.
pub mod Names
pub mod Rounds
pub mod Kept
pub mod Ends
pub mod Frame
use gocloud_ext.Common.{
  ℕ, zero, suc, ◌+◌, ◌*◌, ◌/◌, pos, ltb, Bytes, codes, true, false, List, [], ◌∷◌, ◌++◌, length,
  take, drop, Option, none, some, Result, ok, err, ◌>>=◌, if◌then◌else◌,
}
use gocloud_ext.Decimal.{format_padded}
use gocloud_ext.Gcs.{
  GcsClient, GcsUploader, GcsError, ObjectAttrs, composing_intermediate, out_of_fuel,
  gcs_staging_prefix, max_compose_sources,
}

-- The attributes of a new composer or copier.
abbrev pub no_attrs : ObjectAttrs
no_attrs = record {
  content_type = [];
  cache_control = [];
  content_disposition = [];
  content_encoding = [];
  content_language = [];
  metadata = none;
}

-- `fmt.Sprintf("%sinter-%d-%d", u.stagingPrefix(), round, i/maxComposeSources)`
unfoldable pub inter_name : GcsUploader → ℕ → ℕ → Bytes
inter_name u round k =
    gcs_staging_prefix u
    ++ (codes "inter-" ++ (format_padded 0 (pos round) ++ (codes "-" ++ format_padded 0 (pos k))))

module _ (c : GcsClient) where
  open c use {State, Err, compose}

  -- The group from the position i on: a single source is carried.
  pub compose_group : GcsUploader → ℕ → ℕ → List Bytes → State → Result (GcsError Err) Bytes × State
  compose_group u round i (name ∷ []) s = (ok name, s)
  compose_group u round i group s =
      let inter = inter_name u round (i / max_compose_sources) in
      let (failure, s') = compose u.bucket inter no_attrs group s in
      elim failure [ none ↦ (ok inter, s') | some e ↦ (err (composing_intermediate round i e), s') ]

  -- The inner loop, with the sources from the position i on.
  pub compose_groups :
      ℕ → GcsUploader → ℕ → ℕ → List Bytes → State → Result (GcsError Err) (List Bytes) × State
  unfolding compose_group
  compose_groups fuel u round i [] s = (ok [], s)
  compose_groups zero u round i (x ∷ rest) s = (err out_of_fuel, s)
  compose_groups (suc fuel) u round i (x ∷ rest) s =
      let (made, s') = compose_group u round i (take max_compose_sources (x ∷ rest)) s in
      elim made [
        | err e ↦ (err e, s')
        | ok name ↦
            let (more, s'') =
              compose_groups fuel u round (i + max_compose_sources)
                (drop max_compose_sources (x ∷ rest)) s' in
            (more >>= (λ next. ok (name ∷ next)), s'')
      ]

  -- The outer loop, from a round on.
  unfoldable pub compose_tree :
      ℕ → GcsUploader → ℕ → List Bytes → State → Result (GcsError Err) (List Bytes) × State
  unfolding compose_groups
  compose_tree zero u round sources s =
      if ltb max_compose_sources (length sources) then (err out_of_fuel, s) else (ok sources, s)
  compose_tree (suc fuel) u round sources s = elim (ltb max_compose_sources (length sources)) [
    | false ↦ (ok sources, s)
    | true ↦
        let (made, s') = compose_groups (length sources) u round 0 sources s in
        elim made [ err e ↦ (err e, s') | ok next ↦ compose_tree fuel u (suc round) next s' ]
  ]
