-- ===== src/Azure/Finish.antt =====
-- Commit and Abort of blob/multipart/azmp/azmp.go. strings.ToLower is a parameter.
pub mod Committed
use gocloud_ext.Common.{
  Bytes, Bool, true, if◌then◌else◌, List, [], ◌∷◌, map, Option, none, some, Result, ok, err,
}
use gocloud_ext.Metadata.{lowercase_keys}
use gocloud_ext.Multipart.{Part, Options, sort_parts}
use gocloud_ext.S3.Start.{unless_empty}
use gocloud_ext.Azure.{
  AzureClient, Base64, AzureUploader, AzureError, HttpHeaders, closed, invalid_parts, committing,
  block_id,
}

unfoldable pub http_headers : Option Options → HttpHeaders
http_headers none = record {
  content_type = none;
  cache_control = none;
  content_disposition = none;
  content_encoding = none;
  content_language = none;
  content_md5 = none;
}
http_headers (some o) = record {
  content_type = unless_empty o.content_type;
  cache_control = unless_empty o.cache_control;
  content_disposition = unless_empty o.content_disposition;
  content_encoding = unless_empty o.content_encoding;
  content_language = unless_empty o.content_language;
  content_md5 = unless_empty o.content_md5;
}

-- `if len(u.opts.Metadata) > 0`
lowercased : (Bytes → Bytes) → List (Bytes × Bytes) → Option (List (Bytes × Bytes))
unfolding lowercase_keys
lowercased to_lower [] = none
lowercased to_lower (p ∷ m) = some (lowercase_keys to_lower (p ∷ m))

unfoldable pub blob_metadata : (Bytes → Bytes) → Option Options → Option (List (Bytes × Bytes))
unfolding lowercased
blob_metadata to_lower none = none
blob_metadata to_lower (some o) = lowercased to_lower o.metadata

module _ (c : AzureClient) (base64 : Base64) (to_lower : Bytes → Bytes) where
  open c use {State, Err, commit_block_list}

  -- The IDs come from the numbers, and not from the tags.
  abbrev pub block_ids : List Part → List Bytes
  block_ids ordered = map (λ p. block_id base64 p.number) ordered

  commit_blocks :
      AzureUploader → List Part → State → Option (AzureError Err) × AzureUploader × State
  commit_blocks u ordered s =
      let (failure, s') =
        commit_block_list (block_ids ordered) (http_headers u.opts) (blob_metadata to_lower u.opts)
          s in
      elim failure [
        | some e ↦ (some (committing u.name e), u, s')
        | none ↦ (none, record u { finished = true }, s')
      ]

  unfoldable pub azure_commit :
      AzureUploader → List Part → State → Option (AzureError Err) × AzureUploader × State
  unfolding commit_blocks
  azure_commit u parts s = if u.finished then (some closed, u, s) else elim (sort_parts parts) [
    | err e ↦ (some (invalid_parts e), u, s)
    | ok ordered ↦ commit_blocks u ordered s
  ]

  -- Abort returns no error, and stages and deletes nothing.
  abbrev pub azure_abort : AzureUploader → State → Option (AzureError Err) × AzureUploader × State
  azure_abort u s = (none, record u { finished = true }, s)
