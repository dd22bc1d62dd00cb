-- ===== src/Metadata.antt =====
-- What every uploader of blob/multipart does with the metadata of an upload's options. The loop
-- `md[strings.ToLower(k)] = v` is the same in s3mp, gcsmp and azmp; strings.ToLower is a parameter.
use gocloud_ext.Common.{Bytes, List, [], ◌∷◌}

unfoldable pub lowercase_keys : (Bytes → Bytes) → List (Bytes × Bytes) → List (Bytes × Bytes)
lowercase_keys to_lower [] = []
lowercase_keys to_lower ((k, v) ∷ m) = (to_lower k, v) ∷ lowercase_keys to_lower m
