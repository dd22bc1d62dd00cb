-- ===== src/S3/Examples.antt =====
-- The S3 uploader on a small client: it counts the calls that change its state, answers ListParts in
-- two pages, and no longer knows an upload that is aborted.
use gocloud_ext.Common.{
  Bool, eqb, ℕ, suc, pos, Bytes, true, false, List, [], ◌∷◌, Option, none, some, codes, Result, ok,
  ◌≡◌, ◌≢◌, refl, arith,
}
use gocloud_ext.Multipart.{object_name, Part, sort_parts, check_part_sizes, validate_part_number}
use gocloud_ext.S3.{s3_escape_key, Client, ListPartsOutput, S3Uploader, to_int32}
use gocloud_ext.S3.Start.{probe_input, s3_new_uploader}
use gocloud_ext.S3.Finish.{s3_commit}
use gocloud_ext.S3.Finish.Sent.{IsCompleted, s3_commit-sent}
use gocloud_ext.S3.Parts.{list_input, s3_upload_part, s3_list_parts}
use gocloud_ext.S3.Parts.Sent.{IsPartOf, s3_upload_part-sent}
use gocloud_ext.S3.Parts.Paging.{HasPages}

abbrev page_after : Option Bytes → ListPartsOutput
page_after none = record {
  parts = record { part_number = some (pos 2); size = some (pos 4); etag = some (codes "b") } ∷ [];
  is_truncated = some true;
  next_part_number_marker = some (codes "2");
}
page_after (some marker) = record {
  parts = record { part_number = some (pos 1); size = some (pos 3); etag = some (codes "a") } ∷ [];
  is_truncated = some false;
  next_part_number_marker = none;
}

abbrev client : Client
client = record {
  State = ℕ;
  Err = Bytes;
  is_no_such_upload_type = λ e. false;
  error_text = λ e. e;
  create = λ i s. (ok (some (codes "id")), suc s);
  upload_part = λ i s. (ok (some (codes "etag")), suc s);
  complete = λ i s. (none, suc s);
  abort = λ i s. (some (codes "NoSuchUpload"), suc s);
  list_parts = λ i s. ok (page_after i.part_number_marker);
}

abbrev upload : S3Uploader
upload = record {
  location = record { bucket = codes "bucket"; prefix = [] };
  key = codes "key";
  upload_id = codes "id";
  finished = false;
}

abbrev part_a : Part
part_a = record { number = pos 1; size = pos 3; tag = codes "a" }

abbrev part_b : Part
part_b = record { number = pos 2; size = pos 4; tag = codes "b" }

wraps : to_int32 (pos 4294967297) ≡ pos 1
unfolding to_int32
wraps = refl

both_pages : s3_list_parts client 2 upload 0 ≡ ok (part_a ∷ part_b ∷ [])
unfolding s3_list_parts sort_parts list_input
both_pages = refl

commits : (s3_commit client upload (part_a ∷ []) 0).0 ≡ none
unfolding s3_commit sort_parts check_part_sizes
commits = refl

small : (s3_commit client upload (part_b ∷ part_a ∷ []) 0).0 ≢ none
unfolding s3_commit sort_parts check_part_sizes
small = λ h. ground arith

sends :
    (s3_upload_part client upload (pos 1) (ok (codes "abc")) 0).0
    ≡ ok (record { number = pos 1; size = pos 3; tag = codes "etag" })
unfolding s3_upload_part validate_part_number
sends = refl

s3_commit-sent_example : (ordered : List Part) × IsCompleted client upload (part_a ∷ []) 0 ordered
s3_commit-sent_example = s3_commit-sent client upload (part_a ∷ []) 0 commits

s3_upload_part-sent_example :
    (bytes : Bytes) × (◌≡◌ {A = Result Bytes Bytes} (ok (codes "abc")) (ok bytes))
    × IsPartOf client upload
        (pos 1)
        bytes
        0
        (record { number = pos 1; size = pos 3; tag = codes "etag" })
s3_upload_part-sent_example =
    s3_upload_part-sent client upload (pos 1) (ok (codes "abc")) 0
      (record { number = pos 1; size = pos 3; tag = codes "etag" }) sends

paged : HasPages client 2 upload none 0
unfolding HasPages list_input
paged = λ t f. absurd (ground arith)

abbrev keep : (List ℕ → ℕ → Bool) → Bytes → Bytes
keep test s = s

starts :
    (s3_new_uploader client keep (λ s. s) false upload.location (codes "key") none 0).0 ≡ ok upload
unfolding s3_new_uploader object_name s3_escape_key eqb
starts = refl

named : eqb upload.upload_id [] ≡ false
unfolding eqb
named = refl

probed :
    client.list_parts (probe_input upload.location upload.key upload.upload_id) 1
    ≡ ok (page_after none)
unfolding probe_input
probed = refl
