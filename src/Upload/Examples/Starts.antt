-- ===== src/Upload/Examples/Starts.antt =====
-- NewUploader, Open and UploadPart at concrete inputs.
use mathlib.Core.Path.{subst}
use gocloud_ext.Common.{
  zero, suc, pos, Bytes, codes, List, [], ◌∷◌, none, some, Result, ok, err, true, false, eqb,
  has_prefix, contains, length, ◌++◌, take, drop, ap, ◌≡◌, refl, trim_prefix,
}
use gocloud_ext.Multipart.{Part, Options, sort_parts, validate_part_number}
use gocloud_ext.Decimal.{format_padded, parse_int}
use gocloud_ext.Blob.{ErrorCode, internal, Source, eof, chunk, broken, drain, io_copy}
use gocloud_ext.Blob.Memory.{find, listing}
use gocloud_ext.Blob.Memory.Kept.{memory_laws, memory-Reliable}
use gocloud_ext.Upload.{
  Uploader, staging_infix, Manifest, driver, staging_prefix, part_key, hex_encode, constraints,
}
use gocloud_ext.Upload.Create.{new_uploader, open_upload}
use gocloud_ext.Upload.Create.Resume.{open_upload-new_uploader}
use gocloud_ext.Upload.Stage.{upload_part, list_parts}
use gocloud_ext.Upload.Stage.Listed.{IsFound, list_parts-IsAscending}
use gocloud_ext.Multipart.Sorting.{IsAscending}
use mathlib.Core.List.{Perm}
use gocloud_ext.Upload.Stage.Written.{upload_part-stored}
use gocloud_ext.Upload.Examples.{upload, first, second, staged, empty, plain}

-- A codec for manifests whose options have a content type and no more.
marshal : Manifest → Result ErrorCode Bytes
marshal m = elim m.options [
  | none ↦ ok (0 ∷ m.key)
  | some o ↦ ok (1 ∷ length o.content_type ∷ o.content_type ++ m.key)
]

abbrev typed : Bytes → Options
typed content_type = record {
  content_type = content_type;
  cache_control = [];
  content_disposition = [];
  content_encoding = [];
  content_language = [];
  metadata = [];
  content_md5 = [];
}

unmarshal : Bytes → Result ErrorCode Manifest
unmarshal [] = err internal
unmarshal (zero ∷ key) = ok (record { key = key; options = none })
unmarshal (suc _ ∷ []) = err internal
unmarshal (suc _ ∷ n ∷ r) = ok (record { key = drop n r; options = some (typed (take n r)) })

abbrev text : Options
text = typed (codes "text/plain")

abbrev manifest : Manifest
manifest = record { key = codes "big"; options = some text }

abbrev ok_or_empty : Result ErrorCode Bytes → Bytes
ok_or_empty (ok d) = d
ok_or_empty (err e) = []

decodes : (body : Bytes) → marshal manifest ≡ ok body → unmarshal body ≡ ok manifest
unfolding marshal unmarshal
decodes body h = subst (λ d. unmarshal d ≡ ok manifest) (ap ok_or_empty h) refl

abbrev text_upload : Uploader
text_upload = record upload { opts = some text }

starts :
    (new_uploader plain marshal false (codes "big") (some text) (ok (10 ∷ [])) empty).0
    ≡ ok text_upload
unfolding new_uploader marshal contains has_prefix eqb hex_encode
starts = refl

open_upload-new_uploader_example :
    open_upload plain unmarshal false
      (codes "big")
      (codes "0a")
      (new_uploader plain marshal false (codes "big") (some text) (ok (10 ∷ [])) empty).1
    ≡ ok text_upload
open_upload-new_uploader_example =
    open_upload-new_uploader plain (memory_laws (λ k. false))
      (memory-Reliable (λ k. false)).reads_all marshal unmarshal (codes "big") (some text) 10 []
      empty text_upload decodes starts

reserved : contains (codes "a.gocdkmpu.b") staging_infix ≡ true
unfolding contains has_prefix
reserved = refl

abbrev two_chunks : Source ErrorCode
two_chunks = chunk (7 ∷ []) (chunk (8 ∷ []) eof)

uploads : (upload_part plain upload (pos 1) two_chunks empty).0 ≡ ok first
unfolding upload_part io_copy validate_part_number find eqb part_key staging_prefix format_padded
uploads = refl

upload_part-stored_example :
    (validate_part_number (pos 1) constraints ≡ none)
    × ((c : Bytes) × (drain two_chunks ≡ some c)
        × (first ≡ record { number = pos 1; size = pos (length c); tag = part_key upload (pos 1) })
        × ((memory_laws (λ k. false)).stored
              (upload_part plain upload (pos 1) two_chunks empty).1
              (part_key upload (pos 1))
            ≡ some c))
upload_part-stored_example =
    upload_part-stored plain (memory_laws (λ k. false)) upload (pos 1) two_chunks empty first
      uploads

other_key : eqb (part_key upload (pos 1)) (codes "other") ≡ false
unfolding eqb part_key staging_prefix
other_key = refl

abbrev torn : Source ErrorCode
torn = chunk (7 ∷ []) (broken internal)

fails : (upload_part plain upload (pos 1) torn staged).0 ≡ err (driver internal)
unfolding upload_part io_copy validate_part_number
fails = refl

lists : list_parts plain upload staged ≡ ok (first ∷ second ∷ [])
unfolding list_parts listing has_prefix eqb staging_prefix sort_parts trim_prefix parse_int
lists = refl

list_parts-IsAscending_example :
    (found : List Part) × IsFound
      (staging_prefix upload)
      (plain.list (staging_prefix upload) staged)
      found
    × Perm (first ∷ second ∷ []) found
    × IsAscending (first ∷ second ∷ [])
list_parts-IsAscending_example =
    list_parts-IsAscending plain upload staged (first ∷ second ∷ []) lists
