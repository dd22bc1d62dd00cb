-- ===== src/Upload/Stage/Listed.antt =====
-- ListParts: the parts that it finds, and their order.
use mathlib.Core.List.{Perm}
use mathlib.Core.List.Perm
use mathlib.Core.Path.{subst}
use gocloud_ext.Common.{
  eqb, eqb_iff, Result, err, refl, sym, ap, ◌∙◌, Bool-cases, Option-cases, ℕ, ℤ, pos, ◌<◌, ◌^◌,
  Bytes, List, [], ◌∷◌, ◌++◌, none, some, ok, eqb_refl, trim_prefix, has_prefix-append, drop-append,
  ◌≡◌, arith, Result-cases, inl, inr,
}
use gocloud_ext.Multipart.{Part}
use gocloud_ext.Multipart.Sorting.{IsAscending, sort_parts-IsAscending}
use gocloud_ext.Decimal.{format_padded, parse_int}
use gocloud_ext.Decimal.RoundTrip.{parse_int-format_padded, format_padded_head}
use gocloud_ext.Blob.{Bucket, Listing, done, failed, object}
use gocloud_ext.Upload.{
  Uploader, part_key, manifest_key, staging_prefix, manifest_name, part_name_width,
}
use gocloud_ext.Upload.Stage.{listed_part, collect_parts, sort_listed, list_parts}

-- The parts of a listing that ends without an error, in its order: one for each object whose name after
-- the prefix is a number, with that number, the object's size and its key.
pub data IsFound {E : Type 0} (prefix : Bytes) : Listing E → List Part → Type 0 where
  at_end : IsFound prefix done []
  other :
      {key : Bytes} {size : ℤ} {l : Listing E} {parts : List Part}
      → parse_int (trim_prefix key prefix) ≡ none
      → IsFound prefix l parts
      → IsFound prefix (object key size l) parts
  numbered :
      {key : Bytes} {number size : ℤ} {l : Listing E} {parts : List Part}
      → parse_int (trim_prefix key prefix) ≡ some number
      → IsFound prefix l parts
      → IsFound prefix
          (object key size l)
          (record { number = number; size = size; tag = key } ∷ parts)

-- The manifest's name is no number.
parse_int-manifest_name : parse_int manifest_name ≡ none
unfolding parse_int
parse_int-manifest_name = refl

pub trim_prefix-append : (p s : Bytes) → trim_prefix (p ++ s) p ≡ s
unfolding trim_prefix
trim_prefix-append p s = ground (arith, has_prefix-append p s, drop-append p s)

ok_injective : {E : Type 0} (l r : List Part) → ◌≡◌ {A = Result E (List Part)} (ok l) (ok r) → l ≡ r
ok_injective l r h = ap (λ t. elim t [ ok a ↦ a | err e ↦ l ]) h

module _ (b : Bucket) where
  open b use {State, Err, list}

  -- The object that a part was staged under is listed as a part with that number, its size and its
  -- tag, whatever the part number of an int64; the manifest is not listed as a part.
  pub listed_part-part_key :
      (u : Uploader) (n : ℕ) (size : ℤ)
      → n < 2 ^ 63
      → (listed_part b (staging_prefix u) (part_key u (pos n)) size
          ≡ some (record { number = pos n; size = size; tag = part_key u (pos n) }))
        × (listed_part b (staging_prefix u) (manifest_key u) size ≡ none)
  unfolding listed_part part_key manifest_key
  listed_part-part_key u n size h =
      let name = format_padded part_name_width (pos n) in
      (
        ground (
          arith,
          trim_prefix-append (staging_prefix u) name,
          parse_int-format_padded 5 n h,
          format_padded_head 5 n,
        ),
        ground (arith, trim_prefix-append (staging_prefix u) manifest_name, eqb_refl manifest_name),
      )

  sort_listed-IsAscending :
      (found parts : List Part)
      → sort_listed b found ≡ ok parts
      → Perm parts found × IsAscending parts
  unfolding sort_listed
  sort_listed-IsAscending [] [] h = (Perm.refl [], tt)
  sort_listed-IsAscending [] (p ∷ parts) h = absurd (ground arith)
  sort_listed-IsAscending (q ∷ found) parts h = sort_parts-IsAscending (q ∷ found) (ground arith)

  listed_part-none :
      (prefix key : Bytes) (size : ℤ)
      → listed_part b prefix key size ≡ none
      → parse_int (trim_prefix key prefix) ≡ none
  unfolding listed_part
  listed_part-none prefix key size h =
      elim (Bool-cases (eqb (trim_prefix key prefix) manifest_name)) [
        | inl e ↦
            ap parse_int ((eqb_iff (trim_prefix key prefix) manifest_name).0 e)
            ∙ parse_int-manifest_name
        | inr e ↦ elim (Option-cases (parse_int (trim_prefix key prefix))) [
          | inl k ↦ k
          | inr (n, k) ↦ absurd (ground arith)
        ]
      ]

  listed_part-some :
      (prefix key : Bytes) (size : ℤ) (p : Part)
      → listed_part b prefix key size ≡ some p
      → (number : ℤ) × (parse_int (trim_prefix key prefix) ≡ some number)
        × (p ≡ record { number = number; size = size; tag = key })
  unfolding listed_part
  listed_part-some prefix key size p h = elim (Option-cases (parse_int (trim_prefix key prefix))) [
    | inl k ↦ absurd (ground arith)
    | inr (n, k) ↦ (n, k, ground arith)
  ]

  collect_parts-IsFound :
      (prefix : Bytes) (l : Listing Err) (found : List Part)
      → collect_parts b prefix l ≡ ok found
      → IsFound prefix l found
  unfolding collect_parts
  collect_parts-IsFound prefix done found h =
      subst (λ t. IsFound {E = Err} prefix done t) (ok_injective [] found h) at_end
  collect_parts-IsFound prefix (failed e) found h = absurd (ground arith)
  collect_parts-IsFound prefix (object key size l) found h =
      elim (Option-cases (listed_part b prefix key size)) [
        | inl k ↦
            other (listed_part-none prefix key size k)
              (collect_parts-IsFound prefix l found (rw (k, collect_parts) at h))
        | inr (p, k) ↦ elim (Result-cases (collect_parts b prefix l)) [
          | inr (e, f) ↦ absurd (ground arith)
          | inl (parts, f) ↦
              let (number, named, same) = listed_part-some prefix key size p k in
              let whole : record { number = number; size = size; tag = key } ∷ parts ≡ found =
                ap (λ t. t ∷ parts) (sym same)
                ∙ ok_injective {E = Err} (p ∷ parts) found (ground arith) in
              subst (IsFound prefix (object key size l)) whole
                (numbered named (collect_parts-IsFound prefix l parts f))
        ]
      ]

  -- A ListParts that returns parts has listed the upload's staging prefix without an error, and returns,
  -- arranged by strictly ascending numbers, exactly a part for each object of the listing whose name
  -- after the prefix is a number: with that number, the object's size and its key.
  pub list_parts-IsAscending :
      (u : Uploader) (s : State) (parts : List Part)
      → list_parts b u s ≡ ok parts
      → (found : List Part) × IsFound (staging_prefix u) (list (staging_prefix u) s) found
        × Perm parts found
        × IsAscending parts
  unfolding list_parts
  list_parts-IsAscending u s parts h =
      elim (Result-cases (collect_parts b (staging_prefix u) (list (staging_prefix u) s))) [
        | inl (found, e) ↦
            let (p, a) = sort_listed-IsAscending found parts (ground arith) in
            (found, collect_parts-IsFound _ _ found e, p, a)
        | inr (x, e) ↦ absurd (ground arith)
      ]
