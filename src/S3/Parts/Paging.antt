-- ===== src/S3/Parts/Paging.antt =====
-- The pages of ListParts, and their fuel.
use gocloud_ext.Common.{
  ℕ, zero, suc, Bytes, true, List, [], ◌∷◌, Option, none, ok, err, ◌≡◌, ◌≢◌, arith, Bool-cases,
  Result-cases, inl, inr,
}
use gocloud_ext.Multipart.{Part}
use gocloud_ext.S3.{Client, S3Uploader, ListPartsOutput, out_of_fuel}
use gocloud_ext.S3.Parts.{list_input, listing_failure, pages, sorted_parts, s3_list_parts, to_bool}

sorted_parts_ends : (c : Client) (l : List Part) → sorted_parts c l ≢ err out_of_fuel
unfolding sorted_parts
sorted_parts_ends c [] e = ground arith
sorted_parts_ends c (p ∷ l) e = ground arith

module _ (c : Client) where
  -- From this marker, a page that is not truncated comes within so many pages, or a failure.
  unfoldable pub HasPages : ℕ → S3Uploader → Option Bytes → c.State → Type 0
  HasPages zero u marker s = ⊥
  HasPages (suc n) u marker s = elim (c.list_parts (list_input u marker) s) [
    | err e ↦ Unit
    | ok out ↦ to_bool out.is_truncated ≡ true → HasPages n u out.next_part_number_marker s
  ]

  more_pages :
      (n : ℕ) (u : S3Uploader) (marker : Option Bytes) (s : c.State) (out : ListPartsOutput)
      → c.list_parts (list_input u marker) s ≡ ok out
      → HasPages (suc n) u marker s
      → to_bool out.is_truncated ≡ true
      → HasPages n u out.next_part_number_marker s
  unfolding HasPages
  more_pages n u marker s out r h t = (rw (HasPages, r) at h) t

  pages_ends :
      (n : ℕ) (u : S3Uploader) (marker : Option Bytes) (s : c.State)
      → HasPages n u marker s
      → pages c n u marker s ≢ err out_of_fuel
  unfolding pages HasPages listing_failure
  pages_ends zero u marker s h e = h
  pages_ends (suc n) u marker s h e = elim (Result-cases (c.list_parts (list_input u marker) s)) [
    | inr (x, r) ↦ let k = rw (pages, r) at e in ground arith
    | inl (out, r) ↦
        let rest = pages c n u out.next_part_number_marker s in
        let k = rw (pages, r) at e in
        elim (Bool-cases (to_bool out.is_truncated)) [
          | inr t ↦ ground arith
          | inl t ↦
              let quiet =
                pages_ends n u out.next_part_number_marker s (more_pages n u marker s out r h t) in
              elim (Result-cases rest) [ inl (l, y) ↦ ground arith | inr (x, y) ↦ ground arith ]
        ]
  ]

  -- ListParts does not run out of fuel where a page that is not truncated, or a failure, comes within
  -- so many pages.
  pub s3_list_parts_ends :
      (fuel : ℕ) (u : S3Uploader) (s : c.State)
      → HasPages fuel u none s
      → s3_list_parts c fuel u s ≢ err out_of_fuel
  unfolding s3_list_parts sorted_parts
  s3_list_parts_ends fuel u s h e =
      let quiet = pages_ends fuel u none s h in
      elim (Result-cases (pages c fuel u none s)) [
        | inr (x, y) ↦ ground arith
        | inl (l, y) ↦ let k = rw y at e in sorted_parts_ends c l k
      ]
