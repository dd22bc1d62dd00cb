-- ===== src/Sftp/Copies/Copied.antt =====
-- What Copy leaves at the destination.
use gocloud_ext.Common.{
  List, ◌||◌, ℕ, pos, Bytes, Bool, true, false, Option, none, some, Result, ok, [], ◌++◌,
  append_assoc, append-nil, eqb, ◌≡◌, refl, sym, ap, ◌∙◌, arith, Option-cases, Result-cases,
  Bool-cases, inl, inr,
}
use gocloud_ext.Blob.{Source, eof, broken, chunk, drain}
use gocloud_ext.Sftp.{Failure, attrs_ext, temp_infix}
use gocloud_ext.Sftp.Server.{Server}
use gocloud_ext.Sftp.Server.Laws.{Laws}
use gocloud_ext.Sftp.Files.{Xattrs, full_path, get_attrs, commit_rename}
use gocloud_ext.Sftp.Files.Renames.{commit_rename-stored_dst, commit_rename-stored_ne}
use gocloud_ext.Sftp.Files.Sidecars.{set_attrs-stored_ne}
use gocloud_ext.Sftp.Write.Names.{IsApart, apart}
use gocloud_ext.Sftp.Copies.{copy_file, stage_attrs, finish_copy, fill_copy, copy_paths, copy_blob}

module _ (c : Server) (laws : Laws c) where
  open c use {State, Handle, File, close, write, remove, mkdir_all, open_new, open_file, contents}
  open laws use {stored, target}

  -- A copy without error has read the whole source, and appended it to the file.
  copy_file-stored :
      (f : Handle) (r : Source Failure) (s : State) (d : Bytes)
      → stored s (target f) ≡ some d
      → (copy_file c f r s).0 ≡ none
      → (b : Bytes) × (drain r ≡ some b) × (stored (copy_file c f r s).1 (target f) ≡ some (d ++ b))
  unfolding copy_file
  copy_file-stored f eof s d h k = ([], refl, rw (append-nil d) h)
  copy_file-stored f (broken e) s d h k = absurd (ground arith)
  copy_file-stored f (chunk x r) s d h k = elim (Option-cases (write f x s).1) [
    | inr (e, w) ↦ absurd (ground arith)
    | inl w ↦
        let there = laws.write-stored_self f x d s w h in
        let (b, drained, after) =
          copy_file-stored f r (write f x s).2 (d ++ x) there (rw (copy_file, w) at k) in
        (x ++ b, rw drained refl, rw (copy_file, w) (after ∙ ap some (append_assoc d x b)))
  ]

  stage_attrs-stored_ne :
      (decode : Source Failure → Result Failure Xattrs) (encode : Xattrs → Bytes)
      (ctx : Option Failure) (dont_write : Bool) (src tmp : Bytes) (s : State) (j : Bytes)
      → eqb (tmp ++ attrs_ext) j ≡ false
      → stored (stage_attrs c decode encode ctx dont_write src tmp s).1 j ≡ stored s j
  unfolding stage_attrs
  stage_attrs-stored_ne decode encode ctx true src tmp s j h = refl
  stage_attrs-stored_ne decode encode ctx false src tmp s j h =
      elim (Result-cases (get_attrs c decode ctx src s)) [
        | inr (e, r) ↦ rw (stage_attrs, r) refl
        | inl (xa, r) ↦ rw (stage_attrs, r) (set_attrs-stored_ne c laws encode ctx tmp xa s j h)
      ]

  finish_copy-stored :
      (dont_write : Bool) (tmp dst : Bytes) (u : Bool) (s : State)
      → IsApart dst tmp
      → (finish_copy c dont_write tmp dst u s).0 ≡ none
      → stored (finish_copy c dont_write tmp dst u s).2 dst ≡ stored s tmp
  unfolding finish_copy
  finish_copy-stored dont_write tmp dst u s n h =
      let t = (commit_rename c tmp dst false u s).2 in
      let flag = (commit_rename c tmp dst false u s).1 in
      elim (Option-cases (commit_rename c tmp dst false u s).0) [
        | inr (e, r) ↦ absurd (ground arith)
        | inl r ↦ ground (
          arith,
          commit_rename-stored_dst c laws tmp dst s false u n.path_tmp r,
          commit_rename-stored_ne c laws (tmp ++ attrs_ext) (dst ++ attrs_ext) t false flag dst
              n.tmp_attrs_path n.path_attrs_path,
        )
      ]

  module _ (decode : Source Failure → Result Failure Xattrs) (encode : Xattrs → Bytes) where
    fill_copy-stored :
        (ctx : Option Failure) (dont_write : Bool) (src dst tmp : Bytes) (body : Source Failure)
        (f : Handle) (u : Bool) (s : State)
        → IsApart dst tmp
        → target f ≡ tmp
        → stored s tmp ≡ some []
        → (fill_copy c decode encode ctx dont_write src dst tmp body f u s).0 ≡ none
        → (b : Bytes) × (drain body ≡ some b)
          × (stored (fill_copy c decode encode ctx dont_write src dst tmp body f u s).2 dst
              ≡ some b)
    unfolding fill_copy
    fill_copy-stored (some e) dont_write src dst tmp body f u s n t empty h = absurd (ground arith)
    fill_copy-stored none dont_write src dst tmp body f u s n t empty h =
        let s1 = (copy_file c f body s).1 in
        let s2 = (close f s1).1 in
        let s3 = (stage_attrs c decode encode none dont_write src tmp s2).1 in
        elim (Option-cases (copy_file c f body s).0) [
          | inr (e, r) ↦ absurd (ground arith)
          | inl r ↦ elim (Option-cases (close f s1).0) [
            | inr (e, k) ↦ absurd (ground arith)
            | inl k ↦
                elim (Option-cases (stage_attrs c decode encode none dont_write src tmp s2).0) [
                  | inr (e, a) ↦ absurd (ground arith)
                  | inl a ↦
                      let (b, drained, there) =
                        copy_file-stored f body s [] (ap (stored s) t ∙ empty) r in
                      let same : fill_copy c decode encode none dont_write src dst tmp body f u s
                          ≡ finish_copy c dont_write tmp dst u s3 =
                        ground arith in
                      let kept =
                        stage_attrs-stored_ne decode encode none dont_write src tmp s2 tmp
                          n.tmp_attrs_tmp in
                      (
                        b,
                        drained,
                        rw same (
                            finish_copy-stored dont_write tmp dst u s3 n (rw same at h)
                            ∙ kept
                            ∙ laws.close-stored f s1 tmp
                            ∙ ap (stored s1) (sym t)
                            ∙ there),
                      )
                ]
          ]
        ]

    copy_paths-stored :
        (dir_of : Bytes → Bytes) (ctx : Option Failure) (dont_write : Bool) (src dst stamp : Bytes)
        (hook : Option Failure) (u : Bool) (s : State)
        → (copy_paths c decode encode dir_of ctx dont_write src dst stamp hook u s).0 ≡ none
        → (b : Bytes) × (stored s src ≡ some b)
          × (stored (copy_paths c decode encode dir_of ctx dont_write src dst stamp hook u s).2 dst
              ≡ some b)
    unfolding copy_paths
    copy_paths-stored dir_of ctx dont_write src dst stamp hook u s h =
        let tmp = dst ++ (temp_infix ++ stamp) in
        let s1 = (mkdir_all (dir_of dst) s).1 in
        elim (Result-cases (open_file src s)) [
          | inr (e, o) ↦ absurd (ground arith)
          | inl (f, o) ↦ elim (Option-cases hook) [
            | inr (e, k) ↦ absurd (ground arith)
            | inl k ↦ elim (Option-cases (mkdir_all (dir_of dst) s).0) [
              | inr (e, m) ↦ absurd (ground arith)
              | inl m ↦ elim (Result-cases (open_new tmp s1).0) [
                | inr (e, r) ↦ absurd (ground arith)
                | inl (g, r) ↦
                    let s2 = (open_new tmp s1).1 in
                    let same : copy_paths c decode encode dir_of ctx dont_write src dst stamp hook u
                          s
                        ≡ fill_copy c decode encode ctx dont_write src dst tmp (contents f (pos 0))
                            g u s2 =
                      ground arith in
                    let (b, drained, there) =
                      fill_copy-stored ctx dont_write src dst tmp (contents f (pos 0)) g u s2
                        (apart dst stamp) (laws.open_new-target tmp s1 g r)
                        (laws.open_new-stored_self tmp s1 g r) (rw same at h) in
                    (b, laws.open_file-stored src s f b o drained, rw same there)
              ]
            ]
          ]
        ]

    -- A Copy without error has left at the destination's path the bytes that the source's path had.
    pub copy_blob-stored :
        (join : Bytes → Bytes → Bytes) (dir_of : Bytes → Bytes)
        (hex_escape : (List ℕ → ℕ → Bool) → Bytes → Bytes) (dir : Bytes) (ctx : Option Failure)
        (dont_write : Bool) (dst_key src_key stamp : Bytes) (hook : Option Failure) (u : Bool)
        (s : State)
        → (copy_blob c decode encode join dir_of hex_escape dir ctx dont_write dst_key src_key stamp
            hook u s).0
          ≡ none
        → (src : Bytes) × (dst : Bytes) × (b : Bytes) × (full_path join hex_escape dir src_key
            ≡ ok src)
          × (full_path join hex_escape dir dst_key ≡ ok dst)
          × (stored s src ≡ some b)
          × (stored
                (copy_blob c decode encode join dir_of hex_escape dir ctx dont_write dst_key src_key
                  stamp hook u s).2
                dst
              ≡ some b)
    unfolding copy_blob
    copy_blob-stored join dir_of hex_escape dir ctx dont_write dst_key src_key stamp hook u s h =
        elim (Bool-cases (eqb dst_key [] || eqb src_key [])) [
          | inl k ↦ absurd (ground arith)
          | inr k ↦ elim (Result-cases (full_path join hex_escape dir src_key)) [
            | inr (e, p) ↦ absurd (ground arith)
            | inl (src, p) ↦ elim (Result-cases (full_path join hex_escape dir dst_key)) [
              | inr (e, q) ↦ absurd (ground arith)
              | inl (dst, q) ↦
                  let same : copy_blob c decode encode join dir_of hex_escape dir ctx dont_write
                        dst_key src_key stamp hook u s
                      ≡ copy_paths c decode encode dir_of ctx dont_write src dst stamp hook u s =
                    ground arith in
                  let (b, there, copied) =
                    copy_paths-stored dir_of ctx dont_write src dst stamp hook u s (rw same at h) in
                  (src, dst, b, p, q, there, rw same copied)
            ]
          ]
        ]
