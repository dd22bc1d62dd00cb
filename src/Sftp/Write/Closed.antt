-- ===== src/Sftp/Write/Closed.antt =====
-- What Close leaves at the blob's path, and elsewhere.
use gocloud_ext.Common.{
  Bytes, Bool, false, Option, none, some, ◌++◌, eqb, ◌≡◌, refl, ◌∙◌, ◌⊎◌, inl, inr, arith,
  Bool-cases, if_both, Option-cases,
}
use gocloud_ext.Sftp.{Failure, attrs_ext}
use gocloud_ext.Sftp.Server.{Server, plain_error}
use gocloud_ext.Sftp.Server.Laws.{Laws}
use gocloud_ext.Sftp.Files.{Xattrs, set_attrs, commit_rename}
use gocloud_ext.Sftp.Files.Renames.{
  commit_rename-stored_dst, commit_rename-stored_ne, commit_rename-failed,
}
use gocloud_ext.Sftp.Files.Sidecars.{set_attrs-stored_ne}
use gocloud_ext.Sftp.Write.{
  Writer, drop_attrs, discard, publish_file, commit_file, finish_file, refusal, close_writer,
}
use gocloud_ext.Sftp.Write.Names.{IsApart}
use gocloud_ext.Sftp.Write.Staged.{IsStaged}

module _ (c : Server) (laws : Laws c) where
  open c use {State, Handle, close, remove}
  open laws use {stored}

  drop_attrs-stored_ne :
      (o : Option Xattrs) (tmp : Bytes) (s : State) (j : Bytes)
      → eqb (tmp ++ attrs_ext) j ≡ false
      → stored (drop_attrs c o tmp s).1 j ≡ stored s j
  unfolding drop_attrs
  drop_attrs-stored_ne none tmp s j h = refl
  drop_attrs-stored_ne (some xa) tmp s j h = laws.remove-stored_ne (tmp ++ attrs_ext) s j h

  pub discard-stored_ne :
      (w : Writer Handle) (e : Failure) (u : Bool) (s : State) (j : Bytes)
      → eqb w.tmp j ≡ false
      → eqb (w.tmp ++ attrs_ext) j ≡ false
      → stored (discard c w e u s).2 j ≡ stored s j
  unfolding discard
  discard-stored_ne w e u s j h k =
      laws.remove-stored_ne w.tmp _ j h ∙ drop_attrs-stored_ne w.attrs w.tmp s j k

  -- The blob is the old one, the new one, or, after a failed replacement, gone.
  abbrev pub IsWhole : Writer Handle → State → State → Type 0
  IsWhole w s t =
      (stored t w.path ≡ stored s w.path)
      ⊎ (stored t w.path ≡ some w.hashed)
      ⊎ ((w.if_not_exist ≡ false) × (stored t w.path ≡ none))

  publish_file-IsWhole :
      (w : Writer Handle) (u : Bool) (s : State)
      → IsApart w.path w.tmp
      → stored s w.tmp ≡ some w.hashed
      → IsWhole w s (publish_file c w u s).2
  unfolding publish_file
  publish_file-IsWhole w u s n staged =
      let t = (commit_rename c w.tmp w.path w.if_not_exist u s).2 in
      let flag = (commit_rename c w.tmp w.path w.if_not_exist u s).1 in
      elim (Option-cases (commit_rename c w.tmp w.path w.if_not_exist u s).0) [
        | inr (e, r) ↦ ground (
          arith,
          commit_rename-failed c laws w.tmp w.path s w.if_not_exist u e r,
          discard-stored_ne w e flag t w.path n.tmp_path n.tmp_attrs_path,
        )
        | inl r ↦ ground (
          arith,
          commit_rename-stored_dst c laws w.tmp w.path s w.if_not_exist u n.path_tmp r,
          commit_rename-stored_ne c laws (w.tmp ++ attrs_ext) (w.path ++ attrs_ext) t false flag
              w.path n.tmp_attrs_path n.path_attrs_path,
        )
      ]

  commit_file-IsWhole :
      (md5 : Bytes → Bytes) (encode : Xattrs → Bytes) (w : Writer Handle) (ctx : Option Failure)
      (u : Bool) (s : State)
      → IsApart w.path w.tmp
      → stored s w.tmp ≡ some w.hashed
      → IsWhole w s (commit_file c md5 encode w ctx u s).2
  unfolding commit_file
  commit_file-IsWhole md5 encode w ctx u s n staged = elim (Option-cases w.attrs) [
    | inl a ↦ ground (arith, publish_file-IsWhole w u s n staged)
    | inr (xa, a) ↦
        let t = (set_attrs c encode ctx w.tmp (record xa { md5 = md5 w.hashed }) s).1 in
        let sidecar = λ (j : Bytes) (h : eqb (w.tmp ++ attrs_ext) j ≡ false).
          set_attrs-stored_ne c laws encode ctx w.tmp (record xa { md5 = md5 w.hashed }) s j h in
        let kept = sidecar w.path n.tmp_attrs_path in
        let whole = publish_file-IsWhole w u t n (sidecar w.tmp n.tmp_attrs_tmp ∙ staged) in
        elim (Option-cases (set_attrs c encode ctx w.tmp (record xa { md5 = md5 w.hashed }) s).0) [
          | inr (e, r) ↦
              ground (arith, kept, discard-stored_ne w e u t w.path n.tmp_path n.tmp_attrs_path)
          | inl r ↦ ground (arith, kept, whole)
        ]
  ]

  finish_file-IsWhole :
      (md5 : Bytes → Bytes) (encode : Xattrs → Bytes) (w : Writer Handle) (ctx : Option Failure)
      (u : Bool) (close_failure : Option Failure) (s : State)
      → IsApart w.path w.tmp
      → (w.failed ≡ false → stored s w.tmp ≡ some w.hashed)
      → IsWhole w s (finish_file c md5 encode w ctx u close_failure s).2
  unfolding finish_file refusal
  finish_file-IsWhole md5 encode w ctx u close_failure s n staged = elim (Bool-cases w.failed) [
    | inl f ↦ ground (arith, discard-stored_ne w plain_error u s w.path n.tmp_path n.tmp_attrs_path)
    | inr f ↦ elim (Option-cases (refusal c md5 w close_failure ctx)) [
      | inr (e, r) ↦ ground (arith, discard-stored_ne w e u s w.path n.tmp_path n.tmp_attrs_path)
      | inl r ↦ ground (arith, commit_file-IsWhole md5 encode w ctx u s n (staged f))
    ]
  ]

  -- Whatever its outcome, Close of a staged writer leaves at the blob's path what was there, or
  -- exactly the bytes that were written, or, unless IfNotExist was asked for, nothing.
  pub close_writer-IsWhole :
      (md5 : Bytes → Bytes) (encode : Xattrs → Bytes) (w : Writer Handle) (ctx : Option Failure)
      (u : Bool) (s : State)
      → IsStaged c laws w s
      → IsWhole w s (close_writer c md5 encode w ctx u s).3
  unfolding close_writer
  close_writer-IsWhole md5 encode w ctx u s h =
      let t = (close w.handle s).1 in
      let whole =
        finish_file-IsWhole md5 encode w ctx u (close w.handle s).0 t h.names
          (λ f. laws.close-stored w.handle s w.tmp ∙ h.content f) in
      if_both (λ (r : Option Failure × Writer Handle × Bool × State). IsWhole w s r.3) w.closed _ _
        (inl refl) (ground (arith, whole, laws.close-stored w.handle s w.path))
