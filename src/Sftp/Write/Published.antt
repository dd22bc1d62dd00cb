-- ===== src/Sftp/Write/Published.antt =====
-- A Close without error, and one that must not replace a blob.
use mathlib.Core.Option.{some-injective}
use gocloud_ext.Common.{
  Bytes, Bool, false, Option, none, some, ◌++◌, ◌≡◌, sym, ap, ◌∙◌, inl, inr, arith, Bool-cases,
  if_both, Option-cases,
}
use gocloud_ext.Sftp.{Failure, attrs_ext}
use gocloud_ext.Sftp.Server.{Server}
use gocloud_ext.Sftp.Server.Laws.{Laws}
use gocloud_ext.Sftp.Files.{Xattrs, set_attrs, commit_rename}
use gocloud_ext.Sftp.Files.Renames.{commit_rename-stored_dst, commit_rename-stored_ne}
use gocloud_ext.Sftp.Files.Sidecars.{set_attrs-stored, set_attrs-stored_ne}
use gocloud_ext.Sftp.Write.{
  Writer, discard, publish_file, commit_file, finish_file, refusal, close_writer,
}
use gocloud_ext.Sftp.Write.Names.{IsApart}
use gocloud_ext.Sftp.Write.Staged.{IsStaged}

module _ (c : Server) (laws : Laws c) where
  open c use {State, Handle, close, remove}
  open laws use {stored}

  publish_file-stored :
      (w : Writer Handle) (u : Bool) (s : State)
      → IsApart w.path w.tmp
      → stored s w.tmp ≡ some w.hashed
      → (publish_file c w u s).0 ≡ none
      → stored (publish_file c w u s).2 w.path ≡ some w.hashed
  unfolding publish_file discard
  publish_file-stored w u s n staged h =
      let t = (commit_rename c w.tmp w.path w.if_not_exist u s).2 in
      let flag = (commit_rename c w.tmp w.path w.if_not_exist u s).1 in
      elim (Option-cases (commit_rename c w.tmp w.path w.if_not_exist u s).0) [
        | inr (e, r) ↦ absurd (ground arith)
        | inl r ↦ ground (
          arith,
          commit_rename-stored_dst c laws w.tmp w.path s w.if_not_exist u n.path_tmp r,
          commit_rename-stored_ne c laws (w.tmp ++ attrs_ext) (w.path ++ attrs_ext) t false flag
              w.path n.tmp_attrs_path n.path_attrs_path,
        )
      ]

  -- The sidecar is published beside it.
  publish_file-attrs :
      (w : Writer Handle) (u : Bool) (s : State) (xa : Xattrs) (b : Bytes)
      → IsApart w.path w.tmp
      → w.attrs ≡ some xa
      → stored s (w.tmp ++ attrs_ext) ≡ some b
      → (publish_file c w u s).0 ≡ none
      → stored (publish_file c w u s).2 (w.path ++ attrs_ext) ≡ some b
  unfolding publish_file discard
  publish_file-attrs w u s xa b n a staged h =
      let t = (commit_rename c w.tmp w.path w.if_not_exist u s).2 in
      let flag = (commit_rename c w.tmp w.path w.if_not_exist u s).1 in
      elim (Option-cases (commit_rename c w.tmp w.path w.if_not_exist u s).0) [
        | inr (e, r) ↦ absurd (ground arith)
        | inl r ↦ ground (
          arith,
          commit_rename-stored_dst c laws (w.tmp ++ attrs_ext) (w.path ++ attrs_ext) t false flag
              n.path_attrs_tmp_attrs,
          commit_rename-stored_ne c laws w.tmp w.path s w.if_not_exist u (w.tmp ++ attrs_ext)
              n.tmp_tmp_attrs n.path_tmp_attrs,
        )
      ]

  -- What a file that is closed without error has published.
  abbrev pub IsPublished : (Bytes → Bytes) → (Xattrs → Bytes) → Writer Handle → State → Type 0
  IsPublished md5 encode w t =
      (stored t w.path ≡ some w.hashed)
      × ((xa : Xattrs)
          → w.attrs ≡ some xa
          → stored t (w.path ++ attrs_ext) ≡ some (encode (record xa { md5 = md5 w.hashed })))

  commit_file-IsPublished :
      (md5 : Bytes → Bytes) (encode : Xattrs → Bytes) (w : Writer Handle) (ctx : Option Failure)
      (u : Bool) (s : State)
      → IsApart w.path w.tmp
      → stored s w.tmp ≡ some w.hashed
      → (commit_file c md5 encode w ctx u s).0 ≡ none
      → IsPublished md5 encode w (commit_file c md5 encode w ctx u s).2
  unfolding commit_file discard
  commit_file-IsPublished md5 encode w ctx u s n staged h = elim (Option-cases w.attrs) [
    | inl a ↦ (ground (arith, publish_file-stored w u s n staged), λ xa b. absurd (ground arith))
    | inr (xa, a) ↦
        let ya = record xa { md5 = md5 w.hashed } in
        let t = (set_attrs c encode ctx w.tmp ya s).1 in
        elim (Option-cases (set_attrs c encode ctx w.tmp ya s).0) [
          | inr (e, r) ↦ absurd (ground arith)
          | inl r ↦
              let done : (publish_file c w u t).0 ≡ none = ground arith in
              let blob =
                publish_file-stored w u t n
                  (set_attrs-stored_ne c laws encode ctx w.tmp ya s w.tmp n.tmp_attrs_tmp ∙ staged)
                  done in
              let sidecar =
                publish_file-attrs w u t xa (encode ya) n a
                  (set_attrs-stored c laws encode ctx w.tmp ya s r) done in
              (
                ground (arith, blob),
                λ xb b.
                    let here : stored (commit_file c md5 encode w ctx u s).2 (w.path ++ attrs_ext)
                        ≡ some (encode ya) =
                      ground (arith, sidecar) in
                    here
                    ∙ ap (λ (z : Xattrs). some (encode (record z { md5 = md5 w.hashed })))
                        (some-injective xa xb (sym a ∙ b)),
              )
        ]
  ]

  finish_file-IsPublished :
      (md5 : Bytes → Bytes) (encode : Xattrs → Bytes) (w : Writer Handle) (ctx : Option Failure)
      (u : Bool) (close_failure : Option Failure) (s : State)
      → IsApart w.path w.tmp
      → (w.failed ≡ false → stored s w.tmp ≡ some w.hashed)
      → (finish_file c md5 encode w ctx u close_failure s).0 ≡ none
      → IsPublished md5 encode w (finish_file c md5 encode w ctx u close_failure s).2
  unfolding finish_file refusal discard
  finish_file-IsPublished md5 encode w ctx u close_failure s n staged h =
      elim (Bool-cases w.failed) [
        | inl f ↦ absurd (ground arith)
        | inr f ↦ elim (Option-cases (refusal c md5 w close_failure ctx)) [
          | inr (e, r) ↦ absurd (ground arith)
          | inl r ↦
              let same : finish_file c md5 encode w ctx u close_failure s
                  ≡ commit_file c md5 encode w ctx u s =
                ground arith in
              rw same (commit_file-IsPublished md5 encode w ctx u s n (staged f) (rw same at h))
        ]
      ]

  -- A Close without error of a staged writer has published exactly the bytes that were written, and
  -- beside them the sidecar of a writer that has one, with their MD5.
  pub close_writer-IsPublished :
      (md5 : Bytes → Bytes) (encode : Xattrs → Bytes) (w : Writer Handle) (ctx : Option Failure)
      (u : Bool) (s : State)
      → IsStaged c laws w s
      → (close_writer c md5 encode w ctx u s).0 ≡ none
      → IsPublished md5 encode w (close_writer c md5 encode w ctx u s).3
  unfolding close_writer
  close_writer-IsPublished md5 encode w ctx u s h done =
      let t = (close w.handle s).1 in
      if_both
        (λ (r : Option Failure × Writer Handle × Bool × State).
          r.0 ≡ none → IsPublished md5 encode w r.3)
        w.closed _ _ (λ k. absurd (ground arith))
        (λ k.
          finish_file-IsPublished md5 encode w ctx u (close w.handle s).0 t h.names
            (λ f. laws.close-stored w.handle s w.tmp ∙ h.content f) k)
        done
