-- ===== src/Sftp/Write/Refused.antt =====
-- A Close that must not replace a blob, where one is there.
use gocloud_ext.Common.{
  Bytes, Bool, true, Option, none, ◌≡◌, ◌≢◌, refl, sym, ◌∙◌, inl, inr, arith, if_both, Option-cases,
}
use gocloud_ext.Sftp.{Failure}
use gocloud_ext.Sftp.Server.{Server}
use gocloud_ext.Sftp.Server.Laws.{Laws, IsExclusive}
use gocloud_ext.Sftp.Files.{Xattrs, set_attrs, commit_rename}
use gocloud_ext.Sftp.Files.Renames.{commit_rename-failed, commit_rename-fresh}
use gocloud_ext.Sftp.Files.Sidecars.{set_attrs-stored_ne}
use gocloud_ext.Sftp.Write.{
  Writer, discard, publish_file, commit_file, finish_file, refusal, close_writer,
}
use gocloud_ext.Sftp.Write.Names.{IsApart}
use gocloud_ext.Sftp.Write.Closed.{discard-stored_ne}

module _ (c : Server) (laws : Laws c) (exclusive : IsExclusive c laws) where
  open c use {State, Handle, close, remove}
  open laws use {stored}

  -- The step failed and left the blob as it was.
  abbrev pub IsRefused : Writer Handle → State → Option Failure → State → Type 0
  IsRefused w s failure t = (failure ≢ none) × (stored t w.path ≡ stored s w.path)

  module _ (w : Writer Handle) (n : IsApart w.path w.tmp)
      (conditional : w.if_not_exist ≡ true) where
    discard-IsRefused :
        (e : Failure) (u : Bool) (s : State)
        → IsRefused w s (discard c w e u s).0 (discard c w e u s).2
    unfolding discard
    discard-IsRefused e u s =
        (ground arith, discard-stored_ne c laws w e u s w.path n.tmp_path n.tmp_attrs_path)

    publish_file-IsRefused :
        (u : Bool) (s : State)
        → stored s w.path ≢ none
        → IsRefused w s (publish_file c w u s).0 (publish_file c w u s).2
    unfolding publish_file
    publish_file-IsRefused u s there =
        let t = (commit_rename c w.tmp w.path w.if_not_exist u s).2 in
        let flag = (commit_rename c w.tmp w.path w.if_not_exist u s).1 in
        elim (Option-cases (commit_rename c w.tmp w.path w.if_not_exist u s).0) [
          | inl r ↦ absurd (
              there (
                commit_rename-fresh c laws w.tmp w.path s w.if_not_exist u exclusive conditional r))
          | inr (e, r) ↦ ground (
            arith,
            commit_rename-failed c laws w.tmp w.path s w.if_not_exist u e r,
            discard-IsRefused e flag t,
          )
        ]

    commit_file-IsRefused :
        (md5 : Bytes → Bytes) (encode : Xattrs → Bytes) (ctx : Option Failure) (u : Bool)
        (s : State)
        → stored s w.path ≢ none
        → IsRefused w s
            (commit_file c md5 encode w ctx u s).0
            (commit_file c md5 encode w ctx u s).2
    unfolding commit_file
    commit_file-IsRefused md5 encode ctx u s there = elim (Option-cases w.attrs) [
      | inl a ↦ ground (arith, publish_file-IsRefused u s there)
      | inr (xa, a) ↦
          let ya = record xa { md5 = md5 w.hashed } in
          let t = (set_attrs c encode ctx w.tmp ya s).1 in
          let kept = set_attrs-stored_ne c laws encode ctx w.tmp ya s w.path n.tmp_attrs_path in
          elim (Option-cases (set_attrs c encode ctx w.tmp ya s).0) [
            | inr (e, r) ↦ ground (arith, kept, discard-IsRefused e u t)
            | inl r ↦ ground (arith, kept, publish_file-IsRefused u t (λ g. there (sym kept ∙ g)))
          ]
    ]

    finish_file-IsRefused :
        (md5 : Bytes → Bytes) (encode : Xattrs → Bytes) (ctx : Option Failure) (u : Bool)
        (close_failure : Option Failure) (s : State)
        → stored s w.path ≢ none
        → IsRefused w s
            (finish_file c md5 encode w ctx u close_failure s).0
            (finish_file c md5 encode w ctx u close_failure s).2
    unfolding finish_file
    finish_file-IsRefused md5 encode ctx u close_failure s there =
        elim (Option-cases (refusal c md5 w close_failure ctx)) [
          | inr (e, r) ↦ ground (arith, discard-IsRefused e u s)
          | inl r ↦ ground (arith, commit_file-IsRefused md5 encode ctx u s there)
        ]

    -- On a server whose rename never replaces, a Close with IfNotExist fails where there is a blob at
    -- the path, and leaves that blob as it was.
    pub close_writer-IsRefused :
        (md5 : Bytes → Bytes) (encode : Xattrs → Bytes) (ctx : Option Failure) (u : Bool)
        (s : State)
        → stored s w.path ≢ none
        → IsRefused w s
            (close_writer c md5 encode w ctx u s).0
            (close_writer c md5 encode w ctx u s).3
    unfolding close_writer
    close_writer-IsRefused md5 encode ctx u s there =
        let t = (close w.handle s).1 in
        let kept = laws.close-stored w.handle s w.path in
        let refused =
          finish_file-IsRefused md5 encode ctx u (close w.handle s).0 t
            (λ g. there (sym kept ∙ g)) in
        if_both (λ (r : Option Failure × Writer Handle × Bool × State). IsRefused w s r.0 r.3)
          w.closed _ _ (ground arith, refl) (refused.0, refused.1 ∙ kept)
