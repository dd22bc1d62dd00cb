-- ===== src/Sftp/Write/Staged.antt =====
-- The staged file: it is opened empty, and holds what has been written.
use mathlib.Core.Path.{subst}
use gocloud_ext.Common.{
  ℕ, Bytes, Bool, false, Option, none, some, ok, [], ◌++◌, ◌≡◌, sym, ap, ◌∙◌, inl, inr, arith,
  if_both, Option-cases, Result-cases,
}
use gocloud_ext.Sftp.{Failure, temp_infix}
use gocloud_ext.Sftp.Server.{Server}
use gocloud_ext.Sftp.Server.Laws.{Laws}
use gocloud_ext.Sftp.Write.{
  Writer, FileOptions, writer_attrs, start_writer, write_open, write_bytes,
}
use gocloud_ext.Sftp.Write.Names.{IsApart, apart}

-- The handle writes to the staged file, which lies apart and holds what has been written.
pub record IsStaged (c : Server) (laws : Laws c) (w : Writer c.Handle) (s : c.State) : Type 0 where
  pub handle_tmp : laws.target w.handle ≡ w.tmp
  pub names : IsApart w.path w.tmp
  pub content : w.failed ≡ false → laws.stored s w.tmp ≡ some w.hashed

module _ (c : Server) (laws : Laws c) where
  open c use {State, Handle, open_new, close, remove, write}
  open laws use {stored, target}

  start_writer-ok :
      (dont_write : Bool) (content_type p stamp : Bytes) (o : FileOptions) (s : State)
      (w : Writer Handle)
      → (start_writer c dont_write content_type p stamp o s).0 ≡ ok w
      → IsStaged c laws w (start_writer c dont_write content_type p stamp o s).1
  unfolding start_writer
  start_writer-ok dont_write content_type p stamp o s w h =
      let tmp = p ++ (temp_infix ++ stamp) in
      elim (Result-cases (open_new tmp s).0) [
        | inr (e, r) ↦ absurd (let k = rw (start_writer, r) at h in ground arith)
        | inl (f, r) ↦ elim (Option-cases o.before_write) [
          | inr (e, b) ↦ absurd (let k = rw (start_writer, r, b) at h in ground arith)
          | inl b ↦
              let v : Writer Handle = record {
                handle = f;
                path = p;
                tmp = tmp;
                attrs = writer_attrs dont_write content_type o;
                content_md5 = o.content_md5;
                hashed = [];
                closed = false;
                if_not_exist = o.if_not_exist;
                failed = false;
              } in
              let k = rw (start_writer, r, b) at h in
              let same : v ≡ w = cc in
              let staged : IsStaged c laws v (open_new tmp s).1 = record {
                handle_tmp = laws.open_new-target tmp s f r;
                names = apart p stamp;
                content = λ _. laws.open_new-stored_self tmp s f r;
              } in
              rw (start_writer, r, b)
                (subst (λ x. IsStaged c laws x (open_new tmp s).1) same staged)
        ]
      ]

  write_open-IsStaged :
      (w : Writer Handle) (p : Bytes) (ctx : Option Failure) (s : State)
      → IsStaged c laws w s
      → IsStaged c laws (write_open c w p ctx s).2 (write_open c w p ctx s).3
  unfolding write_open
  write_open-IsStaged w p (some e) s h = h
  write_open-IsStaged w p none s h = elim (Option-cases (write w.handle p s).1) [
    | inr (e, r) ↦
        rw (write_open, r)
          (record {
            handle_tmp = h.handle_tmp;
            names = h.names;
            content = λ f. absurd (ground arith);
          })
    | inl r ↦
        rw (write_open, r)
          (record {
            handle_tmp = h.handle_tmp;
            names = h.names;
            content = λ f.
                ap (stored (write w.handle p s).2) (sym h.handle_tmp)
                ∙ laws.write-stored_self w.handle p w.hashed s r
                    (ap (stored s) h.handle_tmp ∙ h.content f);
          })
  ]

  -- A Write keeps the staged file in step with what has been written, also one that fails.
  pub write_bytes-IsStaged :
      (w : Writer Handle) (p : Bytes) (ctx : Option Failure) (s : State)
      → IsStaged c laws w s
      → IsStaged c laws (write_bytes c w p ctx s).2 (write_bytes c w p ctx s).3
  unfolding write_bytes
  write_bytes-IsStaged w p ctx s h =
      if_both (λ (r : ℕ × Option Failure × Writer Handle × State). IsStaged c laws r.2 r.3) w.closed
        _ _ h (write_open-IsStaged w p ctx s h)
