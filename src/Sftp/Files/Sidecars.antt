-- ===== src/Sftp/Files/Sidecars.antt =====
-- What setAttrs writes.
use gocloud_ext.Common.{
  Bytes, false, Option, none, some, [], ◌++◌, eqb, ◌≡◌, refl, sym, ap, ◌∙◌, arith, Option-cases,
  Result-cases, inl, inr,
}
use gocloud_ext.Sftp.{Failure, attrs_ext}
use gocloud_ext.Sftp.Server.{Server}
use gocloud_ext.Sftp.Server.Laws.{Laws}
use gocloud_ext.Sftp.Files.{Xattrs, fill_attrs, set_attrs}

module _ (c : Server) (laws : Laws c) where
  open c use {State, Handle, create, close, write, remove}
  open laws use {stored, target}

  fill_attrs-stored_ne :
      (p body : Bytes) (f : Handle) (s : State) (j : Bytes)
      → target f ≡ p
      → eqb p j ≡ false
      → stored (fill_attrs c p body f s).1 j ≡ stored s j
  unfolding fill_attrs
  fill_attrs-stored_ne p body f s j t h = ground (
    arith,
    laws.write-stored_ne f body s j (ap (λ q. eqb q j) t ∙ h),
    laws.close-stored f (write f body s).2 j,
    laws.remove-stored_ne p (close f (write f body s).2).1 j h,
  )

  pub set_attrs-stored_ne :
      (encode : Xattrs → Bytes) (ctx : Option Failure) (p : Bytes) (xa : Xattrs) (s : State)
      (j : Bytes)
      → eqb (p ++ attrs_ext) j ≡ false
      → stored (set_attrs c encode ctx p xa s).1 j ≡ stored s j
  unfolding set_attrs
  set_attrs-stored_ne encode (some e) p xa s j h = refl
  set_attrs-stored_ne encode none p xa s j h = elim (Result-cases (create (p ++ attrs_ext) s).0) [
    | inr (e, r) ↦ rw (set_attrs, r) (laws.create-stored_ne (p ++ attrs_ext) s j h)
    | inl (f, r) ↦
        rw (set_attrs, r)
          (fill_attrs-stored_ne (p ++ attrs_ext) (encode xa) f _ j (laws.create-target _ s f r) h
            ∙ laws.create-stored_ne (p ++ attrs_ext) s j h)
  ]

  fill_attrs-stored :
      (p body : Bytes) (f : Handle) (s : State)
      → target f ≡ p
      → stored s p ≡ some []
      → (fill_attrs c p body f s).0 ≡ none
      → stored (fill_attrs c p body f s).1 p ≡ some body
  unfolding fill_attrs
  fill_attrs-stored p body f s t empty h = elim (Option-cases (write f body s).1) [
    | inr (e, r) ↦ absurd (ground arith)
    | inl r ↦
        rw (fill_attrs, r)
          (laws.close-stored f (write f body s).2 p
            ∙ ap (stored (write f body s).2) (sym t)
            ∙ laws.write-stored_self f body [] s r (ap (stored s) t ∙ empty))
  ]

  pub set_attrs-stored :
      (encode : Xattrs → Bytes) (ctx : Option Failure) (p : Bytes) (xa : Xattrs) (s : State)
      → (set_attrs c encode ctx p xa s).0 ≡ none
      → stored (set_attrs c encode ctx p xa s).1 (p ++ attrs_ext) ≡ some (encode xa)
  unfolding set_attrs
  set_attrs-stored encode (some e) p xa s h = absurd (ground arith)
  set_attrs-stored encode none p xa s h = elim (Result-cases (create (p ++ attrs_ext) s).0) [
    | inr (e, r) ↦ absurd (ground arith)
    | inl (f, r) ↦
        rw (set_attrs, r)
          (fill_attrs-stored (p ++ attrs_ext) (encode xa) f _ (laws.create-target _ s f r)
            (laws.create-stored_self _ s f r) (rw (set_attrs, r) at h))
  ]
