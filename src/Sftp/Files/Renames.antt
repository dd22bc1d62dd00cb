-- ===== src/Sftp/Files/Renames.antt =====
-- What commitRename leaves at the destination and elsewhere.
use gocloud_ext.Common.{
  Bytes, Bool, true, false, none, some, eqb, ◌≡◌, refl, ◌⊎◌, inl, inr, arith, Option-cases,
  Result-cases,
}
use gocloud_ext.Sftp.{Failure}
use gocloud_ext.Sftp.Server.{Server}
use gocloud_ext.Sftp.Server.Laws.{Laws, IsExclusive}
use gocloud_ext.Sftp.Files.{rename_new, replace, commit_rename}

module _ (c : Server) (laws : Laws c) where
  open c use {State, stat, rename, posix_rename, remove}
  open laws use {stored}

  -- The object at a key after a step on the server, where the step either worked or failed.
  rename_new-stored_dst :
      (src dst : Bytes) (s : State)
      → (rename_new c src dst s).0 ≡ none
      → stored (rename_new c src dst s).1 dst ≡ stored s src
  unfolding rename_new
  rename_new-stored_dst src dst s h = ground (arith, laws.rename-stored_dst src dst s)

  rename_new-stored_ne :
      (src dst : Bytes) (s : State) (j : Bytes)
      → eqb src j ≡ false
      → eqb dst j ≡ false
      → stored (rename_new c src dst s).1 j ≡ stored s j
  unfolding rename_new
  rename_new-stored_ne src dst s j h k = ground (arith, laws.rename-stored_ne src dst s j)

  rename_new-failed :
      (src dst : Bytes) (s : State) (e : Failure) (j : Bytes)
      → (rename_new c src dst s).0 ≡ some e
      → stored (rename_new c src dst s).1 j ≡ stored s j
  unfolding rename_new
  rename_new-failed src dst s e j h = elim (Result-cases (stat dst s)) [
    | inl (info, a) ↦ rw (rename_new, a) refl
    | inr (gone, a) ↦ elim (Option-cases (rename src dst s).0) [
      | inl r ↦ absurd (ground arith)
      | inr (x, r) ↦ rw (rename_new, a, r) (laws.rename-failed src dst s x j r)
    ]
  ]

  rename_new-fresh :
      (src dst : Bytes) (s : State)
      → IsExclusive c laws
      → (rename_new c src dst s).0 ≡ none
      → stored s dst ≡ none
  unfolding rename_new
  rename_new-fresh src dst s exclusive h = ground (arith, exclusive src dst s)

  replace-stored_dst :
      (src dst : Bytes) (s : State)
      → eqb dst src ≡ false
      → (replace c src dst s).0 ≡ none
      → stored (replace c src dst s).1 dst ≡ stored s src
  unfolding replace
  replace-stored_dst src dst s ne h =
      ground
        (arith, laws.rename-stored_dst src dst (remove dst s).1, laws.remove-stored_ne dst s src)

  replace-stored_ne :
      (src dst : Bytes) (s : State) (j : Bytes)
      → eqb src j ≡ false
      → eqb dst j ≡ false
      → stored (replace c src dst s).1 j ≡ stored s j
  unfolding replace
  replace-stored_ne src dst s j h k =
      ground
        (arith, laws.rename-stored_ne src dst (remove dst s).1 j, laws.remove-stored_ne dst s j)

  -- A failed replacement has kept the destination, or lost it.
  replace-failed :
      (src dst : Bytes) (s : State) (e : Failure)
      → (replace c src dst s).0 ≡ some e
      → (stored (replace c src dst s).1 dst ≡ stored s dst)
        ⊎ (stored (replace c src dst s).1 dst ≡ none)
  unfolding replace
  replace-failed src dst s e h = elim (Option-cases (remove dst s).0) [
    | inl r ↦ inr (
        ground
          (arith, laws.rename-failed src dst (remove dst s).1 e dst, laws.remove-stored_self dst s))
    | inr (x, r) ↦ inl (
        ground (
          arith,
          laws.rename-failed src dst (remove dst s).1 e dst,
          laws.remove-failed dst s x dst,
        ))
  ]

  module _ (src dst : Bytes) (s : State) where
    pub commit_rename-stored_dst :
        (if_not_exist unsupported : Bool)
        → eqb dst src ≡ false
        → (commit_rename c src dst if_not_exist unsupported s).0 ≡ none
        → stored (commit_rename c src dst if_not_exist unsupported s).2 dst ≡ stored s src
    unfolding commit_rename
    commit_rename-stored_dst true u ne h = rename_new-stored_dst src dst s h
    commit_rename-stored_dst false true ne h = replace-stored_dst src dst s ne h
    commit_rename-stored_dst false false ne h = elim (Option-cases (posix_rename src dst s).0) [
      | inl r ↦ rw (commit_rename, r) (laws.posix_rename-stored_dst src dst s r)
      | inr (x, r) ↦ ground (
        arith,
        laws.posix_rename-failed src dst s x src r,
        replace-stored_dst src dst (posix_rename src dst s).1 ne,
      )
    ]

    pub commit_rename-stored_ne :
        (if_not_exist unsupported : Bool) (j : Bytes)
        → eqb src j ≡ false
        → eqb dst j ≡ false
        → stored (commit_rename c src dst if_not_exist unsupported s).2 j ≡ stored s j
    unfolding commit_rename
    commit_rename-stored_ne true u j h k = rename_new-stored_ne src dst s j h k
    commit_rename-stored_ne false true j h k = replace-stored_ne src dst s j h k
    commit_rename-stored_ne false false j h k = ground (
      arith,
      laws.posix_rename-stored_ne src dst s j h k,
      replace-stored_ne src dst (posix_rename src dst s).1 j h k,
    )

    pub commit_rename-failed :
        (if_not_exist unsupported : Bool) (e : Failure)
        → (commit_rename c src dst if_not_exist unsupported s).0 ≡ some e
        → (stored (commit_rename c src dst if_not_exist unsupported s).2 dst ≡ stored s dst)
          ⊎ ((if_not_exist ≡ false)
              × (stored (commit_rename c src dst if_not_exist unsupported s).2 dst ≡ none))
    unfolding commit_rename
    commit_rename-failed true u e h = inl (rename_new-failed src dst s e dst h)
    commit_rename-failed false true e h = ground (arith, replace-failed src dst s e h)
    commit_rename-failed false false e h = elim (Option-cases (posix_rename src dst s).0) [
      | inl r ↦ absurd (ground arith)
      | inr (x, r) ↦ ground (
        arith,
        laws.posix_rename-failed src dst s x dst r,
        replace-failed src dst (posix_rename src dst s).1 e,
      )
    ]

    pub commit_rename-fresh :
        (if_not_exist unsupported : Bool)
        → IsExclusive c laws
        → if_not_exist ≡ true
        → (commit_rename c src dst if_not_exist unsupported s).0 ≡ none
        → stored s dst ≡ none
    unfolding commit_rename
    commit_rename-fresh true u exclusive i h = rename_new-fresh src dst s exclusive h
    commit_rename-fresh false u exclusive i h = absurd (ground arith)
