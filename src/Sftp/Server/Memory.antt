-- ===== src/Sftp/Server/Memory.antt =====
-- A server in memory, on which the tests run; it models no code of the repository.
use gocloud_ext.Common.{
  ℕ, pos, pos_part, Bytes, true, false, if◌then◌else◌, Option, none, some, Result, ok, err, [],
  ◌++◌, length, drop, append-nil, eqb, eqb_refl, ◌≡◌, refl, sym, ap, ◌∙◌, arith,
}
use gocloud_ext.Blob.{eof, chunk}
use gocloud_ext.Sftp.{FileInfo, Failure}
use gocloud_ext.Sftp.Server.{Server, plain_error}
use gocloud_ext.Sftp.Server.Laws.{Laws, IsExclusive}

abbrev pub Disk : Type 0
Disk = Bytes → Option Bytes

abbrev pub put : Bytes → Option Bytes → Disk → Disk
put k v m = λ j. if eqb k j then v else m j

abbrev pub missing : Failure
missing = record plain_error { is_not_exist = true }

abbrev pub taken : Failure
taken = record plain_error { is_exist = true }

abbrev pub disk_rename : Bytes → Bytes → Disk → Option Failure × Disk
disk_rename p q m = elim (m p) [
  | none ↦ (some missing, m)
  | some d ↦ (none, put q (some d) (put p none m))
]

abbrev pub disk_rename_new : Bytes → Bytes → Disk → Option Failure × Disk
disk_rename_new p q m = elim (m q) [ some d ↦ (some taken, m) | none ↦ disk_rename p q m ]

abbrev pub disk_remove : Bytes → Disk → Option Failure × Disk
disk_remove p m = elim (m p) [ none ↦ (some missing, m) | some d ↦ (none, put p none m) ]

abbrev pub disk_open_new : Bytes → Disk → Result Failure Bytes × Disk
disk_open_new p m = elim (m p) [ some d ↦ (err taken, m) | none ↦ (ok p, put p (some []) m) ]

abbrev pub disk_write : Bytes → Bytes → Disk → ℕ × Option Failure × Disk
disk_write h b m = elim (m h) [
  | none ↦ (0, some missing, m)
  | some d ↦ (length b, none, put h (some (d ++ b)) m)
]

abbrev pub disk_stat : Bytes → Disk → Result Failure FileInfo
disk_stat p m = elim (m p) [
  | none ↦ err missing
  | some d ↦ ok (record { name = p; is_dir = false; mod_time = pos 1; size = pos (length d) })
]

abbrev pub disk_open : Bytes → Disk → Result Failure Bytes
disk_open p m = elim (m p) [ none ↦ err missing | some d ↦ ok d ]

abbrev pub disk_server : Server
disk_server = record {
  State = Disk;
  Handle = Bytes;
  File = Bytes;
  stat = disk_stat;
  rename = disk_rename_new;
  posix_rename = disk_rename;
  remove = disk_remove;
  mkdir_all = λ p m. (none, m);
  open_new = disk_open_new;
  create = λ p m. (ok p, put p (some []) m);
  write = disk_write;
  close = λ h m. (none, m);
  open_file = disk_open;
  seek = λ f n. none;
  contents = λ d n. chunk (drop (pos_part n) d) eof;
}

pub put_self : (k : Bytes) (v : Option Bytes) (m : Disk) → put k v m k ≡ v
put_self k v m = ground (arith, eqb_refl k)

pub disk_open-ok : (p : Bytes) (m : Disk) (f : Bytes) → disk_open p m ≡ ok f → m p ≡ some f
disk_open-ok p m f h = ground arith

unfoldable pub disk_laws : Laws disk_server
disk_laws = record {
  stored = λ m j. m j;
  target = λ h. h;
  rename-stored_dst = λ p q m h. ground (arith, put_self q (m p) (put p none m), eqb_refl q);
  rename-stored_ne = λ p q m j h k. ground arith;
  rename-failed = λ p q m e j h. ground arith;
  posix_rename-stored_dst = λ p q m h. ground (arith, eqb_refl q);
  posix_rename-stored_ne = λ p q m j h k. ground arith;
  posix_rename-failed = λ p q m e j h. ground arith;
  remove-stored_self = λ p m h. ground (arith, eqb_refl p);
  remove-stored_ne = λ p m j h. ground arith;
  remove-failed = λ p m e j h. ground arith;
  mkdir_all-stored = λ p m j. refl;
  open_new-target = λ p m h k. ground arith;
  open_new-stored_self = λ p m h k. ground (arith, eqb_refl p);
  open_new-stored_ne = λ p m j h. ground arith;
  create-target = λ p m h k. ground arith;
  create-stored_self = λ p m h k. ground (arith, eqb_refl p);
  create-stored_ne = λ p m j h. ground arith;
  write-stored_self = λ h b d m k t. ground (arith, eqb_refl h);
  write-stored_ne = λ h b m j k. ground arith;
  close-stored = λ h m j. refl;
  open_file-stored = λ p m f d h k. disk_open-ok p m f h ∙ ap some (sym (append-nil f)) ∙ k;
}

pub disk_exclusive : IsExclusive disk_server disk_laws
unfolding disk_laws
disk_exclusive p q m h = ground arith
