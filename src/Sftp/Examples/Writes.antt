-- ===== src/Sftp/Examples/Writes.antt =====
-- Writers and copies on the server in memory.
use gocloud_ext.Common.{
  ℕ, Bytes, Bool, true, false, List, Option, none, some, Result, ok, codes, [], ◌++◌, has_prefix,
  has_suffix, contains, eqb, ◌≡◌, ◌≢◌, refl, arith,
}
use gocloud_ext.Blob.{Source}
use gocloud_ext.Sftp.{Failure, temp_infix}
use gocloud_ext.Sftp.Server.Memory.{Disk, put, disk_server, disk_laws, disk_exclusive}
use gocloud_ext.Sftp.Files.{Xattrs, default_attrs, full_path, commit_rename, get_attrs, set_attrs}
use gocloud_ext.Sftp.Write.{Writer, close_writer}
use gocloud_ext.Sftp.Write.Names.{apart}
use gocloud_ext.Sftp.Write.Staged.{IsStaged}
use gocloud_ext.Sftp.Write.Closed.{IsWhole, close_writer-IsWhole}
use gocloud_ext.Sftp.Write.Published.{IsPublished, close_writer-IsPublished}
use gocloud_ext.Sftp.Write.Refused.{IsRefused, close_writer-IsRefused}
use gocloud_ext.Sftp.Copies.{copy_blob, copy_file}
use gocloud_ext.Sftp.Copies.Copied.{copy_blob-stored}

abbrev path : Bytes
path = codes "d/a"

abbrev staged_at : Bytes
staged_at = path ++ (temp_infix ++ codes "1")

abbrev writer : Bool → Writer Bytes
writer if_not_exist = record {
  handle = staged_at;
  path = path;
  tmp = staged_at;
  attrs = some default_attrs;
  content_md5 = [];
  hashed = codes "new";
  closed = false;
  if_not_exist = if_not_exist;
  failed = false;
}

abbrev disk : Disk
disk = put path (some (codes "old")) (put staged_at (some (codes "new")) (λ j. none))

abbrev sum : Bytes → Bytes
sum s = codes "sum"

abbrev encode : Xattrs → Bytes
encode xa = xa.md5

staged : (b : Bool) → IsStaged disk_server disk_laws (writer b) disk
unfolding disk_laws eqb
staged b = record { handle_tmp = refl; names = apart path (codes "1"); content = λ f. refl }

closes : (close_writer disk_server sum encode (writer false) none false disk).0 ≡ none
unfolding close_writer eqb set_attrs commit_rename
closes = refl

close_writer-IsPublished_example :
    IsPublished disk_server disk_laws sum encode
      (writer false)
      (close_writer disk_server sum encode (writer false) none false disk).3
close_writer-IsPublished_example =
    close_writer-IsPublished disk_server disk_laws sum encode (writer false) none false disk
      (staged false) closes

close_writer-IsWhole_example :
    IsWhole disk_server disk_laws
      (writer false)
      disk
      (close_writer disk_server sum encode (writer false) none false disk).3
close_writer-IsWhole_example =
    close_writer-IsWhole disk_server disk_laws sum encode (writer false) none false disk
      (staged false)

there : disk_laws.stored disk path ≢ none
unfolding disk_laws eqb
there h = ground arith

close_writer-IsRefused_example :
    IsRefused disk_server disk_laws disk_exclusive
      (writer true)
      disk
      (close_writer disk_server sum encode (writer true) none false disk).0
      (close_writer disk_server sum encode (writer true) none false disk).3
close_writer-IsRefused_example =
    close_writer-IsRefused disk_server disk_laws disk_exclusive (writer true)
      (apart path (codes "1")) refl sum encode none false disk there

abbrev join : Bytes → Bytes → Bytes
join dir p = dir ++ (codes "/" ++ p)

abbrev keep : (List ℕ → ℕ → Bool) → Bytes → Bytes
keep test s = s

abbrev decode : Source Failure → Result Failure Xattrs
decode r = ok default_attrs

abbrev copied : Option Failure × Bool × Disk
copied =
    copy_blob disk_server decode encode join (λ p. codes "d") keep (codes "d") none false
      (codes "b") (codes "a") (codes "2") none false disk

copies : copied.0 ≡ none
unfolding copy_blob copy_file eqb set_attrs get_attrs commit_rename full_path has_prefix has_suffix
    contains
copies = refl

copy_blob-stored_example :
    (src : Bytes) × (dst : Bytes) × (b : Bytes) × (full_path join keep (codes "d") (codes "a")
      ≡ ok src)
    × (full_path join keep (codes "d") (codes "b") ≡ ok dst)
    × (disk_laws.stored disk src ≡ some b)
    × (disk_laws.stored copied.2 dst ≡ some b)
copy_blob-stored_example =
    copy_blob-stored disk_server disk_laws decode encode join (λ p. codes "d") keep (codes "d") none
      false (codes "b") (codes "a") (codes "2") none false disk copies
