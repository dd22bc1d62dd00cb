-- ===== src/Sftp/Examples.antt =====
-- Pages of a small tree: the directory `a` with two files, and the file `b` with its sidecar.
pub mod Writes
use gocloud_ext.Common.{
  ℕ, pos, Bytes, Bool, true, false, if◌then◌else◌, List, [], ◌∷◌, none, some, eqb, last_index,
  has_suffix, has_prefix, contains, lt_bytes, index, codes, Result, ok, err, ◌≡◌, ◌≢◌, refl, arith,
}
use gocloud_ext.Sftp.{is_internal_path, FileInfo, Failure}
use gocloud_ext.Sftp.Emit.{ListObject, Lister, ListPage, emit, page, descend, collapses}
use gocloud_ext.Sftp.Emit.Pages.{IsStep, emit-IsStep}
use gocloud_ext.Sftp.Emit.Folding.{emit-collapses}
use gocloud_ext.Sftp.Emit.Skipping.{emit-descend, SamePage}
use gocloud_ext.Sftp.Walk.{ListOptions, out_of_fuel, list_root, list_paged}
use gocloud_ext.Sftp.Walk.Pages.{IsBounded, list_paged-bounds}
use gocloud_ext.Sftp.Walk.Depth.{HasDepth, list_paged_ends}

abbrev missing : Failure
missing = record {
  driver_code = none;
  is_canceled = false;
  is_deadline_exceeded = false;
  is_not_exist = true;
  is_permission = false;
  is_exist = false;
  is_eof = false;
  status = none;
  net_timeout = none;
}

abbrev entry : Bytes → Bool → FileInfo
entry name is_dir = record { name = name; is_dir = is_dir; mod_time = pos 7; size = pos 3 }

abbrev read_dir : Bytes → Result Failure (List FileInfo)
read_dir p =
    if eqb p []
    then ok (entry (codes "b") false ∷ entry (codes "b.attrs") false ∷ entry (codes "a") true ∷ [])
    else if eqb p (codes "a")
    then ok (entry (codes "y") false ∷ entry (codes "x") false ∷ [])
    else err missing

abbrev keep : (List ℕ → ℕ → Bool) → Bytes → Bytes
keep test s = s

abbrev same : Bytes → Bytes
same s = s

abbrev options : Bytes → Bytes → ListOptions
options delimiter token = record {
  prefix = [];
  delimiter = delimiter;
  page_size = 1;
  page_token = token;
  before_list = none;
}

abbrev listed : Bytes → ListObject
listed key = record { key = key; mod_time = pos 7; size = pos 3; is_dir = false }

abbrev folder : Bytes → ListObject
folder key = record { key = key; mod_time = pos 0; size = pos 0; is_dir = true }

abbrev first_page : ListPage
first_page = record { objects = folder (codes "a/") ∷ []; next_page_token = some (codes "a/") }

first_folds : list_paged read_dir same keep 2 (options (codes "/") []) ≡ ok first_page
unfolding list_paged eqb last_index is_internal_path has_suffix contains lt_bytes descend collapses
    emit index page
first_folds = refl

second_folds :
    list_paged read_dir same keep 2 (options (codes "/") (codes "a/"))
    ≡ ok record { objects = listed (codes "b") ∷ []; next_page_token = none }
unfolding list_paged eqb last_index is_internal_path has_suffix contains lt_bytes descend collapses
    emit index page
second_folds = refl

flat :
    list_paged read_dir same keep 2 (options [] (codes "a/x"))
    ≡ ok record { objects = listed (codes "a/y") ∷ []; next_page_token = some (codes "a/y") }
unfolding list_paged eqb last_index is_internal_path has_suffix contains lt_bytes descend collapses
    emit index page
flat = refl

abbrev lister : Bytes → Lister
lister token = record {
  prefix = [];
  delimiter = codes "/";
  page_size = 1;
  page_token = token;
  objects = [];
  last_prefix = [];
  full = false;
  before = none;
}

list_paged-bounds_example : IsBounded (options (codes "/") []) first_page
list_paged-bounds_example =
    list_paged-bounds read_dir same keep 2 (options (codes "/") []) first_page first_folds

levels : HasDepth read_dir 2 []
unfolding HasDepth eqb
levels = (
  (ground arith, (λ d. absurd (ground arith))),
  (
    (ground arith, (λ d. absurd (ground arith))),
    (
      (
        ground arith,
        (λ d. (
          (ground arith, (λ e. absurd (ground arith))),
          ((ground arith, (λ e. absurd (ground arith))), tt),
        )),
      ),
      tt,
    ),
  ),
)

rooted : HasDepth read_dir 2 [] → HasDepth read_dir 2 (list_root keep [])
unfolding list_root last_index has_prefix
rooted h = h

list_paged_ends_example : list_paged read_dir same keep 2 (options (codes "/") []) ≢ err out_of_fuel
list_paged_ends_example =
    list_paged_ends read_dir same keep 2 (options (codes "/") []) (rooted levels)

collapsed : collapses (codes "a") (lister []) ≡ true
unfolding collapses eqb has_prefix
collapsed = refl

skipped : descend (codes "a") (lister (codes "b")) ≡ false
unfolding descend eqb has_prefix lt_bytes
skipped = refl

emit-IsStep_example : IsStep (lister []) (emit (codes "b") (some (listed (codes "b"))) (lister []))
emit-IsStep_example =
    emit-IsStep (codes "b") (some (listed (codes "b"))) (lister []) refl
      (ground arith, (λ f. absurd (ground arith)), tt)

emit-collapses_example :
    emit (codes "a/x") (some (listed (codes "a/x"))) (lister [])
    ≡ emit (codes "a/") none (lister [])
emit-collapses_example =
    emit-collapses (codes "a") (codes "x") (some (listed (codes "a/x"))) (lister []) collapsed
