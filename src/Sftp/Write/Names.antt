-- ===== src/Sftp/Write/Names.antt =====
-- The names of a blob, its staged file and their sidecars are four different paths.
use gocloud_ext.Common.{
  ℕ, Bytes, false, [], ◌∷◌, ◌++◌, eqb, append_assoc, ◌≡◌, refl, ap, ◌∙◌, arith,
}
use gocloud_ext.Sftp.{attrs_ext, temp_infix}

pub record IsApart (path tmp : Bytes) : Type 0 where
  pub path_tmp : eqb path tmp ≡ false
  pub tmp_path : eqb tmp path ≡ false
  pub tmp_attrs_path : eqb (tmp ++ attrs_ext) path ≡ false
  pub tmp_attrs_tmp : eqb (tmp ++ attrs_ext) tmp ≡ false
  pub tmp_tmp_attrs : eqb tmp (tmp ++ attrs_ext) ≡ false
  pub path_tmp_attrs : eqb path (tmp ++ attrs_ext) ≡ false
  pub path_attrs_path : eqb (path ++ attrs_ext) path ≡ false
  pub path_attrs_tmp_attrs : eqb (path ++ attrs_ext) (tmp ++ attrs_ext) ≡ false

eqb-append_left : (p s t : Bytes) → eqb (p ++ s) (p ++ t) ≡ eqb s t
unfolding eqb
eqb-append_left [] s t = refl
eqb-append_left (x ∷ p) s t = ground (arith, eqb-append_left p s t)

eqb-longer : (p : Bytes) (x : ℕ) (s : Bytes) → eqb (p ++ x ∷ s) p ≡ false
unfolding eqb
eqb-longer [] x s = refl
eqb-longer (y ∷ p) x s = ground (arith, eqb-longer p x s)

eqb-shorter : (p : Bytes) (x : ℕ) (s : Bytes) → eqb p (p ++ x ∷ s) ≡ false
unfolding eqb
eqb-shorter [] x s = refl
eqb-shorter (y ∷ p) x s = ground (arith, eqb-shorter p x s)

pub apart : (path stamp : Bytes) → IsApart path (path ++ (temp_infix ++ stamp))
unfolding eqb
apart path stamp =
    let tmp = path ++ (temp_infix ++ stamp) in
    let sidecar = append_assoc path (temp_infix ++ stamp) attrs_ext in
    record {
      path_tmp = eqb-shorter path 46 _;
      tmp_path = eqb-longer path 46 _;
      tmp_attrs_path = ap (λ s. eqb s path) sidecar ∙ eqb-longer path 46 _;
      tmp_attrs_tmp = eqb-longer tmp 46 _;
      tmp_tmp_attrs = eqb-shorter tmp 46 _;
      path_tmp_attrs = ap (eqb path) sidecar ∙ eqb-shorter path 46 _;
      path_attrs_path = eqb-longer path 46 _;
      path_attrs_tmp_attrs =
          ap (eqb (path ++ attrs_ext)) sidecar
          ∙ eqb-append_left path attrs_ext (temp_infix ++ stamp ++ attrs_ext);
    }
