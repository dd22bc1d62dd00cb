-- ===== src/Http/Reader/Reading.antt =====
-- What the reader of blob/httpblob/httpblob.go returns of an object, also where it resumes.
use gocloud_ext.Common.{pos, ◌+◌, Bytes, ◌++◌, drop, length, Option, none, some, ◌≡◌, ◌⊎◌}
use gocloud_ext.Http.{Fault, Request}
use gocloud_ext.Http.Client.{Client}
use gocloud_ext.Http.Bodies.Sliced.{range_of}
use gocloud_ext.Http.Reader.Kept.{IsReading, IsKept}
use gocloud_ext.Http.Reader.{Reader, Turn, returned, again}

module _ (base : Request) (validator : Bytes) (x : Bytes) where
  module _ (c : Client) where
    open c use {State}

    -- With io.EOF come all the bytes of the range that remained.
    abbrev pub IsAll : Reader → Option (Option Fault) → Bytes → Type 0
    IsAll r (some none) d = (r.remaining ≡ pos 0) ⊎ (d ≡ range_of r.offset r.remaining x)
    IsAll r (some (some e)) d = Unit
    IsAll r none d = Unit

    -- A Read returned `d`, the bytes of the object from the offset on, and the reader goes on after
    -- them.
    pub record IsProgress (r : Reader) (d : Bytes) (e : Option (Option Fault)) (r' : Reader)
        : Type 0 where
      pub reading : IsReading base validator x r'
      pub bytes : drop r.offset x ≡ d ++ drop r'.offset x
      pub position : r'.offset ≡ r.offset + length d
      pub all : IsAll r e d

    abbrev pub IsTurn : Reader → Turn c → Type 0
    IsTurn r (returned d e r' s) = IsProgress r d e r'
    IsTurn r (again r' s) = IsKept base validator x r r'

    -- What the whole Read comes to, also after rounds that only resumed.
    abbrev pub IsReadOf : Reader → Option (Bytes × Option (Option Fault) × Reader × State) → Type 0
    IsReadOf r none = Unit
    IsReadOf r (some (d, e, r', s)) = IsProgress r d e r'
