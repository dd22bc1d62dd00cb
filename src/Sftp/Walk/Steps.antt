-- ===== src/Sftp/Walk/Steps.antt =====
-- The results of the walk, one step at a time.
use gocloud_ext.Common.{
  Bytes, Bool, true, false, List, [], ◌∷◌, Result, ok, err, ◌>>=◌, ◌≡◌, refl, arith,
}
use gocloud_ext.Sftp.Emit.{Lister}
use gocloud_ext.Sftp.Walk.{WalkError, Child, visit_child, visit_children}

pub bind-ok :
    {E A B : Type 0} (r : Result E A) (f : A → Result E B) (b : B)
    → (r >>= f) ≡ ok b
    → (a : A) × (r ≡ ok a) × (f a ≡ ok b)
bind-ok (ok a) f b h = (a, refl, h)
bind-ok (err e) f b h = absurd (ground arith)

pub visit_children-full :
    (has : Bytes → Result WalkError Bool) (go : Bytes → Lister → Result WalkError Lister)
    (cs : List Child) (l : Lister)
    → l.full ≡ true
    → visit_children has go cs l ≡ ok l
unfolding visit_children
visit_children-full has go [] l f = refl
visit_children-full has go (c ∷ cs) l f = ground arith

pub visit_children-next :
    (has : Bytes → Result WalkError Bool) (go : Bytes → Lister → Result WalkError Lister)
    (c : Child) (cs : List Child) (l : Lister)
    → l.full ≡ false
    → visit_children has go (c ∷ cs) l ≡ (visit_child has go c l >>= visit_children has go cs)
unfolding visit_children
visit_children-next has go c cs l f = ground arith
