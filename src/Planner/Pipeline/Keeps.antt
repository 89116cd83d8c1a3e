-- ===== src/Planner/Pipeline/Keeps.antt =====
-- How the names of a tree may change under a step of
-- crates/wrix-image-tools/src/planner/pipeline/mod.rs: reordered, and, where `b` allows it, dropped.
use mathlib.Core.List.{Perm, append-nil, append_assoc, perm_append_comm}
use mathlib.Core.List.Perm
use wrix.Common.{◌≡◌, Bool, true, false, List, [], ◌++◌}
use wrix.Common.Text.{Str}

pub data Keeps : Bool → List Str → List Str → Type 0 where
  reorders : {b : Bool} {xs ys : List Str} → Perm xs ys → Keeps b xs ys
  drops : {xs ys : List Str} (dropped : List Str) → Perm xs (ys ++ dropped) → Keeps true xs ys

pub Keeps-of_eq : {b : Bool} {xs ys : List Str} → xs ≡ ys → Keeps b xs ys
Keeps-of_eq {b} {xs} {ys} e = rw e (reorders (Perm.refl ys))

pub Keeps-perm : {xs ys : List Str} → Keeps false xs ys → Perm xs ys
Keeps-perm (reorders h) = h

pub Keeps-dropped :
    {b : Bool} {xs ys : List Str} → Keeps b xs ys → (d : List Str) × Perm xs (ys ++ d)
Keeps-dropped (reorders {ys = ys} h) = ([], rw (append-nil ys) h)
Keeps-dropped (drops d h) = (d, h)

pub Keeps-trans : {b : Bool} {xs ys zs : List Str} → Keeps b xs ys → Keeps b ys zs → Keeps b xs zs
Keeps-trans (reorders h) (reorders k) = reorders (Perm.trans h k)
Keeps-trans (reorders h) (drops e k) = drops e (Perm.trans h k)
Keeps-trans (drops d h) (reorders k) = drops d (Perm.trans h (Perm.append_right d k))
Keeps-trans {zs = zs} (drops d h) (drops e k) =
    drops (e ++ d) (Perm.trans h (rw (← append_assoc zs e d) (Perm.append_right d k)))

middle_swap : (a b c d : List Str) → Perm ((a ++ b) ++ (c ++ d)) ((a ++ c) ++ (b ++ d))
middle_swap a b c d =
    rw (append_assoc a b (c ++ d), append_assoc a c (b ++ d))
      (Perm.append_left a (
        rw (← append_assoc b c d, ← append_assoc c b d)
          (Perm.append_right d (perm_append_comm b c))))

pub Keeps-append :
    {b : Bool} {xs ys us vs : List Str}
    → Keeps b xs ys
    → Keeps b us vs
    → Keeps b (xs ++ us) (ys ++ vs)
Keeps-append (reorders h) (reorders k) = reorders (Perm.append h k)
Keeps-append {ys = ys} {vs = vs} (reorders h) (drops e k) =
    drops e (rw (append_assoc ys vs e) (Perm.append h k))
Keeps-append {ys = ys} {vs = vs} (drops d h) (reorders k) = drops d (
    Perm.trans (Perm.append h k) (
      rw (append_assoc ys d vs, append_assoc ys vs d)
        (Perm.append_left ys (perm_append_comm d vs))))
Keeps-append {ys = ys} {vs = vs} (drops d h) (drops e k) =
    drops (d ++ e) (Perm.trans (Perm.append h k) (middle_swap ys d vs e))
