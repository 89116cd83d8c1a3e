-- ===== src/Common/Sets.antt =====
-- `BTreeSet<usize>`: a strictly increasing list.
use Prim.Native.Nat.{ℕ, compare, Ordering}
use mathlib.Core.Path.{◌≡◌, refl}
use mathlib.Core.Bool.{Bool, false, ◌&&◌, ◌||◌}
use mathlib.Core.List.{List, [], ◌∷◌, ◌++◌}
use native.Mathlib.Omega.{arith}
use wrix.Common.Tests.{◌==◌, if◌then◌else◌}

-- `BTreeSet::contains`.
abbrev pub has : List ℕ → ℕ → Bool
has [] a = false
has (x ∷ xs) a = x == a || has xs a

-- `BTreeSet::insert`.
unfoldable pub insert : ℕ → List ℕ → List ℕ
insert a [] = a ∷ []
insert a (x ∷ xs) =
    let rest = insert a xs in
    elim (compare a x) [ Ordering.lt ↦ a ∷ x ∷ xs | Ordering.eq ↦ x ∷ xs | Ordering.gt ↦ x ∷ rest ]

-- `BTreeSet::extend`.
unfoldable pub extend : List ℕ → List ℕ → List ℕ
extend xs [] = xs
extend xs (a ∷ rest) = extend (insert a xs) rest

-- `retain`, and what `collect` makes of a filtered set.
abbrev pub keep : (ℕ → Bool) → List ℕ → List ℕ
keep p [] = []
keep p (x ∷ xs) = let rest = keep p xs in if p x then x ∷ rest else rest

pub has-insert : (a b : ℕ) (xs : List ℕ) → has (insert a xs) b ≡ (a == b || has xs b)
unfolding insert
has-insert a b [] = ground arith
has-insert a b (x ∷ xs) = ground (arith, has-insert a b xs)

pub has-extend : (b : ℕ) (xs ys : List ℕ) → has (extend xs ys) b ≡ (has xs b || has ys b)
unfolding extend
has-extend b xs [] = ground arith
has-extend b xs (a ∷ ys) = ground (arith, has-extend b (insert a xs) ys, has-insert a b xs)

pub has-keep : (p : ℕ → Bool) (b : ℕ) (xs : List ℕ) → has (keep p xs) b ≡ (has xs b && p b)
has-keep p b [] = refl
has-keep p b (x ∷ xs) = ground (arith, has-keep p b xs)

pub has-append : (b : ℕ) (xs ys : List ℕ) → has (xs ++ ys) b ≡ (has xs b || has ys b)
has-append b [] ys = refl
has-append b (x ∷ xs) ys = ground (arith, has-append b xs ys)
