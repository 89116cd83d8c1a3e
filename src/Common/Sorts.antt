-- ===== src/Common/Sorts.antt =====
-- A stable sort, as `slice::sort_by` is: insertion from the right, before the first entry that is
-- not smaller.
use mathlib.Core.Path.{◌≡◌}
use mathlib.Core.Bool.{Bool, true}
use mathlib.Core.List.{List, [], ◌∷◌, Perm}
use mathlib.Core.List.Perm
use wrix.Common.Tests.{if◌then◌else◌, Bool-cases}
use mathlib.Core.Logic.{◌⊎◌, inl, inr}

module _ {ℓ} {A : Type ℓ} (le : A → A → Bool) where
  unfoldable pub insert_by : A → List A → List A
  insert_by a [] = a ∷ []
  insert_by a (x ∷ xs) = let rest = insert_by a xs in if le a x then a ∷ x ∷ xs else x ∷ rest

  unfoldable pub sort_by : List A → List A
  unfolding insert_by
  sort_by [] = []
  sort_by (x ∷ xs) = insert_by x (sort_by xs)

  insert_by-perm : (a : A) (xs : List A) → Perm (a ∷ xs) (insert_by a xs)
  unfolding insert_by
  insert_by-perm a [] = Perm.refl (a ∷ [])
  insert_by-perm a (x ∷ xs) = elim (Bool-cases (le a x)) [
    | inl before ↦ rw before (Perm.refl (a ∷ x ∷ xs))
    | inr after ↦ rw after (Perm.trans (Perm.swap x a xs) (Perm.cons x (insert_by-perm a xs)))
  ]

  pub sort_by-perm : (xs : List A) → Perm xs (sort_by xs)
  unfolding sort_by
  sort_by-perm [] = Perm.refl []
  sort_by-perm (x ∷ xs) = Perm.trans (Perm.cons x (sort_by-perm xs)) (insert_by-perm x (sort_by xs))

  abbrev pub AllAfter : A → List A → Type 0
  AllAfter a [] = Unit {0}
  AllAfter a (x ∷ xs) = (le a x ≡ true) × AllAfter a xs

  -- Every entry comes before or with each later one.
  abbrev pub IsSortedBy : List A → Type 0
  IsSortedBy [] = Unit {0}
  IsSortedBy (x ∷ xs) = AllAfter x xs × IsSortedBy xs

  module _ (total : (a b : A) → (le a b ≡ true) ⊎ (le b a ≡ true))
      (trans : (a b c : A) → le a b ≡ true → le b c ≡ true → le a c ≡ true) where
    AllAfter-trans : (a b : A) (xs : List A) → le a b ≡ true → AllAfter b xs → AllAfter a xs
    AllAfter-trans a b [] h k = tt
    AllAfter-trans a b (x ∷ xs) h k = (trans a b x h k.0, AllAfter-trans a b xs h k.1)

    AllAfter-insert_by :
        (b a : A) (xs : List A) → le b a ≡ true → AllAfter b xs → AllAfter b (insert_by a xs)
    unfolding insert_by
    AllAfter-insert_by b a [] h k = (h, tt)
    AllAfter-insert_by b a (x ∷ xs) h k = elim (Bool-cases (le a x)) [
      | inl before ↦ rw before (h, k)
      | inr after ↦ rw after (k.0, AllAfter-insert_by b a xs h k.1)
    ]

    insert_by-IsSortedBy : (a : A) (xs : List A) → IsSortedBy xs → IsSortedBy (insert_by a xs)
    unfolding insert_by
    insert_by-IsSortedBy a [] s = (tt, tt)
    insert_by-IsSortedBy a (x ∷ xs) s = elim (Bool-cases (le a x)) [
      | inl before ↦ rw before ((before, AllAfter-trans a x xs before s.0), s)
      | inr after ↦ rw after (
        AllAfter-insert_by x a xs (elim (total a x) [ inl h ↦ cc | inr h ↦ h ]) s.0,
        insert_by-IsSortedBy a xs s.1,
      )
    ]

    pub sort_by-IsSortedBy : (xs : List A) → IsSortedBy (sort_by xs)
    unfolding sort_by
    sort_by-IsSortedBy [] = tt
    sort_by-IsSortedBy (x ∷ xs) = insert_by-IsSortedBy x (sort_by xs) (sort_by-IsSortedBy xs)
