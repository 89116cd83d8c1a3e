-- ===== src/Common/Maps.antt =====
-- Maps keyed by text (`BTreeMap`), as association lists: what is read of one is its lookups, and,
-- while its keys are distinct, its length.
use mathlib.Core.Path.{◌≡◌, refl, sym, ap, subst, ◌∙◌}
use mathlib.Core.Bool.{Bool, true, false, not, ◌&&◌, ◌||◌}
use mathlib.Core.Option.{Option, none, some}
use mathlib.Core.List.{List, [], ◌∷◌}
use Prim.Native.Nat.{◌≤◌, suc}
use native.Mathlib.Omega.{arith}
use mathlib.Core.Logic.{◌≢◌, inl, inr}
use wrix.Common.Tests.{if◌then◌else◌, Bool-cases}
use wrix.Common.Lists.{length}
use wrix.Common.Text.{Str, str_eq, str_eq_iff, str_eq_sym}

module _ {ℓ} {V : Type ℓ} where
  abbrev pub lookup : List (Str × V) → Str → Option V
  lookup [] k = none
  lookup ((j, v) ∷ m) k = if str_eq j k then some v else lookup m k

  abbrev pub contains_key : List (Str × V) → Str → Bool
  contains_key [] k = false
  contains_key ((j, v) ∷ m) k = if str_eq j k then true else contains_key m k

  abbrev pub remove_key : Str → List (Str × V) → List (Str × V)
  remove_key k [] = []
  remove_key k ((j, v) ∷ m) =
      let rest = remove_key k m in if str_eq j k then rest else (j, v) ∷ rest

  abbrev pub insert_key : Str → V → List (Str × V) → List (Str × V)
  insert_key k v m = (k, v) ∷ remove_key k m

  -- `BTreeMap::retain`.
  abbrev pub retain : (V → Bool) → List (Str × V) → List (Str × V)
  retain p [] = []
  retain p ((j, v) ∷ m) = let rest = retain p m in if p v then (j, v) ∷ rest else rest

  -- No key is bound twice.
  abbrev pub DistinctKeys : List (Str × V) → Type 0
  DistinctKeys [] = Unit {0}
  DistinctKeys ((j, v) ∷ m) = (contains_key m j ≡ false) × DistinctKeys m

  pub lookup-contains :
      (m : List (Str × V)) (k : Str) → contains_key m k ≡ false → lookup m k ≡ none
  lookup-contains [] k h = refl
  lookup-contains ((j, v) ∷ m) k h = ground (arith, lookup-contains m k)

  pub lookup-remove_self : (m : List (Str × V)) (k : Str) → lookup (remove_key k m) k ≡ none
  lookup-remove_self [] k = refl
  lookup-remove_self ((j, v) ∷ m) k = ground (arith, lookup-remove_self m k)

  pub lookup-remove_other :
      (m : List (Str × V)) (k i : Str) → str_eq k i ≡ false → lookup (remove_key k m) i ≡ lookup m i
  lookup-remove_other [] k i h = refl
  lookup-remove_other ((j, v) ∷ m) k i h = elim (Bool-cases (str_eq j k)) [
    | inl e ↦
        let same = (str_eq_iff j k).0 e in
        let other : str_eq j i ≡ false = subst (λ t. str_eq t i ≡ false) (sym same) h in
        rw (e, other, lookup-remove_other m k i h)
    | inr e ↦ rw (e, lookup-remove_other m k i h)
  ]

  pub lookup-insert :
      (m : List (Str × V)) (k : Str) (v : V) (i : Str)
      → lookup (insert_key k v m) i ≡ (if str_eq k i then some v else lookup m i)
  lookup-insert m k v i = elim (Bool-cases (str_eq k i)) [
    | inl e ↦ rw e
    | inr e ↦ rw (e, lookup-remove_other m k i e)
  ]

  pub lookup-insert_hit :
      (m : List (Str × V)) (k : Str) (v : V) (i : Str)
      → str_eq k i ≡ true
      → lookup (insert_key k v m) i ≡ some v
  lookup-insert_hit m k v i e = rw e

  pub lookup-insert_other :
      (m : List (Str × V)) (k : Str) (v : V) (i : Str)
      → str_eq k i ≡ false
      → lookup (insert_key k v m) i ≡ lookup m i
  lookup-insert_other m k v i e = rw (e, lookup-remove_other m k i e)

  pub contains-remove :
      (m : List (Str × V)) (k i : Str)
      → contains_key m i ≡ false
      → contains_key (remove_key k m) i ≡ false
  contains-remove [] k i h = refl
  contains-remove ((j, v) ∷ m) k i h = ground (arith, contains-remove m k i)

  pub contains-remove_self :
      (m : List (Str × V)) (k : Str) → contains_key (remove_key k m) k ≡ false
  contains-remove_self [] k = refl
  contains-remove_self ((j, v) ∷ m) k = ground (arith, contains-remove_self m k)

  pub remove-DistinctKeys :
      (m : List (Str × V)) (k : Str) → DistinctKeys m → DistinctKeys (remove_key k m)
  remove-DistinctKeys [] k h = tt
  remove-DistinctKeys ((j, v) ∷ m) k (h, hs) =
      ground (arith, contains-remove m k j h, remove-DistinctKeys m k hs)

  pub insert-DistinctKeys :
      (m : List (Str × V)) (k : Str) (v : V) → DistinctKeys m → DistinctKeys (insert_key k v m)
  insert-DistinctKeys m k v h = (contains-remove_self m k, remove-DistinctKeys m k h)

  pub contains-retain :
      (p : V → Bool) (m : List (Str × V)) (i : Str)
      → contains_key m i ≡ false
      → contains_key (retain p m) i ≡ false
  contains-retain p [] i h = refl
  contains-retain p ((j, v) ∷ m) i h = ground (arith, contains-retain p m i)

  pub retain-DistinctKeys :
      (p : V → Bool) (m : List (Str × V)) → DistinctKeys m → DistinctKeys (retain p m)
  retain-DistinctKeys p [] h = tt
  retain-DistinctKeys p ((j, v) ∷ m) (h, hs) =
      ground (arith, contains-retain p m j h, retain-DistinctKeys p m hs)

  pub length-remove : (m : List (Str × V)) (k : Str) → length (remove_key k m) ≤ length m
  length-remove [] k = omega arith
  length-remove ((j, v) ∷ m) k = ground (arith, length-remove m k)

  -- Taking out a key that is bound makes the map shorter.
  pub length-remove_bound :
      (m : List (Str × V)) (k : Str)
      → contains_key m k ≡ true
      → suc (length (remove_key k m)) ≤ length m
  length-remove_bound [] k h = cc
  length-remove_bound ((j, v) ∷ m) k h = ground (arith, length-remove_bound m k, length-remove m k)

  pub length-retain : (p : V → Bool) (m : List (Str × V)) → length (retain p m) ≤ length m
  length-retain p [] = omega arith
  length-retain p ((j, v) ∷ m) = ground (arith, length-retain p m)

  pub contains-bound :
      (m : List (Str × V)) (k : Str) {v : V} → lookup m k ≡ some v → contains_key m k ≡ true
  contains-bound m k h = elim (Bool-cases (contains_key m k)) [
    | inl e ↦ e
    | inr e ↦ let absent = lookup-contains m k e in cc
  ]

  pub lookup-retain :
      (p : V → Bool) (m : List (Str × V)) (k : Str) {v : V}
      → lookup m k ≡ some v
      → p v ≡ true
      → lookup (retain p m) k ≡ some v
  lookup-retain p [] k h t = cc
  lookup-retain p ((j, u) ∷ m) k {v} h t = elim (Bool-cases (str_eq j k)) [
    | inl e ↦
        let found : ◌≡◌ {A = Option V} (some u) (some v) = rw e at h in
        let same : u ≡ v = cc in let keep : p u ≡ true = rw (same, t) in rw (keep, e, found)
    | inr e ↦
        let found : lookup m k ≡ some v = rw e at h in
        let rest = lookup-retain p m k found t in
        elim (Bool-cases (p u)) [ inl f ↦ rw (f, e, rest) | inr f ↦ rw (f, rest) ]
  ]

  pub remove-remove :
      (m : List (Str × V)) (k : Str) → remove_key k (remove_key k m) ≡ remove_key k m
  remove-remove [] k = refl
  remove-remove ((j, v) ∷ m) k = elim (Bool-cases (str_eq j k)) [
    | inl e ↦ rw (e, remove-remove m k)
    | inr e ↦ rw (e, e, remove-remove m k)
  ]

  pub lookup-bound : (m : List (Str × V)) (k : Str) → contains_key m k ≡ true → lookup m k ≢ none
  lookup-bound [] k h = cc
  lookup-bound ((j, v) ∷ m) k h = elim (Bool-cases (str_eq j k)) [
    | inl e ↦ rw e (λ q. cc)
    | inr e ↦ let rest : contains_key m k ≡ true = rw e at h in rw e (lookup-bound m k rest)
  ]

  pub contains-unbound :
      (m : List (Str × V)) (k : Str) → lookup m k ≡ none → contains_key m k ≡ false
  contains-unbound m k h = elim (Bool-cases (contains_key m k)) [
    | inl e ↦ absurd (lookup-bound m k e h)
    | inr e ↦ e
  ]

  pub contains-remove_lem :
      (m : List (Str × V)) (k i : Str)
      → contains_key (remove_key k m) i ≡ (not (str_eq k i) && contains_key m i)
  contains-remove_lem [] k i = ground arith
  contains-remove_lem ((j, v) ∷ m) k i = elim (Bool-cases (str_eq j k)) [
    | inl e ↦
        let same = (str_eq_iff j k).0 e in
        let swap : str_eq j i ≡ str_eq k i = ap (λ x. str_eq x i) same in
        rw (e, swap, contains-remove_lem m k i) (ground arith)
    | inr e ↦ elim (Bool-cases (str_eq j i)) [
      | inl f ↦
          let same = (str_eq_iff j i).0 f in
          let other = subst (λ x. str_eq k x ≡ false) same (str_eq_sym k j ∙ e) in rw (e, f, other)
      | inr f ↦ rw (e, f, contains-remove_lem m k i)
    ]
  ]

  pub contains-insert :
      (m : List (Str × V)) (k : Str) (v : V) (i : Str)
      → contains_key (insert_key k v m) i ≡ (str_eq k i || contains_key m i)
  contains-insert m k v i = elim (Bool-cases (str_eq k i)) [
    | inl e ↦ rw e
    | inr e ↦ rw (e, contains-remove_lem m k i, e)
  ]
