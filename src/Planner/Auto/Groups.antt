-- ===== src/Planner/Auto/Groups.antt =====
-- The groups of crates/wrix-image-tools/src/planner/auto/mod.rs: every index in one group, and as
-- many groups as there are different sets of owners.
use mathlib.Core.List.{Perm, append_assoc, perm_middle, reverse}
use mathlib.Core.List.Perm
use wrix.Common.{
  ℕ, zero, suc, ◌≤◌, ◌<◌, ◌≡◌, refl, sym, ap, subst, ◌∙◌, inl, inr, Bool, true, false, not, ◌||◌,
  List, [], ◌∷◌, ◌++◌, map, arith, ◌==◌, ltb, if◌then◌else◌, length, Bool-cases,
}
use wrix.Common.Text.{str_eq, str_leb}
use wrix.Common.Sets.{keep}
use wrix.Planner.Petgraph.{Petgraph, incoming, outgoing}
use wrix.Planner.Graph.{Node, contains_str, range_from, node_indices, reachable}
use wrix.Planner.Graph.Weights.{gather}
use wrix.Planner.Auto.{
  owners_at, update_at, own_dependency, own_dependencies, collect_sets, no_owners, Groups,
  has_group, append_to_group, insert_group, push_group, group_indices, assign_primary, assign_loop,
  assign,
}

abbrev pub group_paths : Groups → List ℕ
group_paths = gather (λ group. group.1)

-- An entry moves behind what stands before it.
move-perm : (i : ℕ) (xs ys zs : List ℕ) → Perm (i ∷ ys) zs → Perm (i ∷ (xs ++ ys)) (xs ++ zs)
move-perm i xs ys zs h = Perm.trans (Perm.symm (perm_middle xs ys)) (Perm.append_left xs h)

append_to_group-perm :
    (key : List ℕ) (i : ℕ) (gs : Groups)
    → has_group gs key ≡ true
    → Perm (i ∷ group_paths gs) (group_paths (append_to_group key i gs))
append_to_group-perm key i [] h = cc
append_to_group-perm key i ((k, is) ∷ gs) h = elim (Bool-cases (str_eq k key)) [
  | inl e ↦
      rw (e, append_assoc is (i ∷ []) (group_paths gs))
        (Perm.symm (perm_middle is (group_paths gs)))
  | inr e ↦
      let there : has_group gs key ≡ true = rw e at h in
      rw e (
        move-perm i is (group_paths gs) (group_paths (append_to_group key i gs))
          (append_to_group-perm key i gs there))
]

insert_group-perm :
    (key : List ℕ) (i : ℕ) (gs : Groups)
    → Perm (i ∷ group_paths gs) (group_paths (insert_group key i gs))
insert_group-perm key i [] = Perm.refl (i ∷ [])
insert_group-perm key i ((k, is) ∷ gs) = elim (Bool-cases (str_leb key k)) [
  | inl e ↦ rw e (Perm.refl (i ∷ (is ++ group_paths gs)))
  | inr e ↦ rw e (
      move-perm i is (group_paths gs) (group_paths (insert_group key i gs))
        (insert_group-perm key i gs))
]

push_group-perm :
    (key : List ℕ) (i : ℕ) (gs : Groups)
    → Perm (i ∷ group_paths gs) (group_paths (push_group key i gs))
unfolding push_group
push_group-perm key i gs = elim (Bool-cases (has_group gs key)) [
  | inl e ↦ rw e (append_to_group-perm key i gs e)
  | inr e ↦ rw e (insert_group-perm key i gs)
]

pub group_indices-perm :
    (a : List (List ℕ)) (is : List ℕ) (gs : Groups)
    → Perm (is ++ group_paths gs) (group_paths (group_indices a is gs))
unfolding group_indices
group_indices-perm a [] gs = Perm.refl (group_paths gs)
group_indices-perm a (i ∷ is) gs =
    Perm.trans
      (Perm.trans (Perm.symm (perm_middle is (group_paths gs)))
        (Perm.append_left is (push_group-perm (owners_at a i) i gs)))
      (group_indices-perm a is (push_group (owners_at a i) i gs))

has_group-append :
    (key : List ℕ) (i : ℕ) (gs : Groups) (k : List ℕ)
    → has_group (append_to_group key i gs) k ≡ has_group gs k
has_group-append key i [] k = refl
has_group-append key i ((j, is) ∷ gs) k = elim (Bool-cases (str_eq j key)) [
  | inl e ↦ rw e
  | inr e ↦ rw (e, has_group-append key i gs k)
]

has_group-insert :
    (key : List ℕ) (i : ℕ) (gs : Groups) (k : List ℕ)
    → has_group (insert_group key i gs) k ≡ (str_eq key k || has_group gs k)
has_group-insert key i [] k = refl
has_group-insert key i ((j, is) ∷ gs) k = elim (Bool-cases (str_leb key j)) [
  | inl e ↦ rw e
  | inr e ↦
      rw (e, has_group-insert key i gs k) (swap_or (str_eq j k) (str_eq key k) (has_group gs k))
]
  where
    swap_or : (a b c : Bool) → (a || (b || c)) ≡ (b || (a || c))
    swap_or a b c = ground arith

length-append_to_group :
    (key : List ℕ) (i : ℕ) (gs : Groups) → length (append_to_group key i gs) ≡ length gs
length-append_to_group key i [] = refl
length-append_to_group key i ((j, is) ∷ gs) = elim (Bool-cases (str_eq j key)) [
  | inl e ↦ rw e
  | inr e ↦ rw (e, length-append_to_group key i gs)
]

length-insert_group :
    (key : List ℕ) (i : ℕ) (gs : Groups) → length (insert_group key i gs) ≡ suc (length gs)
length-insert_group key i [] = refl
length-insert_group key i ((j, is) ∷ gs) = elim (Bool-cases (str_leb key j)) [
  | inl e ↦ rw e
  | inr e ↦ rw (e, length-insert_group key i gs)
]

-- The groups' keys are the sets.
record Agrees (gs : Groups) (sets : List (List ℕ)) : Type 0 where
  keys : (k : List ℕ) → has_group gs k ≡ contains_str sets k
  sizes : length gs ≡ length sets

push_group-Agrees :
    (key : List ℕ) (i : ℕ) (gs : Groups) (sets : List (List ℕ))
    → Agrees gs sets
    → Agrees (push_group key i gs) (if contains_str sets key then sets else key ∷ sets)
unfolding push_group
push_group-Agrees key i gs sets h = elim (Bool-cases (contains_str sets key)) [
  | inl e ↦
      let there : has_group gs key ≡ true = h.keys key ∙ e in
      rw (there, e)
        (record {
          keys = λ k. has_group-append key i gs k ∙ h.keys k;
          sizes = length-append_to_group key i gs ∙ h.sizes;
        })
  | inr e ↦
      let there : has_group gs key ≡ false = h.keys key ∙ e in
      rw (there, e)
        (record {
          keys = λ k. has_group-insert key i gs k ∙ ap (λ b. str_eq key k || b) (h.keys k);
          sizes = length-insert_group key i gs ∙ ap suc h.sizes;
        })
]

length-group_indices :
    (a : List (List ℕ)) (is : List ℕ) (gs : Groups) (sets : List (List ℕ))
    → Agrees gs sets
    → length (group_indices a is gs) ≡ length (collect_sets (map (owners_at a) is) sets)
unfolding group_indices
length-group_indices a [] gs sets h = h.sizes
length-group_indices a (i ∷ is) gs sets h =
    let key = owners_at a i in
    length-group_indices a is (push_group key i gs)
      (if contains_str sets key then sets else key ∷ sets) (push_group-Agrees key i gs sets h)

owners-shift :
    (s : List ℕ) (ss : List (List ℕ)) (i n : ℕ)
    → map (owners_at (s ∷ ss)) (range_from (suc i) n) ≡ map (owners_at ss) (range_from i n)
owners-shift s ss i zero = refl
owners-shift s ss i (suc n) = ap (λ r. owners_at ss i ∷ r) (owners-shift s ss (suc i) n)

owners-all : (a : List (List ℕ)) → map (owners_at a) (range_from 0 (length a)) ≡ a
owners-all [] = refl
owners-all (s ∷ ss) = ap (λ r. s ∷ r) (owners-shift s ss 0 (length ss) ∙ owners-all ss)

length-update_at :
    (i : ℕ) (f : List ℕ → List ℕ) (a : List (List ℕ)) → length (update_at i f a) ≡ length a
length-update_at i f [] = refl
length-update_at zero f (s ∷ ss) = refl
length-update_at (suc i) f (s ∷ ss) = ap suc (length-update_at i f ss)

length-own_dependencies :
    (p : ℕ) (users deps ds : List ℕ) (a : List (List ℕ))
    → length (own_dependencies p users deps ds a) ≡ length a
unfolding own_dependencies
length-own_dependencies p users deps [] a = refl
length-own_dependencies p users deps (d ∷ ds) a =
    length-own_dependencies p users deps ds (update_at d (own_dependency p users deps) a)
    ∙ length-update_at d (own_dependency p users deps) a

length-no_owners : (n : ℕ) → length (no_owners n) ≡ n
length-no_owners zero = refl
length-no_owners (suc n) = ap suc (length-no_owners n)

-- No owners at all are one set.
collect-same : (n : ℕ) → collect_sets (no_owners n) ([] ∷ []) ≡ ([] ∷ [])
collect-same zero = refl
collect-same (suc n) = collect-same n

module _ ⦃P : Petgraph Node⦄ where
  open P use {Inner, node_weights}

  length-assign_primary :
      (g : Inner) (p : ℕ) (a : List (List ℕ)) → length (assign_primary g p a) ≡ length a
  unfolding assign_primary
  length-assign_primary g p a =
      let other = keep (λ index. not (index == p)) in
      let dependencies = other (reachable g (p ∷ []) outgoing) in
      length-own_dependencies p (other (reachable g (p ∷ []) incoming)) dependencies dependencies
        (update_at p (λ _. p ∷ []) a)
      ∙ length-update_at p (λ _. p ∷ []) a

  -- As many sets of owners as indices, and no more different ones than the limit.
  record IsLimited (limit n : ℕ) (a : List (List ℕ)) : Type 0 where
    owners : length a ≡ n
    few : length (collect_sets a []) ≤ limit

  assign_loop-IsLimited :
      (g : Inner) (limit n : ℕ) (primaries : List ℕ) (a : List (List ℕ))
      → IsLimited limit n a
      → IsLimited limit n (assign_loop g limit primaries a)
  unfolding assign_loop assign_primary
  assign_loop-IsLimited g limit n [] a h = h
  assign_loop-IsLimited g limit n (p ∷ ps) a h =
      let next = assign_primary g p a in
      elim (Bool-cases (ltb limit (length (collect_sets next [])))) [
        | inl e ↦ rw e h
        | inr e ↦ rw e (
            assign_loop-IsLimited g limit n ps next
              (record { owners = length-assign_primary g p a ∙ h.owners; few = ground (arith, e) }))
      ]

  no_owners-IsLimited : (limit n : ℕ) → 0 < limit → IsLimited limit n (no_owners n)
  no_owners-IsLimited limit zero h = record { owners = refl; few = omega arith }
  no_owners-IsLimited limit (suc n) h = record {
    owners = ap suc (length-no_owners n);
    few = rw (collect-same n) (omega arith);
  }

  -- The groups of an assignment are as many as its different sets, so the limit holds for them.
  pub length-assigned :
      (g : Inner) (limit : ℕ)
      → 0 < limit
      → length (group_indices (assign g limit) (node_indices g) []) ≤ limit
  unfolding assign
  length-assigned g limit h =
      let n = length (node_weights g) in
      let a = assign g limit in
      let limited : IsLimited limit n a =
        assign_loop-IsLimited g limit n (reverse (node_indices g)) (no_owners n)
          (no_owners-IsLimited limit n h) in
      let all : map (owners_at a) (node_indices g) ≡ a =
        subst (λ m. map (owners_at a) (range_from 0 m) ≡ a) limited.owners (owners-all a) in
      let same =
        length-group_indices a (node_indices g) [] [] (record { keys = λ k. refl; sizes = refl }) in
      subst (λ m. m ≤ limit) (sym (same ∙ ap (λ x. length (collect_sets x [])) all)) limited.few
