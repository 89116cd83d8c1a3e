-- ===== src/Planner/Graph/Weights.antt =====
-- The nodes of the graphs that `subset`, `without`, `merge` of
-- crates/wrix-image-tools/src/planner/graph/mod.rs build.
use mathlib.Core.List.{Perm, perm_middle, append-nil, append_assoc}
use mathlib.Core.List.Perm
use wrix.Common.{
  ℕ, zero, suc, ◌+◌, ◌-◌, ◌≤◌, ◌<◌, ◌≡◌, refl, sym, ap, ◌∙◌, Bool, true, false, not, ◌&&◌, ◌||◌,
  List, [], ◌∷◌, ◌++◌, inl, inr, arith, ◌==◌, ltb, leb, if◌then◌else◌, length, take, drop,
  Bool-cases, Option-cases,
}
use wrix.Common.Sets.{has, has-keep}
use wrix.Planner.Petgraph.{Petgraph}
use wrix.Planner.Graph.{
  Node, copy_nodes, copy_edges, subset, without, without_incoming, merge_into, merge_loop, merge,
  singleton, get_index, range_from, node_indices,
}

-- The entries whose index, counted from `i`, passes the test.
abbrev pub select {ℓ} : {A : Type ℓ} → (ℕ → Bool) → ℕ → List A → List A
select p i [] = []
select p i (x ∷ xs) = let rest = select p (suc i) xs in if p i then x ∷ rest else rest

-- `Vec::concat` of what a function gives.
abbrev pub gather {ℓ κ} : {A : Type ℓ} {B : Type κ} → (A → List B) → List A → List B
gather f [] = []
gather f (x ∷ xs) = f x ++ gather f xs

pub select-cong {ℓ} :
    {A : Type ℓ} (p q : ℕ → Bool) (i : ℕ) (xs : List A)
    → ((j : ℕ) → i ≤ j → j < i + length xs → p j ≡ q j)
    → select p i xs ≡ select q i xs
select-cong p q i [] h = refl
select-cong p q i (x ∷ xs) h = ground (
  arith,
  h i (omega arith) (omega arith),
  select-cong p q (suc i) xs (λ j a b. h j (omega arith) (omega arith)),
)

-- Two tests, one of which holds at each index, divide a list.
pub select-perm {ℓ} :
    {A : Type ℓ} (p q : ℕ → Bool) (i : ℕ) (xs : List A)
    → ((j : ℕ) → i ≤ j → j < i + length xs → q j ≡ not (p j))
    → Perm xs (select p i xs ++ select q i xs)
select-perm p q i [] h = Perm.nil
select-perm p q i (x ∷ xs) h =
    let ih = select-perm p q (suc i) xs (λ j a b. h j (omega arith) (omega arith)) in
    let e = h i (omega arith) (omega arith) in
    elim (Bool-cases (p i)) [
      | inl yes_p ↦ rw (e, yes_p) (Perm.cons x ih)
      | inr no_p ↦
          rw (e, no_p)
            (Perm.trans (Perm.cons x ih)
              (Perm.symm (perm_middle (select p (suc i) xs) (select q (suc i) xs))))
    ]

-- So do two tests of which one holds where the third does.
pub select-union {ℓ} :
    {A : Type ℓ} (s p q : ℕ → Bool) (i : ℕ) (xs : List A)
    → ((j : ℕ) → s j ≡ (p j || q j))
    → ((j : ℕ) → (p j && q j) ≡ false)
    → Perm (select s i xs) (select p i xs ++ select q i xs)
select-union s p q i [] h k = Perm.nil
select-union s p q i (x ∷ xs) h k =
    let ih = select-union s p q (suc i) xs h k in
    elim (Bool-cases (p i)) [
      | inl in_p ↦
          let out_q : q i ≡ false = ground (arith, k i, in_p) in
          rw (h i, in_p, out_q) (Perm.cons x ih)
      | inr out_p ↦ elim (Bool-cases (q i)) [
        | inl in_q ↦
            rw (h i, out_p, in_q)
              (Perm.trans (Perm.cons x ih)
                (Perm.symm (perm_middle (select p (suc i) xs) (select q (suc i) xs))))
        | inr out_q ↦ rw (h i, out_p, out_q) ih
      ]
    ]

pub has-range_from : (i n j : ℕ) → has (range_from i n) j ≡ (leb i j && ltb j (i + n))
has-range_from i zero j = ground arith
has-range_from i (suc n) j = ground (arith, has-range_from (suc i) n j)

drop-nil {ℓ} : {A : Type ℓ} (n : ℕ) → drop {A = A} n [] ≡ []
drop-nil zero = refl
drop-nil (suc n) = refl

take-nil {ℓ} : {A : Type ℓ} (n : ℕ) → take {A = A} n [] ≡ []
take-nil zero = refl
take-nil (suc n) = refl

select-none {ℓ} : {A : Type ℓ} (a i : ℕ) (xs : List A) → select (has (range_from a 0)) i xs ≡ []
select-none a i [] = refl
select-none a i (x ∷ xs) = select-none a (suc i) xs

-- The entries of an interval of indices.
pub select-range_from {ℓ} :
    {A : Type ℓ} (a k i : ℕ) (xs : List A)
    → i ≤ a
    → select (has (range_from a k)) i xs ≡ take k (drop (a - i) xs)
select-range_from {A = A} a k i [] h = rw (drop-nil {A = A} (a - i), take-nil {A = A} k)
select-range_from a zero i (x ∷ xs) h = select-none a i (x ∷ xs)
select-range_from a (suc k) i (x ∷ xs) h = elim (Bool-cases (i == a)) [
  | inl same ↦
      let e : a - i ≡ 0 = ground arith in
      let f : suc a - suc i ≡ 0 = ground arith in
      let rest =
        select-cong (has (range_from a (suc k))) (has (range_from (suc a) k)) (suc i) xs
          (λ j p q. ground (arith, has-range_from (suc a) k j))
        ∙ select-range_from (suc a) k (suc i) xs (omega arith) in
      let tail : select (has (range_from a (suc k))) (suc i) xs ≡ take k xs = rw f at rest in
      rw e (ground arith)
  | inr other ↦
      let e : a - i ≡ suc (a - suc i) = ground arith in
      rw e (ground (arith, has-range_from a (suc k) i, select-range_from a (suc k) (suc i) xs))
]

module _ ⦃P : Petgraph Node⦄ where
  open P use {
    Inner, new, add_node, add_edge, node_weights, edge_references, weights_new, weights_add_node,
    weights_add_edge, weights_retain_edges,
  }

  pub weights-copy_edges :
      (es m : List (ℕ × ℕ)) (g : Inner) → node_weights (copy_edges es m g) ≡ node_weights g
  unfolding copy_edges
  weights-copy_edges [] m g = refl
  weights-copy_edges ((s, t) ∷ es) m g = elim (Option-cases (get_index m s)) [
    | inl e ↦ rw (e, copy_edges) (weights-copy_edges es m g)
    | inr (s', e) ↦ elim (Option-cases (get_index m t)) [
      | inl f ↦ rw (e, f, copy_edges) (weights-copy_edges es m g)
      | inr (t', f) ↦
          rw (e, f, copy_edges)
            (weights-copy_edges es m (add_edge g s' t') ∙ weights_add_edge g s' t')
    ]
  ]

  pub weights-copy_nodes :
      (test : ℕ → Bool) (i : ℕ) (ns : List Node) (g : Inner) (m : List (ℕ × ℕ))
      → node_weights (copy_nodes test i ns g m).0 ≡ node_weights g ++ select test i ns
  unfolding copy_nodes
  weights-copy_nodes test i [] g m = sym (append-nil (node_weights g))
  weights-copy_nodes test i (n ∷ ns) g m = elim (Bool-cases (test i)) [
    | inl e ↦
        rw (e, copy_nodes)
          (weights-copy_nodes test (suc i) ns (add_node g n).0 ((i, (add_node g n).1) ∷ m)
            ∙ rw (weights_add_node g n)
                (append_assoc (node_weights g) (n ∷ []) (select test (suc i) ns)))
    | inr e ↦ rw (e, copy_nodes) (weights-copy_nodes test (suc i) ns g m)
  ]

  -- A subset holds the selected nodes, in the order of the graph.
  pub weights-subset :
      (g : Inner) (s : List ℕ) → node_weights (subset g s) ≡ select (has s) 0 (node_weights g)
  unfolding subset
  weights-subset g s =
      weights-copy_edges (edge_references g) _ _
      ∙ weights-copy_nodes (has s) 0 (node_weights g) new []
      ∙ rw weights_new

  pub has-node_indices :
      (g : Inner) (j : ℕ) → has (node_indices g) j ≡ ltb j (length (node_weights g))
  has-node_indices g j = ground (arith, has-range_from 0 (length (node_weights g)) j)

  -- `without` keeps the other nodes, in the order of the graph.
  pub weights-without :
      (g : Inner) (r : List ℕ)
      → node_weights (without g r) ≡ select (λ i. not (has r i)) 0 (node_weights g)
  unfolding without
  weights-without g r =
      weights-subset g _
      ∙ select-cong _ _ 0 (node_weights g) (λ j a b.
        has-keep (λ i. not (has r i)) j (node_indices g) ∙ rw (has-node_indices g j) (ground arith))

  pub weights-without_incoming :
      (g : Inner) (s : List ℕ) → node_weights (without_incoming g s) ≡ node_weights g
  unfolding without_incoming
  weights-without_incoming g s = weights_retain_edges _ g

  pub weights-singleton : (n : Node) → node_weights (singleton n) ≡ n ∷ []
  unfolding singleton
  weights-singleton n = weights_add_node new n ∙ rw weights_new

  select-all : (i : ℕ) (ns : List Node) → select (λ _. true) i ns ≡ ns
  select-all i [] = refl
  select-all i (n ∷ ns) = ap (λ (r : List Node). n ∷ r) (select-all (suc i) ns)

  weights-merge_into :
      (r g : Inner) → node_weights (merge_into r g) ≡ node_weights r ++ node_weights g
  unfolding merge_into
  weights-merge_into r g =
      weights-copy_edges (edge_references g) _ _
      ∙ weights-copy_nodes (λ _. true) 0 (node_weights g) r []
      ∙ rw (select-all 0 (node_weights g))

  weights-merge_loop :
      (r : Inner) (gs : List Inner)
      → node_weights (merge_loop r gs) ≡ node_weights r ++ gather node_weights gs
  unfolding merge_loop
  weights-merge_loop r [] = sym (append-nil (node_weights r))
  weights-merge_loop r (g ∷ gs) =
      weights-merge_loop (merge_into r g) gs
      ∙ rw (weights-merge_into r g)
          (append_assoc (node_weights r) (node_weights g) (gather node_weights gs))

  -- `merge` holds the nodes of each graph in turn.
  pub weights-merge : (gs : List Inner) → node_weights (merge gs) ≡ gather node_weights gs
  unfolding merge
  weights-merge gs = weights-merge_loop new gs ∙ rw weights_new
