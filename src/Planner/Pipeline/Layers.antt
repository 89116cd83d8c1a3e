-- ===== src/Planner/Pipeline/Layers.antt =====
-- The operations on lists and groups of layers in
-- crates/wrix-image-tools/src/planner/pipeline/mod.rs.
use mathlib.Core.List.{Perm, append-nil, append_assoc, perm_append_comm}
use mathlib.Core.List.Perm
use native.Mathlib.Nat.{sub-zero}
use Prim.Native.Nat.{min}
use mathlib.Core.Path.{ap₂}
use wrix.Common.{
  ℕ, zero, suc, ◌+◌, ◌-◌, ◌≤◌, ◌<◌, ◌≡◌, refl, sym, ap, subst, ◌∙◌, inl, inr, Bool, List, [], ◌∷◌,
  ◌++◌, map, Option, some, arith, if◌then◌else◌, length, take, drop, take-append-drop, length-drop,
  Result, ok, bind-ok, ok-injective, Bool-cases, Option-cases,
}
use wrix.Common.Text.{Str, str_eq}
use wrix.Planner.Petgraph.{Petgraph}
use wrix.Planner.Graph.{Node, names, name_list, subset, merge, range_from, node_indices}
use wrix.Planner.Graph.Weights.{select-range_from}
use wrix.Planner.Pipeline.Keeps.{Keeps, Keeps-of_eq, Keeps-append}
use wrix.Planner.Pipeline.Names.{
  graph_names, tree_names, trees_names, groups_names, gather-append, name_list-append,
  names-of_graphs, names-graph, names-merge, subset-names,
}
use wrix.Planner.Pipeline.{
  Error, Tree, graph, list, groups, Trees, no_tree, tree, Groups, no_group, group, flatten,
  flatten_all, flatten_groups, take_trees, drop_trees, append_trees, graphs_of, reverse_onto,
  map_trees, map_groups, over_groups, has_group, remove_group, reorder_groups, chunks, chunks_fuel,
  split_every_graph, limit_trees,
}

drop-nil {ℓ} : {A : Type ℓ} (n : ℕ) → drop {A = A} n [] ≡ []
drop-nil zero = refl
drop-nil (suc n) = refl

drop-drop {ℓ} : {A : Type ℓ} (n m : ℕ) (xs : List A) → drop n (drop m xs) ≡ drop (m + n) xs
drop-drop n zero xs = ap (λ k. drop k xs) (omega arith)
drop-drop {A = A} n (suc m) [] = drop-nil {A = A} n ∙ sym (drop-nil {A = A} (suc m + n))
drop-drop n (suc m) (x ∷ xs) =
    let e : suc (m + n) ≡ suc m + n = omega arith in drop-drop n m xs ∙ ap (λ k. drop k (x ∷ xs)) e

drop-all {ℓ} : {A : Type ℓ} (n : ℕ) (xs : List A) → length xs ≤ n → drop n xs ≡ []
drop-all {A = A} n [] h = drop-nil {A = A} n
drop-all zero (x ∷ xs) h = absurd (omega arith)
drop-all (suc n) (x ∷ xs) h = drop-all n xs (omega arith)

take-min-length {ℓ} :
    {A : Type ℓ} (n m : ℕ) (xs : List A) → m ≡ length xs → take (min n m) xs ≡ take n xs
take-min-length zero m xs h = let e : min 0 m ≡ 0 = omega arith in rw e
take-min-length {A = A} (suc n) m [] h = let e : min (suc n) m ≡ 0 = omega arith in rw e
take-min-length (suc n) m (x ∷ xs) h =
    let e : min (suc n) m ≡ suc (min n (length xs)) = omega arith in
    rw e (ap (λ r. x ∷ r) (take-min-length n (length xs) xs refl))

take-range_from : (n i m : ℕ) → take n (range_from i m) ≡ range_from i (min n m)
take-range_from zero i m = let e : min 0 m ≡ 0 = omega arith in rw e
take-range_from (suc n) i zero = let e : min (suc n) 0 ≡ 0 = omega arith in rw e
take-range_from (suc n) i (suc m) =
    let e : min (suc n) (suc m) ≡ suc (min n m) = omega arith in
    rw e (ap (λ r. i ∷ r) (take-range_from n (suc i) m))

drop-range_from : (n i m : ℕ) → drop n (range_from i m) ≡ range_from (i + n) (m - n)
drop-range_from zero i m = ap₂ range_from (omega arith) (omega arith)
drop-range_from (suc n) i zero = let e : 0 - suc n ≡ 0 = omega arith in rw e
drop-range_from (suc n) i (suc m) =
    drop-range_from n (suc i) m ∙ ap₂ range_from (omega arith) (omega arith)

length-range_from : (i n : ℕ) → length (range_from i n) ≡ n
length-range_from i zero = refl
length-range_from i (suc n) = ap suc (length-range_from (suc i) n)

module _ ⦃P : Petgraph Node⦄ where
  open P use {Inner, new, node_weights, weights_new}

  names-append_trees :
      (ts us : Trees Inner) → trees_names (append_trees ts us) ≡ trees_names ts ++ trees_names us
  unfolding append_trees flatten
  names-append_trees no_tree us = refl
  names-append_trees (tree t ts) us =
      gather-append (flatten t) (flatten_all (append_trees ts us))
      ∙ rw (names-append_trees ts us, gather-append (flatten t) (flatten_all ts))
          (sym (append_assoc (tree_names t) (trees_names ts) (trees_names us)))

  names-take-drop :
      (n : ℕ) (ts : Trees Inner)
      → trees_names (take_trees n ts) ++ trees_names (drop_trees n ts) ≡ trees_names ts
  unfolding flatten
  names-take-drop zero ts = refl
  names-take-drop (suc n) no_tree = refl
  names-take-drop (suc n) (tree t ts) =
      rw
        (
          gather-append (flatten t) (flatten_all (take_trees n ts)),
          gather-append (flatten t) (flatten_all ts),
          append_assoc (tree_names t) (trees_names (take_trees n ts))
              (trees_names (drop_trees n ts)),
        )
        (ap (λ (r : List Str). tree_names t ++ r) (names-take-drop n ts))

  flatten-graphs_of :
      (ts : Trees Inner) (gs : List Inner) → graphs_of ts ≡ ok gs → flatten_all ts ≡ gs
  unfolding graphs_of flatten
  flatten-graphs_of no_tree gs h = cc
  flatten-graphs_of (tree (graph g) ts) gs h =
      let (rest, e, f) = bind-ok (graphs_of ts) _ h in cc (flatten-graphs_of ts rest e)
  flatten-graphs_of (tree (list us) ts) gs h = cc
  flatten-graphs_of (tree (groups us) ts) gs h = cc

  -- `limit_layers` puts the tail together and loses no path.
  pub limit-keeps :
      (n : ℕ) (ts : Trees Inner) (u : Tree Inner)
      → limit_trees n ts ≡ ok u
      → tree_names u ≡ tree_names (list ts)
  unfolding limit_trees flatten
  limit-keeps n ts u h =
      let (gs, e, f) = bind-ok (graphs_of (drop_trees (n - 1) ts)) _ h in
      let k = n - 1 in
      subst (λ w. tree_names w ≡ tree_names (list ts)) (ok-injective f)
        (names-append_trees (take_trees k ts) (tree (graph (merge gs)) no_tree)
          ∙ rw (names-graph (merge gs), names-merge gs, ← flatten-graphs_of (drop_trees k ts) gs e)
              (names-take-drop k ts))

  chunk-names :
      (g : Inner) (fuel n a m : ℕ)
      → 0 < n
      → m ≤ fuel
      → length (node_weights g) - a ≡ m
      → graph_names (map (λ c. subset g c) (chunks_fuel fuel n (range_from a m)))
        ≡ name_list (drop a (node_weights g))
  unfolding chunks_fuel
  chunk-names g zero n a zero pos h e =
      ap name_list (sym (drop-all a (node_weights g) (omega arith)))
  chunk-names g zero n a (suc m) pos h e = absurd (omega arith)
  chunk-names g (suc fuel) n a zero pos h e =
      ap name_list (sym (drop-all a (node_weights g) (omega arith)))
  chunk-names g (suc fuel) n a (suc m) pos h e =
      let ws = node_weights g in
      let ih = chunk-names g fuel n (a + n) (suc m - n) pos (omega arith) (omega arith) in
      let len : suc m ≡ length (drop a ws) = sym (length-drop a ws ∙ e) in
      let first : names (subset g (take n (range_from a (suc m))))
          ≡ name_list (take n (drop a ws)) =
        rw (take-range_from n a (suc m), subset-names g (range_from a (min n (suc m))))
          (ap name_list (
            select-range_from a (min n (suc m)) 0 ws (omega arith)
            ∙ rw (sub-zero a) (take-min-length n (suc m) (drop a ws) len))) in
      let rest = rw (← drop-range_from n a (suc m)) at ih in
      ap₂ (λ (r s : List Str). r ++ s) first rest
      ∙ sym (name_list-append (take n (drop a ws)) (drop (a + n) ws))
      ∙ ap name_list (
          ap (λ (r : List Node). take n (drop a ws) ++ r) (sym (drop-drop n a ws))
          ∙ take-append-drop n (drop a ws))

  -- The pieces of `split_every` hold the nodes in their order.
  pub split_every-keeps : (n : ℕ) (g : Inner) → 0 < n → tree_names (split_every_graph n g) ≡ names g
  unfolding split_every_graph chunks
  split_every-keeps n g pos =
      names-of_graphs (map (λ c. subset g c) (chunks n (node_indices g)))
      ∙ chunk-names g (length (node_indices g)) n 0 (length (node_weights g)) pos
          (omega (arith, length-range_from 0 (length (node_weights g)))) (omega arith)

  names-reverse_onto :
      (ts us : Trees Inner)
      → Perm (trees_names ts ++ trees_names us) (trees_names (reverse_onto ts us))
  unfolding reverse_onto flatten
  names-reverse_onto no_tree us = Perm.refl (trees_names us)
  names-reverse_onto (tree t ts) us =
      let ih = names-reverse_onto ts (tree t us) in
      Perm.trans
        (rw
          (
            gather-append (flatten t) (flatten_all ts),
            append_assoc (tree_names t) (trees_names ts) (trees_names us),
          )
          (Perm.trans (perm_append_comm (tree_names t) (trees_names ts ++ trees_names us)) (
            rw append_assoc (
              Perm.append_left (trees_names ts)
                (perm_append_comm (trees_names us) (tree_names t))))))
        (rw (gather-append (flatten t) (flatten_all us)) at ih)

  pub reverse-keeps :
      (ts : Trees Inner) → Perm (tree_names (list ts)) (tree_names (list (reverse_onto ts no_tree)))
  unfolding flatten
  reverse-keeps ts = rw append-nil at (names-reverse_onto ts no_tree)

  -- A step that keeps each tree's names keeps those of a list and of groups of trees.
  pub map_trees-Keeps :
      (b : Bool) (f : Tree Inner → Result Error (Tree Inner))
      → ((t u : Tree Inner) → f t ≡ ok u → Keeps b (tree_names t) (tree_names u))
      → (ts us : Trees Inner) → map_trees f ts ≡ ok us
      → Keeps b (trees_names ts) (trees_names us)
  unfolding map_trees flatten
  map_trees-Keeps b f keeps no_tree us h = Keeps-of_eq (cc)
  map_trees-Keeps b f keeps (tree t ts) us h =
      let (u, e, h') = bind-ok (f t) _ h in
      let (vs, e', h'') = bind-ok (map_trees f ts) _ h' in
      subst (λ w. Keeps b (trees_names (tree t ts)) (trees_names w)) (ok-injective h'')
        (rw (gather-append (flatten t) (flatten_all ts), gather-append (flatten u) (flatten_all vs))
          (Keeps-append (keeps t u e) (map_trees-Keeps b f keeps ts vs e')))

  pub map_groups-Keeps :
      (b : Bool) (key : Str) (f : Tree Inner → Result Error (Tree Inner))
      → ((t u : Tree Inner) → f t ≡ ok u → Keeps b (tree_names t) (tree_names u))
      → (gs us : Groups Inner) → map_groups key f gs ≡ ok us
      → Keeps b (groups_names gs) (groups_names us)
  unfolding map_groups flatten
  map_groups-Keeps b key f keeps no_group us h = Keeps-of_eq (cc)
  map_groups-Keeps b key f keeps (group name t gs) us h =
      let m : Result Error (Tree Inner) = if str_eq name key then f t else ok t in
      let (u, e, h') = bind-ok m _ h in
      let (vs, e', h'') = bind-ok (map_groups key f gs) _ h' in
      let kept : Keeps b (tree_names t) (tree_names u) = elim (Bool-cases (str_eq name key)) [
        | inl same ↦ keeps t u (ground arith)
        | inr other ↦ Keeps-of_eq (ap tree_names (ok-injective {E = Error} (rw other at e)))
      ] in
      subst (λ w. Keeps b (groups_names (group name t gs)) (groups_names w)) (ok-injective h'')
        (rw
          (
            gather-append (flatten t) (flatten_groups gs),
            gather-append (flatten u) (flatten_groups vs),
          )
          (Keeps-append kept (map_groups-Keeps b key f keeps gs vs e')))

  pub over_groups-Keeps :
      (b : Bool) (key : Str) (f : Tree Inner → Result Error (Tree Inner))
      → ((t u : Tree Inner) → f t ≡ ok u → Keeps b (tree_names t) (tree_names u))
      → (gs : Groups Inner) (u : Tree Inner) → over_groups key f gs ≡ ok u
      → Keeps b (groups_names gs) (tree_names u)
  unfolding over_groups flatten
  over_groups-Keeps b key f keeps gs u h = elim (Bool-cases (has_group key gs)) [
    | inl found ↦
        let r = rw (found, over_groups) at h in
        let (us, e, k) = bind-ok (map_groups key f gs) _ r in
        subst (λ w. Keeps b (groups_names gs) (tree_names w)) (ok-injective k)
          (map_groups-Keeps b key f keeps gs us e)
    | inr missing ↦ let r = rw (missing, over_groups) at h in cc
  ]

  names-remove_group :
      (key : Str) (gs : Groups Inner) (t : Tree Inner) (rest : Groups Inner)
      → remove_group key gs ≡ some (t, rest)
      → Perm (groups_names gs) (tree_names t ++ groups_names rest)
  unfolding remove_group flatten
  names-remove_group key no_group t rest h = cc
  names-remove_group key (group name u gs) t rest h = elim (Bool-cases (str_eq name key)) [
    | inl same ↦
        let found : ◌≡◌ {A = Option (Tree Inner × Groups Inner)} (some (u, gs)) (some (t, rest)) =
          rw same at h in
        let e : u ≡ t = cc in
        let f : gs ≡ rest = cc in
        rw (gather-append (flatten u) (flatten_groups gs), e, f) (Perm.refl _)
    | inr other ↦ elim (Option-cases (remove_group key gs)) [
      | inl missing ↦ absurd (ground arith)
      | inr ((v, r), found) ↦
          let e : v ≡ t = ground arith in
          let f : group name u r ≡ rest = ground arith in
          let ih = names-remove_group key gs v r found in
          rw
            (
              ← f,
              ← e,
              gather-append (flatten u) (flatten_groups gs),
              gather-append (flatten u) (flatten_groups r),
            )
            (Perm.trans (Perm.append_left (tree_names u) ih) (
              rw
                (
                  ← append_assoc (tree_names u) (tree_names v) (groups_names r),
                  ← append_assoc (tree_names v) (tree_names u) (groups_names r),
                )
                (Perm.append_right (groups_names r)
                  (perm_append_comm (tree_names u) (tree_names v)))))
    ]
  ]

  pub reorder-keeps :
      (keys : List Str) (gs : Groups Inner)
      → Perm (groups_names gs) (groups_names (reorder_groups keys gs))
  unfolding reorder_groups flatten
  reorder-keeps [] gs = Perm.refl (groups_names gs)
  reorder-keeps (key ∷ keys) gs = elim (Option-cases (remove_group key gs)) [
    | inl e ↦ rw (e, reorder_groups) (reorder-keeps keys gs)
    | inr ((t, rest), e) ↦
        rw
          (e, reorder_groups, gather-append (flatten t) (flatten_groups (reorder_groups keys rest)))
          (Perm.trans (names-remove_group key gs t rest e)
            (Perm.append_left (tree_names t) (reorder-keeps keys rest)))
  ]
