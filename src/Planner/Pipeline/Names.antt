-- ===== src/Planner/Pipeline/Names.antt =====
-- What the operations of crates/wrix-image-tools/src/planner/pipeline/mod.rs do to the paths that
-- a tree of layers holds.
use mathlib.Core.List.{Perm, append-nil, append_assoc, map-append, perm_append_comm}
use mathlib.Core.List.Perm
use wrix.Common.{
  ℕ, ◌≡◌, refl, sym, ap, ◌∙◌, inl, inr, Bool, true, not, List, [], ◌∷◌, ◌++◌, arith, is_empty,
  Bool-cases,
}
use wrix.Common.Text.{Str}
use wrix.Common.Sets.{has, keep, has-keep}
use wrix.Planner.Petgraph.{Petgraph, Direction, outgoing}
use wrix.Planner.Graph.{
  Node, names, name_list, subset, without, without_incoming, merge, node_indices, reachable, roots,
  empty,
}
use wrix.Planner.Graph.Weights.{
  select, select-perm, gather, weights-subset, weights-without, weights-without_incoming,
  weights-merge, select-union, has-node_indices,
}
use wrix.Planner.Pipeline.Keeps.{Keeps, reorders, drops, Keeps-of_eq}
use wrix.Planner.Pipeline.{
  Tree, graph, list, Trees, Groups, flatten, flatten_all, flatten_groups, of_graphs, three_groups,
  split_selected, split_graph, select_specs, is_only_root, subcomponent_graph, SplitSpec, find_all,
}

pub name_list-append : (ns ms : List Node) → name_list (ns ++ ms) ≡ name_list ns ++ name_list ms
name_list-append ns ms = map-append (λ n. n.name) ns ms

pub name_list-perm : {ns ms : List Node} → Perm ns ms → Perm (name_list ns) (name_list ms)
name_list-perm h = Perm.map (λ n. n.name) h

module _ ⦃P : Petgraph Node⦄ where
  open P use {Inner, new, node_weights, weights_new}

  -- The paths of some graphs, and of a tree, in the order of the layers.
  abbrev pub graph_names : List Inner → List Str
  graph_names = gather names

  abbrev pub tree_names : Tree Inner → List Str
  tree_names t = graph_names (flatten t)

  abbrev pub trees_names : Trees Inner → List Str
  trees_names ts = graph_names (flatten_all ts)

  abbrev pub groups_names : Groups Inner → List Str
  groups_names gs = graph_names (flatten_groups gs)

  pub gather-append :
      (gs hs : List Inner) → graph_names (gs ++ hs) ≡ graph_names gs ++ graph_names hs
  gather-append [] hs = refl
  gather-append (g ∷ gs) hs =
      rw (gather-append gs hs) (sym (append_assoc (names g) (graph_names gs) (graph_names hs)))

  pub flatten-of_graphs : (gs : List Inner) → flatten_all (of_graphs gs) ≡ gs
  unfolding flatten of_graphs
  flatten-of_graphs [] = refl
  flatten-of_graphs (g ∷ gs) = ap (λ (r : List Inner). g ∷ r) (flatten-of_graphs gs)

  pub names-of_graphs : (gs : List Inner) → tree_names (list (of_graphs gs)) ≡ graph_names gs
  unfolding flatten
  names-of_graphs gs = rw (flatten-of_graphs gs)

  pub names-graph : (g : Inner) → tree_names (graph g) ≡ names g
  unfolding flatten
  names-graph g = append-nil (names g)

  pub names-merge : (gs : List Inner) → names (merge gs) ≡ graph_names gs
  names-merge gs = rw (weights-merge gs) (go gs)
    where
      go : (hs : List Inner) → name_list (gather node_weights hs) ≡ graph_names hs
      go [] = refl
      go (h ∷ hs) = name_list-append (node_weights h) (gather node_weights hs) ∙ rw (go hs)

  -- The graph operations, by the paths they keep.
  pub subset-names :
      (g : Inner) (s : List ℕ) → names (subset g s) ≡ name_list (select (has s) 0 (node_weights g))
  subset-names g s = ap name_list (weights-subset g s)

  perm-subset-without :
      (g : Inner) (s : List ℕ) → Perm (names g) (names (subset g s) ++ names (without g s))
  perm-subset-without g s =
      rw
        (
          weights-subset g s,
          weights-without g s,
          ← name_list-append (select (has s) 0 (node_weights g))
              (select (λ i. not (has s i)) 0 (node_weights g)),
        )
        (name_list-perm
          (select-perm (has s) (λ i. not (has s i)) 0 (node_weights g) (λ j a b. refl)))

  pub remove-Keeps :
      (g : Inner) (s : List ℕ)
      → Keeps true (tree_names (graph g)) (tree_names (graph (without g s)))
  remove-Keeps g s =
      rw (names-graph g, names-graph (without g s))
        (drops (names (subset g s))
          (Perm.trans (perm-subset-without g s) (perm_append_comm (names (subset g s)) _)))

  pub subcomponent-Keeps :
      (b : Bool) (d : Direction) (ps : List Str) (g : Inner)
      → Keeps b (tree_names (graph g)) (tree_names (subcomponent_graph d ps g))
  unfolding subcomponent_graph flatten
  subcomponent-Keeps b d ps g =
      reorders (simp append-nil (perm-subset-without g (reachable g (find_all g ps) d)))

  pub names-empty : names empty ≡ []
  unfolding empty
  names-empty = rw weights_new

  -- A set, its part in another, and the complement divide the nodes.
  perm-three :
      (g m : Inner) (split rest : List ℕ)
      → node_weights m ≡ node_weights g
      → let common = keep (has rest) split in
        Perm (names g) (
          names (subset m (keep (λ i. not (has common i)) split))
          ++ (names (subset m common)
              ++ names (subset m (keep (λ i. not (has split i)) (node_indices g)))))
  perm-three g m split rest same =
      let common = keep (has rest) split in
      let main = keep (λ i. not (has common i)) split in
      let remaining = keep (λ i. not (has split i)) (node_indices g) in
      let ws = node_weights g in
      rw (weights-subset m main, weights-subset m common, weights-subset m remaining, same)
        (Perm.trans
          (name_list-perm (
            select-perm (has split) (has remaining) 0 ws (λ j a b.
              has-keep (λ i. not (has split i)) j (node_indices g)
              ∙ rw (has-node_indices g j) (ground arith))))
          (rw (name_list-append (select (has split) 0 ws) (select (has remaining) 0 ws)) (
            Perm.trans
              (Perm.append_right (name_list (select (has remaining) 0 ws)) (
                name_list-perm (
                  select-union (has split) (has main) (has common) 0 ws
                    (λ j. ground (
                      arith,
                      has-keep (λ i. not (has common i)) j split,
                      has-keep (has rest) j split,
                    ))
                    (λ j. ground (arith, has-keep (λ i. not (has common i)) j split)))))
              (rw
                (
                  name_list-append (select (has main) 0 ws) (select (has common) 0 ws),
                  append_assoc (name_list (select (has main) 0 ws))
                      (name_list (select (has common) 0 ws))
                      (name_list (select (has remaining) 0 ws)),
                )
                (Perm.refl _)))))

  -- The parts of a split graph hold its nodes, each in one part.
  split_selected-keeps :
      (g : Inner) (selected : List ℕ) → Perm (names g) (tree_names (split_selected g selected))
  unfolding split_selected flatten
  split_selected-keeps g selected = simp append-nil (
      perm-three g (without_incoming g selected) (reachable g selected outgoing) _
        (weights-without_incoming g selected))

  tree_names-three :
      (a b c : Inner) → tree_names (three_groups a b c) ≡ names a ++ (names b ++ names c)
  unfolding three_groups flatten
  tree_names-three a b c = simp append-nil

  pub split_graph-Keeps :
      (b : Bool) (g : Inner) (specs : List SplitSpec)
      → Keeps b (tree_names (graph g)) (tree_names (split_graph g specs))
  unfolding split_graph
  split_graph-Keeps b g specs =
      let selected = select_specs g specs [] in
      rw names-graph (elim (Bool-cases (is_empty selected)) [
        | inl e ↦ rw e (Keeps-of_eq (sym (tree_names-three empty empty g ∙ simp names-empty)))
        | inr e ↦ elim (Bool-cases (is_only_root selected (roots g))) [
          | inl f ↦
              rw (e, f)
                (Keeps-of_eq
                  (sym (tree_names-three g empty empty ∙ simp (names-empty, append-nil))))
          | inr f ↦ rw (e, f) (reorders (split_selected-keeps g selected))
        ]
      ])
