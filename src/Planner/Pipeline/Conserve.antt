-- ===== src/Planner/Pipeline/Conserve.antt =====
-- The paths of a tree of layers under a step, or a pipeline of steps, of
-- crates/wrix-image-tools/src/planner/pipeline/mod.rs.
use mathlib.Core.List.{Perm}
use mathlib.Core.List.Perm
use mathlib.Core.Bool.{◌||◌}
use wrix.Common.{
  ℕ, ◌≡◌, refl, sym, ap, subst, ◌∙◌, inl, inr, Bool, true, false, List, [], ◌∷◌, map, Option, arith,
  ok, err, bind-ok, ok-injective, Result-cases, ok_or,
}
use wrix.Common.Text.{Str}
use wrix.Common.Sorts.{sort_by, sort_by-perm}
use wrix.Planner.Petgraph.{Petgraph}
use wrix.Planner.Graph.{Node, names, name_list, singleton, lookup_name}
use wrix.Planner.Graph.Weights.{weights-singleton}
use wrix.Planner.Score
use wrix.Planner.Score.{Ranked, ranks_before, rank, popularity}
use wrix.Planner.Pipeline.Keeps.{Keeps, reorders, Keeps-of_eq, Keeps-trans}
use wrix.Planner.Pipeline.Names.{
  graph_names, tree_names, names-graph, names-of_graphs, remove-Keeps, subcomponent-Keeps,
  split_graph-Keeps,
}
use wrix.Planner.Pipeline.Layers.{
  limit-keeps, split_every-keeps, reverse-keeps, map_trees-Keeps, over_groups-Keeps, reorder-keeps,
}
use wrix.Planner.Pipeline.{
  Error, Tree, graph, list, groups, Step, Steps, flatten_step, over, split_every, limit, remove,
  reverse_step, reorder, subcomponent, split_paths, popularity as popularity_step, map_step, pipe,
  of_graphs, score, no_step, step, flatten, map_trees, popularity_graph, apply, apply_all,
}

-- Whether a step, or one inside it, removes paths.
unfoldable mutual
  pub removes : Step → Bool
  removes (remove ps) = true
  removes (over key op) = removes op
  removes (map_step op) = removes op
  removes (pipe steps) = removes_any steps
  removes _ = false

  pub removes_any : Steps → Bool
  removes_any no_step = false
  removes_any (step op steps) = removes op || removes_any steps

module _ ⦃P : Petgraph Node⦄ where
  open P use {Inner, node_weights}

  names-singletons :
      (rs : List Ranked)
      → graph_names (map (λ r. singleton r.node) rs) ≡ name_list (map (λ r. r.node) rs)
  names-singletons [] = refl
  names-singletons (r ∷ rs) = rw (weights-singleton r.node, names-singletons rs)

  module _ (Q : Petgraph (List Node)) (condensation : P.Inner → Q.Inner)
      (toposort : Q.Inner → Option (List ℕ)) where
    rank-nodes :
        (m : List (Str × ℕ)) (scored : List ℕ) (ns : List Node) (rs : List Ranked)
        → rank Q m scored ns ≡ ok rs
        → map (λ r. r.node) rs ≡ ns
    unfolding rank
    rank-nodes m scored [] rs h = cc
    rank-nodes m scored (n ∷ ns) rs h =
        let (i, e, f) = bind-ok (ok_or (lookup_name m n.name) Score.missing_component) _ h in
        let (rest, e', f') = bind-ok (rank Q m scored ns) _ f in
        subst (λ (w : List Ranked). map (λ r. r.node) w ≡ n ∷ ns) (ok-injective f')
          (ap (λ (r : List Node). n ∷ r) (rank-nodes m scored ns rest e'))

    popularity-keeps :
        (g : Inner) (gs : List Inner)
        → popularity Q condensation toposort g ≡ ok gs
        → Perm (names g) (graph_names gs)
    unfolding popularity
    popularity-keeps g gs h =
        let condensed = condensation g in
        let (order, e, f) = bind-ok (ok_or (toposort condensed) Score.condensation_cycle) _ h in
        let (rs, e', f') = bind-ok (rank Q _ _ (node_weights g)) _ f in
        subst (λ (w : List Inner). Perm (names g) (graph_names w)) (ok-injective f')
          (rw (names-singletons (sort_by ranks_before rs), ← rank-nodes _ _ (node_weights g) rs e')
            (Perm.map (λ n. n.name) (Perm.map (λ r. r.node) (sort_by-perm ranks_before rs))))

    popularity_graph-Keeps :
        (b : Bool) (g : Inner) (u : Tree Inner)
        → popularity_graph Q condensation toposort g ≡ ok u
        → Keeps b (tree_names (graph g)) (tree_names u)
    unfolding popularity_graph
    popularity_graph-Keeps b g u h = elim (Result-cases (popularity Q condensation toposort g)) [
      | inl (gs, e) ↦
          let r : ok (list (of_graphs gs)) ≡ ok u = rw (e, popularity_graph) at h in
          subst (λ w. Keeps b (tree_names (graph g)) (tree_names w)) (ok-injective r)
            (rw (names-graph g, names-of_graphs gs) (reorders (popularity-keeps g gs e)))
      | inr (x, e) ↦ let r : err (score x) ≡ ok u = rw (e, popularity_graph) at h in cc
    ]

    mutual
      unfolding apply removes flatten

      apply-Keeps :
          (b : Bool) (s : Step) (t u : Tree Inner)
          → (b ≡ false → removes s ≡ false)
          → apply Q condensation toposort s t ≡ ok u
          → Keeps b (tree_names t) (tree_names u)
      apply-Keeps b flatten_step (graph g) u al h = cc
      apply-Keeps b flatten_step (list ts) u al h =
          subst (λ w. Keeps b (tree_names (list ts)) (tree_names w)) (ok-injective h)
            (Keeps-of_eq (sym (names-of_graphs (flatten (list ts)))))
      apply-Keeps b flatten_step (groups gs) u al h =
          subst (λ w. Keeps b (tree_names (groups gs)) (tree_names w)) (ok-injective h)
            (Keeps-of_eq (sym (names-of_graphs (flatten (groups gs)))))
      apply-Keeps b popularity_step (graph g) u al h = popularity_graph-Keeps b g u h
      apply-Keeps b popularity_step t u al h = cc
      apply-Keeps b (split_every n) (graph g) u al h =
          subst (λ w. Keeps b (tree_names (graph g)) (tree_names w)) (ok-injective h)
            (Keeps-of_eq (names-graph g ∙ sym (split_every-keeps n.get g n.is_positive)))
      apply-Keeps b (split_every n) t u al h = cc
      apply-Keeps b (limit n) (list ts) u al h = Keeps-of_eq (sym (limit-keeps n.get ts u h))
      apply-Keeps b (limit n) t u al h = cc
      apply-Keeps true (remove ps) (graph g) u al h =
          subst (λ w. Keeps true (tree_names (graph g)) (tree_names w)) (ok-injective h)
            (remove-Keeps g _)
      apply-Keeps false (remove ps) (graph g) u al h = let e = al refl in cc
      apply-Keeps b (remove ps) t u al h = cc
      apply-Keeps b reverse_step (list ts) u al h =
          subst (λ w. Keeps b (tree_names (list ts)) (tree_names w)) (ok-injective h)
            (reorders (reverse-keeps ts))
      apply-Keeps b reverse_step t u al h = cc
      apply-Keeps b (over key op) (groups gs) u al h =
          over_groups-Keeps b key (apply Q condensation toposort op)
            (λ t v k. apply-Keeps b op t v al k) gs u h
      apply-Keeps b (over key op) t u al h = cc
      apply-Keeps b (map_step op) (list ts) u al h =
          let (us, e, f) = bind-ok (map_trees (apply Q condensation toposort op) ts) _ h in
          subst (λ w. Keeps b (tree_names (list ts)) (tree_names w)) (ok-injective f)
            (map_trees-Keeps b (apply Q condensation toposort op)
              (λ t v k. apply-Keeps b op t v al k) ts us e)
      apply-Keeps b (map_step op) t u al h = cc
      apply-Keeps b (reorder keys) (groups gs) u al h =
          subst (λ w. Keeps b (tree_names (groups gs)) (tree_names w)) (ok-injective h)
            (reorders (reorder-keeps keys gs))
      apply-Keeps b (reorder keys) t u al h =
          Keeps-of_eq (ap tree_names (ok-injective {E = Error} h))
      apply-Keeps b (subcomponent d ps) (graph g) u al h =
          subst (λ w. Keeps b (tree_names (graph g)) (tree_names w)) (ok-injective h)
            (subcomponent-Keeps b d ps g)
      apply-Keeps b (subcomponent d ps) t u al h = cc
      apply-Keeps b (split_paths specs) (graph g) u al h =
          subst (λ w. Keeps b (tree_names (graph g)) (tree_names w)) (ok-injective h)
            (split_graph-Keeps b g specs)
      apply-Keeps b (split_paths specs) t u al h = cc
      apply-Keeps b (pipe steps) t u al h = apply_all-Keeps b steps t u al h

      pub apply_all-Keeps :
          (b : Bool) (ss : Steps) (t u : Tree Inner)
          → (b ≡ false → removes_any ss ≡ false)
          → apply_all Q condensation toposort ss t ≡ ok u
          → Keeps b (tree_names t) (tree_names u)
      apply_all-Keeps b no_step t u al h = Keeps-of_eq (ap tree_names (ok-injective {E = Error} h))
      apply_all-Keeps b (step op steps) t u al h =
          let (v, e, f) = bind-ok (apply Q condensation toposort op t) _ h in
          Keeps-trans (apply-Keeps b op t v (λ k. let r = al k in ground arith) e)
            (apply_all-Keeps b steps v u (λ k. let r = al k in ground arith) f)
