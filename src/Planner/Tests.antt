-- ===== src/Planner/Tests.antt =====
-- The layer planner on a small reference graph.
use mathlib.Core.List.{Perm, Nodup}
use wrix.Common.{
  ℕ, ◌≡◌, refl, true, false, ◌↔◌, List, [], ◌∷◌, ◌++◌, map, Option, some, arith, length, ok,
}
use wrix.Common.Text.{Str, codes}
use wrix.Common.Sets
use wrix.Common.Sorts
use wrix.Planner.ListGraph.{Lists, list_graph}
use wrix.Planner.Graph
use wrix.Planner.Graph.{Node, RawNode, Loading, parse, range_from}
use wrix.Common.Sets.{has}
use wrix.Planner.Petgraph.{outgoing}
use wrix.Planner.Graph.{reachable}
use wrix.Planner.Graph.Reach.{Reach, reachable_lem}
use wrix.Planner.Pipeline
use wrix.Planner.Pipeline.{
  NonZeroUsize, Step, Steps, no_step, step, split_paths, path, flatten_step, limit,
}
use wrix.Planner.Pipeline.Conserve.{removes_any}
use wrix.Planner.Plan.{
  plan, plan-perm, plan-dropped, included, all_paths, NonEmpty, layers_of, drop_empty,
}

abbrev raw_node : Str → ℕ → List Str → RawNode
raw_node p n rs = record { path = p; nar_size = n; references = rs }

abbrev path_a : Str
path_a = codes "h-a"

abbrev path_b : Str
path_b = codes "h-b"

abbrev path_c : Str
path_c = codes "h-c"

-- Two roots that share a dependency, which refers to itself.
abbrev shared : List RawNode
shared =
    raw_node path_a 10 (path_c ∷ [])
    ∷ raw_node path_b 20 (path_c ∷ [])
    ∷ raw_node path_c 1 (path_c ∷ [])
    ∷ []

abbrev two : NonZeroUsize
two = record { get = 2; is_positive = omega arith }

abbrev split_and_limit : Steps
split_and_limit =
    step (split_paths (path path_c ∷ [])) (step flatten_step (step (limit two) no_step))

-- Each node for itself: the shared graph has no cycle, and its edges go down.
abbrev condense : Lists Node → Lists (List Node)
condense g = record { weights = map (λ n. n ∷ []) g.weights; edges = g.edges }

abbrev topological : Lists (List Node) → Option (List ℕ)
topological g = some (range_from 0 (length g.weights))

shared_layers :
    plan list_graph condense topological shared split_and_limit []
    ≡ ok ((path_c ∷ []) ∷ (path_a ∷ path_b ∷ []) ∷ [])
unfolding plan layers_of drop_empty parse Graph.load_nodes Graph.sort_by_size Graph.retain_included
    Graph.load_node Graph.parse_name Graph.insert_node Graph.load_edges Graph.select_targets
    Graph.find Graph.add_edges Graph.roots Graph.reachable Graph.reach_loop Graph.degree_sum
    Graph.without_incoming Graph.merge Graph.merge_loop Graph.merge_into Graph.subset
    Graph.copy_nodes Graph.copy_edges Graph.empty Sets.extend Sets.insert Sorts.insert_by
    Sorts.sort_by Pipeline.apply Pipeline.apply_all Pipeline.split_graph Pipeline.select_specs
    Pipeline.find_all Pipeline.is_only_root Pipeline.split_selected Pipeline.three_groups
    Pipeline.flatten Pipeline.of_graphs Pipeline.limit_trees Pipeline.graphs_of
    Pipeline.append_trees
shared_layers = refl

nothing_removed : removes_any split_and_limit ≡ false
unfolding removes_any
nothing_removed = refl

plan-perm_example :
    Perm (included shared []) (all_paths ((path_c ∷ []) ∷ (path_a ∷ path_b ∷ []) ∷ []))
    × Nodup (all_paths ((path_c ∷ []) ∷ (path_a ∷ path_b ∷ []) ∷ []))
    × NonEmpty ((path_c ∷ []) ∷ (path_a ∷ path_b ∷ []) ∷ [])
plan-perm_example =
    plan-perm list_graph condense topological shared split_and_limit [] _ nothing_removed
      shared_layers

plan-dropped_example :
    (dropped : List Str) × Perm
      (included shared [])
      (all_paths ((path_c ∷ []) ∷ (path_a ∷ path_b ∷ []) ∷ []) ++ dropped)
    × Nodup (all_paths ((path_c ∷ []) ∷ (path_a ∷ path_b ∷ []) ∷ []))
    × NonEmpty ((path_c ∷ []) ∷ (path_a ∷ path_b ∷ []) ∷ [])
plan-dropped_example =
    plan-dropped list_graph condense topological shared split_and_limit []
      ((path_c ∷ []) ∷ (path_a ∷ path_b ∷ []) ∷ []) shared_layers

abbrev node : Str → Node
node p = record { name = p; nar_size = 1 }

-- 0 to 1, and 2 apart.
abbrev one_edge : Lists Node
one_edge = record { weights = node path_a ∷ node path_b ∷ node path_c ∷ []; edges = (0, 1) ∷ [] }

reachable_lem_example :
    (has (reachable one_edge (0 ∷ []) outgoing) 1 ≡ true)
    ↔ ((s : ℕ) × (has (0 ∷ []) s ≡ true) × Reach one_edge outgoing s 1)
reachable_lem_example = reachable_lem one_edge (0 ∷ []) outgoing 1
