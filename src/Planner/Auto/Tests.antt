-- ===== src/Planner/Auto/Tests.antt =====
-- The default layers of a small reference graph.
use mathlib.Core.List.{Perm, Nodup}
use wrix.Common.{◌≤◌, ◌≡◌, refl, List, [], ◌∷◌, arith, length, ok}
use wrix.Common.Text.{Str, codes}
use wrix.Common.Sets
use wrix.Common.Sorts
use wrix.Planner.ListGraph.{list_graph}
use wrix.Planner.Graph
use wrix.Planner.Graph.{RawNode, parse}
use wrix.Planner.Plan.{included, all_paths, NonEmpty, drop_empty}
use wrix.Planner.Auto
use wrix.Planner.Auto.{auto_plan}
use wrix.Planner.Auto.Layers.{auto_plan-perm, length-auto_plan}

abbrev path_a : Str
path_a = codes "h-a"

abbrev path_b : Str
path_b = codes "h-b"

abbrev path_c : Str
path_c = codes "h-c"

-- Two roots that share a dependency, and one that is ignored.
abbrev shared : List RawNode
shared =
    record { path = path_a; nar_size = 10; references = path_c ∷ [] }
    ∷ record { path = path_b; nar_size = 20; references = path_c ∷ [] }
    ∷ record { path = path_c; nar_size = 1; references = path_c ∷ [] }
    ∷ record { path = codes "h-d"; nar_size = 5; references = [] }
    ∷ []

abbrev ignored : List Str
ignored = codes "h-d" ∷ []

abbrev three_layers : List (List Str)
three_layers = (path_c ∷ []) ∷ (path_a ∷ []) ∷ (path_b ∷ []) ∷ []

shared_layers : auto_plan ⦃P = list_graph⦄ shared ignored 4 ≡ ok three_layers
unfolding auto_plan drop_empty parse Graph.load_nodes Graph.sort_by_size Graph.retain_included
    Graph.load_node Graph.parse_name Graph.insert_node Graph.load_edges Graph.select_targets
    Graph.add_edges Graph.reachable Graph.reach_loop Graph.degree_sum Sets.insert Sorts.insert_by
    Sorts.sort_by Auto.path_keys Auto.path_key Auto.own_dependency Auto.own_dependencies
    Auto.push_group Auto.group_indices Auto.assign_primary Auto.assign_loop Auto.assign
    Auto.layer_of Auto.layers
shared_layers = refl

auto_plan-perm_example :
    Perm (included shared ignored) (all_paths three_layers)
    × Nodup (all_paths three_layers)
    × NonEmpty three_layers
auto_plan-perm_example = auto_plan-perm ⦃P = list_graph⦄ shared ignored 4 three_layers shared_layers

length-auto_plan_example : length three_layers ≤ 4
length-auto_plan_example =
    length-auto_plan ⦃P = list_graph⦄ shared ignored 4 three_layers (omega arith) shared_layers
