-- ===== src/Planner/Pipeline.antt =====
-- crates/wrix-image-tools/src/planner/pipeline/mod.rs: the operations on trees of layers. A
-- `Vec<Tree>` is `Trees`, a `Vec<(String, Tree)>` is `Groups`, a `Vec<Step>` is `Steps`, since each
-- holds trees or steps again.
pub mod Keeps
pub mod Names
pub mod Layers
pub mod Conserve
use wrix.Common.{
  ℕ, zero, suc, ◌+◌, ◌-◌, ◌<◌, ◌≡◌, refl, Bool, true, false, not, ◌&&◌, ◌||◌, List, [], ◌∷◌, ◌++◌,
  map, Option, none, some, arith, ◌==◌, if◌then◌else◌, length, take, drop, is_empty, Result, ok,
  err, ◌>>=◌,
}
use wrix.Common.Text.{Str, str_eq, codes}
use wrix.Common.Sets.{has, extend, keep}
use wrix.Planner.Petgraph.{Petgraph, Direction, outgoing}
use wrix.Planner.Graph.{
  Node, Graph, empty, find, roots, reachable, subset, without, without_incoming, merge,
  node_indices,
}
use wrix.Planner.Score

pub data Error : Type 0 where
  shape : Error
  missing_group : Str → Error
  score : Score.Error → Error

mutual
  pub data Tree (G : Type 0) : Type 0 where
    graph : G → Tree G
    list : Trees G → Tree G
    groups : Groups G → Tree G

  pub data Trees (G : Type 0) : Type 0 where
    no_tree : Trees G
    tree : Tree G → Trees G → Trees G

  pub data Groups (G : Type 0) : Type 0 where
    no_group : Groups G
    group : Str → Tree G → Groups G → Groups G

-- `std::num::NonZeroUsize`.
pub record NonZeroUsize : Type 0 where
  pub get : ℕ
  pub is_positive : 0 < get

pub data SplitSpec : Type 0 where
  path : Str → SplitSpec
  children : List Str → SplitSpec

mutual
  pub data Step : Type 0 where
    flatten_step : Step
    over : Str → Step → Step
    split_every limit : NonZeroUsize → Step
    remove : List Str → Step
    reverse_step : Step
    reorder : List Str → Step
    subcomponent : Direction → List Str → Step
    split_paths : List SplitSpec → Step
    popularity : Step
    map_step : Step → Step
    pipe : Steps → Step

  pub data Steps : Type 0 where
    no_step : Steps
    step : Step → Steps → Steps

-- `slice::chunks`; `fuel` bounds the number of chunks.
unfoldable pub chunks_fuel : ℕ → ℕ → List ℕ → List (List ℕ)
chunks_fuel zero n xs = []
chunks_fuel (suc fuel) n [] = []
chunks_fuel (suc fuel) n (x ∷ xs) = take n (x ∷ xs) ∷ chunks_fuel fuel n (drop n (x ∷ xs))

unfoldable pub chunks : ℕ → List ℕ → List (List ℕ)
chunks n xs = chunks_fuel (length xs) n xs

module _ {G : Type 0} where
  unfoldable mutual
    pub flatten : Tree G → List G
    flatten (graph g) = g ∷ []
    flatten (list ts) = flatten_all ts
    flatten (groups gs) = flatten_groups gs

    pub flatten_all : Trees G → List G
    flatten_all no_tree = []
    flatten_all (tree t ts) = flatten t ++ flatten_all ts

    pub flatten_groups : Groups G → List G
    flatten_groups no_group = []
    flatten_groups (group key t gs) = flatten t ++ flatten_groups gs

  -- `graphs.into_iter().map(Tree::Graph).collect()`.
  unfoldable pub of_graphs : List G → Trees G
  of_graphs [] = no_tree
  of_graphs (g ∷ gs) = tree (graph g) (of_graphs gs)

  abbrev pub take_trees : ℕ → Trees G → Trees G
  take_trees zero ts = no_tree
  take_trees (suc n) no_tree = no_tree
  take_trees (suc n) (tree t ts) = tree t (take_trees n ts)

  abbrev pub drop_trees : ℕ → Trees G → Trees G
  drop_trees zero ts = ts
  drop_trees (suc n) no_tree = no_tree
  drop_trees (suc n) (tree t ts) = drop_trees n ts

  unfoldable pub append_trees : Trees G → Trees G → Trees G
  append_trees no_tree us = us
  append_trees (tree t ts) us = tree t (append_trees ts us)

  -- The graphs of a list that holds nothing else.
  unfoldable pub graphs_of : Trees G → Result Error (List G)
  graphs_of no_tree = ok []
  graphs_of (tree (graph g) ts) = do gs ← graphs_of ts; ok (g ∷ gs)
  graphs_of (tree (list us) ts) = err shape
  graphs_of (tree (groups us) ts) = err shape

  unfoldable pub reverse_onto : Trees G → Trees G → Trees G
  reverse_onto no_tree us = us
  reverse_onto (tree t ts) us = reverse_onto ts (tree t us)

  -- Each tree through the operation; the first error ends the walk.
  unfoldable pub map_trees : (Tree G → Result Error (Tree G)) → Trees G → Result Error (Trees G)
  map_trees f no_tree = ok no_tree
  map_trees f (tree t ts) = do u ← f t; us ← map_trees f ts; ok (tree u us)

  abbrev pub has_group : Str → Groups G → Bool
  has_group key no_group = false
  has_group key (group name t gs) = str_eq name key || has_group key gs

  -- The groups of that name through the operation, the others as they are.
  unfoldable pub map_groups :
      Str → (Tree G → Result Error (Tree G)) → Groups G → Result Error (Groups G)
  map_groups key f no_group = ok no_group
  map_groups key f (group name t gs) = do
    u ← (if str_eq name key then f t else ok t)
    us ← map_groups key f gs
    ok (group name u us)

  unfoldable pub over_groups :
      Str → (Tree G → Result Error (Tree G)) → Groups G → Result Error (Tree G)
  over_groups key f gs = elim (has_group key gs) [
    | false ↦ err (missing_group key)
    | true ↦ do us ← map_groups key f gs; ok (groups us)
  ]

  -- The first group of that name, and the others: `groups.remove(index)`.
  unfoldable pub remove_group : Str → Groups G → Option (Tree G × Groups G)
  remove_group key no_group = none
  remove_group key (group name t gs) =
      if str_eq name key
      then some (t, gs)
      else elim (remove_group key gs) [ none ↦ none | some (u, rest) ↦ some (u, group name t rest) ]

  -- `result.extend(groups)` after one `push` for each key that is found.
  unfoldable pub reorder_groups : List Str → Groups G → Groups G
  reorder_groups [] gs = gs
  reorder_groups (key ∷ keys) gs = elim (remove_group key gs) [
    | none ↦ reorder_groups keys gs
    | some (t, rest) ↦ group key t (reorder_groups keys rest)
  ]

module _ ⦃P : Petgraph Node⦄ where
  open P use {Inner, neighbors_directed}

  -- `paths.iter().filter_map(|path| graph.find(path))`.
  unfoldable pub find_all : Inner → List Str → List ℕ
  find_all g [] = []
  find_all g (p ∷ ps) = elim (find g p) [ none ↦ find_all g ps | some i ↦ i ∷ find_all g ps ]

  -- The function `groups`.
  unfoldable pub three_groups : Inner → Inner → Inner → Tree Inner
  three_groups main common rest = groups (
      group (codes "main") (graph main)
        (group (codes "common") (graph common) (group (codes "rest") (graph rest) no_group)))

  unfoldable pub neighbors_of : Inner → List ℕ → List ℕ → List ℕ
  neighbors_of g [] selected = selected
  neighbors_of g (i ∷ is) selected =
      neighbors_of g is (extend selected (neighbors_directed g i outgoing))

  -- The loop of `split_paths` over its specifications.
  unfoldable pub select_specs : Inner → List SplitSpec → List ℕ → List ℕ
  unfolding find_all
  select_specs g [] selected = selected
  select_specs g (path p ∷ specs) selected =
      select_specs g specs (extend selected (find_all g (p ∷ [])))
  select_specs g (children ps ∷ specs) selected =
      select_specs g specs (neighbors_of g (find_all g ps) selected)

  -- `roots.len() == 1 && selected.contains(&roots[0])`.
  unfoldable pub is_only_root : List ℕ → List ℕ → Bool
  is_only_root selected [] = false
  is_only_root selected (r ∷ []) = has selected r
  is_only_root selected (r ∷ q ∷ rs) = false

  -- The part of `split_paths` that divides the graph.
  unfoldable pub split_selected : Inner → List ℕ → Tree Inner
  unfolding three_groups
  split_selected g selected =
      let split = reachable g selected outgoing in
      let modified = without_incoming g selected in
      let rest = reachable modified (keep (λ i. not (has selected i)) (roots g)) outgoing in
      let common = keep (has rest) split in
      let main = keep (λ i. not (has common i)) split in
      let remaining = keep (λ i. not (has split i)) (node_indices g) in
      three_groups (subset modified main) (subset modified common) (subset modified remaining)

  unfoldable pub split_graph : Inner → List SplitSpec → Tree Inner
  unfolding split_selected select_specs is_only_root
  split_graph g specs =
      let selected = select_specs g specs [] in
      if is_empty selected
      then three_groups empty empty g
      else if is_only_root selected (roots g)
      then three_groups g empty empty
      else split_selected g selected

  unfoldable pub split_every_graph : ℕ → Inner → Tree Inner
  split_every_graph n g =
      list (of_graphs (map (λ chunk. subset g chunk) (chunks n (node_indices g))))

  unfoldable pub limit_trees : ℕ → Trees Inner → Result Error (Tree Inner)
  limit_trees n ts = do
    tail ← graphs_of (drop_trees (n - 1) ts)
    ok (list (append_trees (take_trees (n - 1) ts) (tree (graph (merge tail)) no_tree)))

  unfoldable pub subcomponent_graph : Direction → List Str → Inner → Tree Inner
  subcomponent_graph d ps g =
      let selected = reachable g (find_all g ps) d in
      groups (
        group (codes "main") (graph (subset g selected))
          (group (codes "rest") (graph (without g selected)) no_group))

  module _ (Q : Petgraph (List Node)) (condensation : P.Inner → Q.Inner)
      (toposort : Q.Inner → Option (List ℕ)) where
    unfoldable pub popularity_graph : Inner → Result Error (Tree Inner)
    popularity_graph g = elim (Score.popularity Q condensation toposort g) [
      | ok gs ↦ ok (list (of_graphs gs))
      | err e ↦ err (score e)
    ]

    unfoldable mutual
      pub apply : Step → Tree Inner → Result Error (Tree Inner)
      apply flatten_step (graph g) = err shape
      apply flatten_step t = ok (list (of_graphs (flatten t)))
      apply popularity (graph g) = popularity_graph g
      apply popularity t = err shape
      apply (split_every n) (graph g) = ok (split_every_graph n.get g)
      apply (split_every n) t = err shape
      apply (limit n) (list ts) = limit_trees n.get ts
      apply (limit n) t = err shape
      apply (remove ps) (graph g) = ok (graph (without g (find_all g ps)))
      apply (remove ps) t = err shape
      apply reverse_step (list ts) = ok (list (reverse_onto ts no_tree))
      apply reverse_step t = err shape
      apply (over key op) (groups gs) = over_groups key (apply op) gs
      apply (over key op) t = err shape
      apply (map_step op) (list ts) = do us ← map_trees (apply op) ts; ok (list us)
      apply (map_step op) t = err shape
      apply (reorder keys) (groups gs) = ok (groups (reorder_groups keys gs))
      apply (reorder keys) t = ok t
      apply (subcomponent d ps) (graph g) = ok (subcomponent_graph d ps g)
      apply (subcomponent d ps) t = err shape
      apply (split_paths specs) (graph g) = ok (split_graph g specs)
      apply (split_paths specs) t = err shape
      apply (pipe steps) t = apply_all steps t

      -- `steps.iter().try_fold(tree, |tree, step| step.apply(tree))`.
      pub apply_all : Steps → Tree Inner → Result Error (Tree Inner)
      apply_all no_step t = ok t
      apply_all (step op steps) t = apply op t >>= λ u. apply_all steps u
