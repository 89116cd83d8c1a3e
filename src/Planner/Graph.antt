-- ===== src/Planner/Graph.antt =====
-- crates/wrix-image-tools/src/planner/graph/mod.rs: the reference graph. `graph.inner` is the
-- graph itself, a `BTreeSet<NodeIndex>` a strictly increasing list, a `BTreeMap` an association
-- list, and a stable sort the insertion sort.
pub mod Weights
pub mod Reach
pub mod Parse
use wrix.Common.{
  ℕ, zero, suc, ◌+◌, ◌≡◌, refl, Bool, true, false, not, ◌&&◌, ◌||◌, List, [], ◌∷◌, ◌++◌, map,
  Option, none, some, arith, ◌==◌, leb, if◌then◌else◌, length, Result, ok, err, ◌>>=◌, ◌>>◌, guard,
}
use wrix.Common.Text.{Str, str_eq, contains_byte}
use wrix.Common.Sets.{has, insert, keep}
use wrix.Common.Sorts.{sort_by}
use wrix.Planner.Petgraph.{Petgraph, Direction}

pub data Error : Type 0 where
  invalid_name : Error
  duplicate : Str → Error
  missing_reference : Str → Str → Error

pub record RawNode : Type 0 where
  pub path : Str
  pub nar_size : ℕ
  pub references : List Str

pub record Node : Type 0 where
  pub name : Str
  pub nar_size : ℕ

-- `Name::parse`.
unfoldable pub parse_name : Str → Result Error Str
parse_name [] = err invalid_name
parse_name (c ∷ s) = if contains_byte (c ∷ s) 0 then err invalid_name else ok (c ∷ s)

abbrev pub contains_str : List Str → Str → Bool
contains_str [] s = false
contains_str (t ∷ ts) s = str_eq t s || contains_str ts s

-- `raw.retain(|node| !excluded.contains(node.path))`.
unfoldable pub retain_included : List Str → List RawNode → List RawNode
retain_included excluded [] = []
retain_included excluded (n ∷ ns) =
    let rest = retain_included excluded ns in
    if contains_str excluded n.path then rest else n ∷ rest

-- `raw.sort_by_key(|node| node.nar_size)`, which is stable.
unfoldable pub sort_by_size : List RawNode → List RawNode
unfolding sort_by
sort_by_size = sort_by (λ n m. leb n.nar_size m.nar_size)

-- `lookup.get(&name)`, on the map from a name to its index.
abbrev pub lookup_name : List (Str × ℕ) → Str → Option ℕ
lookup_name [] s = none
lookup_name ((t, i) ∷ m) s = if str_eq t s then some i else lookup_name m s

abbrev pub get_index : List (ℕ × ℕ) → ℕ → Option ℕ
get_index [] a = none
get_index ((b, i) ∷ m) a = if b == a then some i else get_index m a

abbrev pub range_from : ℕ → ℕ → List ℕ
range_from i zero = []
range_from i (suc n) = i ∷ range_from (suc i) n

-- The first index from `i` whose node has the name.
unfoldable pub find_from : Str → ℕ → List Node → Option ℕ
find_from name i [] = none
find_from name i (n ∷ ns) = if str_eq n.name name then some i else find_from name (suc i) ns

-- `result.inner[source].name`; an index that `add_node` gave is in range.
abbrev pub name_at : List Node → ℕ → Str
name_at [] i = []
name_at (n ∷ ns) zero = n.name
name_at (n ∷ ns) (suc i) = name_at ns i

-- The inner loop of `Graph::parse` over one node's references.
unfoldable pub select_targets :
    List Str → List (Str × ℕ) → ℕ → Str → List Str → List ℕ → Result Error (List ℕ)
select_targets excluded lookup source path [] selected = ok selected
select_targets excluded lookup source path (t ∷ ts) selected = elim (contains_str excluded t) [
  | true ↦ select_targets excluded lookup source path ts selected
  | false ↦ do
    target ← parse_name t
    elim (lookup_name lookup target) [
      | none ↦ err (missing_reference path target)
      | some index ↦
          select_targets excluded lookup source path ts
            (if index == source then selected else insert index selected)
    ]
]

abbrev pub name_list : List Node → List Str
name_list = map (λ n. n.name)

module _ ⦃P : Petgraph Node⦄ where
  open P use {
    Inner, new, add_node, add_edge, node_weights, edge_references, neighbors_directed,
    externals_incoming, retain_edges,
  }

  abbrev pub Graph : Type 0
  Graph = Inner

  unfoldable pub empty : Graph
  empty = new

  -- What the first loop of `Graph::parse` builds.
  pub record Loading : Type 0 where
    pub graph : Graph
    pub lookup : List (Str × ℕ)
    pub references : List (ℕ × List Str)

  -- The node goes in unless its name was found.
  unfoldable pub insert_node : Option ℕ → Str → RawNode → Loading → Result Error Loading
  insert_node (some _) name n l = err (duplicate name)
  insert_node none name n l =
      let added = add_node l.graph (record { name = name; nar_size = n.nar_size }) in
      ok (record {
        graph = added.0;
        lookup = (name, added.1) ∷ l.lookup;
        references = l.references ++ (added.1, n.references) ∷ [];
      })

  unfoldable pub load_node : RawNode → Loading → Result Error Loading
  load_node n l = do name ← parse_name n.path; insert_node (lookup_name l.lookup name) name n l

  -- The first loop of `Graph::parse`.
  unfoldable pub load_nodes : List RawNode → Loading → Result Error Loading
  load_nodes [] l = ok l
  load_nodes (n ∷ ns) l = load_node n l >>= λ l'. load_nodes ns l'

  unfoldable pub add_edges : Graph → ℕ → List ℕ → Graph
  add_edges g source [] = g
  add_edges g source (t ∷ ts) = add_edges (add_edge g source t) source ts

  -- The second loop of `Graph::parse`.
  unfoldable pub load_edges :
      List Str → List (Str × ℕ) → List (ℕ × List Str) → Graph → Result Error Graph
  load_edges excluded lookup [] g = ok g
  load_edges excluded lookup ((source, targets) ∷ rest) g = do
    selected ← select_targets excluded lookup source (name_at (node_weights g) source) targets []
    load_edges excluded lookup rest (add_edges g source selected)

  unfoldable pub parse : List RawNode → List Str → Result Error Graph
  parse raw excluded = do
    let start : Loading = record { graph = new; lookup = []; references = [] }
    loaded ← load_nodes (sort_by_size (retain_included excluded raw)) start
    load_edges excluded loaded.lookup loaded.references loaded.graph

  abbrev pub names : Graph → List Str
  names g = name_list (node_weights g)

  unfoldable pub find : Graph → Str → Option ℕ
  unfolding find_from
  find g name = find_from name 0 (node_weights g)

  unfoldable pub roots : Graph → List ℕ
  roots g = externals_incoming g

  abbrev pub node_count : Graph → ℕ
  node_count g = length (node_weights g)

  abbrev pub node_indices : Graph → List ℕ
  node_indices g = range_from 0 (node_count g)

  -- The loop of `reachable`: at most `fuel` entries are taken from the queue.
  unfoldable pub reach_loop : ℕ → Graph → Direction → List ℕ → List ℕ → List ℕ
  reach_loop zero g d visited queue = visited
  reach_loop (suc fuel) g d visited [] = visited
  reach_loop (suc fuel) g d visited (i ∷ queue) = elim (has visited i) [
    | true ↦ reach_loop fuel g d visited queue
    | false ↦ reach_loop fuel g d (insert i visited) (queue ++ neighbors_directed g i d)
  ]

  -- Each index extends the queue once at most, so the queue never holds more in all.
  unfoldable pub degree_sum : Graph → Direction → List ℕ → List ℕ → ℕ
  degree_sum g d visited [] = 0
  degree_sum g d visited (i ∷ is) =
      (if has visited i then 0 else length (neighbors_directed g i d)) + degree_sum g d visited is

  unfoldable pub reachable : Graph → List ℕ → Direction → List ℕ
  reachable g seeds d = reach_loop (length seeds + degree_sum g d [] (node_indices g)) g d [] seeds

  -- The nodes from index `i` that pass the test, copied in order, and the map from old to new.
  unfoldable pub copy_nodes :
      (ℕ → Bool) → ℕ → List Node → Graph → List (ℕ × ℕ) → Graph × List (ℕ × ℕ)
  copy_nodes test i [] g m = (g, m)
  copy_nodes test i (n ∷ ns) g m =
      let added = add_node g n in
      elim (test i) [
        | true ↦ copy_nodes test (suc i) ns added.0 ((i, added.1) ∷ m)
        | false ↦ copy_nodes test (suc i) ns g m
      ]

  -- The edges whose two ends are mapped.
  unfoldable pub copy_edges : List (ℕ × ℕ) → List (ℕ × ℕ) → Graph → Graph
  copy_edges [] m g = g
  copy_edges ((s, t) ∷ es) m g = elim (get_index m s) [
    | none ↦ copy_edges es m g
    | some s' ↦ elim (get_index m t) [
      | none ↦ copy_edges es m g
      | some t' ↦ copy_edges es m (add_edge g s' t')
    ]
  ]

  unfoldable pub subset : Graph → List ℕ → Graph
  subset g selected =
      let copied = copy_nodes (has selected) 0 (node_weights g) new [] in
      copy_edges (edge_references g) copied.1 copied.0

  unfoldable pub without : Graph → List ℕ → Graph
  without g removed = subset g (keep (λ i. not (has removed i)) (node_indices g))

  unfoldable pub without_incoming : Graph → List ℕ → Graph
  without_incoming g selected = retain_edges (λ e. not (has selected e.1)) g

  unfoldable pub singleton : Node → Graph
  singleton n = (add_node new n).0

  -- One turn of the loop of `merge`.
  unfoldable pub merge_into : Graph → Graph → Graph
  merge_into result g =
      let copied = copy_nodes (λ _. true) 0 (node_weights g) result [] in
      copy_edges (edge_references g) copied.1 copied.0

  unfoldable pub merge_loop : Graph → List Graph → Graph
  merge_loop result [] = result
  merge_loop result (g ∷ gs) = merge_loop (merge_into result g) gs

  unfoldable pub merge : List Graph → Graph
  merge gs = merge_loop new gs
