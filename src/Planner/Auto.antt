-- ===== src/Planner/Auto.antt =====
-- crates/wrix-image-tools/src/planner/auto/mod.rs: the default layers by size, after the JSON is
-- read. An assignment holds the owners of each index; a `BTreeMap` with sets for keys is an
-- association list in the order of its keys; the sizes' `u128` does not overflow, as the code argues.
pub mod Groups
pub mod Layers
mod Tests
use wrix.Common.{
  ℕ, zero, suc, ◌+◌, Bool, true, false, not, ◌&&◌, ◌||◌, List, [], ◌∷◌, ◌++◌, map, Option, none,
  some, ◌==◌, ltb, leb, if◌then◌else◌, length, Result, ok, err, ◌>>=◌, ok_or,
}
use mathlib.Core.List.{reverse}
use wrix.Common.Text.{Str, str_eq, str_leb, split_once}
use wrix.Common.Sets.{has, insert, keep}
use wrix.Common.Sorts.{sort_by}
use wrix.Planner.Petgraph.{Petgraph, incoming, outgoing}
use wrix.Planner.Graph
use wrix.Planner.Graph.{Node, RawNode, parse, contains_str, name_at, node_indices, reachable}
use wrix.Planner.Plan.{map_err, drop_empty}

pub data Error : Type 0 where
  bad_path : Str → Error
  in_graph : Graph.Error → Error

-- The name before the hash.
abbrev pub Key : Type 0
Key = Str × Str

abbrev pub swap_parts : Option (Str × Str) → Option Key
swap_parts none = none
swap_parts (some (hash, name)) = some (name, hash)

-- `path_key`.
unfoldable pub path_key : Str → Result Error Key
path_key path = ok_or (swap_parts (split_once b'-' path)) (bad_path path)

unfoldable pub path_keys : List Node → Result Error (List Key)
unfolding path_key
path_keys [] = ok []
path_keys (node ∷ nodes) = do key ← path_key node.name; keys ← path_keys nodes; ok (key ∷ keys)

abbrev pub key_leb : Key → Key → Bool
key_leb (name, hash) (name', hash') =
    if str_eq name name' then str_leb hash hash' else str_leb name name'

abbrev pub key_eq : Key → Key → Bool
key_eq (name, hash) (name', hash') = str_eq name name' && str_eq hash hash'

abbrev pub key_at : List Key → ℕ → Key
key_at [] i = ([], [])
key_at (k ∷ ks) zero = k
key_at (k ∷ ks) (suc i) = key_at ks i

abbrev pub size_at : List Node → ℕ → ℕ
size_at [] i = 0
size_at (n ∷ ns) zero = n.nar_size
size_at (n ∷ ns) (suc i) = size_at ns i

-- `assignment[index]`.
abbrev pub owners_at : List (List ℕ) → ℕ → List ℕ
owners_at [] i = []
owners_at (s ∷ ss) zero = s
owners_at (s ∷ ss) (suc i) = owners_at ss i

abbrev pub update_at : ℕ → (List ℕ → List ℕ) → List (List ℕ) → List (List ℕ)
update_at i f [] = []
update_at zero f (s ∷ ss) = f s ∷ ss
update_at (suc i) f (s ∷ ss) = s ∷ update_at i f ss

abbrev pub is_disjoint : List ℕ → List ℕ → Bool
is_disjoint [] ys = true
is_disjoint (x ∷ xs) ys = not (has ys x) && is_disjoint xs ys

-- The body of the loop over the dependencies.
unfoldable pub own_dependency : ℕ → List ℕ → List ℕ → List ℕ → List ℕ
own_dependency primary users dependencies owners =
    let kept = keep (λ index. not (has users index)) owners in
    if is_disjoint kept dependencies then insert primary kept else kept

unfoldable pub own_dependencies : ℕ → List ℕ → List ℕ → List ℕ → List (List ℕ) → List (List ℕ)
unfolding own_dependency
own_dependencies primary users dependencies [] next = next
own_dependencies primary users dependencies (d ∷ ds) next =
    own_dependencies primary users dependencies ds
      (update_at d (own_dependency primary users dependencies) next)

-- `next.iter().collect::<BTreeSet<_>>()`, of which the code reads the length.
abbrev pub collect_sets : List (List ℕ) → List (List ℕ) → List (List ℕ)
collect_sets [] sets = sets
collect_sets (s ∷ ss) sets = collect_sets ss (if contains_str sets s then sets else s ∷ sets)

abbrev pub no_owners : ℕ → List (List ℕ)
no_owners zero = []
no_owners (suc n) = [] ∷ no_owners n

abbrev pub Groups : Type 0
Groups = List (List ℕ × List ℕ)

abbrev pub has_group : Groups → List ℕ → Bool
has_group [] key = false
has_group ((k, is) ∷ gs) key = str_eq k key || has_group gs key

abbrev pub append_to_group : List ℕ → ℕ → Groups → Groups
append_to_group key index [] = []
append_to_group key index ((k, is) ∷ gs) =
    if str_eq k key then (k, is ++ index ∷ []) ∷ gs else (k, is) ∷ append_to_group key index gs

abbrev pub insert_group : List ℕ → ℕ → Groups → Groups
insert_group key index [] = (key, index ∷ []) ∷ []
insert_group key index ((k, is) ∷ gs) =
    if str_leb key k then (key, index ∷ []) ∷ (k, is) ∷ gs else (k, is) ∷ insert_group key index gs

-- `groups.entry(key).or_default().push(index)`.
unfoldable pub push_group : List ℕ → ℕ → Groups → Groups
push_group key index groups =
    if has_group groups key then append_to_group key index groups else insert_group key index groups

-- The loop over the indices.
unfoldable pub group_indices : List (List ℕ) → List ℕ → Groups → Groups
unfolding push_group
group_indices assignment [] groups = groups
group_indices assignment (i ∷ is) groups =
    group_indices assignment is (push_group (owners_at assignment i) i groups)

pub record Layer : Type 0 where
  pub closure_size : ℕ
  pub signature : List Key
  pub paths : List ℕ

abbrev pub signature_leb : List Key → List Key → Bool
signature_leb [] ks = true
signature_leb (j ∷ js) [] = false
signature_leb (j ∷ js) (k ∷ ks) = if key_eq j k then signature_leb js ks else key_leb j k

-- The comparison of `layers.sort_by`.
abbrev pub layer_leb : Layer → Layer → Bool
layer_leb a b =
    ltb a.closure_size b.closure_size
    || (a.closure_size == b.closure_size && signature_leb a.signature b.signature)

abbrev pub sum_sizes : List Node → List ℕ → ℕ
sum_sizes nodes [] = 0
sum_sizes nodes (i ∷ is) = size_at nodes i + sum_sizes nodes is

-- The names of the paths of a layer that are not ignored.
abbrev pub kept_names : List Node → List Str → List ℕ → List Str
kept_names nodes ignored [] = []
kept_names nodes ignored (i ∷ is) =
    let rest = kept_names nodes ignored is in
    if contains_str ignored (name_at nodes i) then rest else name_at nodes i ∷ rest

module _ ⦃P : Petgraph Node⦄ where
  open P use {Inner, node_weights}

  -- What one primary index makes of the assignment.
  unfoldable pub assign_primary : Inner → ℕ → List (List ℕ) → List (List ℕ)
  unfolding own_dependencies
  assign_primary g primary assignment =
      let other = keep (λ index. not (index == primary)) in
      let dependencies = other (reachable g (primary ∷ []) outgoing) in
      let users = other (reachable g (primary ∷ []) incoming) in
      own_dependencies primary users dependencies dependencies
        (update_at primary (λ _. primary ∷ []) assignment)

  -- The loop over the primaries, which ends at the first one that makes too many groups.
  unfoldable pub assign_loop : Inner → ℕ → List ℕ → List (List ℕ) → List (List ℕ)
  unfolding assign_primary
  assign_loop g limit [] assignment = assignment
  assign_loop g limit (primary ∷ primaries) assignment =
      let next = assign_primary g primary assignment in
      let rest = assign_loop g limit primaries next in
      if ltb limit (length (collect_sets next [])) then assignment else rest

  unfoldable pub assign : Inner → ℕ → List (List ℕ)
  unfolding assign_loop
  assign g limit =
      assign_loop g limit (reverse (node_indices g)) (no_owners (length (node_weights g)))

  unfoldable pub layer_of : Inner → List Key → List ℕ → Layer
  unfolding sort_by
  layer_of g keys group =
      let paths = sort_by (λ i j. key_leb (key_at keys i) (key_at keys j)) group in
      record {
        closure_size = sum_sizes (node_weights g) (reachable g paths outgoing);
        signature = map (key_at keys) paths;
        paths = paths;
      }

  unfoldable pub layers : Inner → List Key → ℕ → List Layer
  unfolding assign group_indices layer_of sort_by
  layers g keys limit =
      let groups = group_indices (assign g limit) (node_indices g) [] in
      sort_by layer_leb (map (λ group. layer_of g keys group.1) groups)

  -- `plan_json`.
  unfoldable pub auto_plan : List RawNode → List Str → ℕ → Result Error (List (List Str))
  unfolding layers path_keys
  auto_plan raw ignored limit = do
    g ← map_err in_graph (parse raw [])
    keys ← path_keys (node_weights g)
    ok (
        drop_empty
          (map (λ layer. kept_names (node_weights g) ignored layer.paths) (layers g keys limit)))
