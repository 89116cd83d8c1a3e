-- ===== src/Planner/Score.antt =====
-- crates/wrix-image-tools/src/planner/score/mod.rs: the popularity ranking. `condensation` and
-- `toposort` are functions of the `petgraph` crate and enter as parameters; `BigUint` is ℕ.
use wrix.Common.{
  ℕ, zero, suc, ◌+◌, Bool, true, false, ◌&&◌, ◌||◌, List, [], ◌∷◌, ◌++◌, map, Option, none, some,
  ◌==◌, ltb, if◌then◌else◌, length, Result, ok, ◌>>=◌, ok_or,
}
use mathlib.Core.List.{reverse}
use wrix.Common.Text.{Str, str_leb, split_once}
use wrix.Common.Sorts.{sort_by}
use wrix.Planner.Petgraph.{Petgraph, incoming}
use wrix.Planner.Graph.{Node, lookup_name, range_from, singleton}

pub data Error : Type 0 where
  condensation_cycle missing_component : Error

-- `hash-name` becomes `name-hash`.
unfoldable pub package_name : Str → Str
package_name path = elim (split_once b'-' path) [
  | none ↦ path
  | some (hash, name) ↦ name ++ (b'-' ∷ hash)
]

-- `counts[index]` and `counts[index] += amount`.
abbrev pub count_at : List ℕ → ℕ → ℕ
count_at [] i = 0
count_at (c ∷ cs) zero = c
count_at (c ∷ cs) (suc i) = count_at cs i

abbrev pub add_at : List ℕ → ℕ → ℕ → List ℕ
add_at [] i amount = []
add_at (c ∷ cs) zero amount = (c + amount) ∷ cs
add_at (c ∷ cs) (suc i) amount = c ∷ add_at cs i amount

abbrev pub zeros : ℕ → List ℕ
zeros zero = []
zeros (suc n) = 0 ∷ zeros n

unfoldable pub add_to_all : List ℕ → List ℕ → ℕ → List ℕ
add_to_all counts [] amount = counts
add_to_all counts (p ∷ ps) amount = add_to_all (add_at counts p amount) ps amount

abbrev pub sum_at : List ℕ → List ℕ → ℕ
sum_at counts [] = 0
sum_at counts (i ∷ is) = count_at counts i + sum_at counts is

pub record Ranked : Type 0 where
  pub score : ℕ
  pub label : Str
  pub node : Node

-- The comparison of `ranked.sort_by`: the higher score first, then by package name.
abbrev pub ranks_before : Ranked → Ranked → Bool
ranks_before a b = ltb b.score a.score || (a.score == b.score && str_leb a.label b.label)

module _ ⦃P : Petgraph Node⦄ (Q : Petgraph (List Node)) where
  -- The body of the loop over `order.iter().rev()`.
  unfoldable pub propagate : Q.Inner → ℕ → List ℕ → List ℕ → List ℕ
  propagate g target [] counts = counts
  propagate g target (i ∷ order) counts = elim (count_at counts i == 0) [
    | true ↦ propagate g target order counts
    | false ↦
        let raised = if i == target then counts else add_at counts i 1 in
        propagate g target order
          (add_to_all raised (Q.neighbors_directed g i incoming) (count_at raised i))
  ]

  -- The score of one component: what its counts give the roots.
  unfoldable pub score_of : Q.Inner → List ℕ → List ℕ → ℕ → ℕ
  score_of g order roots target =
      let counts = add_at (zeros (length (Q.node_weights g))) target 1 in
      sum_at (propagate g target (reverse order) counts) roots

  unfoldable pub scores : Q.Inner → List ℕ → List ℕ
  scores g order =
      map (score_of g order (Q.externals_incoming g)) (range_from 0 (length (Q.node_weights g)))

  -- `component`: a name to the index of its component, a later entry replacing an earlier one.
  unfoldable pub index_members : ℕ → List Node → List (Str × ℕ) → List (Str × ℕ)
  index_members i [] m = m
  index_members i (n ∷ ns) m = index_members i ns ((n.name, i) ∷ m)

  unfoldable pub index_components : ℕ → List (List Node) → List (Str × ℕ) → List (Str × ℕ)
  index_components i [] m = m
  index_components i (c ∷ cs) m = index_components (suc i) cs (index_members i c m)

  unfoldable pub rank : List (Str × ℕ) → List ℕ → List Node → Result Error (List Ranked)
  rank component scored [] = ok []
  rank component scored (n ∷ ns) = do
    index ← ok_or (lookup_name component n.name) missing_component
    rest ← rank component scored ns
    let first : Ranked = record {
      score = count_at scored index;
      label = package_name n.name;
      node = n;
    }
    ok (first ∷ rest)

  module _ (condensation : P.Inner → Q.Inner) (toposort : Q.Inner → Option (List ℕ)) where
    unfoldable pub popularity : P.Inner → Result Error (List P.Inner)
    unfolding singleton
    popularity g = do
      let condensed = condensation g
      order ← ok_or (toposort condensed) condensation_cycle
      let component = index_components 0 (Q.node_weights condensed) []
      ranked ← rank component (scores condensed order) (P.node_weights g)
      ok (map (λ r. singleton r.node) (sort_by ranks_before ranked))
