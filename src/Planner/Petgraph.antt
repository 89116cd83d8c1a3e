-- ===== src/Planner/Petgraph.antt =====
-- The interface of the `petgraph` crate that crates/wrix-image-tools/src/planner uses: a directed
-- graph with node weights, whose indices are the numbers below the node count. The operations and
-- laws are those of its documentation; `ListGraph` meets them.
use wrix.Common.{
  ℕ, ◌+◌, ◌<◌, ◌≡◌, Bool, false, not, ◌&&◌, ◌||◌, List, [], ◌∷◌, ◌++◌, ◌==◌, ltb, length,
}
use wrix.Common.Sets.{has}

pub data Direction : Type 0 where
  incoming outgoing : Direction

-- Whether an edge from `a` to `b` is in the list.
abbrev pub has_edge : List (ℕ × ℕ) → ℕ → ℕ → Bool
has_edge [] a b = false
has_edge ((s, t) ∷ es) a b = (s == a && t == b) || has_edge es a b

-- Whether some edge of the list ends in `b`.
abbrev pub has_target : List (ℕ × ℕ) → ℕ → Bool
has_target [] b = false
has_target ((s, t) ∷ es) b = t == b || has_target es b

pub record Petgraph (N : Type 0) : Type 1 where
  pub Inner : Type 0
  pub new : Inner
  pub add_node : Inner → N → Inner × ℕ
  pub add_edge : Inner → ℕ → ℕ → Inner
  pub node_weights : Inner → List N
  pub edge_references : Inner → List (ℕ × ℕ)
  pub neighbors_directed : Inner → ℕ → Direction → List ℕ
  pub externals_incoming : Inner → List ℕ
  pub retain_edges : (ℕ × ℕ → Bool) → Inner → Inner
  pub weights_new : node_weights new ≡ []
  pub weights_add_node :
      (g : Inner) (n : N) → node_weights (add_node g n).0 ≡ node_weights g ++ n ∷ []
  pub index_add_node : (g : Inner) (n : N) → (add_node g n).1 ≡ length (node_weights g)
  pub weights_add_edge : (g : Inner) (a b : ℕ) → node_weights (add_edge g a b) ≡ node_weights g
  pub weights_retain_edges :
      (f : ℕ × ℕ → Bool) (g : Inner) → node_weights (retain_edges f g) ≡ node_weights g
  pub edges_new : edge_references new ≡ []
  pub edges_add_node : (g : Inner) (n : N) → edge_references (add_node g n).0 ≡ edge_references g
  pub edges_add_edge :
      (g : Inner) (a b c d : ℕ)
      → has_edge (edge_references (add_edge g a b)) c d
        ≡ ((a == c && b == d) || has_edge (edge_references g) c d)
  pub edges_retain_edges :
      (f : ℕ × ℕ → Bool) (g : Inner) (a b : ℕ)
      → has_edge (edge_references (retain_edges f g)) a b
        ≡ (has_edge (edge_references g) a b && f (a, b))
  pub neighbors_outgoing :
      (g : Inner) (a b : ℕ)
      → a < length (node_weights g)
      → has (neighbors_directed g a outgoing) b ≡ has_edge (edge_references g) a b
  pub neighbors_incoming :
      (g : Inner) (a b : ℕ)
      → a < length (node_weights g)
      → has (neighbors_directed g a incoming) b ≡ has_edge (edge_references g) b a
  pub neighbors_out_of_range :
      (g : Inner) (d : ℕ) (k : Direction)
      → neighbors_directed g (length (node_weights g) + d) k ≡ []
  pub externals_lem :
      (g : Inner) (i : ℕ)
      → has (externals_incoming g) i
        ≡ (ltb i (length (node_weights g)) && not (has_target (edge_references g) i))
