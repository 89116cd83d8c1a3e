-- ===== src/Planner/ListGraph.antt =====
-- A graph as its two lists: a value of the `Petgraph` interface, on which the tests run.
use wrix.Common.{
  ℕ, ◌+◌, ◌<◌, ◌≡◌, refl, Bool, false, not, ◌&&◌, List, [], ◌∷◌, ◌++◌, arith, ◌==◌, ltb,
  if◌then◌else◌, length,
}
use wrix.Common.Sets.{has}
use wrix.Planner.Petgraph.{Petgraph, Direction, incoming, outgoing, has_edge, has_target}
use wrix.Planner.Graph.{range_from}
use wrix.Planner.Graph.Weights.{has-range_from}

pub record Lists (N : Type 0) : Type 0 where
  pub weights : List N
  pub edges : List (ℕ × ℕ)

abbrev targets_of : List (ℕ × ℕ) → ℕ → List ℕ
targets_of [] a = []
targets_of ((s, t) ∷ es) a = let rest = targets_of es a in if s == a then t ∷ rest else rest

abbrev sources_of : List (ℕ × ℕ) → ℕ → List ℕ
sources_of [] b = []
sources_of ((s, t) ∷ es) b = let rest = sources_of es b in if t == b then s ∷ rest else rest

abbrev retain : (ℕ × ℕ → Bool) → List (ℕ × ℕ) → List (ℕ × ℕ)
retain f [] = []
retain f ((s, t) ∷ es) = let rest = retain f es in if f (s, t) then (s, t) ∷ rest else rest

abbrev ends : Direction → List (ℕ × ℕ) → ℕ → List ℕ
ends outgoing = targets_of
ends incoming = sources_of

abbrev rootless : ℕ → List ℕ → List (ℕ × ℕ) → List ℕ
rootless i [] es = []
rootless i (j ∷ js) es = let rest = rootless i js es in if has_target es j then rest else j ∷ rest

has-targets_of : (es : List (ℕ × ℕ)) (a b : ℕ) → has (targets_of es a) b ≡ has_edge es a b
has-targets_of [] a b = refl
has-targets_of ((s, t) ∷ es) a b = ground (arith, has-targets_of es a b)

has-sources_of : (es : List (ℕ × ℕ)) (a b : ℕ) → has (sources_of es b) a ≡ has_edge es a b
has-sources_of [] a b = refl
has-sources_of ((s, t) ∷ es) a b = ground (arith, has-sources_of es a b)

pub has_edge-retain :
    (f : ℕ × ℕ → Bool) (es : List (ℕ × ℕ)) (a b : ℕ)
    → has_edge (retain f es) a b ≡ (has_edge es a b && f (a, b))
has_edge-retain f [] a b = refl
has_edge-retain f ((s, t) ∷ es) a b = ground (arith, has_edge-retain f es a b)

has-rootless :
    (i : ℕ) (js : List ℕ) (es : List (ℕ × ℕ)) (b : ℕ)
    → has (rootless i js es) b ≡ (has js b && not (has_target es b))
has-rootless i [] es b = refl
has-rootless i (j ∷ js) es b = ground (arith, has-rootless i js es b)

pub not-ltb-add : (n d : ℕ) → ltb (n + d) n ≡ false
not-ltb-add n d = ground arith

abbrev neighbors : {N : Type 0} → Lists N → ℕ → Direction → List ℕ
neighbors g a k = if ltb a (length g.weights) then ends k g.edges a else []

pub neighbors-outgoing :
    {N : Type 0} (g : Lists N) (a b : ℕ)
    → a < length g.weights
    → has (neighbors g a outgoing) b ≡ has_edge g.edges a b
neighbors-outgoing g a b h = ground (arith, has-targets_of g.edges a b)

pub neighbors-incoming :
    {N : Type 0} (g : Lists N) (a b : ℕ)
    → a < length g.weights
    → has (neighbors g a incoming) b ≡ has_edge g.edges b a
neighbors-incoming g a b h = ground (arith, has-sources_of g.edges b a)

pub neighbors_beyond :
    {N : Type 0} (g : Lists N) (d : ℕ) (k : Direction) → neighbors g (length g.weights + d) k ≡ []
neighbors_beyond g d k = rw (not-ltb-add (length g.weights) d)

pub externals-incoming :
    {N : Type 0} (g : Lists N) (i : ℕ)
    → has (rootless 0 (range_from 0 (length g.weights)) g.edges) i
      ≡ (ltb i (length g.weights) && not (has_target g.edges i))
externals-incoming g i = ground (
  arith,
  has-rootless 0 (range_from 0 (length g.weights)) g.edges i,
  has-range_from 0 (length g.weights) i,
)

instance abbrev pub list_graph : {N : Type 0} → Petgraph N
list_graph {N} = record {
  Inner = Lists N;
  new = record { weights = []; edges = [] };
  add_node = λ g n. (record g { weights = g.weights ++ n ∷ [] }, length g.weights);
  add_edge = λ g a b. record g { edges = (a, b) ∷ g.edges };
  node_weights = λ g. g.weights;
  edge_references = λ g. g.edges;
  neighbors_directed = neighbors;
  externals_incoming = λ g. rootless 0 (range_from 0 (length g.weights)) g.edges;
  retain_edges = λ f g. record g { edges = retain f g.edges };
  weights_new = refl;
  weights_add_node = λ g n. refl;
  index_add_node = λ g n. refl;
  weights_add_edge = λ g a b. refl;
  weights_retain_edges = λ f g. refl;
  edges_new = refl;
  edges_add_node = λ g n. refl;
  edges_add_edge = λ g a b c d. refl;
  edges_retain_edges = λ f g. has_edge-retain f g.edges;
  neighbors_outgoing = neighbors-outgoing;
  neighbors_incoming = neighbors-incoming;
  neighbors_out_of_range = neighbors_beyond;
  externals_lem = externals-incoming;
}
