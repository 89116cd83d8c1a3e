-- ===== src/Planner/Graph/Parse.antt =====
-- `Graph::parse` of crates/wrix-image-tools/src/planner/graph/mod.rs: which nodes it gives.
use mathlib.Core.List.{
  Mem, Nodup, Nodup-cons, Nodup-nil, map-append, mem-append, mem-singleton, append-nil,
  append_assoc, perm_append_singleton, not-mem-nil,
}
use mathlib.Core.List.Perm
use mathlib.Core.HLevel.{⊥_prop}
use mathlib.Core.Logic.Or
use wrix.Common.{
  ℕ, ◌≡◌, refl, sym, ap, subst, ◌∙◌, List, [], ◌∷◌, ◌++◌, map, Option, none, some, arith, ok,
  bind-ok, ok-injective,
}
use wrix.Common.Text.{Str, str_eq_iff, Str-set}
use wrix.Planner.Petgraph.{Petgraph}
use wrix.Planner.Graph.{
  Error, RawNode, Node, Loading, parse_name, insert_node, load_node, load_nodes, add_edges,
  load_edges, select_targets, parse, lookup_name, names, name_list, sort_by_size, retain_included,
}

pub parse_name-eq : (s t : Str) → parse_name s ≡ ok t → s ≡ t
unfolding parse_name
parse_name-eq [] t h = cc
parse_name-eq (c ∷ s) t h = ground arith

module _ ⦃P : Petgraph Node⦄ where
  open P use {
    Inner, new, add_node, add_edge, node_weights, weights_new, weights_add_node, weights_add_edge,
  }

  -- Between two nodes of the first loop: names are distinct, and each is in the map.
  record Loaded (l : Loading) : Type 0 where
    distinct : Nodup (names l.graph)
    mapped : (s : Str) → lookup_name l.lookup s ≡ none → ¬ Mem s (names l.graph)

  insert_node-Loaded :
      (o : Option ℕ) (s : Str) (n : RawNode) (l l' : Loading)
      → lookup_name l.lookup s ≡ o
      → Loaded l
      → insert_node o s n l ≡ ok l'
      → (names l'.graph ≡ names l.graph ++ s ∷ []) × Loaded l'
  unfolding insert_node
  insert_node-Loaded (some i) s n l l' e v h = cc
  insert_node-Loaded none s n l l' e v h =
      subst (λ (w : Loading). (names w.graph ≡ names l.graph ++ s ∷ []) × Loaded w) (ok-injective h)
        (
          appended,
          record {
            distinct = rw appended (
                Perm.nodup (Perm.symm (perm_append_singleton s (names l.graph)))
                  (Nodup-cons.1 (v.mapped s e, v.distinct)));
            mapped = λ t k m.
                Or.elim ⊥_prop (mem-append.0 (rw appended at m))
                  (λ old. v.mapped t (ground arith) old)
                  (λ last.
                    let same : t ≡ s = (mem-singleton Str-set).0 last in
                    let hit = (str_eq_iff s t).1 (sym same) in ground (arith, hit));
          },
        )
    where
      appended :
          names (add_node l.graph (record { name = s; nar_size = n.nar_size })).0
          ≡ names l.graph ++ s ∷ []
      appended =
          ap name_list (weights_add_node l.graph (record { name = s; nar_size = n.nar_size }))
          ∙ map-append (λ n. n.name) (node_weights l.graph) _

  load_nodes-Loaded :
      (ns : List RawNode) (l l' : Loading)
      → Loaded l
      → load_nodes ns l ≡ ok l'
      → (names l'.graph ≡ names l.graph ++ map (λ n. n.path) ns) × Loaded l'
  unfolding load_nodes load_node
  load_nodes-Loaded [] l l' v h =
      subst (λ (w : Loading). (names w.graph ≡ names l.graph ++ []) × Loaded w) (ok-injective h)
        (sym (append-nil (names l.graph)), v)
  load_nodes-Loaded (n ∷ ns) l l' v h =
      let (mid, e, f) = bind-ok (load_node n l) _ h in
      let (name, k, i) = bind-ok (parse_name n.path) _ e in
      let (grown, v') = insert_node-Loaded (lookup_name l.lookup name) name n l mid refl v i in
      let (rest, v'') = load_nodes-Loaded ns mid l' v' f in
      (
        rest
            ∙ rw (grown, ← parse_name-eq n.path name k)
                (append_assoc (names l.graph) (n.path ∷ []) (map (λ n. n.path) ns)),
        v'',
      )

  weights-add_edges :
      (g : Inner) (source : ℕ) (ts : List ℕ) → node_weights (add_edges g source ts) ≡ node_weights g
  unfolding add_edges
  weights-add_edges g source [] = refl
  weights-add_edges g source (t ∷ ts) =
      weights-add_edges (add_edge g source t) source ts ∙ weights_add_edge g source t

  weights-load_edges :
      (excluded : List Str) (m : List (Str × ℕ)) (refs : List (ℕ × List Str)) (g g' : Inner)
      → load_edges excluded m refs g ≡ ok g'
      → node_weights g' ≡ node_weights g
  unfolding load_edges
  weights-load_edges excluded m [] g g' h = ap node_weights (sym (ok-injective {E = Error} h))
  weights-load_edges excluded m ((source, ts) ∷ refs) g g' h =
      let (selected, e, f) = bind-ok (select_targets excluded m source _ ts []) _ h in
      weights-load_edges excluded m refs (add_edges g source selected) g' f
      ∙ weights-add_edges g source selected

  -- A graph that parses holds the included paths in the order of their sizes, each once.
  pub parse-names :
      (raw : List RawNode) (excluded : List Str) (g : Inner)
      → parse raw excluded ≡ ok g
      → (names g ≡ map (λ n. n.path) (sort_by_size (retain_included excluded raw)))
        × Nodup (names g)
  unfolding parse
  parse-names raw excluded g h =
      let start : Loading = record { graph = new; lookup = []; references = [] } in
      let none_yet : names new ≡ [] = ap name_list weights_new in
      let first : Loaded start = record {
        distinct = rw none_yet Nodup-nil;
        mapped = λ s e m. not-mem-nil (rw none_yet at m);
      } in
      let sorted = sort_by_size (retain_included excluded raw) in
      let (l, e, f) = bind-ok (load_nodes sorted start) _ h in
      let (grown, v) = load_nodes-Loaded sorted start l first e in
      let same = ap name_list (weights-load_edges excluded l.lookup l.references l.graph g f) in
      (same ∙ grown ∙ rw none_yet, rw same v.distinct)
