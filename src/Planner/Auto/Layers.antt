-- ===== src/Planner/Auto/Layers.antt =====
-- The layers of `plan_json` of crates/wrix-image-tools/src/planner/auto/mod.rs.
use mathlib.Core.List.{Perm, Nodup, Sublist, filter_map, append_assoc, append-nil, perm_append_comm}
use mathlib.Core.List.Perm
use mathlib.Core.List.Nodup
use mathlib.Core.List.Sublist
use wrix.Common.{
  ℕ, zero, suc, ◌≤◌, ◌<◌, ◌≡◌, refl, sym, ap, subst, ◌∙◌, inl, inr, Bool, List, [], ◌∷◌, ◌++◌, map,
  Option, none, some, arith, if◌then◌else◌, length, Bool-cases, ok, bind-ok, ok-injective,
}
use wrix.Common.Lists.{length-map}
use wrix.Common.Text.{Str}
use wrix.Common.Sorts.{insert_by, sort_by, sort_by-perm}
use wrix.Planner.Petgraph.{Petgraph}
use wrix.Planner.Graph.{
  Node, RawNode, contains_str, range_from, name_at, name_list, names, node_indices, parse,
  retain_included, sort_by_size,
}
use wrix.Planner.Graph.Parse.{parse-names}
use wrix.Planner.Graph.Weights.{gather}
use wrix.Planner.Plan.{
  map_err, map_err-eq-ok, drop_empty, all_paths, all_paths-drop_empty, NonEmpty,
  drop_empty-NonEmpty, included,
}
use wrix.Planner.Auto.{
  Key, Error, in_graph, path_keys, key_leb, key_at, Groups, Layer, layer_leb, kept_names,
  group_indices, assign, layer_of, layers, auto_plan,
}
use wrix.Planner.Auto.Groups.{group_paths, group_indices-perm, length-assigned}

module _ {A : Type 0} (f : A → List ℕ) (le : A → A → Bool) where
  gather-insert_by :
      (a : A) (xs : List A) → Perm (f a ++ gather f xs) (gather f (insert_by le a xs))
  unfolding insert_by
  gather-insert_by a [] = Perm.refl (f a ++ [])
  gather-insert_by a (x ∷ xs) = elim (Bool-cases (le a x)) [
    | inl e ↦ rw e (Perm.refl (f a ++ (f x ++ gather f xs)))
    | inr e ↦
        let rest = gather f xs in
        let front : Perm ((f a ++ f x) ++ rest) ((f x ++ f a) ++ rest) =
          Perm.append_right rest (perm_append_comm (f a) (f x)) in
        let moved : Perm (f a ++ (f x ++ rest)) (f x ++ (f a ++ rest)) =
          rw (← append_assoc (f a) (f x) rest, ← append_assoc (f x) (f a) rest) front in
        rw e (Perm.trans moved (Perm.append_left (f x) (gather-insert_by a xs)))
  ]

  gather-sort_by : (xs : List A) → Perm (gather f xs) (gather f (sort_by le xs))
  unfolding sort_by
  gather-sort_by [] = Perm.refl []
  gather-sort_by (x ∷ xs) =
      Perm.trans (Perm.append_left (f x) (gather-sort_by xs)) (gather-insert_by x (sort_by le xs))

length-insert_by {ℓ} :
    {A : Type ℓ} (le : A → A → Bool) (a : A) (xs : List A)
    → length (insert_by le a xs) ≡ suc (length xs)
unfolding insert_by
length-insert_by le a [] = refl
length-insert_by le a (x ∷ xs) = elim (Bool-cases (le a x)) [
  | inl e ↦ rw e
  | inr e ↦ rw (e, length-insert_by le a xs)
]

length-sort_by {ℓ} :
    {A : Type ℓ} (le : A → A → Bool) (xs : List A) → length (sort_by le xs) ≡ length xs
unfolding sort_by
length-sort_by le [] = refl
length-sort_by le (x ∷ xs) = length-insert_by le x (sort_by le xs) ∙ ap suc (length-sort_by le xs)

length-drop_empty : (ls : List (List Str)) → length (drop_empty ls) ≤ length ls
unfolding drop_empty
length-drop_empty [] = omega arith
length-drop_empty ([] ∷ ls) = let h = length-drop_empty ls in omega arith
length-drop_empty ((p ∷ l) ∷ ls) = let h = length-drop_empty ls in omega arith

-- The paths that are not ignored.
abbrev keep_paths : List Str → List Str → List Str
keep_paths ignored [] = []
keep_paths ignored (p ∷ ps) =
    let rest = keep_paths ignored ps in if contains_str ignored p then rest else p ∷ rest

abbrev kept_name : List Str → Str → Option Str
kept_name ignored p = if contains_str ignored p then none else some p

keep_paths-filter_map :
    (ignored ps : List Str) → filter_map (kept_name ignored) ps ≡ keep_paths ignored ps
unfolding filter_map
keep_paths-filter_map ignored [] = refl
keep_paths-filter_map ignored (p ∷ ps) = elim (Bool-cases (contains_str ignored p)) [
  | inl e ↦ rw (e, keep_paths-filter_map ignored ps)
  | inr e ↦ rw (e, keep_paths-filter_map ignored ps)
]

keep_paths-perm :
    (ignored : List Str) {ps qs : List Str}
    → Perm ps qs
    → Perm (keep_paths ignored ps) (keep_paths ignored qs)
keep_paths-perm ignored {ps} {qs} h =
    rw (← keep_paths-filter_map ignored ps, ← keep_paths-filter_map ignored qs)
      (Perm.filter_map (kept_name ignored) h)

keep_paths-Sublist : (ignored ps : List Str) → Sublist (keep_paths ignored ps) ps
keep_paths-Sublist ignored [] = Sublist.refl []
keep_paths-Sublist ignored (p ∷ ps) = elim (Bool-cases (contains_str ignored p)) [
  | inl e ↦ rw e (Sublist.cons p (keep_paths-Sublist ignored ps))
  | inr e ↦ rw e (Sublist.cons-cons p (keep_paths-Sublist ignored ps))
]

keep_paths-included :
    (ignored : List Str) (raw : List RawNode)
    → keep_paths ignored (map (λ n. n.path) raw) ≡ included raw ignored
unfolding retain_included
keep_paths-included ignored [] = refl
keep_paths-included ignored (n ∷ ns) = elim (Bool-cases (contains_str ignored n.path)) [
  | inl e ↦ rw (e, keep_paths-included ignored ns)
  | inr e ↦ rw (e, keep_paths-included ignored ns)
]

retain_included-none : (raw : List RawNode) → retain_included [] raw ≡ raw
unfolding retain_included
retain_included-none [] = refl
retain_included-none (n ∷ ns) = ap (λ r. n ∷ r) (retain_included-none ns)

kept_names-map :
    (nodes : List Node) (ignored : List Str) (is : List ℕ)
    → kept_names nodes ignored is ≡ keep_paths ignored (map (name_at nodes) is)
kept_names-map nodes ignored [] = refl
kept_names-map nodes ignored (i ∷ is) = elim (Bool-cases (contains_str ignored (name_at nodes i))) [
  | inl e ↦ rw (e, kept_names-map nodes ignored is)
  | inr e ↦ rw (e, kept_names-map nodes ignored is)
]

kept_names-append :
    (nodes : List Node) (ignored : List Str) (is js : List ℕ)
    → kept_names nodes ignored (is ++ js)
      ≡ kept_names nodes ignored is ++ kept_names nodes ignored js
kept_names-append nodes ignored [] js = refl
kept_names-append nodes ignored (i ∷ is) js =
    elim (Bool-cases (contains_str ignored (name_at nodes i))) [
      | inl e ↦ rw (e, kept_names-append nodes ignored is js)
      | inr e ↦ rw (e, kept_names-append nodes ignored is js)
    ]

names-shift :
    (n : Node) (nodes : List Node) (i m : ℕ)
    → map (name_at (n ∷ nodes)) (range_from (suc i) m) ≡ map (name_at nodes) (range_from i m)
names-shift n nodes i zero = refl
names-shift n nodes i (suc m) = ap (λ r. name_at nodes i ∷ r) (names-shift n nodes (suc i) m)

names-all :
    (nodes : List Node) → map (name_at nodes) (range_from 0 (length nodes)) ≡ name_list nodes
names-all [] = refl
names-all (n ∷ nodes) =
    ap (λ r. n.name ∷ r) (names-shift n nodes 0 (length nodes) ∙ names-all nodes)

abbrev layer_paths : List Layer → List ℕ
layer_paths = gather (λ layer. layer.paths)

all_paths-layers :
    (nodes : List Node) (ignored : List Str) (ls : List Layer)
    → all_paths (map (λ layer. kept_names nodes ignored layer.paths) ls)
      ≡ kept_names nodes ignored (layer_paths ls)
all_paths-layers nodes ignored [] = refl
all_paths-layers nodes ignored (l ∷ ls) =
    ap (λ r. kept_names nodes ignored l.paths ++ r) (all_paths-layers nodes ignored ls)
    ∙ sym (kept_names-append nodes ignored l.paths (layer_paths ls))

module _ ⦃P : Petgraph Node⦄ where
  open P use {Inner, node_weights}

  layers_of_groups-perm :
      (g : Inner) (keys : List Key) (gs : Groups)
      → Perm (group_paths gs) (layer_paths (map (λ group. layer_of g keys group.1) gs))
  unfolding layer_of
  layers_of_groups-perm g keys [] = Perm.refl []
  layers_of_groups-perm g keys ((k, is) ∷ gs) =
      Perm.append (sort_by-perm (λ i j. key_leb (key_at keys i) (key_at keys j)) is)
        (layers_of_groups-perm g keys gs)

  layers-perm :
      (g : Inner) (keys : List Key) (limit : ℕ)
      → Perm (node_indices g) (layer_paths (layers g keys limit))
  unfolding layers
  layers-perm g keys limit =
      let gs = group_indices (assign g limit) (node_indices g) [] in
      let grouped : Perm (node_indices g) (group_paths gs) =
        subst (λ is. Perm is (group_paths gs)) (append-nil (node_indices g))
          (group_indices-perm (assign g limit) (node_indices g) []) in
      Perm.trans grouped (
        Perm.trans (layers_of_groups-perm g keys gs) (
          gather-sort_by (λ layer. layer.paths) layer_leb
            (map (λ group. layer_of g keys group.1) gs)))

  length-layers :
      (g : Inner) (keys : List Key) (limit : ℕ) → 0 < limit → length (layers g keys limit) ≤ limit
  unfolding layers
  length-layers g keys limit h =
      let gs = group_indices (assign g limit) (node_indices g) [] in
      let made = map (λ group. layer_of g keys group.1) gs in
      let same : length (sort_by layer_leb made) ≡ length gs =
        length-sort_by layer_leb made ∙ length-map (λ group. layer_of g keys group.1) gs in
      subst (λ m. m ≤ limit) (sym same) (length-assigned g limit h)

  -- What a plan that succeeds was made of.
  planned :
      (raw : List RawNode) (ignored : List Str) (limit : ℕ) (ls : List (List Str))
      → auto_plan raw ignored limit ≡ ok ls
      → (g : Inner) × (keys : List Key) × (parse raw [] ≡ ok g)
        × (drop_empty
              (map (λ layer. kept_names (node_weights g) ignored layer.paths) (layers g keys limit))
            ≡ ls)
  unfolding auto_plan
  planned raw ignored limit ls h =
      let (g, e, k) = bind-ok (map_err in_graph (parse raw [])) _ h in
      let (keys, e', k') = bind-ok (path_keys (node_weights g)) _ k in
      (g, keys, map_err-eq-ok in_graph _ e, ok-injective {E = Error} k')

  -- A default plan places every path that is not ignored in exactly one layer: the layers together
  -- are a rearrangement of those paths, which are distinct, and no layer is empty.
  pub auto_plan-perm :
      (raw : List RawNode) (ignored : List Str) (limit : ℕ) (ls : List (List Str))
      → auto_plan raw ignored limit ≡ ok ls
      → Perm (included raw ignored) (all_paths ls) × Nodup (all_paths ls) × NonEmpty ls
  unfolding sort_by_size
  auto_plan-perm raw ignored limit ls h =
      let (g, keys, parsed, same) = planned raw ignored limit ls h in
      let nodes = node_weights g in
      let made = map (λ layer. kept_names nodes ignored layer.paths) (layers g keys limit) in
      let (listed, distinct) = parse-names raw [] g parsed in
      let names_perm : Perm (map (λ n. n.path) raw) (names g) = rw listed (
        Perm.map (λ n. n.path)
          (subst (λ r. Perm raw (sort_by_size r)) (sym (retain_included-none raw))
            (sort_by-perm _ raw))) in
      let paths : all_paths ls
          ≡ keep_paths ignored (map (name_at nodes) (layer_paths (layers g keys limit))) =
        ap all_paths (sym same)
        ∙ (all_paths-drop_empty made
            ∙ (all_paths-layers nodes ignored (layers g keys limit)
                ∙ kept_names-map nodes ignored _)) in
      let placed : Perm (keep_paths ignored (names g)) (all_paths ls) =
        rw (paths, ← names-all nodes)
          (keep_paths-perm ignored (Perm.map (name_at nodes) (layers-perm g keys limit))) in
      let kept : Perm (included raw ignored) (keep_paths ignored (names g)) =
        rw (← keep_paths-included ignored raw) (keep_paths-perm ignored names_perm) in
      (
        Perm.trans kept placed,
        Perm.nodup placed (Nodup.sublist (keep_paths-Sublist ignored (names g)) distinct),
        subst NonEmpty same (drop_empty-NonEmpty made),
      )

  -- A default plan has at most as many layers as the limit, which is not 0.
  pub length-auto_plan :
      (raw : List RawNode) (ignored : List Str) (limit : ℕ) (ls : List (List Str))
      → 0 < limit
      → auto_plan raw ignored limit ≡ ok ls
      → length ls ≤ limit
  length-auto_plan raw ignored limit ls positive h =
      let (g, keys, parsed, same) = planned raw ignored limit ls h in
      let made =
        map (λ layer. kept_names (node_weights g) ignored layer.paths) (layers g keys limit) in
      let a = length-drop_empty made in
      let b : length made ≡ length (layers g keys limit) = length-map _ (layers g keys limit) in
      let c = length-layers g keys limit positive in
      subst (λ r. length r ≤ limit) same (omega arith)
