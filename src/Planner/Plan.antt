-- ===== src/Planner/Plan.antt =====
-- `plan_json` of crates/wrix-image-tools/src/planner/mod.rs, after the JSON is read: the graph, the
-- pipeline and the layers that come out.
use mathlib.Core.List.{Perm, Nodup}
use mathlib.Core.List.Perm
use mathlib.Core.List.Nodup
use wrix.Common.{
  ℕ, ◌≡◌, refl, ap, subst, ◌∙◌, Bool, true, false, List, [], ◌∷◌, ◌++◌, map, Option, is_empty,
  if◌then◌else◌, Result, ok, err, ◌>>=◌, bind-ok, ok-injective,
}
use wrix.Common.Text.{Str}
use wrix.Common.Sorts.{sort_by-perm}
use wrix.Planner.Petgraph.{Petgraph}
use wrix.Planner.Graph.{Node, RawNode, parse, names, sort_by_size, retain_included}
use wrix.Planner.Graph.Parse.{parse-names}
use wrix.Planner.Graph.Weights.{gather}
use wrix.Planner.Graph
use wrix.Planner.Pipeline
use wrix.Planner.Pipeline.{Tree, graph, list, groups, Steps, flatten, apply_all}
use wrix.Planner.Pipeline.Keeps.{Keeps, Keeps-perm, Keeps-dropped}
use wrix.Planner.Pipeline.Names.{graph_names, tree_names, names-graph}
use wrix.Planner.Pipeline.Conserve.{removes_any, apply_all-Keeps}

pub data Error : Type 0 where
  in_graph : Graph.Error → Error
  in_pipeline : Pipeline.Error → Error

abbrev pub map_err {ℓ κ μ} :
    {E : Type ℓ} {F : Type κ} {A : Type μ} → (E → F) → Result E A → Result F A
map_err f (ok a) = ok a
map_err f (err e) = err (f e)

-- `filter(|paths| !paths.is_empty())`.
unfoldable pub drop_empty : List (List Str) → List (List Str)
drop_empty [] = []
drop_empty (l ∷ ls) = let rest = drop_empty ls in if is_empty l then rest else l ∷ rest

module _ ⦃P : Petgraph Node⦄ where
  open P use {Inner}

  -- A pipeline that leaves one graph has not made layers.
  unfoldable pub layers_of : Tree Inner → Result Error (List (List Str))
  unfolding drop_empty flatten
  layers_of (graph g) = err (in_pipeline Pipeline.shape)
  layers_of (list ts) = ok (drop_empty (map (λ g. names g) (flatten (list ts))))
  layers_of (groups gs) = ok (drop_empty (map (λ g. names g) (flatten (groups gs))))

  module _ (Q : Petgraph (List Node)) (condensation : P.Inner → Q.Inner)
      (toposort : Q.Inner → Option (List ℕ)) where
    unfoldable pub plan : List RawNode → Steps → List Str → Result Error (List (List Str))
    plan raw steps excluded = do
      g ← map_err in_graph (parse raw excluded)
      tree ← map_err in_pipeline (apply_all Q condensation toposort steps (graph g))
      layers_of tree

pub map_err-eq-ok {ℓ κ μ} :
    {E : Type ℓ} {F : Type κ} {A : Type μ} (f : E → F) (r : Result E A) {a : A}
    → map_err f r ≡ ok a
    → r ≡ ok a
map_err-eq-ok f (ok a) h = cc
map_err-eq-ok f (err e) h = cc

-- The paths of all layers.
abbrev pub all_paths : List (List Str) → List Str
all_paths = gather (λ l. l)

abbrev pub NonEmpty : List (List Str) → Type 0
NonEmpty [] = Unit {0}
NonEmpty (l ∷ ls) = (is_empty l ≡ false) × NonEmpty ls

pub all_paths-drop_empty : (ls : List (List Str)) → all_paths (drop_empty ls) ≡ all_paths ls
unfolding drop_empty
all_paths-drop_empty [] = refl
all_paths-drop_empty ([] ∷ ls) = all_paths-drop_empty ls
all_paths-drop_empty ((p ∷ l) ∷ ls) = ap (λ (r : List Str). (p ∷ l) ++ r) (all_paths-drop_empty ls)

pub drop_empty-NonEmpty : (ls : List (List Str)) → NonEmpty (drop_empty ls)
unfolding drop_empty
drop_empty-NonEmpty [] = tt
drop_empty-NonEmpty ([] ∷ ls) = drop_empty-NonEmpty ls
drop_empty-NonEmpty ((p ∷ l) ∷ ls) = (refl, drop_empty-NonEmpty ls)

-- The paths that the input does not exclude.
abbrev pub included : List RawNode → List Str → List Str
included raw excluded = map (λ n. n.path) (retain_included excluded raw)

module _ ⦃P : Petgraph Node⦄ where
  open P use {Inner}

  all_paths-names :
      (gs : List Inner) → all_paths (drop_empty (map (λ g. names g) gs)) ≡ graph_names gs
  all_paths-names gs = all_paths-drop_empty (map (λ g. names g) gs) ∙ go gs
    where
      go : (hs : List Inner) → all_paths (map (λ g. names g) hs) ≡ graph_names hs
      go [] = refl
      go (h ∷ hs) = ap (λ (r : List Str). names h ++ r) (go hs)

  layers_of-names :
      (t : Tree Inner) (ls : List (List Str))
      → layers_of t ≡ ok ls
      → (all_paths ls ≡ tree_names t) × NonEmpty ls
  unfolding layers_of
  layers_of-names (graph g) ls h = cc
  layers_of-names (list ts) ls h =
      subst (λ (w : List (List Str)). (all_paths w ≡ tree_names (list ts)) × NonEmpty w)
        (ok-injective h)
        (
          all_paths-names (flatten (list ts)),
          drop_empty-NonEmpty (map (λ g. names g) (flatten (list ts))),
        )
  layers_of-names (groups gs) ls h =
      subst (λ (w : List (List Str)). (all_paths w ≡ tree_names (groups gs)) × NonEmpty w)
        (ok-injective h)
        (
          all_paths-names (flatten (groups gs)),
          drop_empty-NonEmpty (map (λ g. names g) (flatten (groups gs))),
        )

  module _ (Q : Petgraph (List Node)) (condensation : P.Inner → Q.Inner)
      (toposort : Q.Inner → Option (List ℕ)) where
    plan-Keeps :
        (b : Bool) (raw : List RawNode) (steps : Steps) (excluded : List Str) (ls : List (List Str))
        → (b ≡ false → removes_any steps ≡ false)
        → plan Q condensation toposort raw steps excluded ≡ ok ls
        → (g : Inner) × (parse raw excluded ≡ ok g) × Keeps b (names g) (all_paths ls) × NonEmpty ls
    unfolding plan
    plan-Keeps b raw steps excluded ls allowed h =
        let (g, e, f) = bind-ok (map_err in_graph (parse raw excluded)) _ h in
        let (t, k, l) =
          bind-ok (map_err in_pipeline (apply_all Q condensation toposort steps (graph g))) _ f in
        let (same, full) = layers_of-names t ls l in
        let kept =
          apply_all-Keeps Q condensation toposort b steps (graph g) t allowed
            (map_err-eq-ok in_pipeline _ k) in
        (g, map_err-eq-ok in_graph _ e, rw (same, ← names-graph g) kept, full)

    included-perm :
        (raw : List RawNode) (excluded : List Str) (g : Inner)
        → parse raw excluded ≡ ok g
        → Perm (included raw excluded) (names g)
    unfolding sort_by_size
    included-perm raw excluded g h =
        rw ((parse-names raw excluded g h).0)
          (Perm.map (λ n. n.path) (sort_by-perm _ (retain_included excluded raw)))

    -- A plan without `remove_paths` places every path that is not excluded in exactly one layer:
    -- the layers together are a rearrangement of the included paths, which are distinct, and no
    -- layer is empty.
    pub plan-perm :
        (raw : List RawNode) (steps : Steps) (excluded : List Str) (ls : List (List Str))
        → removes_any steps ≡ false
        → plan Q condensation toposort raw steps excluded ≡ ok ls
        → Perm (included raw excluded) (all_paths ls) × Nodup (all_paths ls) × NonEmpty ls
    plan-perm raw steps excluded ls keep h =
        let (g, e, kept, full) = plan-Keeps false raw steps excluded ls (λ _. keep) h in
        let p = Keeps-perm kept in
        (
          Perm.trans (included-perm raw excluded g e) p,
          Perm.nodup p (parse-names raw excluded g e).1,
          full,
        )

    -- With any steps at all, the layers hold distinct paths, all of them included ones: what is
    -- missing was dropped, and nothing is made up or placed twice.
    pub plan-dropped :
        (raw : List RawNode) (steps : Steps) (excluded : List Str) (ls : List (List Str))
        → plan Q condensation toposort raw steps excluded ≡ ok ls
        → (dropped : List Str) × Perm (included raw excluded) (all_paths ls ++ dropped)
          × Nodup (all_paths ls)
          × NonEmpty ls
    plan-dropped raw steps excluded ls h =
        let (g, e, kept, full) = plan-Keeps true raw steps excluded ls (λ k. cc) h in
        let (dropped, p) = Keeps-dropped kept in
        (
          dropped,
          Perm.trans (included-perm raw excluded g e) p,
          Nodup.of_append_left dropped (Perm.nodup p (parse-names raw excluded g e).1),
          full,
        )
