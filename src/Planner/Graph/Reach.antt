-- ===== src/Planner/Graph/Reach.antt =====
-- `Graph::reachable` of crates/wrix-image-tools/src/planner/graph/mod.rs against reachability.
use wrix.Common.{
  ℕ, zero, suc, ◌+◌, ◌-◌, ◌≤◌, ◌≡◌, refl, sym, ap, subst, ◌⊎◌, ◌↔◌, inl, inr, Bool, true, false,
  ◌&&◌, ◌||◌, List, [], ◌∷◌, ◌++◌, arith, ◌==◌, ltb, leb, if◌then◌else◌, length, length-append,
  Bool-cases, ==_iff,
}
use wrix.Common.Sets.{has, insert, has-insert, has-append}
use wrix.Planner.Petgraph.{Petgraph, Direction}
use wrix.Planner.Graph.{Node, range_from, node_indices, reach_loop, degree_sum, reachable}

or-true : (a b : Bool) → (a || b) ≡ true → (a ≡ true) ⊎ (b ≡ true)
or-true true b h = inl refl
or-true false b h = inr h

module _ ⦃P : Petgraph Node⦄ where
  open P use {Inner, node_weights, neighbors_directed, neighbors_out_of_range}

  -- A walk along the edges, or against them.
  pub data Reach (g : Inner) (d : Direction) (a : ℕ) : ℕ → Type 0 where
    here : Reach g d a a
    next : {b c : ℕ} → Reach g d a b → has (neighbors_directed g b d) c ≡ true → Reach g d a c

  reach_loop-sound :
      (T : ℕ → Type 0) (g : Inner) (d : Direction)
      → ((i j : ℕ) → T i → has (neighbors_directed g i d) j ≡ true → T j)
      → (fuel : ℕ) (visited queue : List ℕ) → ((j : ℕ) → has visited j ≡ true → T j)
      → ((j : ℕ) → has queue j ≡ true → T j)
      → (j : ℕ) → has (reach_loop fuel g d visited queue) j ≡ true
      → T j
  unfolding reach_loop
  reach_loop-sound T g d closed zero visited queue hv hq j h = hv j h
  reach_loop-sound T g d closed (suc fuel) visited [] hv hq j h = hv j h
  reach_loop-sound T g d closed (suc fuel) visited (i ∷ queue) hv hq j h =
      elim (Bool-cases (has visited i)) [
        | inl seen ↦
            reach_loop-sound T g d closed fuel visited queue hv (λ k e. hq k (ground (arith, e))) j
              (rw (seen, reach_loop) at h)
        | inr fresh ↦
            reach_loop-sound T g d closed fuel (insert i visited)
              (queue ++ neighbors_directed g i d)
              (λ k e. elim (or-true (i == k) (has visited k) (rw has-insert at e)) [
                | inl same ↦ subst T ((==_iff i k).0 same) here_i
                | inr old ↦ hv k old
              ])
              (λ k e.
                elim (or-true (has queue k) (has (neighbors_directed g i d) k)
                  (rw has-append at e)) [
                    | inl old ↦ hq k (ground (arith, old))
                    | inr new ↦ closed i k here_i new
                  ])
              j (rw (fresh, reach_loop) at h)
      ]
    where
      here_i : T i
      here_i = hq i (ground arith)

  abbrev degree : Inner → Direction → ℕ → ℕ
  degree g d i = length (neighbors_directed g i d)

  degree-out_of_range :
      (g : Inner) (d : Direction) (i : ℕ) → length (node_weights g) ≤ i → degree g d i ≡ 0
  degree-out_of_range g d i h =
      let e : length (node_weights g) + (i - length (node_weights g)) ≡ i = omega arith in
      subst (λ k. degree g d k ≡ 0) e
        (ap (λ (l : List ℕ). length l) (neighbors_out_of_range g (i - length (node_weights g)) d))

  degree_sum-insert_range :
      (g : Inner) (d : Direction) (visited : List ℕ) (i a n : ℕ)
      → has visited i ≡ false
      → degree_sum g d (insert i visited) (range_from a n)
          + (if leb a i && ltb i (a + n) then degree g d i else 0)
        ≡ degree_sum g d visited (range_from a n)
  unfolding degree_sum
  degree_sum-insert_range g d visited i a zero h = ground arith
  degree_sum-insert_range g d visited i a (suc n) h =
      ground (arith, has-insert i a visited, degree_sum-insert_range g d visited i (suc a) n h)

  -- A node that is visited gives up its share of the sum.
  degree_sum-insert :
      (g : Inner) (d : Direction) (visited : List ℕ) (i : ℕ)
      → has visited i ≡ false
      → degree_sum g d (insert i visited) (node_indices g) + degree g d i
        ≡ degree_sum g d visited (node_indices g)
  degree_sum-insert g d visited i h = ground (
    arith,
    degree_sum-insert_range g d visited i 0 (length (node_weights g)) h,
    degree-out_of_range g d i,
  )

  -- What the loop has when it ends: all it was given, closed under the edges.
  record Completes (g : Inner) (d : Direction) (visited queue result : List ℕ) : Type 0 where
    seen : (j : ℕ) → (has visited j || has queue j) ≡ true → has result j ≡ true
    closed :
        (v w : ℕ)
        → has result v ≡ true
        → has (neighbors_directed g v d) w ≡ true
        → has result w ≡ true

  -- Between two rounds, the neighbours of what was visited are visited or wait in the queue.
  abbrev Frontier : Inner → Direction → List ℕ → List ℕ → Type 0
  Frontier g d visited queue =
      (v w : ℕ)
      → has visited v ≡ true
      → has (neighbors_directed g v d) w ≡ true
      → (has visited w || has queue w) ≡ true

  Frontier-seen :
      (g : Inner) (d : Direction) (visited queue : List ℕ) (i : ℕ)
      → has visited i ≡ true
      → Frontier g d visited (i ∷ queue)
      → Frontier g d visited queue
  Frontier-seen g d visited queue i seen f v w hv hw = ground (arith, f v w hv hw)

  Frontier-insert :
      (g : Inner) (d : Direction) (visited queue : List ℕ) (i : ℕ)
      → Frontier g d visited (i ∷ queue)
      → Frontier g d (insert i visited) (queue ++ neighbors_directed g i d)
  Frontier-insert g d visited queue i f v w hv hw =
      elim (or-true (i == v) (has visited v) (rw has-insert at hv)) [
        | inl same ↦
            let e =
              subst (λ k. has (neighbors_directed g k d) w ≡ true) (sym ((==_iff i v).0 same)) hw in
            ground (arith, has-insert i w visited, has-append w queue (neighbors_directed g i d), e)
        | inr old ↦ ground (
          arith,
          has-insert i w visited,
          has-append w queue (neighbors_directed g i d),
          f v w old hw,
        )
      ]

  reach_loop-Completes :
      (g : Inner) (d : Direction) (fuel : ℕ) (visited queue : List ℕ)
      → length queue + degree_sum g d visited (node_indices g) ≤ fuel
      → Frontier g d visited queue
      → Completes g d visited queue (reach_loop fuel g d visited queue)
  unfolding reach_loop
  reach_loop-Completes g d zero visited [] h f = record {
    seen = λ j e. ground arith;
    closed = λ v w a b. ground (arith, f v w a b);
  }
  reach_loop-Completes g d zero visited (i ∷ queue) h f = absurd (omega arith)
  reach_loop-Completes g d (suc fuel) visited [] h f = record {
    seen = λ j e. ground arith;
    closed = λ v w a b. ground (arith, f v w a b);
  }
  reach_loop-Completes g d (suc fuel) visited (i ∷ queue) h f = elim (Bool-cases (has visited i)) [
    | inl seen ↦
        let ih =
          reach_loop-Completes g d fuel visited queue (omega arith)
            (Frontier-seen g d visited queue i seen f) in
        rw (seen, reach_loop)
          (record { seen = λ j e. ih.seen j (ground arith); closed = ih.closed })
    | inr fresh ↦
        let ih =
          reach_loop-Completes g d fuel (insert i visited) (queue ++ neighbors_directed g i d)
            (omega (
              arith,
              length-append queue (neighbors_directed g i d),
              degree_sum-insert g d visited i fresh,
            ))
            (Frontier-insert g d visited queue i f) in
        rw (fresh, reach_loop)
          (record {
            seen = λ j e. ih.seen j (
                ground
                  (arith, has-insert i j visited, has-append j queue (neighbors_directed g i d)));
            closed = ih.closed;
          })
  ]

  reachable-Completes :
      (g : Inner) (seeds : List ℕ) (d : Direction) → Completes g d [] seeds (reachable g seeds d)
  unfolding reachable
  reachable-Completes g seeds d = reach_loop-Completes g d _ [] seeds (omega arith) (λ v w a b. cc)

  Reach-closed :
      (g : Inner) (d : Direction) (result : List ℕ) {a b : ℕ}
      → ((v w : ℕ)
          → has result v ≡ true
          → has (neighbors_directed g v d) w ≡ true
          → has result w ≡ true)
      → has result a ≡ true
      → Reach g d a b
      → has result b ≡ true
  Reach-closed g d result closed h here = h
  Reach-closed g d result closed h (next r e) = closed _ _ (Reach-closed g d result closed h r) e

  -- An index is in the result of `reachable` exactly when a walk in the given direction leads to it
  -- from one of the seeds.
  pub reachable_lem :
      (g : Inner) (seeds : List ℕ) (d : Direction) (j : ℕ)
      → (has (reachable g seeds d) j ≡ true) ↔ ((s : ℕ) × (has seeds s ≡ true) × Reach g d s j)
  unfolding reachable
  reachable_lem g seeds d j = (sound, λ (s, hs, r). complete s hs r)
    where
      sound : has (reachable g seeds d) j ≡ true → (s : ℕ) × (has seeds s ≡ true) × Reach g d s j
      sound h =
          reach_loop-sound (λ k. (s : ℕ) × (has seeds s ≡ true) × Reach g d s k) g d
            (λ a b (s, hs, r) e. (s, hs, next r e)) _ [] seeds (λ k e. cc) (λ k e. (k, e, here)) j h

      complete : (s : ℕ) → has seeds s ≡ true → Reach g d s j → has (reachable g seeds d) j ≡ true
      complete s hs r =
          Reach-closed g d (reachable g seeds d) (reachable-Completes g seeds d).closed
            ((reachable-Completes g seeds d).seen s hs) r
