-- ===== src/Service/Route/Retained.antt =====
-- `Listeners::bind_deployment` of crates/wrix-service/src/route/mod.rs: a retained role keeps its port.
use wrix.Common.{
  ℕ, zero, suc, ◌<◌, ◌≡◌, refl, sym, subst, ap, ◌∙◌, Bool, true, false, ◌⊎◌, inl, inr, List, [],
  ◌∷◌, Option, none, some, arith, ◌==◌, ==_iff, any, Bool-cases, Result, ok, err, ok_or, bind-ok,
  ok-injective,
}
use wrix.Service.Route.{
  Role, sql, cache_read, egress, compiler, sync, all_roles, index, Fault, Error,
  incomplete_listeners, retained_port, Slots, set_slot, Listeners, listener_of, complete, chain,
  retained_result, bind_retained, bind_role, retain_role, retain_roles, fill_role, fill_roles,
  bind_deployment,
}

role_at : ℕ → Role
role_at zero = sql
role_at (suc zero) = cache_read
role_at (suc (suc zero)) = egress
role_at (suc (suc (suc zero))) = compiler
role_at (suc (suc (suc (suc n)))) = sync

role_at-index : (role : Role) → role_at (index role) ≡ role
unfolding role_at index
role_at-index sql = refl
role_at-index cache_read = refl
role_at-index egress = refl
role_at-index compiler = refl
role_at-index sync = refl

index-injective : (r s : Role) → (index r == index s) ≡ true → r ≡ s
index-injective r s h =
    sym (role_at-index r) ∙ (ap role_at ((==_iff (index r) (index s)).0 h) ∙ role_at-index s)

chain-ok {ℓ κ μ} :
    {W : Type ℓ} {A : Type κ} {B : Type μ} (r : W × Result Error A)
    (rest : W → A → W × Result Error B) {final : W} {b : B}
    → chain r rest ≡ (final, ok b)
    → (w : W) × ((a : A) × ((r ≡ (w, ok a)) × (rest w a ≡ (final, ok b))))
chain-ok (w, err e) rest {final} {b} h = let fails : ◌≡◌ (err e) (ok b) = ap (λ p. p.1) h in cc
chain-ok (w, ok a) rest h = (w, (a, (refl, h)))

ok_or-ok {ℓ} : {A : Type ℓ} (o : Option A) (e : Error) {a : A} → ok_or o e ≡ ok a → o ≡ some a
ok_or-ok none e h = cc
ok_or-ok (some b) e h = cc

set_slot_self : (slots : Slots) (role : Role) (o : Option ℕ) → set_slot slots role o role ≡ o
unfolding set_slot
set_slot_self slots role o = let same : (index role == index role) ≡ true = ground arith in rw same

set_slot-other :
    (slots : Slots) (role r : Role) (o : Option ℕ)
    → (index r == index role) ≡ false
    → set_slot slots role o r ≡ slots r
unfolding set_slot
set_slot-other slots role r o h = rw h

any-all_roles : (r : Role) → any (λ role. index r == index role) all_roles ≡ true
unfolding index
any-all_roles sql = refl
any-all_roles cache_read = refl
any-all_roles egress = refl
any-all_roles compiler = refl
any-all_roles sync = refl

some-injective : {a b : ℕ} → some a ≡ some b → a ≡ b
some-injective h = cc

complete-listener_of :
    (slots : Slots) (ls : Listeners) (r : Role)
    → complete slots ≡ ok ls
    → slots r ≡ some (listener_of ls r)
unfolding complete
complete-listener_of slots ls r h =
    let (a, e1, h1) = bind-ok (ok_or (slots sql) incomplete_listeners) _ h in
    let (b, e2, h2) = bind-ok (ok_or (slots cache_read) incomplete_listeners) _ h1 in
    let (c, e3, h3) = bind-ok (ok_or (slots egress) incomplete_listeners) _ h2 in
    let (d, e4, h4) = bind-ok (ok_or (slots compiler) incomplete_listeners) _ h3 in
    let (e, e5, h5) = bind-ok (ok_or (slots sync) incomplete_listeners) _ h4 in
    let same = ok-injective {E = Error} h5 in
    elim r as (λ r. slots r ≡ some (listener_of ls r)) [
      | sql ↦
          subst (λ l. slots sql ≡ some (listener_of l sql)) same
            (ok_or-ok (slots sql) incomplete_listeners e1)
      | cache_read ↦
          subst (λ l. slots cache_read ≡ some (listener_of l cache_read)) same
            (ok_or-ok (slots cache_read) incomplete_listeners e2)
      | egress ↦
          subst (λ l. slots egress ≡ some (listener_of l egress)) same
            (ok_or-ok (slots egress) incomplete_listeners e3)
      | compiler ↦
          subst (λ l. slots compiler ≡ some (listener_of l compiler)) same
            (ok_or-ok (slots compiler) incomplete_listeners e4)
      | sync ↦
          subst (λ l. slots sync ≡ some (listener_of l sync)) same
            (ok_or-ok (slots sync) incomplete_listeners e5)
    ]

module _ {ℓ} {W : Type ℓ} (bind_port : W → ℕ → W × Result Fault ℕ)
    (fixed : (w next : W) (port listener : ℕ)
      → 0 < port
      → bind_port w port ≡ (next, ok listener)
      → listener ≡ port)
    (prior : Role → Option ℕ) (retained : Role → Bool) (r : Role) (port : ℕ) where
  retained_result-port :
      (role : Role) (answer : W × Result Fault ℕ) {next : W} {listener : ℕ}
      → retained_result bind_port role port answer ≡ (next, ok listener)
      → answer ≡ (next, ok listener)
  retained_result-port role (w, ok l) {next} {listener} h =
      let same : ◌≡◌ {A = Result Error ℕ} (ok l) (ok listener) = ap (λ p. p.1) h in
      let state : w ≡ next = ap (λ p. p.0) h in
      let same_port : l ≡ listener = ok-injective {E = Error} same in rw (state, same_port)
  retained_result-port role (w, err e) {next} {listener} h =
      let fails : ◌≡◌ {A = Result Error ℕ} (err (retained_port role port e)) (ok listener) =
        ap (λ p. p.1) h in
      cc

  -- The round of the role itself puts its port in place.
  retain_role_self :
      (w next : W) (slots after : Slots)
      → 0 < port
      → retain_role bind_port r true (some port) w slots ≡ (next, ok after)
      → after r ≡ some port
  unfolding retain_role bind_retained
  retain_role_self w next slots after pos h =
      let (w1, (listener, (bound, put))) = chain-ok (bind_retained bind_port w r port) _ h in
      let answer = fixed w w1 port listener pos (retained_result-port r (bind_port w port) bound) in
      let same : set_slot slots r (some listener) ≡ after =
        ok-injective {E = Error} (ap (λ p. p.1) put) in
      subst (λ s. s r ≡ some port) same (set_slot_self slots r (some listener) ∙ ap some answer)

  -- The round of another role leaves it.
  retain_role-other :
      (role : Role) (test : Bool) (o : Option ℕ) (w next : W) (slots after : Slots)
      → (index r == index role) ≡ false
      → retain_role bind_port role test o w slots ≡ (next, ok after)
      → slots r ≡ some port
      → after r ≡ some port
  unfolding retain_role
  retain_role-other role true (some p) w next slots after ne h k =
      let (w1, (listener, (bound, put))) = chain-ok (bind_retained bind_port w role p) _ h in
      let same : set_slot slots role (some listener) ≡ after =
        ok-injective {E = Error} (ap (λ p. p.1) put) in
      subst (λ s. s r ≡ some port) same (set_slot-other slots role r (some listener) ne ∙ k)
  retain_role-other role true none w next slots after ne h k =
      let same : slots ≡ after = ok-injective {E = Error} (ap (λ p. p.1) h) in
      subst (λ s. s r ≡ some port) same k
  retain_role-other role false o w next slots after ne h k =
      let same : slots ≡ after = ok-injective {E = Error} (ap (λ p. p.1) h) in
      subst (λ s. s r ≡ some port) same k

  module _ (pos : 0 < port) (had : prior r ≡ some port) (keeps : retained r ≡ true) where
    retain_roles-place :
        (roles : List Role) (w next : W) (slots after : Slots)
        → retain_roles bind_port prior retained roles w slots ≡ (next, ok after)
        → (any (λ role. index r == index role) roles ≡ true) ⊎ (slots r ≡ some port)
        → after r ≡ some port
    unfolding retain_roles
    retain_roles-place [] w next slots after h (inl k) = cc
    retain_roles-place [] w next slots after h (inr k) =
        let same : slots ≡ after = ok-injective {E = Error} (ap (λ p. p.1) h) in
        subst (λ s. s r ≡ some port) same k
    retain_roles-place (role ∷ roles) w next slots after h k =
        let (w1, (mid, (first, rest))) =
          chain-ok (retain_role bind_port role (retained role) (prior role) w slots) _ h in
        elim (Bool-cases (index r == index role)) [
          | inl e ↦
              let first_r : retain_role bind_port r (retained r) (prior r) w slots ≡ (w1, ok mid) =
                subst (λ x. retain_role bind_port x (retained x) (prior x) w slots ≡ (w1, ok mid))
                  (sym (index-injective r role e)) first in
              let first_port : retain_role bind_port r true (some port) w slots ≡ (w1, ok mid) =
                rw (keeps, had) at first_r in
              retain_roles-place roles w1 next mid after rest
                (inr (retain_role_self w w1 slots mid pos first_port))
          | inr e ↦ elim k [
            | inl listed ↦ retain_roles-place roles w1 next mid after rest (inl (rw e at listed))
            | inr placed ↦ retain_roles-place roles w1 next mid after rest (
                inr (
                  retain_role-other role (retained role) (prior role) w w1 slots mid e first
                    placed))
          ]
        ]

    fill_role-place :
        (role : Role) (o : Option ℕ) (w next : W) (slots after : Slots)
        → slots role ≡ o
        → fill_role bind_port role (prior role) o w slots ≡ (next, ok after)
        → slots r ≡ some port
        → after r ≡ some port
    unfolding fill_role
    fill_role-place role (some l) w next slots after q h k =
        let same : slots ≡ after = ok-injective {E = Error} (ap (λ p. p.1) h) in
        subst (λ s. s r ≡ some port) same k
    fill_role-place role none w next slots after q h k =
        let (w1, (listener, (bound, put))) =
          chain-ok (bind_role bind_port w role (prior role)) _ h in
        let same : set_slot slots role (some listener) ≡ after =
          ok-injective {E = Error} (ap (λ p. p.1) put) in
        elim (Bool-cases (index r == index role)) [
          | inl e ↦
              let empty : slots r ≡ none =
                subst (λ x. slots x ≡ none) (sym (index-injective r role e)) q in
              cc
          | inr e ↦
              subst (λ s. s r ≡ some port) same (set_slot-other slots role r (some listener) e ∙ k)
        ]

    fill_roles-place :
        (roles : List Role) (w next : W) (slots after : Slots)
        → fill_roles bind_port prior roles w slots ≡ (next, ok after)
        → slots r ≡ some port
        → after r ≡ some port
    unfolding fill_roles
    fill_roles-place [] w next slots after h k =
        let same : slots ≡ after = ok-injective {E = Error} (ap (λ p. p.1) h) in
        subst (λ s. s r ≡ some port) same k
    fill_roles-place (role ∷ roles) w next slots after h k =
        let (w1, (mid, (first, rest))) =
          chain-ok (fill_role bind_port role (prior role) (slots role) w slots) _ h in
        fill_roles-place roles w1 next mid after rest
          (fill_role-place role (slots role) w w1 slots mid refl first k)

    -- A deployment that is bound keeps the port of every retained role that had a port, when the
    -- system gives a listener of the port that it is asked for unless that is 0.
    pub retained_not_relocated :
        (w next : W) (ls : Listeners)
        → bind_deployment bind_port prior retained w ≡ (next, ok ls)
        → listener_of ls r ≡ port
    unfolding bind_deployment
    retained_not_relocated w next ls h =
        let (w1, (slots, (first, rest))) =
          chain-ok (retain_roles bind_port prior retained all_roles w (λ role. none)) _ h in
        let (w2, (after, (filled, last))) =
          chain-ok (fill_roles bind_port prior all_roles w1 slots) _ rest in
        let placed =
          retain_roles-place all_roles w w1 (λ role. none) slots first (inl (any-all_roles r)) in
        let kept = fill_roles-place all_roles w1 w2 slots after filled placed in
        let found = complete-listener_of after ls r (ap (λ p. p.1) last) in
        some-injective (sym found ∙ kept)
