-- ===== src/Service/Gateway/Dialled.antt =====
-- What the dial of `admit` (crates/wrix-service/src/gateway/traffic/mod.rs) has when it ended.
use wrix.Common.{
  ℕ, ◌≡◌, sym, subst, inl, inr, true, false, not, ◌&&◌, List, [], ◌∷◌, any, leb, ok, bind-ok,
  guard-then, or-cases, not-true, not-false, is_empty, length,
}
use wrix.Service.Policy.{Host, permits}
use wrix.Service.Policy.Baseline.{Address, address_eq, baseline_permits, Range}
use wrix.Service.Gateway.{io, denied, protected_destination, State, is_cancelled}
use wrix.Service.Gateway.Headers.{HeaderMap}
use wrix.Service.Gateway.Traffic.{Pending, Network, resume, dial, first_address, is_refused}
use wrix.Service.Gateway.Run.{Entry}
use wrix.Service.Gateway.Authorized.{Authority, Tracks}
use wrix.Service.Gateway.Admitted.{IsAdmitted}

-- A dial that succeeded went to the first address, which is not refused.
first-kept :
    (s : State) (addresses : List Address) {address : Address}
    → any (is_refused s) addresses ≡ false
    → first_address addresses ≡ ok address
    → is_refused s address ≡ false
first-kept s [] h e = cc
first-kept s (a ∷ rest) {address} h e =
    let same : a ≡ address = cc in
    subst (λ x. is_refused s x ≡ false) same (or-cases (is_refused s a) _ h).0

dial-kept :
    (s : State) (network : Network) (host : Host) (port : ℕ) {address : Address}
    → dial s network host port ≡ ok address
    → is_refused s address ≡ false
unfolding dial
dial-kept s network host port {address} h =
    let (addresses, r, h1) = bind-ok (network.resolve host port) _ h in
    let (some_found, h2) =
      guard-then (not (is_empty addresses) && leb (length addresses) 64) io _ h1 in
    let (none_refused, h3) =
      guard-then (not (any (is_refused s) addresses)) protected_destination _ h2 in
    let (a, f, h4) = bind-ok (first_address addresses) _ h3 in
    let (w, g, h5) = bind-ok (network.connect a) _ h4 in
    let same : a ≡ address = cc in
    first-kept s addresses (not-true _ none_refused)
      (subst (λ x. first_address addresses ≡ ok x) same f)

module _ (baseline : List Range) (protected : List Address) where
  pub resume-Authority :
      {M V : Type 0} (headers : HeaderMap M V) (s : State) (log : List Entry) (network : Network)
      (pending : Pending M) {address : Address}
      → Tracks baseline protected s log
      → IsAdmitted s pending
      → resume headers network pending s ≡ ok address
      → Authority baseline protected pending.secret pending.to_host pending.to_port address log
  unfolding resume is_refused
  resume-Authority headers s log network pending {address} h admitted e =
      let (checked, e1) = guard-then (not (is_cancelled s pending.grant.cancel)) denied _ e in
      let (found, d, e2) = bind-ok (dial s network pending.to_host pending.to_port) _ e1 in
      let (live, e3) = guard-then (not (is_cancelled s pending.grant.cancel)) denied _ e2 in
      let same : found ≡ address = cc in
      let (outside, unprotected) =
        or-cases (not (baseline_permits s.baseline address)) (any (address_eq address) s.protected)
          (subst (λ x. is_refused s x ≡ false) same
            (dial-kept s network pending.to_host pending.to_port d)) in
      elim admitted.alive [
        | inl gone ↦
            let still : is_cancelled s pending.grant.cancel ≡ false = not-true _ live in absurd cc
        | inr held ↦
            let tracked = h.tracked pending.secret held.current held.found in
            record {
              policy = held.current.policy;
              was_attached = tracked.was_attached;
              is_permitted =
                  subst (λ p. permits p pending.to_host pending.to_port ≡ true)
                    (sym held.same_policy) admitted.is_permitted;
              was_activated = tracked.was_activated held.is_active;
              not_revoked = tracked.not_revoked;
              in_baseline =
                  subst (λ r. baseline_permits r address ≡ true) h.same_baseline
                    (not-false _ outside);
              not_protected =
                  subst (λ p. any (address_eq address) p ≡ false) h.same_protected unprotected;
            }
      ]
