-- ===== src/Service/Gateway/Admitted.antt =====
-- What `admit` of crates/wrix-service/src/gateway/traffic/mod.rs has checked of a request that
-- waits for its dial.
use wrix.Common.{
  ℕ, ◌≡◌, refl, sym, ap, subst, inr, Bool, true, false, not, ◌&&◌, Option, none, some,
  if◌then◌else◌, ltb, Result, ok, err, bind-ok, ok-injective, guard-then, not-true,
}
use wrix.Common.Text.{Str, codes, str_eq}
use wrix.Common.Maps.{lookup}
use wrix.Service.Policy.{permits}
use wrix.Service.Gateway.{
  Error, invalid_protocol, denied, exhausted, poisoned, Grant, State, is_cancelled, find_grant,
  active_grant,
}
use wrix.Service.Gateway.Headers.{HeaderMap, credential}
use wrix.Service.Gateway.Traffic.{
  Request, Connection, Pending, Admission, answered, dialing, admit, admit_identified, authorize,
  identify, is_another, destination, forwarded_headers,
}
use wrix.Service.Gateway.Authorized.{IsAlive}

-- What a request that waits for its dial keeps.
pub record IsAdmitted {M : Type 0} (s : State) (pending : Pending M) : Type 0 where
  pub is_permitted : permits pending.grant.policy pending.to_host pending.to_port ≡ true
  pub alive : IsAlive s pending.secret pending.grant

when-active :
    (active : Bool) (g : Grant) {grant : Grant}
    → ◌≡◌ {A = Result Error Grant} (if active then ok g else err denied) (ok grant)
    → (active ≡ true) × (g ≡ grant)
when-active true g h = (refl, ok-injective {E = Error} h)
when-active false g h = absurd cc

unlocked-grant :
    (lock : Bool) (found : Option Grant) {grant : Grant}
    → ◌≡◌ {A = Result Error Grant} (if lock then err poisoned else active_grant found) (ok grant)
    → (found ≡ some grant) × (grant.active ≡ true)
unlocked-grant true found h = absurd cc
unlocked-grant false none h = absurd cc
unlocked-grant false (some g) h =
    let (e, equal) = when-active g.active g h in
    (ap some equal, subst (λ x. x.active ≡ true) equal e)

pub find_grant-found :
    (s : State) (secret : Str) {grant : Grant}
    → find_grant secret s ≡ ok grant
    → (lookup s.table.grants secret ≡ some grant) × (grant.active ≡ true)
unfolding find_grant
find_grant-found s secret h = unlocked-grant s.is_poisoned (lookup s.table.grants secret) h

-- Only a request that the policy permits waits for a dial.
abbrev checked_admission :
    {M : Type 0} → Bool → Bool → Bool → Result Error (Admission M) → Result Error (Admission M)
checked_admission permitted probe expected rest =
    if not permitted
    then ok (answered 403)
    else if probe
    then (if expected then ok (answered 204) else err invalid_protocol)
    else rest

checked-dialing :
    {M : Type 0} (permitted probe expected : Bool) (rest : Result Error (Admission M))
    {pending : Pending M}
    → checked_admission permitted probe expected rest ≡ ok (dialing pending)
    → (permitted ≡ true) × (rest ≡ ok (dialing pending))
checked-dialing true true true rest h = absurd cc
checked-dialing true true false rest h = absurd cc
checked-dialing true false expected rest h = (refl, h)
checked-dialing false probe expected rest h = absurd cc

module _ {M V : Type 0} (headers : HeaderMap M V) (parse_ipv4 : Str → Option ℕ) where
  pub authorize-dialing :
      (secret : Str) (grant : Grant) (requests : ℕ) (request : Request M) (s : State)
      {pending : Pending M}
      → authorize headers parse_ipv4 secret grant requests request s ≡ ok (dialing pending)
      → (pending.secret ≡ secret)
        × (pending.grant ≡ grant)
        × (permits grant.policy pending.to_host pending.to_port ≡ true)
  unfolding authorize
  authorize-dialing secret grant requests request s {pending} h =
      let (target, d, h1) = bind-ok (destination headers parse_ipv4 request) _ h in
      let (permitted, h2) =
        checked-dialing (permits grant.policy target.0 target.1) grant.probe
          (request.is_get && str_eq request.uri.path_or_root (codes "/")) _ h1 in
      let (stripped, f, h3) = bind-ok (forwarded_headers headers parse_ipv4 request) _ h2 in
      let (live, h4) = guard-then (not (is_cancelled s grant.cancel)) denied _ h3 in
      let (room, h5) = guard-then (ltb 0 requests) exhausted _ h4 in
      let made : ◌≡◌ {A = Admission M}
          (dialing (record {
            secret = secret;
            grant = grant;
            to_host = target.0;
            to_port = target.1;
            request = record request { headers = stripped };
          }))
          (dialing pending) =
        ok-injective {E = Error} h5 in
      let same : ◌≡◌ {A = Pending M}
          (record {
            secret = secret;
            grant = grant;
            to_host = target.0;
            to_port = target.1;
            request = record request { headers = stripped };
          })
          pending =
        cc in
      (
        ap (λ p. p.secret) (sym same),
        ap (λ p. p.grant) (sym same),
        subst (λ p. permits grant.policy p.to_host p.to_port ≡ true) same permitted,
      )

  module _ (decode : Str → Option Str) (is_utf8 : Str → Bool) where
    pub identify-found :
        (connection : Connection) (request : Request M) (s : State) {secret : Str} {grant : Grant}
        → identify headers parse_ipv4 decode is_utf8 connection request s ≡ ok (secret, grant)
        → (lookup s.table.grants secret ≡ some grant)
          × (grant.active ≡ true)
          × (is_another secret connection.identity ≡ false)
    unfolding identify
    identify-found connection request s {secret} {grant} h =
        let (c, e, h1) = bind-ok (credential headers decode is_utf8 request.headers) _ h in
        let (g, f, h2) = bind-ok (find_grant c s) _ h1 in
        let (own, h3) = guard-then (not (is_another c connection.identity)) denied _ h2 in
        let pair : ◌≡◌ {A = Str × Grant} (c, g) (secret, grant) = ok-injective {E = Error} h3 in
        let name : c ≡ secret = ap (λ x. x.0) pair in
        let equal : g ≡ grant = ap (λ x. x.1) pair in
        let (found, active) = find_grant-found s c (subst (λ x. find_grant c s ≡ ok x) equal f) in
        (
          subst (λ x. lookup s.table.grants x ≡ some grant) name found,
          active,
          subst (λ x. is_another x connection.identity ≡ false) name (not-true _ own),
        )

    admit_identified-dialing :
        (connection : Connection) (request : Request M) (s : State) (r : Result Error (Str × Grant))
        {pending : Pending M} {after : Connection}
        → identify headers parse_ipv4 decode is_utf8 connection request s ≡ r
        → ◌≡◌ {A = Result Error (Admission M) × Connection}
            (admit_identified headers parse_ipv4 decode is_utf8 connection request s r)
            (ok (dialing pending), after)
        → IsAdmitted s pending
    admit_identified-dialing connection request s (err e) q h = absurd cc
    admit_identified-dialing connection request s (ok (secret, grant)) {pending} q h =
        let (found, active, own) = identify-found connection request s q in
        let dials : authorize headers parse_ipv4 secret grant connection.requests request s
            ≡ ok (dialing pending) =
          ap (λ x. x.0) h in
        let (name, equal, permitted) =
          authorize-dialing secret grant connection.requests request s dials in
        record {
          is_permitted =
              subst (λ g. permits g.policy pending.to_host pending.to_port ≡ true) (sym equal)
                permitted;
          alive = inr (record {
            current = grant;
            found = subst (λ x. lookup s.table.grants x ≡ some grant) (sym name) found;
            same_policy = ap (λ g. g.policy) (sym equal);
            same_cancel = ap (λ g. g.cancel) (sym equal);
            is_active = active;
          });
        }

    pub admit-IsAdmitted :
        (connection : Connection) (request : Request M) (s : State) {pending : Pending M}
        {after : Connection}
        → ◌≡◌ {A = Result Error (Admission M) × Connection}
            (admit headers parse_ipv4 decode is_utf8 connection request s)
            (ok (dialing pending), after)
        → IsAdmitted s pending
    unfolding admit
    admit-IsAdmitted connection request s h =
        admit_identified-dialing connection request s
          (identify headers parse_ipv4 decode is_utf8 connection request s) refl h
