-- ===== src/Service/Gateway/Reached.antt =====
-- The runs of `run_network` (crates/wrix-service/src/gateway/mod.rs): each connection of the
-- traffic reaches addresses with one credential only.
use wrix.Common.{
  ℕ, ◌≡◌, refl, subst, inl, inr, Bool, List, [], ◌∷◌, Option, none, some, get_elem?, remove_at,
  All-remove_at, All-get, IsIn, Bool-cases, Result, ok, err,
}
use wrix.Common.Text.{Str}
use wrix.Service.Policy.{Host}
use wrix.Service.Policy.Baseline.{Address}
use wrix.Service.Gateway.{Error, State, contains_secret}
use wrix.Service.Gateway.Management.{serve, hold_round}
use wrix.Service.Gateway.Headers.{HeaderMap}
use wrix.Service.Gateway.Traffic.{
  Request, Connection, Pending, Admission, answered, dialing, Network, admit, resume,
}
use wrix.Service.Gateway.Run.{
  Entry, attached_entry, activated_entry, revoked_entry, connected_entry, Slot, System, Event,
  managed, heard, accepted, requested, dialled, child_ended, closed, poisoned_lock, step, run,
  start, after_admission, after_dial, end_dial, admit_at,
}
use wrix.Service.Gateway.Identity.{
  IsOwner, IsOwner-unique, replaced-IsOwner, admit-KeepsIdentity, admit-owner,
}
use wrix.Service.Gateway.Owners.{
  Reached, IsOwned, hold-Reached, serve-Reached, same-IsOwned, give_back-IsOwned, end_child-IsOwned,
  close-IsOwned, accept-IsOwned,
}

log-IsOwned :
    {M : Type 0} (system : System M) (t : State) (held : List Str) (log : List Entry)
    → IsOwned system
    → Reached system.slots log
    → IsOwned (record system { state = t; held = held; log = log })
log-IsOwned system t held log h reached = record { waiting = h.waiting; reached = reached }

-- An entry of the history is of its connection's owner.
entry-IsOwner :
    (slots : List Slot) (log : List Entry) (i : ℕ) (c : Str) (host : Host) (port : ℕ)
    (address : Address)
    → Reached slots log
    → IsIn (connected_entry i c host port address) log
    → IsOwner slots i c
entry-IsOwner slots [] i c host port address h m = absurd m
entry-IsOwner slots (attached_entry d policy ∷ log) i c host port address h (inl e) = absurd cc
entry-IsOwner slots (attached_entry d policy ∷ log) i c host port address h (inr m) =
    entry-IsOwner slots log i c host port address h m
entry-IsOwner slots (activated_entry d ∷ log) i c host port address h (inl e) = absurd cc
entry-IsOwner slots (activated_entry d ∷ log) i c host port address h (inr m) =
    entry-IsOwner slots log i c host port address h m
entry-IsOwner slots (revoked_entry d ∷ log) i c host port address h (inl e) = absurd cc
entry-IsOwner slots (revoked_entry d ∷ log) i c host port address h (inr m) =
    entry-IsOwner slots log i c host port address h m
entry-IsOwner slots (connected_entry j d k p a ∷ log) i c host port address (h, hs) (inl e) =
    let number : j ≡ i = cc in
    let name : d ≡ c = cc in
    subst (λ x. IsOwner slots x c) number (subst (λ x. IsOwner slots j x) name h)
entry-IsOwner slots (connected_entry j d k p a ∷ log) i c host port address (h, hs) (inr m) =
    entry-IsOwner slots log i c host port address hs m

module _ {M V : Type 0} (headers : HeaderMap M V) (parse_ipv4 : Str → Option ℕ) where
  after_dial-IsOwned :
      (i : ℕ) (pending : Pending M) (system : System M) (r : Result Error Address)
      → IsOwner system.slots i pending.secret
      → IsOwned system
      → IsOwned (after_dial i pending system r)
  after_dial-IsOwned i pending system (err e) owner h =
      give_back-IsOwned i system (get_elem? system.slots i) refl h
  after_dial-IsOwned i pending system (ok address) owner h = record {
    waiting = h.waiting;
    reached = (owner, h.reached);
  }

  end_dial-IsOwned :
      (j : ℕ) (network : Network) (system : System M) (e : Option (ℕ × Pending M))
      → get_elem? system.pending j ≡ e
      → IsOwned system
      → IsOwned (end_dial headers parse_ipv4 j network system e)
  end_dial-IsOwned j network system none q h = h
  end_dial-IsOwned j network system (some (i, pending)) q h =
      after_dial-IsOwned i pending (record system { pending = remove_at j system.pending })
        (resume headers network pending system.state)
        (All-get (λ e. IsOwner system.slots e.0 e.1.secret) j system.pending h.waiting q)
        (record {
          waiting =
              All-remove_at (λ e. IsOwner system.slots e.0 e.1.secret) j system.pending h.waiting;
          reached = h.reached;
        })

  module _ (decode : Str → Option Str) (is_utf8 : Str → Bool) (key : Str) where
    after_admission-IsOwned :
        (i : ℕ) (slot : Slot) (request : Request M) (system : System M)
        (r : Result Error (Admission M) × Connection)
        → get_elem? system.slots i ≡ some slot
        → admit headers parse_ipv4 decode is_utf8 slot.connection request system.state ≡ r
        → IsOwned system
        → IsOwned (after_admission i slot system r)
    after_admission-IsOwned i slot request system (err e, connection) q a h =
        same-IsOwned i system slot (record slot { connection = connection }) system.children q
          (λ c k.
            subst (λ x. x.1.identity ≡ some c) a
              (admit-KeepsIdentity headers parse_ipv4 decode is_utf8 slot.connection request
                system.state c k))
          h
    after_admission-IsOwned i slot request system (ok (answered status), connection) q a h =
        same-IsOwned i system slot (record slot { connection = connection }) system.children q
          (λ c k.
            subst (λ x. x.1.identity ≡ some c) a
              (admit-KeepsIdentity headers parse_ipv4 decode is_utf8 slot.connection request
                system.state c k))
          h
    after_admission-IsOwned i slot request system (ok (dialing pending), connection) q a h =
        let next : Slot = record slot { connection = connection } in
        let later =
          same-IsOwned i system slot next system.children q
            (λ c k.
              subst (λ x. x.1.identity ≡ some c) a
                (admit-KeepsIdentity headers parse_ipv4 decode is_utf8 slot.connection request
                  system.state c k))
            h in
        record {
          waiting = (
            replaced-IsOwner i system.slots next pending.secret q (
                admit-owner headers parse_ipv4 decode is_utf8 slot.connection request system.state
                  a),
            later.waiting,
          );
          reached = later.reached;
        }

    admit_at-IsOwned :
        (i : ℕ) (request : Request M) (system : System M) (slot : Option Slot)
        → get_elem? system.slots i ≡ slot
        → IsOwned system
        → IsOwned (admit_at headers parse_ipv4 decode is_utf8 key i request system slot)
    admit_at-IsOwned i request system none q h = h
    admit_at-IsOwned i request system (some slot) q h = elim (Bool-cases slot.is_open) [
      | inl e ↦ simp (e) (
          after_admission-IsOwned i slot request system
            (admit headers parse_ipv4 decode is_utf8 slot.connection request system.state) q refl h)
      | inr e ↦ simp (e) h
    ]

    step-IsOwned :
        (system : System M) (event : Event M)
        → IsOwned system
        → IsOwned (step headers parse_ipv4 decode is_utf8 key system event)
    unfolding step
    step-IsOwned system (managed request write) h = log-IsOwned system _ _ _ h (
        serve-Reached parse_ipv4 system.slots request
          (serve parse_ipv4 key request write system.state) system.log h.reached)
    step-IsOwned system (heard c input write) h =
        elim (Bool-cases (contains_secret system.held c)) [
          | inl e ↦ simp (e) (
              log-IsOwned system _ _ _ h (
                hold-Reached system.slots c (hold_round c input write system.state) system.log
                  h.reached))
          | inr e ↦ simp (e) h
        ]
    step-IsOwned system accepted h = accept-IsOwned system h
    step-IsOwned system (requested i request) h =
        admit_at-IsOwned i request system (get_elem? system.slots i) refl h
    step-IsOwned system (dialled j network) h =
        end_dial-IsOwned j network system (get_elem? system.pending j) refl h
    step-IsOwned system (child_ended k) h =
        end_child-IsOwned k system (get_elem? system.children k) h
    step-IsOwned system (closed i) h = close-IsOwned i system (get_elem? system.slots i) refl h
    step-IsOwned system poisoned_lock h = record { waiting = h.waiting; reached = h.reached }

    run-IsOwned :
        (events : List (Event M)) (system : System M)
        → IsOwned system
        → IsOwned (run headers parse_ipv4 decode is_utf8 key events system)
    unfolding run
    run-IsOwned [] system h = h
    run-IsOwned (event ∷ events) system h =
        run-IsOwned events (step headers parse_ipv4 decode is_utf8 key system event)
          (step-IsOwned system event h)

    -- Whatever the order of events and the answers of the environment: two addresses that the same
    -- connection of the traffic reached were reached with the same credential.
    pub run-one_owner :
        (state : State) (events : List (Event M)) (i : ℕ) (c d : Str) (host other : Host)
        (port door : ℕ) (address target : Address)
        → IsIn
            (connected_entry i c host port address)
            (run headers parse_ipv4 decode is_utf8 key events (start state)).log
        → IsIn
            (connected_entry i d other door target)
            (run headers parse_ipv4 decode is_utf8 key events (start state)).log
        → c ≡ d
    run-one_owner state events i c d host other port door address target first second =
        let end = run headers parse_ipv4 decode is_utf8 key events (start {M = M} state) in
        let owned =
          run-IsOwned events (start {M = M} state) (record { waiting = tt; reached = tt }) in
        IsOwner-unique end.slots i c d
          (entry-IsOwner end.slots end.log i c host port address owned.reached first)
          (entry-IsOwner end.slots end.log i d other door target owned.reached second)
