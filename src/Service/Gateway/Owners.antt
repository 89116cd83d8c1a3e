-- ===== src/Service/Gateway/Owners.antt =====
-- What the events of `run_network` (crates/wrix-service/src/gateway/mod.rs) keep of the identities
-- of its connections.
use wrix.Common.{
  ℕ, ◌≡◌, refl, inl, inr, Bool, true, false, not, ◌||◌, List, [], ◌∷◌, ◌++◌, Option, none, some,
  ◌==◌, ltb, if◌then◌else◌, get_elem?, set_at, remove_at, All, All-map, Bool-cases, Result, ok, err,
}
use wrix.Common.Text.{Str}
use wrix.Service.Policy.{Rule}
use wrix.Service.Gateway.{Error}
use wrix.Service.Gateway.Management.{
  Operation, status_operation, drain_operation, attach_operation, prepare_operation,
  probe_operation, Envelope, Outcome, Progress, holding, ended, probe_policy,
}
use wrix.Service.Gateway.Traffic.{Pending}
use wrix.Service.Gateway.Run.{
  Entry, attached_entry, activated_entry, revoked_entry, connected_entry, Slot, new_slot, System,
  accept_connection, end_child, give_back, close_slot, return_permit, not_at, dropped, attachment,
  policy_entries, operation_entries, serve_entries, hold_entries, is_attached, is_activated,
}
use wrix.Service.Gateway.Identity.{IsOwner, KeepsIdentity, append-IsOwner, set_at-IsOwner}

-- Each address was reached with the identity of its connection.
abbrev pub Reached : List Slot → List Entry → Type 0
Reached slots [] = Unit {0}
Reached slots (attached_entry c policy ∷ log) = Reached slots log
Reached slots (activated_entry c ∷ log) = Reached slots log
Reached slots (revoked_entry c ∷ log) = Reached slots log
Reached slots (connected_entry i c host port address ∷ log) = IsOwner slots i c × Reached slots log

abbrev pub Waiting : {M : Type 0} → List Slot → List (ℕ × Pending M) → Type 0
Waiting slots pending = All (λ e. IsOwner slots e.0 e.1.secret) pending

pub record IsOwned {M : Type 0} (system : System M) : Type 0 where
  pub waiting : Waiting system.slots system.pending
  pub reached : Reached system.slots system.log

abbrev pub KeepsOwners : List Slot → List Slot → Type 0
KeepsOwners slots later = (j : ℕ) (c : Str) → IsOwner slots j c → IsOwner later j c

Reached-later :
    (slots later : List Slot) (log : List Entry)
    → KeepsOwners slots later
    → Reached slots log
    → Reached later log
Reached-later slots later [] keeps h = tt
Reached-later slots later (attached_entry c policy ∷ log) keeps h =
    Reached-later slots later log keeps h
Reached-later slots later (activated_entry c ∷ log) keeps h = Reached-later slots later log keeps h
Reached-later slots later (revoked_entry c ∷ log) keeps h = Reached-later slots later log keeps h
Reached-later slots later (connected_entry i c host port address ∷ log) keeps (h, hs) =
    (keeps i c h, Reached-later slots later log keeps hs)

dropped-Reached :
    (slots : List Slot) (c : Str) (progress : Progress) (log : List Entry)
    → Reached slots log
    → Reached slots (dropped c progress log)
dropped-Reached slots c (holding d) log h = h
dropped-Reached slots c (ended r) log h = h

either-Reached :
    (slots : List Slot) (b : Bool) (log other : List Entry)
    → Reached slots log
    → Reached slots other
    → Reached slots (if b then log else other)
either-Reached slots true log other h k = h
either-Reached slots false log other h k = k

attachment-Reached :
    (slots : List Slot) (c : Str) (policy : List Rule) (active : Bool) (out : Outcome)
    (log : List Entry)
    → Reached slots log
    → Reached slots (attachment c policy active out log)
attachment-Reached slots c policy active out log h =
    let entries =
      if active
      then activated_entry c ∷ attached_entry c policy ∷ log
      else attached_entry c policy ∷ log in
    either-Reached slots (is_attached out.reply) (dropped c out.progress entries) log
      (dropped-Reached slots c out.progress entries (either-Reached slots active _ _ h h)) h

policy-Reached :
    (slots : List Slot) (c : Str) (out : Outcome) (r : Result Error (List Rule)) (log : List Entry)
    → Reached slots log
    → Reached slots (policy_entries c out r log)
policy-Reached slots c out (err e) log h = h
policy-Reached slots c out (ok policy) log h = attachment-Reached slots c policy true out log h

pub hold-Reached :
    (slots : List Slot) (c : Str) (out : Outcome) (log : List Entry)
    → Reached slots log
    → Reached slots (hold_entries c out log)
hold-Reached slots c out log h =
    dropped-Reached slots c out.progress
      (if is_activated out.reply then activated_entry c ∷ log else log)
      (either-Reached slots (is_activated out.reply) (activated_entry c ∷ log) log h h)

module _ (parse_ipv4 : Str → Option ℕ) where
  operation-Reached :
      (slots : List Slot) (operation : Operation) (out : Outcome) (log : List Entry)
      → Reached slots log
      → Reached slots (operation_entries parse_ipv4 operation out log)
  operation-Reached slots status_operation out log h = h
  operation-Reached slots (drain_operation draining) out log h = h
  operation-Reached slots (attach_operation c policy) out log h =
      attachment-Reached slots c policy true out log h
  operation-Reached slots (prepare_operation c policy) out log h =
      attachment-Reached slots c policy false out log h
  operation-Reached slots (probe_operation c) out log h =
      policy-Reached slots c out (probe_policy parse_ipv4) log h

  pub serve-Reached :
      (slots : List Slot) (request : Result Error Envelope) (out : Outcome) (log : List Entry)
      → Reached slots log
      → Reached slots (serve_entries parse_ipv4 request out log)
  serve-Reached slots (err e) out log h = h
  serve-Reached slots (ok envelope) out log h = operation-Reached slots envelope.operation out log h

module _ {M : Type 0} where
  pub slots-IsOwned :
      (system : System M) (later : List Slot) (children : List ℕ)
      → KeepsOwners system.slots later
      → IsOwned system
      → IsOwned (record system { slots = later; children = children })
  slots-IsOwned system later children keeps h = record {
    waiting =
        All-map (λ e. IsOwner system.slots e.0 e.1.secret) (λ e. IsOwner later e.0 e.1.secret)
          system.pending (λ e k. keeps e.0 e.1.secret k) h.waiting;
    reached = Reached-later system.slots later system.log keeps h.reached;
  }

  -- A slot changes, and its connection does not.
  pub same-IsOwned :
      (i : ℕ) (system : System M) (slot next : Slot) (children : List ℕ)
      → get_elem? system.slots i ≡ some slot
      → KeepsIdentity slot.connection next.connection
      → IsOwned system
      → IsOwned (record system { slots = set_at i next system.slots; children = children })
  same-IsOwned i system slot next children q keeps h =
      slots-IsOwned system (set_at i next system.slots) children
        (set_at-IsOwner i system.slots next q keeps) h

  pub give_back-IsOwned :
      (i : ℕ) (system : System M) (slot : Option Slot)
      → get_elem? system.slots i ≡ slot
      → IsOwned system
      → IsOwned (give_back i system slot)
  give_back-IsOwned i system none q h = h
  give_back-IsOwned i system (some slot) q h =
      same-IsOwned i system slot (return_permit slot) system.children q (λ c k. k) h

  pub end_child-IsOwned :
      (k : ℕ) (system : System M) (child : Option ℕ)
      → IsOwned system
      → IsOwned (end_child k system child)
  end_child-IsOwned k system none h = h
  end_child-IsOwned k system (some i) h =
      give_back-IsOwned i (record system { children = remove_at k system.children })
        (get_elem? system.slots i) refl (slots-IsOwned system system.slots _ (λ j c o. o) h)

  not_at-Waiting :
      (slots : List Slot) (i : ℕ) (pending : List (ℕ × Pending M))
      → Waiting slots pending
      → Waiting slots (not_at i pending)
  not_at-Waiting slots i [] h = tt
  not_at-Waiting slots i (e ∷ pending) (h, hs) = elim (Bool-cases (e.0 == i)) [
    | inl q ↦ rw q (not_at-Waiting slots i pending hs)
    | inr q ↦ rw q (h, not_at-Waiting slots i pending hs)
  ]

  pub close-IsOwned :
      (i : ℕ) (system : System M) (slot : Option Slot)
      → get_elem? system.slots i ≡ slot
      → IsOwned system
      → IsOwned (close_slot i system slot)
  close-IsOwned i system none q h = h
  close-IsOwned i system (some slot) q h = elim (Bool-cases slot.is_open) [
    | inl e ↦
        let later =
          same-IsOwned i system slot (record slot { is_open = false }) system.children q (λ c k. k)
            h in
        simp (e) (record {
          waiting = not_at-Waiting _ i system.pending later.waiting;
          reached = later.reached;
        })
    | inr e ↦ simp (e) h
  ]

  pub accept-IsOwned : (system : System M) → IsOwned system → IsOwned (accept_connection system)
  unfolding accept_connection
  accept-IsOwned system h =
      elim (Bool-cases (
        system.state.is_poisoned
        || (system.state.table.draining || not (ltb 0 system.state.available)))) [
          | inl e ↦ simp (e) h
          | inr e ↦
              let later =
                slots-IsOwned system (system.slots ++ new_slot ∷ []) system.children
                  (append-IsOwner system.slots new_slot) h in
              simp (e) (record { waiting = later.waiting; reached = later.reached })
        ]
