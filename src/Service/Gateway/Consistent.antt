-- ===== src/Service/Gateway/Consistent.antt =====
-- The runs of `run_network` (crates/wrix-service/src/gateway/mod.rs): the grants against the
-- private connections, and the permits against the connections of the traffic.
use wrix.Common.{
  ℕ, zero, suc, ◌+◌, ◌≡◌, sym, ap, subst, ◌∙◌, inl, inr, Bool, true, false, not, ◌||◌, List, [],
  ◌∷◌, ◌++◌, some, arith, ltb, ltb→lt, get_elem?, set_at, Bool-cases, or-cases, not-false,
}
use wrix.Common.Text.{Str}
use wrix.Service.Gateway.{State}
use wrix.Service.Gateway.Traffic.{Pending}
use wrix.Service.Gateway.Run.{Entry, Slot, new_slot, System, accept_connection}
use wrix.Service.Gateway.Matched.{IsMatched, Matches}

abbrev pub as_number : Bool → ℕ
as_number true = 1
as_number false = 0

-- How many of the connections are open.
abbrev pub open_count : List Slot → ℕ
open_count [] = 0
open_count (slot ∷ slots) = as_number slot.is_open + open_count slots

open_count-append :
    (slots : List Slot) (slot : Slot)
    → open_count (slots ++ slot ∷ []) ≡ open_count slots + as_number slot.is_open
open_count-append [] slot = omega arith
open_count-append (s ∷ slots) slot = omega (arith, open_count-append slots slot)

pub open_count-set :
    (i : ℕ) (slots : List Slot) {slot : Slot} (next : Slot)
    → get_elem? slots i ≡ some slot
    → open_count (set_at i next slots) + as_number slot.is_open
      ≡ open_count slots + as_number next.is_open
open_count-set i [] next h = cc
open_count-set zero (s ∷ slots) {slot} next h =
    let same : s ≡ slot = cc in
    subst
      (λ x.
        (as_number next.is_open + open_count slots) + as_number x.is_open
        ≡ (as_number s.is_open + open_count slots) + as_number next.is_open)
      same (omega arith)
open_count-set (suc i) (s ∷ slots) next h = omega (arith, open_count-set i slots next h)

-- The gateway's grants are those of the private connections that hold an attachment, at most 65536
-- credentials were ever seen, and each open connection of the traffic has a permit.
pub record IsConsistent {M : Type 0} (system : System M) : Type 0 where
  pub matched : IsMatched system.state system.held
  pub all_permits : system.state.available + open_count system.slots ≡ system.state.capacity

pub kept-IsConsistent :
    {M : Type 0} (system : System M) (t : State) (held : List Str) (log : List Entry)
    → IsConsistent system
    → Matches system.state t held
    → IsConsistent (record system { state = t; held = held; log = log })
kept-IsConsistent system t held log h k = record {
  matched = k.matched;
  all_permits =
      ap (λ n. n + open_count system.slots) k.same_available ∙ h.all_permits ∙ sym k.same_capacity;
}

-- A connection's slot is replaced by one that is as open.
pub slot-IsConsistent :
    {M : Type 0} (i : ℕ) (system : System M) (slot : Slot) (next : Slot)
    (pending : List (ℕ × Pending M)) (children : List ℕ) (log : List Entry)
    → get_elem? system.slots i ≡ some slot
    → next.is_open ≡ slot.is_open
    → IsConsistent system
    → IsConsistent (record system {
      slots = set_at i next system.slots;
      pending = pending;
      children = children;
      log = log;
    })
slot-IsConsistent i system slot next pending children log q e h = record {
  matched = h.matched;
  all_permits =
      let count = open_count-set i system.slots next q in
      let same = ap as_number e in omega (arith, count, same, h.all_permits);
}

pub beside-IsConsistent :
    {M : Type 0} (system : System M) (pending : List (ℕ × Pending M)) (children : List ℕ)
    (log : List Entry)
    → IsConsistent system
    → IsConsistent (record system { pending = pending; children = children; log = log })
beside-IsConsistent system pending children log h = record {
  matched = h.matched;
  all_permits = h.all_permits;
}

pub accept-IsConsistent :
    {M : Type 0} (system : System M) → IsConsistent system → IsConsistent (accept_connection system)
unfolding accept_connection
accept-IsConsistent system h =
    elim (Bool-cases (
      system.state.is_poisoned
      || (system.state.table.draining || not (ltb 0 system.state.available)))) [
        | inl e ↦ simp (e) h
        | inr e ↦
            let room = ltb→lt 0 system.state.available (
              not-false (ltb 0 system.state.available)
                (or-cases system.state.table.draining _
                  (or-cases system.state.is_poisoned _ e).1).1) in
            simp (e) (record {
              matched = record {
                same_keys = h.matched.same_keys;
                all_seen = h.matched.all_seen;
                bounded = h.matched.bounded;
              };
              all_permits =
                  omega (arith, open_count-append system.slots new_slot, h.all_permits, room);
            })
      ]
