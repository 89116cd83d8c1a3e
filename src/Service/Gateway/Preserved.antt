-- ===== src/Service/Gateway/Preserved.antt =====
-- The runs of `run_network` (crates/wrix-service/src/gateway/mod.rs): the grants against the
-- private connections, and the permits against the connections of the traffic, over every sequence
-- of events.
use wrix.Common.{
  ℕ, ◌≡◌, refl, ap, subst, inl, inr, Bool, false, ◌||◌, List, [], ◌∷◌, Option, none, some, arith,
  ltb, length, get_elem?, remove_at, Bool-cases, Result, ok, err,
}
use wrix.Common.Text.{Str}
use wrix.Service.Policy.Baseline.{Address, Range}
use wrix.Service.Gateway.{Error, State, new_state, contains_secret}
use wrix.Service.Gateway.Headers.{HeaderMap}
use wrix.Service.Gateway.Traffic.{
  Request, Connection, Pending, Admission, answered, dialing, Network, admit, resume,
}
use wrix.Service.Gateway.Run.{
  Slot, System, Event, managed, heard, accepted, requested, dialled, child_ended, closed,
  poisoned_lock, step, run, start, after_admission, after_dial, end_dial, end_child, give_back,
  close_slot, admit_at, return_permit,
}
use wrix.Service.Gateway.Attached.{serve-Matches, hold_round-Matches}
use wrix.Service.Gateway.Sound.{checked-ok}
use wrix.Service.Gateway.Consistent.{
  as_number, open_count-set, IsConsistent, kept-IsConsistent, slot-IsConsistent,
  beside-IsConsistent, accept-IsConsistent,
}

give_back-IsConsistent :
    {M : Type 0} (i : ℕ) (system : System M) (slot : Option Slot)
    → get_elem? system.slots i ≡ slot
    → IsConsistent system
    → IsConsistent (give_back i system slot)
give_back-IsConsistent i system none q h = h
give_back-IsConsistent i system (some slot) q h =
    slot-IsConsistent i system slot (return_permit slot) system.pending system.children system.log q
      refl h

end_child-IsConsistent :
    {M : Type 0} (k : ℕ) (system : System M) (child : Option ℕ)
    → IsConsistent system
    → IsConsistent (end_child k system child)
end_child-IsConsistent k system none h = h
end_child-IsConsistent k system (some i) h =
    give_back-IsConsistent i (record system { children = remove_at k system.children })
      (get_elem? system.slots i) refl
      (beside-IsConsistent system system.pending (remove_at k system.children) system.log h)

close-IsConsistent :
    {M : Type 0} (i : ℕ) (system : System M) (slot : Option Slot)
    → get_elem? system.slots i ≡ slot
    → IsConsistent system
    → IsConsistent (close_slot i system slot)
close-IsConsistent i system none q h = h
close-IsConsistent i system (some slot) q h = elim (Bool-cases slot.is_open) [
  | inl e ↦
      let count = open_count-set i system.slots (record slot { is_open = false }) q in
      let was_open = ap as_number e in
      simp (e) (record {
        matched = record {
          same_keys = h.matched.same_keys;
          all_seen = h.matched.all_seen;
          bounded = h.matched.bounded;
        };
        all_permits = omega (arith, count, was_open, h.all_permits);
      })
  | inr e ↦ simp (e) h
]

after_dial-IsConsistent :
    {M : Type 0} (i : ℕ) (pending : Pending M) (system : System M) (r : Result Error Address)
    → IsConsistent system
    → IsConsistent (after_dial i pending system r)
after_dial-IsConsistent i pending system (err e) h =
    give_back-IsConsistent i system (get_elem? system.slots i) refl h
after_dial-IsConsistent i pending system (ok address) h =
    beside-IsConsistent system system.pending _ _ h

after_admission-IsConsistent :
    {M : Type 0} (i : ℕ) (slot : Slot) (system : System M)
    (r : Result Error (Admission M) × Connection)
    → get_elem? system.slots i ≡ some slot
    → IsConsistent system
    → IsConsistent (after_admission i slot system r)
after_admission-IsConsistent i slot system (err e, connection) q h =
    slot-IsConsistent i system slot (record slot { connection = connection }) system.pending
      system.children system.log q refl h
after_admission-IsConsistent i slot system (ok (answered status), connection) q h =
    slot-IsConsistent i system slot (record slot { connection = connection }) system.pending
      system.children system.log q refl h
after_admission-IsConsistent i slot system (ok (dialing pending), connection) q h =
    slot-IsConsistent i system slot (record slot { connection = connection })
      ((i, pending) ∷ system.pending) system.children system.log q refl h

module _ {M V : Type 0} (headers : HeaderMap M V) (parse_ipv4 : Str → Option ℕ) where
  end_dial-IsConsistent :
      (j : ℕ) (network : Network) (system : System M) (e : Option (ℕ × Pending M))
      → IsConsistent system
      → IsConsistent (end_dial headers parse_ipv4 j network system e)
  end_dial-IsConsistent j network system none h = h
  end_dial-IsConsistent j network system (some (i, pending)) h =
      after_dial-IsConsistent i pending (record system { pending = remove_at j system.pending })
        (resume headers network pending system.state)
        (beside-IsConsistent system (remove_at j system.pending) system.children system.log h)

  module _ (decode : Str → Option Str) (is_utf8 : Str → Bool) (key : Str) where
    admit_at-IsConsistent :
        (i : ℕ) (request : Request M) (system : System M) (slot : Option Slot)
        → get_elem? system.slots i ≡ slot
        → IsConsistent system
        → IsConsistent (admit_at headers parse_ipv4 decode is_utf8 key i request system slot)
    admit_at-IsConsistent i request system none q h = h
    admit_at-IsConsistent i request system (some slot) q h = elim (Bool-cases slot.is_open) [
      | inl e ↦ simp (e) (
          after_admission-IsConsistent i slot system
            (admit headers parse_ipv4 decode is_utf8 slot.connection request system.state) q h)
      | inr e ↦ simp (e) h
    ]

    step-IsConsistent :
        (system : System M) (event : Event M)
        → IsConsistent system
        → IsConsistent (step headers parse_ipv4 decode is_utf8 key system event)
    unfolding step
    step-IsConsistent system (managed request write) h =
        kept-IsConsistent system _ _ _ h
          (serve-Matches parse_ipv4 key request write system.state system.held h.matched)
    step-IsConsistent system (heard c input write) h =
        elim (Bool-cases (contains_secret system.held c)) [
          | inl e ↦ simp (e) (
              kept-IsConsistent system _ _ _ h
                (hold_round-Matches c input write system.state system.held h.matched))
          | inr e ↦ simp (e) h
        ]
    step-IsConsistent system accepted h = accept-IsConsistent system h
    step-IsConsistent system (requested i request) h =
        admit_at-IsConsistent i request system (get_elem? system.slots i) refl h
    step-IsConsistent system (dialled j network) h =
        end_dial-IsConsistent j network system (get_elem? system.pending j) h
    step-IsConsistent system (child_ended k) h =
        end_child-IsConsistent k system (get_elem? system.children k) h
    step-IsConsistent system (closed i) h =
        close-IsConsistent i system (get_elem? system.slots i) refl h
    step-IsConsistent system poisoned_lock h = record {
      matched = record {
        same_keys = h.matched.same_keys;
        all_seen = h.matched.all_seen;
        bounded = h.matched.bounded;
      };
      all_permits = h.all_permits;
    }

    stays-IsConsistent :
        (events : List (Event M)) (system : System M)
        → IsConsistent system
        → IsConsistent (run headers parse_ipv4 decode is_utf8 key events system)
    unfolding run
    stays-IsConsistent [] system h = h
    stays-IsConsistent (event ∷ events) system h =
        stays-IsConsistent events (step headers parse_ipv4 decode is_utf8 key system event)
          (step-IsConsistent system event h)

    -- Whatever the order of the private requests, the requests, the dials and the ends of
    -- connections, and whatever the environment answers: the gateway has a grant for a credential
    -- exactly when a private connection still holds its attachment, each of these was seen, at most
    -- 65536 were ever seen, and the permits that are left and the open connections are together the
    -- capacity.
    pub run-IsConsistent :
        (capacity : ℕ) (protected : List Address) (baseline : List Range) (state : State)
        (events : List (Event M))
        → new_state capacity protected baseline ≡ ok state
        → IsConsistent (run headers parse_ipv4 decode is_utf8 key events (start state))
    unfolding new_state
    run-IsConsistent capacity protected baseline state events h =
        let made = checked-ok (ltb 4096 capacity || ltb 4096 (length protected)) _ h in
        stays-IsConsistent events (start state) (
          subst (λ s. IsConsistent (start {M = M} s)) made
            (record {
              matched = record {
                same_keys = λ c. refl;
                all_seen = λ c k. cc;
                bounded = omega arith;
              };
              all_permits = omega arith;
            }))
