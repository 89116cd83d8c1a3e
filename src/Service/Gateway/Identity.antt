-- ===== src/Service/Gateway/Identity.antt =====
-- The identity of a connection (`admit` of crates/wrix-service/src/gateway/traffic/mod.rs): what
-- its requests reach is reached with one credential.
use wrix.Common.{
  ℕ, zero, suc, ◌≡◌, refl, sym, ap, subst, ◌∙◌, Bool, false, List, [], ◌∷◌, ◌++◌, Option, none,
  some, get_elem?, set_at, not-false, Result, ok, err,
}
use wrix.Common.Text.{Str, str_eq, str_eq_iff}
use wrix.Service.Gateway.{Error, Grant, State}
use wrix.Service.Gateway.Headers.{HeaderMap}
use wrix.Service.Gateway.Traffic.{
  Request, Connection, Pending, Admission, answered, dialing, admit, admit_identified, authorize,
  identify, bind_identity, take_permit, is_another,
}
use wrix.Service.Gateway.Run.{Slot}
use wrix.Service.Gateway.Admitted.{identify-found, authorize-dialing}

-- The connection at a place has the credential for its identity.
abbrev pub IsOwner : List Slot → ℕ → Str → Type 0
IsOwner [] i c = ⊥
IsOwner (slot ∷ slots) zero c = slot.connection.identity ≡ some c
IsOwner (slot ∷ slots) (suc i) c = IsOwner slots i c

-- A connection has one identity.
pub IsOwner-unique :
    (slots : List Slot) (i : ℕ) (c d : Str) → IsOwner slots i c → IsOwner slots i d → c ≡ d
IsOwner-unique [] i c d h k = absurd h
IsOwner-unique (slot ∷ slots) zero c d h k = cc
IsOwner-unique (slot ∷ slots) (suc i) c d h k = IsOwner-unique slots i c d h k

-- Of two connections, the later keeps the identity of the earlier.
abbrev pub KeepsIdentity : Connection → Connection → Type 0
KeepsIdentity before after = (c : Str) → before.identity ≡ some c → after.identity ≡ some c

pub append-IsOwner :
    (slots : List Slot) (next : Slot) (i : ℕ) (c : Str)
    → IsOwner slots i c
    → IsOwner (slots ++ next ∷ []) i c
append-IsOwner [] next i c h = absurd h
append-IsOwner (slot ∷ slots) next zero c h = h
append-IsOwner (slot ∷ slots) next (suc i) c h = append-IsOwner slots next i c h

pub set_at-IsOwner :
    (i : ℕ) (slots : List Slot) {slot : Slot} (next : Slot)
    → get_elem? slots i ≡ some slot
    → KeepsIdentity slot.connection next.connection
    → (j : ℕ) (c : Str) → IsOwner slots j c
    → IsOwner (set_at i next slots) j c
set_at-IsOwner i [] next q keeps j c h = absurd h
set_at-IsOwner zero (s ∷ slots) {slot} next q keeps zero c h =
    let same : s ≡ slot = cc in keeps c (subst (λ x. x.connection.identity ≡ some c) same h)
set_at-IsOwner zero (s ∷ slots) next q keeps (suc j) c h = h
set_at-IsOwner (suc i) (s ∷ slots) next q keeps zero c h = h
set_at-IsOwner (suc i) (s ∷ slots) next q keeps (suc j) c h =
    set_at-IsOwner i slots next q keeps j c h

pub replaced-IsOwner :
    (i : ℕ) (slots : List Slot) {slot : Slot} (next : Slot) (c : Str)
    → get_elem? slots i ≡ some slot
    → next.connection.identity ≡ some c
    → IsOwner (set_at i next slots) i c
replaced-IsOwner i [] next c q h = cc
replaced-IsOwner zero (s ∷ slots) next c q h = h
replaced-IsOwner (suc i) (s ∷ slots) next c q h = replaced-IsOwner i slots next c q h

bound-identity :
    (secret : Str) (identity : Option Str) (requests : ℕ)
    → is_another secret identity ≡ false
    → (bind_identity secret (record { identity = identity; requests = requests })).identity
      ≡ some secret
bound-identity secret none requests h = refl
bound-identity secret (some old) requests h =
    ap some ((str_eq_iff old secret).0 (not-false (str_eq old secret) h))

bind-KeepsIdentity :
    (secret : Str) (identity : Option Str) (requests : ℕ)
    → KeepsIdentity
        (record { identity = identity; requests = requests })
        (bind_identity secret (record { identity = identity; requests = requests }))
bind-KeepsIdentity secret none requests c h = cc
bind-KeepsIdentity secret (some old) requests c h = h

module _ {M V : Type 0} (headers : HeaderMap M V) (parse_ipv4 : Str → Option ℕ)
    (decode : Str → Option Str) (is_utf8 : Str → Bool) where
  permit-identity :
      (r : Result Error (Admission M)) (connection : Connection)
      → (take_permit headers parse_ipv4 decode is_utf8 r connection).identity ≡ connection.identity
  permit-identity (err e) connection = refl
  permit-identity (ok (answered status)) connection = refl
  permit-identity (ok (dialing pending)) connection = refl

  identified-KeepsIdentity :
      (connection : Connection) (request : Request M) (s : State) (r : Result Error (Str × Grant))
      → KeepsIdentity connection
          (admit_identified headers parse_ipv4 decode is_utf8 connection request s r).1
  identified-KeepsIdentity connection request s (err e) c h = h
  identified-KeepsIdentity connection request s (ok (secret, grant)) c h =
      permit-identity (authorize headers parse_ipv4 secret grant connection.requests request s)
        (bind_identity secret connection)
      ∙ bind-KeepsIdentity secret connection.identity connection.requests c h

  pub admit-KeepsIdentity :
      (connection : Connection) (request : Request M) (s : State)
      → KeepsIdentity connection (admit headers parse_ipv4 decode is_utf8 connection request s).1
  unfolding admit
  admit-KeepsIdentity connection request s =
      identified-KeepsIdentity connection request s
        (identify headers parse_ipv4 decode is_utf8 connection request s)

  identified-owner :
      (connection : Connection) (request : Request M) (s : State) (r : Result Error (Str × Grant))
      {pending : Pending M} {after : Connection}
      → identify headers parse_ipv4 decode is_utf8 connection request s ≡ r
      → ◌≡◌ {A = Result Error (Admission M) × Connection}
          (admit_identified headers parse_ipv4 decode is_utf8 connection request s r)
          (ok (dialing pending), after)
      → after.identity ≡ some pending.secret
  identified-owner connection request s (err e) q h = absurd cc
  identified-owner connection request s (ok (secret, grant)) {pending} {after} q h =
      let (found, active, own) =
        identify-found headers parse_ipv4 decode is_utf8 connection request s q in
      let admission = authorize headers parse_ipv4 secret grant connection.requests request s in
      let dials : admission ≡ ok (dialing pending) = ap (λ x. x.0) h in
      let (name, equal, permitted) =
        authorize-dialing headers parse_ipv4 secret grant connection.requests request s dials in
      ap (λ x. x.1.identity) (sym h)
      ∙ permit-identity admission (bind_identity secret connection)
      ∙ bound-identity secret connection.identity connection.requests own
      ∙ ap some (sym name)

  pub admit-owner :
      (connection : Connection) (request : Request M) (s : State) {pending : Pending M}
      {after : Connection}
      → ◌≡◌ {A = Result Error (Admission M) × Connection}
          (admit headers parse_ipv4 decode is_utf8 connection request s)
          (ok (dialing pending), after)
      → after.identity ≡ some pending.secret
  unfolding admit
  admit-owner connection request s h =
      identified-owner connection request s
        (identify headers parse_ipv4 decode is_utf8 connection request s) refl h
