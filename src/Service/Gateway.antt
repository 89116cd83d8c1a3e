-- ===== src/Service/Gateway.antt =====
-- crates/wrix-service/src/gateway/mod.rs: the secrets, and the table of grants. A watch channel is
-- a number, and `cancelled` lists those that `true` was sent to: a grant that is cloned keeps the
-- number. A revoker is its credential. A panic under the table's lock poisons it, which is an event
-- of its own; the randomness of a secret is an argument.
pub mod Management
pub mod Headers
pub mod ListHeaders
pub mod Traffic
pub mod Run
pub mod Authorized
pub mod Changes
pub mod Revoked
pub mod Activated
pub mod Admitted
pub mod Dialled
pub mod Held
pub mod Served
pub mod Sound
pub mod Hop
pub mod Secrets
pub mod Matched
pub mod Attached
pub mod Consistent
pub mod Preserved
pub mod Identity
pub mod Owners
pub mod Reached
mod Tests
pub mod Safety
use Prim.Native.Nat.{bit_or, bit_xor}
use wrix.Common.{
  ℕ, zero, suc, ◌-◌, ◌/◌, ◌%◌, Bool, true, false, not, ◌&&◌, ◌||◌, List, [], ◌∷◌, ◌++◌, Option,
  none, some, ◌==◌, ltb, leb, if◌then◌else◌, length, all, any, Result, ok, err,
}
use wrix.Common.Text.{Str, str_eq}
use wrix.Common.Maps.{lookup, insert_key, remove_key}
use wrix.Core.Workspace.{is_lower_hex_digit, push_hex_bytes}
use wrix.Service.Policy.{Rule}
use wrix.Service.Policy.Baseline.{Address, Range}

-- The errors of the system and of JSON stand for themselves.
pub data Error : Type 0 where
  io : Error
  invalid_protocol : Error
  denied : Error
  protected_destination : Error
  exhausted : Error
  poisoned : Error
  json : Error

-- `Secret::generate`, from 32 bytes: the digits of each, the high one first.
unfoldable pub generate : List ℕ → Str
unfolding push_hex_bytes
generate bytes = push_hex_bytes [] bytes

-- `fold` over the zipped bytes.
abbrev pub fold_diff : ℕ → Str → Str → ℕ
fold_diff diff [] other = diff
fold_diff diff (a ∷ s) [] = diff
fold_diff diff (a ∷ s) (b ∷ t) = fold_diff (bit_or diff (bit_xor a b)) s t

-- `Secret::matches`.
unfoldable pub matches : Str → Str → Bool
matches secret other = fold_diff 0 secret other == 0

-- `TryFrom<String> for Secret`.
unfoldable pub try_from : Str → Result Error Str
unfolding is_lower_hex_digit
try_from value =
    if not (length value == 64) || not (all is_lower_hex_digit value)
    then err invalid_protocol
    else ok value

pub record Grant : Type 0 where
  pub policy : List Rule
  pub cancel : ℕ
  pub probe : Bool
  pub active : Bool

pub record Table : Type 0 where
  pub grants : List (Str × Grant)
  pub seen : List Str
  pub draining : Bool

-- `State`, with the poison of the table's lock. The network is the environment's.
pub record State : Type 0 where
  pub table : Table
  pub is_poisoned : Bool
  pub next_channel : ℕ
  pub cancelled : List ℕ
  pub available : ℕ
  pub capacity : ℕ
  pub protected : List Address
  pub baseline : List Range

abbrev pub contains_secret : List Str → Str → Bool
contains_secret [] secret = false
contains_secret (s ∷ seen) secret = str_eq s secret || contains_secret seen secret

-- `HashSet::insert`.
abbrev pub insert_secret : Str → List Str → List Str
insert_secret secret seen = if contains_secret seen secret then seen else secret ∷ seen

abbrev pub max_seen : ℕ
max_seen = 65536

abbrev pub new_grant : List Rule → ℕ → Bool → Bool → Grant
new_grant policy cancel probe active = record {
  policy = policy;
  cancel = cancel;
  probe = probe;
  active = active;
}

-- The insertions of `attach`.
unfoldable pub attached_state : Str → List Rule → Bool → Bool → State → State
attached_state credential policy probe active state = record state {
  table = record state.table {
    seen = insert_secret credential state.table.seen;
    grants =
        insert_key credential (new_grant policy state.next_channel probe active) state.table.grants;
  };
  next_channel = suc state.next_channel;
}

-- `State::attach`; the revoker that it returns is the credential.
unfoldable pub attach : Str → List Rule → Bool → Bool → State → Result Error State
unfolding attached_state
attach credential policy probe active state =
    if state.is_poisoned
    then err poisoned
    else if state.table.draining || contains_secret state.table.seen credential
    then err denied
    else if leb max_seen (length state.table.seen)
    then err exhausted
    else ok (attached_state credential policy probe active state)

abbrev pub active_grant : Option Grant → Result Error Grant
active_grant none = err denied
active_grant (some grant) = if grant.active then ok grant else err denied

-- `State::grant`.
unfoldable pub find_grant : Str → State → Result Error Grant
find_grant credential state =
    if state.is_poisoned then err poisoned else active_grant (lookup state.table.grants credential)

-- `send_replace(true)`, and what a channel holds.
abbrev pub send_cancel : ℕ → State → State
send_cancel channel state = record state { cancelled = channel ∷ state.cancelled }

abbrev pub is_cancelled : State → ℕ → Bool
is_cancelled state channel = any (λ c. c == channel) state.cancelled

abbrev pub with_grants : List (Str × Grant) → State → State
with_grants grants state = record state { table = record state.table { grants = grants } }

abbrev pub activate_grant : Str → State → Option Grant → Result Error State
activate_grant credential state none = err denied
activate_grant credential state (some grant) =
    if is_cancelled state grant.cancel
    then err denied
    else ok (
        with_grants (insert_key credential (record grant { active = true }) state.table.grants)
          state)

-- `Revoker::activate`.
unfoldable pub activate : Str → State → Result Error State
activate credential state =
    if state.is_poisoned
    then err poisoned
    else activate_grant credential state (lookup state.table.grants credential)

abbrev pub revoke_grant : Str → State → Option Grant → State
revoke_grant credential state none = state
revoke_grant credential state (some grant) =
    send_cancel grant.cancel (with_grants (remove_key credential state.table.grants) state)

-- `Drop for Revoker`, the same on a poisoned lock.
unfoldable pub revoke : Str → State → State
revoke credential state = revoke_grant credential state (lookup state.table.grants credential)

-- The table of `run_network`, whose limits are checked first.
unfoldable pub new_state : ℕ → List Address → List Range → Result Error State
new_state capacity protected baseline =
    if ltb 4096 capacity || ltb 4096 (length protected)
    then err exhausted
    else ok (record {
      table = record { grants = []; seen = []; draining = false };
      is_poisoned = false;
      next_channel = 0;
      cancelled = [];
      available = capacity;
      capacity = capacity;
      protected = protected;
      baseline = baseline;
    })
