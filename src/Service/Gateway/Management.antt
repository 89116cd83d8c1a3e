-- ===== src/Service/Gateway/Management.antt =====
-- crates/wrix-service/src/gateway/management/mod.rs: the private protocol, from an envelope that
-- was read. The attachment lasts for the connection, whose reads are given one at a time; what a
-- write comes to is an argument. A connection is its credential, since no credential is attached
-- twice.
use wrix.Common.{
  ℕ, ◌-◌, Bool, true, false, not, ◌||◌, List, [], ◌∷◌, Option, none, some, ◌==◌, if◌then◌else◌,
  length, Result, ok, err, ◌>>=◌, ◌>>◌,
}
use wrix.Common.Text.{Str, codes}
use wrix.Service.Policy
use wrix.Service.Policy.{Rule, Host, parse_host, new_rule, new_policy}
use wrix.Service.Gateway.{
  Error, io, invalid_protocol, denied, poisoned, matches, State, attach, activate, revoke,
}

abbrev pub version : ℕ
version = 1

pub data Operation : Type 0 where
  status_operation : Operation
  drain_operation : Bool → Operation
  attach_operation : Str → List Rule → Operation
  prepare_operation : Str → List Rule → Operation
  probe_operation : Str → Operation

pub record Envelope : Type 0 where
  pub envelope_version : ℕ
  pub key : Str
  pub operation : Operation

pub record Status : Type 0 where
  pub status_version : ℕ
  pub is_draining : Bool
  pub connections : ℕ
  pub grant_count : ℕ

pub data Reply : Type 0 where
  status_reply : Status → Reply
  attached_reply : Reply
  activated_reply : Reply
  detached_reply : Reply
  denied_reply : Reply

-- `State::status`.
unfoldable pub gateway_status : State → Result Error Status
gateway_status state =
    if state.is_poisoned
    then err poisoned
    else ok (record {
      status_version = version;
      is_draining = state.table.draining;
      connections = state.capacity - state.available;
      grant_count = length state.table.grants;
    })

-- The private connection still holds an attachment, or its task has ended.
pub data Progress : Type 0 where
  holding : Str → Progress
  ended : Result Error (Unit {0}) → Progress

-- The reply that was written, or whose write failed.
pub record Outcome : Type 0 where
  pub reply : Option Reply
  pub progress : Progress
  pub after : State

abbrev pub outcome : Option Reply → Progress → State → Outcome
outcome reply progress after = record { reply = reply; progress = progress; after = after }

abbrev pub write_status : Result Error (Unit {0}) → State → Result Error Status → Outcome
write_status write state (err e) = outcome none (ended (err e)) state
write_status write state (ok status) = outcome (some (status_reply status)) (ended write) state

-- A write of `hold`, which drops the revoker when it fails.
abbrev pub write_held : Reply → Str → State → Result Error (Unit {0}) → Outcome
write_held reply credential state (err e) =
    outcome (some reply) (ended (err e)) (revoke credential state)
write_held reply credential state (ok done) = outcome (some reply) (holding credential) state

-- The start of `hold`, after an attachment.
abbrev pub start_hold : Str → Result Error (Unit {0}) → State → Result Error State → Outcome
start_hold credential write state (err e) = outcome none (ended (err e)) state
start_hold credential write state (ok attached) =
    write_held attached_reply credential attached write

abbrev pub host_error {ℓ} : {A : Type ℓ} → Result Policy.Error A → Result Error A
host_error (ok a) = ok a
host_error (err e) = err invalid_protocol

abbrev pub closed_table : Bool → State → State
closed_table closed state = record state { table = record state.table { draining = closed } }

-- What `read` of one byte gives.
pub data Read : Type 0 where
  failed_read : Read
  end_of_stream : Read
  byte : ℕ → Read

-- The answer to a byte 1.
abbrev pub activated : Str → Result Error (Unit {0}) → State → Result Error State → Outcome
activated credential write state (err e) = outcome none (ended (err e)) (revoke credential state)
activated credential write state (ok active) = write_held activated_reply credential active write

-- A round of `hold`.
unfoldable pub hold_round : Str → Read → Result Error (Unit {0}) → State → Outcome
hold_round credential failed_read write state =
    outcome none (ended (err io)) (revoke credential state)
hold_round credential end_of_stream write state =
    outcome none (ended (ok tt)) (revoke credential state)
hold_round credential (byte b) write state =
    if b == 0
    then outcome (some detached_reply) (ended write) (revoke credential state)
    else if b == 1
    then activated credential write state (activate credential state)
    else outcome none (ended (err invalid_protocol)) (revoke credential state)

module _ (parse_ipv4 : Str → Option ℕ) where
  -- `probe_policy`.
  unfoldable pub probe_policy : Result Error (List Rule)
  unfolding parse_host new_rule new_policy
  probe_policy = do
    host ← host_error (parse_host parse_ipv4 (codes "probe.wrix.invalid"))
    rule ← host_error (new_rule host (80 ∷ []))
    host_error (new_policy (rule ∷ []))

  abbrev pub attach_probe :
      Str → Result Error (Unit {0}) → State → Result Error (List Rule) → Outcome
  attach_probe credential write state (err e) = outcome none (ended (err e)) state
  attach_probe credential write state (ok policy) =
      start_hold credential write state (attach credential policy true true state)

  -- The operations of `serve`.
  unfoldable pub operate : Operation → Result Error (Unit {0}) → State → Outcome
  unfolding probe_policy gateway_status
  operate status_operation write state = write_status write state (gateway_status state)
  operate (drain_operation closed) write state =
      if state.is_poisoned
      then outcome none (ended (err poisoned)) state
      else write_status write (closed_table closed state)
          (gateway_status (closed_table closed state))
  operate (attach_operation credential policy) write state =
      start_hold credential write state (attach credential policy false true state)
  operate (prepare_operation credential policy) write state =
      start_hold credential write state (attach credential policy false false state)
  operate (probe_operation credential) write state =
      attach_probe credential write state probe_policy

  -- `serve`, until the first reply.
  unfoldable pub serve : Str → Result Error Envelope → Result Error (Unit {0}) → State → Outcome
  unfolding operate matches
  serve key (err e) write state = outcome none (ended (err e)) state
  serve key (ok envelope) write state =
      if not (envelope.envelope_version == version) || not (matches key envelope.key)
      then outcome (some denied_reply) (ended (write >> err denied)) state
      else operate envelope.operation write state
