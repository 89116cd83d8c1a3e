-- ===== src/Service/Gateway/Run/History.antt =====
-- The history of a run of the gateway (crates/wrix-service/src/gateway/mod.rs): what each private
-- request and each byte of an attachment's connection enters.
use wrix.Common.{
  ℕ, Bool, true, false, List, [], ◌∷◌, Option, none, some, if◌then◌else◌, Result, ok, err,
}
use wrix.Common.Text.{Str, str_eq}
use wrix.Service.Policy.{Host, Rule}
use wrix.Service.Policy.Baseline.{Address}
use wrix.Service.Gateway.{Error}
use wrix.Service.Gateway.Management.{
  Operation, status_operation, drain_operation, attach_operation, prepare_operation,
  probe_operation, Envelope, Reply, status_reply, attached_reply, activated_reply, detached_reply,
  denied_reply, Progress, holding, ended, Outcome, probe_policy,
}

pub data Entry : Type 0 where
  attached_entry : Str → List Rule → Entry
  activated_entry : Str → Entry
  revoked_entry : Str → Entry
  -- The number of the connection, the credential, the destination, and the address.
  connected_entry : ℕ → Str → Host → ℕ → Address → Entry

abbrev pub remove_secret : Str → List Str → List Str
remove_secret secret [] = []
remove_secret secret (s ∷ held) =
    let rest = remove_secret secret held in if str_eq s secret then rest else s ∷ rest

abbrev pub is_attached : Option Reply → Bool
is_attached none = false
is_attached (some (status_reply status)) = false
is_attached (some attached_reply) = true
is_attached (some activated_reply) = false
is_attached (some detached_reply) = false
is_attached (some denied_reply) = false

abbrev pub is_activated : Option Reply → Bool
is_activated none = false
is_activated (some (status_reply status)) = false
is_activated (some attached_reply) = false
is_activated (some activated_reply) = true
is_activated (some detached_reply) = false
is_activated (some denied_reply) = false

-- The entry of a revoker that was dropped.
abbrev pub dropped : Str → Progress → List Entry → List Entry
dropped credential (holding held) log = log
dropped credential (ended result) log = revoked_entry credential ∷ log

abbrev pub attachment : Str → List Rule → Bool → Outcome → List Entry → List Entry
attachment credential policy active outcome log =
    if is_attached outcome.reply
    then dropped credential outcome.progress (
        if active
        then activated_entry credential ∷ attached_entry credential policy ∷ log
        else attached_entry credential policy ∷ log)
    else log

abbrev pub held_after : Progress → List Str → List Str
held_after (holding credential) held = credential ∷ held
held_after (ended result) held = held

abbrev pub held_on : Str → Progress → List Str → List Str
held_on credential (holding same) held = held
held_on credential (ended result) held = remove_secret credential held

abbrev pub hold_entries : Str → Outcome → List Entry → List Entry
hold_entries credential outcome log =
    dropped credential outcome.progress
      (if is_activated outcome.reply then activated_entry credential ∷ log else log)

abbrev pub policy_entries : Str → Outcome → Result Error (List Rule) → List Entry → List Entry
policy_entries credential outcome (err e) log = log
policy_entries credential outcome (ok policy) log = attachment credential policy true outcome log

module _ (parse_ipv4 : Str → Option ℕ) where
  abbrev pub operation_entries : Operation → Outcome → List Entry → List Entry
  operation_entries status_operation outcome log = log
  operation_entries (drain_operation draining) outcome log = log
  operation_entries (attach_operation credential policy) outcome log =
      attachment credential policy true outcome log
  operation_entries (prepare_operation credential policy) outcome log =
      attachment credential policy false outcome log
  operation_entries (probe_operation credential) outcome log =
      policy_entries credential outcome (probe_policy parse_ipv4) log

  abbrev pub serve_entries : Result Error Envelope → Outcome → List Entry → List Entry
  serve_entries (err e) outcome log = log
  serve_entries (ok envelope) outcome log = operation_entries envelope.operation outcome log
