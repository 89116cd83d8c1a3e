-- ===== src/Service/Gateway/Tests.antt =====
-- A gateway on lists of headers: an attachment, a connection through it, and its end.
use wrix.Common.{
  ℕ, ◌≡◌, ◌↔◌, refl, sym, subst, inl, inr, Bool, true, false, ◌||◌, List, [], ◌∷◌, ◌++◌, Option,
  none, some, arith, if◌then◌else◌, IsIn, ok,
}
use wrix.Common.Text.{Str, codes}
use wrix.Core.Workspace
use wrix.Core.Workspace.Hash.{AllBytes}
use wrix.Service.Policy
use wrix.Service.Policy.{Host, Rule}
use wrix.Service.Policy.Baseline
use wrix.Service.Policy.Baseline.{Address, v4, Range}
use wrix.Service.Gateway
use wrix.Service.Gateway.{Error, State, new_state, matches, try_from, generate}
use wrix.Service.Gateway.Management
use wrix.Service.Gateway.Management.{
  Operation, drain_operation, attach_operation, prepare_operation, Envelope, byte, Read,
}
use wrix.Service.Gateway.Headers
use wrix.Service.Gateway.Headers.{
  HeaderMap, HeaderLaws, IsLower, hop_names, framing_names, strip_hop, option_names, credential,
}
use wrix.Service.Gateway.ListHeaders.{Pairs, values_of, list_headers, list_laws}
use wrix.Service.Gateway.Traffic
use wrix.Service.Gateway.Traffic.{Uri, Request, Network}
use wrix.Service.Gateway.Run
use wrix.Service.Gateway.Run.{
  Event, managed, heard, accepted, requested, dialled, connected_entry, attached_entry,
  activated_entry, revoked_entry, Entry, run, start, System,
}
use wrix.Service.Gateway.Authorized.{IsAuthorized}
use wrix.Service.Gateway.Safety.{run-IsAuthorized}
use wrix.Service.Gateway.Consistent.{IsConsistent}
use wrix.Service.Gateway.Preserved.{run-IsConsistent}
use wrix.Service.Gateway.Reached.{run-one_owner}
use wrix.Service.Gateway.Hop.{strip_hop-get_all}
use wrix.Service.Gateway.Secrets.{matches_iff, credential-generate}

abbrev secret : Str
secret = codes "0123456789abcdef0123456789abcdef0123456789abcdef0123456789abcdef"

abbrev gateway_key : Str
gateway_key = codes "ffffffffffffffffffffffffffffffffffffffffffffffffffffffffffffffff"

abbrev example_host : Host
example_host = record { text = codes "example.com" }

abbrev policy : List Rule
policy = record { host = example_host; ports = 443 ∷ [] } ∷ []

abbrev no_ipv4 : Str → Option ℕ
no_ipv4 text = none

abbrev no_base64 : Str → Option Str
no_base64 text = none

abbrev always : Str → Bool
always text = true

-- 10.0.0.0/8, and a service's own address.
abbrev ranges : List Range
ranges = record { network = 167772160; mask = 4278190080 } ∷ []

abbrev own_address : Address
own_address = v4 3232235777 8080

abbrev upstream : Address
upstream = v4 1572395042 443

abbrev gateway : State
gateway = record {
  table = record { grants = []; seen = []; draining = false };
  is_poisoned = false;
  next_channel = 0;
  cancelled = [];
  available = 4;
  capacity = 4;
  protected = own_address ∷ [];
  baseline = ranges;
}

made : new_state 4 (own_address ∷ []) ranges ≡ ok gateway
unfolding new_state
made = refl

abbrev request : Request Pairs
request = record {
  is_connect = true;
  is_get = false;
  uri = record {
    has_userinfo = false;
    has_fragment = false;
    scheme = none;
    host = some (codes "Example.com");
    port = some 443;
    path = none;
    query = none;
    path_or_root = codes "/";
  };
  headers =
      (codes "host", codes "example.com:443")
      ∷ (codes "proxy-authorization", codes "Bearer " ++ secret)
      ∷ [];
}

abbrev envelope : Operation → Envelope
envelope operation = record { envelope_version = 1; key = gateway_key; operation = operation }

abbrev network : Network
network = record { resolve = λ host port. ok (upstream ∷ []); connect = λ address. ok tt }

-- The preparation and its activation, a connection with two requests, the end of the attachment,
-- and a dial that ended too late.
abbrev events : List (Event Pairs)
events =
    managed (ok (envelope (prepare_operation secret policy))) (ok tt)
    ∷ accepted
    ∷ requested 0 request
    ∷ heard secret (byte 1) (ok tt)
    ∷ requested 0 request
    ∷ requested 0 request
    ∷ dialled 0 network
    ∷ heard secret (byte 0) (ok tt)
    ∷ dialled 0 network
    ∷ managed (ok (envelope (attach_operation secret policy))) (ok tt)
    ∷ []

abbrev after_run : System Pairs
after_run = run list_headers no_ipv4 no_base64 always gateway_key events (start gateway)

-- Only the dial that ended before the revocation made a connection.
history :
    after_run.log
    ≡ revoked_entry secret
      ∷ connected_entry 0 secret example_host 443 upstream
      ∷ activated_entry secret
      ∷ attached_entry secret policy
      ∷ []
unfolding run Run.step Run.accept_connection Management.serve Management.operate
    Management.hold_round Traffic.admit Traffic.resume Traffic.identify Traffic.authorize
    Traffic.destination Traffic.forwarded_headers Traffic.uri_port Traffic.host_port
    Traffic.is_framed_wrong Traffic.dial Traffic.is_refused Traffic.parse_port Gateway.attach
    Gateway.attached_state Gateway.activate Gateway.revoke Gateway.find_grant Gateway.try_from
    Gateway.matches Headers.credential Headers.strip_hop Policy.parse_host Policy.parse_lowercase
    Policy.to_lowercase Policy.is_bad_host Policy.is_bad_label Policy.is_label_byte Policy.is_digit
    Policy.is_numeric Policy.permits Policy.rule_permits Baseline.baseline_permits Baseline.in_range
    Workspace.is_lower_hex_digit
history = refl

run-IsAuthorized_example : IsAuthorized ranges (own_address ∷ []) after_run.log
run-IsAuthorized_example =
    run-IsAuthorized ranges (own_address ∷ []) list_headers no_ipv4 no_base64 always gateway_key 4
      gateway events made

run-IsConsistent_example : IsConsistent after_run
run-IsConsistent_example =
    run-IsConsistent list_headers no_ipv4 no_base64 always gateway_key 4 (own_address ∷ []) ranges
      gateway events made

-- The entry of the run's connection.
once : IsIn (connected_entry 0 secret example_host 443 upstream) after_run.log
once =
    subst (IsIn (connected_entry 0 secret example_host 443 upstream)) (sym history) (inr (inl refl))

run-one_owner_example : secret ≡ secret
run-one_owner_example =
    run-one_owner list_headers no_ipv4 no_base64 always gateway_key gateway events 0 secret secret
      example_host example_host 443 443 upstream upstream once once

abbrev hop_headers : Pairs
hop_headers =
    (codes "connection", codes "close, X-Trace")
    ∷ (codes "x-trace", codes "1")
    ∷ (codes "te", codes "trailers")
    ∷ (codes "accept", codes "*/*")
    ∷ (codes "content-length", codes "0")
    ∷ []

abbrev kept_headers : Pairs
kept_headers = (codes "accept", codes "*/*") ∷ (codes "content-length", codes "0") ∷ []

strips : strip_hop list_headers hop_headers ≡ ok kept_headers
unfolding strip_hop option_names Headers.check_names Headers.option_name Headers.is_whitespace
    Policy.to_lowercase
strips = refl

strip_hop-get_all_example :
    (names : List Str) × (option_names list_headers (values_of hop_headers (codes "connection"))
      ≡ ok names)
    × ((name : Str)
        → IsLower name
        → values_of kept_headers name ≡ (
            if Gateway.contains_secret hop_names name || Gateway.contains_secret names name
            then []
            else values_of hop_headers name))
    × ((name : Str)
        → Gateway.contains_secret framing_names name ≡ true
        → Gateway.contains_secret names name ≡ false)
strip_hop-get_all_example = strip_hop-get_all list_headers list_laws hop_headers kept_headers strips

secret_accepted : try_from secret ≡ ok secret
unfolding try_from Workspace.is_lower_hex_digit
secret_accepted = refl

key_accepted : try_from gateway_key ≡ ok gateway_key
unfolding try_from Workspace.is_lower_hex_digit
key_accepted = refl

matches_iff_example : (matches secret gateway_key ≡ true) ↔ (secret ≡ gateway_key)
matches_iff_example = matches_iff secret gateway_key secret_accepted key_accepted

-- 32 bytes, and the header that gives their secret.
abbrev random : List ℕ
random =
    0 ∷ 17 ∷ 34 ∷ 51 ∷ 68 ∷ 85 ∷ 102 ∷ 119 ∷ 136 ∷ 153 ∷ 170 ∷ 187 ∷ 204 ∷ 221 ∷ 238 ∷ 255 ∷ 0 ∷ 17
    ∷ 34 ∷ 51 ∷ 68 ∷ 85 ∷ 102 ∷ 119 ∷ 136 ∷ 153 ∷ 170 ∷ 187 ∷ 204 ∷ 221 ∷ 238 ∷ 255 ∷ []

abbrev bearer : Str
bearer = codes "Bearer " ++ generate random

random-AllBytes : AllBytes random
random-AllBytes = ground arith

credential-generate_example :
    credential list_headers no_base64 always ((codes "proxy-authorization", bearer) ∷ [])
    ≡ ok (generate random)
credential-generate_example =
    credential-generate list_headers no_base64 always random
      ((codes "proxy-authorization", bearer) ∷ []) bearer bearer random-AllBytes refl refl refl
      (inl refl)

-- A gateway that drains also refuses an attachment.
draining_refuses :
    (run list_headers no_ipv4 no_base64 always gateway_key
      (managed (ok (envelope (drain_operation true))) (ok tt)
        ∷ managed (ok (envelope (attach_operation secret policy))) (ok tt)
        ∷ [])
      (start gateway)).log
    ≡ []
unfolding run Run.step Management.serve Management.operate Management.gateway_status Gateway.attach
    Gateway.matches
draining_refuses = refl
