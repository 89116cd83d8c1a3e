-- ===== src/Service/Gateway/Traffic.antt =====
-- `dial`, `admit` and `failure` of crates/wrix-service/src/gateway/traffic/mod.rs. `admit` is cut
-- where it waits: at the dial, and at the upstream's response; at each end of a wait `select!`
-- looks at the cancellation first. A time limit that passed is a failure of the network. Left out:
-- the spawned relays and the upgrade's stream.
pub mod Destination
unfoldable pub use Destination.*
use wrix.Common.{
  ℕ, ◌+◌, ◌-◌, ◌*◌, Bool, true, false, not, ◌&&◌, ◌||◌, List, [], ◌∷◌, ◌++◌, Option, none, some,
  ◌==◌, ltb, leb, if◌then◌else◌, length, get_elem?, is_empty, any, Result, ok, err, ok_or, guard,
  ◌>>=◌, ◌>>◌,
}
use wrix.Common.Text.{Str, str_eq, codes, split_once}
use wrix.Service.Policy.{Host, is_digit, parse_host, permits}
use wrix.Service.Policy.Baseline.{Address, address_eq, baseline_permits}
use wrix.Service.Gateway.{
  Error, io, invalid_protocol, denied, protected_destination, exhausted, poisoned, json, Grant,
  State, find_grant, is_cancelled,
}
use wrix.Service.Gateway.Management.{host_error}
use wrix.Service.Gateway.Headers.{HeaderMap, contains_name, only_value, strip_hop, credential}

pub record Response (M : Type 0) : Type 0 where
  pub status : ℕ
  pub response_headers : M

-- A connection of the traffic listener: whose it is, and how many more requests it may have.
pub record Connection : Type 0 where
  pub identity : Option Str
  pub requests : ℕ

-- A request that waits for its dial.
pub record Pending (M : Type 0) : Type 0 where
  pub secret : Str
  pub grant : Grant
  pub to_host : Host
  pub to_port : ℕ
  pub request : Request M

pub data Admission (M : Type 0) : Type 0 where
  answered : ℕ → Admission M
  dialing : Pending M → Admission M

-- `Network`.
pub record Network : Type 0 where
  pub resolve : Host → ℕ → Result Error (List Address)
  pub connect : Address → Result Error (Unit {0})

abbrev pub first_address : List Address → Result Error Address
first_address [] = err io
first_address (address ∷ addresses) = ok address

unfoldable pub is_refused : State → Address → Bool
is_refused state address =
    not (baseline_permits state.baseline address) || any (address_eq address) state.protected

-- `dial`: the address that it connects to.
unfoldable pub dial : State → Network → Host → ℕ → Result Error Address
unfolding is_refused
dial state network host port = do
  addresses ← network.resolve host port
  guard (not (is_empty addresses) && leb (length addresses) 64) io
  guard (not (any (is_refused state) addresses)) protected_destination
  address ← first_address addresses
  connected ← network.connect address
  ok address

unfoldable pub failure_status : Error → ℕ
failure_status denied = 407
failure_status invalid_protocol = 400
failure_status json = 400
failure_status protected_destination = 403
failure_status exhausted = 503
failure_status io = 502
failure_status poisoned = 502

-- `identity.borrow().as_ref().is_some_and(|old| old != &secret)`.
abbrev pub is_another : Str → Option Str → Bool
is_another secret identity = some_and (λ old. not (str_eq old secret)) identity

-- `send_if_modified`.
abbrev pub bind_identity : Str → Connection → Connection
bind_identity secret connection = elim connection.identity [
  | none ↦ record connection { identity = some secret }
  | some bound ↦ connection
]

module _ {M V : Type 0} (headers : HeaderMap M V) where
  module _ (parse_ipv4 : Str → Option ℕ) where
    -- The headers that go on: those of CONNECT stay.
    unfoldable pub forwarded_headers : Request M → Result Error M
    unfolding strip_hop
    forwarded_headers request =
        if request.is_connect then ok request.headers else strip_hop headers request.headers

    -- What `admit` does with a request before the wait, once it knows whose it is.
    unfoldable pub authorize : Str → Grant → ℕ → Request M → State → Result Error (Admission M)
    unfolding destination forwarded_headers
    authorize secret grant requests request state = do
      target ← destination headers parse_ipv4 request
      if not (permits grant.policy target.0 target.1)
          then ok (answered 403)
          else if grant.probe
          then (if request.is_get && str_eq request.uri.path_or_root (codes "/")
              then ok (answered 204)
              else err invalid_protocol)
          else do
            stripped ← forwarded_headers request
            guard (not (is_cancelled state grant.cancel)) denied
            guard (ltb 0 requests) exhausted
            ok (
                dialing (record {
                  secret = secret;
                  grant = grant;
                  to_host = target.0;
                  to_port = target.1;
                  request = record request { headers = stripped };
                }))

    module _ (decode : Str → Option Str) (is_utf8 : Str → Bool) where
      -- Whose the request is.
      unfoldable pub identify : Connection → Request M → State → Result Error (Str × Grant)
      unfolding credential
      identify connection request state = do
        secret ← credential headers decode is_utf8 request.headers
        grant ← find_grant secret state
        guard (not (is_another secret connection.identity)) denied
        ok (secret, grant)

      -- `requests.try_acquire_owned()`.
      abbrev pub take_permit : Result Error (Admission M) → Connection → Connection
      take_permit (err e) connection = connection
      take_permit (ok (answered status)) connection = connection
      take_permit (ok (dialing pending)) connection = record connection {
        requests = connection.requests - 1;
      }

      abbrev pub admit_identified :
          Connection
          → Request M
          → State
          → Result Error (Str × Grant)
          → Result Error (Admission M) × Connection
      admit_identified connection request state (err e) = (err e, connection)
      admit_identified connection request state (ok (secret, grant)) =
          let admission = authorize secret grant connection.requests request state in
          (admission, take_permit admission (bind_identity secret connection))

      -- `admit`, until it waits for the dial.
      unfoldable pub admit :
          Connection → Request M → State → Result Error (Admission M) × Connection
      unfolding identify authorize
      admit connection request state =
          admit_identified connection request state (identify connection request state)

  -- The dial that was waited for: `select!`, the dial, and the look at the grant. The waits for the
  -- resolver and for the connection are one wait here, and a dial that the grant's cancellation ends,
  -- before or after it connected, is an error without an address.
  unfoldable pub resume : Network → Pending M → State → Result Error Address
  unfolding dial
  resume network pending state = do
    guard (not (is_cancelled state pending.grant.cancel)) denied
    address ← dial state network pending.to_host pending.to_port
    guard (not (is_cancelled state pending.grant.cancel)) denied
    ok address

  abbrev pub path_and_query : Uri → Str
  path_and_query uri = uri.path_or_root ++ elim uri.query [ none ↦ [] | some q ↦ b'?' ∷ q ]

  -- The request that is sent on a connection to the upstream.
  unfoldable pub forwarded : (Str → Option Uri) → Request M → Result Error (Request M)
  forwarded parse_reference request = do
    uri ← ok_or (parse_reference (path_and_query request.uri)) invalid_protocol
    ok (record request {
      uri = uri;
      headers =
          headers.insert (codes "connection") (headers.from_static (codes "close")) request.headers;
    })

  -- The upstream's response, when it has been waited for.
  unfoldable pub respond : Pending M → State → Result Error (Response M) → Result Error (Response M)
  unfolding strip_hop
  respond pending state upstream = do
    guard (not (is_cancelled state pending.grant.cancel)) denied
    response ← upstream
    guard (not (response.status == 101)) invalid_protocol
    stripped ← strip_hop headers response.response_headers
    ok (record response { response_headers = stripped })

  -- `failure`.
  unfoldable pub failure : Error → Response M
  unfolding failure_status
  failure error =
      let closing =
        headers.insert (codes "connection") (headers.from_static (codes "close")) headers.new_map in
      record {
        status = failure_status error;
        response_headers =
            if failure_status error == 407
            then headers.insert (codes "proxy-authenticate")
                (headers.from_static (codes "Basic realm=\"wrix\"")) closing
            else closing;
      }
