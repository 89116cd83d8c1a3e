-- ===== src/Service/Route.antt =====
-- crates/wrix-service/src/route/mod.rs: the fixed-role listeners and the front door's admissions.
-- Binding a port is the system's: an argument that takes its state and gives the next one, and the
-- listener is the port that it was given. An array over the roles is a function of the role.
pub mod Retained
use wrix.Common.{
  ℕ, zero, suc, ◌+◌, ◌-◌, ◌%◌, ◌^◌, Bool, true, false, not, ◌&&◌, List, [], ◌∷◌, Option, none, some,
  ◌==◌, ltb, leb, if◌then◌else◌, length, Result, ok, err, ◌>>=◌, ok_or,
}
use wrix.Common.Text.{Str}

pub data Role : Type 0 where
  sql : Role
  cache_read : Role
  egress : Role
  compiler : Role
  sync : Role

-- `Role::ALL`.
abbrev pub all_roles : List Role
all_roles = sql ∷ cache_read ∷ egress ∷ compiler ∷ sync ∷ []

unfoldable pub index : Role → ℕ
index sql = 0
index cache_read = 1
index egress = 2
index compiler = 3
index sync = 4

-- The kinds of `io::Error` that a bind gives.
pub data Fault : Type 0 where
  addr_in_use : Fault
  other_fault : Str → Fault

pub data Error : Type 0 where
  io_error : Fault → Error
  no_available_port : Role → Error
  retained_port : Role → ℕ → Fault → Error
  incomplete_listeners : Error
  capacity_exceeded : Error

abbrev pub Slots : Type 0
Slots = Role → Option ℕ

unfoldable pub set_slot {ℓ} : {A : Type ℓ} → (Role → A) → Role → A → Role → A
unfolding index
set_slot slots role a other = if index other == index role then a else slots other

-- The listeners of the five roles.
pub record Listeners : Type 0 where
  pub sql_listener : ℕ
  pub cache_listener : ℕ
  pub egress_listener : ℕ
  pub compiler_listener : ℕ
  pub sync_listener : ℕ

abbrev pub listener_of : Listeners → Role → ℕ
listener_of ls sql = ls.sql_listener
listener_of ls cache_read = ls.cache_listener
listener_of ls egress = ls.egress_listener
listener_of ls compiler = ls.compiler_listener
listener_of ls sync = ls.sync_listener

-- The listeners, each `ok_or(Error::IncompleteListeners)`.
unfoldable pub complete : Slots → Result Error Listeners
complete slots = ok_or (slots sql) incomplete_listeners >>= λ a.
    ok_or (slots cache_read) incomplete_listeners >>= λ b.
    ok_or (slots egress) incomplete_listeners >>= λ c.
    ok_or (slots compiler) incomplete_listeners >>= λ d.
    ok_or (slots sync) incomplete_listeners >>= λ e. ok (record {
      sql_listener = a;
      cache_listener = b;
      egress_listener = c;
      compiler_listener = d;
      sync_listener = e;
    })

-- `?` on a result that comes with the system's state.
abbrev pub chain {ℓ κ μ} :
    {W : Type ℓ} {A : Type κ} {B : Type μ}
    → W × Result Error A
    → (W → A → W × Result Error B)
    → W × Result Error B
chain (w, err e) rest = (w, err e)
chain (w, ok a) rest = rest w a

module _ {ℓ} {W : Type ℓ} (bind_port : W → ℕ → W × Result Fault ℕ) where
  -- `bind_retained`: a fault is reported with the role and the port.
  abbrev pub retained_result : Role → ℕ → W × Result Fault ℕ → W × Result Error ℕ
  retained_result role port (w, ok listener) = (w, ok listener)
  retained_result role port (w, err fault) = (w, err (retained_port role port fault))

  unfoldable pub bind_retained : W → Role → ℕ → W × Result Error ℕ
  bind_retained w role port = retained_result role port (bind_port w port)

  -- `bind(Port::Available)`.
  abbrev pub any_result : W × Result Fault ℕ → W × Result Error ℕ
  any_result (w, ok listener) = (w, ok listener)
  any_result (w, err fault) = (w, err (io_error fault))

  -- An attempt on a port: one in use goes on to the rest.
  abbrev pub attempt : W × Result Fault ℕ → (W → W × Result Error ℕ) → W × Result Error ℕ
  attempt (w, ok listener) rest = (w, ok listener)
  attempt (w, err addr_in_use) rest = rest w
  attempt (w, err (other_fault e)) rest = (w, err (io_error (other_fault e)))

  abbrev pub is_prior : Option ℕ → ℕ → Bool
  is_prior none port = false
  is_prior (some prior) port = prior == port

  -- The ports of a range from one on, without the prior port.
  unfoldable pub scan_ports : Role → Option ℕ → ℕ → ℕ → W → W × Result Error ℕ
  scan_ports role prior zero port w = (w, err (no_available_port role))
  scan_ports role prior (suc count) port w =
      let rest : W → W × Result Error ℕ = scan_ports role prior count (suc port) in
      if is_prior prior port then rest w else attempt (bind_port w port) rest

  unfoldable pub bind_range : Role → Option ℕ → W → W × Result Error ℕ
  unfolding scan_ports
  bind_range sql prior w = scan_ports sql prior 2000 23000 w
  bind_range sync prior w = scan_ports sync prior 2000 23000 w
  bind_range cache_read prior w = scan_ports cache_read prior 2000 21000 w
  bind_range egress prior w = any_result (bind_port w 0)
  bind_range compiler prior w = any_result (bind_port w 0)

  unfoldable pub bind_role : W → Role → Option ℕ → W × Result Error ℕ
  unfolding bind_range
  bind_role w role none = bind_range role none w
  bind_role w role (some port) = attempt (bind_port w port) (bind_range role (some port))

  -- One round of the first loop: a retained role with a prior port is bound to it.
  unfoldable pub retain_role : Role → Bool → Option ℕ → W → Slots → W × Result Error Slots
  unfolding bind_retained set_slot
  retain_role role true (some port) w slots =
      chain (bind_retained w role port)
        (λ w listener. (w, ok (set_slot slots role (some listener))))
  retain_role role true none w slots = (w, ok slots)
  retain_role role false prior w slots = (w, ok slots)

  unfoldable pub retain_roles :
      (Role → Option ℕ) → (Role → Bool) → List Role → W → Slots → W × Result Error Slots
  unfolding retain_role
  retain_roles prior retained [] w slots = (w, ok slots)
  retain_roles prior retained (role ∷ roles) w slots =
      chain (retain_role role (retained role) (prior role) w slots)
        (retain_roles prior retained roles)

  -- One round of the second loop: a role without a listener is bound.
  unfoldable pub fill_role : Role → Option ℕ → Option ℕ → W → Slots → W × Result Error Slots
  unfolding bind_role set_slot
  fill_role role prior (some listener) w slots = (w, ok slots)
  fill_role role prior none w slots =
      chain (bind_role w role prior) (λ w listener. (w, ok (set_slot slots role (some listener))))

  unfoldable pub fill_roles : (Role → Option ℕ) → List Role → W → Slots → W × Result Error Slots
  unfolding fill_role
  fill_roles prior [] w slots = (w, ok slots)
  fill_roles prior (role ∷ roles) w slots =
      chain (fill_role role (prior role) (slots role) w slots) (fill_roles prior roles)

  unfoldable pub bind_deployment :
      (Role → Option ℕ) → (Role → Bool) → W → W × Result Error Listeners
  unfolding retain_roles fill_roles complete
  bind_deployment prior retained w =
      chain (retain_roles prior retained all_roles w (λ role. none))
        (λ w slots. chain (fill_roles prior all_roles w slots) (λ w slots. (w, complete slots)))
