-- ===== src/Notify.antt =====
-- crates/wrix-notify/src/route/mod.rs: the routes of notifications, as a registration's JSON holds
-- them. `Fields` is the JSON object by the fields that the code reads or writes, with an absent one
-- and `null` as `none`; the identifiers' texts are checked where serde checks them.
pub mod Saved
pub mod Filename
mod Tests
use wrix.Common.{
  ℕ, Bool, true, false, not, ◌&&◌, ◌||◌, List, [], ◌∷◌, ◌++◌, map, Option, none, some, ◌==◌, ltb,
  leb, if◌then◌else◌, length, all, is_empty, Result, ok, err, ◌>>=◌, ◌>>◌, guard, ok_or,
}
use wrix.Common.Text.{Str, codes}

pub data Error : Type 0 where
  invalid : Str → Error
  json : Error

-- `nonempty`.
abbrev pub nonempty : Str → Bool
nonempty value = not (is_empty value)

abbrev pub is_digit : ℕ → Bool
is_digit byte = leb b'0' byte && leb byte b'9'

-- `stable`: the prefix and at least one digit.
abbrev pub stable : ℕ → Str → Bool
stable prefix [] = false
stable prefix (c ∷ value) = c == prefix && (nonempty value && all is_digit value)

abbrev pub is_alphanumeric : ℕ → Bool
is_alphanumeric byte =
    is_digit byte || ((leb b'a' byte && leb byte b'z') || (leb b'A' byte && leb byte b'Z'))

abbrev pub is_omni_byte : ℕ → Bool
is_omni_byte byte = is_alphanumeric byte || (byte == b'_' || byte == b'-')

-- `OmniId`.
abbrev pub is_omni_id : Str → Bool
is_omni_id (a ∷ b ∷ c ∷ value) =
    (a == b'o' && (b == b'w' && c == b'_')) && (nonempty value && all is_omni_byte value)
is_omni_id _ = false

-- `NonZeroU32`.
abbrev pub is_pid : ℕ → Bool
is_pid n = ltb 0 n && ltb n 4294967296

pub record Client : Type 0 where
  pub name : Str
  pub pid : ℕ
  pub tty : Str
  pub session : Str

pub record Tmux : Type 0 where
  pub socket : Str
  pub pane : Str
  pub client : Client
  pub window : Option Str

pub record OmniWindow : Type 0 where
  pub window : Str
  pub terminal_pid : ℕ
  pub client : Option Client

pub data Route : Type 0 where
  linux : Str → ℕ → Option Tmux → Route
  darwin : OmniWindow → Option Tmux → Route

pub data Platform : Type 0 where
  on_linux on_darwin : Platform

pub record LinuxFields : Type 0 where
  pub terminal_pid : ℕ
  pub client : Option Client

pub record Fields : Type 0 where
  pub window_id : Option Str
  pub omniwm_route : Option OmniWindow
  pub tmux_target : Option Str
  pub tmux_socket : Option Str
  pub tmux_window : Option Str
  pub linux_route : Option LinuxFields

abbrev pub is_option {ℓ} : {A : Type ℓ} → (A → Bool) → Option A → Bool
is_option test none = true
is_option test (some a) = test a

abbrev pub is_client : Client → Bool
is_client client =
    nonempty client.name
    && (is_pid client.pid && (nonempty client.tty && stable b'$' client.session))

abbrev pub is_omni : OmniWindow → Bool
is_omni omni =
    is_omni_id omni.window && (is_pid omni.terminal_pid && is_option is_client omni.client)

abbrev pub is_linux : LinuxFields → Bool
is_linux fields = is_pid fields.terminal_pid && is_option is_client fields.client

-- `serde_json::from_value::<Raw>`.
unfoldable pub is_raw : Fields → Bool
is_raw fields =
    is_option nonempty fields.window_id
    && (is_option is_omni fields.omniwm_route
        && (is_option (stable b'@') fields.tmux_window && is_option is_linux fields.linux_route))

-- `raw.tmux_target.filter(|v| !v.is_empty())`.
abbrev pub filter_nonempty : Option Str → Option Str
filter_nonempty none = none
filter_nonempty (some value) = if nonempty value then some value else none

abbrev pub missing : Str → Error
missing what = invalid what

unfoldable pub linux_tmux : Fields → LinuxFields → Option Str → Result Error (Option Tmux)
linux_tmux raw fields none = ok none
linux_tmux raw fields (some pane) = do
  socket ← ok_or raw.tmux_socket (missing (codes "missing tmux socket"))
  guard (nonempty socket) (invalid (codes "Socket"))
  guard (stable b'%' pane) (invalid (codes "PaneId"))
  client ← ok_or fields.client (missing (codes "missing tmux client"))
  ok (some (record { socket = socket; pane = pane; client = client; window = raw.tmux_window }))

abbrev pub is_none {ℓ} : {A : Type ℓ} → Option A → Bool
is_none none = true
is_none (some a) = false

unfoldable pub darwin_tmux : Fields → OmniWindow → Option Str → Result Error (Option Tmux)
darwin_tmux raw origin none =
    if is_none origin.client then ok none else err (missing (codes "missing tmux pane"))
darwin_tmux raw origin (some pane) = do
  guard (stable b'%' pane) (invalid (codes "PaneId"))
  socket ← ok_or raw.tmux_socket (missing (codes "missing tmux socket"))
  guard (nonempty socket) (invalid (codes "Socket"))
  client ← ok_or origin.client (missing (codes "missing tmux client"))
  ok (some (record { socket = socket; pane = pane; client = client; window = raw.tmux_window }))

unfoldable pub parse_platform : Platform → Fields → Result Error Route
unfolding linux_tmux darwin_tmux
parse_platform on_linux raw = do
  fields ← ok_or raw.linux_route (missing (codes "missing Linux provenance"))
  tmux ← linux_tmux raw fields (filter_nonempty raw.tmux_target)
  window ← ok_or raw.window_id (missing (codes "missing window"))
  ok (linux window fields.terminal_pid tmux)
parse_platform on_darwin raw = do
  origin ← ok_or raw.omniwm_route (missing (codes "missing OmniWM identity"))
  tmux ← darwin_tmux raw origin (filter_nonempty raw.tmux_target)
  ok (darwin origin tmux)

-- `Route::parse`.
unfoldable pub parse : Fields → Platform → Result Error Route
unfolding is_raw parse_platform
parse fields platform = guard (is_raw fields) json >> parse_platform platform fields

abbrev pub some_of {ℓ κ} : {A : Type ℓ} {B : Type κ} → (A → B) → Option A → Option B
some_of f none = none
some_of f (some a) = some (f a)

abbrev pub window_of : Option Tmux → Option Str
window_of none = none
window_of (some tmux) = tmux.window

-- `Route::saved`.
unfoldable pub saved : Route → Fields
saved (linux window terminal tmux) = record {
  window_id = some window;
  omniwm_route = none;
  tmux_target = some_of (λ (t : Tmux). t.pane) tmux;
  tmux_socket = some_of (λ (t : Tmux). t.socket) tmux;
  tmux_window = window_of tmux;
  linux_route =
      some (record { terminal_pid = terminal; client = some_of (λ (t : Tmux). t.client) tmux });
}
saved (darwin origin tmux) = record {
  window_id = none;
  omniwm_route = some origin;
  tmux_target = some_of (λ (t : Tmux). t.pane) tmux;
  tmux_socket = some_of (λ (t : Tmux). t.socket) tmux;
  tmux_window = window_of tmux;
  linux_route = none;
}

-- The test of `filename`, with a list of its own beside the one of `OmniId`.
abbrev pub stands_in_filename : ℕ → Bool
stands_in_filename byte = is_alphanumeric byte || (byte == b'_' || byte == b'-')

abbrev pub file_byte : ℕ → ℕ
file_byte byte = if stands_in_filename byte then byte else b'-'

-- `Target::filename`.
unfoldable pub filename : Str → Str
filename target = map file_byte target ++ codes ".json"
