-- ===== src/Notify/Saved.antt =====
-- What `Route::saved` of crates/wrix-notify/src/route/mod.rs writes is read back.
use wrix.Common.{
  ℕ, ◌≡◌, refl, subst, inl, inr, Bool, true, [], ◌∷◌, Option, none, some, Result, ok, err, guard,
  ok_or, bind-ok, guard-ok, ok-injective, Bool-cases, &&-true,
}
use wrix.Common.Text.{Str, codes}
use wrix.Notify.{
  Error, invalid, json, missing, nonempty, stable, is_pid, Client, Tmux, OmniWindow, Route, linux,
  darwin, Platform, on_linux, on_darwin, LinuxFields, Fields, is_option, is_client, is_omni,
  is_linux, is_raw, filter_nonempty, linux_tmux, is_none, darwin_tmux, parse_platform, parse, saved,
}

ok_or-ok : {A : Type 0} (o : Option A) (e : Error) {a : A} → ok_or o e ≡ ok a → o ≡ some a
ok_or-ok none e h = cc
ok_or-ok (some b) e h = cc

option-of :
    {A : Type 0} (test : A → Bool) {o : Option A} {a : A}
    → is_option test o ≡ true
    → o ≡ some a
    → test a ≡ true
option-of test {o} {a} h e = subst (λ x. is_option test x ≡ true) e h

stable-nonempty : (prefix : ℕ) (s : Str) → stable prefix s ≡ true → nonempty s ≡ true
stable-nonempty prefix [] h = cc
stable-nonempty prefix (c ∷ s) h = refl

-- A multiplexer's place, with the client that the terminal has.
record IsPlace (client : Option Client) (tmux : Tmux) : Type 0 where
  socket_valid : nonempty tmux.socket ≡ true
  pane_valid : stable b'%' tmux.pane ≡ true
  window_valid : is_option (stable b'@') tmux.window ≡ true
  same_client : client ≡ some tmux.client

abbrev IsPlaced : Option Client → Option Tmux → Type 0
IsPlaced client none = Unit {0}
IsPlaced client (some tmux) = IsPlace client tmux

place-IsPlaced :
    (client : Option Client) (socket pane : Str) (window : Option Str) (c : Client)
    (tmux : Option Tmux)
    → nonempty socket ≡ true
    → stable b'%' pane ≡ true
    → is_option (stable b'@') window ≡ true
    → client ≡ some c
    → ◌≡◌ {A = Result Error (Option Tmux)}
        (ok (some (record { socket = socket; pane = pane; client = c; window = window })))
        (ok tmux)
    → IsPlaced client tmux
place-IsPlaced client socket pane window c tmux s p w same h =
    subst (IsPlaced client) (ok-injective {E = Error} h)
      (record { socket_valid = s; pane_valid = p; window_valid = w; same_client = same })

linux_tmux-IsPlaced :
    (raw : Fields) (fields : LinuxFields) (target : Option Str) (tmux : Option Tmux)
    → is_option (stable b'@') raw.tmux_window ≡ true
    → linux_tmux raw fields target ≡ ok tmux
    → IsPlaced fields.client tmux
unfolding linux_tmux
linux_tmux-IsPlaced raw fields none tmux w h =
    subst (IsPlaced fields.client) (ok-injective {E = Error} h) tt
linux_tmux-IsPlaced raw fields (some pane) tmux w h =
    let (socket, e1, h1) =
      bind-ok (ok_or raw.tmux_socket (missing (codes "missing tmux socket"))) _ h in
    let (u2, e2, h2) = bind-ok (guard (nonempty socket) (invalid (codes "Socket"))) _ h1 in
    let (u3, e3, h3) = bind-ok (guard (stable b'%' pane) (invalid (codes "PaneId"))) _ h2 in
    let (client, e4, h4) =
      bind-ok (ok_or fields.client (missing (codes "missing tmux client"))) _ h3 in
    place-IsPlaced fields.client socket pane raw.tmux_window client tmux
      (guard-ok (nonempty socket) (invalid (codes "Socket")) e2)
      (guard-ok (stable b'%' pane) (invalid (codes "PaneId")) e3) w
      (ok_or-ok fields.client (missing (codes "missing tmux client")) e4) h4

-- On Darwin a terminal without a place has no client.
abbrev IsDarwin : Option Client → Option Tmux → Type 0
IsDarwin client none = is_none client ≡ true
IsDarwin client (some tmux) = IsPlace client tmux

place-IsDarwin :
    (client : Option Client) (socket pane : Str) (window : Option Str) (c : Client)
    (tmux : Option Tmux)
    → nonempty socket ≡ true
    → stable b'%' pane ≡ true
    → is_option (stable b'@') window ≡ true
    → client ≡ some c
    → ◌≡◌ {A = Result Error (Option Tmux)}
        (ok (some (record { socket = socket; pane = pane; client = c; window = window })))
        (ok tmux)
    → IsDarwin client tmux
place-IsDarwin client socket pane window c tmux s p w same h =
    subst (IsDarwin client) (ok-injective {E = Error} h)
      (record { socket_valid = s; pane_valid = p; window_valid = w; same_client = same })

darwin_tmux-IsDarwin :
    (raw : Fields) (origin : OmniWindow) (target : Option Str) (tmux : Option Tmux)
    → is_option (stable b'@') raw.tmux_window ≡ true
    → darwin_tmux raw origin target ≡ ok tmux
    → IsDarwin origin.client tmux
unfolding darwin_tmux
darwin_tmux-IsDarwin raw origin none tmux w h = elim (Bool-cases (is_none origin.client)) [
  | inl e ↦
      let alone : ◌≡◌ {A = Result Error (Option Tmux)} (ok none) (ok tmux) = rw e at h in
      subst (IsDarwin origin.client) (ok-injective {E = Error} alone) e
  | inr e ↦
      let failed : ◌≡◌ {A = Result Error (Option Tmux)} (err (missing (codes "missing tmux pane")))
          (ok tmux) =
        rw e at h in
      absurd cc
]
darwin_tmux-IsDarwin raw origin (some pane) tmux w h =
    let (u1, e1, h1) = bind-ok (guard (stable b'%' pane) (invalid (codes "PaneId"))) _ h in
    let (socket, e2, h2) =
      bind-ok (ok_or raw.tmux_socket (missing (codes "missing tmux socket"))) _ h1 in
    let (u3, e3, h3) = bind-ok (guard (nonempty socket) (invalid (codes "Socket"))) _ h2 in
    let (client, e4, h4) =
      bind-ok (ok_or origin.client (missing (codes "missing tmux client"))) _ h3 in
    place-IsDarwin origin.client socket pane raw.tmux_window client tmux
      (guard-ok (nonempty socket) (invalid (codes "Socket")) e3)
      (guard-ok (stable b'%' pane) (invalid (codes "PaneId")) e1) w
      (ok_or-ok origin.client (missing (codes "missing tmux client")) e4) h4

abbrev IsValid : Route → Type 0
IsValid (linux window terminal tmux) =
    (nonempty window ≡ true)
    × (is_pid terminal ≡ true)
    × ((client : Option Client) × (is_option is_client client ≡ true) × IsPlaced client tmux)
IsValid (darwin origin tmux) = (is_omni origin ≡ true) × IsDarwin origin.client tmux

abbrev platform_of : Route → Platform
platform_of (linux window terminal tmux) = on_linux
platform_of (darwin origin tmux) = on_darwin

place-client :
    (client : Option Client) (tmux : Tmux)
    → is_option is_client client ≡ true
    → client ≡ some tmux.client
    → is_client tmux.client ≡ true
place-client client tmux h e = option-of is_client h e

parse-saved : (route : Route) → IsValid route → parse (saved route) (platform_of route) ≡ ok route
unfolding parse saved is_raw parse_platform linux_tmux darwin_tmux
parse-saved (linux window terminal none) (w, t, p) = simp (w, t)
parse-saved (linux window terminal (some tmux)) (w, t, (client, valid, p)) =
    let c = place-client client tmux valid p.same_client in
    let pane = stable-nonempty b'%' tmux.pane p.pane_valid in
    simp (w, t, c, pane, p.pane_valid, p.socket_valid, p.window_valid)
parse-saved (darwin origin none) (o, alone) = simp (o, alone)
parse-saved (darwin origin (some tmux)) (o, p) =
    let pane = stable-nonempty b'%' tmux.pane p.pane_valid in
    simp (o, pane, p.pane_valid, p.socket_valid, p.window_valid) (simp p.same_client)

parse_platform-IsValid :
    (fields : Fields) (platform : Platform) (route : Route)
    → is_raw fields ≡ true
    → parse_platform platform fields ≡ ok route
    → IsValid route × (platform_of route ≡ platform)
unfolding parse_platform is_raw
parse_platform-IsValid raw on_linux route h k =
    let (w, h1) = &&-true (is_option nonempty raw.window_id) _ h in
    let (o, h2) = &&-true (is_option is_omni raw.omniwm_route) _ h1 in
    let (t, l) = &&-true (is_option (stable b'@') raw.tmux_window) _ h2 in
    let (fields, e1, k1) =
      bind-ok (ok_or raw.linux_route (missing (codes "missing Linux provenance"))) _ k in
    let (tmux, e2, k2) = bind-ok (linux_tmux raw fields (filter_nonempty raw.tmux_target)) _ k1 in
    let (window, e3, k3) = bind-ok (ok_or raw.window_id (missing (codes "missing window"))) _ k2 in
    let same : linux window fields.terminal_pid tmux ≡ route = ok-injective {E = Error} k3 in
    let valid =
      option-of is_linux l
        (ok_or-ok raw.linux_route (missing (codes "missing Linux provenance")) e1) in
    let (pid, client) = &&-true (is_pid fields.terminal_pid) _ valid in
    let named =
      option-of nonempty w (ok_or-ok raw.window_id (missing (codes "missing window")) e3) in
    subst (λ r. IsValid r × (platform_of r ≡ on_linux)) same
      (
        (
          named,
          pid,
          (
            fields.client,
            client,
            linux_tmux-IsPlaced raw fields (filter_nonempty raw.tmux_target) tmux t e2,
          ),
        ),
        refl,
      )
parse_platform-IsValid raw on_darwin route h k =
    let (w, h1) = &&-true (is_option nonempty raw.window_id) _ h in
    let (o, h2) = &&-true (is_option is_omni raw.omniwm_route) _ h1 in
    let (t, l) = &&-true (is_option (stable b'@') raw.tmux_window) _ h2 in
    let (origin, e1, k1) =
      bind-ok (ok_or raw.omniwm_route (missing (codes "missing OmniWM identity"))) _ k in
    let (tmux, e2, k2) = bind-ok (darwin_tmux raw origin (filter_nonempty raw.tmux_target)) _ k1 in
    let same : darwin origin tmux ≡ route = ok-injective {E = Error} k2 in
    let valid =
      option-of is_omni o
        (ok_or-ok raw.omniwm_route (missing (codes "missing OmniWM identity")) e1) in
    subst (λ r. IsValid r × (platform_of r ≡ on_darwin)) same
      ((valid, darwin_tmux-IsDarwin raw origin (filter_nonempty raw.tmux_target) tmux t e2), refl)

-- A route that was parsed is saved as fields that are parsed on the same platform as the same route.
pub parse-saved-parse :
    (fields : Fields) (platform : Platform) (route : Route)
    → parse fields platform ≡ ok route
    → parse (saved route) platform ≡ ok route
unfolding parse
parse-saved-parse fields platform route h =
    let (u, e, k) = bind-ok (guard (is_raw fields) json) _ h in
    let (valid, same) =
      parse_platform-IsValid fields platform route (guard-ok (is_raw fields) json e) k in
    subst (λ p. parse (saved route) p ≡ ok route) same (parse-saved route valid)
