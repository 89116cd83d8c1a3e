-- ===== src/Notify/Tests.antt =====
-- Routes of notifications on concrete fields.
use wrix.Common.{length, ◌+◌, ◌≡◌, ◌≢◌, refl, none, some, ok, err}
use wrix.Common.Lists.{All}
use wrix.Common.Text.{codes}
use wrix.Notify
use wrix.Notify.{
  Error, invalid, Client, Tmux, Route, linux, on_linux, on_darwin, Fields, parse, saved, filename,
}
use wrix.Notify.Filename.{IsFileByte, filename_lem}
use wrix.Notify.Saved.{parse-saved-parse}

abbrev client : Client
client = record { name = codes "c"; pid = 12; tty = codes "t"; session = codes "$3" }

abbrev tmux : Tmux
tmux = record { socket = codes "s"; pane = codes "%1"; client = client; window = some (codes "@2") }

-- A terminal on Linux, with the fields of another platform that are not read.
abbrev fields : Fields
fields = record {
  window_id = some (codes "w");
  omniwm_route = some (record { window = codes "ow_x"; terminal_pid = 5; client = none });
  tmux_target = some (codes "%1");
  tmux_socket = some (codes "s");
  tmux_window = some (codes "@2");
  linux_route = some (record { terminal_pid = 9; client = some client });
}

parsed : parse fields on_linux ≡ ok (linux (codes "w") 9 (some tmux))
unfolding parse Notify.is_raw Notify.parse_platform Notify.linux_tmux
parsed = refl

parse-saved-parse_example :
    parse (saved (linux (codes "w") 9 (some tmux))) on_linux ≡ ok (linux (codes "w") 9 (some tmux))
parse-saved-parse_example =
    parse-saved-parse fields on_linux (linux (codes "w") 9 (some tmux)) parsed

-- A place in tmux without a socket is an error.
no_socket :
    parse (record fields { tmux_socket = none }) on_linux
    ≡ err (invalid (codes "missing tmux socket"))
unfolding parse Notify.is_raw Notify.parse_platform Notify.linux_tmux
no_socket = refl

filename_lem_example :
    All IsFileByte (filename (codes "../x y"))
    × All (λ byte. (byte ≢ 47) × (byte ≢ 0)) (filename (codes "../x y"))
    × (length (filename (codes "../x y")) ≡ length (codes "../x y") + 5)
filename_lem_example = filename_lem (codes "../x y")

named : filename (codes "../x y") ≡ codes "---x-y.json"
unfolding filename
named = refl
