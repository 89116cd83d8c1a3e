-- ===== src/Notify/Filename.antt =====
-- The file names of targets, crates/wrix-notify/src/route/mod.rs.
use wrix.Common.{
  ℕ, ◌≡◌, ◌≢◌, ◌⊎◌, inl, inr, true, [], ◌∷◌, ◌++◌, map, arith, ◌≤◌, length, ◌+◌, Bool-cases,
}
use wrix.Common.Lists.{All, length-append, length-map}
use wrix.Common.Text.{Str, codes}
use wrix.Notify.{stands_in_filename, file_byte, filename}

-- In ASCII: a digit, a capital, a small letter, `_`, `-` or `.`.
abbrev pub IsFileByte : ℕ → Type 0
IsFileByte byte =
    ((48 ≤ byte) × (byte ≤ 57))
    ⊎ (((65 ≤ byte) × (byte ≤ 90))
        ⊎ (((97 ≤ byte) × (byte ≤ 122)) ⊎ ((byte ≡ 95) ⊎ ((byte ≡ 45) ⊎ (byte ≡ 46)))))

stands-IsFileByte : (byte : ℕ) → stands_in_filename byte ≡ true → IsFileByte byte
stands-IsFileByte byte h = ground arith

file_byte-IsFileByte : (byte : ℕ) → IsFileByte (file_byte byte)
file_byte-IsFileByte byte = elim (Bool-cases (stands_in_filename byte)) [
  | inl e ↦ rw e (stands-IsFileByte byte e)
  | inr e ↦ rw e (ground arith)
]

suffix-IsFileByte : All IsFileByte (codes ".json")
suffix-IsFileByte = ground arith

map-IsFileByte : (target : Str) → All IsFileByte (map file_byte target ++ codes ".json")
map-IsFileByte [] = suffix-IsFileByte
map-IsFileByte (c ∷ target) = (file_byte-IsFileByte c, map-IsFileByte target)

-- Whatever the target, each byte of its file name is an ASCII letter or digit, `_`, `-` or `.`, hence
-- none is the separator `/` or zero, and the name is five bytes longer than the target.
pub filename_lem :
    (target : Str)
    → All IsFileByte (filename target)
      × All (λ byte. (byte ≢ 47) × (byte ≢ 0)) (filename target)
      × (length (filename target) ≡ length target + 5)
unfolding filename
filename_lem target =
    let lengths = length-append (map file_byte target) (codes ".json") in
    let same = length-map file_byte target in
    (
      map-IsFileByte target,
      no_separator (filename target) (map-IsFileByte target),
      rw (lengths, same),
    )
  where
    apart : (byte : ℕ) → IsFileByte byte → (byte ≢ 47) × (byte ≢ 0)
    apart byte h = (λ e. ground arith, λ e. ground arith)

    no_separator : (name : Str) → All IsFileByte name → All (λ byte. (byte ≢ 47) × (byte ≢ 0)) name
    no_separator [] h = tt
    no_separator (c ∷ name) (h, hs) = (apart c h, no_separator name hs)
