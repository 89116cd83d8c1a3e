-- ===== src/Core/Tests.antt =====
-- Workspace names and hashes on concrete inputs.
use wrix.Common.{ℕ, zero, suc, true, ◌≡◌, refl, ◌<◌, List, [], ◌∷◌, some, arith, take, ◌%◌}
use wrix.Common.Text.{Str, codes}
use wrix.Core.Workspace
use wrix.Core.Workspace.{
  push_hex_bytes, parse_hash, port_offset, from_persisted, container_name,
  disambiguated_container_name,
}
use wrix.Core.Workspace.Hash.{parse_hash-push_hex_bytes, port_offset_lem, hex_value, AllBytes}
use wrix.Core.Workspace.Container.{container_name_lem}

abbrev repeated : ℕ → ℕ → List ℕ
repeated zero b = []
repeated (suc n) b = b ∷ repeated n b

abbrev digest : List ℕ
digest = repeated 32 171

abbrev text : Str
text = codes "c52ddf65534b7b46035084358ab7902be4bfef220bdb503ac7039cc861905b05"

digest-AllBytes : AllBytes digest
digest-AllBytes = omega arith

parse_hash-push_hex_bytes_example :
    parse_hash (push_hex_bytes [] digest) ≡ some (push_hex_bytes [] digest)
parse_hash-push_hex_bytes_example = parse_hash-push_hex_bytes digest digest-AllBytes refl

port_offset_lem_example :
    (port_offset text 2000 ≡ hex_value 0 (take 16 text) % 2000) × (port_offset text 2000 < 2000)
port_offset_lem_example = port_offset_lem text 2000 (omega arith) (omega arith)

text-offset : port_offset text 2000 ≡ 1542
unfolding port_offset Workspace.offset_loop Workspace.offset_step Workspace.hex_nibble
text-offset = refl

text-is_valid : Workspace.is_valid_str text ≡ true
unfolding Workspace.is_valid_str Workspace.is_lower_hex_digit
text-is_valid = refl

container_name_lem_example :
    (from_persisted (container_name (some (codes ".my app")))
      ≡ some (container_name (some (codes ".my app"))))
    × (from_persisted (disambiguated_container_name (some (codes ".my app")) text)
        ≡ some (disambiguated_container_name (some (codes ".my app")) text))
container_name_lem_example = container_name_lem (some (codes ".my app")) text text-is_valid
