-- ===== src/Hex/Tests.antt =====
-- Runs of the hex helpers, and the theorems at concrete inputs.
use modbus_simulator_go.Base.{◌≡◌, refl, some, none, codes}
use modbus_simulator_go.Base.Int.{negsuc}
use modbus_simulator_go.Hex.{hex_to_int16, hex_to_uint16, parse_hex_payload}

sample_word : hex_to_int16 (codes "FFFE") ≡ some (negsuc 1)
unfolding hex_to_int16
sample_word = refl

sample_unsigned : hex_to_uint16 (codes "FFFE") ≡ some 0xfffe
unfolding hex_to_uint16
sample_unsigned = refl

odd_payload : parse_hex_payload (codes "0d 0") ≡ none
unfolding parse_hex_payload
odd_payload = refl
