-- ===== src/Crc/Tests.antt =====
-- Runs of the checksum, and the theorems at concrete inputs.
use modbus_simulator_go.Base.{ℕ, List, ◌<◌, ◌≡◌, refl, true, false, [], ◌∷◌, ◌++◌, arith}
use modbus_simulator_go.Crc.{crc_bit, crc_bits, crc_from, crc16, validate_crc}
use modbus_simulator_go.Crc.Frame.{crc16-lt, validate_crc_one_byte}

-- A request of the sample log in the import dialog: read one input register at 20.
abbrev message : List ℕ
message = 0x01 ∷ 0x04 ∷ 0x00 ∷ 0x14 ∷ 0x00 ∷ 0x01 ∷ []

sample_crc : crc16 message ≡ 0xce71
unfolding crc16 crc_from crc_bits crc_bit
sample_crc = refl

sample_accepted : validate_crc (message ++ 0x71 ∷ 0xce ∷ []) ≡ true
unfolding validate_crc crc16 crc_from crc_bits crc_bit
sample_accepted = refl

abbrev head : List ℕ
head = 0x01 ∷ 0x04 ∷ []

abbrev rest : List ℕ
rest = 0x14 ∷ 0x00 ∷ 0x01 ∷ []

crc16-lt_example : crc16 message < 0x10000
crc16-lt_example = crc16-lt message (omega arith)

validate_crc_one_byte_example : validate_crc ((head ++ 0x07 ∷ rest) ++ 0x71 ∷ 0xce ∷ []) ≡ false
validate_crc_one_byte_example =
    validate_crc_one_byte head rest 0x00 0x07 0x71 0xce (omega arith) (omega arith) (omega arith)
      (omega arith) (omega arith) sample_accepted
