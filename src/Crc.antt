-- ===== src/Crc.antt =====
-- `crc16` and `validateCRC` of app.js: the checksum of a Modbus RTU frame.
pub mod Step
pub mod Frame
mod Tests
use modbus_simulator_go.Base.{
  ℕ, zero, suc, ◌+◌, ◌-◌, ◌*◌, ◌/◌, ◌%◌, ◌<◌, Bool, true, false, ◌&&◌, List, [], ◌∷◌, ◌++◌, length,
  take, get_or, ltb, ◌==◌, if◌then◌else◌, bit_and, bit_xor,
}

-- One turn of the inner loop.
unfoldable pub crc_bit : ℕ → ℕ
crc_bit crc = if bit_and crc 1 == 1 then bit_xor (crc / 2) 0xa001 else crc / 2

-- `for (let i = 0; i < 8; i++)`
unfoldable pub crc_bits : ℕ → ℕ → ℕ
crc_bits zero crc = crc
crc_bits (suc n) crc = crc_bits n (crc_bit crc)

unfoldable pub crc_from : ℕ → List ℕ → ℕ
crc_from crc [] = crc
crc_from crc (b ∷ bytes) = crc_from (crc_bits 8 (bit_xor crc b)) bytes

unfoldable pub crc16 : List ℕ → ℕ
crc16 bytes = bit_and (crc_from 0xffff bytes) 0xffff

unfoldable pub validate_crc : List ℕ → Bool
validate_crc bytes =
    let n = length bytes in
    let crc = crc16 (take (n - 2) bytes) in
    let lo = get_or bytes (n - 2) 0 in
    let hi = get_or bytes (n - 1) 0 in
    if ltb n 3 then false else lo == bit_and crc 0xff && hi == bit_and (crc / 256) 0xff
