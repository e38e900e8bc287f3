-- ===== src/Crc/Step.antt =====
-- The checksum's step is a permutation of the 16-bit words, so it forgets nothing.
use modbus_simulator_go.Base.{
  ℕ, zero, suc, ◌+◌, ◌*◌, ◌/◌, ◌%◌, ◌<◌, true, ◌≡◌, refl, sym, ap, ◌∙◌, leb, ◌==◌, ==_iff,
  checks_below, checked_below, if◌then◌else◌, bit_xor, arith,
}
use modbus_simulator_go.Base.Bits.{bit_xor-lt}
use modbus_simulator_go.Crc.{crc_bit, crc_bits}

-- The word before a turn: bit 15 tells whether the constant was added.
undo_bit : ℕ → ℕ
undo_bit w = if leb 0x8000 w then bit_xor w 0xa001 * 2 + 1 else w * 2

undo_table :
    checks_below 256
      (λ hi. checks_below 256 (λ lo. undo_bit (crc_bit (hi * 256 + lo)) == hi * 256 + lo))
    ≡ true
unfolding checks_below undo_bit crc_bit
undo_table = refl

undo_bit-crc_bit : (w : ℕ) → w < 0x10000 → undo_bit (crc_bit w) ≡ w
undo_bit-crc_bit w h =
    let row =
      checked_below 256
        (λ hi. checks_below 256 (λ lo. undo_bit (crc_bit (hi * 256 + lo)) == hi * 256 + lo))
        (w / 256) undo_table (omega arith) in
    let cell =
      checked_below 256 (λ lo. undo_bit (crc_bit (w / 256 * 256 + lo)) == w / 256 * 256 + lo)
        (w % 256) row (omega arith) in
    let whole : w / 256 * 256 + w % 256 ≡ w = omega arith in rw whole at ((==_iff _ _).0 cell)

pub crc_bit-lt : (w : ℕ) → w < 0x10000 → crc_bit w < 0x10000
unfolding crc_bit
crc_bit-lt w h = ground (arith, bit_xor-lt 16 (w / 2) 0xa001 (omega arith) (omega arith))

pub crc_bits-lt : (n w : ℕ) → w < 0x10000 → crc_bits n w < 0x10000
unfolding crc_bits
crc_bits-lt zero w h = h
crc_bits-lt (suc n) w h = crc_bits-lt n (crc_bit w) (crc_bit-lt w h)

crc_bit_injective : (v w : ℕ) → v < 0x10000 → w < 0x10000 → crc_bit v ≡ crc_bit w → v ≡ w
crc_bit_injective v w p q e = sym (undo_bit-crc_bit v p) ∙ (ap undo_bit e ∙ undo_bit-crc_bit w q)

pub crc_bits_injective :
    (n v w : ℕ) → v < 0x10000 → w < 0x10000 → crc_bits n v ≡ crc_bits n w → v ≡ w
unfolding crc_bits
crc_bits_injective zero v w p q e = e
crc_bits_injective (suc n) v w p q e =
    crc_bit_injective v w p q
      (crc_bits_injective n (crc_bit v) (crc_bit w) (crc_bit-lt v p) (crc_bit-lt w q) e)
