-- ===== src/Registers/Bytes.antt =====
-- The byte of a block of bits that `applyRegisterUpdate` creates.
use modbus_simulator_go.Base.{
  ℕ, zero, suc, ◌+◌, ◌-◌, ◌*◌, ◌/◌, ◌%◌, ◌≤◌, ◌<◌, ◌≡◌, refl, ◌∙◌, Bool, true, false, ◌&&◌, [], ◌∷◌,
  some, leb, ltb, ◌==◌, arith, if◌then◌else◌,
}
use modbus_simulator_go.Hex.{hex_to_bytes, bytes_to_hex}
use modbus_simulator_go.Hex.Bytes.{hex_to_bytes-bytes_to_hex}
use modbus_simulator_go.Address.{Register}
use modbus_simulator_go.Registers.{Values, bit_value, byte_from, has_bit, new_register}
use modbus_simulator_go.Registers.Bits.{bit_at}

-- The bit of the update at an address; none outside of it is set.
abbrev pub value_at : Values → ℕ → Bool
value_at v addr =
    leb v.logical_start addr
    && (ltb addr (v.logical_start + v.quantity) && bit_value v.data_bytes (addr - v.logical_start))

abbrev digit : Bool → ℕ
digit b = if b then 1 else 0

digit-le : (b : Bool) → digit b ≤ 1
digit-le true = omega arith
digit-le false = omega arith

odd-digit : (b : Bool) (n : ℕ) → n ≡ digit b → (n == 1) ≡ b
odd-digit true n e = ground arith
odd-digit false n e = ground arith

-- Eight bits as a byte, the lowest first.
abbrev packed : (b0 b1 b2 b3 b4 b5 b6 b7 : Bool) → ℕ
packed b0 b1 b2 b3 b4 b5 b6 b7 =
    (if b0 then 1 else 0)
    + ((if b1 then 2 else 0)
        + ((if b2 then 4 else 0)
            + ((if b3 then 8 else 0)
                + ((if b4 then 16 else 0)
                    + ((if b5 then 32 else 0)
                        + ((if b6 then 64 else 0) + ((if b7 then 128 else 0) + 0)))))))

term : (b : Bool) (w : ℕ) → (if b then w else 0) ≡ digit b * w
term true w = grind arith
term false w = grind arith

-- The digits of a byte to the base 2.
base_two :
    (n0 n1 n2 n3 n4 n5 n6 n7 : ℕ)
    → n0 ≤ 1
    → n1 ≤ 1
    → n2 ≤ 1
    → n3 ≤ 1
    → n4 ≤ 1
    → n5 ≤ 1
    → n6 ≤ 1
    → n7 ≤ 1
    → (let x =
          n0
          + (n1 * 2 + (n2 * 4 + (n3 * 8 + (n4 * 16 + (n5 * 32 + (n6 * 64 + (n7 * 128 + 0))))))) in
        (x / 1 % 2 ≡ n0)
        × (x / 2 % 2 ≡ n1)
        × (x / 4 % 2 ≡ n2)
        × (x / 8 % 2 ≡ n3)
        × (x / 16 % 2 ≡ n4)
        × (x / 32 % 2 ≡ n5)
        × (x / 64 % 2 ≡ n6)
        × (x / 128 % 2 ≡ n7)
        × (x < 256))
base_two n0 n1 n2 n3 n4 n5 n6 n7 h0 h1 h2 h3 h4 h5 h6 h7 = (
  omega arith,
  omega arith,
  omega arith,
  omega arith,
  omega arith,
  omega arith,
  omega arith,
  omega arith,
  omega arith,
)

packed-digits :
    (b0 b1 b2 b3 b4 b5 b6 b7 : Bool)
    → (let x = packed b0 b1 b2 b3 b4 b5 b6 b7 in
        (x / 1 % 2 ≡ digit b0)
        × (x / 2 % 2 ≡ digit b1)
        × (x / 4 % 2 ≡ digit b2)
        × (x / 8 % 2 ≡ digit b3)
        × (x / 16 % 2 ≡ digit b4)
        × (x / 32 % 2 ≡ digit b5)
        × (x / 64 % 2 ≡ digit b6)
        × (x / 128 % 2 ≡ digit b7)
        × (x < 256))
packed-digits b0 b1 b2 b3 b4 b5 b6 b7 =
    rw (term b1 2, term b2 4, term b3 8, term b4 16, term b5 32, term b6 64, term b7 128)
      (base_two (digit b0) (digit b1) (digit b2) (digit b3) (digit b4) (digit b5) (digit b6)
        (digit b7) (digit-le b0) (digit-le b1) (digit-le b2) (digit-le b3) (digit-le b4)
        (digit-le b5) (digit-le b6) (digit-le b7))

abbrev pub created_byte : Values → ℕ → ℕ
created_byte v s = byte_from v 8 0 s

packed_values :
    (v : Values) (s : ℕ)
    → created_byte v s
      ≡ packed
          (value_at v (s + 0))
          (value_at v (s + 1))
          (value_at v (s + 2))
          (value_at v (s + 3))
          (value_at v (s + 4))
          (value_at v (s + 5))
          (value_at v (s + 6))
          (value_at v (s + 7))
unfolding byte_from bit_value
packed_values v s = refl

-- The bit of the created byte for each of its eight addresses, none beyond.
abbrev pub HasBits : Values → ℕ → ℕ → Type 0
HasBits v s byte = (k : ℕ) → k < 8 → has_bit byte k ≡ value_at v (s + k)

packed-HasBits :
    (v : Values) (s : ℕ)
    → HasBits v s (
        packed
          (value_at v (s + 0))
          (value_at v (s + 1))
          (value_at v (s + 2))
          (value_at v (s + 3))
          (value_at v (s + 4))
          (value_at v (s + 5))
          (value_at v (s + 6))
          (value_at v (s + 7)))
packed-HasBits v s k h = by_index k h
  where
    by_index :
        (k : ℕ)
        → k < 8
        → has_bit
            (packed
              (value_at v (s + 0))
              (value_at v (s + 1))
              (value_at v (s + 2))
              (value_at v (s + 3))
              (value_at v (s + 4))
              (value_at v (s + 5))
              (value_at v (s + 6))
              (value_at v (s + 7)))
            k
          ≡ value_at v (s + k)
    by_index (zero) h =
        odd-digit (value_at v (s + 0)) _
          (packed-digits (value_at v (s + 0)) (value_at v (s + 1)) (value_at v (s + 2))
            (value_at v (s + 3)) (value_at v (s + 4)) (value_at v (s + 5)) (value_at v (s + 6))
            (value_at v (s + 7))).0
    by_index (suc zero) h =
        odd-digit (value_at v (s + 1)) _
          (packed-digits (value_at v (s + 0)) (value_at v (s + 1)) (value_at v (s + 2))
            (value_at v (s + 3)) (value_at v (s + 4)) (value_at v (s + 5)) (value_at v (s + 6))
            (value_at v (s + 7))).1
    by_index (suc (suc zero)) h =
        odd-digit (value_at v (s + 2)) _
          (packed-digits (value_at v (s + 0)) (value_at v (s + 1)) (value_at v (s + 2))
            (value_at v (s + 3)) (value_at v (s + 4)) (value_at v (s + 5)) (value_at v (s + 6))
            (value_at v (s + 7))).2
    by_index (suc (suc (suc zero))) h =
        odd-digit (value_at v (s + 3)) _
          (packed-digits (value_at v (s + 0)) (value_at v (s + 1)) (value_at v (s + 2))
            (value_at v (s + 3)) (value_at v (s + 4)) (value_at v (s + 5)) (value_at v (s + 6))
            (value_at v (s + 7))).3
    by_index (suc (suc (suc (suc zero)))) h =
        odd-digit (value_at v (s + 4)) _
          (packed-digits (value_at v (s + 0)) (value_at v (s + 1)) (value_at v (s + 2))
            (value_at v (s + 3)) (value_at v (s + 4)) (value_at v (s + 5)) (value_at v (s + 6))
            (value_at v (s + 7))).4
    by_index (suc (suc (suc (suc (suc zero))))) h =
        odd-digit (value_at v (s + 5)) _
          (packed-digits (value_at v (s + 0)) (value_at v (s + 1)) (value_at v (s + 2))
            (value_at v (s + 3)) (value_at v (s + 4)) (value_at v (s + 5)) (value_at v (s + 6))
            (value_at v (s + 7))).5
    by_index (suc (suc (suc (suc (suc (suc zero)))))) h =
        odd-digit (value_at v (s + 6)) _
          (packed-digits (value_at v (s + 0)) (value_at v (s + 1)) (value_at v (s + 2))
            (value_at v (s + 3)) (value_at v (s + 4)) (value_at v (s + 5)) (value_at v (s + 6))
            (value_at v (s + 7))).6
    by_index (suc (suc (suc (suc (suc (suc (suc zero))))))) h =
        odd-digit (value_at v (s + 7)) _
          (packed-digits (value_at v (s + 0)) (value_at v (s + 1)) (value_at v (s + 2))
            (value_at v (s + 3)) (value_at v (s + 4)) (value_at v (s + 5)) (value_at v (s + 6))
            (value_at v (s + 7))).7
    by_index (suc (suc (suc (suc (suc (suc (suc (suc k)))))))) h = absurd (omega arith)

-- A block whose eight bits are those of the update at its addresses, and not set beyond it.
abbrev pub HoldsBits : Values → Register → Type 0
HoldsBits v reg =
    (k : ℕ) → k < 8 → bit_at (hex_to_bytes reg.hex_data) k ≡ value_at v (reg.start_addr + k)

bit_at_one : (b k : ℕ) → k < 8 → bit_at (some b ∷ []) k ≡ has_bit b k
bit_at_one b k h =
    let at : k / 8 ≡ 0 = omega arith in let bit : k % 8 ≡ k = omega arith in rw (at, bit) refl

pub created-HoldsBits :
    (v : Values) (s : ℕ)
    → HoldsBits v (new_register s (bytes_to_hex (some (byte_from v 8 0 s) ∷ [])))
created-HoldsBits v s k h =
    let small : byte_from v 8 0 s < 256 = rw (packed_values v s) (
      (packed-digits (value_at v (s + 0)) (value_at v (s + 1)) (value_at v (s + 2))
        (value_at v (s + 3)) (value_at v (s + 4)) (value_at v (s + 5)) (value_at v (s + 6))
        (value_at v (s + 7))).8) in
    rw (hex_to_bytes-bytes_to_hex (byte_from v 8 0 s ∷ []) (small, tt))
      (bit_at_one (byte_from v 8 0 s) k h ∙ rw (packed_values v s) (packed-HasBits v s k h))
