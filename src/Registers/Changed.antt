-- ===== src/Registers/Changed.antt =====
-- The bits of the blocks that were there before an import, after `applyRegisterUpdate`.
use modbus_simulator_go.Base.{
  ℕ, ◌+◌, ◌-◌, ◌≤◌, ◌<◌, ◌≡◌, ◌⊎◌, refl, ◌∙◌, inl, inr, Bool, true, false, ◌&&◌, ◌%◌, Bool-cases,
  List, [], ◌∷◌, map, Text, to_upper, upper_char, is_hex, length, leb, ltb, All, arith,
  if◌then◌else◌,
}
use modbus_simulator_go.Base.Digits.{digit_value}
use modbus_simulator_go.Hex.{hex_to_bytes}
use modbus_simulator_go.Hex.Bytes.{IsHex, parse_int_16_pair}
use modbus_simulator_go.Address.{Register, covers, is_bit_type, register_stop}
use modbus_simulator_go.Registers.{
  Values, bit_value, is_of_type, updated_bits, overlap_start, overlap_stop,
}
use modbus_simulator_go.Registers.Bits.{bit_at, bit_stop, upper_char-IsHex, updated_bits_lem}
use modbus_simulator_go.Registers.Update.{is_met, touched}

digit_value-upper_char : (c : ℕ) → IsHex c → digit_value (upper_char c) ≡ digit_value c
unfolding digit_value is_hex upper_char
digit_value-upper_char c h = ground arith

hex_to_bytes-to_upper :
    (s : Text) → All IsHex s → length s % 2 ≡ 0 → hex_to_bytes (to_upper s) ≡ hex_to_bytes s
unfolding hex_to_bytes
hex_to_bytes-to_upper [] h e = refl
hex_to_bytes-to_upper (a ∷ []) h e = absurd (omega arith)
hex_to_bytes-to_upper (a ∷ b ∷ s) (p, (q, hs)) e =
    rw
      (
        parse_int_16_pair a b p q,
        parse_int_16_pair (upper_char a) (upper_char b) (upper_char-IsHex a p)
            (upper_char-IsHex b q),
        digit_value-upper_char a p,
        digit_value-upper_char b q,
        hex_to_bytes-to_upper s hs (omega arith),
      )
      refl

-- The digits of a block as the server keeps them: whole bytes of hexadecimal digits.
abbrev pub IsBytes : Register → Type 0
IsBytes reg = All IsHex reg.hex_data × (length reg.hex_data % 2 ≡ 0)

-- The bit that a block has at an address.
abbrev pub bit_of : Register → ℕ → Bool
bit_of reg a = bit_at (hex_to_bytes reg.hex_data) (a - reg.start_addr)

-- What an import of bits does to a block as far as an address is concerned: a block of another type
-- is left alone; one of the type that covers the address has the bit of the update there, or its own
-- where the update does not reach. Nothing but the digits changes.
abbrev pub HasBit : ℕ → Values → ℕ → Register → Register → Type 0
HasBit fc v a reg reg' =
    (reg' ≡ record reg { hex_data = reg'.hex_data })
    × ((is_of_type fc reg ≡ true) ⊎ (reg' ≡ reg))
    × (((is_of_type fc reg && covers reg a) ≡ false)
        ⊎ (bit_of reg' a ≡ (
            if leb v.logical_start a && ltb a (v.logical_start + v.quantity)
            then bit_value v.data_bytes (a - v.logical_start)
            else bit_of reg a)))

-- Each block, and what has become of it.
abbrev pub AllBoth : (Register → Register → Type 0) → List Register → List Register → Type 0
AllBoth R [] [] = Unit
AllBoth R (reg ∷ regs) (new ∷ news) = R reg new × AllBoth R regs news
AllBoth R _ _ = ⊥

module _ (fc : ℕ) (bits : is_bit_type fc ≡ true) (v : Values) (a : ℕ) where
  met-bit :
      (reg : Register)
      → IsBytes reg
      → is_met fc v reg ≡ true
      → covers reg a ≡ true
      → bit_of (updated_bits v reg) a ≡ (
          if leb v.logical_start a && ltb a (v.logical_start + v.quantity)
          then bit_value v.data_bytes (a - v.logical_start)
          else bit_of reg a)
  met-bit reg (hex, even) met at =
      let t : is_of_type fc reg ≡ true = ground arith in
      let meets : overlap_start v reg < overlap_stop v reg = ground arith in
      let stop = bit_stop fc reg t bits in
      let same : (updated_bits v reg).start_addr ≡ reg.start_addr = unfold updated_bits in refl in
      let from : reg.start_addr ≤ a = ground arith in
      let below : a < register_stop reg = ground arith in
      let j = a - reg.start_addr in
      let back : reg.start_addr + j ≡ a = omega arith in
      let value = updated_bits_lem fc v reg j hex even t bits meets (omega arith) in
      rw same (value ∙ rw (back, hex_to_bytes-to_upper reg.hex_data hex even) refl)

  met-HasBit :
      (reg : Register)
      → IsBytes reg
      → is_met fc v reg ≡ true
      → HasBit fc v a reg (updated_bits v reg)
  met-HasBit reg h met = (
    unfold updated_bits in refl,
    inl (ground arith),
    elim (Bool-cases (covers reg a)) [
      | inr away ↦ inl (ground arith)
      | inl at ↦ inr (met-bit reg h met at)
    ],
  )

  other-HasBit : (reg : Register) → is_met fc v reg ≡ false → HasBit fc v a reg reg
  other-HasBit reg other = (
    refl,
    inr refl,
    elim (Bool-cases (is_of_type fc reg && covers reg a)) [
      | inr away ↦ inl away
      | inl at ↦
          let t : is_of_type fc reg ≡ true = ground arith in
          let apart : overlap_stop v reg ≤ overlap_start v reg = ground arith in
          let beyond : (leb v.logical_start a && ltb a (v.logical_start + v.quantity)) ≡ false =
            ground arith in
          inr (rw beyond refl)
    ],
  )

  touched-HasBit :
      (reg : Register) → IsBytes reg → HasBit fc v a reg (touched (updated_bits v) fc v reg)
  touched-HasBit reg h = elim (Bool-cases (is_met fc v reg)) [
    | inl met ↦ rw met (met-HasBit reg h met)
    | inr other ↦ rw other (other-HasBit reg other)
  ]

  pub All-HasBit :
      (regs : List Register)
      → All IsBytes regs
      → AllBoth (HasBit fc v a) regs (map (touched (updated_bits v) fc v) regs)
  All-HasBit [] h = tt
  All-HasBit (reg ∷ regs) (h, hs) = (touched-HasBit reg h, All-HasBit regs hs)
