-- ===== src/Address/Ranges.antt =====
-- The types are apart, and a PDU address within the range of its type is mapped into it.
use modbus_simulator_go.Base.{ℕ, ◌+◌, ◌-◌, ◌≤◌, ◌<◌, ◌≡◌, ◌↔◌, some, arith}
use modbus_simulator_go.Address.{
  RegType, discrete_inputs, holding_registers, get_reg_type, get_reg_type_by_fc, get_logical_start,
  hex_offset,
}

-- How many addresses a type has.
abbrev pub span : RegType → ℕ
span t = t.highest + 1 - t.lowest

-- A read of PDU address `pdu` with a known function code lands in the block of its own type, and
-- the table shows it under the hex of `pdu + 1`, exactly if the type has that many addresses.
pub get_reg_type-get_logical_start :
    (fc pdu : ℕ) (t : RegType)
    → get_reg_type_by_fc fc ≡ some t
    → (get_reg_type (get_logical_start fc pdu) ≡ some t) ↔ (pdu < span t)
unfolding get_reg_type get_reg_type_by_fc get_logical_start
get_reg_type-get_logical_start fc pdu t h = ground arith

-- A function code that the importer reads, at a PDU address of its type, is shown with the hex
-- offset `pdu + 1`, and its address leads back to the function code.
pub hex_offset-get_logical_start :
    (fc pdu : ℕ) (t : RegType)
    → get_reg_type_by_fc fc ≡ some t
    → (hex_offset (get_logical_start fc pdu) fc ≡ pdu + 1) × (t.fc ≡ fc)
unfolding hex_offset get_reg_type_by_fc get_logical_start
hex_offset-get_logical_start fc pdu t h = ground arith

-- The importer takes coils at the PDU addresses 10000 to 19998 for discrete inputs, and input
-- registers at these addresses for holding registers.
pub get_reg_type_overflow :
    (pdu : ℕ)
    → 10000 ≤ pdu
    → pdu ≤ 19998
    → (get_reg_type (get_logical_start 1 pdu) ≡ some discrete_inputs)
      × (get_reg_type (get_logical_start 4 pdu) ≡ some holding_registers)
unfolding get_reg_type get_logical_start
get_reg_type_overflow pdu lo hi = ground arith

get_reg_type_sound :
    (a : ℕ) (t : RegType) → get_reg_type a ≡ some t → (t.lowest ≤ a) × (a ≤ t.highest)
unfolding get_reg_type
get_reg_type_sound a t h = ground arith
