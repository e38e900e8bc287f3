-- ===== src/Address.antt =====
-- The register types of app.js and the address helpers on them: `regTypes`, `getRegType`,
-- `getRegTypeByFc`, `getLogicalStart`, `formatHexAddr`, `formatSlaveAddr`, `getRegisterEndAddr`,
-- `isAddressCoveredByRegs`, and the counts that `updateRegTypeCounts` and `openFirstRegTypeIfAny`
-- compute. Addresses are natural numbers; the end address of a block is modelled as the address
-- behind it, since an empty block ends one address before its start.
pub mod Ranges
mod Tests
use modbus_simulator_go.Base.{
  ℕ, ◌+◌, ◌-◌, ◌*◌, ◌/◌, Bool, true, false, ◌&&◌, ◌||◌, Option, none, some, List, [], ◌∷◌, Text,
  codes, length, find, any, ltb, leb, ◌==◌, if◌then◌else◌, pad_start, to_upper, upper_char,
}
use modbus_simulator_go.Base.Digits.{to_base, to_decimal}

pub record RegType : Type 0 where
  pub title : Text
  pub fc : ℕ
  pub lowest : ℕ
  pub highest : ℕ

abbrev pub coils : RegType
coils = record { title = codes "01线圈Coils"; fc = 1; lowest = 1; highest = 9999 }

abbrev pub discrete_inputs : RegType
discrete_inputs = record {
  title = codes "02离散输入Discrete Inputs";
  fc = 2;
  lowest = 10001;
  highest = 19999;
}

abbrev pub input_registers : RegType
input_registers = record {
  title = codes "04输入寄存器Input Registers";
  fc = 4;
  lowest = 30001;
  highest = 39999;
}

abbrev pub holding_registers : RegType
holding_registers = record {
  title = codes "03保持寄存器Holding Registers";
  fc = 3;
  lowest = 40001;
  highest = 105536;
}

abbrev pub reg_types : List RegType
reg_types = coils ∷ discrete_inputs ∷ input_registers ∷ holding_registers ∷ []

unfoldable pub get_reg_type : ℕ → Option RegType
get_reg_type start_addr = find (λ t. leb t.lowest start_addr && leb start_addr t.highest) reg_types

unfoldable pub get_reg_type_by_fc : ℕ → Option RegType
get_reg_type_by_fc fc = find (λ t. t.fc == fc) reg_types

unfoldable pub get_logical_start : ℕ → ℕ → ℕ
get_logical_start fc pdu_addr =
    if fc == 1
    then pdu_addr + 1
    else if fc == 2
    then pdu_addr + 10001
    else if fc == 4
    then pdu_addr + 30001
    else if fc == 3
    then pdu_addr + 40001
    else pdu_addr + 1

-- `base` in `formatHexAddr`
unfoldable pub base_of : ℕ → ℕ
base_of fc = if fc == 2 then 10001 else if fc == 4 then 30001 else if fc == 3 then 40001 else 1

-- `offset < 1` holds for an address below the base of its type.
unfoldable pub hex_offset : ℕ → ℕ → ℕ
unfolding base_of
hex_offset addr fc = if ltb addr (base_of fc) then addr else addr - base_of fc + 1

unfoldable pub format_hex_addr : ℕ → ℕ → Text
unfolding hex_offset upper_char
format_hex_addr addr fc = pad_start 4 (to_upper (to_base 16 (hex_offset addr fc)))

unfoldable pub format_slave_addr : ℕ → Text
format_slave_addr addr = pad_start 2 (to_decimal addr)

pub record Register : Type 0 where
  pub id : Text
  pub start_addr : ℕ
  pub hex_data : Text
  pub names : Text
  pub coefficients : Text
  pub jitter_amp : ℕ

abbrev pub is_bit_type : ℕ → Bool
is_bit_type fc = fc == 1 || fc == 2

-- One more than `getRegisterEndAddr`: the source adds a quotient of `length`, whose part of an
-- address never reaches the next one.
unfoldable pub register_stop : Register → ℕ
unfolding get_reg_type
register_stop reg = elim (get_reg_type reg.start_addr) [
  | none ↦ reg.start_addr + 1
  | some rt ↦
      if is_bit_type rt.fc
      then reg.start_addr + length reg.hex_data * 4
      else reg.start_addr + length reg.hex_data / 4
]

abbrev pub covers : Register → ℕ → Bool
covers reg addr = leb reg.start_addr addr && ltb addr (register_stop reg)

unfoldable pub is_address_covered_by_regs : ℕ → List Register → Bool
is_address_covered_by_regs addr regs = any (λ reg. covers reg addr) regs

-- How many points a block adds to the count of its type.
unfoldable pub points : RegType → Register → ℕ
points rt reg = if is_bit_type rt.fc then length reg.hex_data * 4 else length reg.hex_data / 4

-- `counts[fc]` after the loop over the registers.
unfoldable pub count_points : ℕ → List Register → ℕ
count_points fc [] = 0
count_points fc (reg ∷ regs) = elim (get_reg_type reg.start_addr) [
  | none ↦ count_points fc regs
  | some rt ↦ if rt.fc == fc then points rt reg + count_points fc regs else count_points fc regs
]

-- One round of the loop over the registers in `openFirstRegTypeIfAny`, which keeps all counts at
-- once: `counts` gives the count for each function code.
unfoldable pub add_to_counts : Register → (ℕ → ℕ) → ℕ → ℕ
add_to_counts reg counts = elim (get_reg_type reg.start_addr) [
  | none ↦ counts
  | some rt ↦ λ fc.
      if rt.fc == fc
      then counts fc
        + (if rt.fc == 1 || rt.fc == 2
            then length reg.hex_data * 8 / 2
            else length reg.hex_data / 4)
      else counts fc
]

unfoldable pub counts_after : List Register → (ℕ → ℕ) → ℕ → ℕ
unfolding add_to_counts get_reg_type
counts_after [] counts = counts
counts_after (reg ∷ regs) counts = counts_after regs (add_to_counts reg counts)

-- The type whose tab `openFirstRegTypeIfAny` opens.
unfoldable pub first_reg_type : List Register → Option RegType
unfolding counts_after
first_reg_type regs = find (λ rt. ltb 0 (counts_after regs (λ fc. 0) rt.fc)) reg_types
