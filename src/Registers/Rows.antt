-- ===== src/Registers/Rows.antt =====
-- The rows of a register table, `renderRegisterRows` of app.js, as data: what a row of the table shows
-- and which cell of which block it edits. `formatNumber` of a value times its coefficient and of a
-- float of four bytes are arguments, since both compute on floats.
pub mod Segments
pub mod Cover
pub mod Count
mod Tests
use modbus_simulator_go.Base.{
  ℕ, zero, suc, ◌+◌, ◌-◌, ◌*◌, ◌/◌, ◌%◌, ◌^◌, Bool, true, false, not, Option, none, some, List, [],
  ◌∷◌, ◌++◌, map, Text, codes, is_empty, length, get_or, get_elem?, take, drop, ltb, ◌==◌,
  if◌then◌else◌,
}
use modbus_simulator_go.Base.Int.{ℤ, pos}
use modbus_simulator_go.Hex.{
  Num, hex_to_bytes, hex_to_int16, hex_to_uint16, hex_to_float32, hex_to_float32_order, Order, abcd,
  badc, cdab, dcba,
}
use modbus_simulator_go.Address.{Register, format_hex_addr, is_bit_type}
use modbus_simulator_go.Registers.{has_bit, or_zero}

-- A word as hex, as two integers and, with the word after it, as floats.
pub record WordCells : Type 0 where
  pub hex : Text
  pub int16 : Text
  pub uint16 : Text
  pub float32 : Text
  pub float32_badc : Text
  pub float32_cdab : Text
  pub float32_dcba : Text

pub data Cells : Type 0 where
  bit_cell : Bool → Cells
  word_cells : WordCells → Cells

-- The block, the index of the bit or word in it, and what is shown.
pub record TableRow : Type 0 where
  pub seg_class : ℕ
  pub reg_id : Text
  pub idx : ℕ
  pub addr : ℕ
  pub hex_addr : Text
  pub cells : Cells
  pub name : Text
  pub edit_button : Bool

abbrev pub add_head : ℕ → List Text → List Text
add_head c [] = (c ∷ []) ∷ []
add_head c (part ∷ parts) = (c ∷ part) ∷ parts

-- `split(',')`
unfoldable pub split_commas : Text → List Text
split_commas [] = [] ∷ []
split_commas (c ∷ s) = let rest = split_commas s in if c == b',' then [] ∷ rest else add_head c rest

-- `reg.names ? reg.names.split(',') : []`, and the same on the coefficients.
unfoldable pub parts_of : Text → List Text
unfolding split_commas
parts_of [] = []
parts_of (c ∷ s) = split_commas (c ∷ s)

-- The variables of the loops: `prevAddr`, `segmentIndex`, `html`.
pub record Loop : Type 0 where
  pub prev_addr : Option ℕ
  pub segment_index : ℕ
  pub html : List TableRow

abbrev pub first_loop : Loop
first_loop = record { prev_addr = none; segment_index = 0; html = [] }

abbrev pub next_segment : Option ℕ → ℕ → ℕ → ℕ
next_segment none addr index = index
next_segment (some prev) addr index = if addr == prev + 1 then index else index + 1

-- One pass of the inner loop: the row is given the class of its segment.
unfoldable pub push_row : TableRow → Loop → Loop
push_row row st =
    let index = next_segment st.prev_addr row.addr st.segment_index in
    record {
      prev_addr = some row.addr;
      segment_index = index;
      html = st.html ++ record row { seg_class = index % 2 } ∷ [];
    }

-- The row of bit `i` of the byte `b`, the bit `bit_index` of the block.
unfoldable pub row_of_bit : ℕ → Register → ℕ → Num → ℕ → TableRow
unfolding parts_of format_hex_addr
row_of_bit fc reg i b bit_index = record {
  seg_class = 0;
  reg_id = reg.id;
  idx = bit_index;
  addr = reg.start_addr + bit_index;
  hex_addr = format_hex_addr (reg.start_addr + bit_index) fc;
  cells = bit_cell (has_bit (or_zero b) i);
  name = get_or (parts_of reg.names) bit_index [];
  edit_button = true;
}

-- `for (let i = …; i < 8; i++)` with `left` passes to go.
unfoldable pub bit_loop : ℕ → Register → Num → ℕ → ℕ → ℕ → Loop → Loop
unfolding push_row row_of_bit
bit_loop fc reg b i zero bit_index st = st
bit_loop fc reg b i (suc left) bit_index st =
    bit_loop fc reg b (i + 1) left (bit_index + 1) (push_row (row_of_bit fc reg i b bit_index) st)

-- `bytes.forEach`
unfoldable pub byte_loop : ℕ → Register → List Num → ℕ → Loop → Loop
unfolding bit_loop
byte_loop fc reg [] bit_index st = st
byte_loop fc reg (b ∷ bytes) bit_index st =
    byte_loop fc reg bytes (bit_index + 8) (bit_loop fc reg b 0 8 bit_index st)

abbrev pub pos_of : Option ℕ → Option ℤ
pos_of none = none
pos_of (some n) = some (pos n)

-- The passes of the loop: `i` is below `hexData.length / 4`, which may have a fraction.
abbrev pub word_passes : Register → ℕ
word_passes reg = (length reg.hex_data + 3) / 4

-- `scaled` is `formatNumber` of a value, NaN being none, times the number that a coefficient reads
-- as, 1 without one; `show` is that of the float of four bytes.
module _ (scaled : Option ℤ → Option Text → Text) (show : List ℕ → Text) where
  unfoldable pub row_of_word : ℕ → Register → ℕ → TableRow
  unfolding parts_of format_hex_addr hex_to_int16 hex_to_uint16 hex_to_float32 hex_to_float32_order
  row_of_word fc reg i =
      let hex_val = take 4 (drop (i * 4) reg.hex_data) in
      let hex32 = take 8 (drop (i * 4) reg.hex_data) in
      let paired = ltb ((i + 1) * 4) (length reg.hex_data) in
      let coeff = get_elem? (parts_of reg.coefficients) i in
      record {
        seg_class = 0;
        reg_id = reg.id;
        idx = i;
        addr = reg.start_addr + i;
        hex_addr = format_hex_addr (reg.start_addr + i) fc;
        cells = word_cells (record {
          hex = hex_val;
          int16 = scaled (hex_to_int16 hex_val) coeff;
          uint16 = scaled (pos_of (hex_to_uint16 hex_val)) coeff;
          float32 = if paired then hex_to_float32 show hex32 else codes "NA";
          float32_badc = if paired then hex_to_float32_order show hex32 badc else codes "NA";
          float32_cdab = if paired then hex_to_float32_order show hex32 cdab else codes "NA";
          float32_dcba = if paired then hex_to_float32_order show hex32 dcba else codes "NA";
        });
        name = get_or (parts_of reg.names) i [];
        edit_button = i == 0;
      }

  -- `for (let i = …; i < regCount; i++)` with `left` passes to go.
  unfoldable pub word_loop : ℕ → Register → ℕ → ℕ → Loop → Loop
  unfolding push_row row_of_word
  word_loop fc reg i zero st = st
  word_loop fc reg i (suc left) st =
      word_loop fc reg (i + 1) left (push_row (row_of_word fc reg i) st)

  unfoldable pub render_loop : ℕ → List Register → Loop → Loop
  unfolding byte_loop word_loop hex_to_bytes
  render_loop fc [] st = st
  render_loop fc (reg ∷ regs) st =
      let st' =
        if is_bit_type fc
        then byte_loop fc reg (hex_to_bytes reg.hex_data) 0 st
        else word_loop fc reg 0 (word_passes reg) st in
      render_loop fc regs st'

  unfoldable pub render_register_rows : ℕ → List Register → List TableRow
  unfolding render_loop
  render_register_rows fc regs = (render_loop fc regs first_loop).html
