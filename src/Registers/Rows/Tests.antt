-- ===== src/Registers/Rows/Tests.antt =====
-- The theorems on the rows of a register table at concrete blocks.
use modbus_simulator_go.Base.{
  ℕ, ◌≡◌, refl, Option, List, [], ◌∷◌, Text, codes, length, map, text_eq, All,
}
use modbus_simulator_go.Base.Int.{ℤ}
use modbus_simulator_go.Base.Dict.{entry}
use modbus_simulator_go.Address.{Register, count_points, get_reg_type}
use modbus_simulator_go.Registers.{is_of_type}
use modbus_simulator_go.Registers.Cells.{Cache, cached, load_tab_content}
use modbus_simulator_go.Registers.Rows.{render_register_rows}
use modbus_simulator_go.Registers.Rows.Cover.{IsRowOf, render_register_rows-AllRows}
use modbus_simulator_go.Registers.Rows.Count.{IsWhole, length-render_register_rows}

abbrev block : ℕ → Text → Register
block start hex = record {
  id = codes "r";
  start_addr = start;
  hex_data = hex;
  names = codes "a,b";
  coefficients = [];
  jitter_amp = 0;
}

-- Two words, a gap, and one word.
abbrev blocks : List Register
blocks = block 40001 (codes "00010002") ∷ block 40005 (codes "0003") ∷ []

abbrev cache : Cache
cache = (codes "s", blocks) ∷ []

abbrev scaled : Option ℤ → Option Text → Text
scaled value coeff = codes "1"

abbrev show : List ℕ → Text
show bytes = codes "0"

sample_rows :
    map {B = ℕ × ℕ × ℕ}
      (λ r. (r.addr, r.idx, r.seg_class))
      (render_register_rows scaled show 3 blocks)
    ≡ (40001, 0, 0) ∷ (40002, 1, 0) ∷ (40005, 0, 1) ∷ []
unfolding render_register_rows
sample_rows = refl

render_register_rows-AllRows_example :
    All (IsRowOf blocks) (render_register_rows scaled show 3 blocks)
render_register_rows-AllRows_example = render_register_rows-AllRows scaled show 3 blocks

shown-IsWhole : All (IsWhole 3) (load_tab_content 3 (codes "s") cache)
unfolding load_tab_content is_of_type get_reg_type entry text_eq
shown-IsWhole = (refl, (refl, tt))

length-render_register_rows_example :
    length (render_register_rows scaled show 3 (load_tab_content 3 (codes "s") cache))
    ≡ count_points 3 (cached (entry (codes "s") cache))
length-render_register_rows_example =
    length-render_register_rows scaled show 3 (codes "s") cache shown-IsWhole
