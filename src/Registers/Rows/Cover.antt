-- ===== src/Registers/Rows/Cover.antt =====
-- The rows of a register table against the blocks: which bit or word each shows, and how many there
-- are.
use mathlib.Core.List.{Mem, mem-cons_self, mem-cons_of_mem}
use modbus_simulator_go.Base.{
  ℕ, zero, suc, ◌+◌, ◌*◌, ◌/◌, ◌%◌, ◌≤◌, ◌<◌, ◌≡◌, refl, sym, ◌∙◌, inl, inr, Bool-cases, Option,
  none, List, [], ◌∷◌, ◌++◌, append_assoc, Text, length, get_or, All, All-append, length-append,
  arith,
}
use modbus_simulator_go.Base.Int.{ℤ}
use modbus_simulator_go.Hex.{Num, hex_to_bytes}
use modbus_simulator_go.Address.{Register, is_bit_type}
use modbus_simulator_go.Registers.Bits.{bit_at}
use modbus_simulator_go.Registers.Words.{word_text}
use modbus_simulator_go.Registers.Rows.{
  TableRow, Cells, bit_cell, word_cells, Loop, first_loop, push_row, row_of_bit, bit_loop,
  byte_loop, row_of_word, word_loop, word_passes, render_loop, render_register_rows,
}

-- What a cell shows is the bit or the word of the block at the index, which is one of the block.
abbrev pub ShowsAt : Register → ℕ → Cells → Type 0
ShowsAt reg i (bit_cell b) =
    (i < length (hex_to_bytes reg.hex_data) * 8) × (b ≡ bit_at (hex_to_bytes reg.hex_data) i)
ShowsAt reg i (word_cells w) = (i * 4 < length reg.hex_data) × (w.hex ≡ word_text reg.hex_data i)

-- A row is about a bit or a word of one of the blocks, the one that its controls edit.
abbrev pub IsRowOf : List Register → TableRow → Type 0
IsRowOf regs row =
    (reg : Register) × Mem reg regs
    × (row.reg_id ≡ reg.id)
    × (row.addr ≡ reg.start_addr + row.idx)
    × ShowsAt reg row.idx row.cells

byte_start : (k n i : ℕ) → k ≡ n * 8 + i → i < 8 → (k / 8 ≡ n) × (k % 8 ≡ i)
byte_start k n i e h = omega arith

get_or-append : (pre post : List Num) (b : Num) → get_or (pre ++ b ∷ post) (length pre) none ≡ b
get_or-append [] post b = refl
get_or-append (a ∷ pre) post b = get_or-append pre post b

module _ (regs : List Register) where
  push_row-All :
      (row : TableRow) (st : Loop)
      → IsRowOf regs row
      → All (IsRowOf regs) st.html
      → All (IsRowOf regs) (push_row row st).html
  unfolding push_row
  push_row-All row st r h = All-append (IsRowOf regs) st.html _ h (r, tt)

  module _ (fc : ℕ) (reg : Register) (here : Mem reg regs) where
    row_of_bit-IsRowOf :
        (i : ℕ) (b : Num) (k n : ℕ)
        → n < length (hex_to_bytes reg.hex_data)
        → get_or (hex_to_bytes reg.hex_data) n none ≡ b
        → k ≡ n * 8 + i
        → i < 8
        → IsRowOf regs (row_of_bit fc reg i b k)
    unfolding row_of_bit
    row_of_bit-IsRowOf i b k n room at e h =
        let (q, r) = byte_start k n i e h in
        (reg, here, refl, refl, (omega arith, rw (q, r, at) refl))

    bit_loop-All :
        (b : Num) (i left k n : ℕ) (st : Loop)
        → n < length (hex_to_bytes reg.hex_data)
        → get_or (hex_to_bytes reg.hex_data) n none ≡ b
        → k ≡ n * 8 + i
        → i + left ≤ 8
        → All (IsRowOf regs) st.html
        → All (IsRowOf regs) (bit_loop fc reg b i left k st).html
    unfolding bit_loop
    bit_loop-All b i zero k n st room at e le h = h
    bit_loop-All b i (suc left) k n st room at e le h =
        bit_loop-All b (i + 1) left (k + 1) n (push_row (row_of_bit fc reg i b k) st) room at
          (omega arith) (omega arith)
          (push_row-All (row_of_bit fc reg i b k) st
            (row_of_bit-IsRowOf i b k n room at e (omega arith)) h)

    byte_loop-All :
        (pre bytes : List Num) (k : ℕ) (st : Loop)
        → hex_to_bytes reg.hex_data ≡ pre ++ bytes
        → k ≡ length pre * 8
        → All (IsRowOf regs) st.html
        → All (IsRowOf regs) (byte_loop fc reg bytes k st).html
    unfolding byte_loop
    byte_loop-All pre [] k st split e h = h
    byte_loop-All pre (b ∷ bytes) k st split e h =
        let size = length-append pre (b ∷ bytes) in
        let size' = length-append pre (b ∷ []) in
        byte_loop-All (pre ++ b ∷ []) bytes (k + 8) (bit_loop fc reg b 0 8 k st)
          (split ∙ sym (append_assoc pre (b ∷ []) bytes)) (omega arith)
          (bit_loop-All b 0 8 k (length pre) st (rw (split, size) (omega arith))
            (rw split (get_or-append pre bytes b)) (omega arith) (omega arith) h)

    module _ (scaled : Option ℤ → Option Text → Text) (show : List ℕ → Text) where
      word_loop-All :
          (i left : ℕ) (st : Loop)
          → i + left ≤ word_passes reg
          → All (IsRowOf regs) st.html
          → All (IsRowOf regs) (word_loop scaled show fc reg i left st).html
      unfolding word_loop row_of_word
      word_loop-All i zero st le h = h
      word_loop-All i (suc left) st le h =
          word_loop-All (i + 1) left (push_row (row_of_word scaled show fc reg i) st) (omega arith)
            (push_row-All (row_of_word scaled show fc reg i) st
              (reg, here, refl, refl, (omega arith, refl)) h)

  module _ (scaled : Option ℤ → Option Text → Text) (show : List ℕ → Text) (fc : ℕ) where
    render_loop-All :
        (rest : List Register) (st : Loop)
        → ((reg : Register) → Mem reg rest → Mem reg regs)
        → All (IsRowOf regs) st.html
        → All (IsRowOf regs) (render_loop scaled show fc rest st).html
    unfolding render_loop
    render_loop-All [] st sub h = h
    render_loop-All (reg ∷ rest) st sub h =
        let here = sub reg mem-cons_self in
        let later : (r : Register) → Mem r rest → Mem r regs =
          λ r m. sub r (mem-cons_of_mem reg m) in
        elim (Bool-cases (is_bit_type fc)) [
          | inl bits ↦
              rw (All, render_loop, bits)
                (render_loop-All rest (byte_loop fc reg (hex_to_bytes reg.hex_data) 0 st) later
                  (byte_loop-All fc reg here [] (hex_to_bytes reg.hex_data) 0 st refl refl h))
          | inr words ↦
              rw (All, render_loop, words)
                (render_loop-All rest (word_loop scaled show fc reg 0 (word_passes reg) st) later
                  (word_loop-All fc reg here scaled show 0 (word_passes reg) st (omega arith) h))
        ]

-- Every row of a register table shows the bit or the word of a block that is there, under the
-- block's id, at the index that its controls edit, and at the address of that bit or word.
pub render_register_rows-AllRows :
    (scaled : Option ℤ → Option Text → Text) (show : List ℕ → Text) (fc : ℕ) (regs : List Register)
    → All (IsRowOf regs) (render_register_rows scaled show fc regs)
unfolding render_register_rows
render_register_rows-AllRows scaled show fc regs =
    render_loop-All regs scaled show fc regs first_loop (λ reg m. m) tt
