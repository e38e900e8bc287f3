-- ===== src/Registers/Rows/Segments.antt =====
-- The segments of a register table: where its rows change colour.
use modbus_simulator_go.Base.{
  ◌↔◌, ◌<◌, ℕ, zero, suc, ◌+◌, ◌%◌, ◌≡◌, refl, inl, inr, Bool-cases, Option, none, some, List, [],
  ◌∷◌, ◌++◌, arith, Text,
}
use modbus_simulator_go.Base.Int.{ℤ}
use modbus_simulator_go.Hex.{Num, hex_to_bytes}
use modbus_simulator_go.Address.{Register, is_bit_type}
use modbus_simulator_go.Registers.Rows.{
  TableRow, Loop, first_loop, next_segment, push_row, row_of_bit, bit_loop, byte_loop, row_of_word,
  word_loop, word_passes, render_loop, render_register_rows,
}

-- Two rows that follow each other have one class exactly where their addresses follow each other.
abbrev pub Follows : TableRow → TableRow → Type 0
Follows a b = (b.seg_class < 2) × ((b.addr ≡ a.addr + 1) ↔ (a.seg_class ≡ b.seg_class))

abbrev pub AreSegmented : List TableRow → Type 0
AreSegmented [] = Unit
AreSegmented (a ∷ []) = a.seg_class < 2
AreSegmented (a ∷ b ∷ rows) = (a.seg_class < 2) × Follows a b × AreSegmented (b ∷ rows)

abbrev last_row : List TableRow → Option TableRow
last_row [] = none
last_row (a ∷ []) = some a
last_row (a ∷ b ∷ rows) = last_row (b ∷ rows)

abbrev FollowsLast : Option TableRow → TableRow → Type 0
FollowsLast none b = b.seg_class ≡ 0
FollowsLast (some a) b = Follows a b

AreSegmented-snoc :
    (rows : List TableRow) (b : TableRow)
    → AreSegmented rows
    → FollowsLast (last_row rows) b
    → AreSegmented (rows ++ b ∷ [])
AreSegmented-snoc [] b h f = ground arith
AreSegmented-snoc (a ∷ []) b h f = (h, f, f.0)
AreSegmented-snoc (a ∷ c ∷ rows) b (ha, f, hs) fl = (ha, f, AreSegmented-snoc (c ∷ rows) b hs fl)

last_row-snoc : (rows : List TableRow) (b : TableRow) → last_row (rows ++ b ∷ []) ≡ some b
last_row-snoc [] b = refl
last_row-snoc (a ∷ []) b = refl
last_row-snoc (a ∷ c ∷ rows) b = last_row-snoc (c ∷ rows) b

-- What `prevAddr` and `segmentIndex` say of the last row.
abbrev IsLast : Option TableRow → Loop → Type 0
IsLast none st = (st.prev_addr ≡ none) × (st.segment_index ≡ 0)
IsLast (some a) st = (st.prev_addr ≡ some a.addr) × (a.seg_class ≡ st.segment_index % 2)

record IsLoop (st : Loop) : Type 0 where
  segmented : AreSegmented st.html
  last : IsLast (last_row st.html) st

follows_lem :
    (class prev addr index : ℕ)
    → class ≡ index % 2
    → (next_segment (some prev) addr index % 2 < 2)
      × ((addr ≡ prev + 1) ↔ (class ≡ next_segment (some prev) addr index % 2))
follows_lem class prev addr index h = ground arith

FollowsLast-pushed :
    (o : Option TableRow) (row : TableRow) (st : Loop)
    → IsLast o st
    → FollowsLast o
        (record row { seg_class = next_segment st.prev_addr row.addr st.segment_index % 2 })
FollowsLast-pushed none row st h = rw (h.0, h.1) refl
FollowsLast-pushed (some a) row st h =
    rw (FollowsLast, h.0) (follows_lem a.seg_class a.addr row.addr st.segment_index h.1)

push_row-IsLoop : (row : TableRow) (st : Loop) → IsLoop st → IsLoop (push_row row st)
unfolding push_row
push_row-IsLoop row st h =
    let row' : TableRow = record row {
      seg_class = next_segment st.prev_addr row.addr st.segment_index % 2;
    } in
    record {
      segmented =
          AreSegmented-snoc st.html row' h.segmented
            (FollowsLast-pushed (last_row st.html) row st h.last);
      last = rw (IsLast, last_row-snoc st.html row') (refl, refl);
    }

bit_loop-IsLoop :
    (fc : ℕ) (reg : Register) (b : Num) (i left k : ℕ) (st : Loop)
    → IsLoop st
    → IsLoop (bit_loop fc reg b i left k st)
unfolding bit_loop
bit_loop-IsLoop fc reg b i zero k st h = h
bit_loop-IsLoop fc reg b i (suc left) k st h =
    bit_loop-IsLoop fc reg b (i + 1) left (k + 1) (push_row (row_of_bit fc reg i b k) st)
      (push_row-IsLoop (row_of_bit fc reg i b k) st h)

byte_loop-IsLoop :
    (fc : ℕ) (reg : Register) (bytes : List Num) (k : ℕ) (st : Loop)
    → IsLoop st
    → IsLoop (byte_loop fc reg bytes k st)
unfolding byte_loop
byte_loop-IsLoop fc reg [] k st h = h
byte_loop-IsLoop fc reg (b ∷ bytes) k st h =
    byte_loop-IsLoop fc reg bytes (k + 8) (bit_loop fc reg b 0 8 k st)
      (bit_loop-IsLoop fc reg b 0 8 k st h)

module _ (scaled : Option ℤ → Option Text → Text) (show : List ℕ → Text) where
  word_loop-IsLoop :
      (fc : ℕ) (reg : Register) (i left : ℕ) (st : Loop)
      → IsLoop st
      → IsLoop (word_loop scaled show fc reg i left st)
  unfolding word_loop
  word_loop-IsLoop fc reg i zero st h = h
  word_loop-IsLoop fc reg i (suc left) st h =
      word_loop-IsLoop fc reg (i + 1) left (push_row (row_of_word scaled show fc reg i) st)
        (push_row-IsLoop (row_of_word scaled show fc reg i) st h)

  render_loop-IsLoop :
      (fc : ℕ) (regs : List Register) (st : Loop)
      → IsLoop st
      → IsLoop (render_loop scaled show fc regs st)
  unfolding render_loop
  render_loop-IsLoop fc [] st h = h
  render_loop-IsLoop fc (reg ∷ regs) st h = elim (Bool-cases (is_bit_type fc)) [
    | inl bits ↦
        rw (render_loop, bits)
          (render_loop-IsLoop fc regs (byte_loop fc reg (hex_to_bytes reg.hex_data) 0 st)
            (byte_loop-IsLoop fc reg (hex_to_bytes reg.hex_data) 0 st h))
    | inr words ↦
        rw (render_loop, words)
          (render_loop-IsLoop fc regs (word_loop scaled show fc reg 0 (word_passes reg) st)
            (word_loop-IsLoop fc reg 0 (word_passes reg) st h))
  ]

  -- Over the whole of a register table, across the blocks too: two rows that follow each other have
  -- the same of the two colours exactly where the address of the second is the one after the address
  -- of the first.
  pub render_register_rows-AreSegmented :
      (fc : ℕ) (regs : List Register) → AreSegmented (render_register_rows scaled show fc regs)
  unfolding render_register_rows
  render_register_rows-AreSegmented fc regs =
      let whole : IsLoop (render_loop scaled show fc regs first_loop) =
        render_loop-IsLoop fc regs first_loop (record { segmented = tt; last = (refl, refl) }) in
      whole.segmented
