-- ===== src/Registers/Rows/Count.antt =====
-- The number of rows of a register table against the number that the tree shows at its type.
use Prim.Native.Nat.{Ordering, compare}
use modbus_simulator_go.Base.{
  ℕ, zero, suc, ◌+◌, ◌*◌, ◌/◌, ◌%◌, ◌≡◌, refl, ◌∙◌, inl, inr, true, false, Bool-cases, Option, List,
  [], ◌∷◌, Text, length, keep, All, length-append, arith, if◌then◌else◌,
}
use modbus_simulator_go.Base.Int.{ℤ}
use modbus_simulator_go.Base.Dict.{entry}
use modbus_simulator_go.Hex.{Num, hex_to_bytes}
use modbus_simulator_go.Address.{Register, is_bit_type, count_points, points}
use modbus_simulator_go.Tree.{insert_sorted, sort_by, not_after}
use modbus_simulator_go.Registers.{is_of_type}
use modbus_simulator_go.Registers.Cells.{Cache, cached, load_tab_content}
use modbus_simulator_go.Registers.Rows.{
  TableRow, Loop, first_loop, push_row, row_of_bit, bit_loop, byte_loop, row_of_word, word_loop,
  word_passes, render_loop, render_register_rows,
}

length-push_row : (row : TableRow) (st : Loop) → length (push_row row st).html ≡ length st.html + 1
unfolding push_row
length-push_row row st = length-append st.html _

length-bit_loop :
    (fc : ℕ) (reg : Register) (b : Num) (i left k : ℕ) (st : Loop)
    → length (bit_loop fc reg b i left k st).html ≡ length st.html + left
unfolding bit_loop
length-bit_loop fc reg b i zero k st = omega arith
length-bit_loop fc reg b i (suc left) k st =
    let rest =
      length-bit_loop fc reg b (i + 1) left (k + 1) (push_row (row_of_bit fc reg i b k) st) in
    let this = length-push_row (row_of_bit fc reg i b k) st in omega arith

length-byte_loop :
    (fc : ℕ) (reg : Register) (bytes : List Num) (k : ℕ) (st : Loop)
    → length (byte_loop fc reg bytes k st).html ≡ length st.html + length bytes * 8
unfolding byte_loop
length-byte_loop fc reg [] k st = omega arith
length-byte_loop fc reg (b ∷ bytes) k st =
    let rest = length-byte_loop fc reg bytes (k + 8) (bit_loop fc reg b 0 8 k st) in
    let this = length-bit_loop fc reg b 0 8 k st in omega arith

length-hex_to_bytes : (s : Text) → length s % 2 ≡ 0 → length (hex_to_bytes s) * 2 ≡ length s
unfolding hex_to_bytes
length-hex_to_bytes [] h = refl
length-hex_to_bytes (a ∷ []) h = ground arith
length-hex_to_bytes (a ∷ b ∷ s) h = let rest = length-hex_to_bytes s (omega arith) in omega arith

-- The text of a block ends with a whole byte or word.
abbrev pub IsWhole : ℕ → Register → Type 0
IsWhole fc reg = length reg.hex_data % (if is_bit_type fc then 2 else 4) ≡ 0

count_points-nil : (fc : ℕ) → count_points fc [] ≡ 0
unfolding count_points
count_points-nil fc = refl

count_points-of_type :
    (fc : ℕ) (reg : Register) (regs : List Register)
    → is_of_type fc reg ≡ true
    → count_points fc (reg ∷ regs)
      ≡ (if is_bit_type fc then length reg.hex_data * 4 else length reg.hex_data / 4)
        + count_points fc regs
unfolding count_points is_of_type points
count_points-of_type fc reg regs h = ground arith

count_points-other :
    (fc : ℕ) (reg : Register) (regs : List Register)
    → is_of_type fc reg ≡ false
    → count_points fc (reg ∷ regs) ≡ count_points fc regs
unfolding count_points is_of_type
count_points-other fc reg regs h = ground arith

count_points-cons :
    (fc : ℕ) (a : Register) (xs ys : List Register)
    → count_points fc xs ≡ count_points fc ys
    → count_points fc (a ∷ xs) ≡ count_points fc (a ∷ ys)
unfolding count_points
count_points-cons fc a xs ys h = ground arith

count_points-keep :
    (fc : ℕ) (regs : List Register)
    → count_points fc (keep (is_of_type fc) regs) ≡ count_points fc regs
unfolding count_points
count_points-keep fc [] = refl
count_points-keep fc (reg ∷ regs) = elim (Bool-cases (is_of_type fc reg)) [
  | inl of_type ↦
      rw of_type
        (count_points-cons fc reg (keep (is_of_type fc) regs) regs (count_points-keep fc regs))
  | inr other ↦ rw (other, count_points-other fc reg regs other) (count_points-keep fc regs)
]

module _ (order : Register → Register → Ordering) (fc : ℕ) where
  count_points-swap :
      (a b : Register) (regs : List Register)
      → count_points fc (a ∷ b ∷ regs) ≡ count_points fc (b ∷ a ∷ regs)
  unfolding count_points
  count_points-swap a b regs = ground arith

  count_points-insert_sorted :
      (a : Register) (regs : List Register)
      → count_points fc (insert_sorted order a regs) ≡ count_points fc (a ∷ regs)
  unfolding insert_sorted
  count_points-insert_sorted a [] = refl
  count_points-insert_sorted a (b ∷ regs) = elim (Bool-cases (not_after (order a b))) [
    | inl before ↦ rw before refl
    | inr later ↦ rw later (
        count_points-cons fc b (insert_sorted order a regs) (a ∷ regs)
          (count_points-insert_sorted a regs)
        ∙ count_points-swap b a regs)
  ]

  count_points-sort_by :
      (regs : List Register) → count_points fc (sort_by order regs) ≡ count_points fc regs
  unfolding sort_by
  count_points-sort_by [] = refl
  count_points-sort_by (a ∷ regs) =
      count_points-insert_sorted a (sort_by order regs)
      ∙ count_points-cons fc a (sort_by order regs) regs (count_points-sort_by regs)

  OfType : Register → Type 0
  OfType reg = is_of_type fc reg ≡ true

  insert_sorted-All :
      (a : Register) (regs : List Register)
      → is_of_type fc a ≡ true
      → All OfType regs
      → All OfType (insert_sorted order a regs)
  unfolding insert_sorted OfType
  insert_sorted-All a [] h hs = (h, tt)
  insert_sorted-All a (b ∷ regs) h hs = elim (Bool-cases (not_after (order a b))) [
    | inl before ↦ rw (All, before) (h, hs)
    | inr later ↦ rw (All, later) (hs.0, insert_sorted-All a regs h hs.1)
  ]

  sort_by-All : (regs : List Register) → All OfType regs → All OfType (sort_by order regs)
  unfolding sort_by OfType
  sort_by-All [] h = tt
  sort_by-All (a ∷ regs) h = insert_sorted-All a (sort_by order regs) h.0 (sort_by-All regs h.1)

  keep-All : (regs : List Register) → All OfType (keep (is_of_type fc) regs)
  unfolding OfType
  keep-All [] = tt
  keep-All (reg ∷ regs) = elim (Bool-cases (is_of_type fc reg)) [
    | inl of_type ↦ rw (All, of_type) (of_type, keep-All regs)
    | inr other ↦ rw (All, other) (keep-All regs)
  ]

module _ (scaled : Option ℤ → Option Text → Text) (show : List ℕ → Text) (fc : ℕ) where
  length-word_loop :
      (reg : Register) (i left : ℕ) (st : Loop)
      → length (word_loop scaled show fc reg i left st).html ≡ length st.html + left
  unfolding word_loop
  length-word_loop reg i zero st = omega arith
  length-word_loop reg i (suc left) st =
      let rest =
        length-word_loop reg (i + 1) left (push_row (row_of_word scaled show fc reg i) st) in
      let this = length-push_row (row_of_word scaled show fc reg i) st in omega arith

  length-render_loop :
      (regs : List Register) (st : Loop)
      → All (λ reg. is_of_type fc reg ≡ true) regs
      → All (IsWhole fc) regs
      → length (render_loop scaled show fc regs st).html ≡ length st.html + count_points fc regs
  unfolding render_loop
  length-render_loop [] st t w = rw (count_points-nil fc) (omega arith)
  length-render_loop (reg ∷ regs) st (t, ts) (w, ws) = elim (Bool-cases (is_bit_type fc)) [
    | inl bits ↦
        let st' : Loop = byte_loop fc reg (hex_to_bytes reg.hex_data) 0 st in
        let this = length-byte_loop fc reg (hex_to_bytes reg.hex_data) 0 st in
        let rest = length-render_loop regs st' ts ws in
        let size = length-hex_to_bytes reg.hex_data (rw bits at w) in
        let counted = rw bits at (count_points-of_type fc reg regs t) in
        rw (render_loop, bits) (omega arith)
    | inr words ↦
        let st' : Loop = word_loop scaled show fc reg 0 (word_passes reg) st in
        let this = length-word_loop reg 0 (word_passes reg) st in
        let rest = length-render_loop regs st' ts ws in
        let size : length reg.hex_data % 4 ≡ 0 = rw words at w in
        let counted = rw words at (count_points-of_type fc reg regs t) in
        rw (render_loop, words) (omega arith)
  ]

  -- A register table has as many rows as the tree counts points of its type: of the blocks of a
  -- device that the table shows, all of them whole, the rows number what `updateRegTypeCounts`
  -- counts over all blocks of the device.
  pub length-render_register_rows :
      (slave_id : Text) (cache : Cache)
      → All (IsWhole fc) (load_tab_content fc slave_id cache)
      → length (render_register_rows scaled show fc (load_tab_content fc slave_id cache))
        ≡ count_points fc (cached (entry slave_id cache))
  unfolding render_register_rows load_tab_content OfType
  length-render_register_rows slave_id cache whole =
      let order : Register → Register → Ordering = λ a b. compare a.start_addr b.start_addr in
      let regs : List Register = cached (entry slave_id cache) in
      let rows =
        length-render_loop (load_tab_content fc slave_id cache) first_loop
          (sort_by-All order fc (keep (is_of_type fc) regs) (keep-All order fc regs)) whole in
      let sorted : count_points fc (load_tab_content fc slave_id cache)
          ≡ count_points fc (keep (is_of_type fc) regs) =
        count_points-sort_by order fc (keep (is_of_type fc) regs) in
      let kept = count_points-keep fc regs in omega arith
