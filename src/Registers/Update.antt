-- ===== src/Registers/Update.antt =====
-- `applyRegisterUpdate` on words, as a whole, where the server accepts what it is asked.
use modbus_simulator_go.Base.{
  ℕ, ◌+◌, ◌-◌, ◌/◌, ◌≤◌, ◌<◌, ◌≡◌, ◌⊎◌, refl, sym, ◌∙◌, subst, inl, inr, Bool, true, false, ◌&&◌,
  Bool-cases, List, [], ◌∷◌, ◌++◌, map, Text, length, ltb, leb, All, arith, if◌then◌else◌,
}
use modbus_simulator_go.Hex.Bytes.{IsByte}
use modbus_simulator_go.Address.{covers, Register, is_bit_type, register_stop}
use modbus_simulator_go.Registers.{
  update_register, Values, Progress, ran, no_progress, word_value, is_of_type, update_regs,
  updated_bits, updated_words, overlap_start, overlap_stop, fill_words, fill_bits, covered_by,
  apply_register_update,
}
use modbus_simulator_go.Registers.Words.{word_text, word_stop, updated_words_lem}
use modbus_simulator_go.Registers.Blocks.{
  Some, Holds, IsClean, fill_words-Holds, fill_words-IsClean, fill_words-warnings,
}

-- Whether the loop over the blocks takes one up.
abbrev pub is_met : ℕ → Values → Register → Bool
is_met fc v reg = is_of_type fc reg && ltb (overlap_start v reg) (overlap_stop v reg)

-- The blocks after the loop.
abbrev pub touched : (Register → Register) → ℕ → Values → Register → Register
touched update fc v reg = if is_met fc v reg then update reg else reg

module _ (updates : Register → Bool) (accepts : (reg : Register) → updates reg ≡ true)
    (update : Register → Register) (fc : ℕ) (v : Values) where
  pub update_regs_through :
      (regs : List Register) (p : Progress)
      → (p' : Progress) × (update_regs updates update fc v regs p
          ≡ ran (map (touched update fc v) regs) p')
        × (p'.created ≡ p.created)
        × (p'.warnings ≡ p.warnings)
        × (p'.skipped_bits ≡ p.skipped_bits)
  unfolding update_regs
  update_regs_through [] p = (p, refl, refl, refl, refl)
  update_regs_through (reg ∷ regs) p =
      let reg' = update reg in
      let p' : Progress = record p {
        requests = p.requests ++ update_register reg' ∷ [];
        updated_registers = p.updated_registers + 1;
      } in
      elim (Bool-cases (is_met fc v reg)) [
        | inl met ↦
            let (q, e, c, n, k) = update_regs_through regs p' in
            (q, rw (met, accepts reg', e) refl, c, n, k)
        | inr other ↦
            let (q, e, c, n, k) = update_regs_through regs p in (q, rw (other, e) refl, c, n, k)
      ]

-- A block of another type, or one that does not cover the address, or else one with the word of the
-- update there.
abbrev pub Agrees : ℕ → Values → ℕ → Register → Type 0
Agrees fc v a reg =
    ((is_of_type fc reg && covers reg a) ≡ false)
    ⊎ (word_text reg.hex_data (a - reg.start_addr) ≡ word_value v.data_bytes (a - v.logical_start))

module _ (fc : ℕ) (words : is_bit_type fc ≡ false) (v : Values) (bytes : All IsByte v.data_bytes)
    (a : ℕ) (from : v.logical_start ≤ a) (below : a < v.logical_start + v.quantity) where
  -- What the two tests of a block that is met say.
  met-of_type : (reg : Register) → is_met fc v reg ≡ true → is_of_type fc reg ≡ true
  met-of_type reg met = ground arith

  met-overlap : (reg : Register) → is_met fc v reg ≡ true → overlap_start v reg < overlap_stop v reg
  met-overlap reg met = ground arith

  not_met :
      (reg : Register)
      → is_met fc v reg ≡ false
      → is_of_type fc reg ≡ true
      → overlap_stop v reg ≤ overlap_start v reg
  not_met reg other t = ground arith

  updated-Agrees :
      (reg : Register)
      → is_met fc v reg ≡ true
      → reg.start_addr ≤ a
      → a < register_stop (updated_words v reg)
      → word_text (updated_words v reg).hex_data (a - reg.start_addr)
        ≡ word_value v.data_bytes (a - v.logical_start)
  updated-Agrees reg met s e =
      let t = met-of_type reg met in
      let (long, value) = updated_words_lem fc v reg bytes t words (met-overlap reg met) in
      let same : (updated_words v reg).start_addr ≡ reg.start_addr = unfold updated_words in refl in
      let t' : is_of_type fc (updated_words v reg) ≡ true = unfold updated_words is_of_type in t in
      let j = a - reg.start_addr in
      let inside : j < length reg.hex_data / 4 =
        omega (arith, long, same, word_stop fc (updated_words v reg) t' words) in
      let within : (leb v.logical_start (reg.start_addr + j)
            && ltb (reg.start_addr + j) (v.logical_start + v.quantity))
          ≡ true =
        ground arith in
      let back : reg.start_addr + j ≡ a = omega arith in value j inside ∙ rw (within, back) refl

  met-Agrees : (reg : Register) → is_met fc v reg ≡ true → Agrees fc v a (updated_words v reg)
  met-Agrees reg met =
      let same : (updated_words v reg).start_addr ≡ reg.start_addr = unfold updated_words in refl in
      elim (Bool-cases (is_of_type fc (updated_words v reg) && covers (updated_words v reg) a)) [
        | inr away ↦ inl away
        | inl at ↦ inr (rw same (updated-Agrees reg met (ground (arith, same)) (ground arith)))
      ]

  other-Agrees : (reg : Register) → is_met fc v reg ≡ false → Agrees fc v a reg
  other-Agrees reg other = elim (Bool-cases (is_of_type fc reg && covers reg a)) [
    | inr away ↦ inl away
    | inl at ↦
        let t : is_of_type fc reg ≡ true = ground arith in
        let s : reg.start_addr ≤ a = ground arith in
        let e : a < register_stop reg = ground arith in absurd (omega (arith, not_met reg other t))
  ]

  touched-Agrees : (reg : Register) → Agrees fc v a (touched (updated_words v) fc v reg)
  touched-Agrees reg = elim (Bool-cases (is_met fc v reg)) [
    | inl met ↦ rw met (met-Agrees reg met)
    | inr other ↦ rw other (other-Agrees reg other)
  ]

  All-Agrees :
      (regs : List Register) → All (Agrees fc v a) (map (touched (updated_words v) fc v) regs)
  All-Agrees [] = tt
  All-Agrees (reg ∷ regs) = (touched-Agrees reg, All-Agrees regs)

-- Where the server accepts every request, an import of words ends without an error or a warning, and
-- for each address of the update: every block of the type that covers it has the word of the update
-- there, and where no block covers it, a block that was created holds that word. The created blocks
-- lie inside the update, on addresses that no block of the type covers.
pub apply_register_update_words :
    (updates : Register → Bool) (creates : ℕ → Text → Bool) (fc : ℕ) (v : Values)
    (regs : List Register) (a : ℕ)
    → ((reg : Register) → updates reg ≡ true)
    → ((start : ℕ) (hex : Text) → creates start hex ≡ true)
    → is_bit_type fc ≡ false
    → All IsByte v.data_bytes
    → v.logical_start ≤ a
    → a < v.logical_start + v.quantity
    → (regs' : List Register) × (p : Progress) × (apply_register_update updates creates fc v regs
        ≡ ran regs' p)
      × (p.warnings ≡ 0)
      × All (Agrees fc v a) regs'
      × ((covered_by fc regs' a ≡ true) ⊎ Some (Holds v a) p.created)
      × All (IsClean v (covered_by fc regs')) p.created
unfolding apply_register_update
apply_register_update_words updates creates fc v regs a put_ok post_ok words bytes from below =
    let regs' = map (touched (updated_words v) fc v) regs in
    let (p, e, c, n, k) =
      update_regs_through updates put_ok (updated_words v) fc v regs no_progress in
    let covered = covered_by fc regs' in
    (
      regs',
      fill_words creates v covered v.quantity v.quantity v.logical_start p,
      rw (words, e) refl,
      fill_words-warnings creates post_ok v bytes covered v.quantity v.quantity v.logical_start p
          ∙ n,
      All-Agrees fc words v bytes a from below regs,
      elim (Bool-cases (covered a)) [
        | inl taken ↦ inl taken
        | inr free ↦ inr (
            fill_words-Holds creates post_ok v bytes covered v.quantity v.quantity v.logical_start a
              p (omega arith) from below free)
      ],
      fill_words-IsClean creates post_ok v bytes covered v.quantity v.quantity v.logical_start p
          (omega arith) (omega arith) (subst (All (IsClean v covered)) (sym c) tt),
    )

-- Where every update of a block is accepted, no error ends the function.
pub apply_register_update_runs :
    (updates : Register → Bool) (creates : ℕ → Text → Bool) (fc : ℕ) (v : Values)
    (regs : List Register)
    → ((reg : Register) → updates reg ≡ true)
    → (regs' : List Register) × (p : Progress) × (apply_register_update updates creates fc v regs
        ≡ ran regs' p)
unfolding apply_register_update
apply_register_update_runs updates creates fc v regs put_ok = elim (Bool-cases (is_bit_type fc)) [
  | inl bits ↦
      let (p, e, c, n, k) =
        update_regs_through updates put_ok (updated_bits v) fc v regs no_progress in
      let regs' = map (touched (updated_bits v) fc v) regs in
      (
        regs',
        fill_bits creates v (covered_by fc regs') v.quantity v.logical_start p,
        rw (bits, e) refl,
      )
  | inr words ↦
      let (p, e, c, n, k) =
        update_regs_through updates put_ok (updated_words v) fc v regs no_progress in
      let regs' = map (touched (updated_words v) fc v) regs in
      (
        regs',
        fill_words creates v (covered_by fc regs') v.quantity v.quantity v.logical_start p,
        rw (words, e) refl,
      )
]
