-- ===== src/Registers/Fill.antt =====
-- The creation of blocks of bits in `applyRegisterUpdate`, where the server accepts what it is asked.
use modbus_simulator_go.Base.{
  ℕ, zero, suc, ◌+◌, ◌<◌, ◌≡◌, refl, sym, ap, ◌∙◌, subst, All, All-append, inl, inr, Bool, true,
  false, ◌&&◌, ◌||◌, Bool-cases, List, [], ◌∷◌, ◌++◌, map, Text, some, any_append, leb, ltb, arith,
  if◌then◌else◌,
}
use modbus_simulator_go.Hex.{bytes_to_hex}
use modbus_simulator_go.Address.{Register, is_bit_type}
use modbus_simulator_go.Registers.{
  Values, Progress, ran, no_progress, new_register, create, in_created, byte_from, is_taken,
  any_taken, fill_bit, fill_bits, updated_bits, covered_by, apply_register_update,
}
use modbus_simulator_go.Registers.Bytes.{HoldsBits, created-HoldsBits}
use modbus_simulator_go.Registers.Changed.{IsBytes, HasBit, AllBoth, All-HasBit}
use modbus_simulator_go.Registers.Update.{touched, update_regs_through}

-- How many of the addresses from `addr` on fail the test.
pub count_free : (ℕ → Bool) → ℕ → ℕ → ℕ
count_free taken zero addr = 0
count_free taken (suc count) addr =
    (if taken addr then 0 else 1) + count_free taken count (addr + 1)

module _ (creates : ℕ → Text → Bool) (accepts : (start : ℕ) (hex : Text) → creates start hex ≡ true)
    (v : Values) (covered : ℕ → Bool) where
  in_created-create :
      (start a : ℕ) (hex : Text) (p : Progress)
      → in_created (create creates start hex p) a
        ≡ (in_created p a || (leb start a && ltb a (start + 8)))
  unfolding create
  in_created-create start a hex p =
      rw (create, accepts start hex)
        (any_append (λ reg. leb reg.start_addr a && ltb a (reg.start_addr + 8)) p.created
            (new_register start hex ∷ [])
          ∙ ground arith)

  fill_bit-before :
      (addr b : ℕ) (p : Progress)
      → b < addr
      → in_created (fill_bit creates v covered addr p) b ≡ in_created p b
  unfolding fill_bit
  fill_bit-before addr b p h = elim (Bool-cases (is_taken creates v covered p addr)) [
    | inl taken ↦ rw taken refl
    | inr free ↦ elim (Bool-cases (any_taken creates v covered p 8 addr)) [
      | inl near ↦ rw (near, free) refl
      | inr far ↦ rw (far, free) (in_created-create addr b _ p ∙ ground arith)
    ]
  ]

  create-skipped :
      (start : ℕ) (hex : Text) (p : Progress)
      → (create creates start hex p).skipped_bits ≡ p.skipped_bits
  unfolding create
  create-skipped start hex p = rw (create, accepts start hex) refl

  is_taken-create :
      (addr : ℕ) (hex : Text) (p : Progress)
      → is_taken creates v covered (create creates addr hex p) addr ≡ true
  is_taken-create addr hex p = rw (in_created-create addr addr hex p) (ground arith)

  -- What `fill_bit` does on each branch.
  fill_bit-taken :
      (addr : ℕ) (p : Progress)
      → is_taken creates v covered p addr ≡ true
      → fill_bit creates v covered addr p ≡ p
  unfolding fill_bit
  fill_bit-taken addr p taken = rw taken refl

  fill_bit-near :
      (addr : ℕ) (p : Progress)
      → is_taken creates v covered p addr ≡ false
      → any_taken creates v covered p 8 addr ≡ true
      → fill_bit creates v covered addr p ≡ record p { skipped_bits = p.skipped_bits + 1 }
  unfolding fill_bit
  fill_bit-near addr p free near = rw (near, free) refl

  fill_bit-far :
      (addr : ℕ) (p : Progress)
      → is_taken creates v covered p addr ≡ false
      → any_taken creates v covered p 8 addr ≡ false
      → fill_bit creates v covered addr p
        ≡ create creates addr (bytes_to_hex (some (byte_from v 8 0 addr) ∷ [])) p
  unfolding fill_bit
  fill_bit-far addr p free far = rw (far, free) refl

  -- The address is taken afterwards, or counted as skipped.
  fill_bit-skipped :
      (addr : ℕ) (p : Progress)
      → (fill_bit creates v covered addr p).skipped_bits
        ≡ p.skipped_bits
          + (if is_taken creates v covered (fill_bit creates v covered addr p) addr then 0 else 1)
  fill_bit-skipped addr p = elim (Bool-cases (is_taken creates v covered p addr)) [
    | inl taken ↦ rw (fill_bit-taken addr p taken, taken) (omega arith)
    | inr free ↦ elim (Bool-cases (any_taken creates v covered p 8 addr)) [
      | inl near ↦ rw (fill_bit-near addr p free near, free) refl
      | inr far ↦
          let hex = bytes_to_hex (some (byte_from v 8 0 addr) ∷ []) in
          rw (fill_bit-far addr p free far, is_taken-create addr hex p, create-skipped addr hex p)
            (omega arith)
    ]
  ]

  create-created :
      (start : ℕ) (hex : Text) (p : Progress)
      → (create creates start hex p).created ≡ p.created ++ new_register start hex ∷ []
  unfolding create
  create-created start hex p = rw (create, accepts start hex) refl

  create-warnings :
      (start : ℕ) (hex : Text) (p : Progress) → (create creates start hex p).warnings ≡ p.warnings
  unfolding create
  create-warnings start hex p = rw (create, accepts start hex) refl

  fill_bit-warnings :
      (addr : ℕ) (p : Progress) → (fill_bit creates v covered addr p).warnings ≡ p.warnings
  fill_bit-warnings addr p = elim (Bool-cases (is_taken creates v covered p addr)) [
    | inl taken ↦ rw (fill_bit-taken addr p taken) refl
    | inr free ↦ elim (Bool-cases (any_taken creates v covered p 8 addr)) [
      | inl near ↦ rw (fill_bit-near addr p free near) refl
      | inr far ↦ rw (fill_bit-far addr p free far) (create-warnings addr _ p)
    ]
  ]

  fill_bits-before :
      (count addr b : ℕ) (p : Progress)
      → b < addr
      → in_created (fill_bits creates v covered count addr p) b ≡ in_created p b
  unfolding fill_bits
  fill_bits-before zero addr b p h = refl
  fill_bits-before (suc count) addr b p h =
      fill_bits-before count (addr + 1) b (fill_bit creates v covered addr p) (omega arith)
      ∙ fill_bit-before addr b p h

  -- Every address of the range that is not taken in the end was counted as skipped, once.
  fill_bits-skipped :
      (count addr : ℕ) (p : Progress)
      → (fill_bits creates v covered count addr p).skipped_bits
        ≡ p.skipped_bits
          + count_free
              (is_taken creates v covered (fill_bits creates v covered count addr p))
              count
              addr
  unfolding fill_bits count_free
  fill_bits-skipped zero addr p = omega arith
  fill_bits-skipped (suc count) addr p =
      let p' = fill_bit creates v covered addr p in
      let rest = fill_bits-skipped count (addr + 1) p' in
      let kept = fill_bits-before count (addr + 1) addr p' (omega arith) in
      let here = fill_bit-skipped addr p in
      rest
      ∙ (ap
            (λ n.
              n
              + count_free
                  (is_taken creates v covered (fill_bits creates v covered count (addr + 1) p'))
                  count (addr + 1))
            here
          ∙ rw (kept) (omega arith))

  fill_bits-warnings :
      (count addr : ℕ) (p : Progress)
      → (fill_bits creates v covered count addr p).warnings ≡ p.warnings
  unfolding fill_bits
  fill_bits-warnings zero addr p = refl
  fill_bits-warnings (suc count) addr p =
      fill_bits-warnings count (addr + 1) (fill_bit creates v covered addr p)
      ∙ fill_bit-warnings addr p

  fill_bit-HoldsBits :
      (addr : ℕ) (p : Progress)
      → All (HoldsBits v) p.created
      → All (HoldsBits v) (fill_bit creates v covered addr p).created
  fill_bit-HoldsBits addr p h = elim (Bool-cases (is_taken creates v covered p addr)) [
    | inl taken ↦ rw (fill_bit-taken addr p taken) h
    | inr free ↦ elim (Bool-cases (any_taken creates v covered p 8 addr)) [
      | inl near ↦ rw (fill_bit-near addr p free near) h
      | inr far ↦
          let hex = bytes_to_hex (some (byte_from v 8 0 addr) ∷ []) in
          rw (fill_bit-far addr p free far, create-created addr hex p)
            (All-append (HoldsBits v) p.created (new_register addr hex ∷ []) h
              (created-HoldsBits v addr, tt))
    ]
  ]

  fill_bits-HoldsBits :
      (count addr : ℕ) (p : Progress)
      → All (HoldsBits v) p.created
      → All (HoldsBits v) (fill_bits creates v covered count addr p).created
  unfolding fill_bits
  fill_bits-HoldsBits zero addr p h = h
  fill_bits-HoldsBits (suc count) addr p h =
      fill_bits-HoldsBits count (addr + 1) (fill_bit creates v covered addr p)
        (fill_bit-HoldsBits addr p h)

-- Where the server accepts every request and the blocks hold whole bytes of hexadecimal digits, an
-- import of bits ends without an error or a warning. It leaves the blocks of other types as they are
-- and changes nothing but the digits of the others, which then have, at each address that they cover,
-- the bit of the update where the update reaches, and their own elsewhere. Of the addresses of the
-- update that no block covers afterwards, each is in a created block or counted as skipped, once; a
-- created block holds the bits of the update at its eight addresses, not set beyond the update.
pub apply_register_update_bits :
    (updates : Register → Bool) (creates : ℕ → Text → Bool) (fc : ℕ) (v : Values)
    (regs : List Register) (a : ℕ)
    → ((reg : Register) → updates reg ≡ true)
    → ((start : ℕ) (hex : Text) → creates start hex ≡ true)
    → is_bit_type fc ≡ true
    → All IsBytes regs
    → (regs' : List Register) × (p : Progress) × (apply_register_update updates creates fc v regs
        ≡ ran regs' p)
      × (p.warnings ≡ 0)
      × AllBoth (HasBit fc v a) regs regs'
      × (p.skipped_bits
          ≡ count_free (λ b. covered_by fc regs' b || in_created p b) v.quantity v.logical_start)
      × All (HoldsBits v) p.created
unfolding apply_register_update
apply_register_update_bits updates creates fc v regs a put_ok post_ok bits bytes =
    let regs' = map (touched (updated_bits v) fc v) regs in
    let (p, e, c, n, k) =
      update_regs_through updates put_ok (updated_bits v) fc v regs no_progress in
    let covered = covered_by fc regs' in
    (
      regs',
      fill_bits creates v covered v.quantity v.logical_start p,
      rw (bits, e) refl,
      fill_bits-warnings creates post_ok v covered v.quantity v.logical_start p ∙ n,
      All-HasBit fc bits v a regs bytes,
      fill_bits-skipped creates post_ok v covered v.quantity v.logical_start p ∙ rw k (omega arith),
      fill_bits-HoldsBits creates post_ok v covered v.quantity v.logical_start p
          (subst (All (HoldsBits v)) (sym c) tt),
    )
