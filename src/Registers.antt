-- ===== src/Registers.antt =====
-- Writing values into the register blocks of a device, from app.js: `applyRegisterUpdate`,
-- `ensureRegisterCache`, `updateHex`, `updateBit` and the filter and sort of `loadTabContent`. The
-- cache of a device is its list of blocks; a block that the code changes in place is replaced in the
-- list. The requests are returned in their order. What the server answers is a parameter: `updates`
-- tells whether `api.updateRegister` succeeds, `creates` whether `api.createRegister` does. Addresses
-- of a block end where `register_stop` says (Address).
pub mod Words
pub mod Bits
pub mod Blocks
pub mod Update
pub mod Bytes
pub mod Changed
pub mod Fill
pub mod Cells
pub mod Rows
mod Tests
use modbus_simulator_go.Base.{
  ℕ, zero, suc, ◌+◌, ◌-◌, ◌*◌, ◌/◌, ◌%◌, ◌^◌, min, max, Bool, true, false, not, ◌&&◌, ◌||◌, Option,
  none, some, List, [], ◌∷◌, ◌++◌, map, Text, to_upper, text_eq, length, get_or, set, take, drop,
  keep, find, any, every, ltb, leb, ◌==◌, if◌then◌else◌, is_upper_hex,
}
use modbus_simulator_go.Hex.{Num, hex_to_bytes, bytes_to_hex}
use modbus_simulator_go.Address.{
  Register, get_reg_type, register_stop, is_bit_type, is_address_covered_by_regs,
}
use modbus_simulator_go.Tree.{sort_by}

-- `getRegType(r.startAddr)?.fc === fc`
unfoldable pub is_of_type : ℕ → Register → Bool
is_of_type fc reg = elim (get_reg_type reg.start_addr) [ none ↦ false | some rt ↦ rt.fc == fc ]

-- `((dataBytes[byteIdx] >> bitIdx) & 1) === 1`; a byte that is missing counts as 0.
unfoldable pub bit_value : List ℕ → ℕ → Bool
bit_value data_bytes i = get_or data_bytes (i / 8) 0 / 2 ^ (i % 8) % 2 == 1

-- `regValues[i]`, in hex.
unfoldable pub word_value : List ℕ → ℕ → Text
word_value data_bytes i =
    bytes_to_hex (some (get_or data_bytes (i * 2) 0) ∷ some (get_or data_bytes (i * 2 + 1) 0) ∷ [])

abbrev pub has_bit : ℕ → ℕ → Bool
has_bit byte k = byte / 2 ^ k % 2 == 1

-- `byte |= 1 << k` and `byte &= ~(1 << k)`
unfoldable pub with_bit : ℕ → ℕ → Bool → ℕ
with_bit byte k true = if has_bit byte k then byte else byte + 2 ^ k
with_bit byte k false = if has_bit byte k then byte - 2 ^ k else byte

-- The same on a number that may be NaN, which the operators take for 0.
abbrev pub or_zero : Num → ℕ
or_zero none = 0
or_zero (some b) = b

-- `bytes[i / 8]` with one bit set or cleared; the index is one of the list.
unfoldable pub put_bit : List Num → ℕ → Bool → List Num
unfolding with_bit
put_bit bytes i value =
    set bytes (i / 8) (some (with_bit (or_zero (get_or bytes (i / 8) none)) (i % 8) value))

-- `hexData.slice(0, i * 4) + word + hexData.slice(i * 4 + 4)`
unfoldable pub put_word : Text → ℕ → Text → Text
put_word hex i word = take (i * 4) hex ++ (word ++ drop (i * 4 + 4) hex)

pub data Request : Type 0 where
  update_register : Register → Request
  create_register : ℕ → Text → Request

-- What `applyRegisterUpdate` keeps in its variables, and the counter of the report that it adds to.
pub record Progress : Type 0 where
  pub requests : List Request
  pub updated_registers : ℕ
  pub created_registers : ℕ
  pub skipped_bits : ℕ
  pub warnings : ℕ
  -- the blocks that the server has accepted
  pub created : List Register

abbrev pub no_progress : Progress
no_progress = record {
  requests = [];
  updated_registers = 0;
  created_registers = 0;
  skipped_bits = 0;
  warnings = 0;
  created = [];
}

-- The value of the update: its bytes, its first address, and how many points it has.
pub record Values : Type 0 where
  pub logical_start : ℕ
  pub quantity : ℕ
  pub data_bytes : List ℕ

-- The common addresses of the update and a block: the first one, and the one behind the last.
abbrev pub overlap_start : Values → Register → ℕ
overlap_start v reg = max v.logical_start reg.start_addr

abbrev pub overlap_stop : Values → Register → ℕ
overlap_stop v reg = min (v.logical_start + v.quantity) (register_stop reg)

-- The inner loop on bits: the addresses from `addr` on, `count` of them.
unfoldable pub write_bits : Values → ℕ → ℕ → ℕ → List Num → List Num
write_bits v start zero addr bytes = bytes
write_bits v start (suc count) addr bytes =
    write_bits v start count (addr + 1)
      (put_bit bytes (addr - start) (bit_value v.data_bytes (addr - v.logical_start)))

-- The inner loop on words.
unfoldable pub write_words : Values → ℕ → ℕ → ℕ → Text → Text
write_words v start zero addr hex = hex
write_words v start (suc count) addr hex = write_words v start count (addr + 1) (
    if ltb (length hex) ((addr - start) * 4 + 4)
    then hex
    else put_word hex (addr - start) (word_value v.data_bytes (addr - v.logical_start)))

-- The block after the update, where the two have an address in common.
unfoldable pub updated_bits : Values → Register → Register
unfolding write_bits
updated_bits v reg =
    let first = overlap_start v reg in
    record reg {
      hex_data = bytes_to_hex (
          write_bits v reg.start_addr (overlap_stop v reg - first) first
            (hex_to_bytes (to_upper reg.hex_data)));
    }

unfoldable pub updated_words : Values → Register → Register
unfolding write_words
updated_words v reg =
    let first = overlap_start v reg in
    record reg {
      hex_data =
          write_words v reg.start_addr (overlap_stop v reg - first) first (to_upper reg.hex_data);
    }

-- How the loop over the blocks ends: through, or with the error of `api.updateRegister`.
pub data Ran : Type 0 where
  ran threw : List Register → Progress → Ran

abbrev pub put_first : Register → Ran → Ran
put_first reg (ran regs p) = ran (reg ∷ regs) p
put_first reg (threw regs p) = threw (reg ∷ regs) p

module _ (updates : Register → Bool) (update : Register → Register) (fc : ℕ) (v : Values) where
  -- `for (const reg of regsOfType)`, on all blocks of the device.
  unfoldable pub update_regs : List Register → Progress → Ran
  update_regs [] p = ran [] p
  update_regs (reg ∷ regs) p =
      let reg' = update reg in
      let p' = record p { requests = p.requests ++ update_register reg' ∷ [] } in
      let skipped = put_first reg (update_regs regs p) in
      let written =
        put_first reg'
          (update_regs regs (record p' { updated_registers = p'.updated_registers + 1 })) in
      if is_of_type fc reg && ltb (overlap_start v reg) (overlap_stop v reg)
      then (if updates reg' then written else threw (reg' ∷ regs) p')
      else skipped

-- A block as it is created.
abbrev pub new_register : ℕ → Text → Register
new_register start hex = record {
  id = [];
  start_addr = start;
  hex_data = hex;
  names = [];
  coefficients = [];
  jitter_amp = 0;
}

-- `createdCoverage.has(a)`: a created block of bits covers eight addresses.
abbrev pub in_created : Progress → ℕ → Bool
in_created p a = any (λ reg. leb reg.start_addr a && ltb a (reg.start_addr + 8)) p.created

-- `byteVal`, from the bit `bit` on.
unfoldable pub byte_from : Values → ℕ → ℕ → ℕ → ℕ
unfolding bit_value
byte_from v zero bit block_start = 0
byte_from v (suc count) bit block_start =
    let addr = block_start + bit in
    let value =
      leb v.logical_start addr
      && (ltb addr (v.logical_start + v.quantity)
          && bit_value v.data_bytes (addr - v.logical_start)) in
    (if value then 2 ^ bit else 0) + byte_from v count (bit + 1) block_start

-- The words of a segment.
unfoldable pub segment_hex : Values → ℕ → ℕ → Text
unfolding word_value
segment_hex v zero addr = []
segment_hex v (suc count) addr =
    word_value v.data_bytes (addr - v.logical_start) ++ segment_hex v count (addr + 1)

-- How far the inner `while` runs: the addresses from `addr` on that are not covered.
unfoldable pub free_run : (ℕ → Bool) → ℕ → ℕ → ℕ
free_run covered zero addr = 0
free_run covered (suc count) addr =
    if covered addr then 0 else suc (free_run covered count (addr + 1))

module _ (creates : ℕ → Text → Bool) where
  -- The `try` around `api.createRegister`.
  unfoldable pub create : ℕ → Text → Progress → Progress
  create start hex p =
      let p' = record p { requests = p.requests ++ create_register start hex ∷ [] } in
      if creates start hex
      then record p' {
        created_registers = p'.created_registers + 1;
        created = p'.created ++ new_register start hex ∷ [];
      }
      else record p' { warnings = p'.warnings + 1 }

  module _ (v : Values) (covered : ℕ → Bool) where
    abbrev pub is_taken : Progress → ℕ → Bool
    is_taken p a = covered a || in_created p a

    -- The loop over `a` from `blockStart` to `blockEnd`.
    unfoldable pub any_taken : Progress → ℕ → ℕ → Bool
    any_taken p zero a = false
    any_taken p (suc count) a = is_taken p a || any_taken p count (a + 1)

    unfoldable pub fill_bit : ℕ → Progress → Progress
    unfolding create any_taken byte_from
    fill_bit addr p =
        if is_taken p addr
        then p
        else if any_taken p 8 addr
        then record p { skipped_bits = p.skipped_bits + 1 }
        else create addr (bytes_to_hex (some (byte_from v 8 0 addr) ∷ [])) p

    -- `for (let addr = logicalStart; addr <= logicalEnd; addr++)`
    unfoldable pub fill_bits : ℕ → ℕ → Progress → Progress
    unfolding fill_bit
    fill_bits zero addr p = p
    fill_bits (suc count) addr p = fill_bits count (addr + 1) (fill_bit addr p)

    -- The outer `while`, with fuel: one round passes over at least one of the `count` addresses left.
    unfoldable pub fill_words : ℕ → ℕ → ℕ → Progress → Progress
    unfolding create free_run segment_hex
    fill_words zero count addr p = p
    fill_words (suc fuel) zero addr p = p
    fill_words (suc fuel) (suc count) addr p =
        let passed = fill_words fuel count (addr + 1) p in
        let k = free_run covered (suc count) addr in
        let filled =
          fill_words fuel (suc count - k) (addr + k) (create addr (segment_hex v k addr) p) in
        if covered addr then passed else filled

-- What the creating part starts from; an error of an update ends the function.
abbrev pub then_create : (List Register → Progress → Progress) → Ran → Ran
then_create fill (ran regs p) = ran regs (fill regs p)
then_create fill (threw regs p) = threw regs p

abbrev pub covered_by : ℕ → List Register → ℕ → Bool
covered_by fc regs addr = is_address_covered_by_regs addr (keep (is_of_type fc) regs)

unfoldable pub apply_register_update :
    (Register → Bool) → (ℕ → Text → Bool) → ℕ → Values → List Register → Ran
unfolding update_regs fill_bits fill_words updated_bits updated_words
apply_register_update updates creates fc v regs =
    if is_bit_type fc
    then then_create
        (λ regs' p. fill_bits creates v (covered_by fc regs') v.quantity v.logical_start p)
        (update_regs updates (updated_bits v) fc v regs no_progress)
    else then_create
        (λ regs' p.
          fill_words creates v (covered_by fc regs') v.quantity v.quantity v.logical_start p)
        (update_regs updates (updated_words v) fc v regs no_progress)
