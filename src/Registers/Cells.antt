-- ===== src/Registers/Cells.antt =====
-- The cache of the blocks and the edits of single cells, from app.js: `ensureRegisterCache`, the
-- choice and order of `loadTabContent`, `updateHex` and `updateBit`. The cache is a map from the ids
-- of devices. Of two blocks with one id the first is found.
use Prim.Native.Nat.{compare}
use modbus_simulator_go.Base.{
  ◌%◌, ℕ, ◌+◌, ◌*◌, ◌≤◌, ◌<◌, ◌≡◌, refl, ap, ◌∙◌, inl, inr, Bool, true, false, ◌&&◌, Bool-cases,
  Option, none, some, List, [], ◌∷◌, Text, to_upper, text_eq, text_eq_iff, length, find, every,
  keep, ◌==◌, All, is_upper_hex, arith, if◌then◌else◌,
}
use modbus_simulator_go.Base.Dict.{entry, put, remove, entry-put}
use modbus_simulator_go.Hex.{hex_to_bytes, bytes_to_hex}
use modbus_simulator_go.Hex.Bytes.{IsHex}
use modbus_simulator_go.Address.{Register}
use modbus_simulator_go.Tree.{sort_by}
use modbus_simulator_go.Registers.{put_word, put_bit, is_of_type}
use modbus_simulator_go.Registers.Words.{word_text, word_text-put_word}
use modbus_simulator_go.Registers.Bits.{
  bit_at, bit_at-put_bit, put_bit-IsByteNum, byte_nums_back, hex_to_bytes-IsByteNum,
}

abbrev pub Cache : Type 0
Cache = List (Text × List Register)

-- `registerCache[slaveId] || []`
abbrev pub cached : Option (List Register) → List Register
cached none = []
cached (some regs) = regs

-- `answer` is what `api.getRegisters` answers, `none` where it fails.
unfoldable pub ensure_register_cache : Option (List Register) → Text → Cache → Cache
ensure_register_cache answer slave_id cache = elim (entry slave_id cache) [
  | some regs ↦ cache
  | none ↦ put slave_id (cached answer) cache
]

-- The blocks that `loadTabContent` shows.
unfoldable pub load_tab_content : ℕ → Text → Cache → List Register
unfolding sort_by
load_tab_content fc slave_id cache =
    sort_by (λ a b. compare a.start_addr b.start_addr)
      (keep (is_of_type fc) (cached (entry slave_id cache)))

abbrev pub register_with_id : Text → List Register → Option Register
register_with_id id regs = find (λ r. text_eq r.id id) regs

-- The list after a change of the block that `find` returns.
unfoldable pub replace_found : Text → Register → List Register → List Register
replace_found id reg [] = []
replace_found id reg (r ∷ regs) =
    if text_eq r.id id then reg ∷ regs else r ∷ replace_found id reg regs

pub data Alert : Type 0 where
  bad_hex save_failed : Alert

-- The request has been answered; after an error the device is loaded again.
abbrev pub stored : Bool → Text → Cache → Option Alert × Cache
stored true slave_id cache = (none, cache)
stored false slave_id cache = (some save_failed, remove slave_id cache)

-- The change of the block that is found; without one nothing happens.
abbrev pub change_found :
    Bool
    → Text
    → Text
    → List Register
    → (Register → Register)
    → Cache
    → Option Register
    → Option Alert × Cache
change_found ok slave_id reg_id regs change cache none = (none, cache)
change_found ok slave_id reg_id regs change cache (some reg) =
    stored ok slave_id (put slave_id (replace_found reg_id (change reg) regs) cache)

abbrev pub edit_register : Bool → Text → Text → (Register → Register) → Cache → Option Alert × Cache
edit_register ok slave_id reg_id change cache =
    let regs = cached (entry slave_id cache) in
    change_found ok slave_id reg_id regs change cache (register_with_id reg_id regs)

-- `ok` tells whether `api.updateRegister` succeeds.
unfoldable pub update_hex : Bool → Text → Text → ℕ → Text → Cache → Option Alert × Cache
unfolding put_word replace_found
update_hex ok slave_id reg_id idx value cache =
    let word = to_upper value in
    if length word == 4 && every is_upper_hex word
    then edit_register ok slave_id reg_id
        (λ reg. record reg { hex_data = put_word reg.hex_data idx word }) cache
    else (some bad_hex, cache)

unfoldable pub update_bit : Bool → Text → Text → ℕ → Bool → Cache → Option Alert × Cache
unfolding put_bit replace_found
update_bit ok slave_id reg_id bit_idx checked cache =
    edit_register ok slave_id reg_id
      (λ reg. record reg {
        hex_data = bytes_to_hex (put_bit (hex_to_bytes reg.hex_data) bit_idx checked);
      })
      cache

-- The block that is found after the edit, and the other blocks.
register_with_id-replace_found :
    (id : Text) (reg reg' : Register) (regs : List Register) (j : Text)
    → register_with_id id regs ≡ some reg
    → reg'.id ≡ id
    → register_with_id j (replace_found id reg' regs)
      ≡ (if text_eq id j then some reg' else register_with_id j regs)
unfolding replace_found
register_with_id-replace_found id reg reg' [] j found same = cc
register_with_id-replace_found id reg reg' (r ∷ regs) j found same =
    elim (Bool-cases (text_eq r.id id)) [
      | inl here ↦ rw (here, same, (text_eq_iff r.id id).0 here) (ground arith)
      | inr later ↦
          let rest = register_with_id-replace_found id reg reg' regs j (rw later at found) same in
          rw (later, rest)
            (ground (arith, text_eq_iff r.id id, text_eq_iff r.id j, text_eq_iff id j))
    ]

found-id :
    (id : Text) (regs : List Register) (reg : Register)
    → register_with_id id regs ≡ some reg
    → reg.id ≡ id
found-id id [] reg h = cc
found-id id (r ∷ regs) reg h = ground (arith, text_eq_iff r.id id, found-id id regs reg)

-- What an edit of a block that exists leaves in the cache, where the server accepts it.
edit_register_lem :
    (slave_id reg_id : Text) (change : Register → Register) (cache : Cache) (reg : Register)
    (j : Text)
    → register_with_id reg_id (cached (entry slave_id cache)) ≡ some reg
    → (change reg).id ≡ reg.id
    → (let cache' = (edit_register true slave_id reg_id change cache).1 in
        register_with_id j (cached (entry slave_id cache')) ≡ (
          if text_eq reg_id j
          then some (change reg)
          else register_with_id j (cached (entry slave_id cache))))
edit_register_lem slave_id reg_id change cache reg j found same =
    let regs = cached (entry slave_id cache) in
    rw (edit_register, found, entry-put, (text_eq_iff slave_id slave_id).1 refl)
      (register_with_id-replace_found reg_id reg (change reg) regs j found
        (same ∙ found-id reg_id regs reg found))

-- The block after `updateHex`: with four hex digits at a word of the block, and a server that
-- accepts, the word is the value in upper case, every other word is as before, and so is every other
-- block of the device.
pub update_hex_lem :
    (slave_id reg_id : Text) (idx : ℕ) (value : Text) (cache : Cache) (reg : Register) (j : Text)
    (k : ℕ)
    → register_with_id reg_id (cached (entry slave_id cache)) ≡ some reg
    → length (to_upper value) ≡ 4
    → every is_upper_hex (to_upper value) ≡ true
    → idx * 4 + 4 ≤ length reg.hex_data
    → (let regs = cached (entry slave_id cache) in
        let regs' = cached (entry slave_id (update_hex true slave_id reg_id idx value cache).1) in
        (reg' : Register) × (register_with_id reg_id regs' ≡ some reg')
        × (word_text reg'.hex_data k
            ≡ (if idx == k then to_upper value else word_text reg.hex_data k))
        × (register_with_id j regs'
            ≡ (if text_eq reg_id j then some reg' else register_with_id j regs)))
unfolding update_hex
update_hex_lem slave_id reg_id idx value cache reg j k found four digits inside =
    let word = to_upper value in
    let change : Register → Register = λ r. record r { hex_data = put_word r.hex_data idx word } in
    let fine : (length word == 4 && every is_upper_hex word) ≡ true = ground arith in
    let at = edit_register_lem slave_id reg_id change cache reg in
    (
      change reg,
      rw fine (at reg_id found refl ∙ rw ((text_eq_iff reg_id reg_id).1 refl) refl),
      word_text-put_word reg.hex_data idx k word four inside,
      rw fine (at j found refl),
    )

-- The block after `updateBit`: on even hex text, with a bit of the block and a server that accepts,
-- the bit is the one that was chosen, every other bit is as before, and so is every other block of
-- the device.
pub update_bit_lem :
    (slave_id reg_id : Text) (bit_idx : ℕ) (checked : Bool) (cache : Cache) (reg : Register)
    (j : Text) (k : ℕ)
    → register_with_id reg_id (cached (entry slave_id cache)) ≡ some reg
    → All IsHex reg.hex_data
    → length reg.hex_data % 2 ≡ 0
    → bit_idx < length reg.hex_data * 4
    → (let regs = cached (entry slave_id cache) in
        let regs' =
          cached (entry slave_id (update_bit true slave_id reg_id bit_idx checked cache).1) in
        (reg' : Register) × (register_with_id reg_id regs' ≡ some reg')
        × (bit_at (hex_to_bytes reg'.hex_data) k
            ≡ (if bit_idx == k then checked else bit_at (hex_to_bytes reg.hex_data) k))
        × (register_with_id j regs'
            ≡ (if text_eq reg_id j then some reg' else register_with_id j regs)))
unfolding update_bit
update_bit_lem slave_id reg_id bit_idx checked cache reg j k found hex even inside =
    let change : Register → Register = λ r. record r {
      hex_data = bytes_to_hex (put_bit (hex_to_bytes r.hex_data) bit_idx checked);
    } in
    let (bytes, long) = hex_to_bytes-IsByteNum reg.hex_data hex even in
    let new = put_bit (hex_to_bytes reg.hex_data) bit_idx checked in
    let at = edit_register_lem slave_id reg_id change cache reg in
    (
      change reg,
      at reg_id found refl ∙ (rw ((text_eq_iff reg_id reg_id).1 refl) refl),
      ap (λ bs. bit_at bs k) (byte_nums_back new (put_bit-IsByteNum _ bit_idx checked bytes))
          ∙ bit_at-put_bit (hex_to_bytes reg.hex_data) bit_idx checked k bytes
              (omega (arith, long)),
      at j found refl,
    )
