-- ===== src/Registers/Tests.antt =====
-- The theorems on register blocks at concrete blocks.
use modbus_simulator_go.Base.{
  ◌||◌, every, ◌<◌, ℕ, ◌≡◌, ◌⊎◌, refl, true, some, List, [], ◌∷◌, Text, codes, text_eq, to_upper,
  upper_char, is_upper_hex, is_hex, ◌==◌, All, arith, if◌then◌else◌,
}
use modbus_simulator_go.Base.Dict.{entry}
use modbus_simulator_go.Hex.Bytes.{IsHex}
use modbus_simulator_go.Address.{Register, register_stop, get_reg_type}
use modbus_simulator_go.Registers.{
  Values, Progress, ran, apply_register_update, covered_by, in_created, is_of_type, overlap_start,
  overlap_stop,
}
use modbus_simulator_go.Registers.Words.{word_text}
use modbus_simulator_go.Registers.Blocks.{Some, Holds, IsClean}
use modbus_simulator_go.Registers.Update.{Agrees, apply_register_update_words}
use modbus_simulator_go.Registers.Bytes.{HoldsBits}
use modbus_simulator_go.Registers.Changed.{HasBit, AllBoth}
use modbus_simulator_go.Registers.Fill.{count_free, apply_register_update_bits}
use modbus_simulator_go.Registers.Cells.{
  Cache, register_with_id, cached, update_hex, update_hex_lem,
}

abbrev block : ℕ → Text → Register
block start hex = record {
  id = codes "r";
  start_addr = start;
  hex_data = hex;
  names = [];
  coefficients = [];
  jitter_amp = 0;
}

-- Two words from address 40001 on, of which a block covers the first.
abbrev two_words : Values
two_words = record { logical_start = 40001; quantity = 2; data_bytes = 0 ∷ 5 ∷ 0 ∷ 6 ∷ [] }

apply_register_update_words_example :
    (regs' : List Register) × (p : Progress) × (apply_register_update
        (λ _. true)
        (λ _ _. true)
        3
        two_words
        (block 40001 (codes "abcd") ∷ [])
      ≡ ran regs' p)
    × (p.warnings ≡ 0)
    × All (Agrees 3 two_words 40002) regs'
    × ((covered_by 3 regs' 40002 ≡ true) ⊎ Some (Holds two_words 40002) p.created)
    × All (IsClean two_words (covered_by 3 regs')) p.created
apply_register_update_words_example =
    apply_register_update_words (λ _. true) (λ _ _. true) 3 two_words
      (block 40001 (codes "abcd") ∷ []) 40002 (λ _. refl) (λ _ _. refl) refl (omega arith)
      (omega arith) (omega arith)

abbrev two_bits : Values
two_bits = record { logical_start = 3; quantity = 2; data_bytes = 3 ∷ [] }

coil_block-IsHex : All IsHex (codes "0F")
unfolding is_hex is_upper_hex
coil_block-IsHex = (refl, (refl, tt))

-- The block covers the coils 1 to 8 and has the first four set; the update sets the coils 3 and 4.
apply_register_update_bits_example :
    (regs' : List Register) × (p : Progress) × (apply_register_update
        (λ _. true)
        (λ _ _. true)
        1
        two_bits
        (block 1 (codes "0F") ∷ [])
      ≡ ran regs' p)
    × (p.warnings ≡ 0)
    × AllBoth (HasBit 1 two_bits 4) (block 1 (codes "0F") ∷ []) regs'
    × (p.skipped_bits ≡ count_free (λ b. covered_by 1 regs' b || in_created p b) 2 3)
    × All (HoldsBits two_bits) p.created
apply_register_update_bits_example =
    apply_register_update_bits (λ _. true) (λ _ _. true) 1 two_bits (block 1 (codes "0F") ∷ []) 4
      (λ _. refl) (λ _ _. refl) refl ((coil_block-IsHex, refl), tt)

coil_block_type : is_of_type 1 (block 1 (codes "0F")) ≡ true
unfolding is_of_type get_reg_type
coil_block_type = refl

coil_block_met :
    overlap_start two_bits (block 1 (codes "0F")) < overlap_stop two_bits (block 1 (codes "0F"))
unfolding register_stop get_reg_type
coil_block_met = omega arith

abbrev one_device : Cache
one_device = (codes "s", block 1 (codes "000F") ∷ []) ∷ []

block_found :
    register_with_id (codes "r") (cached (entry (codes "s") one_device))
    ≡ some (block 1 (codes "000F"))
unfolding entry text_eq
block_found = refl

word_digits : All IsHex (codes "000F")
unfolding is_hex is_upper_hex
word_digits = (refl, (refl, (refl, (refl, tt))))

all_upper : every is_upper_hex (to_upper (codes "cafe")) ≡ true
unfolding is_upper_hex upper_char
all_upper = refl

update_hex_lem_example :
    (let regs = cached (entry (codes "s") one_device) in
      let regs' = cached (
        entry
          (codes "s")
          (update_hex true (codes "s") (codes "r") 0 (codes "cafe") one_device).1) in
      (reg' : Register) × (register_with_id (codes "r") regs' ≡ some reg')
      × (word_text reg'.hex_data 0
          ≡ (if 0 == 0 then to_upper (codes "cafe") else word_text (codes "000F") 0))
      × (register_with_id (codes "q") regs' ≡ (
          if text_eq (codes "r") (codes "q")
          then some reg'
          else register_with_id (codes "q") regs)))
update_hex_lem_example =
    update_hex_lem (codes "s") (codes "r") 0 (codes "cafe") one_device (block 1 (codes "000F"))
      (codes "q") 0 block_found refl all_upper (omega arith)
