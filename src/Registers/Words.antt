-- ===== src/Registers/Words.antt =====
-- Words written into the hex text of a block.
use modbus_simulator_go.Base.{
  min, max, ℕ, zero, suc, ◌+◌, ◌-◌, ◌*◌, ◌/◌, ◌≤◌, ◌<◌, ◌≡◌, refl, sym, ap, ◌∙◌, true, false, ◌&&◌,
  List, [], ◌∷◌, ◌++◌, Text, to_upper, upper_char, length, length-map, length-append, length-take,
  length-drop, get_or, take, drop, ltb, leb, ◌==◌, All, arith, if◌then◌else◌,
}
use modbus_simulator_go.Hex.{bytes_to_hex}
use modbus_simulator_go.Hex.Bytes.{IsByte, byte_to_hex_lem}
use modbus_simulator_go.Address.{is_bit_type, Register, register_stop}
use modbus_simulator_go.Registers.{
  is_of_type, Values, put_word, word_value, write_words, updated_words, overlap_start, overlap_stop,
}

-- The word at an index of the hex text of a block.
abbrev pub word_text : Text → ℕ → Text
word_text hex i = take 4 (drop (i * 4) hex)

four_more : (i : ℕ) → suc i * 4 ≡ suc (suc (suc (suc (i * 4))))
four_more i = omega arith

-- Four characters are taken off the front, and the index falls by one.
put_word-suc :
    (a b c d : ℕ) (hex : Text) (i : ℕ) (word : Text)
    → put_word (a ∷ b ∷ c ∷ d ∷ hex) (suc i) word ≡ a ∷ b ∷ c ∷ d ∷ put_word hex i word
unfolding put_word
put_word-suc a b c d hex i word =
    let e : suc (suc (suc (suc (i * 4)))) + 4 ≡ suc (suc (suc (suc (i * 4 + 4)))) = omega arith in
    rw (four_more i, e) refl

word_text-suc :
    (a b c d : ℕ) (hex : Text) (i : ℕ) → word_text (a ∷ b ∷ c ∷ d ∷ hex) (suc i) ≡ word_text hex i
word_text-suc a b c d hex i = rw (four_more i) refl

pub take_four : (word rest : Text) → length word ≡ 4 → take 4 (word ++ rest) ≡ word
take_four (a ∷ b ∷ c ∷ d ∷ []) rest h = refl
take_four [] rest h = absurd (omega (arith, h))
take_four (a ∷ []) rest h = absurd (omega (arith, h))
take_four (a ∷ b ∷ []) rest h = absurd (omega (arith, h))
take_four (a ∷ b ∷ c ∷ []) rest h = absurd (omega (arith, h))
take_four (a ∷ b ∷ c ∷ d ∷ e ∷ word) rest h = absurd (omega (arith, h))

pub drop_word :
    (word rest : Text) (j : ℕ)
    → length word ≡ 4
    → drop (suc j * 4) (word ++ rest) ≡ drop (j * 4) rest
drop_word (a ∷ b ∷ c ∷ d ∷ []) rest j h = rw (four_more j) refl
drop_word [] rest j h = absurd (omega (arith, h))
drop_word (a ∷ []) rest j h = absurd (omega (arith, h))
drop_word (a ∷ b ∷ []) rest j h = absurd (omega (arith, h))
drop_word (a ∷ b ∷ c ∷ []) rest j h = absurd (omega (arith, h))
drop_word (a ∷ b ∷ c ∷ d ∷ e ∷ word) rest j h = absurd (omega (arith, h))

length-put_word :
    (hex : Text) (i : ℕ) (word : Text)
    → length word ≡ 4
    → i * 4 + 4 ≤ length hex
    → length (put_word hex i word) ≡ length hex
unfolding put_word
length-put_word hex i word w h = omega (
  arith,
  length-append (take (i * 4) hex) (word ++ drop (i * 4 + 4) hex),
  length-append word (drop (i * 4 + 4) hex),
  length-take (i * 4) hex,
  length-drop (i * 4 + 4) hex,
)

past_word :
    (a b c d : ℕ) (hex : Text) (j : ℕ) (word : Text)
    → length word ≡ 4
    → word_text (put_word (a ∷ b ∷ c ∷ d ∷ hex) 0 word) (suc j)
      ≡ word_text (a ∷ b ∷ c ∷ d ∷ hex) (suc j)
unfolding put_word
past_word a b c d hex j word w =
    ap (take 4) (drop_word word hex j w) ∙ sym (word_text-suc a b c d hex j)

get_or-IsByte : (bytes : List ℕ) (i : ℕ) → All IsByte bytes → get_or bytes i 0 < 256
get_or-IsByte [] i h = omega arith
get_or-IsByte (b ∷ bytes) zero (h, hs) = h
get_or-IsByte (b ∷ bytes) (suc i) (h, hs) = get_or-IsByte bytes i hs

pub word_text-put_word :
    (hex : Text) (i j : ℕ) (word : Text)
    → length word ≡ 4
    → i * 4 + 4 ≤ length hex
    → word_text (put_word hex i word) j ≡ (if i == j then word else word_text hex j)
word_text-put_word [] i j word w h = absurd (omega arith)
word_text-put_word (a ∷ []) i j word w h = absurd (omega arith)
word_text-put_word (a ∷ b ∷ []) i j word w h = absurd (omega arith)
word_text-put_word (a ∷ b ∷ c ∷ []) i j word w h = absurd (omega arith)
word_text-put_word (a ∷ b ∷ c ∷ d ∷ hex) zero zero word w h =
    unfold put_word in take_four word hex w
word_text-put_word (a ∷ b ∷ c ∷ d ∷ hex) zero (suc j) word w h =
    let other : (0 == suc j) ≡ false = ground arith in rw other (past_word a b c d hex j word w)
word_text-put_word (a ∷ b ∷ c ∷ d ∷ hex) (suc i) zero word w h =
    let other : (suc i == 0) ≡ false = ground arith in
    rw (other, put_word-suc a b c d hex i word) refl
word_text-put_word (a ∷ b ∷ c ∷ d ∷ hex) (suc i) (suc j) word w h =
    let same : (suc i == suc j) ≡ (i == j) = ground arith in
    rw (put_word-suc a b c d hex i word, same)
      (word_text-suc a b c d (put_word hex i word) j
        ∙ (word_text-put_word hex i j word w (omega arith)
            ∙ ap (λ t. if i == j then word else t) (sym (word_text-suc a b c d hex j))))

pub length-word_value :
    (bytes : List ℕ) (i : ℕ) → All IsByte bytes → length (word_value bytes i) ≡ 4
unfolding word_value bytes_to_hex
length-word_value bytes i h =
    rw
      (
        byte_to_hex_lem (get_or bytes (i * 2) 0) (get_or-IsByte bytes (i * 2) h),
        byte_to_hex_lem (get_or bytes (i * 2 + 1) 0) (get_or-IsByte bytes (i * 2 + 1) h),
      )
      refl

-- The words of a block after some are written: those of the update at its addresses, the others as
-- before.
module _ (v : Values) (bytes : All IsByte v.data_bytes) (start : ℕ) where
  word_text-write_words :
      (count addr : ℕ) (hex : Text) (j : ℕ)
      → start ≤ addr
      → (addr + count - start) * 4 ≤ length hex
      → word_text (write_words v start count addr hex) j ≡ (
          if leb addr (start + j) && ltb (start + j) (addr + count)
          then word_value v.data_bytes (start + j - v.logical_start)
          else word_text hex j)
  unfolding write_words
  word_text-write_words zero addr hex j s h = ground arith
  word_text-write_words (suc count) addr hex j s h =
      let word = word_value v.data_bytes (addr - v.logical_start) in
      let four = length-word_value v.data_bytes (addr - v.logical_start) bytes in
      let room : ltb (length hex) ((addr - start) * 4 + 4) ≡ false = ground arith in
      let fits : (addr - start) * 4 + 4 ≤ length hex = omega arith in
      let rest =
        word_text-write_words count (addr + 1) (put_word hex (addr - start) word) j (omega arith)
          (omega (arith, length-put_word hex (addr - start) word four fits)) in
      rw room (rest ∙ ground (arith, word_text-put_word hex (addr - start) j word four fits))

  length-write_words :
      (count addr : ℕ) (hex : Text)
      → start ≤ addr
      → (addr + count - start) * 4 ≤ length hex
      → length (write_words v start count addr hex) ≡ length hex
  unfolding write_words
  length-write_words zero addr hex s h = refl
  length-write_words (suc count) addr hex s h =
      let word = word_value v.data_bytes (addr - v.logical_start) in
      let four = length-word_value v.data_bytes (addr - v.logical_start) bytes in
      let room : ltb (length hex) ((addr - start) * 4 + 4) ≡ false = ground arith in
      let fits : (addr - start) * 4 + 4 ≤ length hex = omega arith in
      let same = length-put_word hex (addr - start) word four fits in
      rw room (length-write_words count (addr + 1) _ (omega arith) (omega (arith, same)) ∙ same)

-- A block of words ends where its text does.
pub word_stop :
    (fc : ℕ) (reg : Register)
    → is_of_type fc reg ≡ true
    → is_bit_type fc ≡ false
    → register_stop reg ≡ reg.start_addr + length reg.hex_data / 4
unfolding is_of_type register_stop
word_stop fc reg t b = ground arith

-- At an address of the block, the addresses of the overlap are those of the update.
pub overlap_test :
    (a b s t x : ℕ)
    → s ≤ x
    → x < t
    → max a s < min b t
    → (leb (max a s) x && ltb x (max a s + (min b t - max a s))) ≡ (leb a x && ltb x b)
overlap_test a b s t x p q h = ground arith

-- A block of words that shares an address with the update has the update's value at every address
-- of the update, and its own at every other; its length stays.
pub updated_words_lem :
    (fc : ℕ) (v : Values) (reg : Register)
    → All IsByte v.data_bytes
    → is_of_type fc reg ≡ true
    → is_bit_type fc ≡ false
    → overlap_start v reg < overlap_stop v reg
    → (length (updated_words v reg).hex_data ≡ length reg.hex_data)
      × ((j : ℕ)
          → j < length reg.hex_data / 4
          → word_text (updated_words v reg).hex_data j ≡ (
              if leb v.logical_start (reg.start_addr + j)
                && ltb (reg.start_addr + j) (v.logical_start + v.quantity)
              then word_value v.data_bytes (reg.start_addr + j - v.logical_start)
              else word_text (to_upper reg.hex_data) j))
unfolding updated_words
updated_words_lem fc v reg bytes t b meets =
    let stop = word_stop fc reg t b in
    let first = overlap_start v reg in
    let count = overlap_stop v reg - first in
    let hex = to_upper reg.hex_data in
    let long = length-map reg.hex_data upper_char in
    let room : (first + count - reg.start_addr) * 4 ≤ length hex = omega (arith, stop, long) in
    (
      length-write_words v bytes reg.start_addr count first hex (omega arith) room ∙ long,
      λ j inside.
          word_text-write_words v bytes reg.start_addr count first hex j (omega arith) room
          ∙ ap
              (λ test.
                if test
                then word_value v.data_bytes (reg.start_addr + j - v.logical_start)
                else word_text hex j)
              (overlap_test v.logical_start (v.logical_start + v.quantity) reg.start_addr
                (register_stop reg) (reg.start_addr + j) (omega arith) (omega (arith, stop)) meets),
    )
