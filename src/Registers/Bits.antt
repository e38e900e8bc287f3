-- ===== src/Registers/Bits.antt =====
-- Bits written into the bytes of a block.
use modbus_simulator_go.Base.{
  is_upper_hex, length-map, ℕ, zero, suc, ◌+◌, ◌-◌, ◌*◌, ◌/◌, ◌%◌, ◌≤◌, ◌<◌, ◌≡◌, refl, sym, ap,
  ◌∙◌, inl, inr, Bool, true, false, ◌&&◌, not, Bool-cases, none, some, List, [], ◌∷◌, map, Text,
  to_upper, upper_char, is_hex, length, length-set, get_or, set, ltb, leb, ◌==◌, ==_iff, All,
  checks_below, checked_below, arith, if◌then◌else◌,
}
use modbus_simulator_go.Hex.{Num, parse_int_16, hex_to_bytes, bytes_to_hex}
use modbus_simulator_go.Hex.Bytes.{
  IsByte, IsHex, hex_to_bytes-bytes_to_hex, parse_int_16_pair, digit_value-lt,
}
use modbus_simulator_go.Address.{Register, register_stop, is_bit_type}
use modbus_simulator_go.Registers.Words.{overlap_test}
use modbus_simulator_go.Registers.{
  is_of_type, updated_bits, overlap_start, overlap_stop, Values, has_bit, with_bit, or_zero,
  put_bit, bit_value, write_bits,
}

abbrev same : Bool → Bool → Bool
same true b = b
same false b = not b

same_iff : (a b : Bool) → same a b ≡ true → a ≡ b
same_iff true true h = refl
same_iff true false h = sym h
same_iff false true h = h
same_iff false false h = refl

abbrev bit_row : ℕ → ℕ → Bool → ℕ → Bool
bit_row b k v j = same (has_bit (with_bit b k v) j) (if k == j then v else has_bit b j)

bit_table :
    checks_below 256
      (λ b. checks_below 8 (λ k. checks_below 8 (λ j. bit_row b k true j && bit_row b k false j)))
    ≡ true
unfolding checks_below with_bit
bit_table = refl

bound_table :
    checks_below 256
      (λ b. checks_below 8 (λ k. ltb (with_bit b k true) 256 && ltb (with_bit b k false) 256))
    ≡ true
unfolding checks_below with_bit
bound_table = refl

has_bit-with_bit :
    (b k : ℕ) (v : Bool) (j : ℕ)
    → b < 256
    → k < 8
    → j < 8
    → has_bit (with_bit b k v) j ≡ (if k == j then v else has_bit b j)
has_bit-with_bit b k v j p q r =
    let row = checked_below 8 _ j (checked_below 8 _ k (checked_below 256 _ b bit_table p) q) r in
    by_value v row
  where
    by_value :
        (v : Bool)
        → (bit_row b k true j && bit_row b k false j) ≡ true
        → has_bit (with_bit b k v) j ≡ (if k == j then v else has_bit b j)
    by_value true row = same_iff _ _ (ground arith)
    by_value false row = same_iff _ _ (ground arith)

with_bit-lt : (b k : ℕ) (v : Bool) → b < 256 → k < 8 → with_bit b k v < 256
with_bit-lt b k true p q =
    let row = checked_below 8 _ k (checked_below 256 _ b bound_table p) q in ground arith
with_bit-lt b k false p q =
    let row = checked_below 8 _ k (checked_below 256 _ b bound_table p) q in ground arith

-- A number that is a byte.
abbrev pub IsByteNum : Num → Type 0
IsByteNum none = ⊥
IsByteNum (some b) = b < 256

-- The bit at an index of the bytes of a block.
abbrev pub bit_at : List Num → ℕ → Bool
bit_at bytes i = has_bit (or_zero (get_or bytes (i / 8) none)) (i % 8)

get_or-set :
    {A : Type 0} (xs : List A) (i j : ℕ) (x d : A)
    → i < length xs
    → get_or (set xs i x) j d ≡ (if i == j then x else get_or xs j d)
get_or-set [] i j x d h = elim h [ ]
get_or-set (y ∷ xs) zero zero x d h = refl
get_or-set (y ∷ xs) zero (suc j) x d h = ground arith
get_or-set (y ∷ xs) (suc i) zero x d h = ground arith
get_or-set (y ∷ xs) (suc i) (suc j) x d h = ground (arith, get_or-set xs i j x d)

or_zero-lt : (bytes : List Num) (i : ℕ) → All IsByteNum bytes → or_zero (get_or bytes i none) < 256
or_zero-lt [] i h = omega arith
or_zero-lt (none ∷ bytes) i (h, hs) = absurd h
or_zero-lt (some b ∷ bytes) zero (h, hs) = h
or_zero-lt (some b ∷ bytes) (suc i) (h, hs) = or_zero-lt bytes i hs

pub bit_at-put_bit :
    (bytes : List Num) (i : ℕ) (v : Bool) (j : ℕ)
    → All IsByteNum bytes
    → i / 8 < length bytes
    → bit_at (put_bit bytes i v) j ≡ (if i == j then v else bit_at bytes j)
unfolding put_bit
bit_at-put_bit bytes i v j h room =
    let old = or_zero (get_or bytes (i / 8) none) in
    let found = get_or-set bytes (i / 8) (j / 8) (some (with_bit old (i % 8) v)) none room in
    elim (Bool-cases (i / 8 == j / 8)) [
      | inl byte ↦
          let bit : (i % 8 == j % 8) ≡ (i == j) = ground arith in
          rw (found, byte)
            (has_bit-with_bit old (i % 8) v (j % 8) (or_zero-lt bytes (i / 8) h) (omega arith)
                (omega arith)
              ∙ (ap (λ t. if t then v else has_bit old (j % 8)) bit
                  ∙ ap (λ n. if i == j then v else has_bit (or_zero (get_or bytes n none)) (j % 8))
                      ((==_iff (i / 8) (j / 8)).0 byte)))
      | inr other ↦ let ne : (i == j) ≡ false = ground arith in rw (found, other, ne) refl
    ]

set-IsByteNum :
    (bytes : List Num) (i b : ℕ)
    → All IsByteNum bytes
    → b < 256
    → All IsByteNum (set bytes i (some b))
set-IsByteNum [] i b h p = tt
set-IsByteNum (n ∷ bytes) zero b (h, hs) p = (p, hs)
set-IsByteNum (n ∷ bytes) (suc i) b (h, hs) p = (h, set-IsByteNum bytes i b hs p)

pub put_bit-IsByteNum :
    (bytes : List Num) (i : ℕ) (v : Bool) → All IsByteNum bytes → All IsByteNum (put_bit bytes i v)
unfolding put_bit
put_bit-IsByteNum bytes i v h =
    set-IsByteNum bytes (i / 8) _ h
      (with_bit-lt _ (i % 8) v (or_zero-lt bytes (i / 8) h) (omega arith))

length-put_bit : (bytes : List Num) (i : ℕ) (v : Bool) → length (put_bit bytes i v) ≡ length bytes
unfolding put_bit
length-put_bit bytes i v = length-set bytes (i / 8) _

-- The window of addresses that are written, as the loop goes on.
window_empty :
    {A : Type 0} (addr x : ℕ) (u w : A) → (if leb addr x && ltb x (addr + 0) then u else w) ≡ w
window_empty addr x u w = ground arith

window_step :
    {A : Type 0} (s a j count : ℕ) (u u' w : A)
    → s ≤ a
    → (a ≡ s + j → u' ≡ u)
    → (if leb (a + 1) (s + j) && ltb (s + j) (a + 1 + count)
        then u
        else (if a - s == j then u' else w))
      ≡ (if leb a (s + j) && ltb (s + j) (a + suc count) then u else w)
window_step s a j count u u' w h same_value = elim (Bool-cases (a - s == j)) [
  | inl here ↦ let at_a : a ≡ s + j = ground arith in rw (same_value at_a, here) (ground arith)
  | inr other ↦ rw other (ground arith)
]

-- The bits of a block after some are written: those of the update at its addresses, the others as
-- before.
module _ (v : Values) (start : ℕ) where
  bit_at-write_bits :
      (count addr : ℕ) (bytes : List Num) (j : ℕ)
      → All IsByteNum bytes
      → start ≤ addr
      → addr + count ≤ start + length bytes * 8
      → bit_at (write_bits v start count addr bytes) j ≡ (
          if leb addr (start + j) && ltb (start + j) (addr + count)
          then bit_value v.data_bytes (start + j - v.logical_start)
          else bit_at bytes j)
  unfolding write_bits
  bit_at-write_bits zero addr bytes j h s r = sym (window_empty addr (start + j) _ _)
  bit_at-write_bits (suc count) addr bytes j h s r =
      let value = bit_value v.data_bytes (addr - v.logical_start) in
      let bytes' = put_bit bytes (addr - start) value in
      let rest =
        bit_at-write_bits count (addr + 1) bytes' j (put_bit-IsByteNum bytes (addr - start) value h)
          (omega arith) (omega (arith, length-put_bit bytes (addr - start) value)) in
      rest
      ∙ (ap
            (λ t.
              if leb (addr + 1) (start + j) && ltb (start + j) (addr + 1 + count)
              then bit_value v.data_bytes (start + j - v.logical_start)
              else t)
            (bit_at-put_bit bytes (addr - start) value j h (omega arith))
          ∙ window_step start addr j count _ value (bit_at bytes j) s
              (λ e. ap (λ i. bit_value v.data_bytes (i - v.logical_start)) e))

  write_bits-IsByteNum :
      (count addr : ℕ) (bytes : List Num)
      → All IsByteNum bytes
      → All IsByteNum (write_bits v start count addr bytes)
  unfolding write_bits
  write_bits-IsByteNum zero addr bytes h = h
  write_bits-IsByteNum (suc count) addr bytes h =
      write_bits-IsByteNum count (addr + 1) _ (put_bit-IsByteNum bytes (addr - start) _ h)

  length-write_bits :
      (count addr : ℕ) (bytes : List Num)
      → length (write_bits v start count addr bytes) ≡ length bytes
  unfolding write_bits
  length-write_bits zero addr bytes = refl
  length-write_bits (suc count) addr bytes =
      length-write_bits count (addr + 1) _ ∙ length-put_bit bytes (addr - start) _

pub upper_char-IsHex : (c : ℕ) → IsHex c → IsHex (upper_char c)
unfolding upper_char is_hex is_upper_hex
upper_char-IsHex c h = ground arith

to_upper-IsHex : (s : Text) → All IsHex s → All IsHex (to_upper s)
to_upper-IsHex [] h = tt
to_upper-IsHex (c ∷ s) (h, hs) = (upper_char-IsHex c h, to_upper-IsHex s hs)

-- Even hex text is bytes, half as many.
pub hex_to_bytes-IsByteNum :
    (s : Text)
    → All IsHex s
    → length s % 2 ≡ 0
    → All IsByteNum (hex_to_bytes s) × (length (hex_to_bytes s) * 2 ≡ length s)
unfolding hex_to_bytes
hex_to_bytes-IsByteNum [] h e = (tt, refl)
hex_to_bytes-IsByteNum (a ∷ []) h e = absurd (omega arith)
hex_to_bytes-IsByteNum (a ∷ b ∷ s) (p, (q, hs)) e =
    let (bytes, long) = hex_to_bytes-IsByteNum s hs (omega arith) in
    let small : IsByteNum (parse_int_16 (a ∷ b ∷ [])) =
      rw (parse_int_16_pair a b p q) (omega (arith, digit_value-lt a, digit_value-lt b)) in
    ((small, bytes), omega (arith, long))

-- Bytes that are numbers are written and read back.
pub byte_nums_back :
    (bytes : List Num) → All IsByteNum bytes → hex_to_bytes (bytes_to_hex bytes) ≡ bytes
byte_nums_back bytes h =
    let plain = plain_bytes bytes h in
    ap (λ b. hex_to_bytes (bytes_to_hex b)) (sym plain)
    ∙ (hex_to_bytes-bytes_to_hex (map or_zero bytes) (plain_small bytes h) ∙ plain)
  where
    plain_bytes : (bytes : List Num) → All IsByteNum bytes → map some (map or_zero bytes) ≡ bytes
    plain_bytes [] h = refl
    plain_bytes (none ∷ bytes) (h, hs) = absurd h
    plain_bytes (some b ∷ bytes) (h, hs) = ap (◌∷◌ (some b)) (plain_bytes bytes hs)

    plain_small : (bytes : List Num) → All IsByteNum bytes → All IsByte (map or_zero bytes)
    plain_small [] h = tt
    plain_small (none ∷ bytes) (h, hs) = absurd h
    plain_small (some b ∷ bytes) (h, hs) = (h, plain_small bytes hs)

-- A block of bits ends where its text does.
pub bit_stop :
    (fc : ℕ) (reg : Register)
    → is_of_type fc reg ≡ true
    → is_bit_type fc ≡ true
    → register_stop reg ≡ reg.start_addr + length reg.hex_data * 4
unfolding is_of_type register_stop
bit_stop fc reg t b = ground arith

-- A block of coils or discrete inputs that shares an address with the update, its text even hex: the
-- bits at the addresses of the update are those of the update, and the others are as before.
pub updated_bits_lem :
    (fc : ℕ) (v : Values) (reg : Register) (j : ℕ)
    → All IsHex reg.hex_data
    → length reg.hex_data % 2 ≡ 0
    → is_of_type fc reg ≡ true
    → is_bit_type fc ≡ true
    → overlap_start v reg < overlap_stop v reg
    → j < length reg.hex_data * 4
    → bit_at (hex_to_bytes (updated_bits v reg).hex_data) j ≡ (
        if leb v.logical_start (reg.start_addr + j)
          && ltb (reg.start_addr + j) (v.logical_start + v.quantity)
        then bit_value v.data_bytes (reg.start_addr + j - v.logical_start)
        else bit_at (hex_to_bytes (to_upper reg.hex_data)) j)
unfolding updated_bits
updated_bits_lem fc v reg j hex even t b meets inside =
    let first = overlap_start v reg in
    let count = overlap_stop v reg - first in
    let old = hex_to_bytes (to_upper reg.hex_data) in
    let same_length = length-map reg.hex_data upper_char in
    let stop = bit_stop fc reg t b in
    let (bytes, long) =
      hex_to_bytes-IsByteNum (to_upper reg.hex_data) (to_upper-IsHex reg.hex_data hex)
        (omega (arith, same_length)) in
    let new = write_bits v reg.start_addr count first old in
    ap (λ bs. bit_at bs j)
      (byte_nums_back new (write_bits-IsByteNum v reg.start_addr count first old bytes))
    ∙ (bit_at-write_bits v reg.start_addr count first old j bytes (omega arith)
          (omega (arith, stop, long, same_length))
        ∙ ap
            (λ test.
              if test
              then bit_value v.data_bytes (reg.start_addr + j - v.logical_start)
              else bit_at old j)
            (overlap_test v.logical_start (v.logical_start + v.quantity) reg.start_addr
              (register_stop reg) (reg.start_addr + j) (omega arith) (omega (arith, stop)) meets))
