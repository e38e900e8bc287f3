-- ===== src/Hex/Bytes.antt =====
-- Bytes and their hex text: each direction undoes the other.
use mathlib.Core.Path.{ap₂}
use modbus_simulator_go.Base.{
  ℕ, ◌+◌, ◌-◌, ◌*◌, ◌/◌, ◌%◌, ◌<◌, true, ◌≡◌, refl, ap, ◌∙◌, List, [], ◌∷◌, map, some, Text, is_hex,
  upper_char, to_upper, All, length, ltb, text_eq, text_eq_iff, checks_below, checked_below, arith,
  if◌then◌else◌,
}
use modbus_simulator_go.Base.Digits.{digit_value, value, value_cons, value_nil}
use modbus_simulator_go.Hex.{parse_int_16, hex_to_bytes, byte_to_hex, bytes_to_hex}

-- A digit below 16 in upper case.
unfoldable pub hex_char : ℕ → ℕ
hex_char d = if ltb d 10 then b'0' + d else b'A' + (d - 10)

byte_table :
    checks_below 256
      (λ b. text_eq (byte_to_hex (some b)) (hex_char (b / 16) ∷ hex_char (b % 16) ∷ []))
    ≡ true
unfolding checks_below byte_to_hex text_eq hex_char
byte_table = refl

-- A byte is written as its two digits.
pub byte_to_hex_lem :
    (b : ℕ) → b < 256 → byte_to_hex (some b) ≡ hex_char (b / 16) ∷ hex_char (b % 16) ∷ []
byte_to_hex_lem b h = (text_eq_iff _ _).0 (checked_below 256 _ b byte_table h)

hex_pair :
    (c d : ℕ)
    → is_hex c ≡ true
    → is_hex d ≡ true
    → parse_int_16 (c ∷ d ∷ []) ≡ some (value 16 0 (c ∷ d ∷ []))
unfolding parse_int_16
hex_pair c d p q = rw (p, q)

value_pair : (c d : ℕ) → value 16 0 (c ∷ d ∷ []) ≡ digit_value c * 16 + digit_value d
value_pair c d =
    value_cons 16 0 c (d ∷ []) ∙ (value_cons 16 _ d [] ∙ (value_nil 16 _ ∙ omega arith))

-- Two digits are read as a byte.
pub parse_int_16_pair :
    (c d : ℕ)
    → is_hex c ≡ true
    → is_hex d ≡ true
    → parse_int_16 (c ∷ d ∷ []) ≡ some (digit_value c * 16 + digit_value d)
parse_int_16_pair c d p q = hex_pair c d p q ∙ ap some (value_pair c d)

unfoldable pub hex_char-is_hex : (d : ℕ) → d < 16 → is_hex (hex_char d) ≡ true
unfolding is_hex hex_char
hex_char-is_hex d h = ground arith

pub digit_value-hex_char : (d : ℕ) → d < 16 → digit_value (hex_char d) ≡ d
unfolding digit_value hex_char
digit_value-hex_char d h = ground arith

pub parse_int_16_byte :
    (b : ℕ) → b < 256 → parse_int_16 (hex_char (b / 16) ∷ hex_char (b % 16) ∷ []) ≡ some b
parse_int_16_byte b h =
    parse_int_16_pair _ _ (hex_char-is_hex (b / 16) (omega arith))
      (hex_char-is_hex (b % 16) (omega arith))
    ∙ ap some (
        omega (
          arith,
          digit_value-hex_char (b / 16) (omega arith),
          digit_value-hex_char (b % 16) (omega arith),
        ))

abbrev pub IsByte : ℕ → Type 0
IsByte b = b < 256

-- Bytes written as hex text are read back.
pub hex_to_bytes-bytes_to_hex :
    (bs : List ℕ) → All IsByte bs → hex_to_bytes (bytes_to_hex (map some bs)) ≡ map some bs
unfolding hex_to_bytes bytes_to_hex
hex_to_bytes-bytes_to_hex [] h = refl
hex_to_bytes-bytes_to_hex (b ∷ bs) (h, hs) =
    rw (byte_to_hex_lem b h, parse_int_16_byte b h, hex_to_bytes-bytes_to_hex bs hs)

abbrev pub IsHex : ℕ → Type 0
IsHex c = is_hex c ≡ true

pub digit_value-lt : (c : ℕ) → digit_value c < 16
unfolding digit_value
digit_value-lt c = ground arith

hex_char-digit_value : (c : ℕ) → IsHex c → hex_char (digit_value c) ≡ upper_char c
unfolding digit_value hex_char is_hex upper_char
hex_char-digit_value c h = ground arith

byte_to_hex_pair :
    (c d : ℕ)
    → IsHex c
    → IsHex d
    → byte_to_hex (parse_int_16 (c ∷ d ∷ [])) ≡ upper_char c ∷ upper_char d ∷ []
byte_to_hex_pair c d p q =
    ap byte_to_hex (parse_int_16_pair c d p q)
    ∙ (byte_to_hex_lem _ (omega (arith, digit_value-lt c, digit_value-lt d))
        ∙ ap₂ (λ x y. x ∷ y ∷ [])
            (ap hex_char (omega (arith, digit_value-lt c, digit_value-lt d))
              ∙ hex_char-digit_value c p)
            (ap hex_char (omega (arith, digit_value-lt c, digit_value-lt d))
              ∙ hex_char-digit_value d q))

-- Even hex text is read to bytes and written back in upper case.
pub bytes_to_hex-hex_to_bytes :
    (s : Text) → All IsHex s → length s % 2 ≡ 0 → bytes_to_hex (hex_to_bytes s) ≡ to_upper s
unfolding bytes_to_hex hex_to_bytes
bytes_to_hex-hex_to_bytes [] h e = refl
bytes_to_hex-hex_to_bytes (a ∷ []) h e = absurd (omega arith)
bytes_to_hex-hex_to_bytes (a ∷ b ∷ s) (p, (q, hs)) e =
    rw (byte_to_hex_pair a b p q, bytes_to_hex-hex_to_bytes s hs (omega arith))

-- What two digits are read as is a byte.
pub pair_value-lt : (c d : ℕ) → digit_value c * 16 + digit_value d < 256
pair_value-lt c d = omega (arith, digit_value-lt c, digit_value-lt d)
