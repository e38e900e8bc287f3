-- ===== src/Hex.antt =====
-- The hex conversion helpers of app.js, `parseHexPayload`, and the byte orders of
-- `hexToFloat32Order`. A number that may be NaN is an `Option ℕ`. `parseInt(s, 16)` is modelled on
-- the texts that reach it, which hold no sign, no blank and no `0x` prefix.
pub mod Bytes
pub mod Parse
pub mod Words
mod Tests
use modbus_simulator_go.Base.{
  ℕ, zero, suc, ◌+◌, ◌-◌, ◌*◌, ◌/◌, ◌%◌, ◌<◌, Bool, true, false, ◌||◌, not, Option, none, some,
  List, [], ◌∷◌, ◌++◌, map, Text, codes, is_hex, to_upper, upper_char, pad_start, length, get_or,
  ltb, ◌==◌, if◌then◌else◌, is_empty, bit_and, bit_or, keep,
}
use modbus_simulator_go.Base.Digits.{to_base, value}
use modbus_simulator_go.Base.Int.{ℤ, pos, sub_ℕ}

abbrev pub Num : Type 0
Num = Option ℕ

-- The digits at the front of a text.
unfoldable pub hex_prefix : Text → Text
unfolding is_hex
hex_prefix [] = []
hex_prefix (c ∷ s) = if is_hex c then c ∷ hex_prefix s else []

-- `parseInt(s, 16)`
unfoldable pub parse_int_16 : Text → Num
unfolding hex_prefix value
parse_int_16 s =
    let digits = hex_prefix s in if is_empty digits then none else some (value 16 0 digits)

unfoldable pub hex_to_bytes : Text → List Num
unfolding parse_int_16
hex_to_bytes [] = []
hex_to_bytes (a ∷ []) = parse_int_16 (a ∷ []) ∷ []
hex_to_bytes (a ∷ b ∷ s) = parse_int_16 (a ∷ b ∷ []) ∷ hex_to_bytes s

-- `b.toString(16)`
abbrev pub to_hex : Num → Text
to_hex none = codes "NaN"
to_hex (some b) = to_base 16 b

-- `b.toString(16).padStart(2, '0').toUpperCase()`
unfoldable pub byte_to_hex : Num → Text
unfolding to_base upper_char
byte_to_hex b = to_upper (pad_start 2 (to_hex b))

unfoldable pub bytes_to_hex : List Num → Text
unfolding byte_to_hex
bytes_to_hex [] = []
bytes_to_hex (b ∷ bs) = byte_to_hex b ++ bytes_to_hex bs

unfoldable pub hex_to_uint16 : Text → Num
unfolding parse_int_16
hex_to_uint16 hex = parse_int_16 hex

-- NaN fails the test `val > 0x7FFF` and is returned.
unfoldable pub hex_to_int16 : Text → Option ℤ
unfolding parse_int_16
hex_to_int16 hex = elim (parse_int_16 hex) [
  | none ↦ none
  | some val ↦ some (if ltb 0x7fff val then sub_ℕ val 0x10000 else pos val)
]

pub record Payload : Type 0 where
  pub hex : Text
  pub bytes : List ℕ

-- The loop of `parseHexPayload`: it gives up at the first NaN.
unfoldable pub payload_bytes : Text → Option (List ℕ)
unfolding parse_int_16
payload_bytes [] = some []
payload_bytes (a ∷ []) = elim (parse_int_16 (a ∷ [])) [ none ↦ none | some v ↦ some (v ∷ []) ]
payload_bytes (a ∷ b ∷ s) =
    let rest = payload_bytes s in
    elim (parse_int_16 (a ∷ b ∷ [])) [
      | none ↦ none
      | some v ↦ elim rest [ none ↦ none | some vs ↦ some (v ∷ vs) ]
    ]

unfoldable pub parse_hex_payload : Text → Option Payload
unfolding payload_bytes is_hex upper_char
parse_hex_payload raw =
    let hex = keep is_hex raw in
    if is_empty hex || not (length hex % 2 == 0) then none else elim (payload_bytes hex) [
      | none ↦ none
      | some bs ↦ some (record { hex = to_upper hex; bytes = bs })
    ]

pub data Order : Type 0 where
  abcd badc cdab dcba : Order

-- `idx` of `hexToFloat32Order`
unfoldable pub byte_order : Order → List ℕ
byte_order badc = 1 ∷ 0 ∷ 3 ∷ 2 ∷ []
byte_order cdab = 2 ∷ 3 ∷ 0 ∷ 1 ∷ []
byte_order dcba = 3 ∷ 2 ∷ 1 ∷ 0 ∷ []
byte_order abcd = 0 ∷ 1 ∷ 2 ∷ 3 ∷ []

-- `setUint8` keeps a value modulo 256, and stores NaN as 0.
abbrev pub to_uint8 : Num → ℕ
to_uint8 none = 0
to_uint8 (some b) = b % 256

-- `getFloat32` and `formatNumber` on the four bytes are the argument `show`.
unfoldable pub hex_to_float32_order : (List ℕ → Text) → Text → Order → Text
unfolding hex_to_bytes byte_order
hex_to_float32_order show hex order =
    let bytes = hex_to_bytes hex in
    if not (length hex == 8)
    then codes "NA"
    else show (map (λ i. to_uint8 (get_or bytes i none)) (byte_order order))

unfoldable pub hex_to_float32 : (List ℕ → Text) → Text → Text
unfolding hex_to_float32_order
hex_to_float32 show hex = hex_to_float32_order show hex abcd
