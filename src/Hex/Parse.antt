-- ===== src/Hex/Parse.antt =====
-- `parseHexPayload`: what it accepts and what it returns.
use modbus_simulator_go.Base.{
  ℕ, ◌+◌, ◌*◌, ◌%◌, true, false, ◌≡◌, ◌≢◌, refl, sym, ap, ◌∙◌, inl, inr, List, [], ◌∷◌, map, not,
  ◌||◌, none, some, Text, is_hex, to_upper, All, length, arith, keep, is_empty, Bool-cases, ◌==◌,
}
use modbus_simulator_go.Base.Digits.{digit_value}
use modbus_simulator_go.Hex.{
  parse_int_16, hex_to_bytes, bytes_to_hex, payload_bytes, parse_hex_payload, Payload,
}
use modbus_simulator_go.Hex.Bytes.{
  IsHex, IsByte, parse_int_16_pair, pair_value-lt, bytes_to_hex-hex_to_bytes,
}

keep-IsHex : (s : Text) → All IsHex (keep is_hex s)
keep-IsHex [] = tt
keep-IsHex (c ∷ s) = elim (Bool-cases (is_hex c)) [
  | inl h ↦ rw h (h, keep-IsHex s)
  | inr h ↦ rw h (keep-IsHex s)
]

-- The bytes that the loop reads from even hex text: it never meets NaN.
record Reads (s : Text) : Type 0 where
  pub bytes : List ℕ
  pub result : payload_bytes s ≡ some bytes
  pub same : hex_to_bytes s ≡ map some bytes
  pub each : All IsByte bytes

payload_bytes-cons :
    (a b v : ℕ) (s : Text) (vs : List ℕ)
    → parse_int_16 (a ∷ b ∷ []) ≡ some v
    → payload_bytes s ≡ some vs
    → payload_bytes (a ∷ b ∷ s) ≡ some (v ∷ vs)
unfolding payload_bytes
payload_bytes-cons a b v s vs p q = rw (p, q, payload_bytes)

hex_to_bytes-cons :
    (a b : ℕ) (s : Text) → hex_to_bytes (a ∷ b ∷ s) ≡ parse_int_16 (a ∷ b ∷ []) ∷ hex_to_bytes s
unfolding hex_to_bytes
hex_to_bytes-cons a b s = refl

reads : (s : Text) → All IsHex s → length s % 2 ≡ 0 → Reads s
reads [] h e = record {
  bytes = [];
  result = unfold payload_bytes in refl;
  same = unfold hex_to_bytes in refl;
  each = tt;
}
reads (a ∷ []) h e = absurd (omega arith)
reads (a ∷ b ∷ s) (p, (q, hs)) e =
    let rest = reads s hs (omega arith) in
    let head = parse_int_16_pair a b p q in
    record {
      bytes = (digit_value a * 16 + digit_value b) ∷ rest.bytes;
      result = payload_bytes-cons a b _ s rest.bytes head rest.result;
      same = rw (hex_to_bytes-cons a b s, head, rest.same);
      each = (pair_value-lt a b, rest.each);
    }

abbrev pub hex_part : Text → Text
hex_part = keep is_hex

-- The result on an accepted payload.
pub record Accepts (raw : Text) : Type 0 where
  pub payload : Payload
  pub result : parse_hex_payload raw ≡ some payload
  pub hex_upper : payload.hex ≡ to_upper (hex_part raw)
  pub bytes_spell : bytes_to_hex (map some payload.bytes) ≡ payload.hex
  pub bytes_bound : All IsByte payload.bytes

guard_passes :
    (s : Text) → s ≢ [] → length s % 2 ≡ 0 → (is_empty s || not (length s % 2 == 0)) ≡ false
guard_passes [] ne e = absurd (ne refl)
guard_passes (c ∷ s) ne e = rw e

parse_hex_payload_step :
    (raw : Text) (bs : List ℕ)
    → (is_empty (hex_part raw) || not (length (hex_part raw) % 2 == 0)) ≡ false
    → payload_bytes (hex_part raw) ≡ some bs
    → parse_hex_payload raw ≡ some (record { hex = to_upper (hex_part raw); bytes = bs })
unfolding parse_hex_payload
parse_hex_payload_step raw bs g p = rw (g, p)

-- A payload whose hex digits are an even, positive number is accepted: the other characters are
-- skipped, the bytes are below 256 and spell the digits in upper case.
pub parse_hex_payload-Accepts :
    (raw : Text) → hex_part raw ≢ [] → length (hex_part raw) % 2 ≡ 0 → Accepts raw
parse_hex_payload-Accepts raw ne even =
    let r = reads (hex_part raw) (keep-IsHex raw) even in
    record {
      payload = record { hex = to_upper (hex_part raw); bytes = r.bytes };
      result = parse_hex_payload_step raw r.bytes (guard_passes (hex_part raw) ne even) r.result;
      hex_upper = refl;
      bytes_spell =
          ap bytes_to_hex (sym r.same)
          ∙ bytes_to_hex-hex_to_bytes (hex_part raw) (keep-IsHex raw) even;
      bytes_bound = r.each;
    }

odd_guard : (s : Text) → length s % 2 ≡ 1 → (is_empty s || not (length s % 2 == 0)) ≡ true
odd_guard [] e = absurd (omega arith)
odd_guard (c ∷ s) e = rw e

-- Every other payload is refused.
pub parse_hex_payload-none :
    (raw : Text) → length (hex_part raw) % 2 ≡ 1 → parse_hex_payload raw ≡ none
unfolding parse_hex_payload
parse_hex_payload-none raw e = rw (odd_guard (hex_part raw) e)
