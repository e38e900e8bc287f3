-- ===== src/Template.antt =====
-- The templates of the private protocol, from private_protocol.js: `normalizeHexTemplate`,
-- `formatHexTemplateForDisplay`, `asciiToHexTemplate` and `hexToAsciiTemplate`. A loop that moves an
-- index by the length of what it read is a recursion on the text with a count `skip` of the
-- characters still to pass over.
pub mod Normal
pub mod Display
pub mod RoundTrip
mod Tests
use modbus_simulator_go.Base.{
  ℕ, zero, suc, ◌+◌, ◌-◌, ◌*◌, ◌/◌, ◌%◌, ◌<◌, Bool, true, false, not, ◌&&◌, ◌||◌, Option, none,
  some, List, [], ◌∷◌, ◌++◌, map, Text, codes, is_space, is_upper_hex, is_hex, upper_char, to_upper,
  is_empty, pad_start, length, take, keep, every, ltb, leb, ◌==◌, if◌then◌else◌,
}
use modbus_simulator_go.Base.Digits.{is_digit, to_base, to_decimal, value, digit_value}

-- The messages of the four functions.
pub data Reason : Type 0 where
  empty_template not_hex odd_length bad_token not_hex_or_token bad_control not_printable : Reason

-- `{ok: true, value}`, or `{ok: false, value, error}` where the value may be missing.
pub data Outcome : Type 0 where
  accepted : Text → Outcome
  refused : Option Text → Reason → Outcome

unfoldable pub compact_of : Text → Text
unfolding is_space upper_char
compact_of raw = to_upper (keep (λ c. not (is_space c)) raw)

-- `[A-Z0-9_]`
unfoldable pub is_token_char : ℕ → Bool
is_token_char c = (leb b'A' c && leb c b'Z') || (leb b'0' c && leb c b'9') || c == b'_'

-- How many characters of a token stand behind its `@`; none means that the pattern does not match.
unfoldable pub token_length : Text → ℕ
unfolding is_token_char
token_length [] = 0
token_length (c ∷ s) = if is_token_char c then suc (token_length s) else 0

-- The loop of `normalizeHexTemplate` with tokens.
unfoldable pub normalize_from : ℕ → Text → Text → Outcome
normalize_from skip [] out = accepted out
normalize_from (suc skip) (c ∷ s) out = normalize_from skip s out
normalize_from zero (c ∷ []) out = refused (some out) (if c == b'@' then bad_token else odd_length)
normalize_from zero (c ∷ d ∷ s) out =
    let n = token_length (d ∷ s) in
    let token = normalize_from n (d ∷ s) (out ++ c ∷ take n (d ∷ s)) in
    let pair = normalize_from 1 (d ∷ s) (out ++ c ∷ d ∷ []) in
    if c == b'@'
    then (if n == 0 then refused (some out) bad_token else token)
    else if is_upper_hex c && is_upper_hex d
    then pair
    else refused (some out) not_hex_or_token

-- `normalizeHexTemplate` from the test `!compact` on.
unfoldable pub normalize_compact : Text → Bool → Bool → Outcome
normalize_compact compact allow_tokens allow_empty =
    if is_empty compact
    then (if allow_empty then accepted [] else refused (some []) empty_template)
    else if allow_tokens
    then normalize_from 0 compact []
    else if not (every is_upper_hex compact)
    then refused (some compact) not_hex
    else if not (length compact % 2 == 0)
    then refused (some compact) odd_length
    else accepted compact

unfoldable pub normalize_hex_template : Text → Bool → Bool → Outcome
normalize_hex_template raw allow_tokens allow_empty =
    normalize_compact (compact_of raw) allow_tokens allow_empty

-- `compact.match(/.{1,2}/g).join(' ')`
unfoldable pub in_pairs : Text → Text
in_pairs [] = []
in_pairs (c ∷ []) = c ∷ []
in_pairs (c ∷ d ∷ []) = c ∷ d ∷ []
in_pairs (c ∷ d ∷ e ∷ s) = c ∷ d ∷ b' ' ∷ in_pairs (e ∷ s)

-- The loop of `formatHexTemplateForDisplay` with tokens: its parts.
unfoldable pub display_parts : ℕ → Text → List Text
display_parts skip [] = []
display_parts (suc skip) (c ∷ s) = display_parts skip s
display_parts zero (c ∷ s) =
    let n = token_length s in
    let token = (c ∷ take n s) ∷ display_parts n s in
    let pair = (c ∷ take 1 s) ∷ display_parts 1 s in
    if c == b'@' && not (n == 0) then token else pair

-- `parts.join(' ')`
unfoldable pub join_spaced : List Text → Text
join_spaced [] = []
join_spaced (p ∷ []) = p
join_spaced (p ∷ q ∷ ps) = p ++ (b' ' ∷ join_spaced (q ∷ ps))

unfoldable pub format_hex_template_for_display : Text → Bool → Text
format_hex_template_for_display raw allow_tokens =
    let compact = compact_of raw in
    if not allow_tokens then in_pairs compact else join_spaced (display_parts 0 compact)

-- `raw.slice(i).match(/^\{(\d{1,3})\}/)` on the text behind a `{`: the digits.
unfoldable pub control_digits : Text → Option Text
control_digits (a ∷ b ∷ c ∷ d ∷ s) =
    if is_digit a && is_digit b && is_digit c && d == b'}'
    then some (a ∷ b ∷ c ∷ [])
    else if is_digit a && is_digit b && c == b'}'
    then some (a ∷ b ∷ [])
    else if is_digit a && b == b'}'
    then some (a ∷ [])
    else none
control_digits (a ∷ b ∷ c ∷ []) =
    if is_digit a && is_digit b && c == b'}'
    then some (a ∷ b ∷ [])
    else if is_digit a && b == b'}'
    then some (a ∷ [])
    else none
control_digits (a ∷ b ∷ []) = if is_digit a && b == b'}' then some (a ∷ []) else none
control_digits _ = none

abbrev pub control_at : ℕ → Text → Option Text
control_at c s = if c == b'{' then control_digits s else none

-- `value.toString(16).toUpperCase().padStart(2, '0')`
unfoldable pub code_to_hex : ℕ → Text
unfolding to_base upper_char
code_to_hex v = pad_start 2 (to_upper (to_base 16 v))

-- The loop of `asciiToHexTemplate`.
unfoldable pub ascii_from : Bool → ℕ → Text → Text → Outcome
ascii_from allow_tokens skip [] out = accepted out
ascii_from allow_tokens (suc skip) (c ∷ s) out = ascii_from allow_tokens skip s out
ascii_from allow_tokens zero (c ∷ s) out =
    let n = token_length (to_upper s) in
    let token = ascii_from allow_tokens n s (out ++ c ∷ to_upper (take n s)) in
    let plain = ascii_from allow_tokens 0 s (out ++ code_to_hex c) in
    elim (control_at c s) [
      | some digits ↦
          let v = value 10 0 digits in
          let control = ascii_from allow_tokens (length digits + 1) s (out ++ code_to_hex v) in
          if ltb 255 v then refused none bad_control else control
      | none ↦
          if allow_tokens && c == b'@' && not (n == 0)
          then token
          else if ltb c 32 || ltb 126 c
          then refused none not_printable
          else plain
    ]

unfoldable pub ascii_to_hex_template : Text → Bool → Outcome
ascii_to_hex_template raw allow_tokens = ascii_from allow_tokens 0 raw []

-- What one byte is shown as.
unfoldable pub shown : ℕ → Text
unfolding to_base
shown v = if leb 32 v && leb v 126 then v ∷ [] else b'{' ∷ (to_decimal v ++ b'}' ∷ [])

-- The loop of `hexToAsciiTemplate`, on a text that was normalized: two characters are a byte.
unfoldable pub hex_from : Bool → ℕ → Text → Text → Text
hex_from allow_tokens skip [] out = out
hex_from allow_tokens (suc skip) (c ∷ s) out = hex_from allow_tokens skip s out
hex_from allow_tokens zero (c ∷ s) out =
    let n = token_length s in
    let token = hex_from allow_tokens n s (out ++ c ∷ take n s) in
    let pair = hex_from allow_tokens 1 s (out ++ shown (value 16 0 (c ∷ take 1 s))) in
    if allow_tokens && c == b'@' && not (n == 0) then token else pair

unfoldable pub hex_to_ascii_template : Text → Bool → Outcome
hex_to_ascii_template raw allow_tokens = elim (normalize_hex_template raw allow_tokens true) [
  | refused value error ↦ refused (some []) error
  | accepted hex ↦ accepted (hex_from allow_tokens 0 hex [])
]
