-- ===== src/Template/Tests.antt =====
-- Runs of the template functions, and the theorems at concrete inputs.
use modbus_simulator_go.Base.{
  ◌≡◌, refl, true, false, [], ◌∷◌, arith, Text, codes, some, map, is_upper_hex,
}
use modbus_simulator_go.Hex.{bytes_to_hex}
use modbus_simulator_go.Base.Digits.{value}
use modbus_simulator_go.Template.{
  accepted, compact_of, normalize_hex_template, format_hex_template_for_display,
  hex_to_ascii_template, ascii_to_hex_template, normalize_compact, normalize_from, token_length,
  ascii_from, control_digits, code_to_hex, display_parts, join_spaced,
}
use modbus_simulator_go.Template.RoundTrip.{
  braced, ascii_to_hex_template-hex_to_ascii_template, ascii_to_hex_template-braced,
}

token_kept : normalize_hex_template (codes "0d @crc") true false ≡ accepted (codes "0D@CRC")
unfolding normalize_hex_template normalize_compact normalize_from compact_of token_length
    is_upper_hex
token_kept = refl

token_shown : format_hex_template_for_display (codes "0d0a@crc") true ≡ codes "0D 0A @CRC"
unfolding format_hex_template_for_display display_parts join_spaced compact_of token_length
token_shown = refl

control_read : ascii_to_hex_template (codes "A{13}") false ≡ accepted (codes "410D")
unfolding ascii_to_hex_template ascii_from control_digits code_to_hex value token_length
control_read = refl

ascii_to_hex_template-hex_to_ascii_template_example :
    (text : Text) × (hex_to_ascii_template (bytes_to_hex (map some (0x41 ∷ 0x0d ∷ []))) false
      ≡ accepted text)
    × (ascii_to_hex_template text false ≡ accepted (bytes_to_hex (map some (0x41 ∷ 0x0d ∷ []))))
ascii_to_hex_template-hex_to_ascii_template_example =
    ascii_to_hex_template-hex_to_ascii_template (0x41 ∷ 0x0d ∷ []) (omega arith)

ascii_to_hex_template-braced_example :
    (hex_to_ascii_template (bytes_to_hex (map some (braced 13))) false ≡ accepted (braced 13))
    × (ascii_to_hex_template (braced 13) false ≡ accepted (bytes_to_hex (some 13 ∷ [])))
ascii_to_hex_template-braced_example = ascii_to_hex_template-braced 13 (omega arith)
