-- ===== src/Editor/Tests.antt =====
-- The theorems on the rule table at concrete rows.
use modbus_simulator_go.Base.{◌≡◌, refl, false, some, [], ◌∷◌, codes, arith, trim, is_upper_hex}
use modbus_simulator_go.Template.{
  normalize_hex_template, normalize_compact, normalize_from, compact_of, token_length,
}
use modbus_simulator_go.Editor.{
  Row, Table, SavedRule, payload, save_rules, save_rule, exact, create_empty_rule, sync_rule_field,
  send_ascii_field,
}
use modbus_simulator_go.Hex.{bytes_to_hex}
use modbus_simulator_go.Base.{map, none}
use modbus_simulator_go.Editor.{send_hex_field}
use modbus_simulator_go.Editor.Fields.{sync_rule_field_back}
use modbus_simulator_go.Editor.Save.{AllBelong, save_rules-AllBelong}

abbrev filled : Row
filled = record (create_empty_rule (codes "a")) { send_hex = codes "41"; return_hex = codes "0d" }

abbrev one_row : Table
one_row = record { rules = filled ∷ []; selected_row_index = some 0; dirty = false }

sync_rule_field_back_example :
    (let hex = bytes_to_hex (map some (0x41 ∷ 0x0d ∷ [])) in
      let shown = sync_rule_field filled send_hex_field hex in
      let back = sync_rule_field shown send_ascii_field shown.send_ascii in
      (shown.errors.send_hex ≡ none)
      × (shown.send_hex ≡ hex)
      × (back.errors.send_ascii ≡ none)
      × (back.send_hex ≡ hex))
sync_rule_field_back_example = sync_rule_field_back filled (0x41 ∷ 0x0d ∷ []) (omega arith)

abbrev sent : SavedRule
sent = record {
  name = codes "a";
  match_mode = exact;
  request_hex = codes "41";
  response_hex = codes "0D";
}

filled_saved : save_rules 0 (filled ∷ []) ≡ payload (sent ∷ [])
unfolding save_rules save_rule create_empty_rule normalize_hex_template normalize_compact
    normalize_from compact_of token_length is_upper_hex trim
filled_saved = refl

save_rules-AllBelong_example : AllBelong (filled ∷ []) (sent ∷ [])
save_rules-AllBelong_example = save_rules-AllBelong 0 (filled ∷ []) (sent ∷ []) filled_saved
