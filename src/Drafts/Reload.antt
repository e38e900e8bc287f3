-- ===== src/Drafts/Reload.antt =====
-- A configuration that was saved, when it is loaded again: `buildSavePayload` and `toUiRule`.
use modbus_simulator_go.Base.{
  ℕ, ◌+◌, ◌≡◌, refl, sym, ap, ◌∙◌, subst, Bool, true, false, List, [], ◌∷◌, map, ◌++◌, Text,
  is_empty, trim,
}
use modbus_simulator_go.Base.Digits.{to_decimal}
use modbus_simulator_go.Naming.{new_rule}
use modbus_simulator_go.Base.Trim.{trim_idem}
use modbus_simulator_go.Template.{accepted, normalize_hex_template, normalize_compact, compact_of}
use modbus_simulator_go.Template.Normal.{normalize_hex_template_idem}
use modbus_simulator_go.Editor.{
  Row, MatchMode, exact, contains, SavedRule, payload, save_rule, save_rules, normalize_match_mode,
}
use modbus_simulator_go.Editor.Save.{Belongs, AllBelong, save_rules-AllBelong}
use modbus_simulator_go.Drafts.{ServedRule, to_ui_rule, to_ui_rules, or_else}

abbrev pub mode_number : MatchMode → ℕ
mode_number exact = 0
mode_number contains = 1

-- A rule as the server sends it that was sent this way.
abbrev pub served : SavedRule → ServedRule
served rule = record {
  name = rule.name;
  match_mode = mode_number rule.match_mode;
  request_hex = rule.request_hex;
  response_hex = rule.response_hex;
}

normalize_match_mode-mode_number : (m : MatchMode) → normalize_match_mode (mode_number m) ≡ m
unfolding normalize_match_mode
normalize_match_mode-mode_number exact = refl
normalize_match_mode-mode_number contains = refl

allow_empty_compact :
    (s : Text) (t : Bool) (v : Text)
    → normalize_compact s t false ≡ accepted v
    → normalize_compact s t true ≡ accepted v
unfolding normalize_compact
allow_empty_compact [] t v h = cc
allow_empty_compact (c ∷ s) t v h = h

-- What is accepted as not empty is accepted where the empty template is allowed.
allow_empty :
    (raw : Text) (t : Bool) (v : Text)
    → normalize_hex_template raw t false ≡ accepted v
    → normalize_hex_template raw t true ≡ accepted v
unfolding normalize_hex_template
allow_empty raw t v h = allow_empty_compact (compact_of raw) t v h

or_else_given : (s t : Text) → is_empty s ≡ false → or_else s t ≡ s
or_else_given [] t h = cc
or_else_given (c ∷ s) t h = refl

-- What a row needs to be saved as a rule.
Belongs-save_rule :
    (k : ℕ) (row : Row) (rule : SavedRule) → Belongs row rule → save_rule k row ≡ payload rule
unfolding save_rule
Belongs-save_rule k row rule b =
    let given : is_empty (trim row.name) ≡ false =
      subst (λ n. is_empty n ≡ false) b.named b.name_given in
    rw (save_rule, b.request, b.response, given, sym b.named, sym b.mode) refl

-- The row that a saved rule is loaded as.
module _ (row : Row) (rule : SavedRule) (b : Belongs row rule) (index : ℕ) where
  request_again : normalize_hex_template rule.request_hex false false ≡ accepted rule.request_hex
  request_again = (normalize_hex_template_idem row.send_hex false false b.request).1

  response_again : normalize_hex_template rule.response_hex true false ≡ accepted rule.response_hex
  response_again = (normalize_hex_template_idem row.return_hex true false b.response).1

  loaded_send_hex : (to_ui_rule (served rule) index).send_hex ≡ rule.request_hex
  unfolding to_ui_rule
  loaded_send_hex = rw (allow_empty rule.request_hex false rule.request_hex request_again) refl

  loaded_return_hex : (to_ui_rule (served rule) index).return_hex ≡ rule.response_hex
  unfolding to_ui_rule
  loaded_return_hex = rw (allow_empty rule.response_hex true rule.response_hex response_again) refl

  loaded_name : (to_ui_rule (served rule) index).name ≡ rule.name
  unfolding to_ui_rule
  loaded_name =
      rw (or_else_given rule.name (new_rule ++ to_decimal (index + 1)) b.name_given)
        (ap trim b.named ∙ (trim_idem row.name ∙ sym b.named))

  loaded_mode : (to_ui_rule (served rule) index).match_mode ≡ rule.match_mode
  unfolding to_ui_rule
  loaded_mode = normalize_match_mode-mode_number rule.match_mode

  loaded-Belongs : Belongs (to_ui_rule (served rule) index) rule
  loaded-Belongs = record {
    request = rw loaded_send_hex request_again;
    response = rw loaded_return_hex response_again;
    named = sym (ap trim loaded_name ∙ (ap trim b.named ∙ (trim_idem row.name ∙ sym b.named)));
    name_given = b.name_given;
    mode = sym loaded_mode;
  }

AllBelong-save_rules :
    (rows : List Row) (rules : List SavedRule) (index k : ℕ)
    → AllBelong rows rules
    → save_rules k (to_ui_rules (map served rules) index) ≡ payload rules
unfolding save_rules to_ui_rules
AllBelong-save_rules [] [] index k h = refl
AllBelong-save_rules [] (rule ∷ rules) index k h = absurd h
AllBelong-save_rules (row ∷ rows) [] index k h = absurd h
AllBelong-save_rules (row ∷ rows) (rule ∷ rules) index k (b, h) =
    let first = Belongs-save_rule k _ rule (loaded-Belongs row rule b index) in
    rw (save_rules, first, AllBelong-save_rules rows rules (index + 1) (k + 1) h) refl

-- What was saved, when the server sends it back, is loaded as rows that are saved as the same rules
-- again, without an error: nothing is lost or changed between a save and the next one.
pub save_rules-to_ui_rules :
    (rows : List Row) (rules : List SavedRule)
    → save_rules 0 rows ≡ payload rules
    → save_rules 0 (to_ui_rules (map served rules) 0) ≡ payload rules
save_rules-to_ui_rules rows rules h =
    AllBelong-save_rules rows rules 0 0 (save_rules-AllBelong 0 rows rules h)
