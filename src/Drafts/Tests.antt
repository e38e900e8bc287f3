-- ===== src/Drafts/Tests.antt =====
-- The theorems on drafts at concrete states.
use Prim.Native.Nat.{compare}
use modbus_simulator_go.Base.{
  ◌≡◌, refl, true, false, none, some, [], ◌∷◌, codes, text_eq, length, any, map, is_upper_hex, trim,
}
use modbus_simulator_go.Base.Dict.{entry, contains}
use modbus_simulator_go.Tree.{Connection, sort_by}
use modbus_simulator_go.Template.{
  normalize_hex_template, normalize_compact, normalize_from, compact_of, token_length,
}
use modbus_simulator_go.Editor.{
  Row, SavedRule, exact, payload, save_rules, save_rule, create_empty_rule,
}
use modbus_simulator_go.Drafts.{
  State, World, Config, modbus, private_protocol, has_draft, private_nodes, to_ui_rules,
}
use modbus_simulator_go.Drafts.Actions.{
  attempt_switch_connection, set_mode, on_content_click, add_button, import_button,
}
use modbus_simulator_go.Drafts.Selection.{IsValid}
use modbus_simulator_go.Base.{◌⊎◌}
use modbus_simulator_go.Drafts.Steps.{Reach, SomeMiss, here, next, clicks, switches, Reach-IsValid}
use modbus_simulator_go.Drafts.Discard.{refused_keeps, set_mode_loses, LosesDraft}
use modbus_simulator_go.Drafts.Reload.{served, save_rules-to_ui_rules}

abbrev line_a : Connection
line_a = record { id = codes "c1"; name = codes "a"; port = 2502; service_type = 1 }

abbrev empty_config : Config
empty_config = record { conn_id = codes "c1"; name = codes "a"; rules = [] }

-- A connection with a draft.
abbrev edited : State
edited = record {
  mode = private_protocol;
  private_tree = line_a ∷ [];
  configs = (codes "c1", empty_config) ∷ [];
  active_conn_id = codes "c1";
  selected_row_index = none;
  dirty_connections = codes "c1" ∷ [];
}

-- A server that answers, and a user who does not confirm.
abbrev refusing : World
refusing = record {
  collate = λ a b. compare (length a) (length b);
  locale_compare = λ a b. compare (length a) (length b);
  tree = some (line_a ∷ []);
  get_config = λ id. none;
  save_config = true;
  update_connection = true;
  create_connection = none;
  delete_connection = true;
  confirmed = false;
}

edited-has_draft : has_draft edited ≡ true
unfolding has_draft contains text_eq
edited-has_draft = refl

refused_keeps_example :
    (attempt_switch_connection refusing (codes "c2") edited ≡ edited)
    × (set_mode refusing modbus edited ≡ edited)
    × ((on_content_click refusing import_button edited).state ≡ edited)
refused_keeps_example = refused_keeps refusing edited (codes "c2") refl edited-has_draft refl

still_there :
    any (λ node. text_eq node.id (codes "c1")) (private_nodes refusing (line_a ∷ [])) ≡ true
unfolding private_nodes sort_by text_eq
still_there = refl

set_mode_loses_example : LosesDraft refusing edited (set_mode refusing private_protocol edited)
set_mode_loses_example =
    set_mode_loses refusing edited (line_a ∷ []) refl edited-has_draft refl still_there

edited-IsValid : IsValid edited
unfolding entry text_eq
edited-IsValid = refl

-- A row is added and a switch to another connection is refused.
abbrev added : State
added = (on_content_click refusing add_button edited).state

abbrev two_steps : Reach edited (attempt_switch_connection refusing (codes "c2") added)
two_steps =
    next (next here (clicks refusing add_button edited)) (switches refusing (codes "c2") added)

Reach-IsValid_example :
    IsValid (attempt_switch_connection refusing (codes "c2") added) ⊎ SomeMiss two_steps
Reach-IsValid_example = Reach-IsValid edited-IsValid two_steps

abbrev filled : Row
filled = record (create_empty_rule (codes " a")) { send_hex = codes "41"; return_hex = codes "0d" }

abbrev sent : SavedRule
sent = record {
  name = codes "a";
  match_mode = exact;
  request_hex = codes "41";
  response_hex = codes "0D";
}

filled_saved : save_rules 0 (filled ∷ []) ≡ payload (sent ∷ [])
unfolding save_rules save_rule create_empty_rule normalize_hex_template normalize_compact
    normalize_from compact_of token_length is_upper_hex trim
filled_saved = refl

save_rules-to_ui_rules_example :
    save_rules 0 (to_ui_rules (map served (sent ∷ [])) 0) ≡ payload (sent ∷ [])
save_rules-to_ui_rules_example = save_rules-to_ui_rules (filled ∷ []) (sent ∷ []) filled_saved
