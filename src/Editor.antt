-- ===== src/Editor.antt =====
-- The rule table of private_protocol.js for the active connection: `syncRuleField`, `addRow`,
-- `deleteSelectedRow`, `getRuleByIndex`, `createEmptyRule`, `normalizeMatchMode` and
-- `buildSavePayload`. The index -1 of "no row" is `none`. The random parts of a rule (`id`,
-- `randomConfig`) are left out.
pub mod Rows
pub mod Fields
pub mod Save
mod Tests
use modbus_simulator_go.Base.{
  ℕ, zero, suc, ◌+◌, ◌-◌, Bool, true, false, not, ◌&&◌, Option, none, some, List, [], ◌∷◌, ◌++◌,
  map, Text, is_empty, trim, trim_start, length, get_elem?, ltb, if◌then◌else◌, ◌≡◌,
}
use modbus_simulator_go.Naming.{next_rule_name}
use modbus_simulator_go.Template.{
  Reason, Outcome, accepted, refused, normalize_hex_template, ascii_to_hex_template,
  hex_to_ascii_template,
}

pub data MatchMode : Type 0 where
  exact contains : MatchMode

-- `Number(value) === PRIVATE_MATCH_CONTAINS`, on the number that a value converts to.
unfoldable pub normalize_match_mode : ℕ → MatchMode
normalize_match_mode (suc zero) = contains
normalize_match_mode value = exact

pub data Fault : Type 0 where
  name_missing : Fault
  template : Reason → Fault

-- A missing error and the empty text are `none`.
pub record Errors : Type 0 where
  pub name : Option Fault
  pub send_ascii : Option Fault
  pub send_hex : Option Fault
  pub return_ascii : Option Fault
  pub return_hex : Option Fault

-- `errors: {}`
abbrev pub no_errors : Errors
no_errors = record {
  name = none;
  send_ascii = none;
  send_hex = none;
  return_ascii = none;
  return_hex = none;
}

pub record Row : Type 0 where
  pub name : Text
  pub match_mode : MatchMode
  pub send_ascii : Text
  pub send_hex : Text
  pub return_ascii : Text
  pub return_hex : Text
  pub errors : Errors
  pub dirty : Bool

pub data Field : Type 0 where
  name_field send_ascii_field send_hex_field return_ascii_field return_hex_field : Field

-- `normalized.value`; a refusal of `normalizeHexTemplate` always has one.
abbrev pub value_of : Outcome → Text
value_of (accepted v) = v
value_of (refused (some v) why) = v
value_of (refused none why) = []

abbrev pub ascii_sent : Row → Outcome → Row
ascii_sent row (refused v why) = record row {
  errors = record row.errors { send_ascii = some (template why) };
}
ascii_sent row (accepted v) = record row {
  send_hex = v;
  errors = record row.errors { send_ascii = none; send_hex = none };
}

abbrev pub ascii_returned : Row → Outcome → Row
ascii_returned row (refused v why) = record row {
  errors = record row.errors { return_ascii = some (template why) };
}
ascii_returned row (accepted v) = record row {
  return_hex = v;
  errors = record row.errors { return_ascii = none; return_hex = none };
}

-- The conversion back to ASCII, after the hex was accepted.
abbrev pub hex_sent : Row → Outcome → Row
hex_sent row (refused v why) = record row {
  errors = record row.errors { send_hex = some (template why) };
}
hex_sent row (accepted v) = record row {
  send_ascii = v;
  errors = record row.errors { send_ascii = none; send_hex = none };
}

abbrev pub hex_returned : Row → Outcome → Row
hex_returned row (refused v why) = record row {
  errors = record row.errors { return_hex = some (template why) };
}
hex_returned row (accepted v) = record row {
  return_ascii = v;
  errors = record row.errors { return_ascii = none; return_hex = none };
}

abbrev pub name_fault : Text → Option Fault
name_fault name = if is_empty name then some name_missing else none

unfoldable pub sync_rule_field : Row → Field → Text → Row
sync_rule_field row name_field raw =
    let name = trim_start raw in
    record row { name = name; errors = record row.errors { name = name_fault name } }
sync_rule_field row send_ascii_field raw =
    ascii_sent (record row { send_ascii = raw }) (ascii_to_hex_template raw false)
sync_rule_field row send_hex_field raw =
    let normalized = normalize_hex_template raw false true in
    let row' = record row { send_hex = value_of normalized } in
    elim normalized [
      | refused v why ↦ record row' {
        errors = record row'.errors { send_hex = some (template why) };
      }
      | accepted v ↦ hex_sent row' (hex_to_ascii_template v false)
    ]
sync_rule_field row return_ascii_field raw =
    ascii_returned (record row { return_ascii = raw }) (ascii_to_hex_template raw true)
sync_rule_field row return_hex_field raw =
    let normalized = normalize_hex_template raw true true in
    let row' = record row { return_hex = value_of normalized } in
    elim normalized [
      | refused v why ↦ record row' {
        errors = record row'.errors { return_hex = some (template why) };
      }
      | accepted v ↦ hex_returned row' (hex_to_ascii_template v true)
    ]

pub record Table : Type 0 where
  pub rules : List Row
  pub selected_row_index : Option ℕ
  pub dirty : Bool

unfoldable pub create_empty_rule : Text → Row
create_empty_rule name = record {
  name = name;
  match_mode = exact;
  send_ascii = [];
  send_hex = [];
  return_ascii = [];
  return_hex = [];
  errors = no_errors;
  dirty = true;
}

unfoldable pub get_rule_by_index : Table → ℕ → Option Row
get_rule_by_index t index = get_elem? t.rules index

-- The name that `nextRuleName` finds; its search always finds one (Naming.Fresh).
abbrev pub or_empty : Option Text → Text
or_empty none = []
or_empty (some name) = name

unfoldable pub add_row : Table → Table
add_row t =
    let rules =
      t.rules ++ create_empty_rule (or_empty (next_rule_name (map (λ r. r.name) t.rules))) ∷ [] in
    record { rules = rules; selected_row_index = some (length rules - 1); dirty = true }

-- `rules.splice(i, 1)`
unfoldable pub splice : ℕ → List Row → List Row
splice i [] = []
splice zero (r ∷ rules) = rules
splice (suc i) (r ∷ rules) = r ∷ splice i rules

-- The selected row after the deletion.
abbrev pub clamp_selected : ℕ → List Row → Option ℕ
clamp_selected i [] = none
clamp_selected i (r ∷ rules) =
    some (if ltb i (length (r ∷ rules)) then i else length (r ∷ rules) - 1)

abbrev pub delete_at : Option ℕ → Table → Table
delete_at none t = t
delete_at (some i) t =
    if ltb i (length t.rules)
    then record {
      rules = splice i t.rules;
      selected_row_index = clamp_selected i (splice i t.rules);
      dirty = true;
    }
    else t

unfoldable pub delete_selected_row : Table → Table
delete_selected_row t = delete_at t.selected_row_index t

-- The adjustment in `refreshPrivateData` and `reloadPrivateConfig`.
unfoldable pub adjust_selected : List Row → Option ℕ → Option ℕ
adjust_selected [] selected = none
adjust_selected (r ∷ rules) none = some 0
adjust_selected (r ∷ rules) (some i) = some (if ltb i (length (r ∷ rules)) then i else 0)

-- A rule as it is sent to the server.
pub record SavedRule : Type 0 where
  pub name : Text
  pub match_mode : MatchMode
  pub request_hex : Text
  pub response_hex : Text

-- The error that `buildSavePayload` throws, with the number of the row.
pub data SaveError : Type 0 where
  bad_request bad_response : ℕ → Reason → SaveError
  no_name : ℕ → SaveError
  -- the connection or its configuration was not found
  no_connection : SaveError

pub data Saved (A : Type 0) : Type 0 where
  payload : A → Saved A
  thrown : SaveError → Saved A

unfoldable pub save_rule : ℕ → Row → Saved SavedRule
save_rule index row = elim (normalize_hex_template row.send_hex false false) [
  | refused v why ↦ thrown (bad_request (index + 1) why)
  | accepted request ↦ elim (normalize_hex_template row.return_hex true false) [
    | refused v why ↦ thrown (bad_response (index + 1) why)
    | accepted response ↦
        if is_empty (trim row.name)
        then thrown (no_name (index + 1))
        else payload (record {
          name = trim row.name;
          match_mode = row.match_mode;
          request_hex = request;
          response_hex = response;
        })
  ]
]

-- `config.rules.map` with the throwing body: the first error ends it.
unfoldable pub save_rules : ℕ → List Row → Saved (List SavedRule)
save_rules index [] = payload []
save_rules index (row ∷ rows) =
    let later = save_rules (index + 1) rows in
    elim (save_rule index row) [
      | thrown e ↦ thrown e
      | payload rule ↦ elim later [ thrown e ↦ thrown e | payload rules ↦ payload (rule ∷ rules) ]
    ]
