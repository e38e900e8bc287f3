-- ===== src/Drafts.antt =====
-- The state of private_protocol.js and how it is loaded: `getNodeById`, `getActiveConfig`,
-- `toUiConfig`, `toUiRule`, `createEmptyConfig`, `refreshPrivateData`, `reloadPrivateConfig`,
-- `markDirty`, `confirmDiscardActivePrivateDraft`. A node of the private tree stands for its
-- connection, the index -1 is `none`, and a `Map` or `Set` of texts is a list (Base.Dict). What the
-- server and the user answer during an operation is a `World`; an operation runs to its end before
-- the next one starts.
pub mod Actions
pub mod Forms
pub mod Selection
pub mod Steps
pub mod Discard
pub mod Reload
mod Tests
use Prim.Native.Nat.{Ordering}
use modbus_simulator_go.Base.{
  ℕ, zero, suc, ◌+◌, Bool, true, false, not, ◌&&◌, Option, none, some, List, [], ◌∷◌, ◌++◌, map,
  Text, is_empty, trim, text_eq, keep, find, any, length, ltb, ◌==◌, if◌then◌else◌,
}
use modbus_simulator_go.Base.Digits.{to_decimal}
use modbus_simulator_go.Base.Dict.{entry, put, remove, put_all, contains, add, erase}
use modbus_simulator_go.Naming.{new_rule}
use modbus_simulator_go.Template.{Outcome, normalize_hex_template, hex_to_ascii_template}
use modbus_simulator_go.Tree.{Connection, sort_by, compare_private_connection_nodes}
use modbus_simulator_go.Editor.{Row, value_of, normalize_match_mode, adjust_selected, no_errors}

pub data Mode : Type 0 where
  modbus private_protocol : Mode

-- A rule and a configuration as the server sends them; a missing text is empty, a missing list too.
pub record ServedRule : Type 0 where
  pub name : Text
  pub match_mode : ℕ
  pub request_hex : Text
  pub response_hex : Text

pub record Served : Type 0 where
  pub name : Text
  pub rules : List ServedRule

pub record Config : Type 0 where
  pub conn_id : Text
  pub name : Text
  pub rules : List Row

pub record State : Type 0 where
  pub mode : Mode
  pub private_tree : List Connection
  pub configs : List (Text × Config)
  pub active_conn_id : Text
  pub selected_row_index : Option ℕ
  pub dirty_connections : List Text

-- What is answered during one operation. A request that fails is `none` or `false`.
pub record World : Type 0 where
  pub collate : Text → Text → Ordering
  pub locale_compare : Text → Text → Ordering
  pub tree : Option (List Connection)
  pub get_config : Text → Option Served
  pub save_config : Bool
  pub update_connection : Bool
  pub create_connection : Option Text
  pub delete_connection : Bool
  -- `confirm(message)`
  pub confirmed : Bool

unfoldable pub get_node_by_id : Text → State → Option Connection
get_node_by_id conn_id s = find (λ c. text_eq c.id conn_id) s.private_tree

unfoldable pub get_active_config : State → Option Config
get_active_config s = entry s.active_conn_id s.configs

abbrev pub rules_of : Option Config → List Row
rules_of none = []
rules_of (some config) = config.rules

abbrev pub or_else : Text → Text → Text
or_else [] t = t
or_else (c ∷ s) t = c ∷ s

-- `requestHex ? hexToAsciiTemplate(requestHex, …).value : ''`
abbrev pub ascii_of : Text → Bool → Text
ascii_of hex allow_tokens =
    if is_empty hex then [] else value_of (hex_to_ascii_template hex allow_tokens)

unfoldable pub to_ui_rule : ServedRule → ℕ → Row
to_ui_rule rule index =
    let request_hex = value_of (normalize_hex_template rule.request_hex false true) in
    let response_hex = value_of (normalize_hex_template rule.response_hex true true) in
    record {
      name = trim (or_else rule.name (new_rule ++ to_decimal (index + 1)));
      match_mode = normalize_match_mode rule.match_mode;
      send_ascii = ascii_of request_hex false;
      send_hex = request_hex;
      return_ascii = ascii_of response_hex true;
      return_hex = response_hex;
      errors = no_errors;
      dirty = false;
    }

-- `cfg.rules.map(toUiRule)`, from an index.
unfoldable pub to_ui_rules : List ServedRule → ℕ → List Row
to_ui_rules [] index = []
to_ui_rules (rule ∷ rules) index = to_ui_rule rule index ∷ to_ui_rules rules (index + 1)

unfoldable pub to_ui_config : Connection → Served → Config
to_ui_config node cfg = record {
  conn_id = node.id;
  name = or_else cfg.name node.name;
  rules = to_ui_rules cfg.rules 0;
}

unfoldable pub create_empty_config : Connection → Config
create_empty_config node = record { conn_id = node.id; name = node.name; rules = [] }

-- The `try` on `api.getConfig`.
abbrev pub loaded : Connection → Option Served → Config
loaded node none = create_empty_config node
loaded node (some cfg) = to_ui_config node cfg

abbrev pub first_conn_id : List Connection → Text
first_conn_id [] = []
first_conn_id (node ∷ tree) = node.id

-- `candidateIds.find((id) => state.configs.has(id)) || ''`
unfoldable pub first_known : List Text → List (Text × Config) → Text
first_known [] configs = []
first_known (id ∷ ids) configs = elim (entry id configs) [
  | some config ↦ if is_empty id then first_known ids configs else id
  | none ↦ first_known ids configs
]

-- The private connections, in the order of the tree.
unfoldable pub private_nodes : World → List Connection → List Connection
private_nodes w tree =
    sort_by (compare_private_connection_nodes w.collate w.locale_compare)
      (keep (λ c. c.service_type == 1) tree)

-- `refreshPrivateData`, after `api.tree()` has answered.
unfoldable pub refresh_with : World → List Connection → Text → State → State
refresh_with w tree preferred_conn_id s =
    let nodes = private_nodes w tree in
    let configs = put_all (map (λ node. (node.id, loaded node (w.get_config node.id))) nodes) [] in
    let active =
      first_known (preferred_conn_id ∷ s.active_conn_id ∷ first_conn_id nodes ∷ []) configs in
    record s {
      private_tree = nodes;
      dirty_connections = keep (λ id. any (λ node. text_eq node.id id) nodes) s.dirty_connections;
      configs = configs;
      active_conn_id = active;
      selected_row_index = adjust_selected (rules_of (entry active configs)) s.selected_row_index;
    }

-- A failed request changes nothing; its error is shown by the caller.
unfoldable pub refresh_private_data : World → Text → State → State
refresh_private_data w preferred_conn_id s = elim w.tree [
  | none ↦ s
  | some tree ↦ refresh_with w tree preferred_conn_id s
]

-- The end of `reloadPrivateConfig`.
abbrev pub adjust_active : Text → State → State
adjust_active conn_id s =
    if text_eq s.active_conn_id conn_id
    then record s {
      selected_row_index =
          adjust_selected (rules_of (entry conn_id s.configs)) s.selected_row_index;
    }
    else s

unfoldable pub reload_private_config : World → Text → State → State
reload_private_config w conn_id s = elim (get_node_by_id conn_id s) [
  | none ↦ record s {
    configs = remove conn_id s.configs;
    selected_row_index = if text_eq s.active_conn_id conn_id then none else s.selected_row_index;
  }
  | some node ↦
      adjust_active conn_id
        (record s { configs = put conn_id (loaded node (w.get_config conn_id)) s.configs })
]

unfoldable pub mark_dirty : State → State
mark_dirty s =
    if is_empty s.active_conn_id
    then s
    else record s { dirty_connections = add s.active_conn_id s.dirty_connections }

-- Whether the active connection has an unsaved draft.
unfoldable pub has_draft : State → Bool
has_draft s = not (is_empty s.active_conn_id) && contains s.active_conn_id s.dirty_connections

-- The answer, and the state after it.
unfoldable pub confirm_discard_active_private_draft : World → State → Bool × State
confirm_discard_active_private_draft w s =
    let reloaded = reload_private_config w s.active_conn_id s in
    if has_draft s
    then (if w.confirmed
        then (
          true,
          record reloaded { dirty_connections = erase s.active_conn_id reloaded.dirty_connections },
        )
        else (false, s))
    else (true, s)
