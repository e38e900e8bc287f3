-- ===== src/PrivateView.antt =====
-- What private_protocol.js shows: the texts it escapes (`escapeHtml`, `escapeAttr`), the categories of
-- its tree (`groupPrivateConnections`, `renderPrivateTree`, `onTreeClick`) and the rows of its table
-- (`renderRuleRow`, `updateRowDom`, `buildInputClass`), with the buttons of
-- `updatePrivateActionState`. The classes of a node are a list of words.
pub mod Categories
pub mod Rows
pub mod Escape
mod Tests
use modbus_simulator_go.Base.{
  ℕ, zero, suc, ◌+◌, Bool, true, false, not, ◌&&◌, ◌||◌, Option, none, some, List, [], ◌∷◌, ◌++◌,
  map, Text, codes, is_empty, text_eq, length, ltb, ◌==◌, if◌then◌else◌,
}
use modbus_simulator_go.Base.Digits.{to_decimal}
use modbus_simulator_go.Base.Dict.{contains, add, erase}
use modbus_simulator_go.Template.{format_hex_template_for_display}
use modbus_simulator_go.Tree.{Connection, Group, group_private_connections}
use modbus_simulator_go.Editor.{
  MatchMode, exact, contains as contains_mode, Fault, Errors, Row, Field, name_field,
  send_ascii_field, send_hex_field, return_ascii_field, return_hex_field,
}
use modbus_simulator_go.Drafts.{State, Config, get_active_config, rules_of}

-- `replace(/[&<>"']/g, …)` on one character.
unfoldable pub escape_char : ℕ → Text
escape_char c =
    if c == 38
    then codes "&amp;"
    else if c == 60
    then codes "&lt;"
    else if c == 62
    then codes "&gt;"
    else if c == 34
    then codes "&quot;"
    else if c == 39
    then codes "&#39;"
    else c ∷ []

unfoldable pub escape_html : Text → Text
unfolding escape_char
escape_html [] = []
escape_html (c ∷ s) = escape_char c ++ escape_html s

-- `replace(/`/g, '&#96;')`
abbrev pub escape_ticks : Text → Text
escape_ticks [] = []
escape_ticks (c ∷ s) = if c == 96 then codes "&#96;" ++ escape_ticks s else c ∷ escape_ticks s

abbrev pub escape_attr : Text → Text
escape_attr s = escape_ticks (escape_html s)

-- The two sets of categories.
pub record Sets : Type 0 where
  pub known_categories : List Text
  pub expanded_categories : List Text

-- The last loop of `groupPrivateConnections`.
unfoldable pub note_groups : List (Group Connection) → Sets → Sets
note_groups [] v = v
note_groups (group ∷ groups) v = note_groups groups (
    if contains group.category v.known_categories then v else record {
      known_categories = add group.category v.known_categories;
      expanded_categories = add group.category v.expanded_categories;
    })

-- A node of the tree for a connection: its name, its mark, its label and its status.
pub record ConnectionNode : Type 0 where
  pub conn_id : Text
  pub is_selected : Bool
  pub main_label : Text
  pub sub_label : Text
  pub status_class : Text
  pub status_text : Text

pub record CategoryNode : Type 0 where
  pub category : Text
  pub is_expanded : Bool
  pub count : ℕ
  pub children : List ConnectionNode

-- `config.rules.length` of the connection's configuration, or of an empty one.
abbrev pub is_configured : Option Config → Bool
is_configured config = ltb 0 (length (rules_of config))

-- `renderPrivateConnectionNode`
unfoldable pub render_private_connection_node :
    Text → (Text → Option Config) → State → Connection → ConnectionNode
render_private_connection_node host config_of s conn =
    let dirty = contains conn.id s.dirty_connections in
    let configured = is_configured (config_of conn.id) in
    record {
      conn_id = conn.id;
      is_selected = text_eq conn.id s.active_conn_id;
      main_label =
          (if is_empty conn.name then codes "未命名连接" else conn.name)
          ++ (if dirty then codes " *" else []);
      sub_label = host ++ b':' ∷ to_decimal conn.port;
      status_class = if dirty then codes "dirty" else if configured then [] else codes "empty";
      status_text = if dirty then codes "未保存" else if configured then [] else codes "未配置";
    }

-- `renderPrivateTree` in private mode: the nodes, and the sets afterwards.
unfoldable pub render_private_tree :
    Text → (Text → Option Config) → State → Sets → List CategoryNode × Sets
unfolding note_groups group_private_connections render_private_connection_node
render_private_tree host config_of s v =
    let groups = group_private_connections s.private_tree in
    let v' = note_groups groups v in
    (
      map
          (λ group. record {
            category = group.category;
            is_expanded = contains group.category v'.expanded_categories;
            count = length group.items;
            children = map (render_private_connection_node host config_of s) group.items;
          })
          groups,
      v',
    )

-- `onTreeClick` on a category, before the tree is drawn again.
unfoldable pub toggle_category : Text → Sets → Sets
toggle_category category v = record v {
  expanded_categories =
      if contains category v.expanded_categories
      then erase category v.expanded_categories
      else add category v.expanded_categories;
}

-- What `title` shows: an error, or a text.
pub data Title : Type 0 where
  error_title : Fault → Title
  text_title : Text → Title

-- `error || text || ''`
abbrev pub title_of : Option Fault → Text → Title
title_of none text = text_title text
title_of (some fault) text = error_title fault

abbrev pub fault_class : Option Fault → List Text
fault_class none = []
fault_class (some fault) = codes "has-error" ∷ []

unfoldable pub build_input_class : Row → Option Fault → List Text
build_input_class row error = (if row.dirty then codes "is-dirty" ∷ [] else []) ++ fault_class error

-- A field of a row as it is shown.
pub record Input : Type 0 where
  pub value : Text
  pub classes : List Text
  pub title : Title

-- A row of the table: its fields, its two buttons and whether it is selected.
pub record RowNode : Type 0 where
  pub name : Input
  pub send_ascii : Input
  pub send_hex : Input
  pub return_ascii : Input
  pub return_hex : Input
  pub exact_active : Bool
  pub contains_active : Bool
  pub is_selected : Bool

abbrev pub is_exact : MatchMode → Bool
is_exact exact = true
is_exact contains_mode = false

abbrev pub is_row : Option ℕ → ℕ → Bool
is_row none index = false
is_row (some i) index = i == index

-- An editor of the row: its text, its classes, and its error or its text as the title.
abbrev pub editor_input : Row → Option Fault → Text → Input
editor_input row error shown = record {
  value = shown;
  classes = codes "private-io-input" ∷ build_input_class row error;
  title = title_of error shown;
}

unfoldable pub render_rule_row : Option ℕ → Row → ℕ → RowNode
unfolding build_input_class format_hex_template_for_display
render_rule_row selected row index = record {
  name = record {
    value = row.name;
    classes = build_input_class row row.errors.name;
    title = title_of row.errors.name [];
  };
  send_ascii = editor_input row row.errors.send_ascii row.send_ascii;
  send_hex =
      editor_input row row.errors.send_hex (format_hex_template_for_display row.send_hex false);
  return_ascii = editor_input row row.errors.return_ascii row.return_ascii;
  return_hex =
      editor_input row row.errors.return_hex (format_hex_template_for_display row.return_hex true);
  exact_active = is_exact row.match_mode;
  contains_active = not (is_exact row.match_mode);
  is_selected = is_row selected index;
}

abbrev pub input_of : RowNode → Field → Input
input_of node name_field = node.name
input_of node send_ascii_field = node.send_ascii
input_of node send_hex_field = node.send_hex
input_of node return_ascii_field = node.return_ascii
input_of node return_hex_field = node.return_hex

abbrev pub error_of : Errors → Field → Option Fault
error_of errors name_field = errors.name
error_of errors send_ascii_field = errors.send_ascii
error_of errors send_hex_field = errors.send_hex
error_of errors return_ascii_field = errors.return_ascii
error_of errors return_hex_field = errors.return_hex

abbrev pub value_for : Row → Field → Text
value_for row name_field = row.name
value_for row send_ascii_field = row.send_ascii
value_for row send_hex_field = format_hex_template_for_display row.send_hex false
value_for row return_ascii_field = row.return_ascii
value_for row return_hex_field = format_hex_template_for_display row.return_hex true

abbrev pub base_classes : Field → List Text
base_classes name_field = []
base_classes field = codes "private-io-input" ∷ []

-- The body of the loop of `updateRowDom`.
unfoldable pub update_input : Row → Field → Input
unfolding build_input_class format_hex_template_for_display
update_input row field = record {
  value = value_for row field;
  classes = base_classes field ++ build_input_class row (error_of row.errors field);
  title = title_of (error_of row.errors field) (value_for row field);
}

unfoldable pub update_row_dom : Option ℕ → Row → ℕ → RowNode → RowNode
unfolding update_input
update_row_dom selected row index node = record node {
  name = update_input row name_field;
  send_ascii = update_input row send_ascii_field;
  send_hex = update_input row send_hex_field;
  return_ascii = update_input row return_ascii_field;
  return_hex = update_input row return_hex_field;
  exact_active = is_exact row.match_mode;
  contains_active = not (is_exact row.match_mode);
  is_selected = is_row selected index;
}

-- The rows of `renderPrivateTable`, from an index on.
unfoldable pub render_rows : Option ℕ → ℕ → List Row → List RowNode
unfolding render_rule_row
render_rows selected index [] = []
render_rows selected index (row ∷ rows) =
    render_rule_row selected row index ∷ render_rows selected (index + 1) rows

-- `applySelectedRowState` on the rows from an index on.
unfoldable pub apply_selected_row_state : Option ℕ → ℕ → List RowNode → List RowNode
apply_selected_row_state selected index [] = []
apply_selected_row_state selected index (node ∷ nodes) =
    record node { is_selected = is_row selected index }
    ∷ apply_selected_row_state selected (index + 1) nodes

-- The change of the row that `querySelector` finds, none where it finds none.
abbrev pub change_at : ℕ → (RowNode → RowNode) → List RowNode → List RowNode
change_at i change [] = []
change_at zero change (node ∷ nodes) = change node ∷ nodes
change_at (suc i) change (node ∷ nodes) = node ∷ change_at i change nodes

-- `updateRowDom` on the table.
unfoldable pub update_table : Option ℕ → ℕ → Row → List RowNode → List RowNode
unfolding update_row_dom apply_selected_row_state
update_table selected i row nodes =
    apply_selected_row_state selected 0 (change_at i (update_row_dom selected row i) nodes)

-- The buttons of the private view.
pub data PrivateButton : Type 0 where
  save_button import_button add_row_button delete_row_button add_connection_button : PrivateButton
  settings_button delete_button : PrivateButton

abbrev pub has_config : Option Config → Bool
has_config none = false
has_config (some config) = true

abbrev pub has_row : Option ℕ → List Row → Bool
has_row none rules = false
has_row (some i) rules = ltb i (length rules)

-- `btn.disabled` after `updatePrivateActionState`.
unfoldable pub is_private_disabled : State → PrivateButton → Bool
unfolding get_active_config
is_private_disabled s delete_row_button = not (
    has_config (get_active_config s)
    && has_row s.selected_row_index (rules_of (get_active_config s)))
is_private_disabled s add_connection_button = false
is_private_disabled s button = not (has_config (get_active_config s))
