-- ===== src/Dialog.antt =====
-- The import dialog of app.js: its elements as a record, `getImportMode`, `isImportConnLocked`,
-- `getLockedImportConnId`, `getPrivateImportConnId`, `getCurrentImportMode`, `openImportModal`,
-- `configureImportModal`, `toggleImportNewConnFields` and `populateImportConnections`, and the clicks
-- on the footer of a register table.
pub mod Texts
pub mod Submit
pub mod Opened
pub mod Choices
pub mod Sound
pub mod Kept
pub mod Requests
mod Tests
use Prim.Native.Nat.{compare, Ordering}
use modbus_simulator_go.Base.{
  ℕ, ◌+◌, Bool, true, false, not, ◌&&◌, ◌||◌, Option, none, some, List, [], ◌∷◌, ◌++◌, map, Text,
  codes, is_empty, trim, text_eq, keep, ◌==◌, if◌then◌else◌,
}
use modbus_simulator_go.Base.Digits.{to_decimal}
use modbus_simulator_go.Tree.{Connection, Slave, Node, then_by, sort_by, compare_tree_display_names}
use modbus_simulator_go.Drafts.{Mode, modbus, private_protocol, State, get_node_by_id}
use modbus_simulator_go.Dialog.Texts.{Summary, no_summary}

-- `IMPORT_NEW_CONN_VALUE`
abbrev pub new_conn : Text
new_conn = codes "__new__"

-- An entry of the list of connections: its value and its text.
pub record Choice : Type 0 where
  pub value : Text
  pub label : Text

-- What depends on the mode alone.
pub record Titles : Type 0 where
  pub title : Text
  pub submit : Text
  pub conn_label : Text
  pub frames_label : Text
  pub frames_hint : Text
  pub placeholder : Text

unfoldable pub titles_of : Mode → Titles
titles_of modbus = record {
  title = codes "编辑";
  submit = codes "保存";
  conn_label =
      codes "设备<span class=\"required\">*</span> <span class=\"label-hint\">(可下拉选择已有设备)</span>";
  frames_label = codes "从报文导入数据 <span class=\"label-hint\">(新增或更新寄存器数据)</span>";
  frames_hint =
      codes
        "打开设备调试窗口，点击 <strong>获取数据</strong>/<strong>获取状态</strong>/<strong>获取报警</strong>/<strong>获取时间</strong> 将全部报文复制到这里：";
  placeholder =
      codes
        "【发送】【12:12:21】【烟气分析仪】：<01 04 00 14 00 01 71 CE>\n【接收】【12:12:22】【烟气分析仪】：<01 04 02 00 01 78 F0>";
}
titles_of private_protocol = record {
  title = codes "导入私有协议报文";
  submit = codes "导入";
  conn_label =
      codes "连接<span class=\"required\">*</span> <span class=\"label-hint\">(可下拉选择已有私有协议连接)</span>";
  frames_label = codes "从报文导入数据 <span class=\"label-hint\">(新增或更新私有协议规则)</span>";
  frames_hint =
      codes
        "报文将直接导入到当前连接。粘贴调试窗口中的 <strong>发送/接收</strong> 报文，系统会自动配对，并尽量识别导入内容是 <strong>ASCII</strong> 还是 <strong>Hex</strong>。";
  placeholder =
      codes
        "【发送】【22:58:39】【高压电离室】：<0D>\n【接收】【22:58:40】【高压电离室】：<2E 30 30 30 30 20 20 20 2E 30 30 30 30 20 0D 0A>";
}

-- `dataset` of the dialog, the values of its fields, and what is shown or required.
pub record Modal : Type 0 where
  pub titles : Titles
  pub import_mode : Mode
  pub import_conn_id : Text
  pub import_conn_locked : Bool
  pub choices : List Choice
  pub chosen : Text
  pub conn_name : Text
  pub conn_port : Text
  pub frames : Text
  pub summary : Summary
  pub conn_shown : Bool
  pub conn_required : Bool
  pub new_shown : Bool
  pub name_required : Bool
  pub shown : Bool

-- The page as it is loaded.
unfoldable pub closed_modal : Modal
closed_modal = record {
  titles = titles_of modbus;
  import_mode = modbus;
  import_conn_id = [];
  import_conn_locked = false;
  choices = [];
  chosen = [];
  conn_name = [];
  conn_port = [];
  frames = [];
  summary = no_summary;
  conn_shown = true;
  conn_required = true;
  new_shown = false;
  name_required = false;
  shown = false;
}

abbrev pub is_private : Mode → Bool
is_private modbus = false
is_private private_protocol = true

-- The mode of the private view, where its script is loaded, and the one that is stored.
unfoldable pub get_current_import_mode : Option Mode → Mode → Mode
get_current_import_mode (some private_protocol) stored = private_protocol
get_current_import_mode view stored = stored

unfoldable pub get_locked_import_conn_id : Modal → Text
get_locked_import_conn_id m = if m.import_conn_locked then m.import_conn_id else []

-- `privateProtocolUI.getActiveConnection()`, its id.
unfoldable pub get_active_connection : State → Text
get_active_connection s = elim (get_node_by_id s.active_conn_id s) [
  | none ↦ []
  | some node ↦ node.id
]

unfoldable pub toggle_import_new_conn_fields : Modal → Modal
toggle_import_new_conn_fields m =
    let is_new = text_eq m.chosen new_conn in
    record m { new_shown = is_new; name_required = is_new }

-- The name that an entry shows.
unfoldable pub display_name : Node → Text
display_name node = elim node.slaves [
  | [] ↦
      if is_empty node.connection.name
      then codes "端口" ++ to_decimal node.connection.port
      else node.connection.name
  | s ∷ slaves ↦ elim slaves [ [] ↦ s.name | t ∷ more ↦ s.name ++ codes " 等" ]
]

unfoldable pub service_type_of : Mode → ℕ
service_type_of modbus = 0
service_type_of private_protocol = 1

abbrev pub choice_of : Node → Choice
choice_of node = record {
  value = node.connection.id;
  label = b'(' ∷ (to_decimal node.connection.port ++ (codes ") " ++ display_name node));
}

abbrev pub new_choice : Mode → Choice
new_choice modbus = record { value = new_conn; label = codes "----新增----" }
new_choice private_protocol = record { value = new_conn; label = codes "----新增私有协议连接----" }

-- The comparisons of `Intl.Collator` and `localeCompare` are parameters.
module _ (collate locale_compare : Text → Text → Ordering) where
  unfoldable pub compare_choices : Node → Node → Ordering
  compare_choices a b =
      then_by (compare_tree_display_names collate locale_compare (display_name a) (display_name b))
        (compare a.connection.port b.connection.port)

  -- The connections in the order of the list.
  unfoldable pub listed : Mode → List Node → List Node
  listed mode tree =
      sort_by compare_choices (keep (λ n. n.connection.service_type == service_type_of mode) tree)

  unfoldable pub populate_import_connections : Mode → List Node → Modal → Modal
  unfolding toggle_import_new_conn_fields
  populate_import_connections mode tree m =
      toggle_import_new_conn_fields (record m {
        choices = new_choice mode ∷ map choice_of (listed mode tree);
        chosen = new_conn;
      })

-- What the mode decides of the fields that are shown.
unfoldable pub configure_import_modal : Mode → Modal → Modal
unfolding toggle_import_new_conn_fields titles_of
configure_import_modal mode m =
    let fixed = is_private mode || m.import_conn_locked in
    let m' = record m {
      titles = titles_of mode;
      conn_shown = not fixed;
      conn_required = not fixed;
    } in
    if fixed
    then record m' { new_shown = false; name_required = false }
    else toggle_import_new_conn_fields m'

pub data Opening : Type 0 where
  opened : Modal → Opening
  -- the message that is shown
  alerted : Text → Opening

abbrev pub no_target : Mode → Text
no_target modbus = codes "请先选择一个设备"
no_target private_protocol = codes "请先选择一个私有协议连接"

-- `options.connId` and `options.lockConn`
pub record OpenOptions : Type 0 where
  pub conn_id : Text
  pub lock_conn : Bool

module _ (collate locale_compare : Text → Text → Ordering) where
  -- The rest of `openImportModal`, on the connection that is locked, if one is.
  unfoldable pub show_dialog : List Node → Mode → Bool → Text → Modal → Modal
  unfolding configure_import_modal populate_import_connections
  show_dialog tree mode lock_conn conn_id m =
      let m' = configure_import_modal mode (record m {
        import_mode = mode;
        import_conn_id = if lock_conn then conn_id else [];
        import_conn_locked = lock_conn;
      }) in
      let m'' =
        if not (is_private mode) && not lock_conn
        then populate_import_connections collate locale_compare mode tree m'
        else m' in
      record m'' { frames = []; conn_name = []; conn_port = []; summary = no_summary; shown = true }

  -- `private_target` is the id of the active private connection, or empty.
  unfoldable pub open_import_modal : List Node → Text → Mode → OpenOptions → Modal → Opening
  unfolding show_dialog
  open_import_modal tree private_target mode options m =
      let lock_conn = is_private mode || options.lock_conn in
      let conn_id = if is_private mode then private_target else trim options.conn_id in
      if lock_conn && is_empty conn_id
      then alerted (no_target mode)
      else opened (show_dialog tree mode lock_conn conn_id m)

-- The buttons below a register table, and what a click on one does.
pub data TableButton : Type 0 where
  add_register : (conn_id slave_id : Text) → TableButton
  import_button : (conn_id : Text) → TableButton

pub data Clicked : Type 0 where
  nothing_clicked : Clicked
  -- `showAddRegister`
  shows_add : Text → Text → Clicked
  opens : Opening → Clicked

module _ (collate locale_compare : Text → Text → Ordering) where
  unfoldable pub on_table_click : List Node → TableButton → Modal → Clicked
  unfolding open_import_modal
  on_table_click tree (add_register conn_id slave_id) m =
      if is_empty conn_id || is_empty slave_id then nothing_clicked else shows_add conn_id slave_id
  on_table_click tree (import_button conn_id) m =
      if is_empty conn_id
      then nothing_clicked
      else opens (
          open_import_modal collate locale_compare tree [] modbus
            (record { conn_id = conn_id; lock_conn = true }) m)
