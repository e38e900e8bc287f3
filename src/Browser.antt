-- ===== src/Browser.antt =====
-- The device tree of app.js as it is shown: `renderTree`, `createCategoryGroupNode`,
-- `createEndpointNode`, `updateRegTypeCounts`, `toggleNode`, `toggleNodeAndOpen`,
-- `openFirstRegTypeIfAny`, `setSelectedTreeKey` and the buttons of the footer. The nodes of the
-- document are a list in their order; what a click does is a function of the node's place in it.
-- `get_registers` is what `api.getRegisters` answers, none where it fails.
pub mod Faithful
pub mod Steps
pub mod Buttons
pub mod Footer
pub mod Shown
mod Tests
use Prim.Native.Nat.{Ordering}
use modbus_simulator_go.Base.{
  ℕ, ◌+◌, Bool, true, false, not, ◌&&◌, ◌||◌, ◌≡◌, Option, none, some, List, [], ◌∷◌, ◌++◌, map,
  Text, codes, is_empty, text_eq, length, get_elem?, set, find, any, ltb, ◌==◌, if◌then◌else◌,
}
use modbus_simulator_go.Base.Digits.{to_decimal}
use modbus_simulator_go.Base.Dict.{contains, add, erase, entry, put}
use modbus_simulator_go.Address.{
  Register, RegType, reg_types, count_points, first_reg_type, format_slave_addr,
}
use modbus_simulator_go.Tree.{
  Node, Endpoint, Group, Target, build_tree_key, get_flattened_endpoints, get_grouped_endpoints,
  get_selected_modbus_target,
}
use modbus_simulator_go.Registers.Cells.{Cache}
use modbus_simulator_go.Tabs.{View, open_register_tab}

-- `regTypeLabels`, the English and the Chinese name.
unfoldable pub reg_type_labels : RegType → Text × Text
reg_type_labels rt =
    if rt.fc == 1
    then (codes "Coil", codes "线圈")
    else if rt.fc == 2
    then (codes "Discrete Input", codes "离散输入")
    else if rt.fc == 3
    then (codes "Holding Register", codes "保持寄存器")
    else if rt.fc == 4
    then (codes "Input Register", codes "输入寄存器")
    else ([], rt.title)

-- The texts of the three parts that `formatRegTypeLabel` marks up.
unfoldable pub format_reg_type_label : RegType → Text × Text × Text
unfolding format_slave_addr reg_type_labels
format_reg_type_label rt =
    (format_slave_addr rt.fc, b' ' ∷ (reg_type_labels rt).0, (reg_type_labels rt).1)

-- The node of a register type below a device; a node that is not shown has `display: none`.
pub record TypeNode : Type 0 where
  pub reg_type : RegType
  pub key : Text
  pub label : Text × Text × Text
  pub shown : Bool

pub data Kind : Type 0 where
  -- the category and the number of its devices
  category_node : Text → ℕ → Kind
  endpoint_node : Endpoint → Kind

-- A node of the document: the class of its children, the text and the class of the sign before it,
-- and `dataset.hasChildren`.
pub record Element : Type 0 where
  pub kind : Kind
  pub node_id : Text
  pub sub_label : Text
  pub collapsed : Bool
  pub glyph : Bool
  pub is_expanded : Bool
  pub has_children : Option Bool
  pub type_nodes : List TypeNode

pub record Browser : Type 0 where
  pub device_tree : List Node
  pub register_cache : Cache
  pub expanded_nodes : List Text
  -- null is the empty text
  pub selected_tree_key : Text
  pub elements : List Element
  pub tabs : View

abbrev pub slave_key : Endpoint → Text
slave_key e = build_tree_key (codes "slave") e.connection.id e.slave.id none

abbrev pub type_key : Endpoint → RegType → Text
type_key e rt = build_tree_key (codes "regtype") e.connection.id e.slave.id (some rt.fc)

-- `setExpandState`
abbrev pub set_expand_state : Bool → Element → Element
set_expand_state expanded e = record e { glyph = true; is_expanded = expanded }

-- `createCategoryGroupNode`, less its children.
unfoldable pub create_category_group_node : List Text → Group Endpoint → Element
create_category_group_node expanded group =
    let id = codes "category-" ++ group.category in
    record {
      kind = category_node group.category (length group.items);
      node_id = id;
      sub_label = [];
      collapsed = not (contains id expanded);
      glyph = true;
      is_expanded = contains id expanded;
      has_children = none;
      type_nodes = [];
    }

abbrev pub type_node : Endpoint → RegType → TypeNode
type_node e rt = record {
  reg_type = rt;
  key = type_key e rt;
  label = format_reg_type_label rt;
  shown = true;
}

-- `createEndpointNode`, less the counts; `host` is `getHostLabel()`.
unfoldable pub create_endpoint_node : Text → List Text → Endpoint → Element
create_endpoint_node host expanded e =
    let id = e.connection.id ++ b'-' ∷ e.slave.id in
    record {
      kind = endpoint_node e;
      node_id = id;
      sub_label =
          host
          ++ b':'
            ∷ (to_decimal e.connection.port
                ++ (codes " 从机地址:" ++ format_slave_addr e.slave.slave_addr));
      collapsed = not (contains id expanded);
      glyph = true;
      is_expanded = contains id expanded;
      has_children = none;
      type_nodes = map (type_node e) reg_types;
    }

abbrev pub count_type : List Register → TypeNode → TypeNode
count_type regs t = record t { shown = ltb 0 (count_points t.reg_type.fc regs) }

-- The sign and the children of a node, by whether one of its children is shown.
abbrev pub with_children : Bool → Element → Element
with_children true e = set_expand_state (not e.collapsed) (record e { has_children = some true })
with_children false e = record e {
  has_children = some false;
  glyph = false;
  is_expanded = false;
  collapsed = true;
}

-- The rest of `updateRegTypeCounts`, on the registers of the device.
unfoldable pub update_reg_type_counts : List Register → Element → Element
unfolding count_points
update_reg_type_counts regs e =
    let nodes = map (count_type regs) e.type_nodes in
    with_children (any (λ (t : TypeNode). t.shown) nodes) (record e { type_nodes = nodes })

-- The opening of a node that is closed and the closing of one that is open.
abbrev pub flip_node : List Text → Element → Bool → Element × List Text
flip_node expanded e true =
    (set_expand_state true (record e { collapsed = false }), add e.node_id expanded)
flip_node expanded e false =
    (set_expand_state false (record e { collapsed = true }), erase e.node_id expanded)

abbrev pub toggle_as : List Text → Element → Option Bool → Element × List Text
toggle_as expanded e (some false) = (record e { glyph = false }, expanded)
toggle_as expanded e _ = flip_node expanded e e.collapsed

unfoldable pub toggle_node : List Text → Element → Element × List Text
toggle_node expanded e = toggle_as expanded e e.has_children

-- The registers of a device, from the cache or the server; an answer is kept, a failure is not.
unfoldable pub load_registers : Option (List Register) → Text → Cache → List Register × Cache
load_registers answer slave_id cache = elim (entry slave_id cache) [
  | some regs ↦ (regs, cache)
  | none ↦ elim answer [ none ↦ ([], cache) | some regs ↦ (regs, put slave_id regs cache) ]
]

abbrev pub toggle_at : ℕ → Element → Browser → Browser
toggle_at i e v =
    let (e', expanded) = toggle_node v.expanded_nodes e in
    record v { elements = set v.elements i e'; expanded_nodes = expanded }

abbrev pub open_type : Endpoint → Option RegType → Browser → Browser
open_type e none v = v
open_type e (some rt) v = record v {
  tabs = open_register_tab e.connection.id e.slave.id rt.fc v.tabs;
}

abbrev pub click_shown_type : Option TypeNode → Kind → Browser → Browser
click_shown_type (some t) (endpoint_node endpoint) v =
    if t.shown
    then open_type endpoint (some t.reg_type) (record v { selected_tree_key = t.key })
    else v
click_shown_type _ _ v = v

-- A click on a register type below the node at a place.
unfoldable pub click_type : ℕ → ℕ → Browser → Browser
unfolding open_register_tab
click_type i j v = elim (get_elem? v.elements i) [
  | none ↦ v
  | some e ↦ click_shown_type (get_elem? e.type_nodes j) e.kind v
]

-- `hasSelectedTreeKey`
unfoldable pub has_selected_tree_key : Text → List Endpoint → Bool
has_selected_tree_key key endpoints =
    any (λ e. text_eq (slave_key e) key || any (λ rt. text_eq (type_key e rt) key) reg_types)
      endpoints

module _ (host : Text) (get_registers : Text → Text → Option (List Register)) where
  unfoldable pub endpoint_elements : List Text → List Endpoint → Cache → List Element × Cache
  unfolding create_endpoint_node update_reg_type_counts load_registers
  endpoint_elements expanded [] cache = ([], cache)
  endpoint_elements expanded (e ∷ items) cache =
      let (regs, cache') =
        load_registers (get_registers e.connection.id e.slave.id) e.slave.id cache in
      let (rest, cache'') = endpoint_elements expanded items cache' in
      (update_reg_type_counts regs (create_endpoint_node host expanded e) ∷ rest, cache'')

  unfoldable pub group_elements : List Text → List (Group Endpoint) → Cache → List Element × Cache
  unfolding create_category_group_node endpoint_elements
  group_elements expanded [] cache = ([], cache)
  group_elements expanded (group ∷ groups) cache =
      let (items, cache') = endpoint_elements expanded group.items cache in
      let (rest, cache'') = group_elements expanded groups cache' in
      (create_category_group_node expanded group ∷ (items ++ rest), cache'')

  module _ (collate locale_compare : Text → Text → Ordering) where
    unfoldable pub render_tree : Browser → Browser
    unfolding get_flattened_endpoints get_grouped_endpoints has_selected_tree_key group_elements
    render_tree v =
        let endpoints = get_flattened_endpoints collate locale_compare v.device_tree in
        let (elements, cache) =
          group_elements v.expanded_nodes (get_grouped_endpoints endpoints) v.register_cache in
        record v {
          selected_tree_key =
              if has_selected_tree_key v.selected_tree_key endpoints
              then v.selected_tree_key
              else [];
          elements = elements;
          register_cache = cache;
        }

  unfoldable pub open_first_reg_type_if_any : Endpoint → Browser → Browser
  unfolding load_registers first_reg_type open_register_tab
  open_first_reg_type_if_any e v =
      let (regs, cache) =
        load_registers (get_registers e.connection.id e.slave.id) e.slave.id v.register_cache in
      open_type e (first_reg_type regs) (record v { register_cache = cache })

  -- A click on the node at a place.
  abbrev pub click_node : ℕ → Element → Kind → Browser → Browser
  click_node i e (category_node category count) v =
      toggle_at i e (record v { selected_tree_key = [] })
  click_node i e (endpoint_node endpoint) v =
      open_first_reg_type_if_any endpoint
        (toggle_at i e (record v { selected_tree_key = slave_key endpoint }))

  unfoldable pub click : ℕ → Browser → Browser
  unfolding toggle_node open_first_reg_type_if_any
  click i v = elim (get_elem? v.elements i) [ none ↦ v | some e ↦ click_node i e e.kind v ]

-- `loadTree`, where the server answers.
unfoldable pub load_tree :
    Text
    → (Text → Text → Option (List Register))
    → (Text → Text → Ordering)
    → (Text → Text → Ordering)
    → List Node
    → Browser
    → Browser
unfolding render_tree
load_tree host get_registers collate locale_compare tree v =
    render_tree host get_registers collate locale_compare (record v { device_tree = tree })
