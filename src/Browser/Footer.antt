-- ===== src/Browser/Footer.antt =====
-- The buttons below the tree against what is selected in it.
use Prim.Native.Nat.{Ordering}
use modbus_simulator_go.Base.{
  ℕ, ◌≡◌, refl, sym, ap, ◌∙◌, inl, inr, ◌⊎◌, true, false, Bool-cases, Option, none, some, List, [],
  ◌∷◌, Text, codes, is_empty, text_eq, text_eq_iff, get_elem?, any, All,
}
use modbus_simulator_go.Address.{Register, RegType, reg_types, first_reg_type}
use modbus_simulator_go.Tree.{
  Node, Slave, Endpoint, node_with_id, slave_with_id, get_selected_modbus_target,
  get_flattened_endpoints,
}
use modbus_simulator_go.Tree.Keys.{no_bar, get_selected_modbus_target-build_tree_key}
use modbus_simulator_go.Registers.Cells.{Cache}
use modbus_simulator_go.Browser.{
  Element, endpoint_node, Browser, slave_key, type_key, toggle_at, open_type, load_registers,
  open_first_reg_type_if_any, click_node, click, has_selected_tree_key, render_tree,
}
use modbus_simulator_go.Browser.Buttons.{
  FooterButton, add_button, edit_button, copy_button, delete_button, act_on, is_some, is_disabled,
  footer_click,
}

-- A device that the tree has under its ids, which hold no `|`.
pub record IsListed (tree : List Node) (e : Endpoint) : Type 0 where
  pub node : Node
  pub slave : Slave
  pub conn_plain : no_bar e.connection.id ≡ true
  pub slave_plain : no_bar e.slave.id ≡ true
  pub conn_full : is_empty e.connection.id ≡ false
  pub slave_full : is_empty e.slave.id ≡ false
  pub node_found : node_with_id e.connection.id tree ≡ some node
  pub slave_found : slave_with_id e.slave.id node ≡ some slave
  pub node_id : node.connection.id ≡ e.connection.id
  pub slave_id : slave.id ≡ e.slave.id

target_of_slave :
    (tree : List Node) (e : Endpoint) (h : IsListed tree e)
    → get_selected_modbus_target tree (slave_key e)
      ≡ some (record { type = codes "slave"; node = h.node; slave = h.slave })
target_of_slave tree e h =
    get_selected_modbus_target-build_tree_key tree (codes "slave") e.connection.id e.slave.id none
      h.node h.slave (inl refl) h.conn_plain h.slave_plain h.conn_full h.slave_full h.node_found
      h.slave_found

target_of_type :
    (tree : List Node) (e : Endpoint) (rt : RegType) (h : IsListed tree e)
    → get_selected_modbus_target tree (type_key e rt)
      ≡ some (record { type = codes "regtype"; node = h.node; slave = h.slave })
target_of_type tree e rt h =
    get_selected_modbus_target-build_tree_key tree (codes "regtype") e.connection.id e.slave.id
      (some rt.fc) h.node h.slave (inr refl) h.conn_plain h.slave_plain h.conn_full h.slave_full
      h.node_found h.slave_found

open_type-selected :
    (e : Endpoint) (o : Option RegType) (v : Browser)
    → ((open_type e o v).selected_tree_key ≡ v.selected_tree_key)
      × ((open_type e o v).device_tree ≡ v.device_tree)
open_type-selected e none v = (refl, refl)
open_type-selected e (some rt) v = (refl, refl)

module _ (v : Browser) (e : Endpoint) (h : IsListed v.device_tree e)
    (selected : v.selected_tree_key ≡ slave_key e) where
  footer_click-selected :
      (b : FooterButton)
      → (footer_click v b ≡ act_on b e.connection.id e.slave.id) × (is_disabled v b ≡ false)
  unfolding footer_click is_disabled
  footer_click-selected add_button = (refl, refl)
  footer_click-selected edit_button =
      rw (selected, target_of_slave v.device_tree e h, h.node_id, h.slave_id) (refl, refl)
  footer_click-selected copy_button =
      rw (selected, target_of_slave v.device_tree e h, h.node_id, h.slave_id) (refl, refl)
  footer_click-selected delete_button =
      rw (selected, target_of_slave v.device_tree e h, h.node_id, h.slave_id) (refl, refl)

-- After a click on a device, every button below the tree can be pressed, and the buttons to edit, to
-- copy and to delete are about that device, where the tree has it under its ids.
pub footer_click-click :
    (host : Text) (get_registers : Text → Text → Option (List Register)) (i : ℕ) (v : Browser)
    (el : Element) (e : Endpoint) (b : FooterButton)
    → get_elem? v.elements i ≡ some el
    → el.kind ≡ endpoint_node e
    → IsListed v.device_tree e
    → (footer_click (click host get_registers i v) b ≡ act_on b e.connection.id e.slave.id)
      × (is_disabled (click host get_registers i v) b ≡ false)
unfolding click open_first_reg_type_if_any
footer_click-click host get_registers i v el e b at kind h =
    let toggled : Browser = toggle_at i el (record v { selected_tree_key = slave_key e }) in
    let loaded : List Register × Cache =
      load_registers (get_registers e.connection.id e.slave.id) e.slave.id toggled.register_cache in
    let v' : Browser =
      open_type e (first_reg_type loaded.0) (record toggled { register_cache = loaded.1 }) in
    let kept =
      open_type-selected e (first_reg_type loaded.0)
        (record toggled { register_cache = loaded.1 }) in
    let h' : IsListed v'.device_tree e = rw kept.1 h in
    let clicked : click host get_registers i v
        ≡ click_node host get_registers i el (endpoint_node e) v =
      rw (click, at) (ap (λ k. click_node host get_registers i el k v) kind) in
    rw clicked (footer_click-selected v' e h' kept.0 b)

type_matches :
    (e : Endpoint) (key : Text) (types : List RegType)
    → any (λ rt. text_eq (type_key e rt) key) types ≡ true
    → (rt : RegType) × (type_key e rt ≡ key)
type_matches e key [] m = cc
type_matches e key (rt ∷ types) m = elim (Bool-cases (text_eq (type_key e rt) key)) [
  | inl this ↦ (rt, (text_eq_iff (type_key e rt) key).0 this)
  | inr other ↦ type_matches e key types (sym (rw other refl) ∙ m)
]

-- The key of a device, or of a register type of one, is found again.
key_matches :
    (tree : List Node) (key : Text) (endpoints : List Endpoint)
    → All (IsListed tree) endpoints
    → has_selected_tree_key key endpoints ≡ true
    → is_some (get_selected_modbus_target tree key) ≡ true
unfolding has_selected_tree_key
key_matches tree key [] h m = cc
key_matches tree key (e ∷ endpoints) (h, hs) m = elim (Bool-cases (text_eq (slave_key e) key)) [
  | inl this ↦ rw (sym ((text_eq_iff (slave_key e) key).0 this), target_of_slave tree e h) refl
  | inr other ↦ elim (Bool-cases (any (λ rt. text_eq (type_key e rt) key) reg_types)) [
    | inl type ↦
        let (rt, same) = type_matches e key reg_types type in
        rw (sym same, target_of_type tree e rt h) refl
    | inr none_of ↦ key_matches tree key endpoints hs (sym (rw (other, none_of) refl) ∙ m)
  ]
]

-- Where the tree has the devices that it shows under their ids: after the tree is drawn, either
-- nothing is selected, or what is selected is a device of the tree, so that no button below the tree
-- is about a device that is gone.
pub render_tree-selected :
    (host : Text) (get_registers : Text → Text → Option (List Register))
    (collate locale_compare : Text → Text → Ordering) (v : Browser)
    → All (IsListed v.device_tree) (get_flattened_endpoints collate locale_compare v.device_tree)
    → let v' : Browser = render_tree host get_registers collate locale_compare v in
      (v'.selected_tree_key ≡ [])
      ⊎ (is_some (get_selected_modbus_target v'.device_tree v'.selected_tree_key) ≡ true)
unfolding render_tree
render_tree-selected host get_registers collate locale_compare v h =
    let endpoints : List Endpoint = get_flattened_endpoints collate locale_compare v.device_tree in
    elim (Bool-cases (has_selected_tree_key v.selected_tree_key endpoints)) [
      | inl there ↦ rw there (inr (key_matches v.device_tree v.selected_tree_key endpoints h there))
      | inr gone ↦ rw gone (inl refl)
    ]
