-- ===== src/Browser/Tests.antt =====
-- The theorems on the tree at concrete trees.
use Prim.Native.Nat.{Ordering, compare}
use modbus_simulator_go.Base.{
  ◌≡◌, refl, ◌⊎◌, true, false, Option, none, some, List, [], ◌∷◌, Text, codes, text_eq, length,
  find, All,
}
use modbus_simulator_go.Base.Dict.{entry}
use modbus_simulator_go.Address.{get_reg_type, points, Register, first_reg_type}
use modbus_simulator_go.Tree.{
  group_from, sort_by, flatten, endpoints_of, Connection, Slave, Node, Endpoint, node_with_id,
  slave_with_id, get_selected_modbus_target, get_flattened_endpoints, get_device_category_name,
}
use modbus_simulator_go.Tabs.{empty_state}
use modbus_simulator_go.Browser.{
  Browser, TypeNode, create_endpoint_node, update_reg_type_counts, load_tree, render_tree, click,
  endpoint_node,
}
use modbus_simulator_go.Browser.Buttons.{delete_button, deletes, footer_click, is_disabled, is_some}
use modbus_simulator_go.Browser.Faithful.{IsFaithful, AreDistinct}
use modbus_simulator_go.Browser.Steps.{loads, clicks, here, next, Reach-AllFaithful}
use modbus_simulator_go.Browser.Footer.{IsListed, footer_click-click, render_tree-selected}
use modbus_simulator_go.Browser.Shown.{type_of, is_found, first_reg_type-update_reg_type_counts}

abbrev port_a : Connection
port_a = record { id = codes "c"; name = codes "a"; port = 1502; service_type = 0 }

abbrev pump : Slave
pump = record { id = codes "s"; name = codes "pump_1"; slave_addr = 1 }

abbrev plant : Node
plant = record { connection = port_a; slaves = pump ∷ [] }

abbrev endpoint : Endpoint
endpoint = record { connection = port_a; slave = pump; category = codes "pump" }

abbrev block : Register
block = record {
  id = codes "r";
  start_addr = 40001;
  hex_data = codes "0001";
  names = [];
  coefficients = [];
  jitter_amp = 0;
}

abbrev by_length : Text → Text → Ordering
by_length a b = compare (length a) (length b)

abbrev answers : Text → Text → Option (List Register)
answers conn slave = some (block ∷ [])

abbrev host : Text
host = codes "localhost"

abbrev start : Browser
start = record {
  device_tree = [];
  register_cache = [];
  expanded_nodes = [];
  selected_tree_key = codes "slave|c|gone|";
  elements = [];
  tabs = record { open_tabs = []; active_tab = none; panel = empty_state };
}

abbrev loaded : Browser
loaded = load_tree host answers by_length by_length (plant ∷ []) start

loaded-AreDistinct : AreDistinct loaded.elements
unfolding load_tree text_eq get_device_category_name group_from sort_by flatten endpoints_of entry
    get_reg_type points
loaded-AreDistinct = ((refl, tt), (tt, tt))

-- The category is opened, and its device.
Reach-AllFaithful_example :
    All
      (IsFaithful (click host answers 1 (click host answers 0 loaded)).expanded_nodes)
      (click host answers 1 (click host answers 0 loaded)).elements
Reach-AllFaithful_example = Reach-AllFaithful host answers by_length by_length refl (
    next (next (next here (loads (plant ∷ []) start loaded-AreDistinct)) (clicks 0 loaded))
      (clicks 1 (click host answers 0 loaded)))

endpoint-IsListed : IsListed (plant ∷ []) endpoint
unfolding node_with_id slave_with_id text_eq
endpoint-IsListed = record {
  node = plant;
  slave = pump;
  conn_plain = refl;
  slave_plain = refl;
  conn_full = refl;
  slave_full = refl;
  node_found = refl;
  slave_found = refl;
  node_id = refl;
  slave_id = refl;
}

abbrev drawn : Browser
drawn = record start {
  device_tree = plant ∷ [];
  elements = update_reg_type_counts (block ∷ []) (create_endpoint_node host [] endpoint) ∷ [];
}

drawn-endpoint :
    (update_reg_type_counts (block ∷ []) (create_endpoint_node host [] endpoint)).kind
    ≡ endpoint_node endpoint
unfolding update_reg_type_counts create_endpoint_node get_reg_type points
drawn-endpoint = refl

footer_click-click_example :
    (footer_click (click host answers 0 drawn) delete_button ≡ deletes (codes "c") (codes "s"))
    × (is_disabled (click host answers 0 drawn) delete_button ≡ false)
footer_click-click_example =
    footer_click-click host answers 0 drawn
      (update_reg_type_counts (block ∷ []) (create_endpoint_node host [] endpoint)) endpoint
      delete_button refl drawn-endpoint endpoint-IsListed

drawn-AllListed :
    All (IsListed (plant ∷ [])) (get_flattened_endpoints by_length by_length (plant ∷ []))
unfolding get_flattened_endpoints get_device_category_name sort_by flatten endpoints_of
drawn-AllListed = (endpoint-IsListed, tt)

render_tree-selected_example :
    ((render_tree host answers by_length by_length drawn).selected_tree_key ≡ [])
    ⊎ (is_some (
          get_selected_modbus_target
            (render_tree host answers by_length by_length drawn).device_tree
            (render_tree host answers by_length by_length drawn).selected_tree_key)
        ≡ true)
render_tree-selected_example =
    render_tree-selected host answers by_length by_length drawn drawn-AllListed

first_reg_type-update_reg_type_counts_example :
    (type_of (
        find
          (λ (t : TypeNode). t.shown)
          (update_reg_type_counts (block ∷ []) (create_endpoint_node host [] endpoint)).type_nodes)
      ≡ first_reg_type (block ∷ []))
    × ((update_reg_type_counts (block ∷ []) (create_endpoint_node host [] endpoint)).has_children
        ≡ some (is_found (first_reg_type (block ∷ []))))
first_reg_type-update_reg_type_counts_example =
    first_reg_type-update_reg_type_counts host [] endpoint (block ∷ [])
