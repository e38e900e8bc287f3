-- ===== src/Tree/Tests.antt =====
-- The theorems on the tree at concrete devices.
use Prim.Native.Nat.{Ordering, compare}
use modbus_simulator_go.Base.{◌≡◌, refl, some, [], ◌∷◌, Text, codes, text_eq, keep, length, arith}
use modbus_simulator_go.Tree.{
  Connection, Slave, Node, get_grouped_endpoints, get_flattened_endpoints, flatten, node_with_id,
  slave_with_id, get_device_category_name,
}
use modbus_simulator_go.Tree.Groups.{in_category, one_group, get_grouped_endpoints_lem}
use modbus_simulator_go.Base.{Bool, ◌==◌}
use modbus_simulator_go.Tree.{Endpoint}
use modbus_simulator_go.Tree.Sort.{
  AllBefore, count_that, count_tree, flip, get_flattened_endpoints_lem,
}

abbrev port_a : Connection
port_a = record { id = codes "c1"; name = codes "a"; port = 1502; service_type = 0 }

abbrev pump : Slave
pump = record { id = codes "s1"; name = codes "pump_1"; slave_addr = 1 }

abbrev fan : Slave
fan = record { id = codes "s2"; name = codes "fan"; slave_addr = 2 }

abbrev one_node : Node
one_node = record { connection = port_a; slaves = pump ∷ fan ∷ [] }

pump_category : get_device_category_name (codes " pump_1") ≡ codes "pump"
unfolding get_device_category_name
pump_category = refl

-- A comparison by length, which changes sign with its arguments.
abbrev by_length : Text → Text → Ordering
by_length a b = compare (length a) (length b)

by_length-flip : (a b : Text) → by_length b a ≡ flip (by_length a b)
by_length-flip a b = ground arith

abbrev is_fan : Endpoint → Bool
is_fan e = e.slave.slave_addr == 2

get_flattened_endpoints_lem_example :
    AllBefore by_length by_length (get_flattened_endpoints by_length by_length (one_node ∷ []))
    × (count_that is_fan (get_flattened_endpoints by_length by_length (one_node ∷ []))
        ≡ count_tree is_fan (one_node ∷ []))
get_flattened_endpoints_lem_example =
    get_flattened_endpoints_lem by_length by_length by_length-flip by_length-flip (one_node ∷ [])
      is_fan

get_grouped_endpoints_lem_example :
    in_category (codes "fan") (get_grouped_endpoints (flatten (one_node ∷ [])))
    ≡ one_group
        (codes "fan")
        (keep (λ e. text_eq e.category (codes "fan")) (flatten (one_node ∷ [])))
get_grouped_endpoints_lem_example =
    get_grouped_endpoints_lem (codes "fan") (flatten (one_node ∷ []))

pump_found : slave_with_id (codes "s1") one_node ≡ some pump
unfolding slave_with_id text_eq
pump_found = refl

node_found : node_with_id (codes "c1") (one_node ∷ []) ≡ some one_node
unfolding node_with_id text_eq
node_found = refl
