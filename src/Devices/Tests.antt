-- ===== src/Devices/Tests.antt =====
-- The forms for devices and registers at concrete inputs.
use modbus_simulator_go.Base.{
  ◌≤◌, ◌<◌, ◌≡◌, refl, inr, true, false, ◌&&◌, none, some, List, [], ◌∷◌, Text, codes, text_eq, any,
  arith, All, every, is_upper_hex, trim, is_space, lower_char,
}
use modbus_simulator_go.Base.Dict.{entry}
use modbus_simulator_go.Base.Digits.{to_base}
use modbus_simulator_go.Address.{Register, get_reg_type}
use modbus_simulator_go.Naming.{max_port, get_next_port}
use modbus_simulator_go.Tree.{Slave, Node, node_with_id, slave_with_id}
use modbus_simulator_go.Tabs.{open_register_tab, empty_state}
use modbus_simulator_go.Tabs.Consistency.{IsConsistent}
use modbus_simulator_go.Devices.{
  puts_slave, Block, Api, Form, load_tree, ports_of, is_duplicate_device_name,
  submit_connection_form,
}
use modbus_simulator_go.Devices.Sound.{IsSound, submit_connection_form-AllSound}
use modbus_simulator_go.Devices.Copy.{slave_in_node, copy_requests, copy_device, copy_device_lem}
use modbus_simulator_go.Devices.Page.{Page, NoTab, is_last, delete_device, delete_device_lem}
use modbus_simulator_go.Devices.Entry.{
  is_whole, Answers, RegisterForm, empty_form, updates, show_edit_register, submit_register_form,
}
use modbus_simulator_go.Devices.Edit.{edit_device, submit_connection_form-edit_device}
use modbus_simulator_go.Devices.Unchanged.{body_of, submit_register_form-show_edit_register}

abbrev pump : Slave
pump = record { id = codes "s"; name = codes "Pump"; slave_addr = 1 }

-- One connection with a device and its copy.
abbrev plant : List Node
plant =
    record {
      connection = record { id = codes "c"; name = codes "c"; port = 1502; service_type = 0 };
      slaves = pump ∷ record { id = codes "t"; name = codes "pump_副本"; slave_addr = 2 } ∷ [];
    }
    ∷ []

abbrev block : Block
block = record {
  start_addr = 40001;
  hex_data = codes "00ff";
  names = [];
  coefficients = [];
  jitter_amp = 0;
}

-- A server that accepts every request.
abbrev accepting : Api
accepting = record {
  create_connection = λ name port. inr (codes "d");
  create_slave = λ conn name addr. inr (codes "u");
  update_slave = λ conn slave name addr. none;
  create_register = λ conn slave b. none;
  get_registers = λ conn slave. some (block ∷ []);
  get_tree = λ sent. none;
}

abbrev filled : Form
filled = record {
  conn_id = [];
  slave_id = [];
  conn_name = codes " Valve ";
  conn_port = codes "1600";
  slave_addr = codes "3";
}

submit_connection_form-AllSound_example :
    All (IsSound plant filled) (submit_connection_form accepting plant filled).sent
submit_connection_form-AllSound_example =
    submit_connection_form-AllSound accepting plant filled (refl, tt)

pump_found : slave_in_node (codes "s") (node_with_id (codes "c") plant) ≡ some pump
unfolding node_with_id slave_with_id text_eq
pump_found = refl

low_port : get_next_port (ports_of plant) ≤ 65535
unfolding get_next_port max_port
low_port = omega arith

copy_device_lem_example :
    (name : Text) × (is_duplicate_device_name plant name none ≡ false)
    × All (λ p. p < get_next_port (ports_of plant)) (ports_of plant)
    × (copy_device accepting plant (codes "c") (codes "s")
        ≡ some (
            load_tree accepting
              (copy_requests pump
                (block ∷ [])
                (codes "d")
                (codes "u")
                name
                (get_next_port (ports_of plant)))
              plant))
copy_device_lem_example =
    copy_device_lem accepting plant (codes "c") (codes "s") (codes "d") (codes "u") pump
      (block ∷ []) pump_found low_port (λ name port. refl) (λ name addr. refl) refl (λ b. refl)

abbrev page : Page
page = record {
  view =
      open_register_tab (codes "c") (codes "s") 3
        (record { open_tabs = []; active_tab = none; panel = empty_state });
  register_cache = (codes "s", []) ∷ [];
  device_tree = plant;
}

page-IsConsistent : IsConsistent page.view
unfolding open_register_tab text_eq to_base
page-IsConsistent = refl

delete_device_lem_example :
    (let after = (delete_device true none none (codes "c") (codes "s") page).0 in
      (entry (codes "s") after.register_cache ≡ none)
      × NoTab (λ t. text_eq t.slave_id (codes "s")) after.view
      × ((is_last (node_with_id (codes "c") page.device_tree)
            && any (λ t. text_eq t.conn_id (codes "c")) after.view.open_tabs)
          ≡ false)
      × IsConsistent after.view)
delete_device_lem_example = delete_device_lem none (codes "c") (codes "s") page page-IsConsistent

abbrev agreed : Answers
agreed = record { confirmed = true; refusal = none; tree = none }

abbrev new_block : RegisterForm
new_block = record empty_form { reg_start_addr = codes "40001"; reg_hex_data = codes " 00ff" }

abbrev word : Register
word = record {
  id = codes "r";
  start_addr = 40001;
  hex_data = codes "00FF";
  names = codes "speed";
  coefficients = [];
  jitter_amp = 7;
}

word-hex : every is_upper_hex word.hex_data ≡ true
unfolding is_upper_hex
word-hex = refl

word-whole : is_whole (get_reg_type word.start_addr) word.hex_data ≡ true
unfolding get_reg_type
word-whole = refl

submit_register_form-show_edit_register_example :
    (submit_register_form agreed page (codes "s") (show_edit_register word)).sent
    ≡ updates (codes "r") (body_of word) ∷ []
submit_register_form-show_edit_register_example =
    submit_register_form-show_edit_register agreed page (codes "s") word refl word-hex refl
      word-whole (omega arith)

abbrev plant_node : Node
plant_node = record {
  connection = record { id = codes "c"; name = codes "c"; port = 1502; service_type = 0 };
  slaves = pump ∷ record { id = codes "t"; name = codes "pump_副本"; slave_addr = 2 } ∷ [];
}

plant_node_found : node_with_id (codes "c") plant ≡ some plant_node
unfolding node_with_id text_eq
plant_node_found = refl

plant_pump_found : slave_with_id (codes "s") plant_node ≡ some pump
unfolding slave_with_id text_eq
plant_pump_found = refl

pump_alone : is_duplicate_device_name plant (codes "Pump") (some (codes "s")) ≡ false
unfolding is_duplicate_device_name text_eq trim lower_char
pump_alone = refl

pump_trimmed : trim (codes "Pump") ≡ codes "Pump"
unfolding trim is_space
pump_trimmed = refl

submit_connection_form-edit_device_example :
    (form : Form) × (edit_device plant (codes "c") (codes "s") ≡ some form)
    × ((submit_connection_form accepting plant form).sent
        ≡ puts_slave (codes "c") (codes "s") (codes "Pump") 1 ∷ [])
submit_connection_form-edit_device_example =
    submit_connection_form-edit_device accepting plant (codes "c") (codes "s") plant_node pump
      plant_node_found plant_pump_found refl (omega arith) (omega arith) (omega arith) (omega arith)
      pump_trimmed refl pump_alone
