-- ===== src/Browser/Buttons.antt =====
-- The buttons below the device tree, `ensureModbusTreeFooter` and `updateModbusTreeActionState`.
use modbus_simulator_go.Base.{Bool, true, false, not, Option, none, some, Text, if◌then◌else◌}
use modbus_simulator_go.Tree.{Target, get_selected_modbus_target}
use modbus_simulator_go.Browser.{Browser}

pub data FooterButton : Type 0 where
  add_button edit_button copy_button delete_button : FooterButton

-- `openAddDeviceModal`, and the functions of a connection and a device.
pub data FooterAct : Type 0 where
  no_act opens_add : FooterAct
  edits copies deletes : Text → Text → FooterAct

abbrev pub act_on : FooterButton → Text → Text → FooterAct
act_on add_button conn_id slave_id = opens_add
act_on edit_button conn_id slave_id = edits conn_id slave_id
act_on copy_button conn_id slave_id = copies conn_id slave_id
act_on delete_button conn_id slave_id = deletes conn_id slave_id

abbrev pub is_some : Option Target → Bool
is_some none = false
is_some (some t) = true

-- `btn.disabled` after `updateModbusTreeActionState`.
unfoldable pub is_disabled : Browser → FooterButton → Bool
unfolding get_selected_modbus_target
is_disabled v add_button = false
is_disabled v _ = not (is_some (get_selected_modbus_target v.device_tree v.selected_tree_key))

abbrev pub act_on_target : FooterButton → Option Target → FooterAct
act_on_target button none = no_act
act_on_target button (some t) = act_on button t.node.connection.id t.slave.id

-- A click on a button of the footer.
unfoldable pub footer_click : Browser → FooterButton → FooterAct
unfolding is_disabled get_selected_modbus_target
footer_click v add_button = opens_add
footer_click v button =
    if is_disabled v button
    then no_act
    else act_on_target button (get_selected_modbus_target v.device_tree v.selected_tree_key)
