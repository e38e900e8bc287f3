-- ===== src/Tabs/Tests.antt =====
-- The theorems on tabs at concrete inputs.
use modbus_simulator_go.Base.{refl, none, [], codes}
use modbus_simulator_go.Tabs.{
  View, empty_state, open_register_tab, close_tab, opens, closes, Reach, here, next,
}
use modbus_simulator_go.Tabs.Consistency.{IsConsistent, Reach-IsConsistent}

abbrev start : View
start = record { open_tabs = []; active_tab = none; panel = empty_state }

abbrev opened : View
opened = open_register_tab (codes "c") (codes "s") 3 start

two_steps : Reach start (close_tab (codes "s-3") opened)
two_steps = next (next here (opens (codes "c") (codes "s") 3 start)) (closes (codes "s-3") opened)

Reach-IsConsistent_example : IsConsistent (close_tab (codes "s-3") opened)
Reach-IsConsistent_example = Reach-IsConsistent {s = start} refl two_steps
