-- ===== src/PrivateView/Tests.antt =====
-- The theorems on the private view at concrete texts, rows and clicks.
use modbus_simulator_go.Base.{◌≡◌, true, false, none, some, List, [], ◌∷◌, codes, every}
use modbus_simulator_go.Base.Dict.{contains}
use modbus_simulator_go.Tree.{Connection}
use modbus_simulator_go.Editor.{Row, exact, no_errors}
use modbus_simulator_go.Drafts.{State, private_protocol}
use modbus_simulator_go.PrivateView.{Sets, escape_html, render_rows, update_table}
use modbus_simulator_go.PrivateView.Categories.{
  Event, draws, clicks, seen, all_happen, follow_all, seen-all_happen,
}
use modbus_simulator_go.PrivateView.Rows.{AreShownAs, update_table-render_rows}
use modbus_simulator_go.PrivateView.Escape.{decoded, is_inert, escape_html_lem}

abbrev boiler : Connection
boiler = record { id = codes "c"; name = codes "boiler-1"; port = 502; service_type = 1 }

abbrev with_tree : List Connection → State
with_tree tree = record {
  mode = private_protocol;
  private_tree = tree;
  configs = [];
  active_conn_id = codes "c";
  selected_row_index = none;
  dirty_connections = [];
}

abbrev no_sets : Sets
no_sets = record { known_categories = []; expanded_categories = [] }

-- The category is shown, closed, gone, and shown again.
abbrev events : List Event
events =
    draws (with_tree (boiler ∷ []))
    ∷ clicks (codes "boiler")
    ∷ draws (with_tree [])
    ∷ draws (with_tree (boiler ∷ []))
    ∷ []

seen-all_happen_example :
    seen
      (codes "boiler")
      (all_happen (codes "localhost") (λ id. none) (with_tree []) events no_sets)
    ≡ follow_all (codes "boiler") (with_tree []) events (record { known = false; expanded = false })
unfolding contains
seen-all_happen_example =
    seen-all_happen (codes "localhost") (λ id. none) (codes "boiler") (with_tree []) events no_sets

abbrev rule : Row
rule = record {
  name = codes "read";
  match_mode = exact;
  send_ascii = codes "A";
  send_hex = codes "41";
  return_ascii = codes "B";
  return_hex = codes "42";
  errors = no_errors;
  dirty = true;
}

abbrev other_rule : Row
other_rule = record rule { name = codes "write" }

update_table-render_rows_example :
    AreShownAs
      (update_table (some 1) 1 rule (render_rows none 0 (other_rule ∷ other_rule ∷ [])))
      (render_rows (some 1) 0 (other_rule ∷ rule ∷ []))
update_table-render_rows_example =
    update_table-render_rows none (some 1) 1 rule (other_rule ∷ other_rule ∷ [])

escape_html_lem_example :
    (decoded 0 (escape_html (codes "<a&b>")) ≡ codes "<a&b>")
    × (every is_inert (escape_html (codes "<a&b>")) ≡ true)
escape_html_lem_example = escape_html_lem (codes "<a&b>")
