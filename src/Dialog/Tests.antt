-- ===== src/Dialog/Tests.antt =====
-- The theorems on the import dialog at concrete pages.
use Prim.Native.Nat.{Ordering, compare}
use mathlib.Core.Sum.{inr-injective}
use modbus_simulator_go.Base.{
  ◌≡◌, refl, sym, inr, true, false, none, some, List, [], ◌∷◌, Text, codes, is_empty, trim,
  is_space, text_eq, length, All,
}
use modbus_simulator_go.Tree.{Connection, Node, node_with_id}
use modbus_simulator_go.Tree.Sort.{flip, compare-flip}
use modbus_simulator_go.Drafts.{private_protocol, State, get_node_by_id}
use modbus_simulator_go.Import.Private.{import_private_frames}
use modbus_simulator_go.Dialog.{
  Modal, closed_modal, new_conn, get_active_connection, OpenOptions, open_import_modal,
}
use modbus_simulator_go.Dialog.Texts.{nothing}
use modbus_simulator_go.Dialog.Submit.{
  Backend, ImportPage, puts_private, refreshes, load_tree, name_of, submit_import_form,
}
use modbus_simulator_go.Dialog.Sound.{IsSound}
use modbus_simulator_go.Dialog.Requests.{submit_import_form-AllSound}
use modbus_simulator_go.Dialog.Opened.{Typed, submitted, submit_import_form-open_import_modal}

-- A server that accepts every request and makes one id.
abbrev backend : Backend
backend = record {
  create_connection = λ name port service_type. inr (codes "d");
  server = record {
    create_slave = λ tree conn_id name addr. inr tree;
    get_registers = λ slave_id. none;
    update_register = λ reg. true;
    create_register = λ start hex. true;
  };
  update_error = nothing;
  get_private_protocol = λ conn_id. none;
  save_private_protocol = λ conn_id served. none;
  refresh_data = λ conn_id. none;
  encode = λ text. text;
  get_tree = λ actions. none;
}

abbrev boiler : Connection
boiler = record { id = codes "c"; name = codes "boiler"; port = 502; service_type = 1 }

abbrev plant : List Node
plant = record { connection = boiler; slaves = [] } ∷ []

-- A new connection on a port that is free, without a log.
abbrev filled_in : Modal
filled_in = record closed_modal {
  chosen = new_conn;
  conn_name = codes "pump";
  conn_port = codes "1502";
}

abbrev page : ImportPage
page = record {
  modal = filled_in;
  device_tree = plant;
  register_cache = [];
  import_in_progress = false;
  actions = [];
}

other_id : text_eq [] new_conn ≡ false
unfolding text_eq
other_id = refl

made_id : (is_empty (codes "d") ≡ false) × (text_eq (codes "d") new_conn ≡ false)
unfolding text_eq
made_id = (refl, refl)

submit_import_form-AllSound_example :
    All (IsSound filled_in plant) (submit_import_form backend page).actions
unfolding closed_modal
submit_import_form-AllSound_example =
    submit_import_form-AllSound backend page
      (λ name port service_type conn_id e. rw (sym (inr-injective (codes "d") conn_id e)) made_id)
      other_id refl

abbrev by_length : Text → Text → Ordering
by_length a b = compare (length a) (length b)

by_length-flip : (a b : Text) → by_length b a ≡ flip (by_length a b)
by_length-flip a b = compare-flip (length a) (length b)

abbrev locking : OpenOptions
locking = record { conn_id = codes " c "; lock_conn = true }

abbrev typed : Typed
typed = record { chosen = new_conn; conn_name = codes "x"; conn_port = []; frames = codes "log" }

abbrev state : State
state = record {
  mode = private_protocol;
  private_tree = boiler ∷ [];
  configs = [];
  active_conn_id = codes "c";
  selected_row_index = none;
  dirty_connections = [];
}

active : is_empty (get_active_connection state) ≡ false
unfolding get_active_connection get_node_by_id text_eq
active = refl

log_given : is_empty (trim (codes "log")) ≡ false
unfolding trim is_space
log_given = refl

submit_import_form-open_import_modal_example :
    submitted backend page typed (
      open_import_modal by_length by_length plant
        (get_active_connection state)
        private_protocol
        locking
        filled_in)
    ≡ some (
        puts_private
          (get_active_connection state)
          (import_private_frames
            (λ text. text)
            (name_of backend
              (node_with_id (get_active_connection state) (load_tree backend page).device_tree))
            none
            (codes "log")).0
        ∷ refreshes (get_active_connection state)
        ∷ [])
submit_import_form-open_import_modal_example =
    submit_import_form-open_import_modal by_length by_length backend state locking page typed active
      log_given refl (λ served. refl) refl
