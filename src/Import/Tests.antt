-- ===== src/Import/Tests.antt =====
-- The theorems on a pair at concrete frames.
use modbus_simulator_go.Base.{◌≡◌, refl, some, List, [], ◌∷◌, ℕ}
use modbus_simulator_go.Address.{get_logical_start}
use modbus_simulator_go.Base.{inr, none, true, codes, length, trim, is_space, upper_char}
use modbus_simulator_go.Pairing.{Pair, PrivateMessage, hex_encoding, parse_frame_pairs}
use modbus_simulator_go.Base.{text_eq_iff, Text, ◌⊎◌, text_eq, ◌==◌, arith, subst, inl}
use modbus_simulator_go.Tree.{Node, Slave, node_with_id}
use modbus_simulator_go.Import.Slaves
use modbus_simulator_go.Import.Slaves.{CreateSlave}
use modbus_simulator_go.Import.Account.{Lists, Along, import_frames_accounts}
use modbus_simulator_go.Import.Frames.{
  Server, Importing, going, import_frames, preferred_name, forget_all,
}
use modbus_simulator_go.Import.Private.{
  IsNormal, response_to, table_after, import_private_pairs, import_private_pairs-table_after,
}
use modbus_simulator_go.Report.{empty_private_report, empty_report}
use modbus_simulator_go.Frame.{
  word_at, parse_request, parse_response, parse_tcp_request, parse_tcp_response,
}
use modbus_simulator_go.Import.{
  Update, read_pair, fit_reply, expected_bytes, fit_bytes, fit_warnings, effective_count,
}
use modbus_simulator_go.Import.Fit.{IsReadable, read_pair-IsReadable}

-- Two input registers from address 16 of unit 1.
abbrev sent : List ℕ
sent = 0 ∷ 1 ∷ 0 ∷ 0 ∷ 0 ∷ 6 ∷ 1 ∷ 4 ∷ 0 ∷ 16 ∷ 0 ∷ 2 ∷ []

abbrev received : List ℕ
received = 0 ∷ 1 ∷ 0 ∷ 0 ∷ 0 ∷ 7 ∷ 1 ∷ 4 ∷ 4 ∷ 0 ∷ 5 ∷ 0 ∷ 6 ∷ []

abbrev update : Update
update = record {
  unit_id = 1;
  function_code = 4;
  logical_start = 30017;
  quantity = 2;
  data_bytes = 0 ∷ 5 ∷ 0 ∷ 6 ∷ [];
}

pair_read : read_pair sent received empty_report ≡ (some update, empty_report)
unfolding read_pair fit_reply fit_bytes fit_warnings effective_count expected_bytes parse_request
    parse_response parse_tcp_request parse_tcp_response word_at get_logical_start
pair_read = refl

read_pair-IsReadable_example : IsReadable update
read_pair-IsReadable_example =
    read_pair-IsReadable sent received empty_report empty_report update pair_read

-- A server that creates every device: the tree afterwards has the connection with that device.
abbrev with_device : CreateSlave
with_device tree conn_id name slave_addr = inr (
    record {
      connection = record { id = conn_id; name = codes "line"; port = 502; service_type = 0 };
      slaves = record { id = codes "s"; name = name; slave_addr = slave_addr } ∷ [];
    }
    ∷ [])

abbrev device_of : Text → ℕ → Slave
device_of name slave_addr = record { id = codes "s"; name = name; slave_addr = slave_addr }

with_device-Lists : Lists with_device
unfolding node_with_id
with_device-Lists tree tree' conn_id name slave_addr e =
    let same : text_eq conn_id conn_id ≡ true = (text_eq_iff conn_id conn_id).1 refl in
    let at : (slave_addr == slave_addr) ≡ true = ground arith in
    subst
      (λ (t : Text ⊎ List Node).
        (s : Slave) × (Slaves.slave_of slave_addr (node_with_id conn_id (loaded t)) ≡ some s))
      e (rw (same, at) (device_of name slave_addr, refl))
  where
    loaded : Text ⊎ List Node → List Node
    loaded (inl reason) = []
    loaded (inr t) = t

abbrev accepting : Server
accepting = record {
  create_slave = with_device;
  get_registers = λ id. none;
  update_register = λ reg. true;
  create_register = λ start hex. true;
}

-- The connection before the import, without a device.
abbrev bare : List Node
bare =
    record {
      connection = record { id = codes "c"; name = codes "line"; port = 502; service_type = 0 };
      slaves = [];
    }
    ∷ []

-- A read of two input registers with its reply, and a write, which is skipped.
abbrev log : Text
log =
    codes
      "发送 <0001000000060104000A0002>\n接收 <00010000000701040400050006>\n发送 <000100000006010600000001>\n接收 <000100000006010600000001>"

import_frames_accounts_example :
    (let (pairs, report) = parse_frame_pairs log empty_report in
      (end : Importing) × (import_frames accepting (codes "c") log bare []
        ≡ going (record end { register_cache = forget_all end.affected_slaves end.register_cache }))
      × Along accepting
          (codes "c")
          (preferred_name (codes "c") bare)
          pairs
          (record {
            device_tree = bare;
            register_cache = [];
            report = record report { pairs = length pairs };
            affected_slaves = [];
          })
          end)
import_frames_accounts_example =
    import_frames_accounts accepting (codes "c") log bare [] with_device-Lists (λ reg. refl)

abbrev private_pair : Pair PrivateMessage
private_pair = record {
  send = record { bytes = 0x41 ∷ []; hex = codes "41"; encoding = hex_encoding };
  receive = record { bytes = 0x42 ∷ []; hex = codes "42"; encoding = hex_encoding };
}

private_pair-IsNormal : IsNormal private_pair
unfolding trim is_space upper_char
private_pair-IsNormal = refl

import_private_pairs-table_after_example :
    response_to (codes "41") (import_private_pairs (private_pair ∷ []) ([], empty_private_report)).0
    ≡ table_after (codes "41") (private_pair ∷ []) none
import_private_pairs-table_after_example =
    import_private_pairs-table_after (codes "41") (private_pair ∷ []) [] empty_private_report
      (private_pair-IsNormal, tt)
