-- ===== src/Import/Frames.antt =====
-- `importFrames` of app.js: the pairs of a pasted log, one after another, written to the blocks of
-- the devices. The server is a record of what it answers. An error of `api.updateRegister` is not
-- caught and ends the import.
use modbus_simulator_go.Base.{ℕ, ◌+◌, Bool, Option, none, some, List, [], ◌∷◌, Text, length}
use modbus_simulator_go.Base.Dict.{entry, put, remove, add}
use modbus_simulator_go.Report.{Report, empty_report}
use modbus_simulator_go.Address.{Register}
use modbus_simulator_go.Tree.{Node, Slave, node_with_id}
use modbus_simulator_go.Pairing.{Pair, Message, parse_frame_pairs}
use modbus_simulator_go.Registers.{Values, Progress, Ran, ran, threw, apply_register_update}
use modbus_simulator_go.Registers.Cells.{Cache, cached, ensure_register_cache}
use modbus_simulator_go.Import.{Update, read_pair}
use modbus_simulator_go.Import.Slaves.{CreateSlave, find_or_create_slave}

pub record Server : Type 0 where
  pub create_slave : CreateSlave
  -- by the id of the device
  pub get_registers : Text → Option (List Register)
  pub update_register : Register → Bool
  pub create_register : ℕ → Text → Bool

-- `deviceTree`, `registerCache`, the report and `affectedSlaves`
pub record Importing : Type 0 where
  pub device_tree : List Node
  pub register_cache : Cache
  pub report : Report
  pub affected_slaves : List Text

-- An import that goes on, and one that an error has ended.
pub data Imported : Type 0 where
  going : Importing → Imported
  broken_off : Importing → Imported

-- The name for a new device: that of the only device of the connection, or of an empty connection.
abbrev pub preferred_in : Option Node → Text
preferred_in none = []
preferred_in (some node) = elim node.slaves [
  | [] ↦ node.connection.name
  | s ∷ slaves ↦ elim slaves [ [] ↦ s.name | t ∷ more ↦ [] ]
]

unfoldable pub preferred_name : Text → List Node → Text
preferred_name conn_id tree = preferred_in (node_with_id conn_id tree)

-- `report.updatedRegisters += result.updatedRegisters` and what follows; the warnings were counted
-- on the way.
abbrev pub add_progress : Progress → Report → Report
add_progress p report = record report {
  updated_registers = report.updated_registers + p.updated_registers;
  created_registers = report.created_registers + p.created_registers;
  skipped_bits = report.skipped_bits + p.skipped_bits;
  warnings = report.warnings + p.warnings;
  processed = report.processed + 1;
}

-- The end of the loop body, on what `applyRegisterUpdate` returns or throws.
abbrev pub written : Text → Importing → Ran → Imported
written slave_id st (ran regs p) = going (record st {
  register_cache = put slave_id regs st.register_cache;
  report = add_progress p st.report;
  affected_slaves = add slave_id st.affected_slaves;
})
written slave_id st (threw regs p) = broken_off (record st {
  register_cache = put slave_id regs st.register_cache;
  report = record st.report { warnings = st.report.warnings + p.warnings };
})

abbrev pub values_of : Update → Values
values_of u = record {
  logical_start = u.logical_start;
  quantity = u.quantity;
  data_bytes = u.data_bytes;
}

-- The call of `applyRegisterUpdate` for the device that was found.
abbrev pub write_update : Server → Update → Importing → Option Slave → Imported
write_update srv u st none = going st
write_update srv u st (some slave) =
    let cache = ensure_register_cache (srv.get_registers slave.id) slave.id st.register_cache in
    written slave.id st (
      apply_register_update srv.update_register srv.create_register u.function_code (values_of u)
        (cached (entry slave.id cache)))

-- The search for the device, on the update that the pair was read into.
abbrev pub place_update : Server → Text → Text → Importing → Option Update × Report → Imported
place_update srv conn_id name st (none, report) = going (record st { report = report })
place_update srv conn_id name st (some u, report) =
    let (slave, tree, report') =
      find_or_create_slave srv.create_slave conn_id u.unit_id name st.device_tree report in
    write_update srv u (record st { device_tree = tree; report = report' }) slave

unfoldable pub import_pair : Server → Text → Text → Pair Message → Importing → Imported
import_pair srv conn_id name pair st =
    place_update srv conn_id name st (read_pair pair.send.bytes pair.receive.bytes st.report)

-- `for (const pair of pairs)`
abbrev pub import_rest : (Importing → Imported) → Imported → Imported
import_rest rest (going st) = rest st
import_rest rest (broken_off st) = broken_off st

unfoldable pub import_pairs : Server → Text → Text → List (Pair Message) → Importing → Imported
import_pairs srv conn_id name [] st = going st
import_pairs srv conn_id name (pair ∷ pairs) st =
    import_rest (import_pairs srv conn_id name pairs) (import_pair srv conn_id name pair st)

-- `affectedSlaves.forEach(…)`
unfoldable pub forget_all : List Text → Cache → Cache
forget_all [] cache = cache
forget_all (id ∷ ids) cache = forget_all ids (remove id cache)

abbrev pub finished : Imported → Imported
finished (going st) =
    going (record st { register_cache = forget_all st.affected_slaves st.register_cache })
finished (broken_off st) = broken_off st

-- The tree and the cache are those after the first `loadTree`.
unfoldable pub import_frames : Server → Text → Text → List Node → Cache → Imported
import_frames srv conn_id raw_text tree cache =
    let (pairs, report) = parse_frame_pairs raw_text empty_report in
    finished (
      import_pairs srv conn_id (preferred_name conn_id tree) pairs (record {
        device_tree = tree;
        register_cache = cache;
        report = record report { pairs = length pairs };
        affected_slaves = [];
      }))
