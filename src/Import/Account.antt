-- ===== src/Import/Account.antt =====
-- Every pair of an import is processed or leaves a fault in the report.
use modbus_simulator_go.Base.{
  ℕ, ◌+◌, ◌≡◌, ◌⊎◌, refl, ap, inl, inr, true, if_both, Option, none, some, List, [], ◌∷◌, Text,
  length, length-append, is_empty, arith,
}
use modbus_simulator_go.Report.{Report, empty_report}
use modbus_simulator_go.Tree.{Node, Slave, node_with_id}
use modbus_simulator_go.Pairing.{Pair, Message, parse_frame_pairs}
use modbus_simulator_go.Registers.Cells.{Cache, cached, ensure_register_cache}
use modbus_simulator_go.Registers.Update.{apply_register_update_runs}
use modbus_simulator_go.Base.Dict.{entry, put, add}
use modbus_simulator_go.Address.{Register}
use modbus_simulator_go.Registers.{Progress, ran, apply_register_update}
use modbus_simulator_go.Import.{Update, read_pair}
use modbus_simulator_go.Import.Slaves
use modbus_simulator_go.Import.Slaves.{CreateSlave, find_or_create_slave}
use modbus_simulator_go.Import.Frames.{
  import_frames, finished, preferred_name, values_of, written, forget_all, Server, Importing,
  Imported, going, write_update, place_update, import_pair, import_pairs,
}
use modbus_simulator_go.Import.Marks.{
  IsFaulty, IsOpen, Marked, IsFaulty-trans, IsOpen-trans, read_pair-Marked,
}

-- What the client relies on: the tree that is loaded after a device was created lists it.
abbrev pub Lists : CreateSlave → Type 0
Lists create_slave =
    (tree tree' : List Node) (conn_id name : Text) (slave_addr : ℕ)
    → create_slave tree conn_id name slave_addr ≡ inr tree'
    → (s : Slave) × (Slaves.slave_of slave_addr (node_with_id conn_id tree') ≡ some s)

-- The search for a device: without one there is a fault.
abbrev FoundMarked : Report → Slaves.Found → Type 0
FoundMarked before (none, tree, report) = IsFaulty before report
FoundMarked before (some s, tree, report) = IsOpen before report

module _ (create_slave : CreateSlave) (lists : Lists create_slave) (conn_id : Text) (slave_addr : ℕ)
    (device_name : Text) (tree : List Node) (report : Report) where
  with_error-IsFaulty : (message : Text) → IsFaulty report (Slaves.with_error message report)
  with_error-IsFaulty message = (refl, omega (arith, length-append report.errors (message ∷ [])))

  after_creation-Marked :
      (o : Text ⊎ List Node)
      → ((tree' : List Node)
          → o ≡ inr tree'
          → (s : Slave) × (Slaves.slave_of slave_addr (node_with_id conn_id tree') ≡ some s))
      → FoundMarked report (Slaves.after_creation conn_id slave_addr tree report o)
  after_creation-Marked (inl reason) listed = with_error-IsFaulty _
  after_creation-Marked (inr tree') listed =
      let (s, there) = listed tree' refl in rw there (refl, omega arith)

  created_slave-Marked :
      FoundMarked report
        (Slaves.created_slave create_slave conn_id slave_addr device_name tree report)
  created_slave-Marked = after_creation-Marked _ (λ tree' e. lists _ _ _ _ _ e)

  other_node-Marked :
      (o : Option Node)
      → FoundMarked report
          (Slaves.other_node create_slave conn_id slave_addr device_name tree report o)
  other_node-Marked none = created_slave-Marked
  other_node-Marked (some node) = with_error-IsFaulty _

  same_name-Marked :
      (o : Option Slave)
      → FoundMarked report
          (Slaves.same_name create_slave conn_id slave_addr device_name tree report o)
  same_name-Marked none = other_node-Marked _
  same_name-Marked (some s) = (refl, omega arith)

  in_node-Marked :
      (node : Node) (o : Option Slave)
      → FoundMarked report
          (Slaves.in_node create_slave conn_id slave_addr device_name tree report node o)
  in_node-Marked node (some s) = (refl, omega arith)
  in_node-Marked node none =
      if_both (FoundMarked report) (is_empty (Slaves.normal_name device_name)) _ _
        created_slave-Marked (same_name-Marked _)

  in_tree-Marked :
      (o : Option Node)
      → FoundMarked report
          (Slaves.in_tree create_slave conn_id slave_addr device_name tree report o)
  in_tree-Marked none = with_error-IsFaulty _
  in_tree-Marked (some node) = in_node-Marked node _

  find_or_create_slave-Marked :
      FoundMarked report
        (find_or_create_slave create_slave conn_id slave_addr device_name tree report)
  unfolding find_or_create_slave
  find_or_create_slave-Marked = in_tree-Marked (node_with_id conn_id tree)

-- A pair that is processed: it is read into an update, whose values `applyRegisterUpdate` writes to
-- the blocks of one device; the blocks go into the cache, and the pair is counted once.
abbrev pub IsWritten : Server → Pair Message → Importing → Importing → Type 0
IsWritten srv pair st after =
    (u : Update) × (r : Report) × (s : Slave) × (regs : List Register) × (p : Progress) × (read_pair
        pair.send.bytes pair.receive.bytes st.report
      ≡ (some u, r))
    × (apply_register_update srv.update_register srv.create_register u.function_code (values_of u) (
          cached
            (entry s.id (ensure_register_cache (srv.get_registers s.id) s.id st.register_cache)))
        ≡ ran regs p)
    × (after.register_cache ≡ put s.id regs st.register_cache)
    × (after.affected_slaves ≡ add s.id st.affected_slaves)
    × (after.report.processed ≡ st.report.processed + 1)

-- A pair that is not: nothing is written, and there is a fault more.
abbrev pub IsLeftOut : Importing → Importing → Type 0
IsLeftOut st after =
    IsFaulty st.report after.report
    × (after.register_cache ≡ st.register_cache)
    × (after.affected_slaves ≡ st.affected_slaves)

-- The pairs are imported one after the other, each one accounted for.
abbrev pub Along : Server → Text → Text → List (Pair Message) → Importing → Importing → Type 0
Along srv conn_id name [] st end = st ≡ end
Along srv conn_id name (pair ∷ pairs) st end =
    (middle : Importing) × (import_pair srv conn_id name pair st ≡ going middle)
    × (IsWritten srv pair st middle ⊎ IsLeftOut st middle)
    × Along srv conn_id name pairs middle end

-- An import that goes on, with the pair accounted for.
abbrev GoesOn : Server → Pair Message → Importing → Imported → Type 0
GoesOn srv pair st i =
    (after : Importing) × (i ≡ going after) × (IsWritten srv pair st after ⊎ IsLeftOut st after)

module _ (srv : Server) (lists : Lists srv.create_slave)
    (accepts : (reg : Register) → srv.update_register reg ≡ true) (conn_id name : Text) where
  write_update-GoesOn :
      (pair : Pair Message) (u : Update) (r : Report) (f : Slaves.Found) (st : Importing)
      → read_pair pair.send.bytes pair.receive.bytes st.report ≡ (some u, r)
      → FoundMarked st.report f
      → GoesOn srv pair st (write_update srv u (record st { device_tree = f.1; report = f.2 }) f.0)
  write_update-GoesOn pair u r (none, tree, q) st read k = (_, refl, inr (k, refl, refl))
  write_update-GoesOn pair u r (some s, tree, q) st read k =
      let regs =
        cached
          (entry s.id (ensure_register_cache (srv.get_registers s.id) s.id st.register_cache)) in
      let (regs', p, e) =
        apply_register_update_runs srv.update_register srv.create_register u.function_code
          (values_of u) regs accepts in
      (
        _,
        ap (written s.id (record st { device_tree = tree; report = q })) e,
        inl (u, r, s, regs', p, read, e, refl, refl, ap (λ n. n + 1) k.0),
      )

  place_update-GoesOn :
      (pair : Pair Message) (st : Importing) (o : Option Update × Report)
      → read_pair pair.send.bytes pair.receive.bytes st.report ≡ o
      → Marked st.report o
      → GoesOn srv pair st (place_update srv conn_id name st o)
  place_update-GoesOn pair st (none, report) read h = (_, refl, inr (h, refl, refl))
  place_update-GoesOn pair st (some u, report) read h =
      let found =
        find_or_create_slave srv.create_slave conn_id u.unit_id name st.device_tree report in
      write_update-GoesOn pair u report found st read (
        earlier found (
          find_or_create_slave-Marked srv.create_slave lists conn_id u.unit_id name st.device_tree
            report))
    where
      earlier : (f : Slaves.Found) → FoundMarked report f → FoundMarked st.report f
      earlier (none, tree, r) k = IsFaulty-trans st.report report r h k
      earlier (some s, tree, r) k = IsOpen-trans st.report report r h k

  import_pair-GoesOn :
      (pair : Pair Message) (st : Importing)
      → GoesOn srv pair st (import_pair srv conn_id name pair st)
  unfolding import_pair
  import_pair-GoesOn pair st =
      place_update-GoesOn pair st _ refl
        (read_pair-Marked pair.send.bytes pair.receive.bytes st.report)

  import_pairs-Along :
      (pairs : List (Pair Message)) (st : Importing)
      → (end : Importing) × (import_pairs srv conn_id name pairs st ≡ going end)
        × Along srv conn_id name pairs st end
  unfolding import_pairs
  import_pairs-Along [] st = (st, refl, refl)
  import_pairs-Along (pair ∷ pairs) st =
      let (middle, e, accounted) = import_pair-GoesOn pair st in
      let (end, rest, along) = import_pairs-Along pairs middle in
      (end, rw e rest, (middle, e, accounted, along))

-- Where the server accepts every change of a block, and the tree that is loaded after a device was
-- created lists it, an import goes through to its end, and accounts for each pair of the log on its
-- own. Either the pair is read into an update, its values are written to the blocks of a device, which
-- go into the cache, and the count of processed pairs is one more; or the pair leaves that count, the
-- cache and the devices that were written to as they are, and raises the sum of the skipped writes,
-- failed checksums, parse errors, warnings and errors.
pub import_frames_accounts :
    (srv : Server) (conn_id raw_text : Text) (tree : List Node) (cache : Cache)
    → Lists srv.create_slave
    → ((reg : Register) → srv.update_register reg ≡ true)
    → (let (pairs, report) = parse_frame_pairs raw_text empty_report in
        (end : Importing) × (import_frames srv conn_id raw_text tree cache
          ≡ going
              (record end { register_cache = forget_all end.affected_slaves end.register_cache }))
        × Along srv conn_id
            (preferred_name conn_id tree)
            pairs
            (record {
              device_tree = tree;
              register_cache = cache;
              report = record report { pairs = length pairs };
              affected_slaves = [];
            })
            end)
unfolding import_frames
import_frames_accounts srv conn_id raw_text tree cache lists accepts =
    let (pairs, report) = parse_frame_pairs raw_text empty_report in
    let (end, e, along) =
      import_pairs-Along srv lists accepts conn_id (preferred_name conn_id tree) pairs _ in
    (end, ap finished e, along)
