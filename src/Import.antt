-- ===== src/Import.antt =====
-- The body of the loop of `importFrames` in app.js, up to the search for the device: a pair of
-- frames is read into the update of a register block, or left out, with the counters of the report.
-- Slaves has the search for the device, Frames the loop around both, Private `importPrivateFrames`.
pub mod Fit
pub mod Slaves
pub mod Frames
pub mod Private
pub mod Marks
pub mod Account
mod Tests
use modbus_simulator_go.Base.{
  ℕ, ◌+◌, ◌*◌, ◌/◌, min, true, false, Option, none, some, List, length, take, ltb, ◌==◌, ◌||◌, Bool,
  if◌then◌else◌,
}
use modbus_simulator_go.Report.{Report, warn}
use modbus_simulator_go.Frame.{Query, Reply, parse_request, parse_response}
use modbus_simulator_go.Address.{is_bit_type, get_logical_start}

-- The arguments of `applyRegisterUpdate` that the pair determines.
pub record Update : Type 0 where
  pub unit_id : ℕ
  pub function_code : ℕ
  pub logical_start : ℕ
  pub quantity : ℕ
  pub data_bytes : List ℕ

-- `Math.ceil(req.quantity / 8)` or `req.quantity * 2`
unfoldable pub expected_bytes : ℕ → ℕ → ℕ
expected_bytes fc quantity = if is_bit_type fc then (quantity + 7) / 8 else quantity * 2

unfoldable pub fit_bytes : ℕ → List ℕ → List ℕ
fit_bytes expected bytes = if ltb expected (length bytes) then take expected bytes else bytes

unfoldable pub effective_count : ℕ → ℕ → List ℕ → ℕ
effective_count fc quantity bytes =
    if is_bit_type fc then min quantity (length bytes * 8) else min quantity (length bytes / 2)

abbrev pub warn_if : Bool → Report → Report
warn_if test report = if test then warn report else report

-- The warnings on the function code, the unit and the number of bytes.
unfoldable pub fit_warnings : Query → Reply → Report → Report
fit_warnings req resp report =
    let expected = expected_bytes req.function_code req.quantity in
    warn_if (ltb (length resp.bytes) expected || ltb expected (length resp.bytes)) (
      warn_if (if resp.unit_id == req.unit_id then false else true)
        (warn_if (if resp.function_code == req.function_code then false else true) report))

-- From the comparison of the two function codes to `getLogicalStart`.
unfoldable pub fit_reply : Query → Reply → Report → Option Update × Report
fit_reply req resp report =
    let bytes = fit_bytes (expected_bytes req.function_code req.quantity) resp.bytes in
    let count = effective_count req.function_code req.quantity bytes in
    let noted = fit_warnings req resp report in
    if count == 0 then (none, warn noted) else (
      some (record {
        unit_id = req.unit_id;
        function_code = req.function_code;
        logical_start = get_logical_start req.function_code req.start_address;
        quantity = count;
        data_bytes = bytes;
      }),
      noted,
    )

abbrev pub is_read : ℕ → Bool
is_read fc = fc == 1 || (fc == 2 || (fc == 3 || fc == 4))

abbrev skip_write : Report → Report
skip_write report = record report { skipped_writes = report.skipped_writes + 1 }

abbrev pub answered : Query → Option Reply × Report → Option Update × Report
answered req (none, report) = (none, report)
answered req (some resp, report) = fit_reply req resp report

abbrev pub asked : List ℕ → Option Query × Report → Option Update × Report
asked receive (none, report) = (none, report)
asked receive (some req, report) =
    if is_read req.function_code
    then answered req (parse_response receive req.protocol report)
    else (none, skip_write report)

unfoldable pub read_pair : List ℕ → List ℕ → Report → Option Update × Report
read_pair send receive report = asked receive (parse_request send report)
