-- ===== src/Report.antt =====
-- The reports of `importFrames` and `importPrivateFrames` in app.js: counters, and the errors shown to the user.
use modbus_simulator_go.Base.{ℕ, ◌+◌, List, [], Text}

pub record Report : Type 0 where
  pub pairs : ℕ
  pub processed : ℕ
  pub created_slaves : ℕ
  pub updated_registers : ℕ
  pub created_registers : ℕ
  pub skipped_writes : ℕ
  pub crc_errors : ℕ
  pub parse_errors : ℕ
  pub unmatched_sends : ℕ
  pub unmatched_receives : ℕ
  pub skipped_bits : ℕ
  pub warnings : ℕ
  pub errors : List Text

abbrev pub empty_report : Report
empty_report = record {
  pairs = 0;
  processed = 0;
  created_slaves = 0;
  updated_registers = 0;
  created_registers = 0;
  skipped_writes = 0;
  crc_errors = 0;
  parse_errors = 0;
  unmatched_sends = 0;
  unmatched_receives = 0;
  skipped_bits = 0;
  warnings = 0;
  errors = [];
}

-- `report.crcErrors++` and its like.
abbrev pub crc_error : Report → Report
crc_error r = record r { crc_errors = r.crc_errors + 1 }

abbrev pub parse_error : Report → Report
parse_error r = record r { parse_errors = r.parse_errors + 1 }

abbrev pub warn : Report → Report
warn r = record r { warnings = r.warnings + 1 }

pub record PrivateReport : Type 0 where
  pub pairs : ℕ
  pub processed : ℕ
  pub created_rules : ℕ
  pub updated_rules : ℕ
  pub parse_errors : ℕ
  pub unmatched_sends : ℕ
  pub unmatched_receives : ℕ
  pub hex_detected : ℕ
  pub ascii_detected : ℕ
  pub errors : List Text

abbrev pub empty_private_report : PrivateReport
empty_private_report = record {
  pairs = 0;
  processed = 0;
  created_rules = 0;
  updated_rules = 0;
  parse_errors = 0;
  unmatched_sends = 0;
  unmatched_receives = 0;
  hex_detected = 0;
  ascii_detected = 0;
  errors = [];
}
