-- ===== src/Frame/Request.antt =====
-- Requests as the Modbus specification lays them out are read back, over TCP and RTU.
use modbus_simulator_go.Base.{
  ℕ, ◌*◌, ◌/◌, ◌%◌, ◌<◌, ◌≤◌, ◌≡◌, ◌≢◌, ◌⊎◌, inl, inr, refl, ◌∙◌, List, [], ◌∷◌, ◌++◌, none, some,
  All, ltb, true, false, Bool-cases, Option-cases, arith, length, bit_or,
}
use modbus_simulator_go.Base.Bits.{bit_or_word}
use modbus_simulator_go.Crc.{crc16, validate_crc}
use modbus_simulator_go.Crc.Frame.{validate_crc_iff}
use modbus_simulator_go.Hex.Bytes.{IsByte}
use modbus_simulator_go.Report.{Report, crc_error, parse_error}
use modbus_simulator_go.Frame.{
  Query, tcp, rtu, at, word_at, parse_tcp_request, parse_rtu_request, parse_request, no_frame,
  crc_failed, frame,
}

-- A query whose fields fit the wire.
pub record Fits (q : Query) : Type 0 where
  pub unit_fits : q.unit_id < 256
  pub code_fits : q.function_code < 256
  pub start_fits : q.start_address < 0x10000
  pub quantity_fits : q.quantity < 0x10000

-- The protocol data unit: function code, start address, quantity.
abbrev pub pdu : Query → List ℕ
pdu q =
    q.function_code
    ∷ (q.start_address / 256)
    ∷ (q.start_address % 256)
    ∷ (q.quantity / 256)
    ∷ (q.quantity % 256)
    ∷ []

-- The TCP frame: transaction number, protocol 0, length 6, unit, protocol data unit.
abbrev pub tcp_frame : ℕ → ℕ → Query → List ℕ
tcp_frame hi lo q = hi ∷ lo ∷ 0 ∷ 0 ∷ 0 ∷ 6 ∷ q.unit_id ∷ pdu q

abbrev pub with_crc : List ℕ → List ℕ
with_crc message = message ++ (crc16 message % 256) ∷ (crc16 message / 256) ∷ []

-- The RTU frame: unit, protocol data unit, checksum.
abbrev pub rtu_frame : Query → List ℕ
rtu_frame q = with_crc (q.unit_id ∷ pdu q)

-- The two bytes of a 16-bit number make it again.
pub bytes_of_word : (w : ℕ) → w < 0x10000 → bit_or (w / 256 * 256) (w % 256) ≡ w
bytes_of_word w h = bit_or_word (w / 256) (w % 256) (omega arith) ∙ omega arith

-- A read request framed for TCP is read back, whatever its transaction number.
pub parse_request_tcp :
    (q : Query) (hi lo : ℕ) (report : Report)
    → q.protocol ≡ tcp
    → Fits q
    → parse_request (tcp_frame hi lo q) report ≡ (some q, report)
unfolding parse_request parse_tcp_request word_at
parse_request_tcp q hi lo report p f =
    ground
      (arith, bytes_of_word q.start_address f.start_fits, bytes_of_word q.quantity f.quantity_fits)

pub with_crc-valid :
    (message : List ℕ) → All IsByte message → message ≢ [] → validate_crc (with_crc message) ≡ true
with_crc-valid message h ne = (validate_crc_iff message _ _ h ne).1 (refl, refl)

message-bytes : (q : Query) → Fits q → All IsByte (q.unit_id ∷ pdu q)
message-bytes q f = omega (arith, f.unit_fits, f.code_fits, f.start_fits, f.quantity_fits)

-- A read request framed for RTU, checksum included, is read back.
pub parse_request_rtu :
    (q : Query) (report : Report)
    → q.protocol ≡ rtu
    → Fits q
    → parse_request (rtu_frame q) report ≡ (some q, report)
unfolding parse_request parse_rtu_request parse_tcp_request word_at
parse_request_rtu q report p f = ground (
  arith,
  with_crc-valid (q.unit_id ∷ pdu q) (message-bytes q f) (cc),
  bytes_of_word q.start_address f.start_fits,
  bytes_of_word q.quantity f.quantity_fits,
)

-- The three results of the RTU parser.
rtu_request-cases :
    (bytes : List ℕ)
    → ((parse_rtu_request bytes ≡ no_frame) × (length bytes < 8))
      ⊎ ((parse_rtu_request bytes ≡ crc_failed) × (8 ≤ length bytes) × (validate_crc bytes ≡ false))
      ⊎ ((q : Query) × (parse_rtu_request bytes ≡ frame q))
unfolding parse_rtu_request
rtu_request-cases bytes = elim (Bool-cases (ltb (length bytes) 8)) [
  | inl short ↦ inl (rw short, ground arith)
  | inr long ↦ elim (Bool-cases (validate_crc bytes)) [
    | inr bad ↦ inr (inl (rw (long, bad), ground arith, bad))
    | inl good ↦ inr (
        inr (
          record {
            protocol = rtu;
            unit_id = at bytes 0;
            function_code = at bytes 1;
            start_address = word_at bytes 2;
            quantity = word_at bytes 4;
          },
          rw (long, good),
        ))
  ]
]

-- A frame that is no request is counted once: as a parse error where it is shorter than an RTU
-- request, else as a checksum error, and then its checksum is wrong. Any other frame leaves the
-- report as it is.
pub parse_request_counts :
    (bytes : List ℕ) (report : Report)
    → ((q : Query) × (parse_request bytes report ≡ (some q, report)))
      ⊎ ((parse_request bytes report ≡ (none, crc_error report))
          × (8 ≤ length bytes)
          × (validate_crc bytes ≡ false))
      ⊎ ((parse_request bytes report ≡ (none, parse_error report)) × (length bytes < 8))
unfolding parse_request
parse_request_counts bytes report = elim (Option-cases (parse_tcp_request bytes)) [
  | inr (q, e) ↦ inl (q, ground arith)
  | inl e ↦ elim (rtu_request-cases bytes) [
    | inl (n, short) ↦ inr (inr (ground arith, short))
    | inr (inl (n, long, bad)) ↦ inr (inl (ground arith, long, bad))
    | inr (inr (q, n)) ↦ inl (q, ground arith)
  ]
]
