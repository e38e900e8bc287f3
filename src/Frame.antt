-- ===== src/Frame.antt =====
-- The frame parsers of app.js: `parseTCPRequest`, `parseTCPResponse`, `parseRTURequest`,
-- `parseRTUResponse`, and `parseRequest` and `parseResponse`, which choose between them and count
-- errors. Bytes come from `parseHexPayload` and are below 256; an index is read behind the test of
-- the length, so the default of `get_or` is never seen.
pub mod Request
pub mod Response
mod Tests
use modbus_simulator_go.Base.{
  ℕ, ◌+◌, ◌-◌, ◌*◌, Bool, true, false, not, ◌||◌, Option, none, some, List, length, take, drop,
  get_or, ltb, ◌==◌, if◌then◌else◌, bit_and, bit_or,
}
use modbus_simulator_go.Crc.{validate_crc}
use modbus_simulator_go.Report.{Report, crc_error, parse_error}

pub data Protocol : Type 0 where
  tcp rtu : Protocol

pub record Query : Type 0 where
  pub protocol : Protocol
  pub unit_id : ℕ
  pub function_code : ℕ
  pub start_address : ℕ
  pub quantity : ℕ

pub record Reply : Type 0 where
  pub protocol : Protocol
  pub unit_id : ℕ
  pub function_code : ℕ
  pub bytes : List ℕ

-- What an RTU parser returns: null, `{error: 'crc'}`, or a frame.
pub data Rtu (A : Type 0) : Type 0 where
  no_frame : Rtu A
  crc_failed : Rtu A
  frame : A → Rtu A

-- `bytes[i]`
abbrev pub at : List ℕ → ℕ → ℕ
at bytes i = get_or bytes i 0

-- `(bytes[i] << 8) | bytes[i + 1]`
unfoldable pub word_at : List ℕ → ℕ → ℕ
word_at bytes i = bit_or (at bytes i * 256) (at bytes (i + 1))

-- The tests that both TCP parsers make of the header.
abbrev pub bad_header : List ℕ → Bool
bad_header bytes = not (word_at bytes 2 == 0) || not (word_at bytes 4 == length bytes - 6)

unfoldable pub parse_tcp_request : List ℕ → Option Query
parse_tcp_request bytes =
    if ltb (length bytes) 12
    then none
    else if bad_header bytes
    then none
    else some (record {
      protocol = tcp;
      unit_id = at bytes 6;
      function_code = at bytes 7;
      start_address = word_at bytes 8;
      quantity = word_at bytes 10;
    })

-- `functionCode & 0x80` is not zero.
abbrev pub is_exception : ℕ → Bool
is_exception code = not (bit_and code 0x80 == 0)

-- `bytes.slice(from, from + n)`
abbrev pub slice : List ℕ → ℕ → ℕ → List ℕ
slice bytes from n = take n (drop from bytes)

unfoldable pub parse_tcp_response : List ℕ → Option Reply
parse_tcp_response bytes =
    if ltb (length bytes) 9
    then none
    else if bad_header bytes
    then none
    else if is_exception (at bytes 7)
    then none
    else if ltb (length bytes) (9 + at bytes 8)
    then none
    else some (record {
      protocol = tcp;
      unit_id = at bytes 6;
      function_code = at bytes 7;
      bytes = slice bytes 9 (at bytes 8);
    })

unfoldable pub parse_rtu_request : List ℕ → Rtu Query
parse_rtu_request bytes =
    if ltb (length bytes) 8
    then no_frame
    else if not (validate_crc bytes)
    then crc_failed
    else frame (record {
      protocol = rtu;
      unit_id = at bytes 0;
      function_code = at bytes 1;
      start_address = word_at bytes 2;
      quantity = word_at bytes 4;
    })

unfoldable pub parse_rtu_response : List ℕ → Rtu Reply
parse_rtu_response bytes =
    if ltb (length bytes) 5
    then no_frame
    else if not (validate_crc bytes)
    then crc_failed
    else if is_exception (at bytes 1)
    then no_frame
    else if ltb (length bytes) (3 + at bytes 2 + 2)
    then no_frame
    else frame (record {
      protocol = rtu;
      unit_id = at bytes 0;
      function_code = at bytes 1;
      bytes = slice bytes 3 (at bytes 2);
    })

-- A parsed frame leaves the report as it is; any other result counts one error.
abbrev pub settle : {A : Type 0} → Rtu A → Report → Option A × Report
settle no_frame report = (none, parse_error report)
settle crc_failed report = (none, crc_error report)
settle (frame a) report = (some a, report)

unfoldable pub parse_request : List ℕ → Report → Option Query × Report
parse_request bytes report = elim (parse_tcp_request bytes) [
  | some query ↦ (some query, report)
  | none ↦ settle (parse_rtu_request bytes) report
]

-- A response is read by the protocol of its request alone.
unfoldable pub parse_response : List ℕ → Protocol → Report → Option Reply × Report
parse_response bytes tcp report = elim (parse_tcp_response bytes) [
  | some reply ↦ (some reply, report)
  | none ↦ (none, parse_error report)
]
parse_response bytes rtu report = settle (parse_rtu_response bytes) report
