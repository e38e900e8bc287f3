-- ===== src/Frame/Tests.antt =====
-- The theorems on frames at concrete inputs.
use modbus_simulator_go.Base.{
  ℕ, List, ◌<◌, ◌≤◌, ◌≡◌, ◌⊎◌, refl, some, none, [], ◌∷◌, arith, length, false,
}
use modbus_simulator_go.Crc.{validate_crc, crc16, crc_from, crc_bits, crc_bit}
use modbus_simulator_go.Report.{empty_report, crc_error, parse_error}
use modbus_simulator_go.Frame.{
  Query, Reply, rtu, parse_request, parse_rtu_request, parse_tcp_request, word_at,
}
use modbus_simulator_go.Frame.Request.{rtu_frame, parse_request_rtu, parse_request_counts}

abbrev read_inputs : Query
read_inputs = record {
  protocol = rtu;
  unit_id = 1;
  function_code = 4;
  start_address = 20;
  quantity = 1;
}

abbrev answer : Reply
answer = record { protocol = rtu; unit_id = 1; function_code = 4; bytes = 0 ∷ 1 ∷ [] }

-- The request of the sample log.
sample_request :
    parse_request (0x01 ∷ 0x04 ∷ 0x00 ∷ 0x14 ∷ 0x00 ∷ 0x01 ∷ 0x71 ∷ 0xce ∷ []) empty_report
    ≡ (some read_inputs, empty_report)
unfolding parse_request parse_tcp_request parse_rtu_request word_at validate_crc crc16 crc_from
    crc_bits crc_bit
sample_request = refl

parse_request_rtu_example :
    parse_request (rtu_frame read_inputs) empty_report ≡ (some read_inputs, empty_report)
parse_request_rtu_example = parse_request_rtu read_inputs empty_report refl (omega arith)

abbrev short : List ℕ
short = 1 ∷ 4 ∷ []

parse_request_counts_example :
    ((q : Query) × (parse_request short empty_report ≡ (some q, empty_report)))
    ⊎ ((parse_request short empty_report ≡ (none, crc_error empty_report))
        × (8 ≤ length short)
        × (validate_crc short ≡ false))
    ⊎ ((parse_request short empty_report ≡ (none, parse_error empty_report)) × (length short < 8))
parse_request_counts_example = parse_request_counts short empty_report

abbrev refusal : List ℕ
refusal = 1 ∷ 0x84 ∷ 2 ∷ 0xc2 ∷ 0xc1 ∷ []
