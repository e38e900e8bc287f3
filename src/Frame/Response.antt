-- ===== src/Frame/Response.antt =====
-- Responses as the Modbus specification lays them out are read back; exception responses are not.
use modbus_simulator_go.Base.{
  ℕ, ◌+◌, ◌<◌, ◌≤◌, ◌≡◌, ◌⊎◌, inl, inr, refl, ap, List, [], ◌∷◌, ◌++◌, none, some, All, ltb, leb,
  if◌then◌else◌, true, arith, length, take, length-append,
}
use modbus_simulator_go.Base.{checks_below, checked_below, not}
use modbus_simulator_go.Crc.{validate_crc}
use modbus_simulator_go.Hex.Bytes.{IsByte}
use modbus_simulator_go.Report.{Report, crc_error, parse_error}
use modbus_simulator_go.Frame.{
  Reply, Protocol, tcp, rtu, at, word_at, is_exception, parse_tcp_response, parse_rtu_response,
  parse_response, no_frame, crc_failed, frame,
}
use modbus_simulator_go.Frame.Request.{with_crc, with_crc-valid, bytes_of_word}

-- A normal reply: a code without the top bit, and at most 250 bytes of data.
pub record IsReply (r : Reply) : Type 0 where
  pub unit_fits : r.unit_id < 256
  pub code_normal : r.function_code < 128
  pub bytes_bound : All IsByte r.bytes
  pub bytes_few : length r.bytes ≤ 250

abbrev pub tcp_reply_frame : ℕ → ℕ → Reply → List ℕ
tcp_reply_frame hi lo r =
    hi
    ∷ lo
    ∷ 0
    ∷ 0
    ∷ 0
    ∷ (3 + length r.bytes)
    ∷ r.unit_id
    ∷ r.function_code
    ∷ length r.bytes
    ∷ r.bytes

abbrev pub rtu_reply_frame : Reply → List ℕ
rtu_reply_frame r = with_crc (r.unit_id ∷ r.function_code ∷ length r.bytes ∷ r.bytes)

exception_table :
    checks_below 256 (λ c. if ltb c 128 then not (is_exception c) else is_exception c) ≡ true
unfolding checks_below
exception_table = refl

-- The top bit marks the exceptions: codes from 128.
pub is_exception_lem : (c : ℕ) → c < 256 → is_exception c ≡ leb 128 c
is_exception_lem c h = ground (arith, checked_below 256 _ c exception_table h)

take-length : (bs rest : List ℕ) → take (length bs) (bs ++ rest) ≡ bs
take-length [] rest = refl
take-length (b ∷ bs) rest = ap (◌∷◌ b) (take-length bs rest)

take_all : (bs : List ℕ) → take (length bs) bs ≡ bs
take_all [] = refl
take_all (b ∷ bs) = ap (◌∷◌ b) (take_all bs)

-- A normal TCP reply is read back: unit, code and exactly its data bytes.
pub parse_response_tcp :
    (r : Reply) (hi lo : ℕ) (report : Report)
    → r.protocol ≡ tcp
    → IsReply r
    → parse_response (tcp_reply_frame hi lo r) tcp report ≡ (some r, report)
unfolding parse_response parse_tcp_response word_at
parse_response_tcp r hi lo report p f = ground (
  arith,
  bytes_of_word (3 + length r.bytes) (omega (arith, f.bytes_few)),
  is_exception_lem r.function_code (omega (arith, f.code_normal)),
  take_all r.bytes,
)

reply_message-bytes :
    (r : Reply) → IsReply r → All IsByte (r.unit_id ∷ r.function_code ∷ length r.bytes ∷ r.bytes)
reply_message-bytes r f =
    (f.unit_fits, (omega (arith, f.code_normal), (omega (arith, f.bytes_few), f.bytes_bound)))

abbrev reply_message : Reply → List ℕ
reply_message r = r.unit_id ∷ r.function_code ∷ length r.bytes ∷ r.bytes

-- The RTU parser on a reply with any two bytes behind it that pass the checksum test.
read_rtu_reply :
    (r : Reply) (lo hi : ℕ)
    → r.protocol ≡ rtu
    → IsReply r
    → validate_crc (reply_message r ++ lo ∷ hi ∷ []) ≡ true
    → parse_rtu_response (reply_message r ++ lo ∷ hi ∷ []) ≡ frame r
unfolding parse_rtu_response
read_rtu_reply r lo hi p f valid = ground (
  arith,
  is_exception_lem r.function_code (omega (arith, f.code_normal)),
  length-append r.bytes (lo ∷ hi ∷ []),
  take-length r.bytes (lo ∷ hi ∷ []),
)

-- A normal RTU reply with its checksum is read back: unit, code and exactly its data bytes.
pub parse_response_rtu :
    (r : Reply) (report : Report)
    → r.protocol ≡ rtu
    → IsReply r
    → parse_response (rtu_reply_frame r) rtu report ≡ (some r, report)
unfolding parse_response
parse_response_rtu r report p f =
    let valid = with_crc-valid (reply_message r) (reply_message-bytes r f) (cc) in
    rw (read_rtu_reply r _ _ p f valid)

-- The place of the function code in a frame.
abbrev pub code_place : Protocol → ℕ
code_place tcp = 7
code_place rtu = 1

tcp_exception :
    (bytes : List ℕ) → at bytes 7 < 256 → 128 ≤ at bytes 7 → parse_tcp_response bytes ≡ none
unfolding parse_tcp_response
tcp_exception bytes h top = ground (arith, is_exception_lem (at bytes 7) h)

rtu_exception :
    (bytes : List ℕ)
    → at bytes 1 < 256
    → 128 ≤ at bytes 1
    → (parse_rtu_response bytes ≡ no_frame) ⊎ (parse_rtu_response bytes ≡ crc_failed)
unfolding parse_rtu_response
rtu_exception bytes h top = ground (arith, is_exception_lem (at bytes 1) h)

-- A frame whose function code has its top bit set, an exception response, is never accepted: it
-- adds one to the parse errors or, over RTU, to the checksum errors.
pub parse_response_exception :
    (bytes : List ℕ) (p : Protocol) (report : Report)
    → at bytes (code_place p) < 256
    → 128 ≤ at bytes (code_place p)
    → (parse_response bytes p report ≡ (none, parse_error report))
      ⊎ ((p ≡ rtu) × (parse_response bytes p report ≡ (none, crc_error report)))
unfolding parse_response
parse_response_exception bytes tcp report h top =
    inl (rw (tcp_exception bytes h top, parse_response))
parse_response_exception bytes rtu report h top = elim (rtu_exception bytes h top) [
  | inl e ↦ inl (rw e)
  | inr e ↦ inr (refl, rw e)
]
