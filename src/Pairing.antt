-- ===== src/Pairing.antt =====
-- `parseFramePairs`, `parsePrivateFramePairs` and `parsePrivatePayload` of app.js: the messages in a
-- pasted log, and the pairs of a send and the receive that answers it. A search loop over the text
-- that moves a cursor is a recursion on the text behind the cursor, with fuel for one step per
-- code unit.
pub mod Queue
pub mod Lines
pub mod Marks
mod Tests
use modbus_simulator_go.Base.{
  ℕ, zero, suc, ◌+◌, ◌-◌, ◌%◌, Bool, true, false, not, ◌&&◌, ◌||◌, Option, none, some, List, [],
  ◌∷◌, ◌++◌, map, Text, codes, is_space, is_upper_hex, upper_char, to_upper, text_eq, is_empty,
  length, drop, keep, every, ltb, ◌==◌, if◌then◌else◌,
}
use modbus_simulator_go.Hex.{Payload, parse_hex_payload, bytes_to_hex}
use modbus_simulator_go.Report.{Report, PrivateReport}

pub data Direction : Type 0 where
  sent received : Direction

-- An entry of the log: its direction, its bytes and what the caller keeps beside them.
pub record Entry (A : Type 0) : Type 0 where
  pub direction : Direction
  pub content : A

pub record Pair (A : Type 0) : Type 0 where
  pub send : A
  pub receive : A

-- The variables of the loop over the entries.
pub record Pairing (A : Type 0) : Type 0 where
  pub queue : List A
  pub pairs : List (Pair A)
  pub unmatched_receives : ℕ

module _ {A : Type 0} where
  -- A receive takes the oldest send that waits.
  unfoldable pub pair_receive : A → Pairing A → List A → Pairing A
  pair_receive content p [] = record p { unmatched_receives = p.unmatched_receives + 1 }
  pair_receive content p (send ∷ queue) = record p {
    queue = queue;
    pairs = p.pairs ++ record { send = send; receive = content } ∷ [];
  }

  unfoldable pub pair_step : Direction → A → Pairing A → Pairing A
  unfolding pair_receive
  pair_step sent content p = record p { queue = p.queue ++ content ∷ [] }
  pair_step received content p = pair_receive content p p.queue

  unfoldable pub pair_from : List (Entry A) → Pairing A → Pairing A
  pair_from [] p = p
  pair_from (e ∷ entries) p = pair_from entries (pair_step e.direction e.content p)

  unfoldable pub pair_entries : List (Entry A) → Pairing A
  pair_entries entries =
      pair_from entries (record { queue = []; pairs = []; unmatched_receives = 0 })

-- Whether `s` begins with `word`.
abbrev pub begins : Text → Text → Bool
begins [] s = true
begins (w ∷ word) [] = false
begins (w ∷ word) (c ∷ s) = w == c && begins word s

abbrev pub send_word : Text
send_word = codes "发送"

abbrev pub receive_word : Text
receive_word = codes "接收"

-- `line.match(/(发送|接收)/)`: the first of the two words.
unfoldable pub direction_of : Text → Option Direction
direction_of [] = none
direction_of (c ∷ s) =
    if begins send_word (c ∷ s)
    then some sent
    else if begins receive_word (c ∷ s)
    then some received
    else direction_of s

-- The text before the next `>`, if there is one.
unfoldable pub until_close : Text → Option Text
until_close [] = none
until_close (c ∷ s) =
    let rest = until_close s in
    if c == b'>' then some [] else elim rest [ none ↦ none | some t ↦ some (c ∷ t) ]

-- `line.match(/<([^>]+)>/)`: what the first brackets with something inside them hold.
unfoldable pub bracketed : Text → Option Text
unfolding until_close
bracketed [] = none
bracketed (c ∷ s) =
    let later = bracketed s in
    if c == b'<'
    then elim (until_close s) [
      | none ↦ later
      | some inside ↦ (if is_empty inside then later else some inside)
    ]
    else later

put_first : ℕ → List Text → List Text
put_first c [] = (c ∷ []) ∷ []
put_first c (line ∷ lines) = (c ∷ line) ∷ lines

-- `text.split(/\r?\n/)`: a line feed ends a line, with a carriage return right before it.
unfoldable pub split_lines : Text → List Text
unfolding put_first
split_lines [] = [] ∷ []
split_lines (c ∷ s) =
    let rest = split_lines s in
    if c == 10 then [] ∷ rest else if c == 13 && begins (10 ∷ []) s then rest else put_first c rest

-- What `parseFramePairs` keeps of a line.
pub record Message : Type 0 where
  pub bytes : List ℕ
  pub line_no : ℕ

-- One line: nothing, a parse error, or an entry.
pub data Line : Type 0 where
  silent : Line
  unread : Line
  message : Direction → List ℕ → Line

unfoldable pub read_line : Text → Line
unfolding direction_of bracketed parse_hex_payload
read_line line = elim (direction_of line) [
  | none ↦ silent
  | some direction ↦ elim (bracketed line) [
    | none ↦ unread
    | some inside ↦ elim (parse_hex_payload inside) [
      | none ↦ unread
      | some payload ↦ message direction payload.bytes
    ]
  ]
]

-- What the round for line number `line_no` adds in front of what the later rounds find.
unfoldable pub add_line : ℕ → Line → List (Entry Message) × ℕ → List (Entry Message) × ℕ
add_line line_no silent found = found
add_line line_no unread found = (found.0, found.1 + 1)
add_line line_no (message direction bytes) found = (
  record { direction = direction; content = record { bytes = bytes; line_no = line_no } } ∷ found.0,
  found.1,
)

-- `lines.forEach`, from index `idx` on: the entries, and the number of parse errors.
unfoldable pub read_lines : ℕ → List Text → List (Entry Message) × ℕ
read_lines idx [] = ([], 0)
read_lines idx (line ∷ lines) = add_line (idx + 1) (read_line line) (read_lines (idx + 1) lines)

unfoldable pub parse_frame_pairs : Text → Report → List (Pair Message) × Report
parse_frame_pairs text report =
    let (entries, errors) = read_lines 0 (split_lines text) in
    let paired = pair_entries entries in
    (
      paired.pairs,
      record report {
        parse_errors = report.parse_errors + errors;
        unmatched_receives = report.unmatched_receives + paired.unmatched_receives;
        unmatched_sends = report.unmatched_sends + length paired.queue;
      },
    )

abbrev send_mark : Text
send_mark = codes "【发送】"

abbrev receive_mark : Text
receive_mark = codes "【接收】"

-- The first mark of either kind, and the text from it on.
unfoldable pub next_mark : Text → Option (Direction × Text)
next_mark [] = none
next_mark (c ∷ s) =
    if begins send_mark (c ∷ s)
    then some (sent, c ∷ s)
    else if begins receive_mark (c ∷ s)
    then some (received, c ∷ s)
    else next_mark s

-- The text behind the next occurrence of a character.
unfoldable pub after : ℕ → Text → Option Text
after mark [] = none
after mark (c ∷ s) = if c == mark then some s else after mark s

pub data Encoding : Type 0 where
  hex_encoding ascii_encoding : Encoding

pub record PrivateMessage : Type 0 where
  pub bytes : List ℕ
  pub hex : Text
  pub encoding : Encoding

-- One turn of the search: no mark is left, a mark without a bracketed payload ends the search, or
-- a payload is found, with the text behind it.
pub data Found : Type 0 where
  nothing : Found
  broken : Found
  payload : Direction → Text → Text → Found

-- The payload between the brackets behind a mark.
unfoldable pub payload_after : Direction → Text → Found
payload_after direction from = elim (after b'<' from) [
  | none ↦ broken
  | some inside ↦ elim (until_close inside) [
    | none ↦ broken
    | some raw ↦ payload direction raw (drop (length raw + 1) inside)
  ]
]

unfoldable pub next_payload : Text → Found
unfolding payload_after next_mark after until_close
next_payload s = elim (next_mark s) [
  | none ↦ nothing
  | some (direction, from) ↦ payload_after direction from
]

unfoldable pub add_payload :
    Direction
    → Option PrivateMessage
    → List (Entry PrivateMessage) × ℕ
    → List (Entry PrivateMessage) × ℕ
add_payload direction none found = (found.0, found.1 + 1)
add_payload direction (some m) found =
    (record { direction = direction; content = m } ∷ found.0, found.1)

-- `new TextEncoder().encode` is the argument `encode`.
module _ (encode : Text → List ℕ) where
  unfoldable pub parse_private_payload : Text → Option PrivateMessage
  unfolding parse_hex_payload bytes_to_hex is_space is_upper_hex upper_char
  parse_private_payload raw =
      let compact_hex = to_upper (keep (λ c. not (is_space c)) raw) in
      let normalized = keep (λ c. not (c == 13)) raw in
      if not (is_empty compact_hex) && length compact_hex % 2 == 0 && every is_upper_hex compact_hex
      then elim (parse_hex_payload raw) [
        | none ↦ none
        | some p ↦ some (record { bytes = p.bytes; hex = p.hex; encoding = hex_encoding })
      ]
      else if is_empty normalized
      then none
      else some (record {
        bytes = encode normalized;
        hex = bytes_to_hex (map some (encode normalized));
        encoding = ascii_encoding;
      })

  -- The loop over the marks, on fuel: the entries, and the number of parse errors.
  unfoldable pub scan_marks : ℕ → Text → List (Entry PrivateMessage) × ℕ
  unfolding next_payload parse_private_payload add_payload
  scan_marks zero s = ([], 0)
  scan_marks (suc fuel) s = elim (next_payload s) [
    | nothing ↦ ([], 0)
    | broken ↦ ([], 1)
    | payload direction raw rest ↦
        add_payload direction (parse_private_payload raw) (scan_marks fuel rest)
  ]

  unfoldable pub parse_private_frame_pairs :
      Text → PrivateReport → List (Pair PrivateMessage) × PrivateReport
  parse_private_frame_pairs text report =
      let (entries, errors) = scan_marks (length text + 1) text in
      let paired = pair_entries entries in
      (
        paired.pairs,
        record report {
          parse_errors = report.parse_errors + errors;
          unmatched_receives = report.unmatched_receives + paired.unmatched_receives;
          unmatched_sends = report.unmatched_sends + length paired.queue;
        },
      )
