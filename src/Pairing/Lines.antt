-- ===== src/Pairing/Lines.antt =====
-- `parseFramePairs` on a whole log: every line with a direction is accounted for, and a pair's
-- receive stands on a later line than its send.
use modbus_simulator_go.Base.{
  ℕ, ◌+◌, ◌*◌, ◌≤◌, ◌<◌, ◌≡◌, refl, List, [], ◌∷◌, length, arith, All, Option, none, some, Text,
}
use modbus_simulator_go.Report.{Report}
use modbus_simulator_go.Pairing.{
  Direction, Entry, direction_of, split_lines, Message, Line, silent, unread, message, add_line,
  read_line, read_lines, parse_frame_pairs,
}
use modbus_simulator_go.Pairing.Queue.{
  pair_entries-length, Increasing, pair_entries-answers, IsAnswer,
}

abbrev mark_count : Option Direction → ℕ
mark_count none = 0
mark_count (some d) = 1

-- The lines that name a direction.
abbrev pub marked : List Text → ℕ
marked [] = 0
marked (line ∷ lines) = mark_count (direction_of line) + marked lines

abbrev line_count : Line → ℕ
line_count silent = 0
line_count unread = 1
line_count (message d bytes) = 1

read_line-count : (line : Text) → line_count (read_line line) ≡ mark_count (direction_of line)
unfolding read_line
read_line-count line = ground arith

-- One line's part of the entries and errors.
add_line-count :
    (n : ℕ) (l : Line) (found : List (Entry Message) × ℕ)
    → length (add_line n l found).0 + (add_line n l found).1
      ≡ length found.0 + found.1 + line_count l
unfolding add_line
add_line-count n silent found = omega arith
add_line-count n unread found = omega arith
add_line-count n (message d bytes) found = omega arith

read_lines-marked :
    (idx : ℕ) (lines : List Text)
    → length (read_lines idx lines).0 + (read_lines idx lines).1 ≡ marked lines
unfolding read_lines
read_lines-marked idx [] = refl
read_lines-marked idx (line ∷ lines) = omega (
  arith,
  add_line-count (idx + 1) (read_line line) (read_lines (idx + 1) lines),
  read_line-count line,
  read_lines-marked (idx + 1) lines,
)

abbrev pub line_of : Message → ℕ
line_of m = m.line_no

Increasing-mono :
    (t u : ℕ) (es : List (Entry Message))
    → t ≤ u
    → Increasing line_of u es
    → Increasing line_of t es
Increasing-mono t u [] h k = tt
Increasing-mono t u (e ∷ es) h (k, ks) = (omega arith, ks)

add_line-Increasing :
    (n t : ℕ) (l : Line) (found : List (Entry Message) × ℕ)
    → t < n
    → Increasing line_of n found.0
    → Increasing line_of t (add_line n l found).0
unfolding add_line
add_line-Increasing n t silent found h k = Increasing-mono t n found.0 (omega arith) k
add_line-Increasing n t unread found h k = Increasing-mono t n found.0 (omega arith) k
add_line-Increasing n t (message d bytes) found h k = (h, k)

read_lines-Increasing :
    (idx t : ℕ) (lines : List Text) → t ≤ idx → Increasing line_of t (read_lines idx lines).0
unfolding read_lines
read_lines-Increasing idx t [] h = tt
read_lines-Increasing idx t (line ∷ lines) h =
    add_line-Increasing (idx + 1) t (read_line line) (read_lines (idx + 1) lines) (omega arith)
      (read_lines-Increasing (idx + 1) (idx + 1) lines (omega arith))

-- Every line that names a direction is half of a pair, a send without an answer, a receive without
-- a send, or a parse error, and the report counts it so.
pub parse_frame_pairs_accounts :
    (text : Text) (report : Report)
    → (let (pairs, after) = parse_frame_pairs text report in
        2 * length pairs + after.unmatched_sends + after.unmatched_receives + after.parse_errors
        ≡ report.unmatched_sends
          + report.unmatched_receives
          + report.parse_errors
          + marked (split_lines text))
unfolding parse_frame_pairs
parse_frame_pairs_accounts text report = omega (
  arith,
  read_lines-marked 0 (split_lines text),
  pair_entries-length (read_lines 0 (split_lines text)).0,
)

-- In every pair the receive stands on a later line of the log than the send.
pub parse_frame_pairs-answers :
    (text : Text) (report : Report) → All (IsAnswer line_of) (parse_frame_pairs text report).0
unfolding parse_frame_pairs
parse_frame_pairs-answers text report =
    pair_entries-answers line_of (read_lines 0 (split_lines text)).0 0
      (read_lines-Increasing 0 0 (split_lines text) (omega arith))
