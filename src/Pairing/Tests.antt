-- ===== src/Pairing/Tests.antt =====
-- Runs of the log readers, and the theorems at concrete inputs.
use modbus_simulator_go.Base.{ℕ, List, ◌+◌, ◌*◌, ◌≡◌, refl, [], ◌∷◌, arith, Text, codes, length}
use modbus_simulator_go.Report.{empty_report}
use modbus_simulator_go.Pairing.{Entry, sent, received, parse_frame_pairs, split_lines, scan_marks}
use modbus_simulator_go.Pairing.Lines.{marked, parse_frame_pairs_accounts}
use modbus_simulator_go.Pairing.Marks.{scan_marks_enough}

sample_lines : split_lines (codes "ab\r\nc\r\nd") ≡ codes "ab" ∷ codes "c" ∷ codes "d" ∷ []
unfolding split_lines
sample_lines = refl

abbrev log : Text
log = codes "发送 <01>\n接收 <02>\n发送 none"

sample_entries : List (Entry ℕ)
sample_entries =
    record { direction = sent; content = 1 }
    ∷ record { direction = sent; content = 2 }
    ∷ record { direction = received; content = 3 }
    ∷ []

parse_frame_pairs_accounts_example :
    (let (pairs, after) = parse_frame_pairs log empty_report in
      2 * length pairs + after.unmatched_sends + after.unmatched_receives + after.parse_errors
      ≡ empty_report.unmatched_sends
        + empty_report.unmatched_receives
        + empty_report.parse_errors
        + marked (split_lines log))
parse_frame_pairs_accounts_example = parse_frame_pairs_accounts log empty_report

scan_marks_enough_example :
    scan_marks (λ s. s) 40 (codes "【发送】<0D>") ≡ scan_marks (λ s. s) 9 (codes "【发送】<0D>")
scan_marks_enough_example =
    scan_marks_enough (λ s. s) 40 9 (codes "【发送】<0D>") (omega arith) (omega arith)
