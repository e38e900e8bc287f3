-- ===== src/Import/Marks.antt =====
-- A pair of frames that is not read into an update leaves a fault in the report.
use modbus_simulator_go.Base.{
  ℕ, ◌+◌, ◌≤◌, ◌<◌, ◌≡◌, ◌∙◌, if_both, Option, none, some, List, length, arith,
}
use modbus_simulator_go.Report.{Report}
use modbus_simulator_go.Frame.{Protocol, tcp, rtu, Query, Reply, parse_request, parse_response}
use modbus_simulator_go.Import.{
  Update, read_pair, asked, answered, fit_reply, fit_warnings, is_read,
}

-- Everything in the report that can say why a pair was not processed.
abbrev pub faults : Report → ℕ
faults r = r.skipped_writes + r.crc_errors + r.parse_errors + r.warnings + length r.errors

-- The report after a pair that is left out: it is not processed, and there is a fault more.
abbrev pub IsFaulty : Report → Report → Type 0
IsFaulty before report = (report.processed ≡ before.processed) × (faults before < faults report)

-- The report while a pair is worked on: it is not processed yet, and no fault is taken away.
abbrev pub IsOpen : Report → Report → Type 0
IsOpen before report = (report.processed ≡ before.processed) × (faults before ≤ faults report)

-- A pair that is left out leaves a fault; one that is read takes none away.
abbrev pub Marked : {A : Type 0} → Report → Option A × Report → Type 0
Marked before (none, report) = IsFaulty before report
Marked before (some a, report) = IsOpen before report

pub IsFaulty-trans : (r s t : Report) → IsOpen r s → IsFaulty s t → IsFaulty r t
IsFaulty-trans r s t h k = (k.0 ∙ h.0, omega arith)

pub IsOpen-trans : (r s t : Report) → IsOpen r s → IsOpen s t → IsOpen r t
IsOpen-trans r s t h k = (k.0 ∙ h.0, omega arith)

parse_request-Marked :
    (bytes : List ℕ) (report : Report) → Marked report (parse_request bytes report)
unfolding parse_request
parse_request-Marked bytes report = ground arith

parse_response-Marked :
    (bytes : List ℕ) (p : Protocol) (report : Report)
    → Marked report (parse_response bytes p report)
unfolding parse_response
parse_response-Marked bytes tcp report = ground arith
parse_response-Marked bytes rtu report = ground arith

fit_reply-Marked :
    (req : Query) (resp : Reply) (report : Report) → Marked report (fit_reply req resp report)
unfolding fit_reply fit_warnings
fit_reply-Marked req resp report = ground arith

answered-Marked :
    (req : Query) (before : Report) (o : Option Reply × Report)
    → Marked before o
    → Marked before (answered req o)
answered-Marked req before (none, report) h = h
answered-Marked req before (some resp, report) h =
    later (fit_reply req resp report) (fit_reply-Marked req resp report)
  where
    later : (o : Option Update × Report) → Marked report o → Marked before o
    later (none, r) k = IsFaulty-trans before report r h k
    later (some u, r) k = IsOpen-trans before report r h k

asked-Marked :
    (receive : List ℕ) (before : Report) (o : Option Query × Report)
    → Marked before o
    → Marked before (asked receive o)
asked-Marked receive before (none, report) h = h
asked-Marked receive before (some req, report) h =
    if_both (Marked before) (is_read req.function_code) _ _
      (answered-Marked req before _ (
        later (parse_response receive req.protocol report)
          (parse_response-Marked receive req.protocol report)))
      (ground arith)
  where
    later : (o : Option Reply × Report) → Marked report o → Marked before o
    later (none, r) k = IsFaulty-trans before report r h k
    later (some u, r) k = IsOpen-trans before report r h k

pub read_pair-Marked :
    (send receive : List ℕ) (report : Report) → Marked report (read_pair send receive report)
unfolding read_pair
read_pair-Marked send receive report =
    asked-Marked receive report (parse_request send report) (parse_request-Marked send report)
