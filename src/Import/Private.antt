-- ===== src/Import/Private.antt =====
-- `importPrivateFrames` of app.js: the pairs of a pasted log as rules of a private connection. What
-- `api.getPrivateProtocol` answers is a parameter; `rules` is a copy of it.
use modbus_simulator_go.Base.{
  ℕ, ◌+◌, ◌≡◌, refl, sym, ap, ◌∙◌, inl, inr, Bool, true, false, ◌&&◌, ◌||◌, Bool-cases, Option,
  none, some, List, [], ◌∷◌, ◌++◌, map, Text, is_empty, trim, to_upper, text_eq, text_eq_iff, any,
  length, ◌==◌, All, arith, if◌then◌else◌,
}
use mathlib.Core.Bool.{false≢true}
use modbus_simulator_go.Report.{PrivateReport, empty_private_report}
use modbus_simulator_go.Naming.{next_private_import_rule_name}
use modbus_simulator_go.Editor.{or_empty}
use modbus_simulator_go.Drafts.{ServedRule, Served, or_else}
use modbus_simulator_go.Pairing.{
  Pair, PrivateMessage, Encoding, hex_encoding, ascii_encoding, parse_private_frame_pairs,
}

-- `Number(rule.matchMode || 0) === 0 && …`
abbrev pub answers : Text → ServedRule → Bool
answers request_hex rule =
    rule.match_mode == 0 && text_eq (to_upper (trim rule.request_hex)) request_hex

-- `rules[existingIndex].responseHex = responseHex` at the index that `findIndex` returns.
unfoldable pub set_response : Text → Text → List ServedRule → List ServedRule
set_response request_hex response_hex [] = []
set_response request_hex response_hex (rule ∷ rules) =
    if answers request_hex rule
    then record rule { response_hex = response_hex } ∷ rules
    else rule ∷ set_response request_hex response_hex rules

-- The rule that is pushed where none is found.
unfoldable pub imported_rule : Text → Text → List ServedRule → ServedRule
imported_rule request_hex response_hex rules = record {
  name = or_empty (next_private_import_rule_name (map (λ r. r.name) rules));
  match_mode = 0;
  request_hex = request_hex;
  response_hex = response_hex;
}

abbrev pub detected : Encoding → PrivateReport → PrivateReport
detected hex_encoding report = record report { hex_detected = report.hex_detected + 1 }
detected ascii_encoding report = record report { ascii_detected = report.ascii_detected + 1 }

abbrev pub is_blank : Pair PrivateMessage → Bool
is_blank pair = is_empty pair.send.hex || is_empty pair.receive.hex

-- The loop body: the rules and the report.
unfoldable pub import_private_pair :
    Pair PrivateMessage → List ServedRule × PrivateReport → List ServedRule × PrivateReport
unfolding set_response imported_rule
import_private_pair pair (rules, report) =
    let request_hex = pair.send.hex in
    let response_hex = pair.receive.hex in
    let seen = detected pair.receive.encoding (detected pair.send.encoding report) in
    if is_blank pair
    then (rules, report)
    else if any (answers request_hex) rules
    then (
      set_response request_hex response_hex rules,
      record seen { updated_rules = seen.updated_rules + 1; processed = seen.processed + 1 },
    )
    else (
      rules ++ imported_rule request_hex response_hex rules ∷ [],
      record seen { created_rules = seen.created_rules + 1; processed = seen.processed + 1 },
    )

unfoldable pub import_private_pairs :
    List (Pair PrivateMessage) → List ServedRule × PrivateReport → List ServedRule × PrivateReport
import_private_pairs [] r = r
import_private_pairs (pair ∷ pairs) r = import_private_pairs pairs (import_private_pair pair r)

-- The response of the first rule that answers a request exactly.
abbrev pub response_to : Text → List ServedRule → Option Text
response_to request [] = none
response_to request (rule ∷ rules) =
    if answers request rule then some rule.response_hex else response_to request rules

-- The abstract view: a table of responses, in which each pair writes its own.
abbrev pub table_after : Text → List (Pair PrivateMessage) → Option Text → Option Text
table_after request [] before = before
table_after request (pair ∷ pairs) before = table_after request pairs (
    if is_blank pair
    then before
    else (if text_eq pair.send.hex request then some pair.receive.hex else before))

-- A request as a pair has it: in upper case, with no blank at its ends.
abbrev pub IsNormal : Pair PrivateMessage → Type 0
IsNormal pair = to_upper (trim pair.send.hex) ≡ pair.send.hex

response_to-set_response :
    (request response r : Text) (rules : List ServedRule)
    → any (answers request) rules ≡ true
    → response_to r (set_response request response rules)
      ≡ (if text_eq request r then some response else response_to r rules)
unfolding set_response
response_to-set_response request response r [] h = cc
response_to-set_response request response r (rule ∷ rules) h =
    let mine = to_upper (trim rule.request_hex) in
    ground (
      arith,
      text_eq_iff mine request,
      text_eq_iff mine r,
      text_eq_iff request r,
      response_to-set_response request response r rules,
    )

response_to-append :
    (r : Text) (rules : List ServedRule) (rule : ServedRule)
    → response_to r (rules ++ rule ∷ [])
      ≡ (if any (answers r) rules then response_to r rules else response_to r (rule ∷ []))
response_to-append r [] rule = refl
response_to-append r (first ∷ rules) rule = ground (arith, response_to-append r rules rule)

no_response :
    (r : Text) (rules : List ServedRule)
    → any (answers r) rules ≡ false
    → response_to r rules ≡ none
no_response r [] h = refl
no_response r (rule ∷ rules) h = ground (arith, no_response r rules)

response_to-imported :
    (request response r : Text) (rules : List ServedRule)
    → to_upper (trim request) ≡ request
    → any (answers request) rules ≡ false
    → response_to r (rules ++ imported_rule request response rules ∷ [])
      ≡ (if text_eq request r then some response else response_to r rules)
unfolding imported_rule
response_to-imported request response r rules normal new =
    elim (Bool-cases (any (answers r) rules)) [
      | inl old ↦
          let other : text_eq request r ≡ false = elim (Bool-cases (text_eq request r)) [
            | inl same ↦ absurd (
                false≢true (
                  sym new
                  ∙ (ap (λ t. any (answers t) rules) ((text_eq_iff request r).0 same) ∙ old)))
            | inr ne ↦ ne
          ] in
          response_to-append r rules (imported_rule request response rules) ∙ rw (old, other) refl
      | inr none_yet ↦
          response_to-append r rules (imported_rule request response rules)
          ∙ rw (none_yet, normal, no_response r rules none_yet) refl
    ]

-- One pair is one write to the table of responses.
import_private_pair_lem :
    (r : Text) (pair : Pair PrivateMessage) (rules : List ServedRule) (report : PrivateReport)
    → IsNormal pair
    → response_to r (import_private_pair pair (rules, report)).0 ≡ (
        if is_blank pair
        then response_to r rules
        else (if text_eq pair.send.hex r then some pair.receive.hex else response_to r rules))
unfolding import_private_pair
import_private_pair_lem r pair rules report normal = elim (Bool-cases (is_blank pair)) [
  | inl blank ↦ rw blank refl
  | inr full ↦ elim (Bool-cases (any (answers pair.send.hex) rules)) [
    | inl old ↦ rw (full, old) (response_to-set_response pair.send.hex pair.receive.hex r rules old)
    | inr new ↦
        rw (full, new) (response_to-imported pair.send.hex pair.receive.hex r rules normal new)
  ]
]

-- The import refines a table of responses: where every request of the log is in upper case with no
-- blank at its ends, the response to a request is, afterwards, that of the last complete pair with
-- that request, and the response from before where no pair has it.
pub import_private_pairs-table_after :
    (r : Text) (pairs : List (Pair PrivateMessage)) (rules : List ServedRule)
    (report : PrivateReport)
    → All IsNormal pairs
    → response_to r (import_private_pairs pairs (rules, report)).0
      ≡ table_after r pairs (response_to r rules)
unfolding import_private_pairs
import_private_pairs-table_after r [] rules report h = refl
import_private_pairs-table_after r (pair ∷ pairs) rules report (h, hs) =
    import_private_pairs-table_after r pairs (import_private_pair pair (rules, report)).0
      (import_private_pair pair (rules, report)).1 hs
    ∙ ap (table_after r pairs) (import_private_pair_lem r pair rules report h)

-- The copy of the rules that the server has, none when it does not answer.
abbrev pub copied : Option Served → List ServedRule
copied none = []
copied (some cfg) = cfg.rules

-- `config.name || connName`
abbrev pub saved_name : Option Served → Text → Text
saved_name none conn_name = conn_name
saved_name (some cfg) conn_name = or_else cfg.name conn_name

-- The name of the connection in the tree, and what the server has; the body that is saved, and the
-- report.
unfoldable pub import_private_frames :
    (Text → List ℕ) → Text → Option Served → Text → Served × PrivateReport
import_private_frames encode conn_name config raw_text =
    let (pairs, report) = parse_private_frame_pairs encode raw_text empty_private_report in
    let (rules, report') =
      import_private_pairs pairs (copied config, record report { pairs = length pairs }) in
    (record { name = saved_name config conn_name; rules = rules }, report')
