-- ===== src/Editor/Fields.antt =====
-- What an edit in the rule table does to the other form of its field.
use modbus_simulator_go.Base.{
  ◌≡◌, refl, ap, sym, subst, true, false, List, map, ℕ, All, Option, none, some, Text,
}
use modbus_simulator_go.Template.{Outcome, accepted, refused, ascii_to_hex_template}
use modbus_simulator_go.Hex.{bytes_to_hex}
use modbus_simulator_go.Template.{normalize_hex_template, hex_to_ascii_template}
use modbus_simulator_go.Template.RoundTrip.{
  IsPlainByte, plain-IsByte, normalize-hex_text, hex_text-bytes_to_hex,
  ascii_to_hex_template-hex_to_ascii_template,
}
use modbus_simulator_go.Editor.{
  send_hex_field, hex_sent, value_of, Row, sync_rule_field, send_ascii_field, return_ascii_field,
  ascii_sent, ascii_returned, template, Fault,
}

abbrev pub Synced : Option Fault → Text → Text → Outcome → Type 0
Synced fault before after (accepted v) = (fault ≡ none) × (after ≡ v)
Synced fault before after (refused v why) = (fault ≡ some (template why)) × (after ≡ before)

ascii_sent-Synced :
    (row : Row) (o : Outcome)
    → Synced (ascii_sent row o).errors.send_ascii row.send_hex (ascii_sent row o).send_hex o
ascii_sent-Synced row (accepted v) = (refl, refl)
ascii_sent-Synced row (refused v why) = (refl, refl)

ascii_returned-Synced :
    (row : Row) (o : Outcome)
    → Synced
        (ascii_returned row o).errors.return_ascii
        row.return_hex
        (ascii_returned row o).return_hex
        o
ascii_returned-Synced row (accepted v) = (refl, refl)
ascii_returned-Synced row (refused v why) = (refl, refl)

-- An edit of an ASCII field: where the text converts, the hex field is its conversion and the ASCII
-- field has no error; otherwise the hex field is as before and the error says why.
pub sync_rule_field-ascii :
    (row : Row) (raw : Text)
    → (let r = sync_rule_field row send_ascii_field raw in
        Synced r.errors.send_ascii row.send_hex r.send_hex (ascii_to_hex_template raw false))
      × (let r = sync_rule_field row return_ascii_field raw in
          Synced r.errors.return_ascii row.return_hex r.return_hex (ascii_to_hex_template raw true))
unfolding sync_rule_field
sync_rule_field-ascii row raw = (
  ascii_sent-Synced (record row { send_ascii = raw }) (ascii_to_hex_template raw false),
  ascii_returned-Synced (record row { return_ascii = raw }) (ascii_to_hex_template raw true),
)

-- An accepted hex edit.
hex_edit :
    (row : Row) (hex text : Text)
    → normalize_hex_template hex false true ≡ accepted hex
    → hex_to_ascii_template hex false ≡ accepted text
    → sync_rule_field row send_hex_field hex
      ≡ hex_sent (record row { send_hex = hex }) (accepted text)
unfolding sync_rule_field
hex_edit row hex text normal there =
    rw (sync_rule_field, normal, there)
      (ap (λ o. hex_sent (record row { send_hex = value_of o }) (accepted text)) normal)

ascii_edit :
    (row : Row) (hex text : Text)
    → ascii_to_hex_template text false ≡ accepted hex
    → sync_rule_field row send_ascii_field text
      ≡ ascii_sent (record row { send_ascii = text }) (accepted hex)
unfolding sync_rule_field
ascii_edit row hex text again = ap (ascii_sent (record row { send_ascii = text })) again

-- The two edits after one another: the hex `hex` is accepted and shown as `text`, which is read as
-- `hex` again.
ascii_after_hex :
    (row : Row) (hex text : Text)
    → normalize_hex_template hex false true ≡ accepted hex
    → hex_to_ascii_template hex false ≡ accepted text
    → ascii_to_hex_template text false ≡ accepted hex
    → (let shown = sync_rule_field row send_hex_field hex in
        let back = sync_rule_field shown send_ascii_field shown.send_ascii in
        (shown.errors.send_hex ≡ none)
        × (shown.send_hex ≡ hex)
        × (back.errors.send_ascii ≡ none)
        × (back.send_hex ≡ hex))
ascii_after_hex row hex text normal there again = rw (hex_edit row hex text normal there) (
    rw (ascii_edit (hex_sent (record row { send_hex = hex }) (accepted text)) hex text again)
      (refl, refl, refl, refl))

-- The hex of bytes below 256, the opening brace not among them, is accepted in the field of the
-- request, and editing the ASCII text that is then shown gives the same hex again, without an
-- error either time.
pub sync_rule_field_back :
    (row : Row) (bs : List ℕ)
    → All IsPlainByte bs
    → (let hex = bytes_to_hex (map some bs) in
        let shown = sync_rule_field row send_hex_field hex in
        let back = sync_rule_field shown send_ascii_field shown.send_ascii in
        (shown.errors.send_hex ≡ none)
        × (shown.send_hex ≡ hex)
        × (back.errors.send_ascii ≡ none)
        × (back.send_hex ≡ hex))
sync_rule_field_back row bs h =
    let (text, there, back) = ascii_to_hex_template-hex_to_ascii_template bs h in
    let each = plain-IsByte bs h in
    let hex = hex_text-bytes_to_hex bs each in
    let normal =
      subst (λ t. normalize_hex_template t false true ≡ accepted t) (sym hex)
        (normalize-hex_text bs each) in
    ascii_after_hex row (bytes_to_hex (map some bs)) text normal there back
