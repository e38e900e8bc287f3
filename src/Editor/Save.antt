-- ===== src/Editor/Save.antt =====
-- What `buildSavePayload` returns, and which error it throws.
use modbus_simulator_go.Base.{
  subst, ℕ, ◌+◌, ◌≡◌, refl, true, false, List, [], ◌∷◌, is_empty, trim, arith,
}
use modbus_simulator_go.Template.{accepted, normalize_hex_template}
use modbus_simulator_go.Editor.{Row, SavedRule, Saved, payload, thrown, save_rule, save_rules}

-- A saved rule belongs to its row: both templates were accepted as not empty, and the name,
-- trimmed, is not empty.
pub record Belongs (row : Row) (rule : SavedRule) : Type 0 where
  pub request : normalize_hex_template row.send_hex false false ≡ accepted rule.request_hex
  pub response : normalize_hex_template row.return_hex true false ≡ accepted rule.response_hex
  pub named : rule.name ≡ trim row.name
  pub name_given : is_empty rule.name ≡ false
  pub mode : rule.match_mode ≡ row.match_mode

abbrev pub AllBelong : List Row → List SavedRule → Type 0
AllBelong [] [] = Unit
AllBelong (row ∷ rows) (rule ∷ rules) = Belongs row rule × AllBelong rows rules
AllBelong _ _ = ⊥

save_rule-Belongs :
    (index : ℕ) (row : Row) (rule : SavedRule)
    → save_rule index row ≡ payload rule
    → Belongs row rule
unfolding save_rule
save_rule-Belongs index row rule h = ground arith

later-AllBelong :
    (row : Row) (rows : List Row) (first : Saved SavedRule) (later : Saved (List SavedRule))
    → ((rule : SavedRule) → first ≡ payload rule → Belongs row rule)
    → ((rules : List SavedRule) → later ≡ payload rules → AllBelong rows rules)
    → (rules : List SavedRule)
    → (elim first [
      | thrown e ↦ thrown e
      | payload rule ↦ elim later [ thrown e ↦ thrown e | payload saved ↦ payload (rule ∷ saved) ]
    ])
      ≡ payload rules
    → AllBelong (row ∷ rows) rules
later-AllBelong row rows (thrown e) later one rest rules h = absurd (ground arith)
later-AllBelong row rows (payload rule) (thrown e) one rest rules h = absurd (ground arith)
later-AllBelong row rows (payload rule) (payload saved) one rest rules h =
    subst (AllBelong (row ∷ rows)) {x = rule ∷ saved} (ground arith)
      (one rule refl, rest saved refl)

-- Where no error is thrown there is one saved rule for each row, in order, whose templates are
-- those of the row, accepted and not empty, and whose name is that of the row, trimmed and not
-- empty.
pub save_rules-AllBelong :
    (index : ℕ) (rows : List Row) (rules : List SavedRule)
    → save_rules index rows ≡ payload rules
    → AllBelong rows rules
unfolding save_rules
save_rules-AllBelong index [] [] h = tt
save_rules-AllBelong index [] (rule ∷ rules) h = absurd (ground arith)
save_rules-AllBelong index (row ∷ rows) rules h =
    later-AllBelong row rows (save_rule index row) (save_rules (index + 1) rows)
      (save_rule-Belongs index row) (save_rules-AllBelong (index + 1) rows) rules h
