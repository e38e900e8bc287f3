-- ===== src/Pairing/Marks.antt =====
-- The search loop of `parsePrivateFramePairs` ends: each turn leaves less text.
use modbus_simulator_go.Base.{
  ℕ, ◌+◌, ◌≤◌, ◌<◌, ◌≡◌, inl, inr, [], ◌∷◌, length, arith, some, Text, Option-cases, zero, suc, ap,
  refl, List, length-drop,
}
use modbus_simulator_go.Pairing.{
  Direction, next_mark, after, until_close, payload_after, next_payload, Found, nothing, broken,
  payload, scan_marks, add_payload, parse_private_payload,
}

-- One more than the length of the text that a payload leaves behind it.
abbrev left : Found → ℕ
left nothing = 0
left broken = 0
left (payload d raw rest) = suc (length rest)

next_mark-length : (s : Text) (m : Direction × Text) → next_mark s ≡ some m → length m.1 ≤ length s
unfolding next_mark
next_mark-length [] m h = cc
next_mark-length (c ∷ s) m h = ground (arith, next_mark-length s m)

after-length : (mark : ℕ) (s r : Text) → after mark s ≡ some r → length r < length s
unfolding after
after-length mark [] r h = cc
after-length mark (c ∷ s) r h = ground (arith, after-length mark s r)

payload_after-left : (d : Direction) (s : Text) → left (payload_after d s) ≤ length s
unfolding payload_after
payload_after-left d s = elim (Option-cases (after b'<' s)) [
  | inl e ↦ rw (e, left) (omega arith)
  | inr (inside, e) ↦ elim (Option-cases (until_close inside)) [
    | inl e' ↦ rw (e, left, e', left) (omega arith)
    | inr (raw, e') ↦
        rw (e, left, e', left)
          (omega (arith, after-length b'<' s inside e, length-drop (length raw + 1) inside))
  ]
]

next_payload-left : (s : Text) → left (next_payload s) ≤ length s
unfolding next_payload
next_payload-left s = elim (Option-cases (next_mark s)) [
  | inl e ↦ rw (e, left) (omega arith)
  | inr (m, e) ↦ rw (e, left) (omega (arith, next_mark-length s m e, payload_after-left m.0 m.1))
]

module _ (encode : Text → List ℕ) where
  -- One more unit of fuel on each side, for each result of the turn.
  scan_round :
      (f g : ℕ) (s : Text) (found : Found)
      → next_payload s ≡ found
      → ((rest : Text)
          → length rest < length s
          → scan_marks encode f rest ≡ scan_marks encode g rest)
      → scan_marks encode (suc f) s ≡ scan_marks encode (suc g) s
  unfolding scan_marks
  scan_round f g s nothing e ih = rw (e, scan_marks)
  scan_round f g s broken e ih = rw (e, scan_marks)
  scan_round f g s (payload d raw rest) e ih =
      rw (e, scan_marks)
        (ap (add_payload d (parse_private_payload encode raw))
          (ih rest (omega (arith, rw e at (next_payload-left s)))))

  -- Any two amounts of fuel above the length of the text give the same entries and errors: the
  -- search for messages is never cut short.
  pub scan_marks_enough :
      (f g : ℕ) (s : Text)
      → length s < f
      → length s < g
      → scan_marks encode f s ≡ scan_marks encode g s
  scan_marks_enough zero g s p q = absurd (omega arith)
  scan_marks_enough (suc f) zero s p q = absurd (omega arith)
  scan_marks_enough (suc f) (suc g) s p q =
      scan_round f g s (next_payload s) refl
        (λ rest h. scan_marks_enough f g rest (omega arith) (omega arith))
