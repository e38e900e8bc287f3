-- ===== src/Template/Normal.antt =====
-- What `normalizeHexTemplate` accepts, and that it changes nothing twice.
use modbus_simulator_go.Base.{
  ℕ, zero, suc, ◌%◌, ◌≡◌, ◌≢◌, ◌↔◌, refl, ap, ◌∙◌, inl, inr, Bool, true, false, [], ◌∷◌, ◌++◌, Text,
  is_space, is_upper_hex, upper_char, length, take, drop, every, arith, append_assoc, append-nil,
  Bool-cases, take-append-drop,
}
use modbus_simulator_go.Template.{
  accepted, compact_of, token_length, normalize_from, normalize_compact, normalize_hex_template,
}

-- An accepted result is the text that was to be read.
normalize_from_keeps :
    (skip : ℕ) (s out v : Text) → normalize_from skip s out ≡ accepted v → v ≡ out ++ drop skip s
unfolding normalize_from
normalize_from_keeps zero [] out v h = ground (arith, append-nil out)
normalize_from_keeps (suc skip) [] out v h = ground (arith, append-nil out)
normalize_from_keeps (suc skip) (c ∷ s) out v h = normalize_from_keeps skip s out v h
normalize_from_keeps zero (c ∷ []) out v h = cc
normalize_from_keeps zero (c ∷ d ∷ s) out v h =
    let n = token_length (d ∷ s) in
    ground (
      arith,
      normalize_from_keeps n (d ∷ s) (out ++ c ∷ take n (d ∷ s)) v,
      normalize_from_keeps 1 (d ∷ s) (out ++ c ∷ d ∷ []) v,
      append_assoc out (c ∷ take n (d ∷ s)) (drop n (d ∷ s)),
      append_assoc out (c ∷ d ∷ []) s,
      take-append-drop n (d ∷ s),
    )

-- What a compact text is made of.
abbrev pub IsCompact : ℕ → Type 0
IsCompact c = (is_space c ≡ false) × (upper_char c ≡ c)

upper_char_idem : (c : ℕ) → upper_char (upper_char c) ≡ upper_char c
unfolding upper_char
upper_char_idem c = ground arith

is_space-upper_char : (c : ℕ) → is_space (upper_char c) ≡ is_space c
unfolding upper_char is_space
is_space-upper_char c = ground arith

-- Compacting is done once.
pub compact_of_idem : (s : Text) → compact_of (compact_of s) ≡ compact_of s
unfolding compact_of
compact_of_idem [] = refl
compact_of_idem (c ∷ s) = elim (Bool-cases (is_space c)) [
  | inl blank ↦ rw blank (compact_of_idem s)
  | inr solid ↦ rw (solid, is_space-upper_char c, solid, upper_char_idem c, compact_of_idem s)
]

normalize_compact_keeps :
    (s : Text) (t e : Bool) (v : Text) → normalize_compact s t e ≡ accepted v → v ≡ s
unfolding normalize_compact
normalize_compact_keeps [] t e v h = ground arith
normalize_compact_keeps (c ∷ s) true e v h = normalize_from_keeps 0 (c ∷ s) [] v h
normalize_compact_keeps (c ∷ s) false e v h = ground arith

normalize_again :
    (raw : Text) (t e : Bool)
    → normalize_hex_template (compact_of raw) t e ≡ normalize_hex_template raw t e
unfolding normalize_hex_template
normalize_again raw t e = rw (compact_of_idem raw)

-- A template that is accepted is the text without its blanks and in upper case, whatever the
-- options, and normalizing it again changes nothing.
pub normalize_hex_template_idem :
    (raw : Text) (t e : Bool) {v : Text}
    → normalize_hex_template raw t e ≡ accepted v
    → (v ≡ compact_of raw) × (normalize_hex_template v t e ≡ accepted v)
normalize_hex_template_idem raw t e {v} h =
    let same : v ≡ compact_of raw =
      unfold normalize_hex_template in normalize_compact_keeps (compact_of raw) t e v h in
    (same, ap (λ s. normalize_hex_template s t e) same ∙ (normalize_again raw t e ∙ h))

compact_iff :
    (s : Text)
    → (normalize_compact s false false ≡ accepted s)
      ↔ ((s ≢ []) × (every is_upper_hex s ≡ true) × (length s % 2 ≡ 0))
unfolding normalize_compact
compact_iff [] = (λ h. cc, λ h. absurd (h.0 refl))
compact_iff (c ∷ s) = (λ h. (cc, ground arith, ground arith), λ h. rw (h.1, h.2))

-- Without tokens and with empty refused, exactly the texts are accepted whose characters, blanks
-- left out and in upper case, are hex digits, a positive and even number of them.
pub normalize_hex_template_iff :
    (raw : Text)
    → (normalize_hex_template raw false false ≡ accepted (compact_of raw)) ↔ (
        (compact_of raw ≢ [])
        × (every is_upper_hex (compact_of raw) ≡ true)
        × (length (compact_of raw) % 2 ≡ 0))
unfolding normalize_hex_template
normalize_hex_template_iff raw = compact_iff (compact_of raw)
