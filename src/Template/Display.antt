-- ===== src/Template/Display.antt =====
-- `formatHexTemplateForDisplay` only puts blanks between the parts of a template.
use modbus_simulator_go.Base.{
  ℕ, zero, suc, ◌≡◌, refl, sym, ap, ◌∙◌, inl, inr, Bool, true, false, not, ◌&&◌, List, [], ◌∷◌,
  ◌++◌, Text, is_space, drop, ◌==◌, append-nil, Bool-cases, take-append-drop,
}
use modbus_simulator_go.Template.{
  compact_of, token_length, normalize_hex_template, in_pairs, display_parts, join_spaced,
  format_hex_template_for_display,
}
use modbus_simulator_go.Template.Normal.{compact_of_idem}

compact_of-append : (a b : Text) → compact_of (a ++ b) ≡ compact_of a ++ compact_of b
unfolding compact_of
compact_of-append [] b = refl
compact_of-append (c ∷ a) b = elim (Bool-cases (is_space c)) [
  | inl blank ↦ rw blank (compact_of-append a b)
  | inr solid ↦ rw (solid, compact_of-append a b)
]

compact_of_blank : (s : Text) → compact_of (b' ' ∷ s) ≡ compact_of s
unfolding compact_of
compact_of_blank s = refl

compact_of-cons : (c : ℕ) (s : Text) → compact_of (c ∷ s) ≡ compact_of (c ∷ []) ++ compact_of s
compact_of-cons c s = compact_of-append (c ∷ []) s

compact_of-in_pairs : (s : Text) → compact_of (in_pairs s) ≡ compact_of s
unfolding in_pairs
compact_of-in_pairs [] = refl
compact_of-in_pairs (c ∷ []) = refl
compact_of-in_pairs (c ∷ d ∷ []) = refl
compact_of-in_pairs (c ∷ d ∷ e ∷ s) =
    compact_of-append (c ∷ d ∷ []) (b' ' ∷ in_pairs (e ∷ s))
    ∙ (ap (λ t. compact_of (c ∷ d ∷ []) ++ t)
          (compact_of_blank (in_pairs (e ∷ s)) ∙ compact_of-in_pairs (e ∷ s))
        ∙ sym (compact_of-append (c ∷ d ∷ []) (e ∷ s)))

joined : List Text → Text
joined [] = []
joined (p ∷ ps) = p ++ joined ps

compact_of-join_spaced : (ps : List Text) → compact_of (join_spaced ps) ≡ compact_of (joined ps)
unfolding join_spaced joined
compact_of-join_spaced [] = refl
compact_of-join_spaced (p ∷ []) = ap compact_of (sym (append-nil p))
compact_of-join_spaced (p ∷ q ∷ ps) =
    compact_of-append p (b' ' ∷ join_spaced (q ∷ ps))
    ∙ (ap (λ t. compact_of p ++ t)
          (compact_of_blank (join_spaced (q ∷ ps)) ∙ compact_of-join_spaced (q ∷ ps))
        ∙ sym (compact_of-append p (joined (q ∷ ps))))

-- The parts are the text behind what is passed over.
joined-display_parts : (skip : ℕ) (s : Text) → joined (display_parts skip s) ≡ drop skip s
unfolding joined display_parts
joined-display_parts zero [] = refl
joined-display_parts (suc skip) [] = refl
joined-display_parts (suc skip) (c ∷ s) = joined-display_parts skip s
joined-display_parts zero (c ∷ s) = elim (Bool-cases (c == b'@' && not (token_length s == 0))) [
  | inl token ↦
      rw (token, joined-display_parts (token_length s) s, take-append-drop (token_length s) s)
  | inr pair ↦ rw (pair, joined-display_parts 1 s) (ap (◌∷◌ c) (take-append-drop 1 s))
]

compact_of-format :
    (raw : Text) (t : Bool) → compact_of (format_hex_template_for_display raw t) ≡ compact_of raw
unfolding format_hex_template_for_display
compact_of-format raw false = compact_of-in_pairs (compact_of raw) ∙ compact_of_idem raw
compact_of-format raw true =
    compact_of-join_spaced (display_parts 0 (compact_of raw))
    ∙ (ap compact_of (joined-display_parts 0 (compact_of raw)) ∙ compact_of_idem raw)

-- Normalizing what is displayed gives the same outcome as normalizing what was typed, errors
-- included, for all options.
pub normalize-format_hex_template_for_display :
    (raw : Text) (t u e : Bool)
    → normalize_hex_template (format_hex_template_for_display raw t) u e
      ≡ normalize_hex_template raw u e
unfolding normalize_hex_template
normalize-format_hex_template_for_display raw t u e = rw (compact_of-format raw t)
