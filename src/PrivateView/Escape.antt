-- ===== src/PrivateView/Escape.antt =====
-- What `escapeHtml` writes, and how a browser reads it.
use modbus_simulator_go.Base.{
  ℕ, zero, suc, ◌≡◌, refl, ap, ◌∙◌, inl, inr, Bool, true, not, ◌||◌, Bool-cases, [], ◌∷◌, ◌++◌,
  Text, codes, every, ◌==◌, arith, if◌then◌else◌, text_eq, take,
}
use modbus_simulator_go.PrivateView.{escape_char, escape_html}

-- A character that neither ends a text of the markup nor the value of an attribute in quotes.
abbrev pub is_inert : ℕ → Bool
is_inert c = not (c == 60 || (c == 62 || (c == 34 || c == 39)))

-- The character that a reference stands for and the length of what follows its `&`; any other `&`
-- stands for itself.
abbrev pub reference : Text → ℕ × ℕ
reference s =
    if text_eq (take 4 s) (codes "amp;")
    then (38, 4)
    else if text_eq (take 3 s) (codes "lt;")
    then (60, 3)
    else if text_eq (take 3 s) (codes "gt;")
    then (62, 3)
    else if text_eq (take 5 s) (codes "quot;")
    then (34, 5)
    else if text_eq (take 4 s) (codes "#39;")
    then (39, 4)
    else (38, 0)

-- The text that a browser shows, where the first `k` characters belong to a reference before.
unfoldable pub decoded : ℕ → Text → Text
decoded k [] = []
decoded (suc k) (c ∷ s) = decoded k s
decoded zero (c ∷ s) =
    let (d, k) = reference s in
    let plain = decoded zero s in let rest = decoded k s in if c == 38 then d ∷ rest else c ∷ plain

equals : (a b : ℕ) → (a == b) ≡ true → b ≡ a
equals a b h = ground arith

decoded-escape_char : (c : ℕ) (s : Text) → decoded 0 (escape_char c ++ s) ≡ c ∷ decoded 0 s
unfolding decoded escape_char text_eq
decoded-escape_char c s = elim (Bool-cases (c == 38)) [
  | inl this ↦ rw this (ap (λ n. n ∷ decoded 0 s) (equals c 38 this))
  | inr no_amp ↦ elim (Bool-cases (c == 60)) [
    | inl this ↦ rw (no_amp, this) (ap (λ n. n ∷ decoded 0 s) (equals c 60 this))
    | inr no_lt ↦ elim (Bool-cases (c == 62)) [
      | inl this ↦ rw (no_amp, no_lt, this) (ap (λ n. n ∷ decoded 0 s) (equals c 62 this))
      | inr no_gt ↦ elim (Bool-cases (c == 34)) [
        | inl this ↦ rw (no_amp, no_lt, no_gt, this) (ap (λ n. n ∷ decoded 0 s) (equals c 34 this))
        | inr no_quot ↦ elim (Bool-cases (c == 39)) [
          | inl this ↦
              rw (no_amp, no_lt, no_gt, no_quot, this)
                (ap (λ n. n ∷ decoded 0 s) (equals c 39 this))
          | inr no_apos ↦ rw (no_amp, no_lt, no_gt, no_quot, no_apos, no_amp) refl
        ]
      ]
    ]
  ]
]

every-escape_char :
    (c : ℕ) (s : Text) → every is_inert s ≡ true → every is_inert (escape_char c ++ s) ≡ true
unfolding escape_char
every-escape_char c s h = elim (Bool-cases (c == 38)) [
  | inl this ↦ rw (this, h) refl
  | inr no_amp ↦ elim (Bool-cases (c == 60)) [
    | inl this ↦ rw (no_amp, this, h) refl
    | inr no_lt ↦ elim (Bool-cases (c == 62)) [
      | inl this ↦ rw (no_amp, no_lt, this, h) refl
      | inr no_gt ↦ elim (Bool-cases (c == 34)) [
        | inl this ↦ rw (no_amp, no_lt, no_gt, this, h) refl
        | inr no_quot ↦ elim (Bool-cases (c == 39)) [
          | inl this ↦ rw (no_amp, no_lt, no_gt, no_quot, this, h) refl
          | inr no_apos ↦
              rw (no_amp, no_lt, no_gt, no_quot, no_apos, no_lt, no_gt, no_quot, no_apos, h) refl
        ]
      ]
    ]
  ]
]

-- Whatever a text holds, its escaped form has none of the characters that end a text of the markup
-- or a value in quotes, and a browser shows the text itself for it.
pub escape_html_lem :
    (s : Text) → (decoded 0 (escape_html s) ≡ s) × (every is_inert (escape_html s) ≡ true)
unfolding escape_html decoded
escape_html_lem [] = (refl, refl)
escape_html_lem (c ∷ s) =
    let (read, inert) = escape_html_lem s in
    (
      decoded-escape_char c (escape_html s) ∙ ap (λ t. c ∷ t) read,
      every-escape_char c (escape_html s) inert,
    )
