-- ===== src/Base/Trim.antt =====
-- Texts without blanks at their ends; trimming twice is trimming once.
use Prim.Native.Nat.{ℕ}
use mathlib.Core.Path.{◌≡◌, refl, sym, ap, ◌∙◌, subst}
use mathlib.Core.Bool.{Bool, true, false, not}
use mathlib.Core.List.{[], ◌∷◌, ◌++◌, reverse, reverse_aux, reverse-append, reverse-reverse}
use native.Mathlib.Omega.{arith}
use modbus_simulator_go.Base.Lists.{every}
use modbus_simulator_go.Base.Tests.{if◌then◌else◌}
use modbus_simulator_go.Base.Strings.{Text, is_space, trim, trim_start}

-- Whether a text does not begin with a blank.
abbrev pub starts_solid : Text → Bool
starts_solid [] = true
starts_solid (c ∷ s) = not (is_space c)

trim_start-solid : (s : Text) → starts_solid (trim_start s) ≡ true
unfolding trim_start
trim_start-solid [] = refl
trim_start-solid (c ∷ s) = ground (arith, trim_start-solid s)

pub solid-trim_start : (s : Text) → starts_solid s ≡ true → trim_start s ≡ s
unfolding trim_start
solid-trim_start [] h = refl
solid-trim_start (c ∷ s) h = ground arith

solid-part : (s t : Text) → starts_solid (s ++ t) ≡ true → starts_solid s ≡ true
solid-part [] t h = refl
solid-part (c ∷ s) t h = h

-- The blanks at the start.
abbrev blanks : Text → Text
blanks [] = []
blanks (c ∷ s) = if is_space c then c ∷ blanks s else []

trim_start-suffix : (s : Text) → s ≡ blanks s ++ trim_start s
unfolding trim_start
trim_start-suffix [] = refl
trim_start-suffix (c ∷ s) = ground (arith, trim_start-suffix s)

pub starts_solid-trim : (s : Text) → starts_solid (trim s) ≡ true
unfolding trim
starts_solid-trim s =
    let t = trim_start s in
    let u = trim_start (reverse t) in
    let p = blanks (reverse t) in
    let whole : t ≡ reverse u ++ reverse p =
      sym (reverse-reverse t) ∙ (ap reverse (trim_start-suffix (reverse t)) ∙ reverse-append p u) in
    solid-part (reverse u) (reverse p)
      (subst (λ x. starts_solid x ≡ true) whole (trim_start-solid s))

-- A text without a blank at its start and at its end is trimmed already.
pub trim_solid : (s : Text) → starts_solid s ≡ true → starts_solid (reverse s) ≡ true → trim s ≡ s
unfolding trim
trim_solid s h k = rw (solid-trim_start s h, solid-trim_start (reverse s) k, reverse-reverse s) refl

-- Characters of a kind without blanks.
module _ (kind : ℕ → Bool) (solid : (c : ℕ) → kind c ≡ true → is_space c ≡ false) where
  pub starts_solid-every : (s : Text) → every kind s ≡ true → starts_solid s ≡ true
  starts_solid-every [] h = refl
  starts_solid-every (c ∷ s) h = rw (solid c (ground arith)) refl

  -- They stand in reverse in front of a text with a solid start.
  pub reverse_aux-solid :
      (d r : Text)
      → every kind d ≡ true
      → starts_solid r ≡ true
      → starts_solid (reverse_aux d r) ≡ true
  reverse_aux-solid [] r h k = k
  reverse_aux-solid (c ∷ d) r h k =
      reverse_aux-solid d (c ∷ r) (ground arith) (rw (solid c (ground arith)) refl)

  pub trim-every : (s : Text) → every kind s ≡ true → trim s ≡ s
  trim-every s h = trim_solid s (starts_solid-every s h) (reverse_aux-solid s [] h refl)

pub trim_idem : (s : Text) → trim (trim s) ≡ trim s
unfolding trim
trim_idem s =
    let t = trim_start s in
    let u = trim_start (reverse t) in
    let solid : starts_solid (reverse u) ≡ true = starts_solid-trim s in
    rw
      (
        solid-trim_start (reverse u) solid,
        reverse-reverse,
        solid-trim_start u (trim_start-solid (reverse t)),
      )
      refl
