-- ===== src/Base/Digits.antt =====
-- Numbers written in a base: `toString(radix)` and `String(n)`, and the value that digits spell.
use Prim.Native.Nat.{ℕ, zero, suc, ◌+◌, ◌-◌, ◌*◌, ◌/◌, ◌%◌, ◌≤◌, ◌<◌}
use mathlib.Core.Path.{◌≡◌, refl, ap, sym, ◌∙◌}
use mathlib.Core.Logic.{inl, inr}
use mathlib.Core.Bool.{Bool, true, false, ◌&&◌}
use mathlib.Core.List.{[], ◌∷◌}
use native.Mathlib.Nat.{div-add-mod'}
use native.Mathlib.Omega.{arith}
use modbus_simulator_go.Base.Lists.{every}
use modbus_simulator_go.Base.Tests.{ltb, leb, if◌then◌else◌, Bool-cases}
use modbus_simulator_go.Base.Strings.{Text, codes, is_empty}

-- A digit below 16, in lower case as `toString` writes it.
unfoldable pub digit_char : ℕ → ℕ
digit_char d = if ltb d 10 then b'0' + d else b'a' + (d - 10)

unfoldable pub digit_value : ℕ → ℕ
digit_value c =
    if leb b'0' c && leb c b'9'
    then c - b'0'
    else if leb b'a' c && leb c b'f'
    then c - b'a' + 10
    else if leb b'A' c && leb c b'F'
    then c - b'A' + 10
    else 0

pub digit_value-digit_char : (d : ℕ) → d < 16 → digit_value (digit_char d) ≡ d
unfolding digit_value digit_char
digit_value-digit_char d h = ground arith

-- The digits of `n` in front of `out`; `n + 1` rounds are enough, since each divides by the base.
digits_fuel : ℕ → ℕ → ℕ → Text → Text
digits_fuel zero base n out = out
digits_fuel (suc f) base n out =
    let more = digits_fuel f base (n / base) (digit_char (n % base) ∷ out) in
    if ltb n base then digit_char n ∷ out else more

unfoldable pub to_base : ℕ → ℕ → Text
unfolding digits_fuel digit_char
to_base base n = digits_fuel (n + 1) base n []

-- `String(n)`, and `${n}` in a template.
abbrev pub to_decimal : ℕ → Text
to_decimal = to_base 10

-- The number that digits spell behind `n`.
unfoldable pub value : ℕ → ℕ → Text → ℕ
unfolding digit_value
value base n [] = n
value base n (c ∷ s) = value base (n * base + digit_value c) s

-- One round: the last digit and the digits before it make the number, and less fuel is needed.
div_round : (base n f : ℕ) → 1 < base → n < suc f → base ≤ n → (n / base) < f
div_round base n f lo h big = grind arith

pub value_cons :
    (base n c : ℕ) (s : Text) → value base n (c ∷ s) ≡ value base (n * base + digit_value c) s
unfolding value
value_cons base n c s = refl

pub value_nil : (base n : ℕ) → value base n [] ≡ n
unfolding value
value_nil base n = refl

value-digit_char :
    (base n d : ℕ) (s : Text)
    → d < 16
    → value base n (digit_char d ∷ s) ≡ value base (n * base + d) s
value-digit_char base n d s h =
    value_cons base n (digit_char d) s
    ∙ ap (λ t. value base (n * base + t) s) (digit_value-digit_char d h)

zero_mul_add : (base n : ℕ) → 0 * base + n ≡ n
zero_mul_add base n = omega arith

last_digit : (base n : ℕ) → 1 < base → base ≤ 16 → n % base < 16
last_digit base n lo hi = grind arith

div_mod : (base n : ℕ) → (n / base) * base + n % base ≡ n
div_mod base n = div-add-mod' n base

value-digits_fuel :
    (f base n : ℕ) (out : Text)
    → 1 < base
    → base ≤ 16
    → n < f
    → value base 0 (digits_fuel f base n out) ≡ value base n out
unfolding digits_fuel
value-digits_fuel zero base n out lo hi h = absurd (omega arith)
value-digits_fuel (suc f) base n out lo hi h = elim (Bool-cases (ltb n base)) [
  | inl small ↦ rw (small, value-digit_char base 0 n out (ground arith), zero_mul_add base n) refl
  | inr big ↦ rw big (
      value-digits_fuel f base (n / base) _ lo hi (div_round base n f lo h (ground arith))
      ∙ (value-digit_char base (n / base) (n % base) out (last_digit base n lo hi)
          ∙ rw (div_mod base n)))
]

-- What is written in a base is read back.
pub value-to_base : (base n : ℕ) → 1 < base → base ≤ 16 → value base 0 (to_base base n) ≡ n
unfolding to_base
value-to_base base n lo hi =
    value-digits_fuel (n + 1) base n [] lo hi (omega arith) ∙ unfold value in refl

-- So two numbers written alike are one.
pub to_decimal_injective : (a b : ℕ) → to_decimal a ≡ to_decimal b → a ≡ b
to_decimal_injective a b e =
    sym (value-to_base 10 a (omega arith) (omega arith))
    ∙ (ap (value 10 0) e ∙ value-to_base 10 b (omega arith) (omega arith))

-- `\d`
abbrev pub is_digit : ℕ → Bool
is_digit c = leb b'0' c && leb c b'9'

digit_char-digit : (d : ℕ) → d < 10 → is_digit (digit_char d) ≡ true
unfolding digit_char
digit_char-digit d h = ground arith

every-digits_fuel :
    (f n : ℕ) (out : Text)
    → every is_digit out ≡ true
    → every is_digit (digits_fuel f 10 n out) ≡ true
unfolding digits_fuel
every-digits_fuel zero n out h = h
every-digits_fuel (suc f) n out h = elim (Bool-cases (ltb n 10)) [
  | inl small ↦ rw (small, digit_char-digit n (ground arith)) h
  | inr big ↦
      let d = digit_char-digit (n % 10) (grind arith) in
      rw big (every-digits_fuel f (n / 10) (digit_char (n % 10) ∷ out) (rw d h))
]

is_empty-digits_fuel :
    (f n : ℕ) (out : Text) → is_empty out ≡ false → is_empty (digits_fuel f 10 n out) ≡ false
unfolding digits_fuel
is_empty-digits_fuel zero n out h = h
is_empty-digits_fuel (suc f) n out h = elim (Bool-cases (ltb n 10)) [
  | inl small ↦ rw small refl
  | inr big ↦ rw big (is_empty-digits_fuel f (n / 10) (digit_char (n % 10) ∷ out) refl)
]

is_empty-digits_fuel_round :
    (f n : ℕ) (out : Text) → 0 < f → is_empty (digits_fuel f 10 n out) ≡ false
unfolding digits_fuel
is_empty-digits_fuel_round zero n out h = absurd (omega arith)
is_empty-digits_fuel_round (suc f) n out h = elim (Bool-cases (ltb n 10)) [
  | inl small ↦ rw small refl
  | inr big ↦ rw big (is_empty-digits_fuel f (n / 10) (digit_char (n % 10) ∷ out) refl)
]

-- A number is written with decimal digits, and with one at least.
pub every-to_decimal : (n : ℕ) → every is_digit (to_decimal n) ≡ true
unfolding to_base
every-to_decimal n = every-digits_fuel (n + 1) n [] refl

pub is_empty-to_decimal : (n : ℕ) → is_empty (to_decimal n) ≡ false
unfolding to_base
is_empty-to_decimal n = is_empty-digits_fuel_round (n + 1) n [] (omega arith)

test_decimal : to_decimal 1502 ≡ codes "1502"
unfolding to_base
test_decimal = refl

test_hex : to_base 16 255 ≡ codes "ff"
unfolding to_base
test_hex = refl
