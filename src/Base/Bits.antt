-- ===== src/Base/Bits.antt =====
-- The bit operations at variables: the recursion on the last binary digit, and what follows for
-- exclusive or.
use Prim.Native.Nat.{
  ℕ, zero, suc, ◌+◌, ◌-◌, ◌*◌, ◌/◌, ◌%◌, ◌^◌, ◌≤◌, ◌<◌, min, max, bit_and, bit_or, bit_xor, digits,
  bit_and-bitwise, bit_or-bitwise, bit_xor-bitwise,
}
use mathlib.Core.Path.{◌≡◌, refl, ap, ◌∙◌}
use native.Mathlib.Decide.{dec_le}
use native.Mathlib.Nat.{pow-suc}
use native.Mathlib.Omega.{arith}

-- `digits z f` is determined by one round, where `z` agrees with a round on the first number zero.
module _ (z : ℕ → ℕ) (f : ℕ → ℕ → ℕ) (z_round : (b : ℕ) → z b ≡ z (b / 2) * 2 + f 0 (b % 2)) where
  -- A spare round at the end changes nothing.
  spare : (n a b : ℕ) → a ≤ n → digits z f (suc n) a b ≡ digits z f n a b
  spare n zero b h = end n
    where
      end : (k : ℕ) → digits z f (suc k) zero b ≡ digits z f k zero b
      end zero = refl
      end (suc k) = refl
  spare zero (suc a) b h = absurd (omega arith)
  spare (suc n) (suc a) b h =
      ap (λ t. t * 2 + f (suc a % 2) (b % 2)) (spare n (suc a / 2) (b / 2) (omega arith))

  spares : (m n a b : ℕ) → a ≤ n → n ≤ m → digits z f m a b ≡ digits z f n a b
  spares zero n a b h k = let e : n ≡ 0 = omega arith in rw e
  spares (suc m) n a b h k = elim (dec_le n m) [
    | yes q ↦ spare m a b (omega arith) ∙ spares m n a b h q
    | no q ↦ let e : n ≡ suc m = omega arith in rw e
  ]

  digits_round :
      (a b : ℕ) → digits z f a a b ≡ digits z f (a / 2) (a / 2) (b / 2) * 2 + f (a % 2) (b % 2)
  digits_round zero b = z_round b
  digits_round (suc a) b =
      ap (λ t. t * 2 + f (suc a % 2) (b % 2))
        (spares a (suc a / 2) (suc a / 2) (b / 2) (omega arith) (omega arith))

abbrev differ : ℕ → ℕ → ℕ
differ = Prim.Native.Nat.differ

pub bit_xor_round : (m n : ℕ) → bit_xor m n ≡ differ (m % 2) (n % 2) + 2 * bit_xor (m / 2) (n / 2)
bit_xor_round m n = omega (
  arith,
  bit_xor-bitwise m n,
  bit_xor-bitwise (m / 2) (n / 2),
  digits_round (λ b. b) differ (λ b. omega arith) m n,
)

pub bit_or_round : (m n : ℕ) → bit_or m n ≡ max (m % 2) (n % 2) + 2 * bit_or (m / 2) (n / 2)
bit_or_round m n = omega (
  arith,
  bit_or-bitwise m n,
  bit_or-bitwise (m / 2) (n / 2),
  digits_round (λ b. b) max (λ b. omega arith) m n,
)

pub bit_and_round : (m n : ℕ) → bit_and m n ≡ min (m % 2) (n % 2) + 2 * bit_and (m / 2) (n / 2)
bit_and_round m n = omega (
  arith,
  bit_and-bitwise m n,
  bit_and-bitwise (m / 2) (n / 2),
  digits_round (λ b. 0) min (λ b. omega arith) m n,
)

differ_lem : (a b : ℕ) → a < 2 → b < 2 → differ a b ≡ (a + b) % 2
differ_lem zero b p q = omega arith
differ_lem (suc zero) zero p q = refl
differ_lem (suc zero) (suc zero) p q = refl
differ_lem _ (suc (suc b)) p q = absurd (omega arith)
differ_lem (suc (suc a)) _ p q = absurd (omega arith)

-- The last digit of an exclusive or is a sum.
pub bit_xor_digit : (a b : ℕ) → bit_xor a b ≡ bit_xor (a / 2) (b / 2) * 2 + (a + b) % 2
bit_xor_digit a b =
    omega (arith, bit_xor_round a b, differ_lem (a % 2) (b % 2) (omega arith) (omega arith))

half-bit_xor : (a b : ℕ) → bit_xor a b / 2 ≡ bit_xor (a / 2) (b / 2)
half-bit_xor a b = omega (arith, bit_xor_digit a b)

-- Exclusive or undoes itself. The bound `n` is for the induction.
xor_xor_below : (n a b : ℕ) → a ≤ n → b ≤ n → bit_xor (bit_xor a b) b ≡ a
xor_xor_below zero a b h k = let p : a ≡ 0 = omega arith in let q : b ≡ 0 = omega arith in rw (p, q)
xor_xor_below (suc n) a b h k = omega (
  arith,
  bit_xor_digit (bit_xor a b) b,
  bit_xor_digit a b,
  ap (λ t. bit_xor t (b / 2)) (half-bit_xor a b),
  xor_xor_below n (a / 2) (b / 2) (omega arith) (omega arith),
)

pub bit_xor_self_inverse : (a b : ℕ) → bit_xor (bit_xor a b) b ≡ a
bit_xor_self_inverse a b = xor_xor_below (a + b) a b (omega arith) (omega arith)

pub bit_xor-lt : (k a b : ℕ) → a < 2 ^ k → b < 2 ^ k → bit_xor a b < 2 ^ k
bit_xor-lt zero a b p q =
    let e : a ≡ 0 = omega arith in let e' : b ≡ 0 = omega arith in rw (e, e') (omega arith)
bit_xor-lt (suc k) a b p q = omega (
  arith,
  bit_xor_digit a b,
  pow-suc 2 k,
  bit_xor-lt k (a / 2) (b / 2) (omega (arith, pow-suc 2 k)) (omega (arith, pow-suc 2 k)),
)

bit_or-zero_below : (n a : ℕ) → a ≤ n → bit_or a 0 ≡ a
bit_or-zero_below zero a h = let p : a ≡ 0 = omega arith in rw p
bit_or-zero_below (suc n) a h =
    omega (arith, bit_or_round a 0, bit_or-zero_below n (a / 2) (omega arith))

shift_round : (k q : ℕ) → q * 2 ^ suc k ≡ 2 * (q * 2 ^ k)
shift_round k q = rw (pow-suc 2 k) (omega arith)

-- `(q << k) | r` is a sum where `r` fits below.
pub bit_or_shift : (k q r : ℕ) → r < 2 ^ k → bit_or (q * 2 ^ k) r ≡ q * 2 ^ k + r
bit_or_shift zero q r h =
    let e : r ≡ 0 = omega arith in
    rw e (omega (arith, bit_or-zero_below (q * 2 ^ 0) (q * 2 ^ 0) (omega arith)))
bit_or_shift (suc k) q r h = omega (
  arith,
  bit_or_round (q * 2 ^ suc k) r,
  shift_round k q,
  pow-suc 2 k,
  ap (λ (t : ℕ). bit_or t (r / 2)) (half_shift k q),
  bit_or_shift k q (r / 2) (omega (arith, pow-suc 2 k)),
)
  where
    half_shift : (k q : ℕ) → q * 2 ^ suc k / 2 ≡ q * 2 ^ k
    half_shift k q = omega (arith, shift_round k q)

-- Two bytes make a word.
pub bit_or_word : (hi lo : ℕ) → lo < 256 → bit_or (hi * 256) lo ≡ hi * 256 + lo
bit_or_word hi lo h = bit_or_shift 8 hi lo h

bit_and-zero_below : (n a : ℕ) → a ≤ n → bit_and a 0 ≡ 0
bit_and-zero_below zero a h = let p : a ≡ 0 = omega arith in rw p
bit_and-zero_below (suc n) a h =
    omega (arith, bit_and_round a 0, bit_and-zero_below n (a / 2) (omega arith))

-- A mask of ones keeps the part of a number below it; the mask is `m` with `m + 1 ≡ 2 ^ k`.
mask_part : (k q r m : ℕ) → m + 1 ≡ 2 ^ k → r < 2 ^ k → bit_and (q * 2 ^ k + r) m ≡ r
mask_part zero q r m e h =
    let z : m ≡ 0 = omega arith in
    rw z (omega (arith, bit_and-zero_below (q * 2 ^ 0 + r) (q * 2 ^ 0 + r) (omega arith)))
mask_part (suc k) q r m e h = omega (
  arith,
  bit_and_round (q * 2 ^ suc k + r) m,
  shift_round k q,
  pow-suc 2 k,
  ap (λ (t : ℕ). bit_and t (m / 2)) (half_part k q r),
  mask_part k q (r / 2) (m / 2) (omega (arith, pow-suc 2 k)) (omega (arith, pow-suc 2 k)),
)
  where
    half_part : (k q r : ℕ) → (q * 2 ^ suc k + r) / 2 ≡ q * 2 ^ k + r / 2
    half_part k q r = omega (arith, shift_round k q)

-- `a & 0xFF` and `a & 1`
pub bit_and_byte : (a : ℕ) → bit_and a 255 ≡ a % 256
bit_and_byte a = omega (
  arith,
  mask_part 8 (a / 256) (a % 256) 255 (omega arith) (omega arith),
  ap (λ (t : ℕ). bit_and t 255) (parts a),
)
  where
    parts : (a : ℕ) → a / 256 * 2 ^ 8 + a % 256 ≡ a
    parts a = omega arith

pub bit_and_one : (a : ℕ) → bit_and a 1 ≡ a % 2
bit_and_one a = omega (arith, bit_and_round a 1, bit_and-zero_below (a / 2) (a / 2) (omega arith))

-- `a & 0xFFFF`
pub bit_and_word : (a : ℕ) → bit_and a 0xffff ≡ a % 0x10000
bit_and_word a = omega (
  arith,
  mask_part 16 (a / 0x10000) (a % 0x10000) 0xffff (omega arith) (omega arith),
  ap (λ (t : ℕ). bit_and t 0xffff) (parts a),
)
  where
    parts : (a : ℕ) → a / 0x10000 * 2 ^ 16 + a % 0x10000 ≡ a
    parts a = omega arith

xor_comm_below : (n a b : ℕ) → a ≤ n → b ≤ n → bit_xor a b ≡ bit_xor b a
xor_comm_below zero a b h k =
    let p : a ≡ 0 = omega arith in let q : b ≡ 0 = omega arith in rw (p, q)
xor_comm_below (suc n) a b h k = omega (
  arith,
  bit_xor_digit a b,
  bit_xor_digit b a,
  xor_comm_below n (a / 2) (b / 2) (omega arith) (omega arith),
)

pub bit_xor_comm : (a b : ℕ) → bit_xor a b ≡ bit_xor b a
bit_xor_comm a b = xor_comm_below (a + b) a b (omega arith) (omega arith)
