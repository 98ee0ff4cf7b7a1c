-- ===== src/Base/Bits.antt =====
-- Bit operations at variables: one equation for the lowest digit of each, and what follows for
-- masks, disjoint fields and exclusive or.
use Prim.Native.Nat.{ℕ, zero, suc, ◌+◌, ◌-◌, ◌*◌, ◌/◌, ◌%◌, ◌^◌, ◌≤◌, ◌<◌, min, max}
use Prim.Native.Nat.{bit_and, bit_or, bit_xor, digits, bitwise, differ}
use Prim.Native.Nat.{bit_and-bitwise, bit_or-bitwise, bit_xor-bitwise}
use mathlib.Core.Path.{◌≡◌, refl, sym, ap, ap₂, ◌∙◌}
use native.Mathlib.Nat.{pow-suc, one-le-pow, mul_comm, div-div-eq-div-mul, div-add-mod'}
use native.Mathlib.Omega.{arith}

-- `digits` counts down a bound on its first number; any bound gives the same result.
module _ (z : ℕ → ℕ) (f : ℕ → ℕ → ℕ) (z_step : (b : ℕ) → z b ≡ z (b / 2) * 2 + f 0 (b % 2)) where
  digits_bound : (m n a b : ℕ) → a ≤ m → a ≤ n → digits z f m a b ≡ digits z f n a b
  digits_bound zero zero a b p q = refl
  digits_bound zero (suc n) zero b p q = refl
  digits_bound zero (suc n) (suc a) b p q = absurd (omega arith)
  digits_bound (suc m) zero zero b p q = refl
  digits_bound (suc m) zero (suc a) b p q = absurd (omega arith)
  digits_bound (suc m) (suc n) zero b p q = refl
  digits_bound (suc m) (suc n) (suc a) b p q =
      ap (λ d. d * 2 + f (suc a % 2) (b % 2))
        (digits_bound m n (suc a / 2) (b / 2) (omega arith) (omega arith))

  bitwise_step : (a b : ℕ) → bitwise z f a b ≡ bitwise z f (a / 2) (b / 2) * 2 + f (a % 2) (b % 2)
  bitwise_step zero b = z_step b
  bitwise_step (suc a) b =
      ap (λ d. d * 2 + f (suc a % 2) (b % 2))
        (digits_bound a (suc a / 2) (suc a / 2) (b / 2) (omega arith) (omega arith))

bit_and_step : (a b : ℕ) → bit_and a b ≡ bit_and (a / 2) (b / 2) * 2 + min (a % 2) (b % 2)
bit_and_step a b = simp bit_and-bitwise (bitwise_step (λ _. 0) min (λ b. omega arith) a b)

bit_or_step : (a b : ℕ) → bit_or a b ≡ bit_or (a / 2) (b / 2) * 2 + max (a % 2) (b % 2)
bit_or_step a b = simp bit_or-bitwise (bitwise_step (λ b. b) max (λ b. omega arith) a b)

differ_digits : (x y : ℕ) → x < 2 → y < 2 → differ x y ≡ (x + y) % 2
differ_digits zero y p q = omega arith
differ_digits (suc zero) zero p q = omega arith
differ_digits (suc zero) (suc y) p q = omega arith
differ_digits (suc (suc x)) y p q = absurd (omega arith)

bit_xor_step : (a b : ℕ) → bit_xor a b ≡ bit_xor (a / 2) (b / 2) * 2 + (a + b) % 2
bit_xor_step a b =
    simp bit_xor-bitwise (bitwise_step (λ b. b) differ (λ b. omega arith) a b)
    ∙ ap (λ d. bit_xor (a / 2) (b / 2) * 2 + d) last
  where
    last : differ (a % 2) (b % 2) ≡ (a + b) % 2
    last = omega (arith, differ_digits (a % 2) (b % 2) (omega arith) (omega arith))

-- Exclusive or.

pub zero-bit_xor : (b : ℕ) → bit_xor 0 b ≡ b
zero-bit_xor b = bit_xor-bitwise 0 b

pub bit_xor-mod-two : (a b : ℕ) → bit_xor a b % 2 ≡ (a + b) % 2
bit_xor-mod-two a b = omega (arith, bit_xor_step a b)

pub bit_xor-div-two : (a b : ℕ) → bit_xor a b / 2 ≡ bit_xor (a / 2) (b / 2)
bit_xor-div-two a b = omega (arith, bit_xor_step a b)

pub bit_xor-lt : (k a b : ℕ) → a < 2 ^ k → b < 2 ^ k → bit_xor a b < 2 ^ k
bit_xor-lt zero a b p q = ground (arith, zero-bit_xor b)
bit_xor-lt (suc k) a b p q =
    omega (
      arith,
      bit_xor_step a b,
      pow-suc 2 k,
      bit_xor-lt k (a / 2) (b / 2) (omega arith) (omega arith),
    )

comm_below : (n a b : ℕ) → a ≤ n → b ≤ n → bit_xor a b ≡ bit_xor b a
comm_below zero a b p q = ap₂ bit_xor (omega arith) (omega arith)
comm_below (suc n) a b p q = omega (
  arith,
  bit_xor_step a b,
  bit_xor_step b a,
  comm_below n (a / 2) (b / 2) (omega arith) (omega arith),
)

pub bit_xor_comm : (a b : ℕ) → bit_xor a b ≡ bit_xor b a
bit_xor_comm a b = comm_below (a + b) a b (omega arith) (omega arith)

cancel_below : (n a b : ℕ) → a ≤ n → b ≤ n → bit_xor (bit_xor a b) b ≡ a
cancel_below zero zero zero p q = refl
cancel_below zero zero (suc b) p q = absurd (omega arith)
cancel_below zero (suc a) b p q = absurd (omega arith)
cancel_below (suc n) a b p q = omega (
  arith,
  bit_xor_step (bit_xor a b) b,
  bit_xor_step a b,
  ap (λ (t : ℕ). bit_xor t (b / 2)) (bit_xor-div-two a b),
  cancel_below n (a / 2) (b / 2) (omega arith) (omega arith),
)

-- Exclusive or with the same number twice changes nothing.
pub bit_xor_cancel : (a b : ℕ) → bit_xor (bit_xor a b) b ≡ a
bit_xor_cancel a b = cancel_below (a + b) a b (omega arith) (omega arith)

-- Masks and fields.

zero-bit_and : (b : ℕ) → bit_and 0 b ≡ 0
zero-bit_and b = bit_and-bitwise 0 b

and_zero_below : (n a : ℕ) → a ≤ n → bit_and a 0 ≡ 0
and_zero_below zero zero h = refl
and_zero_below zero (suc a) h = absurd (omega arith)
and_zero_below (suc n) a h = omega (arith, bit_and_step a 0, and_zero_below n (a / 2) (omega arith))

bit_and-zero : (a : ℕ) → bit_and a 0 ≡ 0
bit_and-zero a = and_zero_below a a (omega arith)

div_pow_suc : (k a : ℕ) → a / 2 ^ suc k ≡ a / 2 / 2 ^ k
div_pow_suc k a =
    ap (λ (t : ℕ). a / t) (pow-suc 2 k ∙ mul_comm (2 ^ k) 2) ∙ sym (div-div-eq-div-mul a 2 (2 ^ k))

mod_pow_suc : (k a : ℕ) → a % 2 ^ suc k ≡ a / 2 % 2 ^ k * 2 + a % 2
mod_pow_suc k a = omega (
  arith,
  pow-suc 2 k,
  ap (λ (t : ℕ). a / 2 ^ suc k * t) (pow-suc 2 k),
  ap (λ (t : ℕ). t * 2 ^ k) (div_pow_suc k a),
  div-add-mod' a (2 ^ suc k),
  div-add-mod' (a / 2) (2 ^ k),
)

-- A mask of the `k` low bits is the remainder by `2 ^ k`.
pub bit_and_mask : (k a : ℕ) → bit_and a (2 ^ k - 1) ≡ a % 2 ^ k
bit_and_mask zero a = omega (arith, bit_and-zero a)
bit_and_mask (suc k) a = omega (
  arith,
  bit_and_step a (2 ^ suc k - 1),
  pow-suc 2 k,
  one-le-pow k 2,
  mod_pow_suc k a,
  ap (λ (t : ℕ). bit_and (a / 2) t) half,
  bit_and_mask k (a / 2),
)
  where
    half : (2 ^ suc k - 1) / 2 ≡ 2 ^ k - 1
    half = omega (arith, pow-suc 2 k, one-le-pow k 2)

-- A test of bit `k`.
pub bit_and_bit : (k a : ℕ) → bit_and a (2 ^ k) ≡ a / 2 ^ k % 2 * 2 ^ k
bit_and_bit zero a = omega (arith, bit_and_step a 1, bit_and-zero (a / 2))
bit_and_bit (suc k) a = omega (
  arith,
  bit_and_step a (2 ^ suc k),
  pow-suc 2 k,
  ap (λ (t : ℕ). bit_and (a / 2) t) half,
  bit_and_bit k (a / 2),
  ap (λ (t : ℕ). t % 2 * 2 ^ suc k) (div_pow_suc k a),
  ap (λ (t : ℕ). a / 2 / 2 ^ k % 2 * t) (pow-suc 2 k),
)
  where
    half : 2 ^ suc k / 2 ≡ 2 ^ k
    half = omega (arith, pow-suc 2 k)

or_zero_below : (n a : ℕ) → a ≤ n → bit_or a 0 ≡ a
or_zero_below zero zero h = refl
or_zero_below zero (suc a) h = absurd (omega arith)
or_zero_below (suc n) a h = omega (arith, bit_or_step a 0, or_zero_below n (a / 2) (omega arith))

-- `(q << k) | r` is a sum when `r` has at most `k` bits.
pub bit_or_sum : (k q r : ℕ) → r < 2 ^ k → bit_or (q * 2 ^ k) r ≡ q * 2 ^ k + r
bit_or_sum zero q r h = ground (arith, or_zero_below q q)
bit_or_sum (suc k) q r h = omega (
  arith,
  bit_or_step (q * 2 ^ suc k) r,
  pow-suc 2 k,
  ap (λ (t : ℕ). q * t) (pow-suc 2 k),
  ap (λ (t : ℕ). bit_or t (r / 2)) half,
  bit_or_sum k q (r / 2) (omega (arith, pow-suc 2 k)),
)
  where
    half : q * 2 ^ suc k / 2 ≡ q * 2 ^ k
    half = omega (arith, ap (λ (t : ℕ). q * t) (pow-suc 2 k))

or_comm_below : (n a b : ℕ) → a ≤ n → b ≤ n → bit_or a b ≡ bit_or b a
or_comm_below zero a b p q = ap₂ bit_or (omega arith) (omega arith)
or_comm_below (suc n) a b p q = omega (
  arith,
  bit_or_step a b,
  bit_or_step b a,
  or_comm_below n (a / 2) (b / 2) (omega arith) (omega arith),
)

pub bit_or_comm : (a b : ℕ) → bit_or a b ≡ bit_or b a
bit_or_comm a b = or_comm_below (a + b) a b (omega arith) (omega arith)

-- A bit of either is a bit of both together.
pub bit_or_has : (k a b : ℕ) → a / 2 ^ k % 2 ≡ 1 → bit_or a b / 2 ^ k % 2 ≡ 1
bit_or_has zero a b h = omega (arith, bit_or_step a b)
bit_or_has (suc k) a b h =
    let half : bit_or a b / 2 ≡ bit_or (a / 2) (b / 2) = omega (arith, bit_or_step a b) in
    ap (λ (t : ℕ). t % 2) (div_pow_suc k (bit_or a b) ∙ ap (λ (t : ℕ). t / 2 ^ k) half)
    ∙ bit_or_has k (a / 2) (b / 2) (sym (ap (λ (t : ℕ). t % 2) (div_pow_suc k a)) ∙ h)
