-- ===== src/Uart/Hex.antt =====
-- The numbers that hexadecimal texts stand for.
use embedded_systems_resourc.Base.{
  ℕ, zero, suc, ◌+◌, ◌-◌, ◌*◌, ◌/◌, ◌%◌, ◌^◌, ◌≤◌, ◌<◌, ◌≡◌, refl, ap, ap₂, ◌∙◌, List, [], ◌∷◌,
  Bool, true, ◌&&◌, ltb, ◌==◌, if◌then◌else◌, arith, length, drop, bit_and, bit_and_mask, get_or,
  ◌>>>◌,
}
use native.Mathlib.Nat.{
  add-mul-mod_self_left, mod-eq_of_lt, mod-lt, one-le-pow, mul-le-mul_right, div-add-mod',
  pow-succ',
}
use embedded_systems_resourc.Uart.{puts, hex_digits, hex_loop, put_hex32, put_hex8}

-- The value of a hexadecimal digit in capitals.
abbrev pub nibble : ℕ → ℕ
nibble c = if ltb c 58 then c - 48 else c - 55

unfoldable pub hex_value : ℕ → List ℕ → ℕ
hex_value sum [] = sum
hex_value sum (c ∷ text) = hex_value (sum * 16 + nibble c) text

-- Whether the values of the digits go up by one from `first`.
count_up : ℕ → List ℕ → Bool
count_up first [] = true
count_up first (c ∷ cs) = nibble c == first && count_up (suc first) cs

value_at :
    (cs : List ℕ) (first i : ℕ)
    → count_up first cs ≡ true
    → i < length cs
    → nibble (get_or cs i 0) ≡ first + i
unfolding count_up
value_at [] first i up within = absurd (omega arith)
value_at (c ∷ cs) first zero up within = ground arith
value_at (c ∷ cs) first (suc i) up within = ground (arith, value_at cs (suc first) i)

digits_up : count_up 0 hex_digits ≡ true
unfolding count_up
digits_up = refl

nibble-digit : (d : ℕ) → d < 16 → nibble (get_or hex_digits d 0) ≡ d
nibble-digit d h = value_at hex_digits 0 d digits_up h ∙ omega arith

shifted_nibble : (v k : ℕ) → nibble (get_or hex_digits (bit_and (v >>> k) 0xf) 0) ≡ v / 2 ^ k % 16
shifted_nibble v k =
    ap (λ d. nibble (get_or hex_digits d 0)) (bit_and_mask 4 (v >>> k))
    ∙ nibble-digit ((v >>> k) % 16) (omega arith)

-- One more digit in front of those that `p` counts.
mod_digit : (v p : ℕ) → 0 < p → v % (16 * p) ≡ v / p % 16 * p + v % p
mod_digit v p pos =
    ap (λ x. x % (16 * p)) whole
    ∙ add-mul-mod_self_left (v / p % 16 * p + v % p) (16 * p) (v / p / 16)
    ∙ mod-eq_of_lt small
  where
    low : v % p < p
    low = mod-lt v pos

    digit : v / p % 16 * p ≤ 15 * p
    digit = mul-le-mul_right p (omega arith)

    small : v / p % 16 * p + v % p < 16 * p
    small = omega (arith, low, digit)

    parts : v / p * p ≡ v / p % 16 * p + 16 * p * (v / p / 16)
    parts = ap (λ q. q * p) quotient ∙ omega arith
      where
        quotient : v / p ≡ v / p % 16 + 16 * (v / p / 16)
        quotient = omega arith

    whole : v ≡ v / p % 16 * p + v % p + 16 * p * (v / p / 16)
    whole = omega (arith, div-add-mod' v p, parts)

sixteen_times : (n : ℕ) → 16 * 2 ^ (4 * n) ≡ 2 ^ (4 * suc n)
sixteen_times n = omega (
  arith,
  pow-succ' 2 (4 * n),
  pow-succ' 2 (suc (4 * n)),
  pow-succ' 2 (suc (suc (4 * n))),
  pow-succ' 2 (suc (suc (suc (4 * n)))),
  ap (λ k. 2 ^ k) four_more,
)
  where
    four_more : suc (suc (suc (suc (4 * n)))) ≡ 4 * suc n
    four_more = omega arith

hex_loop-value : (n v sum : ℕ) → hex_value sum (hex_loop n v) ≡ sum * 2 ^ (4 * n) + v % 2 ^ (4 * n)
unfolding hex_value hex_loop
hex_loop-value zero v sum = omega arith
hex_loop-value (suc n) v sum =
    ap (λ d. hex_value (sum * 16 + d) (hex_loop n v)) (shifted_nibble v (4 * n))
    ∙ hex_loop-value n v (sum * 16 + v / 2 ^ (4 * n) % 16)
    ∙ omega (arith, mod_digit v (2 ^ (4 * n)) (one-le-pow (4 * n) 2 (omega arith)))
    ∙ ap (λ p. sum * p + v % p) (sixteen_times n)

length-hex_loop : (n v : ℕ) → length (hex_loop n v) ≡ n
unfolding hex_loop
length-hex_loop zero v = refl
length-hex_loop (suc n) v = ap suc (length-hex_loop n v)

-- `uart_put_hex32` prints "0x" and eight digits that denote the number.
pub put_hex32-value :
    (v : ℕ) → v < 2 ^ 32 → (length (put_hex32 v) ≡ 10) × (hex_value 0 (drop 2 (put_hex32 v)) ≡ v)
unfolding put_hex32 puts
put_hex32-value v h =
    (ap (λ n. suc (suc n)) (length-hex_loop 8 v), hex_loop-value 8 v 0 ∙ omega arith)

-- `uart_put_hex8` prints two digits that denote the number.
pub put_hex8-value : (v : ℕ) → v < 2 ^ 8 → hex_value 0 (put_hex8 v) ≡ v
unfolding put_hex8 hex_value
put_hex8-value v h =
    ap₂ (λ hi lo. (0 * 16 + hi) * 16 + lo) (shifted_nibble v 4) low_nibble ∙ omega arith
  where
    low_nibble : nibble (get_or hex_digits (bit_and v 0xf) 0) ≡ v % 16
    low_nibble =
        ap (λ d. nibble (get_or hex_digits d 0)) (bit_and_mask 4 v)
        ∙ nibble-digit (v % 16) (omega arith)
