-- ===== src/Uart/Decimal.antt =====
-- The decimal text of a number denotes it.
use embedded_systems_resourc.Base.{
  ℕ, zero, suc, ◌+◌, ◌-◌, ◌*◌, ◌/◌, ◌%◌, ◌^◌, ◌≤◌, ◌<◌, ◌≡◌, ◌≢◌, subst, refl, sym, ap, ◌∙◌, List,
  [], ◌∷◌, if◌then◌else◌, arith, ℕ_discrete, ne→==_false, ==_true,
}
use embedded_systems_resourc.Uart.{puts, digits, put_u32}

-- A decimal text, read from the left after what has been read.
unfoldable pub value : ℕ → List ℕ → ℕ
value sum [] = sum
value sum (c ∷ text) = value (sum * 10 + (c - 48)) text

value-digits : (i v : ℕ) (text : List ℕ) → v < 10 ^ i → value 0 (digits i v text) ≡ value v text
unfolding value digits
value-digits zero v text h = ap (λ n. value n text) none_left
  where
    none_left : 0 ≡ v
    none_left = omega arith
value-digits (suc i) v text h = elim (ℕ_discrete v 0) [
  | yes e ↦ rw (digits, ==_true v 0 e) (ap (λ n. value n text) (sym e))
  | no ne ↦
      rw (digits, ne→==_false v 0 ne)
        (value-digits i (v / 10) ((48 + v % 10) ∷ text) (omega arith)
          ∙ ap (λ n. value n text) whole)
]
  where
    whole : v / 10 * 10 + (48 + v % 10 - 48) ≡ v
    whole = omega arith

-- A text of digits, which `puts` leaves as it is.
pub data Digits : List ℕ → Type 0 where
  end : Digits []
  digit : (c : ℕ) (text : List ℕ) → 48 ≤ c → c ≤ 57 → Digits text → Digits (c ∷ text)

digits-Digits : (i v : ℕ) (text : List ℕ) → Digits text → Digits (digits i v text)
unfolding digits
digits-Digits zero v text d = d
digits-Digits (suc i) v text d = elim (ℕ_discrete v 0) [
  | yes e ↦ rw (digits, ==_true v 0 e) d
  | no ne ↦
      rw (digits, ne→==_false v 0 ne)
        (digits-Digits i (v / 10) ((48 + v % 10) ∷ text)
          (digit (48 + v % 10) text (omega arith) (omega arith) d))
]

puts_plain : (text : List ℕ) → Digits text → puts text ≡ text
unfolding puts
puts_plain [] end = refl
puts_plain (c ∷ text) (digit _ _ low high d) =
    rw (ne→==_false c 10 (λ e. omega arith)) (ap (◌∷◌ c) (puts_plain text d))

plain : (v : ℕ) → v ≢ 0 → put_u32 v ≡ digits 10 v []
unfolding put_u32
plain v ne =
    ap (λ b. if b then 48 ∷ [] else puts (digits 10 v [])) (ne→==_false v 0 ne)
    ∙ puts_plain (digits 10 v []) (digits-Digits 10 v [] end)

zero_text : put_u32 0 ≡ 48 ∷ []
unfolding put_u32
zero_text = refl

-- A number as it is usually written: 0 by one digit, any other without leading zeros.
pub data Numeral : List ℕ → Type 0 where
  nought : Numeral (48 ∷ [])
  leading : (c : ℕ) (text : List ℕ) → 49 ≤ c → c ≤ 57 → Digits text → Numeral (c ∷ text)

digits-zero : (i : ℕ) (text : List ℕ) → digits i 0 text ≡ text
unfolding digits
digits-zero zero text = refl
digits-zero (suc i) text = refl

-- The last digit that is put in front is the quotient that ends the loop, which is not 0.
digits-Numeral :
    (i v : ℕ) (text : List ℕ) → v < 10 ^ i → v ≢ 0 → Digits text → Numeral (digits i v text)
unfolding digits
digits-Numeral zero v text h ne d = absurd (ne (omega arith))
digits-Numeral (suc i) v text h ne d =
    rw (digits, ne→==_false v 0 ne)
      (elim (ℕ_discrete (v / 10) 0) [
        | yes e ↦
            subst Numeral
              (sym (
                ap (λ n. digits i n ((48 + v % 10) ∷ text)) e
                ∙ digits-zero i ((48 + v % 10) ∷ text)))
              (leading (48 + v % 10) text (omega arith) (omega arith) d)
        | no more ↦
            digits-Numeral i (v / 10) ((48 + v % 10) ∷ text) (omega arith) more
              (digit (48 + v % 10) text (omega arith) (omega arith) d)
      ])

-- `uart_put_u32` prints a decimal numeral that denotes the number: one digit for 0, and digits of which
-- the first is not 0 for any other number.
pub put_u32-value : (v : ℕ) → v < 2 ^ 32 → (value 0 (put_u32 v) ≡ v) × Numeral (put_u32 v)
unfolding value
put_u32-value v h = elim (ℕ_discrete v 0) [
  | yes e ↦
      subst (λ n. (value 0 (put_u32 n) ≡ n) × Numeral (put_u32 n)) (sym e)
        (ap (value 0) zero_text, subst Numeral (sym zero_text) nought)
  | no ne ↦ (
    ap (value 0) (plain v ne) ∙ value-digits 10 v [] (omega arith),
    subst Numeral (sym (plain v ne)) (digits-Numeral 10 v [] (omega arith) ne end),
  )
]
