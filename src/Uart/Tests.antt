-- ===== src/Uart/Tests.antt =====
-- Runs of the output functions, and the decimal text at a concrete number.
use embedded_systems_resourc.Base.{
  ◌≡◌, refl, [], ◌∷◌, ◌++◌, some, arith, length, drop, Device, Bool, true, false, Bool-cases, inl,
  inr, ap, has, if◌then◌else◌,
}
use embedded_systems_resourc.Uart.{
  puts, digits, put_u32, put_hex32, hex_loop, put_hex8, baud_divisor,
}
use embedded_systems_resourc.Uart.Decimal.{value, Numeral, put_u32-value}
use embedded_systems_resourc.Uart.Hex.{hex_value, put_hex32-value}
use embedded_systems_resourc.Uart.Wire.{
  Register, Accesses, fr_txff, Drains, Sent, put_text, transmitted, put_text-transmitted,
}

put_u32-1024 : put_u32 1024 ≡ 49 ∷ 48 ∷ 50 ∷ 52 ∷ []
unfolding put_u32 puts digits
put_u32-1024 = refl

put_hex8-bf : put_hex8 0xbf ≡ 66 ∷ 70 ∷ []
unfolding put_hex8
put_hex8-bf = refl

put_hex32-beef : put_hex32 0xbeef ≡ 48 ∷ 120 ∷ 48 ∷ 48 ∷ 48 ∷ 48 ∷ 66 ∷ 69 ∷ 69 ∷ 70 ∷ []
unfolding put_hex32 hex_loop puts
put_hex32-beef = refl

-- 115200 baud: 6.51 clocks, in steps of 1/64.
baud_divisor-115200 : baud_divisor 115200 ≡ (6, 32)
unfolding baud_divisor
baud_divisor-115200 = refl

put_u32-value_example : (value 0 (put_u32 1024) ≡ 1024) × Numeral (put_u32 1024)
put_u32-value_example = put_u32-value 1024 (omega arith)

beef_denotes : (length (put_hex32 0xbeef) ≡ 10) × (hex_value 0 (drop 2 (put_hex32 0xbeef)) ≡ 0xbeef)
beef_denotes = put_hex32-value 0xbeef (omega arith)

-- The queue has room after every other access.
abbrev flip : Bool → Bool
flip true = false
flip false = true

abbrev full : Accesses → Bool
full [] = true
full (a ∷ h) = flip (full h)

abbrev half_full : Device Register
half_full h Register.fr = if full h then 32 else 0
half_full h _ = 0

half_full-Drains : Drains half_full 2
half_full-Drains h = elim (Bool-cases (full h)) [
  | inl yes_full ↦ (1, omega arith, ap (λ b. has fr_txff (if flip b then 32 else 0)) yes_full)
  | inr room ↦ (0, omega arith, ap (λ b. has fr_txff (if b then 32 else 0)) room)
]

put_text-transmitted_example :
    (h' : Accesses) × (put_text half_full 2 (72 ∷ 105 ∷ []) [] ≡ some h')
    × (transmitted h' ≡ transmitted [] ++ (72 ∷ 105 ∷ []))
    × Sent half_full [] (72 ∷ 105 ∷ []) h'
put_text-transmitted_example = put_text-transmitted half_full 2 (72 ∷ 105 ∷ []) [] half_full-Drains
