-- ===== src/Spi/Prescaler.antt =====
-- The divider that spi_init chooses, and what it writes to CR1.
use embedded_systems_resourc.Base.{
  ℕ, zero, suc, ◌+◌, ◌*◌, ◌/◌, ◌%◌, ◌^◌, ◌≤◌, ◌<◌, ◌≡◌, refl, sym, ap, subst, ◌∙◌, ◌⊎◌, inl, inr,
  Option, none, some, List, ◌==◌, ==_true, [], ◌∷◌, ◌++◌, append_assoc, arith, if◌then◌else◌, Bool,
  true, false, has, u32, bit_or, dec_lt, ℕ_discrete, lt→ltb, le→ltb_false, write_of, Device,
}
use native.Mathlib.Nat.{pow-suc, mul_comm}
use embedded_systems_resourc.Spi.{Register, Accesses, prescale, control, set_pins, configure, init}

-- The divider that a value of CR1 selects: `2 ^ (BR + 1)`, with BR in bits 3 to 5.
abbrev pub sck_divider : ℕ → ℕ
sck_divider cr1 = 2 ^ (cr1 / 8 % 8 + 1)

-- What was written to CR1, the first value first.
unfoldable pub cr1_writes : Accesses → List ℕ
cr1_writes [] = []
cr1_writes (write_of Register.cr1 v ∷ h) = cr1_writes h ++ (v ∷ [])
cr1_writes (_ ∷ h) = cr1_writes h

-- What was last written to CR1.
unfoldable pub last_cr1 : Accesses → Option ℕ
last_cr1 [] = none
last_cr1 (write_of Register.cr1 v ∷ h) = some v
last_cr1 (_ ∷ h) = last_cr1 h

-- CR1 reads back what was last written to it.
abbrev pub Keeps : Device Register → Type 0
Keeps hw = (h : Accesses) (v : ℕ) → last_cr1 h ≡ some v → hw h Register.cr1 ≡ v

-- The SPI is on: SPE, bit 6 of CR1.
abbrev pub enabled : ℕ → Bool
enabled cr1 = cr1 / 2 ^ 6 % 2 == 1

-- The smallest divider `2 ^ (br + 1)` that keeps to the limit, or the largest one there is.
record Chosen (pclk2_hz sck_hz_max br : ℕ) : Type 0 where
  pub in_field : br ≤ 7
  pub slow_enough : (pclk2_hz / 2 ^ (br + 1) ≤ sck_hz_max) ⊎ (br ≡ 7)
  pub smallest : (b : ℕ) → b < br → sck_hz_max < pclk2_hz / 2 ^ (b + 1)

small_power : (k : ℕ) → k < 8 → 2 ^ (k + 1) < 2 ^ 16
small_power zero h = omega arith
small_power (suc zero) h = omega arith
small_power (suc (suc zero)) h = omega arith
small_power (suc (suc (suc zero))) h = omega arith
small_power (suc (suc (suc (suc zero)))) h = omega arith
small_power (suc (suc (suc (suc (suc zero))))) h = omega arith
small_power (suc (suc (suc (suc (suc (suc zero)))))) h = omega arith
small_power (suc (suc (suc (suc (suc (suc (suc zero))))))) h = omega arith
small_power (suc (suc (suc (suc (suc (suc (suc (suc k)))))))) h = absurd (omega arith)

next_divider : (k : ℕ) → k < 8 → u32 (2 ^ (k + 1) * 2) ≡ 2 ^ (k + 1 + 1)
next_divider k h = omega (
  arith,
  small_power k h,
  mul_comm (2 ^ (k + 1)) 2,
  pow-suc 2 (k + 1),
  ap (λ (e : ℕ). 2 ^ e) next,
)
  where
    next : k + 1 + 1 ≡ suc (k + 1)
    next = omega arith

module _ (pclk2_hz sck_hz_max : ℕ) where
  prescale-Chosen :
      (left br : ℕ)
      → br + left ≡ 7
      → ((b : ℕ) → b < br → sck_hz_max < pclk2_hz / 2 ^ (b + 1))
      → (n : ℕ) × (prescale pclk2_hz sck_hz_max (suc left) br (2 ^ (br + 1)) ≡ some n)
        × Chosen pclk2_hz sck_hz_max n
  unfolding prescale
  prescale-Chosen zero br e below = (
    br,
    ground arith,
    record { in_field = omega arith; slow_enough = inr (omega arith); smallest = below },
  )
  prescale-Chosen (suc left) br e below = elim (dec_lt sck_hz_max (pclk2_hz / 2 ^ (br + 1))) [
    | no slow ↦ (
      br,
      rw (prescale, le→ltb_false sck_hz_max (pclk2_hz / 2 ^ (br + 1)) (omega arith)) refl,
      record { in_field = omega arith; slow_enough = inl (omega arith); smallest = below },
    )
    | yes fast ↦
        let further : (b : ℕ) → b < br + 1 → sck_hz_max < pclk2_hz / 2 ^ (b + 1) = λ b h.
          elim (ℕ_discrete b br) [
            | yes same ↦ subst (λ c. sck_hz_max < pclk2_hz / 2 ^ (c + 1)) (sym same) fast
            | no before ↦ below b (omega arith)
          ] in
        let (n, ends, chosen) = prescale-Chosen left (br + 1) (omega arith) further in
        (
          n,
          rw
              (
                prescale,
                lt→ltb sck_hz_max (pclk2_hz / 2 ^ (br + 1)) fast,
                lt→ltb br 7 (omega arith),
                next_divider br (omega arith),
              )
              ends,
          chosen,
        )
  ]

-- The words that `control` can give, by its two tests.
abbrev word : ℕ → Bool → Bool → ℕ
word br phase polarity =
    bit_or
      (bit_or (bit_or (bit_or (bit_or (2 ^ 2) (2 ^ 9)) (2 ^ 8)) (br * 2 ^ 3))
        (if phase then 2 ^ 0 else 0))
      (if polarity then 2 ^ 1 else 0)

both_tests :
    (P : Bool → Bool → Type 0)
    → P true true
    → P true false
    → P false true
    → P false false
    → (a b : Bool) → P a b
both_tests P tt tf ft ff true true = tt
both_tests P tt tf ft ff true false = tf
both_tests P tt tf ft ff false true = ft
both_tests P tt tf ft ff false false = ff

-- What a value of CR1 says of the divider and of SPE.
abbrev Field : ℕ → ℕ → Type 0
Field br cr1 = (cr1 / 8 % 8 ≡ br) × (cr1 / 2 ^ 6 % 2 ≡ 1)

word-Field :
    (br : ℕ) → br ≤ 7 → (phase polarity : Bool) → Field br (bit_or (2 ^ 6) (word br phase polarity))
word-Field zero h phase polarity =
    both_tests (λ a b. Field 0 (bit_or (2 ^ 6) (word 0 a b))) (refl, refl) (refl, refl) (refl, refl)
      (refl, refl) phase polarity
word-Field (suc zero) h phase polarity =
    both_tests (λ a b. Field 1 (bit_or (2 ^ 6) (word 1 a b))) (refl, refl) (refl, refl) (refl, refl)
      (refl, refl) phase polarity
word-Field (suc (suc zero)) h phase polarity =
    both_tests (λ a b. Field 2 (bit_or (2 ^ 6) (word 2 a b))) (refl, refl) (refl, refl) (refl, refl)
      (refl, refl) phase polarity
word-Field (suc (suc (suc zero))) h phase polarity =
    both_tests (λ a b. Field 3 (bit_or (2 ^ 6) (word 3 a b))) (refl, refl) (refl, refl) (refl, refl)
      (refl, refl) phase polarity
word-Field (suc (suc (suc (suc zero)))) h phase polarity =
    both_tests (λ a b. Field 4 (bit_or (2 ^ 6) (word 4 a b))) (refl, refl) (refl, refl) (refl, refl)
      (refl, refl) phase polarity
word-Field (suc (suc (suc (suc (suc zero))))) h phase polarity =
    both_tests (λ a b. Field 5 (bit_or (2 ^ 6) (word 5 a b))) (refl, refl) (refl, refl) (refl, refl)
      (refl, refl) phase polarity
word-Field (suc (suc (suc (suc (suc (suc zero)))))) h phase polarity =
    both_tests (λ a b. Field 6 (bit_or (2 ^ 6) (word 6 a b))) (refl, refl) (refl, refl) (refl, refl)
      (refl, refl) phase polarity
word-Field (suc (suc (suc (suc (suc (suc (suc zero))))))) h phase polarity =
    both_tests (λ a b. Field 7 (bit_or (2 ^ 6) (word 7 a b))) (refl, refl) (refl, refl) (refl, refl)
      (refl, refl) phase polarity
word-Field (suc (suc (suc (suc (suc (suc (suc (suc k)))))))) h phase polarity = absurd (omega arith)

control-Field : (mode br : ℕ) → br ≤ 7 → Field br (bit_or (2 ^ 6) (control mode br))
unfolding control
control-Field mode br h = word-Field br h (has 1 mode) (has 2 mode)

-- Where CR1 reads back what was last written to it, `spi_init` returns, having written to CR1 in turn 0,
-- the configuration for `mode` and `br`, and the same with SPE; that last value has SPE set, and its
-- divider is the smallest power of two, from 2 to 256, for which `pclk2_hz / divider`, rounded down,
-- is at most `sck_hz_max`, and 256 when none is.
pub spi_init-divider :
    (hw : Device Register) (mode pclk2_hz sck_hz_max : ℕ) (h : Accesses)
    → Keeps hw
    → (h' : Accesses) × (br : ℕ) × (init hw mode pclk2_hz sck_hz_max h ≡ some h')
      × (cr1_writes h'
          ≡ cr1_writes h ++ (0 ∷ control mode br ∷ bit_or (2 ^ 6) (control mode br) ∷ []))
      × (last_cr1 h' ≡ some (bit_or (2 ^ 6) (control mode br)))
      × (enabled (bit_or (2 ^ 6) (control mode br)) ≡ true)
      × (sck_divider (bit_or (2 ^ 6) (control mode br)) ≡ 2 ^ (br + 1))
      × (br ≤ 7)
      × ((pclk2_hz / 2 ^ (br + 1) ≤ sck_hz_max) ⊎ (br ≡ 7))
      × ((b : ℕ) → b < br → sck_hz_max < pclk2_hz / 2 ^ (b + 1))
unfolding init configure set_pins cr1_writes last_cr1
spi_init-divider hw mode pclk2_hz sck_hz_max h keeps =
    let (br, ends, chosen) =
      prescale-Chosen pclk2_hz sck_hz_max 7 0 refl (λ b h. absurd (omega arith)) in
    let before =
      write_of Register.cr2 0
      ∷ write_of Register.cr1 (control mode br)
      ∷ write_of Register.cr1 0
      ∷ set_pins hw h in
    let kept : bit_or (2 ^ 6) (hw before Register.cr1) ≡ bit_or (2 ^ 6) (control mode br) =
      ap (bit_or (2 ^ 6)) (keeps before (control mode br) refl) in
    let (field, on) = control-Field mode br chosen.in_field in
    (
      configure hw mode br (set_pins hw h),
      br,
      ap (λ r. elim r [ none ↦ none | some n ↦ some (configure hw mode n (set_pins hw h)) ]) ends,
      append_assoc (cr1_writes h ++ (0 ∷ [])) (control mode br ∷ []) _
          ∙ append_assoc (cr1_writes h) (0 ∷ []) _
          ∙ ap (λ v. cr1_writes h ++ (0 ∷ control mode br ∷ v ∷ [])) kept,
      ap some kept,
      ==_true (bit_or (2 ^ 6) (control mode br) / 2 ^ 6 % 2) 1 on,
      ap (λ (e : ℕ). 2 ^ (e + 1)) field,
      chosen.in_field,
      chosen.slow_enough,
      chosen.smallest,
    )
