-- ===== src/Examples/Timebase/Reload.antt =====
-- The timer's reload value.
use embedded_systems_resourc.Base.{
  ℕ, zero, suc, ◌+◌, ◌-◌, ◌*◌, ◌/◌, ◌^◌, ◌≤◌, ◌<◌, ◌≡◌, refl, sym, subst, ◌≢◌, ◌⊎◌, inl, inr, arith,
  sub32, dec_le, le→ltb_false, codes,
}
use native.Mathlib.Nat.{div-mul-le_self, lt-div-mul-add, div-le_self, div-eq_of_lt}
use embedded_systems_resourc.Uart.{puts, system_clock_hz}
use embedded_systems_resourc.Examples.Timebase.{SysTick, systick_init}

some_rounds : (q hz : ℕ) → hz ≤ system_clock_hz → system_clock_hz < q * hz + hz → 1 ≤ q
some_rounds zero hz h k = omega arith
some_rounds (suc q) hz h k = omega arith

-- `systick_init` accepts every frequency up to the clock's: the timer then counts the largest whole
-- number of clocks that fits in a period, at most `2 ^ 24`, and is enabled with its interrupt. It
-- refuses those above the clock's, for which the reload value wraps below zero, and no others.
pub systick_init-reload :
    (hz : ℕ)
    → hz ≢ 0
    → ((hz ≤ system_clock_hz)
        × (timer : SysTick) × (systick_init hz ≡ inr timer)
        × ((timer.load + 1) * hz ≤ system_clock_hz)
        × (system_clock_hz < (timer.load + 1) * hz + hz)
        × (timer.load < 2 ^ 24)
        × (timer.ctrl ≡ 7))
      ⊎ ((system_clock_hz < hz)
          × (systick_init hz ≡ inl (puts (codes "reload exceeds 24 bits - pick a faster tick\n"))))
unfolding systick_init
systick_init-reload hz ne = elim (dec_le hz system_clock_hz) [
  | yes slow ↦
      let q = system_clock_hz / hz in
      let above : system_clock_hz < q * hz + hz = lt-div-mul-add (omega arith) in
      let below : q * hz ≤ system_clock_hz = div-mul-le_self system_clock_hz hz in
      let some : 1 ≤ q = some_rounds q hz slow above in
      let few : q ≤ system_clock_hz = div-le_self system_clock_hz hz in
      let load : sub32 q 1 ≡ q - 1 = omega arith in
      let again : sub32 q 1 + 1 ≡ q = omega arith in
      inl (
        slow,
        record { load = sub32 q 1; val = 0; ctrl = 7 },
        rw (systick_init, le→ltb_false 0x00ffffff (sub32 q 1) (omega arith)) refl,
        subst (λ c. c * hz ≤ system_clock_hz) (sym again) below,
        subst (λ c. system_clock_hz < c * hz + hz) (sym again) above,
        omega arith,
        refl,
      )
  | no fast ↦
      let zero_q : system_clock_hz / hz ≡ 0 = div-eq_of_lt (omega arith) in
      inr (omega arith, rw (systick_init, zero_q) refl)
]
