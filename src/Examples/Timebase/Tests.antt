-- ===== src/Examples/Timebase/Tests.antt =====
-- Delays with one and with several ticks per sleep, and reload values.
use embedded_systems_resourc.Base.{
  ℕ, ◌+◌, ◌*◌, ◌^◌, ◌≤◌, ◌<◌, ◌≡◌, refl, ◌⊎◌, inl, inr, Option, none, some, List, u32, codes, arith,
}
use embedded_systems_resourc.Uart.{puts, system_clock_hz}
use embedded_systems_resourc.Examples.Timebase.{
  SysTick, systick_init, main, iterations, delay_ticks, poll, interrupts,
}
use embedded_systems_resourc.Examples.Timebase.Reload.{systick_init-reload}
use embedded_systems_resourc.Examples.Timebase.Delay.{during, delay_ticks-elapsed}

abbrev three_a_sleep : ℕ → ℕ
three_a_sleep k = 3

-- The counter wraps during the delay.
delay_over_wrap : delay_ticks three_a_sleep 10 0xfffffffe 0 ≡ some (10, 4)
unfolding delay_ticks poll interrupts
delay_over_wrap = refl

delay_ticks-elapsed_example :
    (m : ℕ) × (delay_ticks three_a_sleep 10 0xfffffffe 0
      ≡ some (u32 (0xfffffffe + during three_a_sleep 0 m), 0 + m))
    × (10 ≤ during three_a_sleep 0 m)
    × ((j : ℕ) → j < m → during three_a_sleep 0 j < 10)
delay_ticks-elapsed_example =
    delay_ticks-elapsed three_a_sleep 10 0xfffffffe 0 (λ k. (omega arith, omega arith))
      (omega arith)

-- One tick a second is accepted, although the clock is 12 MHz.
one_hertz : systick_init 1 ≡ inr (record { load = 11999999; val = 0; ctrl = 7 })
unfolding systick_init
one_hertz = refl

systick_init-reload_example :
    ((1000 ≤ system_clock_hz)
      × (timer : SysTick) × (systick_init 1000 ≡ inr timer)
      × ((timer.load + 1) * 1000 ≤ system_clock_hz)
      × (system_clock_hz < (timer.load + 1) * 1000 + 1000)
      × (timer.load < 2 ^ 24)
      × (timer.ctrl ≡ 7))
    ⊎ ((system_clock_hz < 1000)
        × (systick_init 1000 ≡ inl (puts (codes "reload exceeds 24 bits - pick a faster tick\n"))))
systick_init-reload_example = systick_init-reload 1000 (λ e. absurd (omega arith))

-- `main` ends when every sleep lasts one tick.
abbrev status : Option (List ℕ × ℕ) → ℕ
status none = 2
status (some (text, code)) = code

main_ends : status (main (λ k. 1) 7 7) ≡ 0
unfolding main systick_init iterations delay_ticks poll interrupts
main_ends = refl
