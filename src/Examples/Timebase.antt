-- ===== src/Examples/Timebase.antt =====
-- code/qemu-cortex-m/02-systick-timebase/main.c: a tick counter that an interrupt advances, and delays on
-- it. How many interrupts come during each `wait_for_interrupt` is an argument.
pub mod Reload
pub mod Delay
mod Tests
use embedded_systems_resourc.Base.{
  ℕ, zero, suc, ◌+◌, ◌*◌, ◌/◌, ◌^◌, Bool, ◌&&◌, ◌⊎◌, inl, inr, Option, none, some, List, [], ◌∷◌,
  ◌++◌, ltb, leb, if◌then◌else◌, u32, sub32, bit_or, has, codes,
}
use embedded_systems_resourc.Uart.{puts, put_u32, put_hex32, system_clock_hz}
use embedded_systems_resourc.Base.{printed}

-- `SysTick_Handler`, on `g_ticks`, and a number of calls of it.
abbrev pub systick_handler : ℕ → ℕ
systick_handler g_ticks = u32 (g_ticks + 1)

unfoldable pub interrupts : ℕ → ℕ → ℕ
interrupts zero g_ticks = g_ticks
interrupts (suc n) g_ticks = interrupts n (systick_handler g_ticks)

-- The timer's registers.
pub record SysTick : Type 0 where
  pub load : ℕ
  pub val : ℕ
  pub ctrl : ℕ

-- `systick_init`, for a frequency that is not 0: the message with which it exits, or the registers.
unfoldable pub systick_init : ℕ → List ℕ ⊎ SysTick
systick_init hz =
    let reload = sub32 (system_clock_hz / hz) 1 in
    if ltb 0x00ffffff reload
    then inl (puts (codes "reload exceeds 24 bits - pick a faster tick\n"))
    else inr (record { load = reload; val = 0; ctrl = bit_or (bit_or (2 ^ 2) (2 ^ 1)) (2 ^ 0) })

module _ (naps : ℕ → ℕ) where
  -- The loop of `delay_ticks`, with the rounds left: `g_ticks`, and the sleeps so far.
  unfoldable pub poll : ℕ → ℕ → ℕ → ℕ → ℕ → Option (ℕ × ℕ)
  poll zero start n g_ticks slept = none
  poll (suc fuel) start n g_ticks slept =
      let rest = poll fuel start n (interrupts (naps slept) g_ticks) (slept + 1) in
      if ltb (sub32 g_ticks start) n then rest else some (g_ticks, slept)

  -- `delay_ticks`: each sleep ends with an interrupt, so that `n` rounds of the loop are enough.
  unfoldable pub delay_ticks : ℕ → ℕ → ℕ → Option (ℕ × ℕ)
  delay_ticks n g_ticks slept = poll (n + 1) g_ticks n g_ticks slept

  -- The loop of `main`, with the iterations left: the text, and the ticks.
  unfoldable pub iterations : ℕ → ℕ → ℕ → ℕ → Option (List ℕ × ℕ)
  iterations zero i g_ticks slept = some ([], g_ticks)
  iterations (suc left) i g_ticks slept = elim (delay_ticks 100 g_ticks slept) [
    | none ↦ none
    | some (now, more) ↦ elim (iterations left (u32 (i + 1)) now more) [
      | none ↦ none
      | some (text, end) ↦ some (
        printed (
            puts (codes "t = ")
            ∷ put_u32 now
            ∷ puts (codes " ms   iteration ")
            ∷ put_u32 i
            ∷ puts (codes "\n")
            ∷ text
            ∷ []),
        end,
      )
    ]
  ]

-- The end of `main`: what two reads of the control register say of COUNTFLAG.
unfoldable pub countflag_text : ℕ → ℕ → List ℕ
countflag_text c1 c2 = printed (
    puts (codes "\nCOUNTFLAG (bit 16) read twice: ")
    ∷ put_hex32 c1
    ∷ puts (codes " then ")
    ∷ put_hex32 c2
    ∷ puts (codes "\n")
    ∷ (if has (2 ^ 16) c1 && has (2 ^ 16) c2
        then puts (
            codes "Both reads show COUNTFLAG set -> this host does NOT model\n"
            ++ codes "read-to-clear. On real silicon the second read would be 0.\n")
        else if has (2 ^ 16) c1
        then puts (codes "Cleared on read, as the hardware spec requires.\n")
        else [])
    ∷ puts (
        codes "Either way the rule stands: never poll COUNTFLAG from two\n"
        ++ codes "places, because the first reader consumes the flag.\n")
    ∷ [])

-- The text of `main` before its loop.
unfoldable pub reload_text : SysTick → List ℕ
reload_text timer = printed (
    puts (codes "RELOAD = ")
    ∷ put_u32 timer.load
    ∷ puts (codes "  (")
    ∷ put_u32 (system_clock_hz / 1000)
    ∷ puts (codes " core cycles per tick)\n\n")
    ∷ [])

-- `main`, with what the two reads of the control register return: the text and the status that it exits
-- with; `none` if a delay does not end.
unfoldable pub main : (ℕ → ℕ) → ℕ → ℕ → Option (List ℕ × ℕ)
main naps c1 c2 =
    let title = puts (codes "\n=== SysTick timebase ===\n") in
    elim (systick_init 1000) [
      | inl message ↦ some (title ++ message, 1)
      | inr timer ↦ elim (iterations naps 5 1 0 0) [
        | none ↦ none
        | some (text, now) ↦
            some (printed (title ∷ reload_text timer ∷ text ∷ countflag_text c1 c2 ∷ []), 0)
      ]
    ]
