-- ===== src/Examples/Priority/Setup.antt =====
-- `main` of code/qemu-cortex-m/03-nvic-priority-and-preemption/main.c: the register writes, the waits and
-- the texts. The processor takes the interrupts that the registers enable and pend; how many SysTick
-- interrupts there is time for are arguments.
use embedded_systems_resourc.Base.{
  ◌^◌, Bool, ◌&&◌, ltb, has, read_of, ℕ, zero, suc, ◌+◌, ◌/◌, false, Option, none, some, List, [],
  ◌∷◌, ◌++◌, ◌==◌, if◌then◌else◌, bit_and, bit_or, ◌<<<◌, sub32, Device, write_of, modify, codes,
  printed,
}
use embedded_systems_resourc.Uart.{puts, system_clock_hz}
use embedded_systems_resourc.Board.{
  last_written, uart0_icr, Accesses, uart0_im, nvic_iser0, nvic_ipr, irq_uart0, scb_shpr3,
  systick_load, systick_val, systick_ctrl, receive_interrupts, systick_on,
}
use embedded_systems_resourc.Examples.Priority.{
  Globals, ticks, nvic_priority_bits, bits_text, uart0_handler, result_text,
}

-- The priorities, SysTick at 1 kHz, and the interrupts of the UART.
unfoldable pub configure : Device ℕ → Accesses → Accesses
configure hw h =
    write_of nvic_iser0 (1 <<< irq_uart0)
    ∷ write_of uart0_im receive_interrupts
    ∷ write_of systick_ctrl systick_on
    ∷ write_of systick_val 0
    ∷ write_of systick_load (sub32 (system_clock_hz / 1000) 1)
    ∷ write_of (nvic_ipr irq_uart0) 0xe0
    ∷ modify hw scb_shpr3 (λ v. bit_or (bit_and v 0x00ffffff) (0x00 <<< 24)) h

-- `NVIC_ISPR0`, by its address as `main` writes it.
abbrev pub nvic_ispr0 : ℕ
nvic_ispr0 = 0xe000e200

unfoldable pub pend_uart0 : Accesses → Accesses
pend_uart0 h = write_of nvic_ispr0 (1 <<< irq_uart0) ∷ h

-- The loops that wait for the handler, with the rounds left: `naps` gives the ticks of each round.
unfoldable pub wait_entered : (ℕ → ℕ) → ℕ → ℕ → Globals → Option Globals
wait_entered naps zero slept g = none
wait_entered naps (suc fuel) slept g =
    let rest = wait_entered naps fuel (slept + 1) (ticks (naps slept) g) in
    if g.low_prio_entered == 0 then rest else some g

unfoldable pub wait_left : (ℕ → ℕ) → ℕ → ℕ → Globals → Option Globals
wait_left naps zero slept g = none
wait_left naps (suc fuel) slept g =
    let rest = wait_left naps fuel (slept + 1) (ticks (naps slept) g) in
    if g.in_low_prio then rest else some g

-- What `main` prints besides the numbers.
unfoldable pub title_text : List ℕ
title_text = puts (codes "\n=== NVIC priority and preemption ===\n\n")

unfoldable pub note_text : List ℕ
note_text = puts (
    codes "NOTE: real LM3S6965 silicon implements 3 bits (8 levels).\n"
    ++ (codes "QEMU 8.x reports 8 bits here. Treat the count as a runtime\n"
        ++ (codes "probe you should re-run on the actual part, not as a fact\n"
            ++ codes "you can carry between an emulator and hardware.\n\n")))

unfoldable pub priorities_text : List ℕ
priorities_text = printed (
    puts (codes "SysTick priority 0 (high), UART0 priority 0xE0 (low).\n")
    ∷ puts (codes "Type a character to fire the low-priority UART ISR;\n")
    ∷ puts (codes "SysTick will preempt it mid-flight.\n\n")
    ∷ [])

unfoldable pub closing_text : List ℕ
closing_text = printed (
    puts (codes "\nThings to take away:\n")
    ∷ puts (codes "  * clear the peripheral flag at the TOP of the ISR\n")
    ∷ puts (codes "  * core exceptions use SHPR, external IRQs use NVIC_IPR\n")
    ∷ puts (codes "  * always measure the implemented priority bits\n")
    ∷ [])

-- The SysTick interrupts of a run: until UART0 is pended, and within its handler.
pub record Run : Type 0 where
  pub early : ℕ
  pub before : ℕ
  pub busy : ℕ
  pub leaving : ℕ
  pub printing : ℕ
  pub naps : ℕ → ℕ

-- What `nvic_priority_bits` does to the register, which holds `held`.
unfoldable pub probe_accesses : ℕ → Accesses → Accesses
probe_accesses held h =
    write_of (nvic_ipr irq_uart0) held
    ∷ read_of (nvic_ipr irq_uart0)
    ∷ write_of (nvic_ipr irq_uart0) 0xff
    ∷ read_of (nvic_ipr irq_uart0)
    ∷ h

-- The processor's side: what the registers hold, 0 after reset, decides which interrupts are taken.
abbrev pub written : ℕ → Accesses → ℕ
written reg h = elim (last_written reg h) [ none ↦ 0 | some v ↦ v ]

-- SysTick counts and interrupts.
abbrev pub systick_runs : Accesses → Bool
systick_runs h = has (1 <<< 0) (written systick_ctrl h) && has (1 <<< 1) (written systick_ctrl h)

-- SysTick preempts the handler of UART0: the smaller priority, of what the bytes store, comes first.
abbrev pub nests : (ℕ → ℕ) → Accesses → Bool
nests stored h =
    ltb (stored (written scb_shpr3 h / 2 ^ 24)) (stored (written (nvic_ipr irq_uart0) h))

-- The interrupt of UART0 is enabled and pending.
abbrev pub taken : Accesses → Bool
taken h =
    has (1 <<< irq_uart0) (written nvic_iser0 h) && has (1 <<< irq_uart0) (written nvic_ispr0 h)

-- The SysTick interrupts that come, of those that there is time for. Where SysTick does not preempt, one
-- that is held back until the handler returns is left out: no text depends on it.
unfoldable pub pace : (ℕ → ℕ) → Accesses → Run → Run
pace stored h run =
    if systick_runs h
    then (if nests stored h
        then run
        else record run { before = 0; busy = 0; leaving = 0; printing = 0 })
    else record { early = 0; before = 0; busy = 0; leaving = 0; printing = 0; naps = λ slept. 0 }

-- The interrupt of UART0, whose handler first writes to the clear register.
unfoldable pub deliver : Run → Globals → Accesses → (Globals × List ℕ) × Accesses
deliver run g h =
    if taken h
    then (
      uart0_handler run.before run.busy run.leaving run.printing g,
      write_of uart0_icr 0xffff ∷ h,
    )
    else ((g, []), h)

abbrev pub at_reset : Globals
at_reset = record { systick_count = 0; low_prio_entered = 0; preempted_at = 0; in_low_prio = false }

-- The waits after the handler, each with one round, and what is printed then.
unfoldable pub finish : (ℕ → ℕ) → Globals → Option (List ℕ)
finish naps g = elim (wait_entered naps 1 0 g) [
  | none ↦ none
  | some g1 ↦ elim (wait_left naps 1 0 g1) [
    | none ↦ none
    | some g2 ↦ some (printed (result_text g2 ∷ closing_text ∷ []))
  ]
]

-- What `main` prints, from the count of the probe, and what the handler has left and printed.
unfoldable pub told : Option ℕ → Globals × List ℕ → (ℕ → ℕ) → Option (List ℕ)
told none handled naps = none
told (some bits) (g, handler_text) naps = elim (finish naps g) [
  | none ↦ none
  | some last_text ↦ some (
      printed
        (title_text ∷ bits_text bits ∷ note_text ∷ priorities_text ∷ handler_text ∷ last_text ∷ []))
]

-- `main` after `uart_init`, on priority bytes that keep `stored` of a byte, the one of UART0 `held` at
-- first, when no character is typed: the text, `none` where it waits for ever, and the accesses of
-- registers. It exits with 0.
unfoldable pub main : Device ℕ → (ℕ → ℕ) → ℕ → Run → Accesses → Option (List ℕ) × Accesses
main hw stored held run h =
    let h1 = configure hw (probe_accesses held h) in
    let r = pace stored h1 run in
    let (handled, h2) = deliver r (ticks r.early at_reset) (pend_uart0 h1) in
    (told (nvic_priority_bits stored held).0 handled r.naps, h2)
