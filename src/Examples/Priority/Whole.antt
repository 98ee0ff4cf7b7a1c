-- ===== src/Examples/Priority/Whole.antt =====
-- A whole run of code/qemu-cortex-m/03-nvic-priority-and-preemption/main.c.
use embedded_systems_resourc.Base.{
  Device, lt→ltb, ltb, ◌/◌, ℕ, ◌+◌, ◌^◌, ◌≤◌, ◌<◌, ◌≡◌, refl, ap, ap₂, ◌∙◌, false, some, [], ◌∷◌,
  List, arith, ◌==◌, if◌then◌else◌, u32, codes, printed,
}
use embedded_systems_resourc.Uart.{puts, put_u32}
use embedded_systems_resourc.Examples.Priority.{
  nvic_priority_bits, Globals, ticks, uart0_handler, bits_text, result_text,
}
use embedded_systems_resourc.Examples.Priority.Probe.{top_bits, nvic_priority_bits-top_bits}
use embedded_systems_resourc.Examples.Priority.Nesting.{
  ticks-count, ticks-others, ticks-unmarked, uart0_handler-preempted,
}
use embedded_systems_resourc.Board.{Accesses, last_written, scb_shpr3, uart0_im, receive_interrupts}
use embedded_systems_resourc.Examples.Priority.Levels.{levels, shpr3_value}
use embedded_systems_resourc.Examples.Priority.Setup.{
  Run, pace, written, configure, probe_accesses, deliver, pend_uart0, at_reset, wait_entered,
  wait_left, finish, told, main, title_text, note_text, priorities_text, closing_text,
}

-- What the handler prints when SysTick has come `busy` times.
abbrev pub handler_text : ℕ → List ℕ
handler_text busy = printed (
    puts (codes "  [UART0 ISR] ran while SysTick advanced ")
    ∷ put_u32 busy
    ∷ puts (codes " ticks -> it preempted me\n")
    ∷ [])

-- The globals after it.
abbrev pub after_handler : Run → Globals
after_handler run =
    let nested = run.before + run.busy + run.leaving in
    record {
      systick_count = run.early + (nested + run.printing);
      low_prio_entered = 1;
      preempted_at = if nested == 0 then 0 else run.early + 1;
      in_low_prio = false;
    }

handled :
    (run : Run)
    → run.early + (run.before + run.busy + run.leaving + run.printing) < 2 ^ 32
    → uart0_handler run.before run.busy run.leaving run.printing (ticks run.early at_reset)
      ≡ (after_handler run, handler_text run.busy)
handled run h =
    let g = ticks run.early at_reset in
    let nested = run.before + run.busy + run.leaving in
    let count : g.systick_count ≡ run.early =
      ticks-count run.early at_reset (omega arith) ∙ omega arith in
    let clear = ticks-unmarked run.early at_reset refl in
    let entered = (ticks-others run.early at_reset).0 in
    let (total, once, out, mark, text) =
      uart0_handler-preempted run.before run.busy run.leaving run.printing g clear
        (omega (arith, count)) in
    let total' = total ∙ ap (λ c. c + (nested + run.printing)) count in
    let once' = once ∙ ap (λ e. u32 (e + 1)) entered in
    let mark' = mark ∙ ap (λ c. if nested == 0 then 0 else c + 1) count in
    λ i. (
      record {
        systick_count = total' i;
        low_prio_entered = once' i;
        preempted_at = mark' i;
        in_low_prio = out i;
      },
      text i,
    )

-- With the priorities that `main` writes, SysTick runs and preempts the handler.
paced :
    (hw : Device ℕ) (k : ℕ) (run : Run) (h : Accesses)
    → 1 ≤ k
    → k ≤ 8
    → pace (top_bits k) (configure hw h) run ≡ run
unfolding pace configure
paced hw k run h some_bit few =
    let value : written scb_shpr3 (configure hw h) / 2 ^ 24 ≡ 0 =
      ap (λ v. v / 2 ^ 24) (shpr3_value hw h) ∙ omega arith in
    ap (λ b. if b then run else record run { before = 0; busy = 0; leaving = 0; printing = 0 })
      (ap (λ v. ltb (top_bits k v) (top_bits k 0xe0)) value
        ∙ lt→ltb (top_bits k 0) (top_bits k 0xe0) (levels k some_bit few).0)

-- On a core whose priority bytes keep their `k` top bits, from 1 to 8, and when no character is typed: with
-- what `main` has written, the processor takes the interrupt of UART0 and SysTick preempts its
-- handler, `main` gets past both of its waits, and it prints the whole text: the `k` bits, how many
-- ticks the handler saw while it was busy, that it was entered once, and the first tick that came
-- before it cleared its flag, if any came, for ticks that do not wrap. The receive interrupts of
-- the UART are on in the end.
pub main-nested :
    (hw : Device ℕ) (k held : ℕ) (run : Run) (h : Accesses)
    → 1 ≤ k
    → k ≤ 8
    → top_bits k held ≡ held
    → run.early + (run.before + run.busy + run.leaving + run.printing) < 2 ^ 32
    → ((main hw (top_bits k) held run h).0
        ≡ some (
            printed (
              title_text
              ∷ bits_text k
              ∷ note_text
              ∷ priorities_text
              ∷ handler_text run.busy
              ∷ printed (result_text (after_handler run) ∷ closing_text ∷ [])
              ∷ [])))
      × (last_written uart0_im (main hw (top_bits k) held run h).1 ≡ some receive_interrupts)
unfolding main told finish wait_entered wait_left deliver pend_uart0 configure
main-nested hw k held run h some_bit few kept small = (
  ap
        (λ r.
          told (nvic_priority_bits (top_bits k) held).0
            (uart0_handler r.before r.busy r.leaving r.printing (ticks r.early at_reset)) r.naps)
        (paced hw k run (probe_accesses held h) some_bit few)
      ∙ ap₂ (λ count r. told count r run.naps)
          (ap (λ r. r.0) (nvic_priority_bits-top_bits k held few kept)) (handled run small),
  refl,
)
