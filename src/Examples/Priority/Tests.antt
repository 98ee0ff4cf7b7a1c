-- ===== src/Examples/Priority/Tests.antt =====
-- A core with three priority bits, a handler that is interrupted, and a whole run.
use embedded_systems_resourc.Base.{
  ℕ, ◌-◌, ◌/◌, ◌%◌, ◌^◌, ◌<◌, ◌≡◌, refl, some, false, [], ◌∷◌, arith, printed, Device,
}
use embedded_systems_resourc.Board.{
  uart0_im, receive_interrupts, last_written, nvic_ipr, irq_uart0, scb_shpr3,
}
use embedded_systems_resourc.Examples.Priority.{nvic_priority_bits, bits_text, result_text}
use embedded_systems_resourc.Examples.Priority.Probe.{top_bits}
use embedded_systems_resourc.Examples.Priority.Setup.{
  Run, taken, pend_uart0, configure, main, title_text, note_text, priorities_text, closing_text,
}
use embedded_systems_resourc.Examples.Priority.Levels.{configured_priorities}
use embedded_systems_resourc.Examples.Priority.Whole.{handler_text, after_handler, main-nested}

-- Every register reads as all ones.
abbrev ones : Device ℕ
ones h reg = 0xffffffff

configured_priorities_example :
    (nvic_priority_bits (top_bits 3) 0xe0 ≡ (some 3, 0xe0))
    × (last_written (nvic_ipr irq_uart0) (configure ones []) ≡ some 0xe0)
    × (last_written scb_shpr3 (configure ones []) ≡ some (ones [] scb_shpr3 % 2 ^ 24))
    × (top_bits 3 (ones [] scb_shpr3 % 2 ^ 24 / 2 ^ 24) < top_bits 3 0xe0)
    × (top_bits 3 (2 ^ (8 - 3) - 1) ≡ top_bits 3 0)
configured_priorities_example =
    configured_priorities ones [] 3 0xe0 (omega arith) (omega arith) refl

-- SysTick comes 40 times before the handler runs, 251 times within it, and twice while it prints.
abbrev busy_run : Run
busy_run = record {
  early = 40;
  before = 0;
  busy = 250;
  leaving = 1;
  printing = 2;
  naps = λ slept. 1;
}

main-nested_example :
    ((main ones (top_bits 3) 0xe0 busy_run []).0
      ≡ some (
          printed (
            title_text
            ∷ bits_text 3
            ∷ note_text
            ∷ priorities_text
            ∷ handler_text 250
            ∷ printed (result_text (after_handler busy_run) ∷ closing_text ∷ [])
            ∷ [])))
    × (last_written uart0_im (main ones (top_bits 3) 0xe0 busy_run []).1 ≡ some receive_interrupts)
main-nested_example =
    main-nested ones 3 0xe0 busy_run [] (omega arith) (omega arith) refl (omega arith)

-- Without the enable, or without the pend, the interrupt is not taken.
taken_disabled : taken (pend_uart0 []) ≡ false
unfolding pend_uart0
taken_disabled = refl

taken_unpended : taken (configure ones []) ≡ false
unfolding configure
taken_unpended = refl
