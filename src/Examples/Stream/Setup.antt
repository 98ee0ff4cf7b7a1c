-- ===== src/Examples/Stream/Setup.antt =====
-- The register writes of `main` in code/qemu-cortex-m/04-spsc-ring-buffer/main.c.
use embedded_systems_resourc.Base.{◌/◌, ◌∷◌, write_of, sub32, ◌<<<◌}
use embedded_systems_resourc.Uart.{system_clock_hz}
use embedded_systems_resourc.Board.{
  Accesses, uart0_im, nvic_iser0, irq_uart0, systick_load, systick_val, systick_ctrl,
  receive_interrupts, systick_on,
}

-- The interrupts of the UART, and SysTick at 2 kHz.
unfoldable pub configure : Accesses → Accesses
configure h =
    write_of systick_ctrl systick_on
    ∷ write_of systick_val 0
    ∷ write_of systick_load (sub32 (system_clock_hz / 2000) 1)
    ∷ write_of nvic_iser0 (1 <<< irq_uart0)
    ∷ write_of uart0_im receive_interrupts
    ∷ h

-- SysTick stops after phase 2.
unfoldable pub stop_ticks : Accesses → Accesses
stop_ticks h = write_of systick_ctrl 0 ∷ h
