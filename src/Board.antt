-- ===== src/Board.antt =====
-- code/qemu-cortex-m/common/lm3s6965.h: the registers by their addresses. A register is the number that
-- `REG32` casts to a pointer, and a history of accesses has the latest first.
pub mod Critical
pub mod Semihost
mod Tests
use embedded_systems_resourc.Base.{
  ℕ, ◌+◌, ◌-◌, ◌^◌, ◌≡◌, Option, none, some, List, [], ◌∷◌, ◌==◌, if◌then◌else◌, bit_or, ◌<<<◌,
  Access, read_of, write_of,
}

abbrev pub Accesses : Type 0
Accesses = List (Access ℕ)

abbrev pub uart0_im : ℕ
uart0_im = 0x4000c038

abbrev pub uart0_icr : ℕ
uart0_icr = 0x4000c044

abbrev pub systick_ctrl : ℕ
systick_ctrl = 0xe000e010

abbrev pub systick_load : ℕ
systick_load = 0xe000e014

abbrev pub systick_val : ℕ
systick_val = 0xe000e018

abbrev pub nvic_iser0 : ℕ
nvic_iser0 = 0xe000e100

-- `NVIC_IPR(n)`, the priority byte of interrupt `n`.
abbrev pub nvic_ipr : ℕ → ℕ
nvic_ipr n = 0xe000e400 + n

abbrev pub scb_shpr3 : ℕ
scb_shpr3 = 0xe000ed20

abbrev pub irq_uart0 : ℕ
irq_uart0 = 5

-- `UART_IM_RXIM | UART_IM_RTIM`
abbrev pub receive_interrupts : ℕ
receive_interrupts = bit_or (1 <<< 4) (1 <<< 6)

-- `SYSTICK_CTRL_CLKSOURCE | SYSTICK_CTRL_TICKINT | SYSTICK_CTRL_ENABLE`
abbrev pub systick_on : ℕ
systick_on = bit_or (bit_or (1 <<< 2) (1 <<< 1)) (1 <<< 0)

-- What was last written to a register.
abbrev pub last_written : ℕ → Accesses → Option ℕ
last_written reg [] = none
last_written reg (read_of r ∷ h) = last_written reg h
last_written reg (write_of r v ∷ h) =
    let earlier = last_written reg h in if r == reg then some v else earlier
