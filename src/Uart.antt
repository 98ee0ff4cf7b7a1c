-- ===== src/Uart.antt =====
-- code/qemu-cortex-m/common/uart.c: the bytes that each output function hands to uart_putc, and the
-- baud divisor.
pub mod Decimal
pub mod Hex
pub mod Wire
mod Tests
use embedded_systems_resourc.Base.{
  ℕ, zero, suc, ◌+◌, ◌*◌, ◌/◌, ◌%◌, ◌^◌, List, [], ◌∷◌, ◌++◌, ◌==◌, if◌then◌else◌, u8, u32, bit_and,
  ◌>>>◌, get_or,
}

-- `uart_puts`: a carriage return goes before each line feed.
unfoldable pub puts : List ℕ → List ℕ
puts [] = []
puts (c ∷ s) = let rest = puts s in if c == 10 then 13 ∷ c ∷ rest else c ∷ rest

-- The loop of `uart_put_u32`, with `i` places left; `text` is what `buf` holds from `i` on.
unfoldable pub digits : ℕ → ℕ → List ℕ → List ℕ
digits zero v text = text
digits (suc i) v text =
    let rest = digits i (v / 10) ((48 + v % 10) ∷ text) in if v == 0 then text else rest

-- `uart_put_u32`
unfoldable pub put_u32 : ℕ → List ℕ
put_u32 v = if v == 0 then 48 ∷ [] else puts (digits 10 v [])

-- "0123456789ABCDEF"
abbrev pub hex_digits : List ℕ
hex_digits = 48 ∷ 49 ∷ 50 ∷ 51 ∷ 52 ∷ 53 ∷ 54 ∷ 55 ∷ 56 ∷ 57 ∷ 65 ∷ 66 ∷ 67 ∷ 68 ∷ 69 ∷ 70 ∷ []

-- The loop of `uart_put_hex32`, with the digits left; `shift` goes down by four.
unfoldable pub hex_loop : ℕ → ℕ → List ℕ
hex_loop zero v = []
hex_loop (suc n) v = get_or hex_digits (bit_and (v >>> (4 * n)) 0xf) 0 ∷ hex_loop n v

-- `uart_put_hex32`
unfoldable pub put_hex32 : ℕ → List ℕ
put_hex32 v = puts (48 ∷ 120 ∷ []) ++ hex_loop 8 v

-- `uart_put_hex8`
unfoldable pub put_hex8 : ℕ → List ℕ
put_hex8 v = get_or hex_digits (bit_and (v >>> 4) 0xf) 0 ∷ get_or hex_digits (bit_and v 0xf) 0 ∷ []

-- `UART0_IBRD` and `UART0_FBRD` as `uart_init` sets them, for a baud rate that is not 0; the clock is
-- `SYSTEM_CLOCK_HZ`.
abbrev pub system_clock_hz : ℕ
system_clock_hz = 12000000

unfoldable pub baud_divisor : ℕ → ℕ × ℕ
baud_divisor baud = let div64 = u32 (system_clock_hz * 4) / baud in (div64 / 64, div64 % 64)
