-- ===== src/Examples/Priority.antt =====
-- code/qemu-cortex-m/03-nvic-priority-and-preemption/main.c: the probe for the implemented priority
-- bits, and the counters that two nested interrupt handlers keep. What a priority register stores of
-- a byte written to it is an argument.
pub mod Probe
pub mod Nesting
pub mod Setup
pub mod Levels
pub mod Whole
mod Tests
use embedded_systems_resourc.Base.{
  ℕ, zero, suc, ◌+◌, ◌*◌, ◌/◌, ◌^◌, Bool, true, false, ◌&&◌, Option, none, some, List, [], ◌∷◌,
  ◌++◌, ◌==◌, ◌!=◌, ltb, if◌then◌else◌, u8, u32, sub32, bit_and, ◌<<<◌, codes,
}
use embedded_systems_resourc.Uart.{puts, put_u32, put_hex32}
use embedded_systems_resourc.Base.{printed}

-- The loop of `nvic_priority_bits`, with the rounds left.
unfoldable pub count_bits : ℕ → ℕ → ℕ → Option ℕ
count_bits zero readback bits = none
count_bits (suc fuel) readback bits =
    let rest = count_bits fuel (u8 (readback * 2)) (u32 (bits + 1)) in
    if bit_and readback 0x80 != 0 then rest else some bits

-- `nvic_priority_bits`: the count, and what the register holds afterwards.
unfoldable pub nvic_priority_bits : (ℕ → ℕ) → ℕ → Option ℕ × ℕ
nvic_priority_bits stored held =
    let saved = held in let readback = stored 0xff in (count_bits 9 readback 0, stored saved)

-- What `main` prints of the count.
unfoldable pub bits_text : ℕ → List ℕ
bits_text bits = printed (
    puts (codes "Implemented priority bits on this core: ")
    ∷ put_u32 bits
    ∷ puts (codes "  -> ")
    ∷ put_u32 (u32 (1 <<< bits))
    ∷ puts (codes " distinct levels\n")
    ∷ (if ltb bits 8
        then printed (
            puts (codes "So priority values 0x00 and ")
            ∷ put_hex32 (sub32 (u32 (1 <<< sub32 8 bits)) 1)
            ∷ puts (codes " collapse to the SAME level.\n")
            ∷ [])
        else [])
    ∷ [])

-- The globals of the handlers.
pub record Globals : Type 0 where
  pub systick_count : ℕ
  pub low_prio_entered : ℕ
  pub preempted_at : ℕ
  pub in_low_prio : Bool

-- `SysTick_Handler`
unfoldable pub systick_handler : Globals → Globals
systick_handler g =
    let count = u32 (g.systick_count + 1) in
    record g {
      systick_count = count;
      preempted_at = if g.in_low_prio && g.preempted_at == 0 then count else g.preempted_at;
    }

-- `SysTick_Handler` a number of times.
unfoldable pub ticks : ℕ → Globals → Globals
ticks zero g = g
ticks (suc n) g = ticks n (systick_handler g)

-- `UART0_Handler`, interrupted by SysTick `before` times until it has read the count, `busy` times until
-- it has read it again, `leaving` times until it clears `g_in_low_prio`, and `printing` times until it
-- returns: the globals and the text.
unfoldable pub uart0_handler : ℕ → ℕ → ℕ → ℕ → Globals → Globals × List ℕ
uart0_handler before busy leaving printing g =
    let entered = record g {
      low_prio_entered = u32 (g.low_prio_entered + 1);
      in_low_prio = true;
    } in
    let started = ticks before entered in
    let done = ticks busy started in
    let left = record (ticks leaving done) { in_low_prio = false } in
    (
      ticks printing left,
      printed (
          puts (codes "  [UART0 ISR] ran while SysTick advanced ")
          ∷ put_u32 (sub32 done.systick_count started.systick_count)
          ∷ puts (codes " ticks -> it preempted me\n")
          ∷ []),
    )

-- What `main` prints once the handler has returned.
unfoldable pub result_text : Globals → List ℕ
result_text g = printed (
    puts (codes "\nResult: the low-priority handler was entered ")
    ∷ put_u32 g.low_prio_entered
    ∷ puts (codes " time(s)\n")
    ∷ (if g.preempted_at != 0
        then printed (
            puts (codes "and SysTick preempted it at tick ")
            ∷ put_u32 g.preempted_at
            ∷ puts (codes " - nested exceptions confirmed.\n")
            ∷ [])
        else [])
    ∷ [])
