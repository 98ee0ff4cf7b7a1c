-- ===== src/Examples/Faults/Provoke.antt =====
-- `main` of code/qemu-cortex-m/05-hardfault-decoder/main.c. What the processor makes of the instruction
-- that provokes the fault is an argument: the exception that it takes, or `none` where it goes on.
use embedded_systems_resourc.Base.{
  ℕ, Option, none, some, List, [], ◌∷◌, ◌++◌, true, bit_or, ◌<<<◌, codes, printed, Device, modify,
}
use embedded_systems_resourc.Uart.{puts}
use embedded_systems_resourc.Board.{Accesses}
use embedded_systems_resourc.Examples.Faults.{ExceptionFrame, FaultStatus, hardfault_report}

-- `WHICH_FAULT`; the last one stands for every other number too.
pub data Fault : Type 0 where
  undefined_instruction bad_function_pointer divide_by_zero unaligned_access stack_overflow : Fault
  unmapped_address : Fault

-- `SCB_SHCSR`, and the register at the address that `main` writes out, `CCR`.
abbrev pub scb_shcsr : ℕ
scb_shcsr = 0xe000ed24

abbrev pub ccr : ℕ
ccr = 0xe000ed14

-- The faults that `main` promotes, and the traps that it turns on.
unfoldable pub enable_faults : Device ℕ → Accesses → Accesses
enable_faults hw h =
    modify hw ccr (bit_or (bit_or (1 <<< 4) (1 <<< 3)))
      (modify hw scb_shcsr (bit_or (bit_or (bit_or (1 <<< 16) (1 <<< 17)) (1 <<< 18))) h)

-- What `main` prints before it provokes the fault.
unfoldable pub announcement : Fault → List ℕ
announcement undefined_instruction = printed (
    puts (codes "\nExecuting an undefined instruction.\n")
    ∷ puts (
        codes
          "Expect UNDEFINSTR. This is what a corrupted function\npointer or a jump into erased flash (0xFFFF) looks like.\n")
    ∷ [])
announcement bad_function_pointer = printed (
    puts (codes "\nCalling a function pointer with bit 0 clear.\n")
    ∷ puts (
        codes "Expect INVSTATE: Cortex-M is Thumb-only, so the low bit of\n"
        ++ (codes "every code address must be 1. Forgetting the |1 when you\n"
            ++ codes "build a jump table by hand lands you exactly here.\n"))
    ∷ [])
announcement divide_by_zero = printed (
    puts (codes "\nDividing by zero with DIV_0_TRP set.\n")
    ∷ puts (
        codes "Expect DIVBYZERO. Without DIV_0_TRP this quietly yields 0\n"
        ++ codes "and you chase the wrong bug for a day.\n")
    ∷ [])
announcement unaligned_access = printed (
    puts (codes "\nUnaligned 32-bit load with UNALIGN_TRP set.\n")
    ∷ puts (
        codes "Expect UNALIGNED. Classic when you cast a byte pointer\n"
        ++ codes "mid-packet to uint32_t* to pull a length field out.\n")
    ∷ [])
announcement stack_overflow = printed (
    puts (codes "\nRecursing until the stack runs into .bss.\n")
    ∷ puts (
        codes "Expect STKERR, or silent corruption on a part with no MPU\n"
        ++ codes "guard region - which is why you set one up.\n")
    ∷ [])
announcement unmapped_address = printed (
    puts (codes "\nReading unmapped address 0xE0000000.\n")
    ∷ puts (
        codes "Expect PRECISERR + BFAR. QEMU does not model this - on a\n"
        ++ codes "real part it faults immediately.\n")
    ∷ [])

-- The exception that the processor takes: the stacked frame, the link register and the status registers.
abbrev pub Exception : Type 0
Exception = ExceptionFrame × ℕ × FaultStatus

-- What comes after the provocation: the handler's text and status, or those of `main`.
unfoldable pub outcome : Option Exception → List ℕ × ℕ
outcome none = (puts (codes "*** did not fault - unexpected ***\n"), 1)
outcome (some (frame, exc_return, st)) = hardfault_report frame exc_return st true

-- `main` after `uart_init`: the text, the status that it exits with, and the accesses of registers that it
-- has made before it provokes the fault.
unfoldable pub main : Device ℕ → Fault → Option Exception → Accesses → List ℕ × ℕ × Accesses
main hw which taken h =
    let (text, status) = outcome taken in
    (
      printed (puts (codes "\n=== HardFault decoder ===\n") ∷ announcement which ∷ text ∷ []),
      status,
      enable_faults hw h,
    )
