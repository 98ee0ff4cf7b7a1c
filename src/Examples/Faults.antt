-- ===== src/Examples/Faults.antt =====
-- code/qemu-cortex-m/05-hardfault-decoder/main.c: the fault handler and the report that it prints. What
-- the processor has pushed and what its status registers hold are arguments. Provoke has `main`.
pub mod Provoke
pub mod Announced
pub mod Shown
mod Tests
use embedded_systems_resourc.Base.{
  ℕ, ◌^◌, Bool, List, [], ◌∷◌, ◌++◌, ◌==◌, ◌!=◌, if◌then◌else◌, bit_and, codes, printed,
}
use Prim.Native.String.{String}
use embedded_systems_resourc.Uart.{puts, put_u32, put_hex32}

-- `exception_frame_t`
pub record ExceptionFrame : Type 0 where
  pub r0 : ℕ
  pub r1 : ℕ
  pub r2 : ℕ
  pub r3 : ℕ
  pub r12 : ℕ
  pub lr : ℕ
  pub pc : ℕ
  pub psr : ℕ

-- `IPSR` and the registers `SCB_HFSR`, `SCB_CFSR`, `SCB_MMFAR` and `SCB_BFAR`.
pub record FaultStatus : Type 0 where
  pub ipsr : ℕ
  pub hfsr : ℕ
  pub cfsr : ℕ
  pub mmfar : ℕ
  pub bfar : ℕ

-- A bit as a condition.
abbrev pub bit_set : ℕ → ℕ → Bool
bit_set v k = bit_and v (2 ^ k) != 0

-- A text that is printed only under a condition.
abbrev pub when : Bool → List ℕ → List ℕ
when b text = if b then text else []

-- `report`
unfoldable pub report : String → ℕ → List ℕ
report label v = printed (
    puts (codes "  ")
    ∷ puts (codes label)
    ∷ puts (codes " = ")
    ∷ put_hex32 v
    ∷ puts (codes "\n")
    ∷ [])

-- The `switch` on the exception number.
unfoldable pub exception_name : ℕ → List ℕ
exception_name n =
    if n == 3
    then puts (codes "HardFault")
    else if n == 4
    then puts (codes "MemManage")
    else if n == 5
    then puts (codes "BusFault")
    else if n == 6
    then puts (codes "UsageFault")
    else puts (codes "exception #") ++ put_u32 n

-- The first half of `hardfault_report`: which fault, the stacked frame, and the return value.
unfoldable pub frame_part : ExceptionFrame → ℕ → ℕ → List (List ℕ)
frame_part frame exc_return ipsr =
    puts (codes "\n*** FAULT: ")
    ∷ exception_name (bit_and ipsr 0x1ff)
    ∷ puts (codes " ***\n")
    ∷ puts (codes "\nStacked frame (recovered from ")
    ∷ puts (if bit_and exc_return 0x4 != 0 then codes "PSP" else codes "MSP")
    ∷ puts (codes "):\n")
    ∷ report "PC (faulting instr)" frame.pc
    ∷ report "LR (caller)        " frame.lr
    ∷ report "xPSR               " frame.psr
    ∷ report "r0                 " frame.r0
    ∷ report "r1                 " frame.r1
    ∷ report "r2                 " frame.r2
    ∷ report "r3                 " frame.r3
    ∷ report "r12                " frame.r12
    ∷ puts (codes "\nEXC_RETURN = ")
    ∷ put_hex32 exc_return
    ∷ puts (
        if bit_and exc_return 0x8 != 0
        then codes "  (returning to thread mode)\n"
        else codes "  (returning to handler mode - nested)\n")
    ∷ []

-- The HardFault status.
unfoldable pub hfsr_part : ℕ → List (List ℕ)
hfsr_part hfsr =
    puts (codes "\nHFSR = ")
    ∷ put_hex32 hfsr
    ∷ puts (codes "\n")
    ∷ when (bit_set hfsr 30) (puts (codes "  FORCED: a configurable fault escalated. Read CFSR.\n"))
    ∷ when (bit_set hfsr 1) (puts (codes "  VECTTBL: fault while reading the vector table.\n"))
    ∷ []

-- The configurable fault status: the register, and a line for each of its bits that is set.
unfoldable pub memmanage_lines : ℕ → ℕ → List (List ℕ)
memmanage_lines cfsr mmfar =
    when (bit_set cfsr 0) (puts (codes "  IACCVIOL:  instruction fetch from a no-execute region\n"))
    ∷ when (bit_set cfsr 1) (puts (codes "  DACCVIOL:  data access violated the MPU\n"))
    ∷ when (bit_set cfsr 3)
        (puts (codes "  MUNSTKERR: fault while unstacking on exception return\n"))
    ∷ when (bit_set cfsr 4) (puts (codes "  MSTKERR:   fault while stacking on exception entry\n"))
    ∷ when (bit_set cfsr 7)
        (printed (puts (codes "  MMFAR valid -> ") ∷ put_hex32 mmfar ∷ puts (codes "\n") ∷ []))
    ∷ []

unfoldable pub busfault_lines : ℕ → ℕ → List (List ℕ)
busfault_lines cfsr bfar =
    when (bit_set cfsr 8) (puts (codes "  IBUSERR:   bus error on an instruction fetch\n"))
    ∷ when (bit_set cfsr 9) (puts (codes "  PRECISERR: bus error, PC above is exact\n"))
    ∷ when (bit_set cfsr 10) (
        puts (
          codes
            "  IMPRECISERR: buffered write failed later - PC is NOT exact.\n               Add a DSB after suspect writes to make it precise.\n"))
    ∷ when (bit_set cfsr 11) (puts (codes "  UNSTKERR:  bus fault while unstacking\n"))
    ∷ when (bit_set cfsr 12)
        (puts (codes "  STKERR:    bus fault while stacking - classic stack overflow\n"))
    ∷ when (bit_set cfsr 15)
        (printed (puts (codes "  BFAR valid -> ") ∷ put_hex32 bfar ∷ puts (codes "\n") ∷ []))
    ∷ []

unfoldable pub usagefault_lines : ℕ → List (List ℕ)
usagefault_lines cfsr =
    when (bit_set cfsr 16)
      (puts (codes "  UNDEFINSTR: undefined instruction (often a bad function pointer)\n"))
    ∷ when (bit_set cfsr 17)
        (puts (codes "  INVSTATE:   tried to execute in ARM state - LSB of a pointer was 0\n"))
    ∷ when (bit_set cfsr 18) (puts (codes "  INVPC:      bad EXC_RETURN or corrupted stacked PC\n"))
    ∷ when (bit_set cfsr 19)
        (puts (codes "  NOCP:       coprocessor access - FPU used but not enabled\n"))
    ∷ when (bit_set cfsr 24) (puts (codes "  UNALIGNED:  unaligned access with UNALIGN_TRP set\n"))
    ∷ when (bit_set cfsr 25) (puts (codes "  DIVBYZERO:  divide by zero with DIV_0_TRP set\n"))
    ∷ []

unfoldable pub cfsr_part : FaultStatus → List (List ℕ)
cfsr_part st =
    puts (codes "\nCFSR = ")
    ∷ put_hex32 st.cfsr
    ∷ puts (codes "\n")
    ∷ (memmanage_lines st.cfsr st.mmfar
        ++ (busfault_lines st.cfsr st.bfar ++ usagefault_lines st.cfsr))

-- `hardfault_report`: what it prints, and the status that it exits with; `expect_fault` is
-- `g_expect_fault`.
unfoldable pub hardfault_report : ExceptionFrame → ℕ → FaultStatus → Bool → List ℕ × ℕ
hardfault_report frame exc_return st expect_fault = (
  printed (
      frame_part frame exc_return st.ipsr
      ++ (hfsr_part st.hfsr
          ++ (cfsr_part st
              ++ (puts (codes "\nNext step on a real board:\n")
                  ∷ puts (codes "  arm-none-eabi-addr2line -e firmware.elf ")
                  ∷ put_hex32 frame.pc
                  ∷ puts (codes "\n")
                  ∷ when expect_fault (puts (codes "\n(this fault was deliberate - test passed)\n"))
                  ∷ [])))),
  if expect_fault then 0 else 1,
)

-- `fault_trampoline`, from the link register and the two stack pointers: the arguments that it hands to
-- `hardfault_report`, the frame by its address.
unfoldable pub fault_trampoline : ℕ → ℕ → ℕ → ℕ × ℕ
fault_trampoline lr msp psp = (if bit_and lr 4 == 0 then msp else psp, lr)
