-- ===== src/Examples/Faults/Tests.antt =====
-- The report of an undefined instruction.
use embedded_systems_resourc.Base.{
  Device, [], ℕ, ◌≡◌, ◌++◌, refl, true, some, none, codes, arith, if◌then◌else◌,
}
use embedded_systems_resourc.Examples.Faults.{
  ExceptionFrame, FaultStatus, bit_set, hardfault_report, fault_trampoline,
}
use embedded_systems_resourc.Examples.Faults.Provoke.{undefined_instruction, main}
use embedded_systems_resourc.Examples.Faults.Announced.{
  contains, name, label, provoked_fault-reported,
}
use embedded_systems_resourc.Examples.Faults.Shown.{
  Words, ShowsFrame, ShowsStatus, hardfault_report-Shows,
}

abbrev frame : ExceptionFrame
frame = record {
  r0 = 1;
  r1 = 2;
  r2 = 3;
  r3 = 4;
  r12 = 12;
  lr = 0x1235;
  pc = 0x2000;
  psr = 0x61000000;
}

-- UNDEFINSTR, taken as a UsageFault.
abbrev undefined_status : FaultStatus
undefined_status = record { ipsr = 6; hfsr = 0; cfsr = 0x10000; mmfar = 0; bfar = 0 }

frame-Words : Words frame 0xfffffff9 undefined_status
frame-Words = record {
  pc = omega arith;
  lr = omega arith;
  psr = omega arith;
  r0 = omega arith;
  r1 = omega arith;
  r2 = omega arith;
  r3 = omega arith;
  r12 = omega arith;
  exc_return_word = omega arith;
  hfsr = omega arith;
  cfsr = omega arith;
  mmfar = omega arith;
  bfar = omega arith;
}

fault_trampoline-thread : fault_trampoline 0xfffffffd 100 200 ≡ (200, 0xfffffffd)
unfolding fault_trampoline
fault_trampoline-thread = refl

hardfault_report-Shows_example :
    let (text, status) = hardfault_report frame 0xfffffff9 undefined_status true in
    ShowsFrame frame text
    × ShowsStatus 0xfffffff9 undefined_status text
    × (contains
          (if bit_set 0xfffffff9 2
            then codes "(recovered from PSP)"
            else codes "(recovered from MSP)")
          text
        ≡ true)
    × (status ≡ (if true then 0 else 1))
hardfault_report-Shows_example =
    hardfault_report-Shows frame 0xfffffff9 undefined_status true frame-Words

-- Every register reads as zero.
abbrev quiet : Device ℕ
quiet h reg = 0

provoked_fault-reported_example :
    (contains
        (codes "Expect " ++ name undefined_instruction)
        (main quiet undefined_instruction (some (frame, 0xfffffff9, undefined_status)) []).0
      ≡ true)
    × (contains
          (label undefined_instruction)
          (main quiet undefined_instruction (some (frame, 0xfffffff9, undefined_status)) []).0
        ≡ true)
    × ((main quiet undefined_instruction (some (frame, 0xfffffff9, undefined_status)) []).1 ≡ 0)
    × ((main quiet undefined_instruction none []).1 ≡ 1)
provoked_fault-reported_example =
    provoked_fault-reported quiet undefined_instruction frame 0xfffffff9 undefined_status [] refl
