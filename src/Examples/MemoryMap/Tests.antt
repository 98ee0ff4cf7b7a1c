-- ===== src/Examples/MemoryMap/Tests.antt =====
-- Example 01 after the start-up of three words of .data and one of .bss.
use embedded_systems_resourc.Base.{◌≡◌, refl, some, arith, inl, ◌==◌, if◌then◌else◌, codes}
use embedded_systems_resourc.Uart.{puts}
use embedded_systems_resourc.Startup.{Symbols, Memory, reset_handler}
use embedded_systems_resourc.Startup.Reset.{LaidOut}
use embedded_systems_resourc.Examples.MemoryMap.{Places, copied_text, zeroed_text}
use embedded_systems_resourc.Examples.MemoryMap.Ready.{reset_handler-main_text}

abbrev linked : Symbols
linked = record {
  sidata = 0x400;
  sdata = 0x20000000;
  edata = 0x2000000c;
  sbss = 0x2000000c;
  ebss = 0x20000010;
  estack = 0x20010000;
}

abbrev placed : Places
placed = record {
  banner = 0x300;
  initialised = 0x20000004;
  zeroed = 0x2000000c;
  big_buffer = 0x20000010;
  counter = 0x2000000c;
  stack_local = 0x2000fff0;
  sheap = 0x20000010;
}

abbrev flash : Memory
flash a = if a == 0x404 then 0xdeadbeef else 0x55

linked-LaidOut : LaidOut linked
linked-LaidOut = record {
  data_aligned = (refl, refl);
  bss_aligned = (refl, refl);
  image_aligned = refl;
  ends = (omega arith, omega arith);
  starts = (omega arith, omega arith);
  image_end = omega arith;
  image_apart = inl (omega arith);
  sections_apart = inl (omega arith);
}

reset_handler-main_text_example :
    (m : Memory) × (reset_handler linked flash ≡ some m)
    × (copied_text (m 0x20000004) ≡ puts (codes "   (copied OK)\n"))
    × (zeroed_text (m 0x2000000c) ≡ puts (codes "   (zeroed OK)\n"))
reset_handler-main_text_example =
    reset_handler-main_text linked placed flash linked-LaidOut (refl, omega arith, omega arith)
      (refl, omega arith, omega arith) refl
