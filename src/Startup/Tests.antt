-- ===== src/Startup/Tests.antt =====
-- Start-up with three words of .data and one of .bss, and the vector table.
use embedded_systems_resourc.Base.{
  ℕ, ◌+◌, ◌-◌, ◌≡◌, refl, Option, none, some, arith, if◌then◌else◌, get_or, inl,
}
use embedded_systems_resourc.Startup.{Symbols, Memory, reset_handler, copy, clear, Vector, vectors}
use embedded_systems_resourc.Startup.Reset.{LaidOut, within, reset_handler_lem}

abbrev board : Symbols
board = record {
  sidata = 0x400;
  sdata = 0x20000000;
  edata = 0x2000000c;
  sbss = 0x2000000c;
  ebss = 0x20000010;
  estack = 0x20010000;
}

-- Memory at reset holds each word's address.
abbrev at_reset : Memory
at_reset a = a

board-LaidOut : LaidOut board
board-LaidOut = record {
  data_aligned = (refl, refl);
  bss_aligned = (refl, refl);
  image_aligned = refl;
  ends = (omega arith, omega arith);
  starts = (omega arith, omega arith);
  image_end = omega arith;
  image_apart = inl (omega arith);
  sections_apart = inl (omega arith);
}

abbrev word_at : Option Memory → ℕ → ℕ
word_at none a = 1
word_at (some m) a = m a

third_word : word_at (reset_handler board at_reset) 0x20000008 ≡ 0x408
unfolding reset_handler copy clear
third_word = refl

-- The UART's handler stands at vector 21, as its interrupt number 5 asks; the timer's, whose interrupt
-- is number 19, stands at vector 38 and not at 35.
vector_places :
    (get_or (vectors board) 21 Vector.reserved ≡ Vector.uart0)
    × (get_or (vectors board) 38 Vector.reserved ≡ Vector.timer0a)
    × (get_or (vectors board) 35 Vector.reserved ≡ Vector.reserved)
vector_places = (refl, refl, refl)

reset_handler_lem_example :
    (m : Memory) × (reset_handler board at_reset ≡ some m)
    × (m 0x20000008 ≡ (
        if within board.sbss board.ebss 0x20000008
        then 0
        else if within board.sdata board.edata 0x20000008
        then at_reset (board.sidata + (0x20000008 - board.sdata))
        else at_reset 0x20000008))
reset_handler_lem_example = reset_handler_lem board at_reset 0x20000008 board-LaidOut refl
