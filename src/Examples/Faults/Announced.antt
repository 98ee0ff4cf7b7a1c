-- ===== src/Examples/Faults/Announced.antt =====
-- Whether the decoder names the fault that `main` has announced.
use embedded_systems_resourc.Base.{
  Device, ℕ, zero, suc, get_or, ◌≡◌, refl, ap, ◌∙◌, none, some, List, [], ◌∷◌, ◌++◌, Bool, true,
  false, ◌||◌, ◌&&◌, ◌==◌, codes, printed, arith,
}
use embedded_systems_resourc.Board.{Accesses}
use embedded_systems_resourc.Uart.{puts, put_hex32}
use embedded_systems_resourc.Examples.Faults.{
  ExceptionFrame, FaultStatus, bit_set, when, frame_part, hfsr_part, memmanage_lines,
  busfault_lines, usagefault_lines, cfsr_part, hardfault_report,
}
use embedded_systems_resourc.Examples.Faults.Provoke.{
  Fault, undefined_instruction, bad_function_pointer, divide_by_zero, unaligned_access,
  stack_overflow, unmapped_address, announcement, outcome, main,
}

-- Whether a text begins with a word, or has it somewhere.
abbrev pub begins : List ℕ → List ℕ → Bool
begins [] text = true
begins (c ∷ word) [] = false
begins (c ∷ word) (d ∷ text) = let rest = begins word text in c == d && rest

abbrev pub contains : List ℕ → List ℕ → Bool
contains word [] = begins word []
contains word (c ∷ text) = let rest = contains word text in begins word (c ∷ text) || rest

begins-append :
    (word text more : List ℕ) → begins word text ≡ true → begins word (text ++ more) ≡ true
begins-append [] text more h = refl
begins-append (c ∷ word) [] more h = absurd cc
begins-append (c ∷ word) (d ∷ text) more h = ground (arith, begins-append word text more)

begins-contains : (word text : List ℕ) → begins word text ≡ true → contains word text ≡ true
begins-contains word [] h = h
begins-contains word (c ∷ text) h = ground arith

contains-left :
    (word text more : List ℕ) → contains word text ≡ true → contains word (text ++ more) ≡ true
contains-left word [] more h = begins-contains word more (begins-append word [] more h)
contains-left word (c ∷ text) more h =
    ground (arith, begins-append word (c ∷ text) more, contains-left word text more)

pub contains-right :
    (word text more : List ℕ) → contains word more ≡ true → contains word (text ++ more) ≡ true
contains-right word [] more h = h
contains-right word (c ∷ text) more h = ground (arith, contains-right word text more h)

-- A text among those printed.
contains-printed :
    (word : List ℕ) (texts : List (List ℕ)) (i : ℕ)
    → contains word (get_or texts i []) ≡ true
    → contains word (printed texts) ≡ true
contains-printed word [] i h = h
contains-printed word (text ∷ texts) zero h = contains-left word text (printed texts) h
contains-printed word (text ∷ texts) (suc i) h =
    contains-right word text (printed texts) (contains-printed word texts i h)

-- The bit of CFSR that the ARMv7-M architecture gives each fault, and the fault's name.
abbrev pub expected_bit : Fault → ℕ
expected_bit undefined_instruction = 16
expected_bit bad_function_pointer = 17
expected_bit divide_by_zero = 25
expected_bit unaligned_access = 24
expected_bit stack_overflow = 12
expected_bit unmapped_address = 9

abbrev pub name : Fault → List ℕ
name undefined_instruction = codes "UNDEFINSTR"
name bad_function_pointer = codes "INVSTATE"
name divide_by_zero = codes "DIVBYZERO"
name unaligned_access = codes "UNALIGNED"
name stack_overflow = codes "STKERR"
name unmapped_address = codes "PRECISERR"

-- The name as the report's lines begin with it.
abbrev pub label : Fault → List ℕ
label which = codes "  " ++ (name which ++ codes ":")

abbrev pub report_texts : ExceptionFrame → ℕ → FaultStatus → Bool → List (List ℕ)
report_texts frame exc_return st expect =
    frame_part frame exc_return st.ipsr
    ++ (hfsr_part st.hfsr
        ++ (cfsr_part st
            ++ (puts (codes "\nNext step on a real board:\n")
                ∷ puts (codes "  arm-none-eabi-addr2line -e firmware.elf ")
                ∷ put_hex32 frame.pc
                ∷ puts (codes "\n")
                ∷ when expect (puts (codes "\n(this fault was deliberate - test passed)\n"))
                ∷ [])))

shown :
    (word : List ℕ) (b : Bool) (text : List ℕ)
    → b ≡ true
    → contains word text ≡ true
    → contains word (when b text) ≡ true
shown word true text h k = k
shown word false text h k = absurd cc

-- Where the line of a fault stands among the texts of the report.
abbrev place : Fault → ℕ
place undefined_instruction = 36
place bad_function_pointer = 37
place divide_by_zero = 41
place unaligned_access = 40
place stack_overflow = 34
place unmapped_address = 31

abbrev line : Fault → List ℕ
line undefined_instruction =
    puts (codes "  UNDEFINSTR: undefined instruction (often a bad function pointer)\n")
line bad_function_pointer =
    puts (codes "  INVSTATE:   tried to execute in ARM state - LSB of a pointer was 0\n")
line divide_by_zero = puts (codes "  DIVBYZERO:  divide by zero with DIV_0_TRP set\n")
line unaligned_access = puts (codes "  UNALIGNED:  unaligned access with UNALIGN_TRP set\n")
line stack_overflow =
    puts (codes "  STKERR:    bus fault while stacking - classic stack overflow\n")
line unmapped_address = puts (codes "  PRECISERR: bus error, PC above is exact\n")

labelled : (which : Fault) → contains (label which) (line which) ≡ true
unfolding puts
labelled undefined_instruction = refl
labelled bad_function_pointer = refl
labelled divide_by_zero = refl
labelled unaligned_access = refl
labelled stack_overflow = refl
labelled unmapped_address = refl

expects : (which : Fault) → contains (codes "Expect " ++ name which) (announcement which) ≡ true
unfolding announcement puts
expects undefined_instruction = refl
expects bad_function_pointer = refl
expects divide_by_zero = refl
expects unaligned_access = refl
expects stack_overflow = refl
expects unmapped_address = refl

module _ (frame : ExceptionFrame) (exc_return : ℕ) (st : FaultStatus) where
  line_at :
      (which : Fault)
      → get_or (report_texts frame exc_return st true) (place which) []
        ≡ when (bit_set st.cfsr (expected_bit which)) (line which)
  unfolding frame_part hfsr_part cfsr_part memmanage_lines busfault_lines usagefault_lines
  line_at undefined_instruction = refl
  line_at bad_function_pointer = refl
  line_at divide_by_zero = refl
  line_at unaligned_access = refl
  line_at stack_overflow = refl
  line_at unmapped_address = refl

  reported :
      (which : Fault)
      → bit_set st.cfsr (expected_bit which) ≡ true
      → contains (label which) (printed (report_texts frame exc_return st true)) ≡ true
  reported which h =
      contains-printed (label which) (report_texts frame exc_return st true) (place which) (
        ap (contains (label which)) (line_at which)
        ∙ shown (label which) (bit_set st.cfsr (expected_bit which)) (line which) h
            (labelled which))

-- Where the fault that `main` provokes sets the bit of CFSR that the architecture gives it, `main` has
-- announced the fault's name, the report that follows has a line with this name, whatever else the
-- registers and the frame hold, and the exit status is 0. It is 1 where no fault comes.
pub provoked_fault-reported :
    (hw : Device ℕ) (which : Fault) (frame : ExceptionFrame) (exc_return : ℕ) (st : FaultStatus)
    (h : Accesses)
    → bit_set st.cfsr (expected_bit which) ≡ true
    → (contains (codes "Expect " ++ name which) (main hw which (some (frame, exc_return, st)) h).0
        ≡ true)
      × (contains (label which) (main hw which (some (frame, exc_return, st)) h).0 ≡ true)
      × ((main hw which (some (frame, exc_return, st)) h).1 ≡ 0)
      × ((main hw which none h).1 ≡ 1)
unfolding main outcome hardfault_report
provoked_fault-reported hw which frame exc_return st h sets =
    let texts : List (List ℕ) =
      puts (codes "\n=== HardFault decoder ===\n")
      ∷ announcement which
      ∷ printed (report_texts frame exc_return st true)
      ∷ [] in
    (
      contains-printed (codes "Expect " ++ name which) texts 1 (expects which),
      contains-printed (label which) texts 2 (reported frame exc_return st which sets),
      refl,
      refl,
    )
