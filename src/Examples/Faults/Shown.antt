-- ===== src/Examples/Faults/Shown.antt =====
-- Where each register stands in the fault report.
use embedded_systems_resourc.Base.{
  ℕ, zero, suc, ◌^◌, ◌<◌, ◌≡◌, refl, sym, ap, subst, ◌∙◌, Bool, true, false, List, [], ◌∷◌, ◌++◌,
  append_assoc, if◌then◌else◌, codes, printed, length, drop,
}
use embedded_systems_resourc.Uart.{puts, put_hex32}
use embedded_systems_resourc.Uart.Hex.{hex_value, put_hex32-value}
use embedded_systems_resourc.Examples.Faults.{
  ExceptionFrame, FaultStatus, when, bit_set, report, frame_part, hfsr_part, cfsr_part,
  memmanage_lines, busfault_lines, hardfault_report,
}
use embedded_systems_resourc.Examples.Faults.Announced.{contains, contains-right, report_texts}

-- A text that has, right behind this label, ten characters of which the last eight denote the number in
-- base 16.
pub record Shows (label : List ℕ) (v : ℕ) (text : List ℕ) : Type 0 where
  pub before : List ℕ
  pub hex : List ℕ
  pub after : List ℕ
  pub parts : text ≡ before ++ (label ++ (hex ++ after))
  pub long : length hex ≡ 10
  pub denotes : hex_value 0 (drop 2 hex) ≡ v

Shows-pair :
    (label : List ℕ) (v : ℕ) (more : List ℕ)
    → v < 2 ^ 32
    → Shows label v (label ++ (put_hex32 v ++ more))
Shows-pair label v more h =
    let (long, denotes) = put_hex32-value v h in
    record {
      before = [];
      hex = put_hex32 v;
      after = more;
      parts = refl;
      long = long;
      denotes = denotes;
    }

Shows-left :
    {label text : List ℕ} {v : ℕ} (more : List ℕ)
    → Shows label v text
    → Shows label v (text ++ more)
Shows-left {label} more s = record {
  before = s.before;
  hex = s.hex;
  after = s.after ++ more;
  parts =
      ap (λ l. l ++ more) s.parts
      ∙ append_assoc s.before (label ++ (s.hex ++ s.after)) more
      ∙ ap (λ l. s.before ++ l)
          (append_assoc label (s.hex ++ s.after) more
            ∙ ap (λ l. label ++ l) (append_assoc s.hex s.after more));
  long = s.long;
  denotes = s.denotes;
}

Shows-right :
    {label text : List ℕ} {v : ℕ} (more : List ℕ)
    → Shows label v text
    → Shows label v (more ++ text)
Shows-right {label} more s = record {
  before = more ++ s.before;
  hex = s.hex;
  after = s.after;
  parts =
      ap (λ l. more ++ l) s.parts ∙ sym (append_assoc more s.before (label ++ (s.hex ++ s.after)));
  long = s.long;
  denotes = s.denotes;
}

-- The texts from a place on.
Shows-from :
    {label : List ℕ} {v : ℕ} (texts : List (List ℕ)) (i : ℕ)
    → Shows label v (printed (drop i texts))
    → Shows label v (printed texts)
Shows-from [] zero s = s
Shows-from [] (suc i) s = s
Shows-from (text ∷ texts) zero s = s
Shows-from (text ∷ texts) (suc i) s = Shows-right text (Shows-from texts i s)

-- A line of its own.
Shows-line :
    (texts : List (List ℕ)) (i : ℕ) (label : List ℕ) (v : ℕ)
    → v < 2 ^ 32
    → printed (drop i texts)
      ≡ (label ++ (put_hex32 v ++ (13 ∷ 10 ∷ []))) ++ printed (drop (suc i) texts)
    → Shows label v (printed texts)
Shows-line texts i label v h e = Shows-from texts i (
    subst (Shows label v) (sym e)
      (Shows-left (printed (drop (suc i) texts)) (Shows-pair label v (13 ∷ 10 ∷ []) h)))

contains-from :
    (word : List ℕ) (texts : List (List ℕ)) (i : ℕ)
    → contains word (printed (drop i texts)) ≡ true
    → contains word (printed texts) ≡ true
contains-from word [] zero h = h
contains-from word [] (suc i) h = h
contains-from word (text ∷ texts) zero h = h
contains-from word (text ∷ texts) (suc i) h =
    contains-right word text (printed texts) (contains-from word texts i h)

pub record Words (f : ExceptionFrame) (exc_return : ℕ) (st : FaultStatus) : Type 0 where
  pub pc : f.pc < 2 ^ 32
  pub lr : f.lr < 2 ^ 32
  pub psr : f.psr < 2 ^ 32
  pub r0 : f.r0 < 2 ^ 32
  pub r1 : f.r1 < 2 ^ 32
  pub r2 : f.r2 < 2 ^ 32
  pub r3 : f.r3 < 2 ^ 32
  pub r12 : f.r12 < 2 ^ 32
  pub exc_return_word : exc_return < 2 ^ 32
  pub hfsr : st.hfsr < 2 ^ 32
  pub cfsr : st.cfsr < 2 ^ 32
  pub mmfar : st.mmfar < 2 ^ 32
  pub bfar : st.bfar < 2 ^ 32

-- The stacked registers.
pub record ShowsFrame (f : ExceptionFrame) (text : List ℕ) : Type 0 where
  pub pc : Shows (codes "  PC (faulting instr) = ") f.pc text
  pub lr : Shows (codes "  LR (caller)         = ") f.lr text
  pub psr : Shows (codes "  xPSR                = ") f.psr text
  pub r0 : Shows (codes "  r0                  = ") f.r0 text
  pub r1 : Shows (codes "  r1                  = ") f.r1 text
  pub r2 : Shows (codes "  r2                  = ") f.r2 text
  pub r3 : Shows (codes "  r3                  = ") f.r3 text
  pub r12 : Shows (codes "  r12                 = ") f.r12 text

-- The other registers, MMFAR and BFAR where their valid bits (7 and 15 of CFSR) are set.
pub record ShowsStatus (exc_return : ℕ) (st : FaultStatus) (text : List ℕ) : Type 0 where
  pub exc_return_value : Shows (codes "EXC_RETURN = ") exc_return text
  pub hfsr : Shows (codes "HFSR = ") st.hfsr text
  pub cfsr : Shows (codes "CFSR = ") st.cfsr text
  pub mmfar : bit_set st.cfsr 7 ≡ true → Shows (codes "  MMFAR valid -> ") st.mmfar text
  pub bfar : bit_set st.cfsr 15 ≡ true → Shows (codes "  BFAR valid -> ") st.bfar text

module _ (f : ExceptionFrame) (exc_return : ℕ) (st : FaultStatus) (expect : Bool)
    (w : Words f exc_return st) where
  abbrev texts : List (List ℕ)
  texts = report_texts f exc_return st expect

  frame_shown : ShowsFrame f (printed texts)
  unfolding frame_part report puts
  frame_shown = record {
    pc = Shows-line texts 6 (codes "  PC (faulting instr) = ") f.pc w.pc refl;
    lr = Shows-line texts 7 (codes "  LR (caller)         = ") f.lr w.lr refl;
    psr = Shows-line texts 8 (codes "  xPSR                = ") f.psr w.psr refl;
    r0 = Shows-line texts 9 (codes "  r0                  = ") f.r0 w.r0 refl;
    r1 = Shows-line texts 10 (codes "  r1                  = ") f.r1 w.r1 refl;
    r2 = Shows-line texts 11 (codes "  r2                  = ") f.r2 w.r2 refl;
    r3 = Shows-line texts 12 (codes "  r3                  = ") f.r3 w.r3 refl;
    r12 = Shows-line texts 13 (codes "  r12                 = ") f.r12 w.r12 refl;
  }

  status_shown : ShowsStatus exc_return st (printed texts)
  unfolding frame_part hfsr_part cfsr_part memmanage_lines busfault_lines puts
  status_shown = record {
    exc_return_value = Shows-from texts 14 (
        Shows-right (13 ∷ 10 ∷ []) (
          Shows-pair (codes "EXC_RETURN = ") exc_return (printed (drop 16 texts))
            w.exc_return_word));
    hfsr = Shows-from texts 17 (
        Shows-right (13 ∷ 10 ∷ [])
          (Shows-pair (codes "HFSR = ") st.hfsr (printed (drop 19 texts)) w.hfsr));
    cfsr = Shows-from texts 22 (
        Shows-right (13 ∷ 10 ∷ [])
          (Shows-pair (codes "CFSR = ") st.cfsr (printed (drop 24 texts)) w.cfsr));
    mmfar = λ valid. Shows-from texts 29 (
        Shows-left (printed (drop 30 texts)) (
          if_valid valid (Shows-pair (codes "  MMFAR valid -> ") st.mmfar (13 ∷ 10 ∷ []) w.mmfar)));
    bfar = λ valid. Shows-from texts 35 (
        Shows-left (printed (drop 36 texts))
          (if_valid valid (Shows-pair (codes "  BFAR valid -> ") st.bfar (13 ∷ 10 ∷ []) w.bfar)));
  }
    where
      if_valid :
          {label text : List ℕ} {v : ℕ} {b : Bool}
          → b ≡ true
          → Shows label v text
          → Shows label v (when b text)
      if_valid {label} {text} {v} e s = subst (λ c. Shows label v (when c text)) (sym e) s

  stack_shown :
      (process : Bool)
      → bit_set exc_return 2 ≡ process
      → contains
          (if process then codes "(recovered from PSP)" else codes "(recovered from MSP)")
          (printed texts)
        ≡ true
  unfolding frame_part puts
  stack_shown true e = contains-from (codes "(recovered from PSP)") texts 3 (rw e refl)
  stack_shown false e = contains-from (codes "(recovered from MSP)") texts 3 (rw e refl)

-- The report has each stacked register, EXC_RETURN, HFSR and CFSR right behind its own label as eight
-- hexadecimal digits, MMFAR and BFAR too where CFSR says that they are valid; it names the stack that
-- bit 2 of EXC_RETURN stands for; and the exit status is 0 exactly for a fault that was expected.
pub hardfault_report-Shows :
    (f : ExceptionFrame) (exc_return : ℕ) (st : FaultStatus) (expect : Bool)
    → Words f exc_return st
    → let (text, status) = hardfault_report f exc_return st expect in
      ShowsFrame f text
      × ShowsStatus exc_return st text
      × (contains
            (if bit_set exc_return 2
              then codes "(recovered from PSP)"
              else codes "(recovered from MSP)")
            text
          ≡ true)
      × (status ≡ (if expect then 0 else 1))
unfolding hardfault_report
hardfault_report-Shows f exc_return st expect w = (
  frame_shown f exc_return st expect w,
  status_shown f exc_return st expect w,
  stack_shown f exc_return st expect w (bit_set exc_return 2) refl,
  refl,
)
