-- ===== src/Uart/Wire.antt =====
-- code/qemu-cortex-m/common/uart.c on its registers: set-up, the wait for room in the transmit queue,
-- and input. The peripheral is a parameter.
use embedded_systems_resourc.Base.{
  ℕ, zero, suc, ◌+◌, ◌^◌, ◌<◌, ◌≡◌, refl, sym, ap, subst, ◌∙◌, false, Option, none, some, List, [],
  ◌∷◌, ◌++◌, append_assoc, append-nil, arith, if◌then◌else◌, bit_and, bit_or, Bool-cases, inl, inr,
  Access, read_of, write_of, Device, modify, has, polled,
}
use embedded_systems_resourc.Uart.{baud_divisor}

-- `SYSCTL_RCGC1`, `SYSCTL_RCGC2` and the registers of UART0.
pub data Register : Type 0 where
  rcgc1 rcgc2 dr fr ibrd fbrd lcrh ctl : Register

abbrev pub Accesses : Type 0
Accesses = List (Access Register)

-- `UART_FR_RXFE` and `UART_FR_TXFF`
abbrev pub fr_rxfe : ℕ
fr_rxfe = 2 ^ 4

abbrev pub fr_txff : ℕ
fr_txff = 2 ^ 5

module _ (hw : Device Register) where
  -- `uart_init`, for a baud rate that is not 0.
  unfoldable pub init : ℕ → Accesses → Accesses
  init baud h =
      let h1 = modify hw Register.rcgc1 (bit_or (2 ^ 0)) h in
      let h2 = modify hw Register.rcgc2 (bit_or (2 ^ 0)) h1 in
      let divisor = baud_divisor baud in
      write_of Register.ctl (bit_or (bit_or (2 ^ 0) (2 ^ 8)) (2 ^ 9))
      ∷ write_of Register.lcrh (bit_or (2 ^ 6 + 2 ^ 5) (2 ^ 4))
      ∷ write_of Register.fbrd divisor.1
      ∷ write_of Register.ibrd divisor.0
      ∷ write_of Register.ctl 0
      ∷ h2

  -- `uart_putc`, for an ASCII character, with the rounds of its wait left: `none` when they run out.
  unfoldable pub putc : ℕ → ℕ → Accesses → Option Accesses
  putc zero c h = none
  putc (suc fuel) c h =
      let h1 = read_of Register.fr ∷ h in
      let rest = putc fuel c h1 in
      if has fr_txff (hw h Register.fr) then rest else some (write_of Register.dr c ∷ h1)

  -- `uart_putc` for each byte of a text.
  unfoldable pub put_text : ℕ → List ℕ → Accesses → Option Accesses
  put_text fuel [] h = some h
  put_text fuel (c ∷ text) h = elim (putc fuel c h) [
    | none ↦ none
    | some h1 ↦ put_text fuel text h1
  ]

  -- `uart_getc_nonblocking`: `none` for -1.
  unfoldable pub getc_nonblocking : Accesses → Option ℕ × Accesses
  getc_nonblocking h =
      let h1 = read_of Register.fr ∷ h in
      if has fr_rxfe (hw h Register.fr)
      then (none, h1)
      else (some (bit_and (hw h1 Register.dr) 0xff), read_of Register.dr ∷ h1)

-- The bytes written to the data register, the first one first.
unfoldable pub transmitted : Accesses → List ℕ
transmitted [] = []
transmitted (write_of Register.dr v ∷ h) = transmitted h ++ (v ∷ [])
transmitted (_ ∷ h) = transmitted h

-- From every history on, the queue has room within `fuel` reads of the flags.
abbrev pub Drains : Device Register → ℕ → Type 0
Drains hw fuel =
    (h : Accesses)
    → (k : ℕ) × (k < fuel) × (has fr_txff (hw (polled Register.fr k h) Register.fr) ≡ false)

-- The accesses of UART0 after the history `before` that put a text into the data register: reads of the
-- flags, and writes of the data register, each right after a read that showed room in the queue.
pub data Sent (hw : Device Register) (before : Accesses) : List ℕ → Accesses → Type 0 where
  begun : Sent hw before [] before
  waited :
      {text : List ℕ} {h : Accesses}
      → Sent hw before text h
      → Sent hw before text (read_of Register.fr ∷ h)
  sends :
      {text : List ℕ} {h : Accesses} (c : ℕ)
      → Sent hw before text h
      → has fr_txff (hw h Register.fr) ≡ false
      → Sent hw before (text ++ (c ∷ [])) (write_of Register.dr c ∷ read_of Register.fr ∷ h)

-- One byte more.
record Put (hw : Device Register) (before : Accesses) (text : List ℕ) (h : Accesses) (c : ℕ)
    (r : Option Accesses) : Type 0 where
  pub after : Accesses
  pub returns : r ≡ some after
  pub byte : transmitted after ≡ transmitted h ++ (c ∷ [])
  pub guarded : Sent hw before (text ++ (c ∷ [])) after

putc-Put :
    (hw : Device Register) (fuel k c : ℕ) (before : Accesses) (text : List ℕ) (h : Accesses)
    → k < fuel
    → has fr_txff (hw (polled Register.fr k h) Register.fr) ≡ false
    → Sent hw before text h
    → Put hw before text h c (putc hw fuel c h)
unfolding putc transmitted
putc-Put hw zero k c before text h p room s = absurd (omega arith)
putc-Put hw (suc fuel) zero c before text h p room s = record {
  after = write_of Register.dr c ∷ read_of Register.fr ∷ h;
  returns = rw (putc, room) refl;
  byte = refl;
  guarded = sends c s room;
}
putc-Put hw (suc fuel) (suc k) c before text h p room s =
    elim (Bool-cases (has fr_txff (hw h Register.fr))) [
      | inr now ↦ record {
        after = write_of Register.dr c ∷ read_of Register.fr ∷ h;
        returns = rw (putc, now) refl;
        byte = refl;
        guarded = sends c s now;
      }
      | inl full ↦
          let later =
            putc-Put hw fuel k c before text (read_of Register.fr ∷ h) (omega arith) room
              (waited s) in
          record {
            after = later.after;
            returns = rw (putc, full) later.returns;
            byte = later.byte;
            guarded = later.guarded;
          }
    ]

put_text-Sent :
    (hw : Device Register) (fuel : ℕ) (before : Accesses) (done text : List ℕ) (h : Accesses)
    → Drains hw fuel
    → Sent hw before done h
    → (h' : Accesses) × (put_text hw fuel text h ≡ some h')
      × (transmitted h' ≡ transmitted h ++ text)
      × Sent hw before (done ++ text) h'
unfolding put_text
put_text-Sent hw fuel before done [] h drains s = (
  h,
  refl,
  sym (append-nil (transmitted h)),
  subst (λ l. Sent hw before l h) (sym (append-nil done)) s,
)
put_text-Sent hw fuel before done (c ∷ text) h drains s =
    let (k, early, room) = drains h in
    let one = putc-Put hw fuel k c before done h early room s in
    let (h', rest, all, guarded) =
      put_text-Sent hw fuel before (done ++ (c ∷ [])) text one.after drains one.guarded in
    (
      h',
      ap (λ r. elim r [ none ↦ none | some h2 ↦ put_text hw fuel text h2 ]) one.returns ∙ rest,
      all ∙ ap (λ l. l ++ text) one.byte ∙ append_assoc (transmitted h) (c ∷ []) text,
      subst (λ l. Sent hw before l h') (append_assoc done (c ∷ []) text) guarded,
    )

-- Where the queue makes room within `fuel` reads of the flags, at any time, printing a text ends; it puts
-- exactly its bytes, in order, into the data register, each right after a read of the flags that
-- showed room in the queue; and it makes no other access but reads of the flags.
pub put_text-transmitted :
    (hw : Device Register) (fuel : ℕ) (text : List ℕ) (h : Accesses)
    → Drains hw fuel
    → (h' : Accesses) × (put_text hw fuel text h ≡ some h')
      × (transmitted h' ≡ transmitted h ++ text)
      × Sent hw h text h'
put_text-transmitted hw fuel text h drains = put_text-Sent hw fuel h [] text h drains begun
