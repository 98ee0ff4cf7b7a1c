-- ===== src/I2c/Sent.antt =====
-- What `i2c_write` has put on the bus when it reports success.
use embedded_systems_resourc.Base.{
  ℕ, zero, suc, ◌+◌, ◌≡◌, refl, sym, ap, ◌∙◌, ◌≢◌, Bool, true, false, Option, none, some, List, [],
  ◌∷◌, ◌++◌, bit_and, bit_or, ◌==◌, ◌^◌, read_of, write_of, Device, modify, has,
}
use embedded_systems_resourc.I2c.{
  Register, Accesses, Result, timeout_loops, cr1_stop, sr1_af, and_then, on_ok, wait, start, send,
  write, address,
}
use mathlib.Core.List.{append_assoc, append-nil}

-- The bytes written to the data register, the first one first.
unfoldable pub dr_writes : Accesses → List ℕ
dr_writes [] = []
dr_writes (write_of Register.dr v ∷ h) = dr_writes h ++ (v ∷ [])
dr_writes (_ ∷ h) = dr_writes h

abbrev pub NotOk : Option Result → Type 0
NotOk failed = failed ≢ some Result.ok

-- `and_then` reports success only through the rest.
pub and_then-ok :
    (w : Option Result × Accesses) (rest : Accesses → Result × Accesses)
    → NotOk w.0
    → (and_then w rest).0 ≡ Result.ok
    → (w.0 ≡ none) × (and_then w rest ≡ rest w.1) × ((rest w.1).0 ≡ Result.ok)
and_then-ok (none, h) rest never_ok e = (refl, refl, e)
and_then-ok (some r, h) rest never_ok e = absurd (never_ok (ap some e))

pub on_ok-ok :
    (w : Result × Accesses) (rest : Accesses → Result × Accesses)
    → (on_ok w rest).0 ≡ Result.ok
    → (w.0 ≡ Result.ok) × (on_ok w rest ≡ rest w.1) × ((rest w.1).0 ≡ Result.ok)
on_ok-ok (Result.ok, h) rest e = (refl, refl, e)
on_ok-ok (Result.bus_busy, h) rest e = absurd cc
on_ok-ok (Result.timeout_start, h) rest e = absurd cc
on_ok-ok (Result.nack, h) rest e = absurd cc
on_ok-ok (Result.timeout_tx, h) rest e = absurd cc
on_ok-ok (Result.timeout_rx, h) rest e = absurd cc
on_ok-ok (Result.param, h) rest e = absurd cc

module _ (hw : Device Register) where
  -- A wait never succeeds with an error, and sends nothing.
  pub record Waits (h : Accesses) (w : Option Result × Accesses) : Type 0 where
    pub never_ok : NotOk w.0
    pub quiet : dr_writes w.1 ≡ dr_writes h

  failing :
      {h h' : Accesses} (r : Result)
      → r ≢ Result.ok
      → dr_writes h' ≡ dr_writes h
      → Waits h (some r, h')
  failing r ne e = record { never_ok = λ s. ne cc; quiet = e }

  choose :
      {h : Accesses} (b : Bool) {x y : Option Result × Accesses}
      → Waits h x
      → Waits h y
      → Waits h (elim b [ true ↦ x | false ↦ y ])
  choose true p q = p
  choose false p q = q

  choose' :
      {h : Accesses} (b : Bool) {x y : Option Result × Accesses}
      → Waits h x
      → Waits h y
      → Waits h (elim b [ false ↦ x | true ↦ y ])
  choose' true p q = q
  choose' false p q = p

  pub wait-Waits :
      (n : ℕ) (reg : Register) (cond : ℕ → Bool) (err : Result) (h : Accesses)
      → err ≢ Result.ok
      → Waits h (wait hw n reg cond err h)
  unfolding wait dr_writes
  wait-Waits zero reg cond err h ne = failing err ne refl
  wait-Waits (suc n) reg cond err h ne =
      let h1 = read_of reg ∷ h in
      let w = wait-Waits n reg cond err (read_of Register.sr1 ∷ h1) ne in
      choose (cond (hw h reg)) (record { never_ok = λ e. cc; quiet = refl })
        (choose (n == 0) (failing err ne refl) (
          choose' (has sr1_af (hw h1 Register.sr1))
            (record { never_ok = w.never_ok; quiet = w.quiet })
            (failing Result.nack (λ e. cc) refl)))

  -- A wait, then the rest, both successful.
  after_wait :
      {h : Accesses} {w : Option Result × Accesses} (bytes : List ℕ)
      (rest : Accesses → Result × Accesses)
      → Waits h w
      → ((h1 : Accesses) → (rest h1).0 ≡ Result.ok → dr_writes (rest h1).1 ≡ dr_writes h1 ++ bytes)
      → (and_then w rest).0 ≡ Result.ok
      → dr_writes (and_then w rest).1 ≡ dr_writes h ++ bytes
  after_wait {w = w} bytes rest waits sends e =
      let (_, same, ok_rest) = and_then-ok w rest waits.never_ok e in
      ap (λ (r : Result × Accesses). dr_writes r.1) same
      ∙ sends w.1 ok_rest
      ∙ ap (λ l. l ++ bytes) waits.quiet

  start_sends :
      (addr7 reading : ℕ) (h : Accesses)
      → (start hw addr7 reading h).0 ≡ Result.ok
      → dr_writes (start hw addr7 reading h).1 ≡ dr_writes h ++ (address hw addr7 reading ∷ [])
  unfolding start dr_writes
  start_sends addr7 reading h e =
      after_wait (a ∷ []) _
        (wait-Waits timeout_loops Register.sr2 (λ v. bit_and v 2 == 0) Result.bus_busy h (λ x. cc))
        (λ h1 e1.
          after_wait (a ∷ []) _
            (wait-Waits timeout_loops Register.sr1 (has 1) Result.timeout_start
              (modify hw Register.cr1 (bit_or (2 ^ 10 + 2 ^ 8)) h1) (λ x. cc))
            (λ h2 e2.
              after_wait [] _
                (wait-Waits timeout_loops Register.sr1 (has 2) Result.nack
                  (write_of Register.dr a ∷ h2) (λ x. cc))
                (λ h3 e3. sym (append-nil (dr_writes h3))) e2
              ∙ append-nil (dr_writes h2 ++ (a ∷ [])))
            e1)
        e
    where
      a : ℕ
      a = address hw addr7 reading

  send_sends :
      (bytes : List ℕ) (rest : Accesses → Result × Accesses) (h : Accesses)
      → ((h1 : Accesses) → (rest h1).0 ≡ Result.ok → dr_writes (rest h1).1 ≡ dr_writes h1)
      → (send hw bytes rest h).0 ≡ Result.ok
      → dr_writes (send hw bytes rest h).1 ≡ dr_writes h ++ bytes
  unfolding send dr_writes
  send_sends [] rest h sends e = sends h e ∙ sym (append-nil (dr_writes h))
  send_sends (b ∷ bytes) rest h sends e =
      after_wait (b ∷ bytes) (λ h1. send hw bytes rest (write_of Register.dr b ∷ h1))
        (wait-Waits timeout_loops Register.sr1 (has (2 ^ 7)) Result.timeout_tx h (λ x. cc))
        (λ h1 e1.
          send_sends bytes rest (write_of Register.dr b ∷ h1) sends e1
          ∙ append_assoc (dr_writes h1) (b ∷ []) bytes)
        e

  -- The wait for the last byte, and STOP.
  last_wait :
      (h : Accesses)
      → (and_then
          (wait hw timeout_loops Register.sr1 (has 4) Result.timeout_tx h)
          (λ h2. (Result.ok, modify hw Register.cr1 (bit_or cr1_stop) h2))).0
        ≡ Result.ok
      → dr_writes
          (and_then
            (wait hw timeout_loops Register.sr1 (has 4) Result.timeout_tx h)
            (λ h2. (Result.ok, modify hw Register.cr1 (bit_or cr1_stop) h2))).1
        ≡ dr_writes h
  unfolding dr_writes
  last_wait h e =
      after_wait [] _ (wait-Waits timeout_loops Register.sr1 (has 4) Result.timeout_tx h (λ x. cc))
        (λ h1 e1. sym (append-nil (dr_writes h1))) e
      ∙ append-nil (dr_writes h)

-- When `i2c_write` reports success, what it wrote to the data register is the target's address with
-- the read bit clear and then every byte of the array, in order, whatever the peripheral does.
pub i2c_write-dr_writes :
    (hw : Device Register) (addr7 : ℕ) (bytes : List ℕ) (h : Accesses)
    → (write hw addr7 bytes h).0 ≡ Result.ok
    → dr_writes (write hw addr7 bytes h).1 ≡ dr_writes h ++ (address hw addr7 0 ∷ bytes)
unfolding write
i2c_write-dr_writes hw addr7 bytes h e =
    let rest = λ (h1 : Accesses).
      and_then (wait hw timeout_loops Register.sr1 (has 4) Result.timeout_tx h1)
        (λ h2. (Result.ok, modify hw Register.cr1 (bit_or cr1_stop) h2)) in
    let (ok_start, same, ok_send) = on_ok-ok (start hw addr7 0 h) (send hw bytes rest) e in
    ap (λ (r : Result × Accesses). dr_writes r.1) same
    ∙ send_sends hw bytes rest (start hw addr7 0 h).1 (last_wait hw) ok_send
    ∙ ap (λ l. l ++ bytes) (start_sends hw addr7 0 h ok_start)
    ∙ append_assoc (dr_writes h) (address hw addr7 0 ∷ []) bytes
