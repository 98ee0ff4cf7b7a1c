-- ===== src/I2c/Restart.antt =====
-- BUSY and the repeated START of i2c_write_read.
use embedded_systems_resourc.Base.{
  ℕ, zero, suc, ◌+◌, ◌^◌, ◌≡◌, refl, sym, ap, ◌∙◌, ◌≢◌, Bool, true, false, Option, none, List, [],
  ◌∷◌, arith, ◌==◌, bit_and, bit_or, if◌then◌else◌, ne→==_false, ne→!=, bit_and_bit, bit_or_has,
  Access, read_of, write_of, Device, modify, has,
}
use embedded_systems_resourc.I2c.{
  Register, Accesses, Result, timeout_loops, sr1_af, and_then, on_ok, wait, start, send, read,
  read_on, write_read, address,
}
use embedded_systems_resourc.I2c.Sent.{and_then-ok, on_ok-ok, wait-Waits}

-- Whether the master holds the bus: the latest write to CR1 that asks for START or STOP asks for START.
unfoldable pub owned : Accesses → Bool
owned [] = false
owned (write_of Register.cr1 v ∷ h) =
    let before = owned h in if has (2 ^ 8) v then true else if has (2 ^ 9) v then false else before
owned (_ ∷ h) = owned h

-- BUSY is set while the master holds the bus.
abbrev pub ShowsBusy : Device Register → Type 0
ShowsBusy hw = (h : Accesses) → owned h ≡ true → bit_and (hw h Register.sr2) 2 ≢ 0

asks_start : (v : ℕ) → has (2 ^ 8) (bit_or (2 ^ 10 + 2 ^ 8) v) ≡ true
asks_start v = ne→!= (bit_and (bit_or (2 ^ 10 + 2 ^ 8) v) (2 ^ 8)) 0 (λ e. absurd (
    omega
      (arith, e, bit_and_bit 8 (bit_or (2 ^ 10 + 2 ^ 8) v), bit_or_has 8 (2 ^ 10 + 2 ^ 8) v refl)))

-- A property of both outcomes of a test is one of the test.
pub by_case :
    (P : Option Result × Accesses → Type 0) (b : Bool) {x y : Option Result × Accesses}
    → (b ≡ true → P x)
    → P y
    → P (elim b [ true ↦ x | false ↦ y ])
by_case P true p q = p refl
by_case P false p q = q

pub by_case' :
    (P : Option Result × Accesses → Type 0) (b : Bool) {x y : Option Result × Accesses}
    → P x
    → P y
    → P (elim b [ false ↦ x | true ↦ y ])
by_case' P true p q = q
by_case' P false p q = p

module _ (hw : Device Register) where
  -- A wait that succeeds leaves the bus as it was.
  abbrev Keeps : Accesses → Option Result × Accesses → Type 0
  Keeps h w = w.0 ≡ none → owned w.1 ≡ owned h

  wait-Keeps :
      (n : ℕ) (reg : Register) (cond : ℕ → Bool) (err : Result) (h : Accesses)
      → Keeps h (wait hw n reg cond err h)
  unfolding wait owned
  wait-Keeps zero reg cond err h = λ e. absurd cc
  wait-Keeps (suc n) reg cond err h =
      let h1 = read_of reg ∷ h in
      by_case (Keeps h) (cond (hw h reg)) (λ t e. refl)
        (by_case (Keeps h) (n == 0) (λ t e. absurd cc)
          (by_case' (Keeps h) (has sr1_af (hw h1 Register.sr1))
            (wait-Keeps n reg cond err (read_of Register.sr1 ∷ h1)) (λ e. absurd cc)))

  -- A wait for what never comes does not succeed.
  abbrev Fails : Option Result × Accesses → Type 0
  Fails w = w.0 ≢ none

  wait-Fails :
      (n : ℕ) (reg : Register) (cond : ℕ → Bool) (err : Result) (h : Accesses)
      → owned h ≡ true
      → ((h' : Accesses) → owned h' ≡ true → cond (hw h' reg) ≡ false)
      → Fails (wait hw n reg cond err h)
  unfolding wait owned
  wait-Fails zero reg cond err h o never = λ e. cc
  wait-Fails (suc n) reg cond err h o never =
      let h1 = read_of reg ∷ h in
      by_case Fails (cond (hw h reg)) (λ t e. let f = never h o in cc)
        (by_case Fails (n == 0) (λ t e. cc)
          (by_case' Fails (has sr1_af (hw h1 Register.sr1))
            (wait-Fails n reg cond err (read_of Register.sr1 ∷ h1) o never) (λ e. cc)))

  -- A successful wait, then a rest that ends holding the bus if it begins as the wait did.
  after_wait :
      (n : ℕ) (reg : Register) (cond : ℕ → Bool) (err : Result) (h : Accesses)
      (rest : List (Access Register) → Result × Accesses)
      → err ≢ Result.ok
      → ((h1 : Accesses) → owned h1 ≡ owned h → (rest h1).0 ≡ Result.ok → owned (rest h1).1 ≡ true)
      → (and_then (wait hw n reg cond err h) rest).0 ≡ Result.ok
      → owned (and_then (wait hw n reg cond err h) rest).1 ≡ true
  after_wait n reg cond err h rest ne holds e =
      let w = wait hw n reg cond err h in
      let waits = wait-Waits hw n reg cond err h ne in
      let (went, same, ok_rest) = and_then-ok w rest waits.never_ok e in
      ap (λ (r : Result × Accesses). owned r.1) same
      ∙ holds w.1 (wait-Keeps n reg cond err h went) ok_rest

  start-owned :
      (addr7 reading : ℕ) (h : Accesses)
      → (start hw addr7 reading h).0 ≡ Result.ok
      → owned (start hw addr7 reading h).1 ≡ true
  unfolding start owned
  start-owned addr7 reading h e =
      after_wait timeout_loops Register.sr2 (λ v. bit_and v 2 == 0) Result.bus_busy h _ (λ x. cc)
        (λ h1 k1 e1.
          after_wait timeout_loops Register.sr1 (has 1) Result.timeout_start
            (modify hw Register.cr1 (bit_or (2 ^ 10 + 2 ^ 8)) h1) _ (λ x. cc)
            (λ h2 k2 e2.
              after_wait timeout_loops Register.sr1 (has 2) Result.nack
                (write_of Register.dr (address hw addr7 reading) ∷ h2) _ (λ x. cc)
                (λ h3 k3 e3. k3 ∙ k2 ∙ started h1) e2)
            e1)
        e
    where
      started : (h1 : Accesses) → owned (modify hw Register.cr1 (bit_or (2 ^ 10 + 2 ^ 8)) h1) ≡ true
      started h1 =
          ap
            (λ b.
              if b
              then true
              else if has (2 ^ 9) (bit_or (2 ^ 10 + 2 ^ 8) (hw h1 Register.cr1))
              then false
              else owned h1)
            (asks_start (hw h1 Register.cr1))

  send-owned :
      (bytes : List ℕ) (rest : Accesses → Result × Accesses) (h : Accesses)
      → owned h ≡ true
      → ((h1 : Accesses) → owned h1 ≡ true → (rest h1).0 ≡ Result.ok → owned (rest h1).1 ≡ true)
      → (send hw bytes rest h).0 ≡ Result.ok
      → owned (send hw bytes rest h).1 ≡ true
  unfolding send owned
  send-owned [] rest h o holds e = holds h o e
  send-owned (b ∷ bytes) rest h o holds e =
      after_wait timeout_loops Register.sr1 (has (2 ^ 7)) Result.timeout_tx h _ (λ x. cc)
        (λ h1 k1 e1. send-owned bytes rest (write_of Register.dr b ∷ h1) (k1 ∙ o) holds e1) e

  -- On a bus that it holds, the master cannot start.
  module _ (busy : ShowsBusy hw) where
    start-fails :
        (addr7 reading : ℕ) (h : Accesses)
        → owned h ≡ true
        → (start hw addr7 reading h).0 ≢ Result.ok
    unfolding start
    start-fails addr7 reading h o e =
        let waits =
          wait-Waits hw timeout_loops Register.sr2 (λ v. bit_and v 2 == 0) Result.bus_busy h
            (λ x. cc) in
        let (went, _, _) = and_then-ok _ _ waits.never_ok e in
        wait-Fails timeout_loops Register.sr2 (λ v. bit_and v 2 == 0) Result.bus_busy h o
          (λ h' o'. ne→==_false (bit_and (hw h' Register.sr2) 2) 0 (busy h' o')) went

    read_on-fails :
        (r : Result × Accesses) (len : ℕ) → r.0 ≢ Result.ok → (read_on hw r len).0 ≢ Result.ok
    read_on-fails (Result.ok, h) len ne e = ne refl
    read_on-fails (Result.bus_busy, h) len ne e = cc
    read_on-fails (Result.timeout_start, h) len ne e = cc
    read_on-fails (Result.nack, h) len ne e = cc
    read_on-fails (Result.timeout_tx, h) len ne e = cc
    read_on-fails (Result.timeout_rx, h) len ne e = cc
    read_on-fails (Result.param, h) len ne e = cc

    read-fails :
        (addr7 len : ℕ) (h : Accesses) → owned h ≡ true → (read hw addr7 len h).0 ≢ Result.ok
    unfolding read
    read-fails addr7 zero h o e = cc
    read-fails addr7 (suc len) h o e =
        let r = start hw addr7 1 h in
        read_on-fails r (suc len) (start-fails addr7 1 h o) (
          sym (
            ap (λ b. (if b then (Result.param, [], h) else read_on hw r (suc len)).0)
              (ne→==_false (suc len) 0 (omega arith)))
          ∙ e)

    then_read :
        (w : Result × Accesses) (addr7 len : ℕ)
        → (w.0 ≡ Result.ok → owned w.1 ≡ true)
        → (let all : Result × List ℕ × Accesses = elim w.0 [
          | Result.ok ↦ read hw addr7 len w.1
          | e ↦ (e, [], w.1)
        ] in
            all.0 ≢ Result.ok)
    then_read (Result.ok, h) addr7 len holds e = read-fails addr7 len h (holds refl) e
    then_read (Result.bus_busy, h) addr7 len holds e = cc
    then_read (Result.timeout_start, h) addr7 len holds e = cc
    then_read (Result.nack, h) addr7 len holds e = cc
    then_read (Result.timeout_tx, h) addr7 len holds e = cc
    then_read (Result.timeout_rx, h) addr7 len holds e = cc
    then_read (Result.param, h) addr7 len holds e = cc

-- On a peripheral whose BUSY flag is set from a START to the next STOP that the master asks for,
-- `i2c_write_read` never reports success, whatever the target does: it asks for no STOP after the
-- bytes it writes, and its read begins with a wait for BUSY to clear.
pub write_read-never_ok :
    (hw : Device Register) (addr7 : ℕ) (tx : List ℕ) (rx_len : ℕ) (h : Accesses)
    → ShowsBusy hw
    → (write_read hw addr7 tx rx_len h).0 ≢ Result.ok
unfolding write_read
write_read-never_ok hw addr7 tx rx_len h busy =
    let rest = λ (h1 : Accesses).
      and_then (wait hw timeout_loops Register.sr1 (has 4) Result.timeout_tx h1)
        (λ h2. (Result.ok, h2)) in
    let started = start hw addr7 0 h in
    then_read hw busy (on_ok started (send hw tx rest)) addr7 rx_len (λ e.
      let (ok_start, same, ok_send) = on_ok-ok started (send hw tx rest) e in
      ap (λ (r : Result × Accesses). owned r.1) same
      ∙ send-owned hw tx rest started.1 (start-owned hw addr7 0 h ok_start)
          (λ h1 o e1.
            after_wait hw timeout_loops Register.sr1 (has 4) Result.timeout_tx h1
              (λ h2. (Result.ok, h2)) (λ x. cc) (λ h2 k e2. k ∙ o) e1)
          ok_send)
