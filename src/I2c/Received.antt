-- ===== src/I2c/Received.antt =====
-- What `i2c_read` does on the bus when it reports success: the data register and the control register.
use embedded_systems_resourc.Base.{
  ℕ, zero, suc, ◌+◌, ◌≡◌, ◌≤◌, refl, sym, ap, subst, ◌∙◌, ◌≢◌, Bool, true, false, Option, none,
  some, List, [], ◌∷◌, ◌++◌, bit_and, bit_or, ◌==◌, ◌^◌, read_of, write_of, Device, modify, has,
  without, if◌then◌else◌, length, arith, ne→==_false,
}
use embedded_systems_resourc.I2c.{
  Register, Accesses, Result, timeout_loops, cr1_stop, cr1_ack, sr1_af, and_then, wait, start,
  before_byte, receive, read_on, read, address,
}
use mathlib.Core.List.{append_assoc}
use embedded_systems_resourc.I2c.Sent.{NotOk, wait-Waits, and_then-ok}

-- What goes through the two registers that drive the bus.
pub data Traffic : Type 0 where
  sent got control : (v : ℕ) → Traffic

unfoldable pub traffic : Device Register → Accesses → List Traffic
traffic hw [] = []
traffic hw (read_of Register.dr ∷ h) = traffic hw h ++ (got (bit_and (hw h Register.dr) 0xff) ∷ [])
traffic hw (write_of Register.dr v ∷ h) = traffic hw h ++ (sent v ∷ [])
traffic hw (write_of Register.cr1 v ∷ h) = traffic hw h ++ (control v ∷ [])
traffic hw (_ ∷ h) = traffic hw h

-- A read of so many bytes after its address: acknowledge is switched off and STOP asked for before the
-- last byte is read, and acknowledge is switched on again at the end.
pub data Reads : ℕ → List ℕ → List Traffic → Type 0 where
  last :
      (b acked stopped after : ℕ)
      → Reads 1 (b ∷ []) (
          control (without cr1_ack acked)
          ∷ control (bit_or cr1_stop stopped)
          ∷ got b
          ∷ control (bit_or cr1_ack after)
          ∷ [])
  more :
      {n : ℕ} {bytes : List ℕ} {t : List Traffic} (b : ℕ)
      → Reads (suc n) bytes t
      → Reads (suc (suc n)) (b ∷ bytes) (got b ∷ t)

module _ (P : Option Result × Accesses → Type 0) where
  choose :
      (b : Bool) {x y : Option Result × Accesses} → P x → P y → P (elim b [ true ↦ x | false ↦ y ])
  choose true p q = p
  choose false p q = q

  choose' :
      (b : Bool) {x y : Option Result × Accesses} → P x → P y → P (elim b [ false ↦ x | true ↦ y ])
  choose' true p q = q
  choose' false p q = p

-- A byte that is received is one whose wait came to its end.
byte_taken :
    (P : Result × List ℕ × Accesses → Type 0) (failed : Option Result) (h1 : Accesses)
    (x : Result × List ℕ × Accesses)
    → NotOk failed
    → (failed ≡ none → x.0 ≡ Result.ok → P x)
    → (elim failed as (λ f. Result × List ℕ × Accesses) [ some e ↦ (e, [], h1) | none ↦ x ]).0
      ≡ Result.ok
    → P (elim failed [ some e ↦ (e, [], h1) | none ↦ x ])
byte_taken P none h1 x never goes e = goes refl e
byte_taken P (some r) h1 x never goes e = absurd (never (ap some e))

module _ (hw : Device Register) where
  -- A wait that comes to its end changes nothing.
  abbrev Quiet : Accesses → Option Result × Accesses → Type 0
  Quiet h w = w.0 ≡ none → traffic hw w.1 ≡ traffic hw h

  wait-Quiet :
      (n : ℕ) (reg : Register) (cond : ℕ → Bool) (err : Result)
      → ((h : Accesses) → traffic hw (read_of reg ∷ h) ≡ traffic hw h)
      → (h : Accesses) → Quiet h (wait hw n reg cond err h)
  unfolding wait traffic
  wait-Quiet zero reg cond err same h = λ e. absurd cc
  wait-Quiet (suc n) reg cond err same h =
      let h1 = read_of reg ∷ h in
      let w = wait-Quiet n reg cond err same (read_of Register.sr1 ∷ h1) in
      choose (Quiet h) (cond (hw h reg)) (λ e. same h)
        (choose (Quiet h) (n == 0) (λ e. absurd cc)
          (choose' (Quiet h) (has sr1_af (hw h1 Register.sr1)) (λ e. w e ∙ same h)
            (λ e. absurd cc)))

  -- A wait and the rest, both successful.
  pub after_wait :
      (P : Accesses → Type 0) (reg : Register) (cond : ℕ → Bool) (err : Result) (h : Accesses)
      (rest : Accesses → Result × Accesses)
      → ((g : Accesses) → traffic hw (read_of reg ∷ g) ≡ traffic hw g)
      → err ≢ Result.ok
      → ((h1 : Accesses) → traffic hw h1 ≡ traffic hw h → (rest h1).0 ≡ Result.ok → P (rest h1).1)
      → (and_then (wait hw timeout_loops reg cond err h) rest).0 ≡ Result.ok
      → P (and_then (wait hw timeout_loops reg cond err h) rest).1
  after_wait P reg cond err h rest same ne goes e =
      let w = wait hw timeout_loops reg cond err h in
      let (failed, eq, ok_rest) =
        and_then-ok w rest (wait-Waits hw timeout_loops reg cond err h ne).never_ok e in
      subst (λ (r : Result × Accesses). P r.1) (sym eq)
        (goes w.1 (wait-Quiet timeout_loops reg cond err same h failed) ok_rest)

  -- What `i2c_start` does.
  abbrev pub Started : ℕ → ℕ → Accesses → Accesses → Type 0
  Started addr7 reading h h' =
      (v : ℕ) × (traffic hw h'
        ≡ traffic hw h
          ++ (control (bit_or (2 ^ 10 + 2 ^ 8) v) ∷ sent (address hw addr7 reading) ∷ []))

  pub start-Started :
      (addr7 reading : ℕ) (h : Accesses)
      → (start hw addr7 reading h).0 ≡ Result.ok
      → Started addr7 reading h (start hw addr7 reading h).1
  unfolding start traffic
  start-Started addr7 reading h e =
      after_wait (Started addr7 reading h) Register.sr2 (λ v. bit_and v 2 == 0) Result.bus_busy h _
        (λ g. refl) (λ x. cc)
        (λ h1 same1.
          after_wait (Started addr7 reading h) Register.sr1 (has 1) Result.timeout_start
            (modify hw Register.cr1 (bit_or (2 ^ 10 + 2 ^ 8)) h1) _ (λ g. refl) (λ x. cc)
            (λ h2 same2.
              after_wait (Started addr7 reading h) Register.sr1 (has 2) Result.nack
                (write_of Register.dr (address hw addr7 reading) ∷ h2) _ (λ g. refl) (λ x. cc)
                (λ h3 same3 e3. (
                  hw h1 Register.cr1,
                  same3
                      ∙ ap (λ t. t ++ (sent (address hw addr7 reading) ∷ []))
                          (same2
                            ∙ ap
                                (λ t.
                                  t
                                  ++ (control (bit_or (2 ^ 10 + 2 ^ 8) (hw h1 Register.cr1)) ∷ []))
                                same1)
                      ∙ append_assoc (traffic hw h)
                          (control (bit_or (2 ^ 10 + 2 ^ 8) (hw h1 Register.cr1)) ∷ [])
                          (sent (address hw addr7 reading) ∷ []),
                ))))
        e

  abbrev Received : ℕ → Accesses → Result × List ℕ × Accesses → Type 0
  Received len h (r, bytes, h') =
      (t : List Traffic) × Reads len bytes t × (traffic hw h' ≡ traffic hw h ++ t)

  receive-Received :
      (left : ℕ) (h : Accesses)
      → (receive hw (suc left) h).0 ≡ Result.ok
      → Received (suc left) h (receive hw (suc left) h)
  unfolding receive traffic
  receive-Received zero h e =
      let h0 = before_byte hw 0 h in
      let w = wait hw timeout_loops Register.sr1 (has (2 ^ 6)) Result.timeout_rx h0 in
      let b = bit_and (hw w.1 Register.dr) 0xff in
      byte_taken (Received 1 h) w.0 w.1 _
        (wait-Waits hw timeout_loops Register.sr1 (has (2 ^ 6)) Result.timeout_rx h0
          (λ x. cc)).never_ok
        (λ failed e1. (
          _,
          last b (hw h Register.cr1) (hw (modify hw Register.cr1 (without cr1_ack) h) Register.cr1)
              (hw (read_of Register.dr ∷ w.1) Register.cr1),
          ap
                (λ t.
                  (t ++ (got b ∷ []))
                  ++ (control (bit_or cr1_ack (hw (read_of Register.dr ∷ w.1) Register.cr1)) ∷ []))
                (wait-Quiet timeout_loops Register.sr1 (has (2 ^ 6)) Result.timeout_rx (λ g. refl)
                  h0 failed)
              ∙ simp append_assoc refl,
        ))
        e
  receive-Received (suc left) h e =
      let h0 = before_byte hw (suc left) h in
      let w = wait hw timeout_loops Register.sr1 (has (2 ^ 6)) Result.timeout_rx h0 in
      let b = bit_and (hw w.1 Register.dr) 0xff in
      let rest = receive hw (suc left) (read_of Register.dr ∷ w.1) in
      byte_taken (Received (suc (suc left)) h) w.0 w.1 (rest.0, b ∷ rest.1, rest.2)
        (wait-Waits hw timeout_loops Register.sr1 (has (2 ^ 6)) Result.timeout_rx h0
          (λ x. cc)).never_ok
        (λ failed e1.
          let (t, reads, same) = receive-Received left (read_of Register.dr ∷ w.1) e1 in
          (
            got b ∷ t,
            more b reads,
            same
                ∙ ap (λ g. (g ++ (got b ∷ [])) ++ t)
                    (wait-Quiet timeout_loops Register.sr1 (has (2 ^ 6)) Result.timeout_rx
                        (λ g. refl) h0 failed
                      ∙ ap
                          (λ c. traffic hw (
                            if c
                            then modify hw Register.cr1 (bit_or cr1_stop)
                                (modify hw Register.cr1 (without cr1_ack) h)
                            else h))
                          (ne→==_false (suc left) 0 (omega arith)))
                ∙ append_assoc (traffic hw h) (got b ∷ []) t,
          ))
        e

  read_on-ok :
      (s : Result × Accesses) (len : ℕ)
      → (read_on hw s len).0 ≡ Result.ok
      → (s.0 ≡ Result.ok) × (read_on hw s len ≡ receive hw len s.1)
  read_on-ok (Result.ok, h) len e = (refl, refl)
  read_on-ok (Result.bus_busy, h) len e = absurd cc
  read_on-ok (Result.timeout_start, h) len e = absurd cc
  read_on-ok (Result.nack, h) len e = absurd cc
  read_on-ok (Result.timeout_tx, h) len e = absurd cc
  read_on-ok (Result.timeout_rx, h) len e = absurd cc
  read_on-ok (Result.param, h) len e = absurd cc

  read-read_on :
      (addr7 left : ℕ) (h : Accesses)
      → read hw addr7 (suc left) h ≡ read_on hw (start hw addr7 1 h) (suc left)
  unfolding read
  read-read_on addr7 left h =
      ap (λ c. if c then (Result.param, [], h) else read_on hw (start hw addr7 1 h) (suc left))
        (ne→==_false (suc left) 0 (omega arith))

length-Reads : {n : ℕ} {bytes : List ℕ} {t : List Traffic} → Reads n bytes t → length bytes ≡ n
length-Reads (last b acked stopped after) = refl
length-Reads (more b reads) = ap suc (length-Reads reads)

-- What a read of `len` bytes that took the history from `h` to `h'` did on the bus.
abbrev pub ReadFrom : Device Register → ℕ → ℕ → Accesses → Result × List ℕ × Accesses → Type 0
ReadFrom hw addr7 len h (r, bytes, h') =
    (length bytes ≡ len)
    × (v : ℕ) × (t : List Traffic) × Reads len bytes t
    × (traffic hw h'
        ≡ traffic hw h ++ (control (bit_or (2 ^ 10 + 2 ^ 8) v) ∷ sent (address hw addr7 1) ∷ t))

-- When `i2c_read` of one byte or more reports success, it has stored as many bytes as were asked for,
-- each one what the data register gave, and on the bus it has done this: START with acknowledge
-- on, the address with the read bit, the bytes in order, with acknowledge off and STOP asked for just
-- before the last one is read, and acknowledge on again; whatever the peripheral does.
pub i2c_read-ReadFrom :
    (hw : Device Register) (addr7 len : ℕ) (h : Accesses)
    → 1 ≤ len
    → (read hw addr7 len h).0 ≡ Result.ok
    → ReadFrom hw addr7 len h (read hw addr7 len h)
i2c_read-ReadFrom hw addr7 zero h some_byte e = absurd (omega arith)
i2c_read-ReadFrom hw addr7 (suc left) h some_byte e =
    let s = start hw addr7 1 h in
    let on = read-read_on hw addr7 left h in
    let (started, same) = read_on-ok hw s (suc left) (ap (λ r. r.0) (sym on) ∙ e) in
    let whole = on ∙ same in
    let (v, before) = start-Started hw addr7 1 h started in
    let (t, reads, during) = receive-Received hw left s.1 (ap (λ r. r.0) (sym whole) ∙ e) in
    subst (ReadFrom hw addr7 (suc left) h) (sym whole) (
      length-Reads reads,
      v,
      t,
      reads,
      during ∙ ap (λ g. g ++ t) before ∙ append_assoc (traffic hw h) _ t,
    )
