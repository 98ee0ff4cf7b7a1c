-- ===== src/I2c/Written.antt =====
-- What `i2c_write` does on the bus when it reports success: the data register and the control register.
use embedded_systems_resourc.Base.{
  ℕ, ◌+◌, ◌≡◌, refl, sym, ap, subst, ◌∙◌, List, [], ◌∷◌, ◌++◌, bit_or, ◌^◌, write_of, Device,
  modify, has,
}
use mathlib.Core.List.{append_assoc, append-nil, map}
use embedded_systems_resourc.I2c.{
  Register, Accesses, Result, timeout_loops, cr1_stop, and_then, wait, start, send, write, address,
}
use embedded_systems_resourc.I2c.Sent.{on_ok-ok}
use embedded_systems_resourc.I2c.Received.{sent, control, traffic, after_wait, start-Started}

-- What a write of `bytes` that took the history from `h` to `h'` did on the bus.
abbrev pub WrittenTo : Device Register → ℕ → List ℕ → Accesses → Accesses → Type 0
WrittenTo hw addr7 bytes h h' =
    (v w : ℕ) × (traffic hw h'
      ≡ traffic hw h
        ++ (control (bit_or (2 ^ 10 + 2 ^ 8) v)
            ∷ sent (address hw addr7 0)
            ∷ (map sent bytes ++ (control (bit_or cr1_stop w) ∷ []))))

module _ (hw : Device Register) where
  -- The bytes go out in order, and then the rest.
  send-traffic :
      (P : Accesses → Type 0) (bytes : List ℕ) (rest : Accesses → Result × Accesses) (h : Accesses)
      → ((h1 : Accesses)
          → traffic hw h1 ≡ traffic hw h ++ map sent bytes
          → (rest h1).0 ≡ Result.ok
          → P (rest h1).1)
      → (send hw bytes rest h).0 ≡ Result.ok
      → P (send hw bytes rest h).1
  unfolding send traffic
  send-traffic P [] rest h goes e = goes h (sym (append-nil (traffic hw h))) e
  send-traffic P (b ∷ bytes) rest h goes e =
      after_wait hw P Register.sr1 (has (2 ^ 7)) Result.timeout_tx h
        (λ h1. send hw bytes rest (write_of Register.dr b ∷ h1)) (λ g. refl) (λ x. cc)
        (λ h1 same e1.
          send-traffic P bytes rest (write_of Register.dr b ∷ h1)
            (λ h2 more e2.
              goes h2
                (more
                  ∙ ap (λ t. (t ++ (sent b ∷ [])) ++ map sent bytes) same
                  ∙ append_assoc (traffic hw h) (sent b ∷ []) (map sent bytes))
                e2)
            e1)
        e

-- When `i2c_write` reports success it has done this on the bus, whatever the peripheral does: START with
-- acknowledge on, the target's address with the read bit clear, every byte of the array in order,
-- and STOP.
pub i2c_write-WrittenTo :
    (hw : Device Register) (addr7 : ℕ) (bytes : List ℕ) (h : Accesses)
    → (write hw addr7 bytes h).0 ≡ Result.ok
    → WrittenTo hw addr7 bytes h (write hw addr7 bytes h).1
unfolding write traffic
i2c_write-WrittenTo hw addr7 bytes h e =
    let last = λ (h1 : Accesses).
      and_then (wait hw timeout_loops Register.sr1 (has 4) Result.timeout_tx h1)
        (λ h2. (Result.ok, modify hw Register.cr1 (bit_or cr1_stop) h2)) in
    let (ok_start, same, ok_send) = on_ok-ok (start hw addr7 0 h) (send hw bytes last) e in
    let (v, begun) = start-Started hw addr7 0 h ok_start in
    let P = WrittenTo hw addr7 bytes h in
    subst (λ (r : Result × Accesses). P r.1) (sym same)
      (send-traffic hw P bytes last (start hw addr7 0 h).1
        (λ h1 all e1.
          after_wait hw P Register.sr1 (has 4) Result.timeout_tx h1 _ (λ g. refl) (λ x. cc)
            (λ h2 quiet e2. (
              v,
              hw h2 Register.cr1,
              ap (λ t. t ++ (control (bit_or cr1_stop (hw h2 Register.cr1)) ∷ []))
                    (quiet ∙ all ∙ ap (λ t. t ++ map sent bytes) begun)
                  ∙ append_assoc
                      (traffic hw h
                        ++ (control (bit_or (2 ^ 10 + 2 ^ 8) v) ∷ sent (address hw addr7 0) ∷ []))
                      (map sent bytes) (control (bit_or cr1_stop (hw h2 Register.cr1)) ∷ [])
                  ∙ append_assoc (traffic hw h)
                      (control (bit_or (2 ^ 10 + 2 ^ 8) v) ∷ sent (address hw addr7 0) ∷ [])
                      (map sent bytes ++ (control (bit_or cr1_stop (hw h2 Register.cr1)) ∷ [])),
            ))
            e1)
        ok_send)
