-- ===== src/Spi/Transfer.antt =====
-- A byte out and a byte in: spi_transfer on a peripheral that is ready in time.
use embedded_systems_resourc.Base.{
  ℕ, zero, suc, ◌<◌, ◌≡◌, refl, ap, ◌∙◌, Bool, true, List, [], ◌∷◌, ◌++◌, if◌then◌else◌, bit_and,
  has, read_of, write_of, Device, polled,
}
use embedded_systems_resourc.Spi.{
  Register, Accesses, timeout_loops, sr_txe, sr_rxne, spin, take_in, transfer,
}
use embedded_systems_resourc.Spi.Wait.{came, gave_up, spin-Ended}

-- The bytes written to the data register, the first one first.
unfoldable pub sent : Accesses → List ℕ
sent [] = []
sent (write_of Register.dr v ∷ h) = sent h ++ (v ∷ [])
sent (_ ∷ h) = sent h

-- The reads of the data register.
unfoldable pub taken : Accesses → ℕ
taken [] = 0
taken (read_of Register.dr ∷ h) = suc (taken h)
taken (_ ∷ h) = taken h

-- A wait that begins after `h` sees the flag in time.
abbrev pub InTime : Device Register → ℕ → Accesses → Type 0
InTime hw flag h =
    (k : ℕ) × (k < timeout_loops) × (has flag (hw (polled Register.sr k h) Register.sr) ≡ true)

-- The peripheral, and a device on the bus that answers each byte with one that depends on the bytes up
-- to it.
pub record Answers (hw : Device Register) (answer : List ℕ → ℕ) : Type 0 where
  pub room_in_time : (h : Accesses) → InTime hw sr_txe h
  pub byte_in_time : (h : Accesses) (v : ℕ) → InTime hw sr_rxne (write_of Register.dr v ∷ h)
  pub shifts : (h : Accesses) → bit_and (hw h Register.dr) 0xff ≡ answer (sent h)

polled-sent :
    (k : ℕ) (h : Accesses)
    → (sent (polled Register.sr k h) ≡ sent h) × (taken (polled Register.sr k h) ≡ taken h)
unfolding sent taken
polled-sent zero h = (refl, refl)
polled-sent (suc k) h = polled-sent k (read_of Register.sr ∷ h)

module _ (hw : Device Register) where
  -- A wait in time succeeds and moves no byte.
  record Succeeds (h : Accesses) (r : Bool × Accesses) : Type 0 where
    pub success : r.0 ≡ true
    pub same_sent : sent r.1 ≡ sent h
    pub same_taken : taken r.1 ≡ taken h

  spin-Succeeds :
      (flag : ℕ) (h : Accesses) → InTime hw flag h → Succeeds h (spin hw timeout_loops (has flag) h)
  spin-Succeeds flag h (k, early, shown) =
      elim (spin-Ended hw (has flag) timeout_loops h) as (λ n r e. k < n → Succeeds h r) [
        | came j p found ↦ λ q. record {
          success = refl;
          same_sent = (polled-sent (suc j) h).0;
          same_taken = (polled-sent (suc j) h).1;
        }
        | gave_up all ↦ λ q. let hidden = all k q in absurd cc
      ]
        early

  module _ (answer : List ℕ → ℕ) (device : Answers hw answer) where
    -- One byte out, one byte in.
    pub transfer_one :
        (x : ℕ) (h : Accesses)
        → let r = transfer hw x h in
          (r.0 ≡ answer (sent h ++ (x ∷ [])))
          × (sent r.1 ≡ sent h ++ (x ∷ []))
          × (taken r.1 ≡ suc (taken h))
    unfolding transfer take_in sent taken
    transfer_one x h =
        let h1 = (spin hw timeout_loops (has sr_txe) h).1 in
        let room = spin-Succeeds sr_txe h (device.room_in_time h) in
        let byte = spin-Succeeds sr_rxne (write_of Register.dr x ∷ h1) (device.byte_in_time h1 x) in
        let h2 = (spin hw timeout_loops (has sr_rxne) (write_of Register.dr x ∷ h1)).1 in
        let full =
          ap
            (λ b.
              if b
              then (bit_and (hw h2 Register.dr) 0xff, read_of Register.dr ∷ h2)
              else (0xff, h2))
            byte.success in
        let run =
          ap (λ b. if b then take_in hw (write_of Register.dr x ∷ h1) else (0xff, h1)) room.success
          ∙ full in
        let moved : sent h2 ≡ sent h ++ (x ∷ []) =
          byte.same_sent ∙ ap (λ l. l ++ (x ∷ [])) room.same_sent in
        (
          ap (λ (r : ℕ × Accesses). r.0) run ∙ device.shifts h2 ∙ ap answer moved,
          ap (λ (r : ℕ × Accesses). sent r.1) run ∙ moved,
          ap (λ (r : ℕ × Accesses). taken r.1) run ∙ ap suc (byte.same_taken ∙ room.same_taken),
        )
