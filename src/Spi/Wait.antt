-- ===== src/Spi/Wait.antt =====
-- How the waits on the SPI status register end.
use embedded_systems_resourc.Base.{
  ℕ, zero, suc, ◌^◌, ◌≤◌, ◌<◌, ◌≡◌, refl, sym, ap, subst, ◌∙◌, ◌≢◌, ◌⊎◌, inl, inr, Bool, true,
  false, ◌∷◌, arith, ◌==◌, Bool-cases, ==→eq, ==_true, ne→==_false, bit_and, read_of, write_of,
  Device, polled,
}
use embedded_systems_resourc.Spi.{
  Register, Accesses, timeout_loops, sr_bsy, spin, wait_idle, cs_release,
}

module _ (hw : Device Register) (cond : ℕ → Bool) where
  -- How a wait of at most `n` reads ended: with the first read that satisfied the condition, or after
  -- `n` reads that did not.
  pub data Ended (h : Accesses) : ℕ → Bool × Accesses → Type 0 where
    came :
        {n : ℕ} (k : ℕ)
        → k < n
        → cond (hw (polled Register.sr k h) Register.sr) ≡ true
        → Ended h n (true, polled Register.sr (suc k) h)
    gave_up :
        {n : ℕ}
        → ((k : ℕ) → k < n → cond (hw (polled Register.sr k h) Register.sr) ≡ false)
        → Ended h n (false, polled Register.sr n h)

  one_more :
      {h : Accesses} {n : ℕ} {r : Bool × Accesses}
      → cond (hw h Register.sr) ≡ false
      → Ended (read_of Register.sr ∷ h) n r
      → Ended h (suc n) r
  one_more later (Ended.came k p found) = Ended.came (suc k) (omega arith) found
  one_more {h} {n} later (Ended.gave_up all) = Ended.gave_up each
    where
      each : (k : ℕ) → k < suc n → cond (hw (polled Register.sr k h) Register.sr) ≡ false
      each zero p = later
      each (suc k) p = all k (omega arith)

  -- A round of the loop.
  spin-next :
      (n : ℕ) (h : Accesses)
      → cond (hw h Register.sr) ≡ false
      → spin hw (suc n) cond h ≡ spin hw n cond (read_of Register.sr ∷ h)
  unfolding spin
  spin-next zero h later = rw (spin, later) refl
  spin-next (suc n) h later =
      let h1 = read_of Register.sr ∷ h in
      let on = spin hw (suc n) cond h1 in
      ap
        (λ b. elim b [
          | true ↦ (true, h1)
          | false ↦ elim (suc n == 0) [ true ↦ (false, h1) | false ↦ on ]
        ])
        later
      ∙ ap (λ b. elim b [ true ↦ (false, h1) | false ↦ on ]) (ne→==_false (suc n) 0 (omega arith))

  pub spin-Ended : (n : ℕ) (h : Accesses) → Ended h n (spin hw n cond h)
  unfolding spin
  spin-Ended zero h = Ended.gave_up (λ k p. absurd (omega arith))
  spin-Ended (suc n) h = elim (Bool-cases (cond (hw h Register.sr))) [
    | inl now ↦ subst (Ended h (suc n)) (sym (rw (spin, now) refl)) (Ended.came 0 (omega arith) now)
    | inr later ↦
        subst (Ended h (suc n)) (sym (spin-next n h later))
          (one_more later (spin-Ended n (read_of Register.sr ∷ h)))
  ]

-- `spi_cs_release` polls the status register at most 100000 times and then, as its last access, raises
-- the select line: after the first read that showed BSY clear, or after 100000 reads that all
-- showed it set, in which case the line goes up with the last bits still on their way.
pub cs_release-polled :
    (hw : Device Register) (h : Accesses)
    → (k : ℕ) × (k ≤ timeout_loops)
      × (cs_release hw h ≡ write_of Register.bsrr (2 ^ 4) ∷ polled Register.sr k h)
      × (((j : ℕ) × (k ≡ suc j) × (bit_and (hw (polled Register.sr j h) Register.sr) sr_bsy ≡ 0))
          ⊎ ((k ≡ timeout_loops)
              × ((j : ℕ) → j < k → bit_and (hw (polled Register.sr j h) Register.sr) sr_bsy ≢ 0)))
unfolding cs_release wait_idle
cs_release-polled hw h =
    elim (spin-Ended hw (λ v. bit_and v sr_bsy == 0) timeout_loops h)
      as (λ n r e.
        (k : ℕ) × (k ≤ n)
        × (write_of Register.bsrr (2 ^ 4) ∷ r.1
            ≡ write_of Register.bsrr (2 ^ 4) ∷ polled Register.sr k h)
        × (((j : ℕ) × (k ≡ suc j) × (bit_and (hw (polled Register.sr j h) Register.sr) sr_bsy ≡ 0))
            ⊎ ((k ≡ n)
                × ((j : ℕ)
                    → j < k
                    → bit_and (hw (polled Register.sr j h) Register.sr) sr_bsy ≢ 0)))) [
                      | came k p found ↦ (suc k, omega arith, refl, inl (k, refl, ==→eq _ _ found))
                      | gave_up {n} all ↦ (
                        n,
                        omega arith,
                        refl,
                        inr (
                          refl,
                          λ j p e.
                              let clear =
                                ==_true (bit_and (hw (polled Register.sr j h) Register.sr) sr_bsy) 0
                                  e in
                              let still = all j p in cc,
                        ),
                      )
                    ]
