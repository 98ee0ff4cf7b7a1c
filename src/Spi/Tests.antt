-- ===== src/Spi/Tests.antt =====
-- The SPI master with its output wired to its input, and the divider at concrete clocks.
use embedded_systems_resourc.Base.{
  ℕ, suc, ◌+◌, ◌/◌, ◌^◌, ◌≤◌, ◌<◌, ◌≡◌, refl, ◌≢◌, ◌⊎◌, List, [], ◌∷◌, ◌++◌, some, arith, bit_and,
  write_of, Device, polled, none, true, ap, bit_or,
}
use embedded_systems_resourc.Spi.{
  Register, Accesses, prescale, control, init, transfer_buf, transfer_from, transfer, take_in, spin,
  cs_release, timeout_loops, sr_bsy,
}
use embedded_systems_resourc.Spi.Prescaler.{
  sck_divider, cr1_writes, last_cr1, Keeps, enabled, spi_init-divider,
}
use embedded_systems_resourc.Spi.Wait.{cs_release-polled}
use embedded_systems_resourc.Spi.Transfer.{Answers, sent, taken}
use embedded_systems_resourc.Spi.Duplex.{filled, to_send, transfer_buf_lem}

abbrev last : List ℕ → ℕ
last [] = 0
last (x ∷ []) = x
last (x ∷ y ∷ xs) = last (y ∷ xs)

-- Always ready, never busy, and the byte that comes in is the one that went out.
abbrev loop_back : Device Register
loop_back h Register.sr = 3
loop_back h Register.dr = last (sent h)
loop_back h _ = 0

abbrev echo : List ℕ → ℕ
echo xs = bit_and (last xs) 0xff

loop_back-Answers : Answers loop_back echo
loop_back-Answers = record {
  room_in_time = λ h. (0, omega arith, refl);
  byte_in_time = λ h v. (0, omega arith, refl);
  shifts = λ h. refl;
}

transfer_three :
    (transfer_buf loop_back (some (1 ∷ 2 ∷ 3 ∷ [])) (some (0 ∷ 0 ∷ 0 ∷ 9 ∷ [])) 3 []).0
    ≡ some (1 ∷ 2 ∷ 3 ∷ 9 ∷ [])
unfolding transfer_buf transfer_from transfer take_in spin sent
transfer_three = refl

transfer_buf_lem_example :
    let r = transfer_buf loop_back (some (1 ∷ 2 ∷ 3 ∷ [])) (some (0 ∷ 0 ∷ 0 ∷ 9 ∷ [])) 3 [] in
    let out = to_send (some (1 ∷ 2 ∷ 3 ∷ [])) 3 in
    (r.0 ≡ filled echo (some (0 ∷ 0 ∷ 0 ∷ 9 ∷ [])) (sent []) out)
    × (sent r.1 ≡ sent [] ++ out)
    × (taken r.1 ≡ taken [] + 3)
transfer_buf_lem_example =
    transfer_buf_lem loop_back echo (some (1 ∷ 2 ∷ 3 ∷ [])) (some (0 ∷ 0 ∷ 0 ∷ 9 ∷ [])) 3 []
      loop_back-Answers (omega arith) (omega arith) (omega arith)

-- 84 MHz for a device of at most 10 MHz: 16.
prescale_ten : prescale 84000000 10000000 8 0 2 ≡ some 3
unfolding prescale
prescale_ten = refl

-- A clock of 21 Hz keeps to 10 Hz only after rounding down: half of it is 10.5 Hz.
prescale_rounds : prescale 21 10 8 0 2 ≡ some 0
unfolding prescale
prescale_rounds = refl

-- CR1 as a register that holds what is written to it.
abbrev holding : Device Register
holding h Register.cr1 = elim (last_cr1 h) [ none ↦ 0 | some v ↦ v ]
holding h _ = 0

holding-Keeps : Keeps holding
holding-Keeps h v e = ap (λ r. elim r [ none ↦ 0 | some x ↦ x ]) e

spi_init-divider_example :
    (h' : Accesses) × (br : ℕ) × (init holding 3 84000000 10000000 [] ≡ some h')
    × (cr1_writes h' ≡ cr1_writes [] ++ (0 ∷ control 3 br ∷ bit_or (2 ^ 6) (control 3 br) ∷ []))
    × (last_cr1 h' ≡ some (bit_or (2 ^ 6) (control 3 br)))
    × (enabled (bit_or (2 ^ 6) (control 3 br)) ≡ true)
    × (sck_divider (bit_or (2 ^ 6) (control 3 br)) ≡ 2 ^ (br + 1))
    × (br ≤ 7)
    × ((84000000 / 2 ^ (br + 1) ≤ 10000000) ⊎ (br ≡ 7))
    × ((b : ℕ) → b < br → 10000000 < 84000000 / 2 ^ (b + 1))
spi_init-divider_example = spi_init-divider holding 3 84000000 10000000 [] holding-Keeps

cs_release-polled_example :
    (k : ℕ) × (k ≤ timeout_loops)
    × (cs_release loop_back [] ≡ write_of Register.bsrr (2 ^ 4) ∷ polled Register.sr k [])
    × (((j : ℕ) × (k ≡ suc j)
          × (bit_and (loop_back (polled Register.sr j []) Register.sr) sr_bsy ≡ 0))
        ⊎ ((k ≡ timeout_loops)
            × ((j : ℕ)
                → j < k
                → bit_and (loop_back (polled Register.sr j []) Register.sr) sr_bsy ≢ 0)))
cs_release-polled_example = cs_release-polled loop_back []
