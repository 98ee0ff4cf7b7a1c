-- ===== src/Spi.antt =====
-- code/stm32f4/spi_master.c, the SPI master. The peripheral is a parameter: what a read of a register
-- returns after the accesses made so far.
pub mod Prescaler
pub mod Wait
pub mod Transfer
pub mod Duplex
mod Tests
use embedded_systems_resourc.Base.{
  ℕ, zero, suc, ◌+◌, ◌-◌, ◌*◌, ◌/◌, ◌^◌, Bool, true, false, ◌&&◌, Option, none, some, List, [], ◌∷◌,
  ltb, ◌==◌, if◌then◌else◌, u32, bit_and, bit_or, Access, read_of, write_of, Device, modify,
  without, has, get_or, set,
}

-- The registers that the driver uses, of RCC, GPIOA and SPI1.
pub data Register : Type 0 where
  ahb1enr apb2enr moder ospeedr afr0 bsrr cr1 cr2 sr dr : Register

abbrev pub Accesses : Type 0
Accesses = List (Access Register)

-- `SPI_TIMEOUT_LOOPS`
abbrev pub timeout_loops : ℕ
timeout_loops = 100000

-- `SPI_SR_RXNE`, `SPI_SR_TXE` and `SPI_SR_BSY`
abbrev pub sr_rxne : ℕ
sr_rxne = 2 ^ 0

abbrev pub sr_txe : ℕ
sr_txe = 2 ^ 1

abbrev pub sr_bsy : ℕ
sr_bsy = 2 ^ 7

-- The loop of `spi_init` that looks for the divider, with the rounds left: the value of `br` after it.
unfoldable pub prescale : ℕ → ℕ → ℕ → ℕ → ℕ → Option ℕ
prescale pclk2_hz sck_hz_max zero br div = none
prescale pclk2_hz sck_hz_max (suc fuel) br div =
    let rest = prescale pclk2_hz sck_hz_max fuel (br + 1) (u32 (div * 2)) in
    if ltb sck_hz_max (pclk2_hz / div) && ltb br 7 then rest else some br

-- The value that `spi_init` first writes to CR1.
unfoldable pub control : ℕ → ℕ → ℕ
control mode br =
    bit_or
      (bit_or (bit_or (bit_or (bit_or (2 ^ 2) (2 ^ 9)) (2 ^ 8)) (br * 2 ^ 3))
        (if has 1 mode then 2 ^ 0 else 0))
      (if has 2 mode then 2 ^ 1 else 0)

-- The byte to send at `i`: the filler when `tx` is null.
abbrev pub out_byte : Option (List ℕ) → ℕ → ℕ
out_byte none i = 0xff
out_byte (some tx) i = get_or tx i 0

-- `rx[i] = in`, unless `rx` is null.
abbrev pub put_in : Option (List ℕ) → ℕ → ℕ → Option (List ℕ)
put_in none i x = none
put_in (some rx) i x = some (set rx i x)

module _ (hw : Device Register) where
  -- `spi_init` before its loop: the clocks and the pins.
  unfoldable pub set_pins : Accesses → Accesses
  set_pins h =
      let h1 = modify hw Register.ahb1enr (bit_or (2 ^ 0)) h in
      let h2 = modify hw Register.apb2enr (bit_or (2 ^ 12)) h1 in
      let h3 =
        modify hw Register.moder (λ v. bit_or (without (0xff * 2 ^ 8) v) (0xaa * 2 ^ 10)) h2 in
      let h4 = modify hw Register.moder (λ v. bit_or (without (0x3 * 2 ^ 8) v) (0x1 * 2 ^ 8)) h3 in
      let h5 = modify hw Register.ospeedr (bit_or (0xff * 2 ^ 8)) h4 in
      let h6 =
        modify hw Register.afr0 (λ v. bit_or (without (0xfff * 2 ^ 20) v) (0x555 * 2 ^ 20)) h5 in
      write_of Register.bsrr (2 ^ 4) ∷ h6

  -- `spi_init` after its loop.
  unfoldable pub configure : ℕ → ℕ → Accesses → Accesses
  configure mode br h =
      let h1 = write_of Register.cr1 (control mode br) ∷ write_of Register.cr1 0 ∷ h in
      modify hw Register.cr1 (bit_or (2 ^ 6)) (write_of Register.cr2 0 ∷ h1)

  -- `spi_init`: `none` if the loop did not end.
  unfoldable pub init : ℕ → ℕ → ℕ → Accesses → Option Accesses
  init mode pclk2_hz sck_hz_max h = elim (prescale pclk2_hz sck_hz_max 8 0 2) [
    | none ↦ none
    | some br ↦ some (configure mode br (set_pins h))
  ]

  -- `spi_cs_assert`
  abbrev pub cs_assert : Accesses → Accesses
  cs_assert h = write_of Register.bsrr (2 ^ (4 + 16)) ∷ h

  -- The three loops that wait for the status register, with `n` rounds left: whether it came to satisfy
  -- the condition.
  unfoldable pub spin : ℕ → (ℕ → Bool) → Accesses → Bool × Accesses
  spin zero cond h = (false, h)
  spin (suc n) cond h =
      let h1 = read_of Register.sr ∷ h in
      elim (cond (hw h Register.sr)) [
        | true ↦ (true, h1)
        | false ↦ elim (n == 0) [ true ↦ (false, h1) | false ↦ spin n cond h1 ]
      ]

  -- `spi_wait_idle`
  unfoldable pub wait_idle : Accesses → Bool × Accesses
  wait_idle h = spin timeout_loops (λ v. bit_and v sr_bsy == 0) h

  -- `spi_cs_release`
  unfoldable pub cs_release : Accesses → Accesses
  cs_release h = write_of Register.bsrr (2 ^ 4) ∷ (wait_idle h).1

  -- The second half of `spi_transfer`: the byte that came in.
  unfoldable pub take_in : Accesses → ℕ × Accesses
  take_in h =
      let (full, h1) = spin timeout_loops (has sr_rxne) h in
      if full then (bit_and (hw h1 Register.dr) 0xff, read_of Register.dr ∷ h1) else (0xff, h1)

  -- `spi_transfer`
  unfoldable pub transfer : ℕ → Accesses → ℕ × Accesses
  transfer tx h =
      let (free, h1) = spin timeout_loops (has sr_txe) h in
      if free then take_in (write_of Register.dr tx ∷ h1) else (0xff, h1)

  -- The loop of `spi_transfer_buf`, with the bytes left; `rx` holds at least `len` bytes.
  unfoldable pub transfer_from :
      ℕ → ℕ → Option (List ℕ) → Option (List ℕ) → Accesses → Option (List ℕ) × Accesses
  transfer_from zero i tx rx h = (rx, h)
  transfer_from (suc left) i tx rx h =
      let (x, h1) = transfer (out_byte tx i) h in
      transfer_from left (u32 (i + 1)) tx (put_in rx i x) h1

  -- `spi_transfer_buf`
  unfoldable pub transfer_buf :
      Option (List ℕ) → Option (List ℕ) → ℕ → Accesses → Option (List ℕ) × Accesses
  transfer_buf tx rx len h = transfer_from len 0 tx rx h
