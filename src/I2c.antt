-- ===== src/I2c.antt =====
-- code/stm32f4/i2c_master.c, the I2C master. The peripheral is a parameter: what a read of a register
-- returns after the accesses made so far. The delay loops touch no register and are left out.
pub mod Sent
pub mod Received
pub mod Written
pub mod Restart
pub mod Bounded
mod Tests
use embedded_systems_resourc.Base.{
  ℕ, zero, suc, ◌+◌, ◌-◌, ◌*◌, ◌/◌, ◌^◌, Bool, true, false, Option, none, some, List, [], ◌∷◌, ltb,
  leb, ◌==◌, ◌!=◌, if◌then◌else◌, u8, u32, bit_and, bit_or, Access, read_of, write_of, Device,
  modify, without, has,
}
use Prim.Native.String.{String}

-- The registers that the driver uses, of RCC, GPIOB and I2C1.
pub data Register : Type 0 where
  ahb1enr apb1enr moder otyper ospeedr pupdr afr0 bsrr idr : Register
  cr1 cr2 dr sr1 sr2 ccr trise : Register

abbrev pub Accesses : Type 0
Accesses = List (Access Register)

-- `i2c_result_t`
pub data Result : Type 0 where
  ok bus_busy timeout_start nack timeout_tx timeout_rx param : Result

-- `I2C_TIMEOUT_LOOPS`
abbrev pub timeout_loops : ℕ
timeout_loops = 100000

-- The flags `I2C_CR1_...`, `I2C_SR1_...` and `I2C_SR2_BUSY`.
abbrev pub cr1_stop : ℕ
cr1_stop = 2 ^ 9

abbrev pub cr1_ack : ℕ
cr1_ack = 2 ^ 10

abbrev pub sr1_af : ℕ
sr1_af = 2 ^ 10

-- `WAIT_FOR` followed by the rest of the function; a call whose result is checked, and the rest.
abbrev pub and_then : Option Result × Accesses → (Accesses → Result × Accesses) → Result × Accesses
and_then (none, h) rest = rest h
and_then (some r, h) rest = (r, h)

abbrev pub on_ok : Result × Accesses → (Accesses → Result × Accesses) → Result × Accesses
on_ok (Result.ok, h) rest = rest h
on_ok (r, h) rest = (r, h)

module _ (hw : Device Register) where
  -- `WAIT_FOR`, with `_n` left: `none` when the condition came true.
  unfoldable pub wait : ℕ → Register → (ℕ → Bool) → Result → Accesses → Option Result × Accesses
  wait zero reg cond err h = (some err, h)
  wait (suc n) reg cond err h =
      let h1 = read_of reg ∷ h in
      let h2 = read_of Register.sr1 ∷ h1 in
      elim (cond (hw h reg)) [
        | true ↦ (none, h1)
        | false ↦ elim (n == 0) [
          | true ↦ (some err, h1)
          | false ↦ elim (has sr1_af (hw h1 Register.sr1)) [
            | false ↦ wait n reg cond err h2
            | true ↦ (
              some Result.nack,
              modify hw Register.cr1 (bit_or cr1_stop) (modify hw Register.sr1 (without sr1_af) h2),
            )
          ]
        ]
      ]

  -- `i2c_init`, for a bus frequency that is not 0.
  unfoldable pub init : ℕ → ℕ → Accesses → Accesses
  init pclk1_hz scl_hz h =
      let pclk_mhz = pclk1_hz / 1000000 in
      let h1 =
        modify hw Register.apb1enr (bit_or (2 ^ 21)) (modify hw Register.ahb1enr (bit_or 2) h) in
      let h2 =
        modify hw Register.moder (λ v. bit_or (without (0xf * 2 ^ 12) v) (0xa * 2 ^ 12)) h1 in
      let h3 = modify hw Register.otyper (bit_or (3 * 2 ^ 6)) h2 in
      let h4 =
        modify hw Register.ospeedr (λ v. bit_or (without (0xf * 2 ^ 12) v) (0xf * 2 ^ 12)) h3 in
      let h5 =
        modify hw Register.pupdr (λ v. bit_or (without (0xf * 2 ^ 12) v) (0x5 * 2 ^ 12)) h4 in
      let h6 =
        modify hw Register.afr0 (λ v. bit_or (without (0xff * 2 ^ 24) v) (0x44 * 2 ^ 24)) h5 in
      let h7 = write_of Register.cr1 0 ∷ write_of Register.cr1 (2 ^ 15) ∷ h6 in
      let h8 = write_of Register.cr2 pclk_mhz ∷ h7 in
      let slow = pclk1_hz / u32 (2 * scl_hz) in
      let fast = pclk1_hz / u32 (3 * scl_hz) in
      let h9 =
        if leb scl_hz 100000
        then write_of Register.trise (pclk_mhz + 1)
          ∷ write_of Register.ccr (if ltb slow 4 then 4 else slow)
          ∷ h8
        else write_of Register.trise (pclk_mhz * 300 / 1000 + 1)
          ∷ write_of Register.ccr (bit_or (2 ^ 15) (if ltb fast 1 then 1 else fast))
          ∷ h8 in
      write_of Register.cr1 1 ∷ h9

  -- The byte that addresses the target.
  abbrev pub address : ℕ → ℕ → ℕ
  address addr7 reading = bit_or (u8 (addr7 * 2)) reading

  -- `i2c_start`
  unfoldable pub start : ℕ → ℕ → Accesses → Result × Accesses
  start addr7 reading h =
      and_then (wait timeout_loops Register.sr2 (λ v. bit_and v 2 == 0) Result.bus_busy h) (λ h1.
        and_then
          (wait timeout_loops Register.sr1 (has 1) Result.timeout_start
            (modify hw Register.cr1 (bit_or (2 ^ 10 + 2 ^ 8)) h1))
          (λ h2.
            and_then
              (wait timeout_loops Register.sr1 (has 2) Result.nack
                (write_of Register.dr (address addr7 reading) ∷ h2))
              (λ h3. (Result.ok, read_of Register.sr2 ∷ read_of Register.sr1 ∷ h3))))

  -- The loop that sends bytes; an array of `len` bytes is a list.
  unfoldable pub send : List ℕ → (Accesses → Result × Accesses) → Accesses → Result × Accesses
  unfolding wait
  send [] rest h = rest h
  send (b ∷ data_bytes) rest h =
      and_then (wait timeout_loops Register.sr1 (has (2 ^ 7)) Result.timeout_tx h)
        (λ h1. send data_bytes rest (write_of Register.dr b ∷ h1))

  -- `i2c_write`
  unfoldable pub write : ℕ → List ℕ → Accesses → Result × Accesses
  write addr7 data_bytes h = on_ok (start addr7 0 h) (
      send data_bytes (λ h1.
        and_then (wait timeout_loops Register.sr1 (has 4) Result.timeout_tx h1)
          (λ h2. (Result.ok, modify hw Register.cr1 (bit_or cr1_stop) h2))))

  -- Before the last byte of a read: no acknowledge, and STOP.
  abbrev pub before_byte : ℕ → Accesses → Accesses
  before_byte left h =
      if left == 0
      then modify hw Register.cr1 (bit_or cr1_stop) (modify hw Register.cr1 (without cr1_ack) h)
      else h

  -- The loop that receives bytes, with the bytes left; the bytes that it stored come with the result.
  unfoldable pub receive : ℕ → Accesses → Result × List ℕ × Accesses
  receive zero h = (Result.ok, [], modify hw Register.cr1 (bit_or cr1_ack) h)
  receive (suc left) h =
      let (failed, h1) =
        wait timeout_loops Register.sr1 (has (2 ^ 6)) Result.timeout_rx (before_byte left h) in
      let (r, more, h2) = receive left (read_of Register.dr ∷ h1) in
      elim failed [ some e ↦ (e, [], h1) | none ↦ (r, bit_and (hw h1 Register.dr) 0xff ∷ more, h2) ]

  -- After `i2c_start` in `i2c_read`.
  abbrev pub read_on : Result × Accesses → ℕ → Result × List ℕ × Accesses
  read_on (Result.ok, h) len = receive len h
  read_on (r, h) len = (r, [], h)

  -- `i2c_read`
  unfoldable pub read : ℕ → ℕ → Accesses → Result × List ℕ × Accesses
  read addr7 len h = if len == 0 then (Result.param, [], h) else read_on (start addr7 1 h) len

  -- `i2c_write_read`
  unfoldable pub write_read : ℕ → List ℕ → ℕ → Accesses → Result × List ℕ × Accesses
  write_read addr7 tx rx_len h =
      let (r, h1) = on_ok (start addr7 0 h) (
        send tx (λ h1.
          and_then (wait timeout_loops Register.sr1 (has 4) Result.timeout_tx h1)
            (λ h2. (Result.ok, h2)))) in
      elim r [ Result.ok ↦ read addr7 rx_len h1 | e ↦ (e, [], h1) ]

  -- The clock pulses of `i2c_bus_recover`, with those left, until the target lets go of SDA.
  unfoldable pub pulses : ℕ → Accesses → Accesses
  pulses zero h = h
  pulses (suc n) h =
      let h1 = write_of Register.bsrr (2 ^ 6) ∷ write_of Register.bsrr (2 ^ 22) ∷ h in
      let h2 = read_of Register.idr ∷ h1 in
      let more = pulses n h2 in if has (2 ^ 7) (hw h1 Register.idr) then h2 else more

  -- `i2c_bus_recover`
  unfoldable pub bus_recover : Accesses → Accesses
  bus_recover h =
      let h1 = modify hw Register.ahb1enr (bit_or 2) h in
      let h2 =
        modify hw Register.moder (λ v. bit_or (without (0xf * 2 ^ 12) v) (0x5 * 2 ^ 12)) h1 in
      let h3 = modify hw Register.otyper (bit_or (3 * 2 ^ 6)) h2 in
      let h4 = pulses 9 (write_of Register.bsrr (3 * 2 ^ 6) ∷ h3) in
      write_of Register.cr1 0
      ∷ write_of Register.cr1 (2 ^ 15)
      ∷ write_of Register.bsrr (2 ^ 7)
      ∷ write_of Register.bsrr (2 ^ 23)
      ∷ h4

-- `i2c_strerror`
unfoldable pub strerror : Result → String
strerror Result.ok = "ok"
strerror Result.bus_busy = "bus busy - try i2c_bus_recover()"
strerror Result.timeout_start = "no START - check pull-ups and clocks"
strerror Result.nack = "address or data NACK - wrong address?"
strerror Result.timeout_tx = "TX timeout - target clock-stretching?"
strerror Result.timeout_rx = "RX timeout"
strerror Result.param = "bad argument"
