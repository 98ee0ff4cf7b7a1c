-- ===== src/I2c/Tests.antt =====
-- The I2C master against a peripheral that answers at once.
use embedded_systems_resourc.Base.{
  ◌≡◌, refl, [], ◌∷◌, ◌++◌, Device, ◌≢◌, ap, arith, bit_and, if◌then◌else◌,
}
use embedded_systems_resourc.Base.{◌+◌, ◌*◌, ◌≤◌, length}
use embedded_systems_resourc.I2c.Bounded.{transfers_bounded}
use embedded_systems_resourc.I2c.Restart.{owned, ShowsBusy, write_read-never_ok}
use embedded_systems_resourc.I2c.{
  Register, Result, wait, start, send, write, read, receive, address, write_read, strerror,
}
use embedded_systems_resourc.I2c.Received.{ReadFrom, i2c_read-ReadFrom}
use embedded_systems_resourc.I2c.Written.{WrittenTo, i2c_write-WrittenTo}
use embedded_systems_resourc.I2c.Sent.{dr_writes, i2c_write-dr_writes}

-- The bus is free, every flag of SR1 but AF is set, and the target sends 7.
abbrev prompt : Device Register
prompt h Register.sr1 = 199
prompt h Register.dr = 7
prompt h _ = 0

prompt-write : (write prompt 0x50 (1 ∷ 2 ∷ []) []).0 ≡ Result.ok
unfolding write start send wait
prompt-write = refl

prompt-read : (read prompt 0x50 2 []).1 ≡ 7 ∷ 7 ∷ []
unfolding read receive start wait
prompt-read = refl

prompt_written :
    dr_writes (write prompt 0x50 (1 ∷ 2 ∷ []) []).1
    ≡ dr_writes [] ++ (address prompt 0x50 0 ∷ 1 ∷ 2 ∷ [])
prompt_written = i2c_write-dr_writes prompt 0x50 (1 ∷ 2 ∷ []) [] prompt-write

-- A peripheral that answers at once and shows BUSY while the master holds the bus.
abbrev honest : Device Register
honest h Register.sr1 = 199
honest h Register.sr2 = if owned h then 2 else 0
honest h _ = 0

honest-ShowsBusy : ShowsBusy honest
honest-ShowsBusy h o e =
    let shown : bit_and (if owned h then 2 else 0) 2 ≡ 2 =
      ap (λ b. bit_and (if b then 2 else 0) 2) o in
    absurd (omega (arith, shown, e))

write_read-never_ok_example : (write_read honest 0x50 (0 ∷ []) 1 []).0 ≢ Result.ok
write_read-never_ok_example = write_read-never_ok honest 0x50 (0 ∷ []) 1 [] honest-ShowsBusy

transfers_bounded_example :
    (length (write prompt 0x50 (1 ∷ 2 ∷ []) []).1 ≤ 0 + (600017 + (200005 * 2 + 200006)))
    × (length (read prompt 0x50 3 []).2 ≤ 0 + (600017 + (200009 * 3 + 2)))
    × (length (write_read prompt 0x50 (1 ∷ 2 ∷ []) 3 []).2
        ≤ 0 + (600017 + (200005 * 2 + 200004) + (600017 + (200009 * 3 + 2))))
transfers_bounded_example = transfers_bounded prompt 0x50 (1 ∷ 2 ∷ []) 3 []

strerror-nack : strerror Result.nack ≡ "address or data NACK - wrong address?"
unfolding strerror
strerror-nack = refl

prompt-read-ok : (read prompt 0x50 2 []).0 ≡ Result.ok
unfolding read receive start wait
prompt-read-ok = refl

i2c_read-ReadFrom_example : ReadFrom prompt 0x50 2 [] (read prompt 0x50 2 [])
i2c_read-ReadFrom_example = i2c_read-ReadFrom prompt 0x50 2 [] (omega arith) prompt-read-ok

i2c_write-WrittenTo_example :
    WrittenTo prompt 0x50 (1 ∷ 2 ∷ []) [] (write prompt 0x50 (1 ∷ 2 ∷ []) []).1
i2c_write-WrittenTo_example = i2c_write-WrittenTo prompt 0x50 (1 ∷ 2 ∷ []) [] prompt-write
