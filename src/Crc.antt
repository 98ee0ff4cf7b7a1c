-- ===== src/Crc.antt =====
-- The CRC of code/portable/frame/frame.c: CRC-16/CCITT-FALSE, one bit at a time.
pub mod Inverse
pub mod Detect
use embedded_systems_resourc.Base.{
  ℕ, zero, suc, List, [], ◌∷◌, bit_and, bit_xor, ◌!=◌, if◌then◌else◌, u16, ◌<<<◌,
}

-- the generator polynomial, and the value before the first byte
abbrev pub poly : ℕ
poly = 0x1021

abbrev pub init : ℕ
init = 0xffff

-- One round of the loop of `crc16_ccitt_update`.
unfoldable pub round : ℕ → ℕ
round crc =
    if bit_and crc 0x8000 != 0 then u16 (bit_xor (u16 (crc <<< 1)) poly) else u16 (u16 (crc <<< 1))

-- The loop, with the number of rounds left.
unfoldable pub rounds : ℕ → ℕ → ℕ
rounds zero crc = crc
rounds (suc n) crc = rounds n (round crc)

-- `crc16_ccitt_update`
unfoldable pub update : ℕ → ℕ → ℕ
update crc byte = rounds 8 (bit_xor crc (u16 (u16 byte <<< 8)))

-- The loop of `crc16_ccitt`: `bytes` begins at `data[i]`, and `n` is `len - i`. A read past the end
-- of `data` stops it here; C leaves it undefined.
unfoldable pub update_all : ℕ → List ℕ → ℕ → ℕ
update_all crc bytes zero = crc
update_all crc [] (suc n) = crc
update_all crc (x ∷ rest) (suc n) = update_all (update crc x) rest n

-- `crc16_ccitt`
unfoldable pub crc16 : List ℕ → ℕ → ℕ
crc16 bytes len = update_all init bytes len
