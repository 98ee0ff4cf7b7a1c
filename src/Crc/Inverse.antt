-- ===== src/Crc/Inverse.antt =====
-- A round of the CRC can be undone, so no step of it loses information.
use embedded_systems_resourc.Base.{
  ℕ, zero, suc, ◌+◌, ◌-◌, ◌*◌, ◌/◌, ◌%◌, ◌^◌, ◌≤◌, ◌<◌, ◌≡◌, sym, ap, ◌∙◌, bit_xor, arith, u16,
  ◌<<<◌, ◌==◌, if◌then◌else◌, bit_and_bit, bit_xor-lt, bit_xor-mod-two, bit_xor_cancel,
  bit_xor_comm, dec_lt,
}
use embedded_systems_resourc.Crc.{poly, round, rounds, update}

-- The lowest bit of the result tells which branch was taken, since `poly` is odd.
unround : ℕ → ℕ
unround r = if r % 2 == 1 then bit_xor r poly / 2 + 2 ^ 15 else r / 2

round_low : (c : ℕ) → c < 2 ^ 15 → round c ≡ c * 2
unfolding round
round_low c h = ground (arith, bit_and_bit 15 c)

round_high : (c : ℕ) → 2 ^ 15 ≤ c → c < 2 ^ 16 → round c ≡ bit_xor (c * 2 - 2 ^ 16) poly
unfolding round
round_high c h k = ground (
  arith,
  bit_and_bit 15 c,
  shifted,
  ap (λ (t : ℕ). bit_xor t poly) shifted,
  bit_xor-lt 16 (c * 2 - 2 ^ 16) poly (omega arith) (omega arith),
)
  where
    shifted : u16 (c <<< 1) ≡ c * 2 - 2 ^ 16
    shifted = omega arith

unround-round : (c : ℕ) → c < 2 ^ 16 → unround (round c) ≡ c
unfolding unround
unround-round c h = elim (dec_lt c (2 ^ 15)) [
  | yes low ↦ rw (round_low c low) (ground arith)
  | no high ↦
      rw (round_high c (omega arith) h) (
        ground (arith, bit_xor-mod-two (c * 2 - 2 ^ 16) poly, bit_xor_cancel (c * 2 - 2 ^ 16) poly))
]

pub round-lt : (c : ℕ) → round c < 2 ^ 16
unfolding round
round-lt c = ground arith

pub rounds-lt : (n c : ℕ) → c < 2 ^ 16 → rounds n c < 2 ^ 16
unfolding rounds
rounds-lt zero c h = h
rounds-lt (suc n) c h = rounds-lt n (round c) (round-lt c)

rounds_inj : (n c d : ℕ) → c < 2 ^ 16 → d < 2 ^ 16 → rounds n c ≡ rounds n d → c ≡ d
unfolding rounds
rounds_inj zero c d p q e = e
rounds_inj (suc n) c d p q e =
    sym (unround-round c p)
    ∙ ap unround (rounds_inj n (round c) (round d) (round-lt c) (round-lt d) e)
    ∙ unround-round d q

xor_in : ℕ → ℕ → ℕ
xor_in crc byte = bit_xor crc (u16 (u16 byte <<< 8))

xor_in-lt : (crc byte : ℕ) → crc < 2 ^ 16 → xor_in crc byte < 2 ^ 16
unfolding xor_in
xor_in-lt crc byte h = bit_xor-lt 16 crc (u16 (u16 byte <<< 8)) h (omega arith)

pub update-lt : (crc byte : ℕ) → crc < 2 ^ 16 → update crc byte < 2 ^ 16
unfolding update xor_in
update-lt crc byte h = rounds-lt 8 (xor_in crc byte) (xor_in-lt crc byte h)

-- The same byte leaves different checksums different.
pub update_inj_crc :
    (c d byte : ℕ) → c < 2 ^ 16 → d < 2 ^ 16 → update c byte ≡ update d byte → c ≡ d
unfolding update xor_in
update_inj_crc c d byte p q e =
    sym (bit_xor_cancel c b)
    ∙ ap (λ t. bit_xor t b)
        (rounds_inj 8 (xor_in c byte) (xor_in d byte) (xor_in-lt c byte p) (xor_in-lt d byte q) e)
    ∙ bit_xor_cancel d b
  where
    b : ℕ
    b = u16 (u16 byte <<< 8)

-- Different bytes make one checksum into different ones.
pub update_inj_byte : (c x y : ℕ) → c < 2 ^ 16 → x < 256 → y < 256 → update c x ≡ update c y → x ≡ y
unfolding update xor_in
update_inj_byte c x y h p q e = omega (arith, shifted)
  where
    cancel_left : (b : ℕ) → bit_xor (bit_xor c b) c ≡ b
    cancel_left b = ap (λ t. bit_xor t c) (bit_xor_comm c b) ∙ bit_xor_cancel b c

    shifted : u16 (u16 x <<< 8) ≡ u16 (u16 y <<< 8)
    shifted =
        sym (cancel_left (u16 (u16 x <<< 8)))
        ∙ ap (λ t. bit_xor t c)
            (rounds_inj 8 (xor_in c x) (xor_in c y) (xor_in-lt c x h) (xor_in-lt c y h) e)
        ∙ cancel_left (u16 (u16 y <<< 8))
