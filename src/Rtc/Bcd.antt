-- ===== src/Rtc/Bcd.antt =====
-- Packed BCD: what is encoded is decoded.
use embedded_systems_resourc.Base.{
  ℕ, ◌+◌, ◌*◌, ◌/◌, ◌%◌, ◌≤◌, ◌≡◌, ap, ◌∙◌, true, some, arith, u8, ◌<<<◌, bit_or, bit_or_sum,
  bit_and_mask,
}
use embedded_systems_resourc.Rtc.{bcd_decode, bcd_encode}

packed :
    (value : ℕ)
    → value ≤ 99
    → u8 (bit_or ((value / 10) <<< 4) (value % 10)) ≡ 16 * (value / 10) + value % 10
packed value h = ap u8 (bit_or_sum 4 (value / 10) (value % 10) (omega arith)) ∙ omega arith

encodes :
    (value out : ℕ)
    → value ≤ 99
    → bcd_encode value (some out) ≡ (true, some (16 * (value / 10) + value % 10))
unfolding bcd_encode
encodes value out h = ground (arith, packed value h)

decodes :
    (tens ones max_value out : ℕ)
    → tens ≤ 9
    → ones ≤ 9
    → max_value ≤ 99
    → 10 * tens + ones ≤ max_value
    → bcd_decode (16 * tens + ones) max_value (some out) ≡ (true, some (10 * tens + ones))
unfolding bcd_decode
decodes tens ones max_value out p q h k = ground (arith, bit_and_mask 4 (16 * tens + ones))

-- A value of at most 99 and at most the maximum is encoded, and the byte is decoded to the same value.
pub bcd-round_trip :
    (value max_value out out' : ℕ)
    → value ≤ max_value
    → max_value ≤ 99
    → (raw : ℕ) × (bcd_encode value (some out) ≡ (true, some raw))
      × (bcd_decode raw max_value (some out') ≡ (true, some value))
bcd-round_trip value max_value out out' h k = (
  16 * (value / 10) + value % 10,
  encodes value out (omega arith),
  decodes (value / 10) (value % 10) max_value out' (omega arith) (omega arith) k (omega arith)
      ∙ ap (λ v. (true, some v)) whole,
)
  where
    whole : 10 * (value / 10) + value % 10 ≡ value
    whole = omega arith
