-- ===== src/Frame/Wire.antt =====
-- What code/qemu-cortex-m/06-protocol-state-machine/main.c sends: `crc_of` and `inject_frame`.
use embedded_systems_resourc.Base.{
  ℕ, zero, suc, ◌+◌, ◌*◌, ◌/◌, ◌%◌, ◌^◌, ◌<◌, ◌≡◌, sym, ap, ap₂, ◌∙◌, Bool, false, ◌&&◌, List, [],
  ◌∷◌, ◌++◌, ◌==◌, if◌then◌else◌, bit_and, bit_xor, bit_or, u8, u16, ◌<<<◌, ◌>>>◌, get_or, arith,
  length, drop, drop-length, drop_congr, drop-cons, AllBytes-get_or, take-length, AllBytes,
  bit_and_mask, bit_xor_comm, zero-bit_xor, bit_or_comm, bit_or_sum,
}
use embedded_systems_resourc.Crc
use embedded_systems_resourc.Crc.{update, update_all}
use embedded_systems_resourc.Crc.Inverse.{update-lt}
use embedded_systems_resourc.Crc.Detect.{absorb, absorb-lt, update_all-eq-absorb}
use embedded_systems_resourc.Frame.{stx_byte, etx_byte}

-- `crc_of`: the checksum of the length byte and the payload.
unfoldable pub crc_of : List ℕ → ℕ → ℕ
crc_of payload len = update_all (update Crc.init len) payload len

-- The payload loop of `inject_frame` from index `i`, with `left` bytes to go.
unfoldable pub body : List ℕ → Bool → ℕ → ℕ → List ℕ
body payload corrupt i zero = []
body payload corrupt i (suc left) =
    u8 (bit_xor (get_or payload i 0) (if corrupt && i == 0 then 0x01 else 0x00))
    ∷ body payload corrupt (i + 1) left

-- `inject_frame`: the bytes that it hands to `handle`, in order.
unfoldable pub inject_frame : List ℕ → ℕ → Bool → List ℕ
unfolding crc_of body
inject_frame payload len corrupt =
    let crc = crc_of payload len in
    stx_byte
    ∷ len
    ∷ (body payload corrupt 0 len ++ (bit_and crc 0xff ∷ u8 (crc >>> 8) ∷ etx_byte ∷ []))

-- The format that frame.h describes, with the checksum's bytes written as arithmetic.
unfoldable pub checksum : List ℕ → ℕ
checksum payload = absorb (update Crc.init (length payload)) payload

unfoldable pub wire : List ℕ → List ℕ
wire payload =
    stx_byte
    ∷ length payload
    ∷ (payload ++ (checksum payload % 256 ∷ checksum payload / 256 ∷ etx_byte ∷ []))

pub checksum-lt : (payload : List ℕ) → checksum payload < 2 ^ 16
unfolding checksum
checksum-lt payload =
    absorb-lt payload (update Crc.init (length payload))
      (update-lt Crc.init (length payload) (omega arith))

crc_of-eq-checksum : (payload : List ℕ) → crc_of payload (length payload) ≡ checksum payload
unfolding crc_of checksum
crc_of-eq-checksum payload =
    update_all-eq-absorb payload (length payload) (update Crc.init (length payload))
    ∙ ap (absorb (update Crc.init (length payload))) (take-length payload)

body-eq-drop :
    (payload : List ℕ) (i left : ℕ)
    → AllBytes payload
    → i + left ≡ length payload
    → body payload false i left ≡ drop i payload
unfolding body
body-eq-drop payload i zero all e = sym (drop-length payload i (omega arith))
body-eq-drop payload i (suc left) all e =
    ap₂ ◌∷◌ kept (body-eq-drop payload (i + 1) left all (omega arith))
    ∙ sym (
        drop-cons payload i 0 (omega arith)
        ∙ ap (◌∷◌ (get_or payload i 0)) (drop_congr payload (suc i) (i + 1) (omega arith)))
  where
    kept : u8 (bit_xor (get_or payload i 0) 0x00) ≡ get_or payload i 0
    kept =
        ap u8 (bit_xor_comm (get_or payload i 0) 0 ∙ zero-bit_xor (get_or payload i 0))
        ∙ omega (arith, AllBytes-get_or payload i all)

-- `inject_frame` with `corrupt` 0 sends the format of frame.h.
pub inject_frame-eq-wire :
    (payload : List ℕ)
    → AllBytes payload
    → inject_frame payload (length payload) false ≡ wire payload
unfolding inject_frame wire
inject_frame-eq-wire payload all =
    ap₂ (λ b t. stx_byte ∷ length payload ∷ (b ++ t))
      (body-eq-drop payload 0 (length payload) all (omega arith))
      (rw (crc_of-eq-checksum payload, bit_and_mask 8 (checksum payload))
        (ap (λ h. checksum payload % 256 ∷ h ∷ etx_byte ∷ []) high))
  where
    high : u8 (checksum payload >>> 8) ≡ checksum payload / 256
    high = omega (arith, checksum-lt payload)

-- The receiver puts the two checksum bytes together again.
pub join_bytes : (lo hi : ℕ) → lo < 256 → hi < 256 → bit_or lo (u16 (u16 hi <<< 8)) ≡ lo + hi * 256
join_bytes lo hi p q =
    bit_or_comm lo (u16 (u16 hi <<< 8))
    ∙ ap (λ h. bit_or h lo) shifted
    ∙ bit_or_sum 8 hi lo p
    ∙ omega arith
  where
    shifted : u16 (u16 hi <<< 8) ≡ hi * 2 ^ 8
    shifted = omega arith
