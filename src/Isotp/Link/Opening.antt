-- ===== src/Isotp/Link/Opening.antt =====
-- The two sides before the first frame, and what their first round is.
use embedded_systems_resourc.Base.{
  ℕ, ◌+◌, ◌≤◌, ◌<◌, ◌≡◌, refl, ap, ◌∙◌, some, List, [], ◌∷◌, arith, length, length-memcpy, take,
  drop, take-memcpy, take_congr, memcpy, set,
}
use embedded_systems_resourc.Isotp.{max_payload, can_dlc, Event}
use embedded_systems_resourc.Isotp.Rx
use embedded_systems_resourc.Isotp.Rx.{Rx}
use embedded_systems_resourc.Isotp.Tx
use embedded_systems_resourc.Isotp.Tx.{Tx}
use embedded_systems_resourc.Isotp.Link.{round, on_next, on_event}

-- The two sides before the first frame.
pub record Fresh (msg : List ℕ) (bs : ℕ) (tx : Tx) (rx : Rx) : Type 0 where
  pub idle : tx.state ≡ Tx.State.idle
  pub payload : tx.payload ≡ msg
  pub tx_total : tx.total_len ≡ length msg
  pub first_number : tx.next_sn ≡ 1
  pub some_bytes : 1 ≤ length msg
  pub fits : length msg ≤ max_payload
  pub sized : length rx.buf ≡ max_payload
  pub limit : rx.buffer_limit ≡ max_payload
  pub rx_block : rx.block_size ≡ bs
  pub byte_block : bs < 256

-- The copy of `n` bytes that stand behind a header of `h` bytes.
pub behind_header :
    (n : ℕ) (pad buf msg : List ℕ)
    → n ≤ length pad
    → n ≤ length msg
    → n ≤ length buf
    → take n (memcpy buf 0 (memcpy pad 0 msg n) n) ≡ take n msg
behind_header n pad buf msg hp hm hb =
    take_congr (memcpy buf 0 (memcpy pad 0 msg n) n) n (0 + n) (omega arith)
    ∙ take-memcpy n buf 0 (memcpy pad 0 msg n) (omega arith)
        (omega (arith, length-memcpy n pad 0 msg))
    ∙ take_congr (memcpy pad 0 msg n) n (0 + n) (omega arith)
    ∙ take-memcpy n pad 0 msg (omega arith) hm

pub two_heads :
    (wire : List ℕ) (a b : ℕ) → 2 ≤ length wire → set (set wire 0 a) 1 b ≡ a ∷ b ∷ drop 2 wire
two_heads [] a b h = absurd (omega arith)
two_heads (x ∷ []) a b h = absurd (omega arith)
two_heads (x ∷ y ∷ ws) a b h = refl

module _ {msg : List ℕ} {bs : ℕ} {tx : Tx} {rx : Rx} (k : Fresh msg bs tx rx) (wire out : List ℕ)
    (out_len : ℕ) (room : length msg ≤ length out) where
  -- The first round up to the receiver's event.
  pub first_round :
      (t : Tx) (w : List ℕ) (e : Event) (r : Rx)
      → Tx.send_first tx wire ≡ (can_dlc, t, w)
      → Rx.frame rx (some w) can_dlc ≡ (e, r)
      → round tx rx wire out out_len ≡ on_event e t r w out out_len
  unfolding round Tx.next Tx.next_in on_next
  first_round t w e r hs hr =
      ap (λ (q : ℕ × Tx × List ℕ). on_next q.0 (some q.1) (some q.2) rx out out_len)
        (ap (λ s. Tx.next_in s tx wire) k.idle ∙ hs)
      ∙ ap (λ (q : Event × Rx). on_event q.0 t q.1 w out out_len) hr
