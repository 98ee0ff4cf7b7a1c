-- ===== src/Isotp/Link/Long.antt =====
-- The first frame of a long message, and the flow control that answers it.
use embedded_systems_resourc.Base.{
  ℕ, ◌+◌, ◌/◌, ◌%◌, ◌≤◌, ◌≡◌, refl, ap, ◌∙◌, some, List, ◌∷◌, arith, length, length-memcpy,
  length-drop, take, drop, memcpy, memcpy-cons, set, replicate, u8, u16, bit_and, bit_or, ◌<<<◌,
  ◌>>>◌, bit_and_mask, bit_or_sum,
}
use embedded_systems_resourc.Isotp.{can_dlc, pci_ff, Event}
use embedded_systems_resourc.Isotp.Rx
use embedded_systems_resourc.Isotp.Rx.{Rx}
use embedded_systems_resourc.Isotp.Tx
use embedded_systems_resourc.Isotp.Tx.{Tx}
use embedded_systems_resourc.Isotp.Link.{again, round, on_event}
use embedded_systems_resourc.Isotp.Link.Rounds.{Progress, moved}
use embedded_systems_resourc.Isotp.Link.Opening.{Fresh, behind_header, two_heads, first_round}

module _ {msg : List ℕ} {bs : ℕ} {tx : Tx} {rx : Rx} (k : Fresh msg bs tx rx) (wire out : List ℕ)
    (out_len : ℕ) (room : length msg ≤ length out) where
  abbrev ff_frame : List ℕ
  ff_frame = (0x10 + length msg / 256) ∷ (length msg % 256) ∷ memcpy (drop 2 wire) 0 msg 6

  abbrev ff_sent : Tx
  ff_sent = record tx { sent = 6; state = Tx.State.wait_fc }

  abbrev ff_taken : Rx
  ff_taken = record rx {
    buf = memcpy rx.buf 0 (memcpy (drop 2 wire) 0 msg 6) 6;
    total_len = length msg;
    received = 6;
    next_sn = 1;
    cf_since_fc = 0;
    state = Rx.State.wait_cf;
    fc_frame = 0x30 ∷ rx.block_size ∷ rx.st_min ∷ replicate 5 0xcc;
  }

  abbrev ff_cleared : Tx
  ff_cleared = record tx {
    sent = 6;
    block_size = rx.block_size;
    st_min = rx.st_min;
    cf_in_block = 0;
    state = Tx.State.sending;
  }

  ff_head : u8 (bit_or (pci_ff <<< 4) (bit_and (length msg >>> 8) 0x0f)) ≡ 0x10 + length msg / 256
  ff_head =
      ap (λ m. u8 (bit_or (pci_ff <<< 4) m)) (bit_and_mask 4 (length msg >>> 8))
      ∙ ap u8 (bit_or_sum 4 1 ((length msg >>> 8) % 16) (omega arith))
      ∙ omega (arith, k.fits)

  ff_low : u8 (bit_and (length msg) 0xff) ≡ length msg % 256
  ff_low = ap u8 (bit_and_mask 8 (length msg)) ∙ omega arith

  ff_bytes :
      2 ≤ length wire
      → (a b : ℕ) → memcpy (set (set wire 0 a) 1 b) 2 msg 6 ≡ a ∷ b ∷ memcpy (drop 2 wire) 0 msg 6
  ff_bytes h a b =
      ap (λ l. memcpy l 2 msg 6) (two_heads wire a b h)
      ∙ memcpy-cons 6 a (b ∷ drop 2 wire) 1 msg
      ∙ ap (◌∷◌ a) (memcpy-cons 6 b (drop 2 wire) 0 msg)

  sends_first :
      8 ≤ length msg → 2 ≤ length wire → Tx.send_first tx wire ≡ (can_dlc, ff_sent, ff_frame)
  unfolding Tx.send_first
  sends_first h long = ground (
    arith,
    k.tx_total,
    k.payload,
    ff_head,
    ff_low,
    ff_bytes long (0x10 + length msg / 256) (length msg % 256),
  )

  ff_total : Rx.ff_length ff_frame ≡ length msg
  ff_total =
      ap (λ m. u16 (bit_or (m <<< 8) (length msg % 256))) (bit_and_mask 4 (0x10 + length msg / 256))
      ∙ ap u16 (bit_or_sum 8 ((0x10 + length msg / 256) % 16) (length msg % 256) (omega arith))
      ∙ omega (arith, k.fits)

  takes_first : 8 ≤ length msg → Rx.frame rx (some ff_frame) can_dlc ≡ (Event.send_fc, ff_taken)
  unfolding Rx.frame Rx.dispatch Rx.first Rx.build_fc
  takes_first h = ground (arith, ff_total, k.limit, k.fits)

  -- The receiver's flow control clears the sender.
  ff_resumes :
      on_event Event.send_fc ff_sent ff_taken ff_frame out out_len
      ≡ again ff_cleared ff_taken ff_frame
  unfolding on_event Tx.flow_control
  ff_resumes = refl

  ff_held : 8 ≤ length msg → 8 ≤ length wire → take 6 ff_taken.buf ≡ take 6 msg
  ff_held h long =
      behind_header 6 (drop 2 wire) rx.buf msg (omega (arith, length-drop 2 wire)) (omega arith)
        (omega (arith, k.sized))

  pub long_round :
      8 ≤ length msg → 8 ≤ length wire → Progress msg bs 0 out (round tx rx wire out out_len)
  unfolding on_event
  long_round h long =
      moved ff_cleared ff_taken ff_frame
        (first_round k wire out out_len room _ _ _ _ (sends_first h (omega arith)) (takes_first h)
          ∙ ff_resumes)
        (record {
          sending = refl;
          waiting = refl;
          payload = k.payload;
          tx_total = k.tx_total;
          rx_total = refl;
          fits = k.fits;
          sized = length-memcpy 6 rx.buf 0 (memcpy (drop 2 wire) 0 msg 6) ∙ k.sized;
          progress = refl;
          begun = omega arith;
          unfinished = omega arith;
          held = ff_held h long;
          numbered = k.first_number;
          number = omega arith;
          tx_block = k.rx_block;
          rx_block = k.rx_block;
          byte_block = k.byte_block;
          counted = refl;
          count_word = omega arith;
          within_block = λ ne. omega arith;
        })
        (omega arith)
