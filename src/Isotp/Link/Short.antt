-- ===== src/Isotp/Link/Short.antt =====
-- A message that fits a single frame.
use embedded_systems_resourc.Base.{
  ℕ, ◌+◌, ◌%◌, ◌≤◌, ◌≡◌, refl, ap, ◌∙◌, true, some, List, ◌∷◌, arith, length, length-memcpy,
  take-memcpy, take_congr, memcpy, memcpy-cons, replicate, u8, u32, bit_and, bit_or, ◌<<<◌,
  bit_and_mask, bit_or_sum, take-length,
}
use embedded_systems_resourc.Isotp.{can_dlc, pci_sf, Event}
use embedded_systems_resourc.Isotp.Rx
use embedded_systems_resourc.Isotp.Rx.{Rx}
use embedded_systems_resourc.Isotp.Tx
use embedded_systems_resourc.Isotp.Tx.{Tx}
use embedded_systems_resourc.Isotp.Link.{round, on_event}
use embedded_systems_resourc.Isotp.Link.Rounds.{Progress, arrived}
use embedded_systems_resourc.Isotp.Link.Opening.{Fresh, behind_header, first_round}

module _ {msg : List ℕ} {bs : ℕ} {tx : Tx} {rx : Rx} (k : Fresh msg bs tx rx) (wire out : List ℕ)
    (out_len : ℕ) (room : length msg ≤ length out) where
  abbrev sf_frame : List ℕ
  sf_frame = length msg ∷ memcpy (replicate 7 0xcc) 0 msg (length msg)

  abbrev sf_sent : Tx
  sf_sent = record tx { sent = length msg; state = Tx.State.done }

  abbrev sf_taken : Rx
  sf_taken = record rx {
    buf = memcpy rx.buf 0 (memcpy (replicate 7 0xcc) 0 msg (length msg)) (length msg);
    total_len = length msg;
    received = length msg;
    state = Rx.State.idle;
    messages_ok = u32 (rx.messages_ok + 1);
  }

  sf_head : length msg ≤ 7 → u8 (bit_or (pci_sf <<< 4) (bit_and (length msg) 0x0f)) ≡ length msg
  sf_head h =
      ap (λ m. u8 (bit_or (pci_sf <<< 4) m)) (bit_and_mask 4 (length msg))
      ∙ ap u8 (bit_or_sum 4 0 (length msg % 16) (omega arith))
      ∙ omega arith

  sends_single : length msg ≤ 7 → Tx.send_first tx wire ≡ (can_dlc, sf_sent, sf_frame)
  unfolding Tx.send_first
  sends_single h = ground (
    arith,
    k.tx_total,
    k.payload,
    sf_head h,
    memcpy-cons (length msg) (length msg) (replicate 7 0xcc) 0 msg,
  )

  takes_single : length msg ≤ 7 → Rx.frame rx (some sf_frame) can_dlc ≡ (Event.message, sf_taken)
  unfolding Rx.frame Rx.dispatch Rx.single
  takes_single h = ground (arith, k.limit, k.some_bytes, k.fits, bit_and_mask 4 (length msg))

  pub short_round : length msg ≤ 7 → Progress msg bs 0 out (round tx rx wire out out_len)
  unfolding on_event
  short_round h =
      arrived
        (record {
          delivered = true;
          out = memcpy out 0 sf_taken.buf (length msg);
          out_len = length msg;
        })
        (first_round k wire out out_len room _ _ _ _ (sends_single h) (takes_single h)) refl
        (take_congr (memcpy out 0 sf_taken.buf (length msg)) (length msg) (0 + length msg)
            (omega arith)
          ∙ take-memcpy (length msg) out 0 sf_taken.buf (omega arith) (
              omega (
                arith,
                length-memcpy (length msg) rx.buf 0 (memcpy (replicate 7 0xcc) 0 msg (length msg)),
                k.sized,
                k.fits,
              ))
          ∙ behind_header (length msg) (replicate 7 0xcc) rx.buf msg h (omega arith)
              (omega (arith, k.sized, k.fits))
          ∙ take-length msg)
        refl
