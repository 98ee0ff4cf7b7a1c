-- ===== src/Isotp/Link/Delivery.antt =====
-- round_trip of code/host-tests/test_isotp.c.
use embedded_systems_resourc.Base.{
  ℕ, suc, ◌≤◌, ◌<◌, ◌≡◌, refl, true, some, List, arith, length, dec_lt, length-replicate,
}
use embedded_systems_resourc.Isotp.{max_payload, can_dlc}
use embedded_systems_resourc.Isotp.Rx
use embedded_systems_resourc.Isotp.Rx.{Rx}
use embedded_systems_resourc.Isotp.Tx
use embedded_systems_resourc.Isotp.Tx.{Tx}
use embedded_systems_resourc.Isotp.Link.{round, exchange, round_trip}
use embedded_systems_resourc.Isotp.Link.Linked.{Linked}
use embedded_systems_resourc.Isotp.Link.Rounds.{Delivers, exchange-Delivers, follow_round}
use embedded_systems_resourc.Isotp.Link.Opening.{Fresh}
use embedded_systems_resourc.Isotp.Link.Short.{short_round}
use embedded_systems_resourc.Isotp.Link.Long.{long_round}

module _ {msg : List ℕ} {bs : ℕ} {tx : Tx} {rx : Rx} (k : Fresh msg bs tx rx) (wire out : List ℕ)
    (out_len : ℕ) (room : length msg ≤ length out) where
  start-Delivers :
      (guard : ℕ)
      → 8 ≤ length wire
      → length msg < guard
      → Delivers msg (exchange (suc guard) tx rx wire out out_len)
  unfolding exchange
  start-Delivers guard long enough =
      follow_round guard out_len
        (λ tx' rx' wire' (k' : Linked msg bs tx' rx') (more : 0 < rx'.received).
          exchange-Delivers guard tx' rx' wire' out out_len k' room (omega arith))
        (round tx rx wire out out_len)
        (elim (dec_lt (length msg) 8) [
          | yes short ↦ short_round k wire out out_len room (omega arith)
          | no h ↦ long_round k wire out out_len room (omega arith) long
        ])

begun-Fresh :
    (msg : List ℕ) (bs st : ℕ)
    → 1 ≤ length msg
    → length msg ≤ max_payload
    → bs < 256
    → Fresh msg bs (Tx.started msg (length msg)) (Rx.init max_payload bs st)
unfolding Rx.init
begun-Fresh msg bs st h fits hb = record {
  idle = refl;
  payload = refl;
  tx_total = refl;
  first_number = refl;
  some_bytes = h;
  fits = fits;
  sized = length-replicate {A = ℕ} max_payload 0;
  limit = refl;
  rx_block = refl;
  byte_block = hb;
}

begins :
    (tx : Tx) (msg : List ℕ)
    → 1 ≤ length msg
    → length msg ≤ max_payload
    → Tx.begin (some tx) (some msg) (length msg) ≡ (true, some (Tx.started msg (length msg)))
unfolding Tx.begin
begins tx msg h fits = ground arith

-- A message of 1 to 4095 bytes arrives whole, whatever block size and separation time the receiver
-- announces: `round_trip` returns true, `out_len` is the message's length and the first `out_len` bytes
-- of `out` are the message, given that `out` has room for it and the local `frame` is an eight-byte array.
pub round_trip-Delivers :
    (tx : Tx) (wire msg : List ℕ) (bs st : ℕ) (out : List ℕ) (out_len : ℕ)
    → 1 ≤ length msg
    → length msg ≤ max_payload
    → bs < 256
    → length wire ≡ can_dlc
    → length msg ≤ length out
    → Delivers msg (round_trip tx wire msg (length msg) bs st out out_len)
unfolding round_trip
round_trip-Delivers tx wire msg bs st out out_len h fits hb long room = rw (begins tx msg h fits) (
    start-Delivers (begun-Fresh msg bs st h fits hb) wire out out_len room 19999 (omega arith)
      (omega arith))
