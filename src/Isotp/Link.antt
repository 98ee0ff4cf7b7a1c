-- ===== src/Isotp/Link.antt =====
-- A sender and a receiver joined in memory: `round_trip` of code/host-tests/test_isotp.c.
pub mod Linked
pub mod Rounds
pub mod Opening
pub mod Short
pub mod Long
pub mod Delivery
mod Tests
use embedded_systems_resourc.Base.{
  ℕ, zero, suc, Bool, true, false, Option, none, some, List, ◌==◌, if◌then◌else◌, replicate, memcpy,
}
use embedded_systems_resourc.Isotp.{max_payload, can_dlc, Event}
use embedded_systems_resourc.Isotp.Rx
use embedded_systems_resourc.Isotp.Rx.{Rx}
use embedded_systems_resourc.Isotp.Tx
use embedded_systems_resourc.Isotp.Tx.{Tx}

-- What `round_trip` returns, and what `out` and `out_len` hold then.
pub record Outcome : Type 0 where
  pub delivered : Bool
  pub out : List ℕ
  pub out_len : ℕ

abbrev pub failed : List ℕ → ℕ → Outcome
failed out out_len = record { delivered = false; out = out; out_len = out_len }

-- One round of the loop ends the loop, or goes on with new objects.
pub data Round : Type 0 where
  finish : Outcome → Round
  again : Tx → Rx → List ℕ → Round

-- After `isotp_rx_frame`. The copy into `out` runs upwards, as `memcpy` does.
unfoldable pub on_event : Event → Tx → Rx → List ℕ → List ℕ → ℕ → Round
on_event Event.send_fc tx rx wire out out_len =
    elim (Tx.flow_control (some tx) (some rx.fc_frame) can_dlc).1 [
      | some tx' ↦ again tx' rx wire
      | none ↦ finish (failed out out_len)
    ]
on_event Event.message tx rx wire out out_len =
    finish
      (record { delivered = true; out = memcpy out 0 rx.buf rx.received; out_len = rx.received })
on_event Event.none tx rx wire out out_len = again tx rx wire
on_event _ tx rx wire out out_len = finish (failed out out_len)

-- After `isotp_tx_next`. At DLC 0 the function returns false in every state of the sender: after the
-- `break` too. The objects are locals, so no pointer to them is NULL.
unfoldable pub on_next : ℕ → Option Tx → Option (List ℕ) → Rx → List ℕ → ℕ → Round
unfolding on_event
on_next dlc (some tx) (some wire) rx out out_len =
    if dlc == 0
    then finish (failed out out_len)
    else let (event, rx') = Rx.frame rx (some wire) dlc in on_event event tx rx' wire out out_len
on_next dlc _ _ rx out out_len = finish (failed out out_len)

-- The body of the loop; `wire` is the local `frame`.
unfoldable pub round : Tx → Rx → List ℕ → List ℕ → ℕ → Round
unfolding on_next
round tx rx wire out out_len =
    let (dlc, tx', wire') = Tx.next (some tx) (some wire) in on_next dlc tx' wire' rx out out_len

-- The loop, with the rounds left.
unfoldable pub exchange : ℕ → Tx → Rx → List ℕ → List ℕ → ℕ → Outcome
exchange zero tx rx wire out out_len = failed out out_len
exchange (suc guard) tx rx wire out out_len = elim (round tx rx wire out out_len) [
  | finish result ↦ result
  | again tx' rx' wire' ↦ exchange guard tx' rx' wire' out out_len
]

-- The rounds that the loop is given.
abbrev pub guard_rounds : ℕ
guard_rounds = 20000

-- `round_trip`; `tx` and `wire` are its uninitialised locals `tx` and `frame`.
unfoldable pub round_trip : Tx → List ℕ → List ℕ → ℕ → ℕ → ℕ → List ℕ → ℕ → Outcome
round_trip tx wire msg len block_size st_min out out_len =
    let (begun, tx') = Tx.begin (some tx) (some msg) len in
    if begun
    then elim tx' [
      | some t ↦ exchange guard_rounds t (Rx.init max_payload block_size st_min) wire out out_len
      | none ↦ failed out out_len
    ]
    else failed out out_len
