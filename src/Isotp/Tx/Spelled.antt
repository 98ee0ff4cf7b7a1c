-- ===== src/Isotp/Tx/Spelled.antt =====
-- The frames that the sender of isotp.c has handed out when it is done.
use embedded_systems_resourc.Base.{ℕ, ◌≤◌, ◌≡◌, refl, subst, List, [], ◌∷◌, length}
use embedded_systems_resourc.Isotp.{max_payload, can_dlc}
use embedded_systems_resourc.Isotp.Rx.Spells.{Spells}
use embedded_systems_resourc.Isotp.Tx.{State, started, next}
use embedded_systems_resourc.Isotp.Tx.Calls.{Call, ask, control, after_calls}
use embedded_systems_resourc.Isotp.Tx.Outgoing.{Told, Knows}
use embedded_systems_resourc.Isotp.Tx.Handed.{asked, controlled}

abbrev pub EightBytes : List Call → Type 0
EightBytes [] = Unit {0}
EightBytes (ask out ∷ before) = (length out ≡ can_dlc) × EightBytes before
EightBytes (control frame_bytes dlc ∷ before) = EightBytes before

module _ (limit : ℕ) (msg : List ℕ) (some_bytes : 1 ≤ length msg) (fits : length msg ≤ limit)
    (word : limit ≤ max_payload) where
  calls-Knows :
      (calls : List Call)
      → EightBytes calls
      → let (tx, frames) = after_calls (started msg (length msg), []) calls in
        Knows limit msg tx frames
  unfolding after_calls next
  calls-Knows [] eight = record { payload = refl; total = refl; told = (refl, refl) }
  calls-Knows (ask out ∷ before) (long, eight) =
      let k = calls-Knows before eight in
      let (tx, frames) = after_calls (started msg (length msg), []) before in
      asked limit msg some_bytes fits word tx frames k.payload k.total out long tx.state refl k.told
  calls-Knows (control frame_bytes dlc ∷ before) eight =
      let k = calls-Knows before eight in
      let (tx, frames) = after_calls (started msg (length msg), []) before in
      controlled limit msg some_bytes fits word tx frames k.payload k.total frame_bytes dlc k.told

  -- After isotp_tx_begin has accepted a message of 1 to `limit` bytes, whatever calls of isotp_tx_next
  -- (into eight bytes) and isotp_tx_flow_control (any frame) follow: if the sender is done, the frames
  -- that it has handed out end in the message by the rules of ISO-TP.
  pub done-Spells :
      (calls : List Call)
      → EightBytes calls
      → (after_calls (started msg (length msg), []) calls).0.state ≡ State.done
      → Spells limit (after_calls (started msg (length msg), []) calls).1 msg
  done-Spells calls eight e =
      let (tx, frames) = after_calls (started msg (length msg), []) calls in
      subst (λ st. Told limit msg st tx frames) e (calls-Knows calls eight).told
