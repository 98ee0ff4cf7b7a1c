-- ===== src/Isotp/Tx/Calls.antt =====
-- Calls of the sender of code/portable/can/isotp.c, in any order, and the frames that it hands out.
use embedded_systems_resourc.Base.{ℕ, Option, none, some, List, [], ◌∷◌, ◌==◌, if◌then◌else◌}
use embedded_systems_resourc.Isotp.Rx.Spells.{CanFrame}
use embedded_systems_resourc.Isotp.Tx.{Tx, next, flow_control}

-- isotp_tx_next into an array, or isotp_tx_flow_control on a frame that has come.
pub data Call : Type 0 where
  ask : (out : List ℕ) → Call
  control : (frame_bytes : Option (List ℕ)) (dlc : ℕ) → Call

-- What a pointer that is not NULL points to.
abbrev pub held_by : {A : Type 0} → A → Option A → A
held_by a none = a
held_by a (some b) = b

-- The sender, and the frames to send so far, the latest first.
abbrev pub Sender : Type 0
Sender = Tx × List CanFrame

abbrev pub call : Sender → Call → Sender
call (tx, frames) (ask out) =
    let (dlc, tx', out') = next (some tx) (some out) in
    (held_by tx tx', if dlc == 0 then frames else (out', dlc) ∷ frames)
call (tx, frames) (control frame_bytes dlc) =
    (held_by tx (flow_control (some tx) frame_bytes dlc).1, frames)

-- The calls, the latest first.
unfoldable pub after_calls : Sender → List Call → Sender
after_calls s [] = s
after_calls s (c ∷ before) = call (after_calls s before) c
