-- ===== src/Isotp/Rx/Tests.antt =====
-- The receiver on frames of the host tests.
use embedded_systems_resourc.Base.{
  ℕ, ◌+◌, ◌≤◌, ◌≡◌, ◌↔◌, refl, ap, min, Option, none, some, List, [], ◌∷◌, arith, length,
}
use embedded_systems_resourc.Isotp.{Event, max_payload, event_name}
use embedded_systems_resourc.Isotp.Rx.{
  init, cf_take, frames, frame, dispatch, single, first, consecutive, in_sequence, build_fc, abort,
}
use embedded_systems_resourc.Isotp.Rx.Inv.{frames_in_bounds}
use embedded_systems_resourc.Isotp.Rx.Spells.{CanFrame, Spells}
use embedded_systems_resourc.Isotp.Rx.Held.{held}
use embedded_systems_resourc.Isotp.Rx.History.{after, last_event}
use embedded_systems_resourc.Isotp.Rx.Complete.{delivered-Spells}

-- A first frame that declares 100 bytes, a consecutive frame out of sequence, and a NULL frame.
abbrev hostile : List (Option (List ℕ) × ℕ)
hostile =
    (some (0x10 ∷ 100 ∷ 1 ∷ 2 ∷ 3 ∷ 4 ∷ 5 ∷ 6 ∷ []), 8)
    ∷ (some (0x21 ∷ 7 ∷ 8 ∷ []), 3)
    ∷ (none, 8)
    ∷ (some (0x2f ∷ 9 ∷ []), 2)
    ∷ []

frames_in_bounds_example :
    let rx = frames (init 200 4 0) hostile in
    (length rx.buf ≡ max_payload)
    × (rx.buffer_limit ≤ max_payload)
    × (rx.total_len ≤ rx.buffer_limit)
    × (rx.received ≤ rx.total_len)
    × (rx.received + cf_take rx 8 ≤ rx.total_len)
    × (1 + cf_take rx 8 ≤ 8)
frames_in_bounds_example = frames_in_bounds 200 4 0 hostile 8 (omega arith) (omega arith)

-- Ten bytes in two frames with a NULL frame between them, the latest first.
abbrev two_frames : List CanFrame
two_frames =
    (some (0x21 ∷ 7 ∷ 8 ∷ 9 ∷ 10 ∷ []), 5)
    ∷ (none, 8)
    ∷ (some (0x10 ∷ 10 ∷ 1 ∷ 2 ∷ 3 ∷ 4 ∷ 5 ∷ 6 ∷ []), 8)
    ∷ []

abbrev ten_bytes : List ℕ
ten_bytes = 1 ∷ 2 ∷ 3 ∷ 4 ∷ 5 ∷ 6 ∷ 7 ∷ 8 ∷ 9 ∷ 10 ∷ []

delivered-Spells_example :
    ((last_event (init 200 4 0) two_frames ≡ Event.message)
      × (held (after (init 200 4 0) two_frames) ≡ ten_bytes))
    ↔ Spells (min 200 max_payload) two_frames ten_bytes
delivered-Spells_example = delivered-Spells 200 4 0 two_frames ten_bytes (omega arith)

two_frames_deliver : last_event (init 200 4 0) two_frames ≡ Event.message
unfolding init frame dispatch single first consecutive in_sequence build_fc abort
two_frames_deliver = refl

message_named : event_name (last_event (init 200 4 0) two_frames) ≡ "MESSAGE"
unfolding event_name
message_named = ap event_name two_frames_deliver
