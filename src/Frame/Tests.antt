-- ===== src/Frame/Tests.antt =====
-- Runs of the frame parser, and its theorems at concrete inputs.
use embedded_systems_resourc.Base.{
  ℕ, ◌≤◌, ◌<◌, ◌≡◌, refl, ◌≢◌, List, [], ◌∷◌, ◌++◌, arith, length, replicate, take, set, false,
  true,
}
use embedded_systems_resourc.Crc.{crc16, update_all, update, rounds, round}
use embedded_systems_resourc.Crc.Detect.{crc16_detects}
use embedded_systems_resourc.Frame.{
  State, Event, Parser, max_payload, reset, feed, feed_in, feed_all, events, state_name, event_name,
}
use embedded_systems_resourc.Frame.Inv.{feed_all_in_bounds}
use embedded_systems_resourc.Frame.Wire.{inject_frame, wire}
use embedded_systems_resourc.Frame.Accept.{inject_frame_accepted, damaged_frame_refused}
use embedded_systems_resourc.Frame.Sound.{complete_sound}

abbrev fresh : Parser
fresh = record {
  state = State.idle;
  payload = replicate 64 0;
  length = 0;
  index = 0;
  crc_received = 0;
  crc_computed = 0xffff;
  frames_ok = 0;
  err_length = 0;
  err_crc = 0;
  err_framing = 0;
  bytes_discarded = 0;
}

abbrev good : List ℕ
good = 0xde ∷ 0xad ∷ 0xbe ∷ 0xef ∷ []

abbrev digits_text : List ℕ
digits_text = 0x31 ∷ 0x32 ∷ 0x33 ∷ 0x34 ∷ 0x35 ∷ 0x36 ∷ 0x37 ∷ 0x38 ∷ 0x39 ∷ []

-- The check value of CRC-16/CCITT-FALSE.
crc16_check_value : crc16 digits_text 9 ≡ 0x29b1
unfolding crc16 update_all update rounds round
crc16_check_value = refl

-- The self-test of example 06: a good frame, a corrupted one, noise, a good one.
abbrev self_test : List ℕ
self_test =
    inject_frame good 4 false
    ++ (inject_frame good 4 true
        ++ (0x02 ∷ 65 ∷ 0x55 ∷ 0x55 ∷ 0x55 ∷ 0x55 ∷ 0x55 ∷ inject_frame good 4 false))

self_test_counters :
    let q = feed_all fresh self_test in
    (q.frames_ok ≡ 2)
    × (q.err_crc ≡ 1)
    × (q.err_length ≡ 1)
    × (q.err_framing ≡ 0)
    × (q.bytes_discarded ≡ 6)
unfolding feed_all feed feed_in inject_frame update_all update rounds round
self_test_counters = (refl, refl, refl, refl, refl)

crc16_detects_example : crc16 (1 ∷ 2 ∷ 3 ∷ []) 3 ≢ crc16 (1 ∷ 7 ∷ 3 ∷ []) 3
crc16_detects_example =
    crc16_detects (1 ∷ []) (3 ∷ []) 2 7 3 (omega arith) (omega arith) (omega arith) (omega arith)

feed_all_in_bounds_example :
    let q = feed_all (reset fresh) (2 ∷ 3 ∷ 7 ∷ []) in
    (q.index < q.length) × (q.length ≤ length q.payload) × (length q.payload ≡ max_payload)
feed_all_in_bounds_example =
    feed_all_in_bounds fresh (2 ∷ 3 ∷ 7 ∷ []) refl (omega arith)
      (unfold feed_all feed reset feed_in update rounds round in refl)

inject_frame_accepted_example :
    let frame = inject_frame good 4 false in
    let q = feed_all fresh frame in
    (events fresh frame
      ≡ Event.none
        ∷ Event.none
        ∷ (replicate 4 Event.none ++ (Event.none ∷ Event.none ∷ Event.complete ∷ [])))
    × (take q.length q.payload ≡ good)
    × (q.length ≡ 4)
    × (q.state ≡ State.idle)
    × (q.frames_ok ≡ 1)
    × (q.err_length ≡ 0)
    × (q.err_crc ≡ 0)
    × (q.err_framing ≡ 0)
    × (q.bytes_discarded ≡ 0)
inject_frame_accepted_example =
    inject_frame_accepted fresh good refl refl (omega arith) (omega arith)

damaged_frame_refused_example :
    let frame = set (wire good) 3 0 in
    let q = feed_all fresh frame in
    (events fresh frame
      ≡ Event.none
        ∷ Event.none
        ∷ (replicate 4 Event.none ++ (Event.none ∷ Event.err_crc ∷ Event.none ∷ [])))
    × (q.state ≡ State.idle)
    × (q.frames_ok ≡ 0)
    × (q.err_crc ≡ 1)
    × (q.bytes_discarded ≡ 1)
damaged_frame_refused_example =
    damaged_frame_refused fresh good 1 0 refl (omega arith) (omega arith) (omega arith)
      (omega arith) (omega arith)

-- Noise, then the frame with payload 7; the last byte is its ETX.
abbrev noisy : List ℕ
noisy = 0x55 ∷ 2 ∷ 1 ∷ 7 ∷ 0xd9 ∷ 0x5e ∷ []

complete_sound_example :
    let q = (feed (feed_all (reset fresh) noisy) 3).1 in
    (before : List ℕ) × (noisy ++ (3 ∷ []) ≡ before ++ wire (take q.length q.payload))
    × (q.length ≤ max_payload)
complete_sound_example =
    complete_sound fresh noisy 3 refl (omega arith) (omega arith)
      (unfold feed_all feed reset feed_in update rounds round in refl)

named : (state_name State.crc_hi ≡ "CRC_HI") × (event_name Event.err_crc ≡ "ERR_CRC")
unfolding state_name event_name
named = (refl, refl)
