-- ===== src/Examples/Protocol/Tests.antt =====
-- Runs of the self test and of the handlers of example 06.
use embedded_systems_resourc.Base.{
  ℕ, ◌≡◌, refl, false, List, [], ◌∷◌, ◌++◌, some, take, drop, arith, codes, replicate,
}
use embedded_systems_resourc.Uart.{puts}
use embedded_systems_resourc.Frame.{State, Parser, reset, feed, feed_in}
use embedded_systems_resourc.Crc.{update_all, update, rounds, round}
use embedded_systems_resourc.Frame.Wire.{inject_frame, crc_of, body}
use embedded_systems_resourc.Examples.Protocol.{drain, handle, handle_all, main, injected, ok}
use embedded_systems_resourc.Examples.Protocol.Report.{payload_report, inject_frame-reported}
use embedded_systems_resourc.Examples.Protocol.Drain.{low_bytes, joined, uart0_handler-in_order}

-- `g_parser` as the start-up code leaves it.
abbrev cleared : Parser
cleared = record {
  state = State.idle;
  payload = replicate 64 0;
  length = 0;
  index = 0;
  crc_received = 0;
  crc_computed = 0;
  frames_ok = 0;
  err_length = 0;
  err_crc = 0;
  err_framing = 0;
  bytes_discarded = 0;
}

self_test_passes : (main cleared []).1 ≡ 0
unfolding main injected ok handle_all handle inject_frame crc_of body reset feed feed_in update_all
    update rounds round
self_test_passes = refl

abbrev good : List ℕ
good = 0xde ∷ 0xad ∷ 0xbe ∷ 0xef ∷ []

inject_frame-reported_example :
    (handle_all cleared (inject_frame good 4 false)).1
    ≡ puts (codes "FRAME OK\n") ++ payload_report good
inject_frame-reported_example =
    inject_frame-reported cleared good refl refl (omega arith) (omega arith)

-- Two bytes in the queue, and one that comes in while the first is handled.
uart0_handler-in_order_example :
    (n : ℕ) × (let fed =
        handle_all cleared (low_bytes ((2 ∷ 1 ∷ []) ++ joined (take n ((7 ∷ []) ∷ [])))) in
      drain 4 (2 ∷ 1 ∷ []) ((7 ∷ []) ∷ []) cleared ≡ some (fed.0, fed.1, drop n ((7 ∷ []) ∷ [])))
uart0_handler-in_order_example =
    uart0_handler-in_order 4 (2 ∷ 1 ∷ []) ((7 ∷ []) ∷ []) cleared (omega arith)
