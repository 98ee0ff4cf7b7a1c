-- ===== src/Isotp/Tx/Tests.antt =====
-- The sender on a run of calls: ten bytes in two frames, with flow control between them.
use embedded_systems_resourc.Base.{
  ℕ, ◌≡◌, refl, some, none, List, [], ◌∷◌, arith, length, replicate,
}
use embedded_systems_resourc.Isotp.{max_payload}
use embedded_systems_resourc.Isotp.Rx.Spells.{Spells}
use embedded_systems_resourc.Isotp.Tx.{
  State, started, next, next_in, send_first, send_next, flow_control, on_flow, on_status,
}
use embedded_systems_resourc.Isotp.Tx.Calls.{Call, ask, control, after_calls}
use embedded_systems_resourc.Isotp.Tx.Spelled.{done-Spells}

abbrev ten_bytes : List ℕ
ten_bytes = 1 ∷ 2 ∷ 3 ∷ 4 ∷ 5 ∷ 6 ∷ 7 ∷ 8 ∷ 9 ∷ 10 ∷ []

abbrev wire : List ℕ
wire = replicate 8 0

-- The latest first: asked too early once, held up once, then cleared.
abbrev calls : List Call
calls =
    ask wire
    ∷ control (some (0x30 ∷ 0 ∷ 0 ∷ [])) 3
    ∷ control (some (0x31 ∷ 0 ∷ 0 ∷ [])) 3
    ∷ control none 8
    ∷ ask wire
    ∷ ask wire
    ∷ []

calls_end : (after_calls (started ten_bytes 10, []) calls).0.state ≡ State.done
unfolding after_calls next next_in send_first send_next flow_control on_flow on_status
calls_end = refl

done-Spells_example :
    Spells max_payload (after_calls (started ten_bytes (length ten_bytes), []) calls).1 ten_bytes
done-Spells_example =
    done-Spells max_payload ten_bytes (omega arith) (omega arith) (omega arith) calls (omega arith)
      calls_end
