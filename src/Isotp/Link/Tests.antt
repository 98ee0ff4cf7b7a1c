-- ===== src/Isotp/Link/Tests.antt =====
-- The joined sender and receiver at a concrete message.
use embedded_systems_resourc.Base.{ℕ, refl, List, [], ◌∷◌, arith, length, replicate}
use embedded_systems_resourc.Isotp.Tx
use embedded_systems_resourc.Isotp.Tx.{Tx}
use embedded_systems_resourc.Isotp.Link.{round_trip}
use embedded_systems_resourc.Isotp.Link.Rounds.{Delivers}
use embedded_systems_resourc.Isotp.Link.Delivery.{round_trip-Delivers}

-- Sixteen bytes: a first frame and two consecutive frames.
abbrev message : List ℕ
message = 1 ∷ 2 ∷ 3 ∷ 4 ∷ 5 ∷ 6 ∷ 7 ∷ 8 ∷ 9 ∷ 10 ∷ 11 ∷ 12 ∷ 13 ∷ 14 ∷ 15 ∷ 16 ∷ []

abbrev idle_sender : Tx
idle_sender = Tx.started [] 0

round_trip-Delivers_example :
    Delivers message
      (round_trip idle_sender (replicate 8 0) message (length message) 1 0 (replicate 16 0) 0)
round_trip-Delivers_example =
    round_trip-Delivers idle_sender (replicate 8 0) message 1 0 (replicate 16 0) 0 (omega arith)
      (omega arith) (omega arith) refl (omega arith)
