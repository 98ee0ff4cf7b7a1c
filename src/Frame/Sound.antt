-- ===== src/Frame/Sound.antt =====
-- The parser reports a frame only where one stands in the input.
use embedded_systems_resourc.Base.{
  ℕ, ◌≤◌, ◌<◌, ◌≡◌, refl, sym, subst, List, [], ◌∷◌, ◌++◌, length, take, AllBytes,
}
use mathlib.Core.List.{append_assoc, append-nil}
use embedded_systems_resourc.Frame.{
  State, Event, Parser, max_payload, feed, feed_in, feed_all, reset,
}
use embedded_systems_resourc.Frame.Wire.{wire}
use embedded_systems_resourc.Frame.Seen.{Trace, Follows}
use embedded_systems_resourc.Frame.Follow.{
  follow_idle, follow_len, follow_payload, follow_crc_lo, follow_crc_hi, follow_etx, follow_count,
}

-- One step of the parser keeps what it knows of the input.
follow :
    (st : State) (p : Parser) (input : List ℕ) (byte : ℕ)
    → length p.payload ≡ max_payload
    → byte < 256
    → p.state ≡ st
    → Trace st p input
    → Follows (feed_in st p byte) (input ++ (byte ∷ []))
follow State.idle p input byte size small e t = follow_idle p input byte size small e
follow State.len p input byte size small e t = follow_len p input byte size small t
follow State.payload p input byte size small e t = follow_payload p input byte size small e t
follow State.crc_lo p input byte size small e t = follow_crc_lo p input byte size small t
follow State.crc_hi p input byte size small e t = follow_crc_hi p input byte size small t
follow State.etx p input byte size small e t = follow_etx p input byte size small t
follow State.count p input byte size small e t = follow_count p input byte size small

-- What is known after `input`, however it came about.
record Knows (p : Parser) (input : List ℕ) : Type 0 where
  sized : length p.payload ≡ max_payload
  trace : Trace p.state p input

feed-Follows :
    (p : Parser) (input : List ℕ) (byte : ℕ)
    → byte < 256
    → Knows p input
    → Follows (feed p byte) (input ++ (byte ∷ []))
unfolding feed
feed-Follows p input byte small k = follow p.state p input byte k.sized small refl k.trace

feed_all-Knows :
    (more : List ℕ) (p : Parser) (input : List ℕ)
    → AllBytes more
    → Knows p input
    → Knows (feed_all p more) (input ++ more)
unfolding feed_all
feed_all-Knows [] p input all k = subst (Knows p) (sym (append-nil input)) k
feed_all-Knows (x ∷ xs) p input all k =
    let f = feed-Follows p input x all.0 k in
    subst (Knows (feed_all (feed p x).1 xs)) (append_assoc input (x ∷ []) xs) (
      feed_all-Knows xs (feed p x).1 (input ++ (x ∷ [])) all.1
        (record { sized = f.sized; trace = f.trace }))

-- FRAME_EV_COMPLETE is never reported by mistake: after `frame_reset`, whatever bytes arrived, when
-- a byte completes a frame the input ends in STX, a length of at most 64, that many payload bytes,
-- their CRC and ETX, and those payload bytes are what the buffer begins with.
pub complete_sound :
    (p : Parser) (input : List ℕ) (byte : ℕ)
    → length p.payload ≡ max_payload
    → AllBytes input
    → byte < 256
    → (feed (feed_all (reset p) input) byte).0 ≡ Event.complete
    → let q = (feed (feed_all (reset p) input) byte).1 in
      (before : List ℕ) × (input ++ (byte ∷ []) ≡ before ++ wire (take q.length q.payload))
      × (q.length ≤ max_payload)
complete_sound p input byte size all small done =
    (feed-Follows (feed_all (reset p) input) input byte small
        (feed_all-Knows input (reset p) [] all start)).done
      done
  where
    start : Knows (reset p) []
    start = unfold reset in record { sized = size; trace = tt }
