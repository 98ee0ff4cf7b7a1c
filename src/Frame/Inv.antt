-- ===== src/Frame/Inv.antt =====
-- The invariant of the parser: no byte is stored outside `payload`.
use embedded_systems_resourc.Base.{
  ℕ, ◌≤◌, ◌<◌, ◌≡◌, refl, List, [], ◌∷◌, arith, length, length-set, AllBytes,
}
use embedded_systems_resourc.Frame.{State, Parser, max_payload, reset, feed, feed_in, feed_all}

pub record IsValid (p : Parser) : Type 0 where
  pub sized : length p.payload ≡ max_payload
  pub length_fits : p.length ≤ max_payload
  pub starting : p.state ≡ State.len → p.index ≡ 0
  pub collecting : p.state ≡ State.payload → p.index < p.length
  pub index_fits : p.index ≤ max_payload

reset-IsValid : (p : Parser) → length p.payload ≡ max_payload → IsValid (reset p)
unfolding reset
reset-IsValid p h = record {
  sized = h;
  length_fits = omega arith;
  starting = λ e. cc;
  collecting = λ e. cc;
  index_fits = omega arith;
}

feed_in-IsValid :
    (st : State) (p : Parser) (byte : ℕ)
    → p.state ≡ st
    → IsValid p
    → byte < 256
    → IsValid (feed_in st p byte).1
unfolding feed_in reset
feed_in-IsValid State.idle p byte e v h = ground arith
feed_in-IsValid State.len p byte e v h = ground (arith, v.starting e)
feed_in-IsValid State.payload p byte e v h =
    ground (arith, length-set p.payload p.index byte, v.collecting e)
feed_in-IsValid _ p byte e v h = ground arith

-- `frame_feed` keeps the invariant on every byte, in every state.
pub feed-IsValid : (p : Parser) (byte : ℕ) → IsValid p → byte < 256 → IsValid (feed p byte).1
unfolding feed
feed-IsValid p byte v h = feed_in-IsValid p.state p byte refl v h

feed_all-IsValid :
    (p : Parser) (bytes : List ℕ) → IsValid p → AllBytes bytes → IsValid (feed_all p bytes)
unfolding feed_all
feed_all-IsValid p [] v all = v
feed_all-IsValid p (x ∷ xs) v all =
    feed_all-IsValid (feed p x).1 xs (feed-IsValid p x v all.0) all.1

-- After `frame_reset` the parser never stores a byte outside its 64-byte buffer, whatever arrived:
-- in the state that stores the next byte its index is below the declared length, the declared
-- length is at most the buffer's, and the buffer still has 64 bytes.
pub feed_all_in_bounds :
    (p : Parser) (bytes : List ℕ)
    → length p.payload ≡ max_payload
    → AllBytes bytes
    → (feed_all (reset p) bytes).state ≡ State.payload
    → let q = feed_all (reset p) bytes in
      (q.index < q.length) × (q.length ≤ length q.payload) × (length q.payload ≡ max_payload)
feed_all_in_bounds p bytes h all e =
    let v = feed_all-IsValid (reset p) bytes (reset-IsValid p h) all in
    (omega (arith, v.collecting e), omega (arith, v.sized), v.sized)
