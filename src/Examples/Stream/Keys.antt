-- ===== src/Examples/Stream/Keys.antt =====
-- The receive interrupt of the ring buffer example: what is kept, and what is counted as dropped.
use embedded_systems_resourc.Base.{
  ℕ, zero, suc, Option, some, drop, u8, bit_and, bit_and_mask, ◌+◌, ◌-◌, ◌^◌, ◌≤◌, ◌<◌, ◌≡◌, refl,
  sym, ap, subst, ◌∙◌, Bool, List, [], ◌∷◌, ◌++◌, arith, length, length-append, take, take-nil,
  take_congr, u32, if◌then◌else◌, dec_lt,
}
use mathlib.Core.List.{append_assoc, append-nil}
use embedded_systems_resourc.Ringbuf
use embedded_systems_resourc.Ringbuf.{Ringbuf, capacity}
use embedded_systems_resourc.Ringbuf.Holds.{Holds, stored, stored-Holds}
use embedded_systems_resourc.Ringbuf.Refine.{put-full, put-room}
use embedded_systems_resourc.Examples.Protocol.Drain.{low_bytes, joined}
use embedded_systems_resourc.Examples.Stream.{App, rx_byte, uart0}

byte : (b : ℕ) → u8 (bit_and b 0xff) ≡ u8 b
byte b = omega (arith, bit_and_mask 8 b)

-- What each round of the loop does, for bytes that are all there.
unfoldable receive_all : List ℕ → App → App
receive_all [] a = a
receive_all (b ∷ bs) a = receive_all bs (rx_byte a b)

-- One byte, where there is room and where there is none.
rx_byte-room :
    (b : ℕ) (a : App) {q : List ℕ}
    → Holds a.rb q
    → length q < capacity
    → rx_byte a b ≡ record a { rb = stored a.rb (u8 b) }
unfolding rx_byte
rx_byte-room b a h room =
    ap
      (λ (p : Bool × Ringbuf).
        if p.0 then record a { rb = p.1 } else record a { dropped = u32 (a.dropped + 1) })
      (ap (λ x. Ringbuf.put a.rb x) (byte b) ∙ put-room (u8 b) h room)

rx_byte-full :
    (b : ℕ) (a : App) {q : List ℕ}
    → Holds a.rb q
    → capacity ≤ length q
    → rx_byte a b ≡ record a { dropped = u32 (a.dropped + 1) }
unfolding rx_byte
rx_byte-full b a h full =
    ap
      (λ (p : Bool × Ringbuf).
        if p.0 then record a { rb = p.1 } else record a { dropped = u32 (a.dropped + 1) })
      (ap (λ x. Ringbuf.put a.rb x) (byte b) ∙ put-full (u8 b) h full)

-- The bytes kept: one more when there is room.
kept_room :
    (b : ℕ) (queued q : List ℕ)
    → length q < capacity
    → (q ++ (b ∷ [])) ++ take (capacity - length (q ++ (b ∷ []))) queued
      ≡ q ++ take (capacity - length q) (b ∷ queued)
kept_room b queued q room =
    append_assoc q (b ∷ []) (take (capacity - length (q ++ (b ∷ []))) queued)
    ∙ ap (λ l. q ++ l)
        (ap (◌∷◌ b) (
            take_congr queued (capacity - length (q ++ (b ∷ []))) (capacity - length q - 1)
              (omega (arith, length-append q (b ∷ []))))
          ∙ take_congr (b ∷ queued) (suc (capacity - length q - 1)) (capacity - length q)
              (omega arith))

received :
    (bs : List ℕ) (a : App) (q : List ℕ)
    → Holds a.rb q
    → a.dropped < 2 ^ 32
    → Holds (receive_all bs a).rb (q ++ take (capacity - length q) (low_bytes bs))
      × ((receive_all bs a).dropped ≡ u32 (a.dropped + (length bs - (capacity - length q))))
      × ((receive_all bs a).produced ≡ a.produced)
unfolding receive_all
received [] a q h word = (
  subst (Holds a.rb) (sym (ap (λ l. q ++ l) (take-nil (capacity - length q)) ∙ append-nil q)) h,
  omega arith,
  refl,
)
received (b ∷ bs) a q h word = elim (dec_lt (length q) capacity) [
  | yes room ↦
      let a' : App = record a { rb = stored a.rb (u8 b) } in
      let (kept, count, same) =
        received bs a' (q ++ (u8 b ∷ [])) (stored-Holds (u8 b) h room) word in
      let first : receive_all (b ∷ bs) a ≡ receive_all bs a' =
        ap (receive_all bs) (rx_byte-room b a h room) in
      rw first (
        subst (Holds (receive_all bs a').rb) (kept_room (u8 b) (low_bytes bs) q room) kept,
        omega (arith, count, length-append q (u8 b ∷ [])),
        same,
      )
  | no old ↦
      let a' : App = record a { dropped = u32 (a.dropped + 1) } in
      let (kept, count, same) = received bs a' q h (omega arith) in
      let first : receive_all (b ∷ bs) a ≡ receive_all bs a' =
        ap (receive_all bs) (rx_byte-full b a h (omega arith)) in
      rw first (
        subst (λ l. Holds (receive_all bs a').rb (q ++ l)) (none_kept old) kept,
        omega (arith, count),
        same,
      )
]
  where
    none_kept :
        ¬ (length q < capacity)
        → take (capacity - length q) (low_bytes bs)
          ≡ take (capacity - length q) (u8 b ∷ low_bytes bs)
    none_kept old =
        take_congr (low_bytes bs) (capacity - length q) 0 (omega arith)
        ∙ take_congr (u8 b ∷ low_bytes bs) 0 (capacity - length q) (omega arith)

-- What a run of the loop gives when the first `came` batches have come in before it ends.
record Ran (fifo : List ℕ) (arriving : List (List ℕ)) (a : App) (r : Option (App × List (List ℕ)))
    : Type 0 where
  pub came : ℕ
  pub all : r ≡ some (receive_all (fifo ++ joined (take came arriving)) a, drop came arriving)

ran :
    (fuel : ℕ) (fifo : List ℕ) (arriving : List (List ℕ)) (a : App)
    → length fifo + length (joined arriving) < fuel
    → Ran fifo arriving a (uart0 fuel fifo arriving a)
unfolding uart0 receive_all
ran zero fifo arriving a h = absurd (omega arith)
ran (suc fuel) [] arriving a h = record { came = 0; all = refl }
ran (suc fuel) (b ∷ fifo) [] a h =
    let rest = ran fuel fifo [] (rx_byte a b) (omega arith) in
    record { came = rest.came; all = rest.all }
ran (suc fuel) (b ∷ fifo) (batch ∷ arriving) a h =
    let rest =
      ran fuel (fifo ++ batch) arriving (rx_byte a b)
        (omega (arith, length-append fifo batch, length-append batch (joined arriving))) in
    record {
      came = suc rest.came;
      all =
          rest.all
          ∙ ap (λ l. some (receive_all l (rx_byte a b), drop rest.came arriving))
              (append_assoc fifo batch (joined (take rest.came arriving)));
    }

-- The receive interrupt returns once the receive queue is empty, for every sequence of batches that come
-- in while it runs, and keeps the oldest bytes: of what stood in the queue and then came in, as
-- many as there is room for follow the bytes that the ring buffer holds, in order and cut to eight
-- bits, and `g_dropped` goes up by the number of the others; nothing is counted as produced, and
-- the other batches are still to come.
pub uart0-Holds :
    (fuel : ℕ) (fifo : List ℕ) (arriving : List (List ℕ)) (a : App) (q : List ℕ)
    → length fifo + length (joined arriving) < fuel
    → Holds a.rb q
    → a.dropped < 2 ^ 32
    → (n : ℕ) × (a' : App) × (uart0 fuel fifo arriving a ≡ some (a', drop n arriving))
      × (let bytes = fifo ++ joined (take n arriving) in
          Holds a'.rb (q ++ take (capacity - length q) (low_bytes bytes))
          × (a'.dropped ≡ u32 (a.dropped + (length bytes - (capacity - length q))))
          × (a'.produced ≡ a.produced))
uart0-Holds fuel fifo arriving a q enough h word =
    let r = ran fuel fifo arriving a enough in
    let bytes = fifo ++ joined (take r.came arriving) in
    (r.came, receive_all bytes a, r.all, received bytes a q h word)
