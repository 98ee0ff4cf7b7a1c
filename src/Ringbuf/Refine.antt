-- ===== src/Ringbuf/Refine.antt =====
-- The ring buffer behaves as the queue that it holds.
use embedded_systems_resourc.Base.{
  ℕ, ◌≤◌, ◌<◌, ◌≡◌, refl, ap, ap₂, true, false, List, [], ◌∷◌, arith, length, dec_lt, lt→ltb,
  le→ltb_false, ◌==◌,
}
use embedded_systems_resourc.Ringbuf.{
  Ringbuf, capacity, empty, full, put, get, run, Op, put_byte, get_byte, ask_count, ask_empty,
  ask_full, number, answer, accepted, taken,
}
use embedded_systems_resourc.Ringbuf.Queue
use embedded_systems_resourc.Ringbuf.Holds.{
  Holds, count-eq-length, stored, stored-Holds, released, released-Holds, slot-eq-mod,
}

pub put-full :
    {rb : Ringbuf} {q : List ℕ} (b : ℕ) → Holds rb q → capacity ≤ length q → put rb b ≡ (false, rb)
unfolding put
put-full b h f = ground arith

pub put-room :
    {rb : Ringbuf} {q : List ℕ} (b : ℕ)
    → Holds rb q
    → length q < capacity
    → put rb b ≡ (true, stored rb b)
unfolding put
put-room b h f = ground arith

get-cons :
    {rb : Ringbuf} {x : ℕ} {q : List ℕ} (out : ℕ)
    → Holds rb (x ∷ q)
    → get rb out ≡ (true, x, released rb)
unfolding get
get-cons {rb} out h = ground (arith, h.slots 0, slot-eq-mod rb.tail)

get-nil : {rb : Ringbuf} (out : ℕ) → Holds rb [] → get rb out ≡ (false, out, rb)
unfolding get
get-nil out h = ground arith

-- `rb_put` accepts a byte exactly when the queue has room, then appends it; a full buffer is left
-- as it was.
pub put_refines :
    {rb : Ringbuf} {q : List ℕ} (b : ℕ)
    → Holds rb q
    → ((put rb b).0 ≡ (Queue.enqueue q b).0) × Holds (put rb b).1 (Queue.enqueue q b).1
unfolding Queue.enqueue
put_refines {rb} {q} b h = elim (dec_lt (length q) capacity) [
  | yes room ↦ rw (put-room b h room, lt→ltb (length q) capacity room) (refl, stored-Holds b h room)
  | no old ↦
      rw (put-full b h (omega arith), le→ltb_false (length q) capacity (omega arith)) (refl, h)
]

-- `rb_get` takes the oldest byte; on an empty buffer it fails and changes neither `*out` nor the
-- buffer.
pub get_refines :
    {rb : Ringbuf} {q : List ℕ} (out : ℕ)
    → Holds rb q
    → ((get rb out).0 ≡ (Queue.dequeue q out).0)
      × ((get rb out).1 ≡ (Queue.dequeue q out).1)
      × Holds (get rb out).2 (Queue.dequeue q out).2
unfolding Queue.dequeue
get_refines {q = []} out h = rw (get-nil out h) (refl, refl, h)
get_refines {q = x ∷ q} out h = rw (get-cons out h) (refl, refl, released-Holds h)

empty-eq : {rb : Ringbuf} {q : List ℕ} → Holds rb q → empty rb ≡ (length q == 0)
unfolding empty
empty-eq h = rw (count-eq-length h)

full-eq : {rb : Ringbuf} {q : List ℕ} → Holds rb q → full rb ≡ (length q == capacity)
unfolding full
full-eq h = ground (arith, count-eq-length h)

-- No sequence of calls tells a ring buffer from the bounded queue that it holds: every status,
-- byte and count agrees, also after the indices have wrapped.
pub run_refines :
    (ops : List Op) {rb : Ringbuf} {q : List ℕ} → Holds rb q → run rb ops ≡ Queue.run q ops
unfolding run Queue.run
run_refines [] h = refl
run_refines (put_byte b ∷ ops) h =
    let (same, next) = put_refines b h in ap₂ ◌∷◌ (ap accepted same) (run_refines ops next)
run_refines (get_byte out ∷ ops) h =
    let (same, byte, next) = get_refines out h in
    ap₂ ◌∷◌ (ap₂ taken same byte) (run_refines ops next)
run_refines (ask_count ∷ ops) h = ap₂ ◌∷◌ (ap number (count-eq-length h)) (run_refines ops h)
run_refines (ask_empty ∷ ops) h = ap₂ ◌∷◌ (ap answer (empty-eq h)) (run_refines ops h)
run_refines (ask_full ∷ ops) h = ap₂ ◌∷◌ (ap answer (full-eq h)) (run_refines ops h)
