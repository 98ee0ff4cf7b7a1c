-- ===== src/Ringbuf/Queue.antt =====
-- What ringbuf.h promises: a queue of at most `capacity` bytes, oldest first.
use embedded_systems_resourc.Base.{
  ℕ, Bool, true, false, List, [], ◌∷◌, ◌++◌, ltb, ◌==◌, if◌then◌else◌, length,
}
use embedded_systems_resourc.Ringbuf.{
  capacity, Op, put_byte, get_byte, ask_count, ask_empty, ask_full, Reply, accepted, taken, number,
  answer,
}

-- A full queue drops the newest byte.
unfoldable pub enqueue : List ℕ → ℕ → Bool × List ℕ
enqueue q b = if ltb (length q) capacity then (true, q ++ (b ∷ [])) else (false, q)

unfoldable pub dequeue : List ℕ → ℕ → Bool × ℕ × List ℕ
dequeue [] out = (false, out, [])
dequeue (x ∷ q) out = (true, x, q)

unfoldable pub run : List ℕ → List Op → List Reply
run q [] = []
run q (put_byte b ∷ ops) = let (done, q') = enqueue q b in accepted done ∷ run q' ops
run q (get_byte out ∷ ops) = let (done, x, q') = dequeue q out in taken done x ∷ run q' ops
run q (ask_count ∷ ops) = number (length q) ∷ run q ops
run q (ask_empty ∷ ops) = answer (length q == 0) ∷ run q ops
run q (ask_full ∷ ops) = answer (length q == capacity) ∷ run q ops
