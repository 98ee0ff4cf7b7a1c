-- ===== src/Examples/Stream/Tests.antt =====
-- The ring buffer example: a byte produced, looked for and consumed; keys into an empty buffer.
use embedded_systems_resourc.Base.{
  ℕ, ◌∷◌, some, drop, ◌+◌, ◌-◌, ◌≤◌, ◌≡◌, refl, List, [], ◌++◌, arith, length, replicate, take, u32,
}
use embedded_systems_resourc.Ringbuf
use embedded_systems_resourc.Ringbuf.{Ringbuf, capacity}
use embedded_systems_resourc.Ringbuf.Holds.{Holds, init-Holds}
use embedded_systems_resourc.Examples.Stream.{
  Main, App, systick, rounds, Step, tick, look, load, pass, release, boot, Reach, start, later,
  uart0, rx_byte, key, keys, pressed,
}
use embedded_systems_resourc.Examples.Protocol.Drain.{low_bytes, joined}
use embedded_systems_resourc.Examples.Stream.Text.{exit_status}
use embedded_systems_resourc.Examples.Stream
use embedded_systems_resourc.Examples.Stream.Order.{stream_in_order}
use embedded_systems_resourc.Examples.Stream.Overrun.{overrun_reported}
use embedded_systems_resourc.Examples.Stream.Finish.{finishes}
use embedded_systems_resourc.Examples.Stream.Keys.{uart0-Holds}

abbrev empty_buffer : Ringbuf
empty_buffer = record { buf = replicate 64 0; head = 0; tail = 0 }

-- The interrupt comes before the loop and within its first round.
abbrev one_byte : (a : App) × Reach empty_buffer a
unfolding systick Ringbuf.put Ringbuf.init Ringbuf.count
one_byte = (
  _,
  later
      (later
        (later
          (later (later (later (later start (tick refl)) (look refl refl)) (tick refl)) (load refl))
          (pass refl (omega arith)))
        (Stream.take refl))
      (release refl),
)

consumed_one : (one_byte.0.consumed ≡ 1) × (one_byte.0.produced ≡ 2)
unfolding systick Ringbuf.put Ringbuf.init Ringbuf.count
consumed_one = (refl, refl)

stream_in_order_example :
    (one_byte.0.errors ≡ 0)
    × (exit_status one_byte.0 ≡ 0)
    × (one_byte.0.consumed ≤ rounds)
    × (one_byte.0.high_water ≤ capacity)
unfolding systick Ringbuf.put Ringbuf.init Ringbuf.count keys pressed
stream_in_order_example = stream_in_order refl one_byte.1 refl

-- Seventy keys are waiting, and two more come in; eight are lost.
abbrev typed : List ℕ
typed = replicate 70 0x107

abbrev more : List (List ℕ)
more = (8 ∷ []) ∷ (9 ∷ []) ∷ []

uart0-Holds_example :
    (n : ℕ) × (a' : App) × (uart0 80 typed more (boot empty_buffer) ≡ some (a', drop n more))
    × (let bytes = typed ++ joined (take n more) in
        Holds a'.rb ([] ++ take (capacity - 0) (low_bytes bytes))
        × (a'.dropped ≡ u32 (0 + (length bytes - (capacity - 0))))
        × (a'.produced ≡ 0))
uart0-Holds_example =
    uart0-Holds 80 typed more (boot empty_buffer) [] (omega arith) (init-Holds empty_buffer refl)
      (omega arith)

-- A key pressed at the start is taken for the first byte of the pattern, and `main` would exit with 1.
abbrev one_key : (a : App) × Reach empty_buffer a
unfolding uart0 rx_byte Ringbuf.put Ringbuf.init Ringbuf.count
one_key = (
  _,
  later
      (later
        (later
          (later (later (later start (key 2 (0x7a ∷ []) [] [] refl)) (look refl refl)) (load refl))
          (pass refl (omega arith)))
        (Stream.take refl))
      (release refl),
)

key_counts_error : (one_key.0.errors ≡ 1) × (exit_status one_key.0 ≡ 1)
unfolding uart0 rx_byte Ringbuf.put Ringbuf.init Ringbuf.count exit_status
key_counts_error = (refl, refl)

-- The run in which the consumer keeps up and the stall lasts 200 ticks.
abbrev finished_run :
    (a : App) × (depth : ℕ) × (lost : ℕ) × (r : Reach empty_buffer a) × (keys r ≡ 0)
    × (a.main ≡ Main.finished depth lost)
finished_run = finishes empty_buffer

overrun_reported_example :
    (finished_run.1 ≡ capacity)
    × (finished_run.0.consumed ≡ rounds)
    × (finished_run.0.produced ≡ rounds + capacity)
    × (finished_run.0.ticks ≡ u32 (rounds + capacity + finished_run.0.dropped))
    × (exit_status finished_run.0 ≡ 0)
overrun_reported_example = overrun_reported refl finished_run.3 finished_run.4 finished_run.5
