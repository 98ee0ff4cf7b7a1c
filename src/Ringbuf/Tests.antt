-- ===== src/Ringbuf/Tests.antt =====
-- Runs of the ring buffer, and its theorems at concrete inputs.
use embedded_systems_resourc.Base.{
  ℕ, ◌-◌, ◌^◌, ◌≤◌, ◌≡◌, refl, ◌≢◌, true, false, List, [], ◌∷◌, ◌++◌, arith, length, replicate,
}
use embedded_systems_resourc.Ringbuf.{
  Ringbuf, capacity, slot, init, put, get, count, full, run, Op, put_byte, get_byte, ask_count,
  ask_full, accepted, taken, number, answer,
}
use embedded_systems_resourc.Ringbuf.Queue
use embedded_systems_resourc.Ringbuf.Holds.{Holds}
use embedded_systems_resourc.Ringbuf.Refine.{run_refines}
use embedded_systems_resourc.Ringbuf.Spsc.{
  System, Reach, start, later, put_load, put_pass, put_store, put_publish, get_load, get_pass,
}
use embedded_systems_resourc.Ringbuf.Spsc.Safety.{spsc_fifo, spsc_no_race}

-- The indices stand just below 2^32.
abbrev near_wrap : Ringbuf
near_wrap = record { buf = replicate 64 0; head = 2 ^ 32 - 1; tail = 2 ^ 32 - 1 }

abbrev script : List Op
script = get_byte 9 ∷ put_byte 7 ∷ put_byte 8 ∷ ask_count ∷ get_byte 9 ∷ get_byte 9 ∷ ask_full ∷ []

near_wrap-Holds : Holds near_wrap []
near_wrap-Holds = record {
  sized = refl;
  head_word = omega arith;
  tail_word = omega arith;
  head_at = refl;
  bounded = omega arith;
  slots = λ i lt. absurd (omega arith);
}

run-near_wrap :
    run near_wrap script
    ≡ taken false 9
      ∷ accepted true
      ∷ accepted true
      ∷ number 2
      ∷ taken true 7
      ∷ taken true 8
      ∷ answer false
      ∷ []
unfolding run put get count full
run-near_wrap = refl

run_refines_example : run near_wrap script ≡ Queue.run [] script
run_refines_example = run_refines script near_wrap-Holds

abbrev blank : Ringbuf
blank = record { buf = replicate 64 0; head = 0; tail = 0 }

-- A byte has been put, and a second is about to be written while the first is about to be read.
abbrev both_sides : (s : System) × Reach blank s
unfolding init
both_sides = (
  _,
  later
      (later
        (later
          (later
            (later
              (later (later (later start (put_load 5 refl)) (put_pass refl refl)) (put_store refl))
              (put_publish refl))
            (put_load 6 refl))
          (put_pass refl refl))
        (get_load refl))
      (get_pass refl (omega arith)),
)

spsc_fifo_example :
    (rest : List ℕ) × (both_sides.0.sent ≡ both_sides.0.received ++ rest) × (length rest ≤ capacity)
unfolding init
spsc_fifo_example = spsc_fifo refl both_sides.1

spsc_no_race_example : slot 1 ≢ slot 0
unfolding init
spsc_no_race_example = spsc_no_race {b = 6} refl both_sides.1 refl refl
