-- ===== src/Examples/Stream/Overrun.antt =====
-- Phase 2 of the ring buffer example: the consumer stalls until the ring buffer overruns.
use embedded_systems_resourc.Base.{
  ℕ, ◌+◌, ◌-◌, ◌^◌, ◌≤◌, ◌<◌, ◌≡◌, refl, sym, subst, arith, length, u32, sub32,
}
use embedded_systems_resourc.Ringbuf.{Ringbuf, capacity, put, count}
use embedded_systems_resourc.Examples.Stream.{
  Main, App, systick, rounds, Step, key, pressed, keys, tick, look, leave, time, wake, measure,
  compare_drops, stop, load, sleep, pass, take, release, Reach, start, later,
}
use embedded_systems_resourc.Examples.Stream.Mirror.{Mirrors, mirror-Inv}
use embedded_systems_resourc.Examples.Stream.Order.{Reach-Mirrors, stream_in_order}
use embedded_systems_resourc.Examples.Stream.Text.{exit_status}

-- The last byte that fits, after the bytes that have been consumed.
abbrev total : ℕ
total = rounds + capacity

-- Where `main` stands, and what that says of the counters.
abbrev Phase : Main → App → Type 0
Phase (Main.noted drops_before) a = a.consumed ≡ rounds
Phase (Main.stalled drops_before t0) a =
    (a.consumed ≡ rounds) × (a.produced < total → rounds + sub32 a.ticks t0 ≤ a.produced)
Phase (Main.awake drops_before) a = (a.consumed ≡ rounds) × (a.produced ≡ total)
Phase (Main.measured drops_before depth) a =
    (a.consumed ≡ rounds) × (a.produced ≡ total) × (depth ≡ capacity)
Phase (Main.reported depth lost) a =
    (a.consumed ≡ rounds) × (a.produced ≡ total) × (depth ≡ capacity)
Phase (Main.finished depth lost) a =
    (a.consumed ≡ rounds) × (a.produced ≡ total) × (depth ≡ capacity)
Phase _ a = Unit {0}

-- Every tick is a byte produced or a byte dropped.
record Tally (a : App) : Type 0 where
  pub sum : a.ticks ≡ u32 (a.produced + a.dropped)
  pub ticks_word : a.ticks < 2 ^ 32
  pub word : a.dropped < 2 ^ 32
  pub phase : Phase a.main a

-- What the ring buffer's indices say of the counters.
record Depth (a : App) : Type 0 where
  pub depth : sub32 a.rb.head a.rb.tail ≡ a.produced - a.consumed
  pub ordered : a.consumed ≤ a.produced
  pub bounded : a.produced ≤ a.consumed + capacity
  pub limit : a.consumed ≤ rounds

Mirrors-Depth : {rb : Ringbuf} {a : App} → length rb.buf ≡ capacity → Mirrors rb a → Depth a
Mirrors-Depth sized m =
    let v = (mirror-Inv sized m).agrees in
    record {
      depth =
          omega
            (arith, v.head_at, v.tail_at, v.ordered, v.bounded, m.produced, m.consumed, m.limit);
      ordered = omega (arith, v.ordered, m.produced, m.consumed);
      bounded = omega (arith, v.bounded, m.produced, m.consumed);
      limit = m.limit;
    }

-- A tick, with and without room.
tick-Phase :
    (a : App) (main : Main) → Depth a → Phase main a → a.ticks < 2 ^ 32 → Phase main (systick a)
unfolding systick put
tick-Phase a (Main.noted drops_before) d p w = ground (arith, d.depth)
tick-Phase a (Main.stalled drops_before t0) d p w =
    ground (arith, d.depth, d.ordered, d.bounded, d.limit)
tick-Phase a (Main.awake drops_before) d p w = ground (arith, d.depth)
tick-Phase a (Main.measured drops_before depth) d p w = ground (arith, d.depth)
tick-Phase a (Main.reported depth lost) d p w = ground (arith, d.depth)
tick-Phase a (Main.finished depth lost) d p w = ground (arith, d.depth)
tick-Phase a Main.top d p w = tt
tick-Phase a Main.counted d p w = tt
tick-Phase a (Main.loaded tail) d p w = tt
tick-Phase a (Main.passed tail) d p w = tt
tick-Phase a (Main.took tail b) d p w = tt

pub systick-main : (a : App) → (systick a).main ≡ a.main
unfolding systick put
systick-main a = ground arith

tick-Tally : (a : App) → Depth a → Tally a → Tally (systick a)
unfolding systick put
tick-Tally a d t = record {
  sum = ground (arith, t.sum, d.bounded, d.limit);
  ticks_word = ground arith;
  word = ground (arith, t.word);
  phase =
      subst (λ main. Phase main (systick a)) (sym (systick-main a))
        (tick-Phase a a.main d t.phase t.ticks_word);
}

-- A step of `main` that ticks nothing.
moved :
    {a : App} (t : Tally a) (main : Main) (high_water : ℕ)
    → Phase main (record a { main = main; high_water = high_water })
    → Tally (record a { main = main; high_water = high_water })
moved t main high_water p = record {
  sum = t.sum;
  ticks_word = t.ticks_word;
  word = t.word;
  phase = p;
}

known_at : {a : App} → Tally a → {main : Main} → a.main ≡ main → Phase main a
known_at {a} t e = subst (λ main. Phase main a) e t.phase

Step-Tally : {a b : App} (st : Step a b) → pressed st ≡ 0 → Depth a → Tally a → Tally b
unfolding count pressed
Step-Tally (key fuel fifo arriving left handled) quiet d t = absurd (omega arith)
Step-Tally {a} (tick on) quiet d t = tick-Tally a d t
Step-Tally {a} (look e h) quiet d t = moved t Main.counted _ tt
Step-Tally {a} (leave e h) quiet d t =
    moved t (Main.noted a.dropped) a.high_water (ground (arith, d.limit))
Step-Tally {a} (time {drops_before} e) quiet d t =
    let p = known_at t e in
    moved t (Main.stalled drops_before a.ticks) a.high_water (p, λ h. omega (arith, d.ordered, p))
Step-Tally {a} (wake {drops_before} {t0} e h) quiet d t =
    let (p, low) = known_at t e in
    moved t (Main.awake drops_before) a.high_water (p, ground (arith, d.bounded, low))
Step-Tally {a} (measure {drops_before} e) quiet d t =
    let (p, q) = known_at t e in
    moved t (Main.measured drops_before (sub32 a.rb.head a.rb.tail)) a.high_water
      (p, q, omega (arith, d.depth))
Step-Tally {a} (compare_drops {drops_before} {depth} e) quiet d t =
    moved t (Main.reported depth (sub32 a.dropped drops_before)) a.high_water (known_at t e)
Step-Tally {a} (stop {depth} {lost} e) quiet d t =
    moved t (Main.finished depth lost) a.high_water (known_at t e)
Step-Tally {a} (load e) quiet d t = moved t (Main.loaded a.rb.tail) a.high_water tt
Step-Tally {a} (sleep e f) quiet d t = moved t Main.top a.high_water tt
Step-Tally {a} (pass {tail} e f) quiet d t = moved t (Main.passed tail) a.high_water tt
Step-Tally {a} (take {tail} e) quiet d t = moved t (Main.took tail _) a.high_water tt
Step-Tally {a} (release {tail} {b} e) quiet d t = record {
  sum = t.sum;
  ticks_word = t.ticks_word;
  word = t.word;
  phase = tt;
}

Reach-Tally :
    {rb : Ringbuf} {a : App} → length rb.buf ≡ capacity → (r : Reach rb a) → keys r ≡ 0 → Tally a
unfolding keys
Reach-Tally sized start quiet = record {
  sum = refl;
  ticks_word = omega arith;
  word = omega arith;
  phase = tt;
}
Reach-Tally sized (later r st) quiet =
    Step-Tally st (omega arith) (Mirrors-Depth sized (Reach-Mirrors sized r (omega arith)))
      (Reach-Tally sized r (omega arith))

-- When `main` has stopped SysTick in a run in which no key is pressed, however the ticks fell: it has
-- measured a full ring buffer, the consumer has had its 260 bytes and the producer has stored those
-- and the 64 that are left; every tick stored a byte or counted a dropped one (32-bit counters); and
-- it exits with 0.
pub overrun_reported :
    {rb : Ringbuf} {a : App} {depth lost : ℕ}
    → length rb.buf ≡ capacity
    → (r : Reach rb a) → keys r ≡ 0
    → a.main ≡ Main.finished depth lost
    → (depth ≡ capacity)
      × (a.consumed ≡ rounds)
      × (a.produced ≡ rounds + capacity)
      × (a.ticks ≡ u32 (rounds + capacity + a.dropped))
      × (exit_status a ≡ 0)
overrun_reported sized r quiet e =
    let t = Reach-Tally sized r quiet in
    let (consumed, produced, full) = known_at t e in
    (full, consumed, produced, omega (arith, t.sum, produced), (stream_in_order sized r quiet).1)
