-- ===== src/Examples/Stream/Finish.antt =====
-- A run of the ring buffer example to its end: the consumer keeps up with SysTick until it stalls.
use embedded_systems_resourc.Base.{
  ℕ, zero, suc, ◌+◌, ◌%◌, ◌^◌, ◌≤◌, ◌<◌, ◌≡◌, refl, ap, subst, ◌∙◌, arith, u8, u32, set,
}
use embedded_systems_resourc.Ringbuf.{Ringbuf, slot, put, init}
use embedded_systems_resourc.Examples.Stream.{
  Main, App, systick, rounds, stall, ticking, tick, look, leave, time, wake, measure, compare_drops,
  stop, load, pass, take, release, Reach, start, later, keys, pressed,
}
use embedded_systems_resourc.Examples.Stream.Overrun.{systick-main}

-- At the top of the loop, with nothing to consume.
record Idle (n : ℕ) (a : App) : Type 0 where
  top : a.main ≡ Main.top
  consumed : a.consumed ≡ n
  drained : a.rb.head ≡ a.rb.tail
  word : a.ticks < 2 ^ 32

-- The handler where there is room.
abbrev stored : App → App
stored a = record a {
  ticks = u32 (a.ticks + 1);
  rb = record a.rb {
    buf = set a.rb.buf (slot a.rb.head) (u8 (b'A' + a.produced % 26));
    head = u32 (a.rb.head + 1);
  };
  produced = u32 (a.produced + 1);
}

systick-stored : (a : App) → a.rb.head ≡ a.rb.tail → systick a ≡ stored a
unfolding systick put
systick-stored a e = ground arith

-- A byte comes, and the loop consumes it.
one_round :
    {rb : Ringbuf} (n : ℕ) (a : App)
    → (r : Reach rb a) → Idle n a
    → n < rounds
    → keys r ≡ 0
    → (b : App) × (r' : Reach rb b) × (keys r' ≡ 0) × Idle (n + 1) b
unfolding keys pressed
one_round {rb} n a r i h quiet =
    let on = ap ticking i.top in
    let (r1, quiet1) : (r1 : Reach rb (stored a)) × (keys r1 ≡ 0) =
      subst (λ c. (r1 : Reach rb c) × (keys r1 ≡ 0)) (systick-stored a i.drained)
        (later r (tick on), omega (arith, quiet)) in
    let r2 = later r1 (look i.top (ground (arith, i.consumed))) in
    let r3 = later r2 (load refl) in
    let r4 = later r3 (pass refl (ground (arith, i.drained))) in
    let r5 = later r4 (take refl) in
    let r6 = later r5 (release refl) in
    (
      _,
      r6,
      omega (arith, quiet1),
      record {
        top = refl;
        consumed = omega (arith, i.consumed);
        drained = ap (λ x. u32 (x + 1)) i.drained;
        word = omega arith;
      },
    )

keeps_up :
    (rb : Ringbuf) (n : ℕ) → n ≤ rounds → (a : App) × (r : Reach rb a) × (keys r ≡ 0) × Idle n a
unfolding init keys
keeps_up rb zero h =
    (_, start, refl, record { top = refl; consumed = refl; drained = refl; word = omega arith })
keeps_up rb (suc n) h =
    let (a, r, quiet, i) = keeps_up rb n (omega arith) in
    let (b, r', quiet', i') = one_round n a r i (omega arith) quiet in
    (
      b,
      r',
      quiet',
      record {
        top = i'.top;
        consumed = i'.consumed ∙ omega arith;
        drained = i'.drained;
        word = i'.word;
      },
    )

systick-ticks : (a : App) → (systick a).ticks ≡ u32 (a.ticks + 1)
unfolding systick put
systick-ticks a = ground arith

-- Ticks while the consumer stalls.
stalls :
    {rb : Ringbuf} {drops_before t0 : ℕ} (n : ℕ) (a : App)
    → (r : Reach rb a) → keys r ≡ 0
    → a.main ≡ Main.stalled drops_before t0
    → a.ticks ≡ u32 (t0 + 0)
    → (b : App) × (r' : Reach rb b) × (keys r' ≡ 0)
      × (b.main ≡ Main.stalled drops_before t0)
      × (b.ticks ≡ u32 (t0 + n))
unfolding keys pressed
stalls zero a r quiet e t = (a, r, quiet, e, t)
stalls {rb} {drops_before} {t0} (suc n) a r quiet e t =
    let (b, r', quiet', e', t') = stalls n a r quiet e t in
    (
      systick b,
      later r' (tick (ap ticking e')),
      omega (arith, quiet'),
      systick-main b ∙ e',
      systick-ticks b ∙ omega (arith, t'),
    )

-- Some run of the example without a key ends, whatever the ring buffer held before `rb_init`.
pub finishes :
    (rb : Ringbuf)
    → (a : App) × (depth : ℕ) × (lost : ℕ) × (r : Reach rb a) × (keys r ≡ 0)
      × (a.main ≡ Main.finished depth lost)
unfolding keys pressed
finishes rb =
    let (a, r, quiet, i) = keeps_up rb rounds (omega arith) in
    let r1 = later r (leave i.top (ground (arith, i.consumed))) in
    let r2 = later r1 (time refl) in
    let (b, r3, quiet3, e, t) =
      stalls stall _ r2 (omega (arith, quiet)) refl (omega (arith, i.word)) in
    let r4 = later r3 (wake e (ground (arith, t))) in
    let r5 = later r4 (measure refl) in
    let r6 = later r5 (compare_drops refl) in
    (_, _, _, later r6 (stop refl), omega (arith, quiet3), refl)
