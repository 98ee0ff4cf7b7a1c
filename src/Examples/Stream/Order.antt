-- ===== src/Examples/Stream/Order.antt =====
-- The order in which the main loop of the ring buffer example sees the bytes.
use embedded_systems_resourc.Base.{
  ℕ, ◌≤◌, ◌<◌, ◌≡◌, refl, ap, subst, ◌∙◌, true, [], ◌∷◌, ◌++◌, arith, length, length-append, ltb→lt,
  get_or, leb, sub32,
}
use embedded_systems_resourc.Ringbuf.{Ringbuf, capacity, slot, count}
use embedded_systems_resourc.Ringbuf.Spsc
use embedded_systems_resourc.Ringbuf.Spsc.{Producer, Consumer, System}
use embedded_systems_resourc.Ringbuf.Spsc.Safety.{Reach-Inv}
use embedded_systems_resourc.Examples.Stream.{
  Main, App, rounds, Step, key, pressed, keys, tick, look, leave, time, wake, measure,
  compare_drops, stop, load, sleep, pass, take, release, Reach, start, later,
}
use embedded_systems_resourc.Examples.Stream.Text.{exit_status}
use embedded_systems_resourc.Base.{◌==◌, if◌then◌else◌}
use embedded_systems_resourc.Examples.Stream.Mirror.{
  in_round, system, Mirrors, boot-Mirrors, mirror-Inv, ticks_on,
}

module _ {rb : Ringbuf} (sized : length rb.buf ≡ capacity) where
  -- A step of the main loop that changes only where it stands and the high-water mark.
  moves :
      {a : App} (m : Mirrors rb a) (main : Main) (high_water : ℕ)
      → Spsc.Reach rb (system (record a { main = main; high_water = high_water }) m.sent m.received)
      → (in_round main ≡ true → a.consumed < rounds)
      → high_water ≤ capacity
      → Mirrors rb (record a { main = main; high_water = high_water })
  moves m main high_water r within high = record {
    sent = m.sent;
    received = m.received;
    reach = r;
    produced = m.produced;
    consumed = m.consumed;
    pattern_at = m.pattern_at;
    expected = m.expected;
    errors = m.errors;
    limit = m.limit;
    in_limit = within;
    high = high;
  }

  -- The two sides, the consumer where the main loop is known to stand.
  reach_at :
      {a : App} (m : Mirrors rb a) {main : Main}
      → a.main ≡ main
      → Spsc.Reach rb (system (record a { main = main }) m.sent m.received)
  reach_at {a} m e =
      subst (λ c. Spsc.Reach rb (system (record a { main = c }) m.sent m.received)) e m.reach

  count_bounded : {a : App} → Mirrors rb a → count a.rb ≤ capacity
  unfolding count
  count_bounded m =
      let v = (mirror-Inv sized m).agrees in
      omega (arith, v.head_at, v.tail_at, v.ordered, v.bounded)

  running :
      {a : App} (m : Mirrors rb a) {main : Main}
      → a.main ≡ main
      → in_round main ≡ true
      → a.consumed < rounds
  running m e within = m.in_limit (ap in_round e ∙ within)

  taken_byte :
      {a : App} (m : Mirrors rb a) {tail b : ℕ}
      → a.main ≡ Main.took tail b
      → (tail ≡ a.rb.tail)
        × (length m.received < length m.sent)
        × (b ≡ get_or m.sent (length m.received) 0)
  taken_byte m e = (Reach-Inv sized (reach_at m e)).consumer

  Step-Mirrors : {a c : App} (st : Step a c) → pressed st ≡ 0 → Mirrors rb a → Mirrors rb c
  unfolding pressed
  Step-Mirrors (key fuel fifo arriving left handled) quiet m = absurd (omega arith)
  Step-Mirrors {a} (tick on) quiet m =
      ticks_on sized m (leb capacity (sub32 a.rb.head a.rb.tail)) refl
  Step-Mirrors {a} (look e h) quiet m =
      moves m Main.counted _ (reach_at m e) (λ x. ltb→lt a.consumed rounds h)
        (ground (arith, count_bounded m, m.high))
  Step-Mirrors {a} (leave e h) quiet m =
      moves m (Main.noted a.dropped) a.high_water (reach_at m e) (λ x. absurd cc) m.high
  Step-Mirrors {a} (time {drops_before} e) quiet m =
      moves m (Main.stalled drops_before a.ticks) a.high_water (reach_at m e) (λ x. absurd cc)
        m.high
  Step-Mirrors {a} (wake {drops_before} e h) quiet m =
      moves m (Main.awake drops_before) a.high_water (reach_at m e) (λ x. absurd cc) m.high
  Step-Mirrors {a} (measure {drops_before} e) quiet m =
      moves m (Main.measured drops_before (count a.rb)) a.high_water (reach_at m e) (λ x. absurd cc)
        m.high
  Step-Mirrors {a} (compare_drops {drops_before} {depth} e) quiet m =
      moves m (Main.reported depth (sub32 a.dropped drops_before)) a.high_water (reach_at m e)
        (λ x. absurd cc) m.high
  Step-Mirrors {a} (stop {depth} {lost} e) quiet m =
      moves m (Main.finished depth lost) a.high_water (reach_at m e) (λ x. absurd cc) m.high
  Step-Mirrors {a} (load e) quiet m =
      moves m (Main.loaded a.rb.tail) a.high_water (Spsc.later (reach_at m e) (Spsc.get_load refl))
        (λ x. running m e refl) m.high
  Step-Mirrors {a} (sleep e f) quiet m =
      moves m Main.top a.high_water (Spsc.later (reach_at m e) (Spsc.get_empty refl f))
        (λ x. absurd cc) m.high
  Step-Mirrors {a} (pass {tail} e f) quiet m =
      moves m (Main.passed tail) a.high_water (Spsc.later (reach_at m e) (Spsc.get_pass refl f))
        (λ x. running m e refl) m.high
  Step-Mirrors {a} (take {tail} e) quiet m =
      moves m (Main.took tail (get_or a.rb.buf (slot tail) 0)) a.high_water
        (Spsc.later (reach_at m e) (Spsc.get_take refl)) (λ x. running m e refl) m.high
  Step-Mirrors {a} (release {tail} {b} e) quiet m = record {
    sent = m.sent;
    received = m.received ++ (b ∷ []);
    reach = Spsc.later (reach_at m e) (Spsc.get_release refl);
    produced = m.produced;
    consumed = omega (arith, m.consumed, running m e refl, length-append m.received (b ∷ []));
    pattern_at = m.pattern_at;
    expected = omega (arith, running m e refl);
    errors = ground (arith, m.errors, same);
    limit = omega (arith, running m e refl);
    in_limit = λ x. absurd cc;
    high = m.high;
  }
    where
      same : b ≡ a.expected
      same =
          (taken_byte m e).2
          ∙ m.pattern_at (length m.received) (taken_byte m e).1
          ∙ omega (arith, m.expected, m.consumed)

  pub Reach-Mirrors : {a : App} (r : Reach rb a) → keys r ≡ 0 → Mirrors rb a
  unfolding keys
  Reach-Mirrors start quiet = boot-Mirrors rb
  Reach-Mirrors (later r st) quiet = Step-Mirrors st (omega arith) (Reach-Mirrors r (omega arith))

-- In a run in which no key is pressed, wherever SysTick preempts the main loop, and however often, the
-- consumer has never seen a byte out of sequence: `errors` is 0, so that `main` would exit with 0. It
-- consumes no more than its 260 bytes, and `high_water` is at most the capacity.
pub stream_in_order :
    {rb : Ringbuf} {a : App}
    → length rb.buf ≡ capacity
    → (r : Reach rb a) → keys r ≡ 0
    → (a.errors ≡ 0) × (exit_status a ≡ 0) × (a.consumed ≤ rounds) × (a.high_water ≤ capacity)
unfolding exit_status
stream_in_order sized r quiet =
    let m = Reach-Mirrors sized r quiet in
    (m.errors, ap (λ e. if e == 0 then 0 else 1) m.errors, m.limit, m.high)
