-- ===== src/Examples/Stream/Mirror.antt =====
-- The ring buffer example as the producer and the consumer of the ring buffer, step by step.
use embedded_systems_resourc.Base.{
  ℕ, ◌+◌, ◌%◌, ◌≤◌, ◌<◌, ◌≡◌, refl, sym, ap, ◌∙◌, Bool, true, false, List, [], ◌∷◌, ◌++◌, arith,
  length, length-append, get_or, get_or-append_left, get_or-snoc, set, leb, u8, u32, sub32, dec_lt,
}
use embedded_systems_resourc.Ringbuf.{Ringbuf, capacity, slot, put}
use embedded_systems_resourc.Ringbuf.Spsc
use embedded_systems_resourc.Ringbuf.Spsc.{Producer, Consumer, System}
use embedded_systems_resourc.Ringbuf.Spsc.Inv.{Inv}
use embedded_systems_resourc.Ringbuf.Spsc.Safety.{Reach-Inv}
use embedded_systems_resourc.Examples.Stream.{Main, App, systick, rounds, boot}

-- The same moment of the two sides of the ring buffer, the handler not running.
abbrev pub side : Main → Consumer
side (Main.loaded tail) = Consumer.loaded tail
side (Main.passed tail) = Consumer.passed tail
side (Main.took tail b) = Consumer.took tail b
side _ = Consumer.idle

abbrev pub in_round : Main → Bool
in_round Main.counted = true
in_round (Main.loaded tail) = true
in_round (Main.passed tail) = true
in_round (Main.took tail b) = true
in_round _ = false

abbrev pub system : App → List ℕ → List ℕ → System
system a sent received = record {
  rb = a.rb;
  producer = Producer.idle;
  consumer = side a.main;
  sent = sent;
  received = received;
}

pub record Mirrors (rb : Ringbuf) (a : App) : Type 0 where
  pub sent : List ℕ
  pub received : List ℕ
  pub reach : Spsc.Reach rb (system a sent received)
  pub produced : a.produced ≡ length sent
  pub consumed : a.consumed ≡ length received
  pub pattern_at : (i : ℕ) → i < length sent → get_or sent i 0 ≡ b'A' + i % 26
  pub expected : a.expected ≡ b'A' + a.consumed % 26
  pub errors : a.errors ≡ 0
  pub limit : a.consumed ≤ rounds
  pub in_limit : in_round a.main ≡ true → a.consumed < rounds
  pub high : a.high_water ≤ capacity

pub boot-Mirrors : (rb : Ringbuf) → Mirrors rb (boot rb)
boot-Mirrors rb = record {
  sent = [];
  received = [];
  reach = Spsc.start;
  produced = refl;
  consumed = refl;
  pattern_at = λ i lt. absurd (omega arith);
  expected = refl;
  errors = refl;
  limit = omega arith;
  in_limit = λ e. cc;
  high = omega arith;
}

module _ {rb : Ringbuf} (sized : length rb.buf ≡ capacity) where
  pub mirror-Inv : {a : App} (m : Mirrors rb a) → Inv (system a m.sent m.received)
  mirror-Inv m = Reach-Inv sized m.reach

  -- The handler as the producer's steps, one after the other.
  stores :
      (a : App) {sent received : List ℕ} (b : ℕ)
      → Spsc.Reach rb (system a sent received)
      → leb capacity (sub32 a.rb.head a.rb.tail) ≡ false
      → Spsc.Reach rb (
          system
            (record a {
              rb = record {
                buf = set a.rb.buf (slot a.rb.head) b;
                head = u32 (a.rb.head + 1);
                tail = a.rb.tail;
              };
            })
            (sent ++ (b ∷ []))
            received)
  stores a b r room =
      Spsc.later
        (Spsc.later (Spsc.later (Spsc.later r (Spsc.put_load b refl)) (Spsc.put_pass refl room))
          (Spsc.put_store refl))
        (Spsc.put_publish refl)

  -- The handler's two outcomes.
  pub ticks_on :
      {a : App} (m : Mirrors rb a) (full : Bool)
      → leb capacity (sub32 a.rb.head a.rb.tail) ≡ full
      → Mirrors rb (systick a)
  unfolding systick put
  ticks_on {a} m true e = rw e (record {
    sent = m.sent;
    received = m.received;
    reach = m.reach;
    produced = m.produced;
    consumed = m.consumed;
    pattern_at = m.pattern_at;
    expected = m.expected;
    errors = m.errors;
    limit = m.limit;
    in_limit = m.in_limit;
    high = m.high;
  })
  ticks_on {a} m false e = rw e (record {
    sent = m.sent ++ (b ∷ []);
    received = m.received;
    reach = stores a b m.reach e;
    produced = omega (
      arith,
      m.produced,
      m.consumed,
      m.limit,
      (mirror-Inv m).agrees.bounded,
      length-append m.sent (b ∷ []),
    );
    consumed = m.consumed;
    pattern_at = grows;
    expected = m.expected;
    errors = m.errors;
    limit = m.limit;
    in_limit = m.in_limit;
    high = m.high;
  })
    where
      b : ℕ
      b = u8 (b'A' + a.produced % 26)

      b_at : b ≡ b'A' + length m.sent % 26
      b_at = omega (arith, m.produced)

      grows :
          (i : ℕ)
          → i < length (m.sent ++ (b ∷ []))
          → get_or (m.sent ++ (b ∷ [])) i 0 ≡ b'A' + i % 26
      grows i lt = elim (dec_lt i (length m.sent)) [
        | yes old ↦ get_or-append_left m.sent (b ∷ []) i 0 old ∙ m.pattern_at i old
        | no new ↦
            let last : length m.sent ≡ i = omega (arith, length-append m.sent (b ∷ [])) in
            ap (λ j. get_or (m.sent ++ (b ∷ [])) j 0) (sym last)
            ∙ get_or-snoc m.sent b 0
            ∙ b_at
            ∙ ap (λ j. b'A' + j % 26) last
      ]
