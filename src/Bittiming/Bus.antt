-- ===== src/Bittiming/Bus.antt =====
-- The bus length that a timing allows.
use embedded_systems_resourc.Base.{
  ℕ, ◌+◌, ◌-◌, ◌*◌, ◌/◌, ◌^◌, ◌≤◌, ◌<◌, ◌≡◌, ◌≢◌, ◌↔◌, some, arith, u32, u64, ltb, leb, ◌==◌, ◌||◌,
  if◌then◌else◌, ap, ◌∙◌,
}
use embedded_systems_resourc.Bittiming.{Timing, max_bus_length}
use native.Mathlib.Nat.{zero-div}

-- Whole nanoseconds of a time quantum, as the code rounds them.
abbrev pub quantum_ns : Timing → ℕ → ℕ
quantum_ns t f_can_hz = (t.brp * 1000000000) / f_can_hz

-- The guards, around the propagation time `prop`.
abbrev guarded : Timing → ℕ → ℕ → ℕ → ℕ
guarded t f_can_hz delay prop =
    if f_can_hz == 0 || t.brp == 0
    then 0
    else if ltb t.tseg1 2
    then 0
    else if leb (prop / 2) delay
    then 0
    else u32 ((prop / 2 - delay) / 5)

module _ (t : Timing) (f_can_hz delay : ℕ) (running : f_can_hz ≢ 0) (word : t.brp < 2 ^ 32)
    (small : (t.tseg1 - 1) * quantum_ns t f_can_hz < 10 * 2 ^ 32) where
  prop : ℕ
  prop = (t.tseg1 - 1) * quantum_ns t f_can_hz

  unwrapped : max_bus_length (some t) f_can_hz delay ≡ guarded t f_can_hz delay prop
  unfolding max_bus_length prop
  unwrapped =
      ap (λ n. guarded t f_can_hz delay (u64 ((t.tseg1 - 1) * (n / f_can_hz)))) brp_word
      ∙ ap (guarded t f_can_hz delay) prop_word
    where
      brp_word : u64 (t.brp * 1000000000) ≡ t.brp * 1000000000
      brp_word = omega arith

      prop_word : u64 prop ≡ prop
      prop_word = omega arith

  no_quanta : t.brp ≡ 0 → prop ≡ 0
  unfolding prop
  no_quanta e =
      ap (λ b. (t.tseg1 - 1) * ((b * 1000000000) / f_can_hz)) e
      ∙ ap (λ n. (t.tseg1 - 1) * n) (zero-div f_can_hz)
      ∙ omega arith

  no_segment : t.tseg1 < 2 → prop ≡ 0
  unfolding prop
  no_segment h = ap (λ n. n * quantum_ns t f_can_hz) zero_quanta ∙ omega arith
    where
      zero_quanta : t.tseg1 - 1 ≡ 0
      zero_quanta = omega arith

  prop_small : prop < 10 * 2 ^ 32
  unfolding prop
  prop_small = small

  reaches :
      (metres : ℕ)
      → 1 ≤ metres
      → metres ≤ guarded t f_can_hz delay prop
      → 2 * (5 * metres + delay) ≤ prop
  reaches metres p h = ground (arith, prop_small)

  reached :
      (metres : ℕ)
      → 1 ≤ metres
      → 2 * (5 * metres + delay) ≤ prop
      → metres ≤ guarded t f_can_hz delay prop
  reached metres p h = ground (arith, prop_small, no_quanta, no_segment)

-- A bus of one metre or more is no longer than `can_max_bus_length_m` says exactly when the signal's
-- way there and back, at 5 ns a metre, and both transceivers' delays fit the quanta of TSEG1 but one,
-- for a clock that runs, when no product leaves its word.
pub max_bus_length-exact :
    (t : Timing) (f_can_hz delay metres : ℕ)
    → f_can_hz ≢ 0
    → t.brp < 2 ^ 32
    → (t.tseg1 - 1) * quantum_ns t f_can_hz < 10 * 2 ^ 32
    → 1 ≤ metres
    → (metres ≤ max_bus_length (some t) f_can_hz delay)
      ↔ (2 * (5 * metres + delay) ≤ (t.tseg1 - 1) * quantum_ns t f_can_hz)
unfolding prop
max_bus_length-exact t f_can_hz delay metres running word small some_way =
    rw (unwrapped t f_can_hz delay running word small) (
      reaches t f_can_hz delay running word small metres some_way,
      reached t f_can_hz delay running word small metres some_way,
    )
