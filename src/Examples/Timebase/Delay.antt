-- ===== src/Examples/Timebase/Delay.antt =====
-- The ticks and sleeps that `delay_ticks` lasts.
use embedded_systems_resourc.Base.{
  ℕ, zero, suc, ◌+◌, ◌^◌, ◌≤◌, ◌<◌, ◌≡◌, refl, sym, ap, ap₂, subst, ◌∙◌, Option, some, arith, u32,
  sub32, dec_lt, lt→ltb, le→ltb_false,
}
use embedded_systems_resourc.Examples.Timebase.{interrupts, poll, delay_ticks}

-- The interrupts during `m` sleeps from the sleep `k` on.
abbrev pub during : (ℕ → ℕ) → ℕ → ℕ → ℕ
during naps k zero = 0
during naps k (suc m) = during naps k m + naps (k + m)

interrupts_lem : (n g : ℕ) → g < 2 ^ 32 → interrupts n g ≡ u32 (g + n)
unfolding interrupts
interrupts_lem zero g h = omega arith
interrupts_lem (suc n) g h = interrupts_lem n (u32 (g + 1)) (omega arith) ∙ omega arith

module _ (naps : ℕ → ℕ) (n : ℕ) (live : (k : ℕ) → (1 ≤ naps k) × (naps k + n ≤ 2 ^ 32)) where
  -- The delay ended after `m` more sleeps.
  record Woke (start first : ℕ) (r : Option (ℕ × ℕ)) : Type 0 where
    pub sleeps : ℕ
    pub ended : r ≡ some (u32 (start + during naps first sleeps), first + sleeps)
    pub enough : n ≤ during naps first sleeps
    pub not_before : (m : ℕ) → m < sleeps → during naps first m < n

  still :
      (first m : ℕ)
      → ((j : ℕ) → j < m → during naps first j < n)
      → during naps first m < n
      → (j : ℕ) → j < suc m
      → during naps first j < n
  still first m before short j h = elim (dec_lt j m) [
    | yes early ↦ before j early
    | no late ↦ let same : m ≡ j = omega arith in subst (λ i. during naps first i < n) same short
  ]

  stopped :
      (fuel start first m : ℕ)
      → start < 2 ^ 32
      → n ≤ during naps first m
      → ((j : ℕ) → j < m → during naps first j < n)
      → during naps first m < 2 ^ 32
      → Woke start first
          (poll naps (suc fuel) start n (u32 (start + during naps first m)) (first + m))
  unfolding poll
  stopped fuel start first m hs long before small = record {
    sleeps = m;
    ended =
        rw (poll, le→ltb_false (sub32 (u32 (start + during naps first m)) start) n (omega arith))
          refl;
    enough = long;
    not_before = before;
  }

  -- One more sleep.
  slept_on :
      (fuel start first m : ℕ)
      → start < 2 ^ 32
      → during naps first m < n
      → during naps first m < 2 ^ 32
      → poll naps (suc fuel) start n (u32 (start + during naps first m)) (first + m)
        ≡ poll naps fuel start n (u32 (start + during naps first (suc m))) (first + suc m)
  unfolding poll
  slept_on fuel start first m hs short small =
      rw (poll, lt→ltb (sub32 (u32 (start + during naps first m)) start) n (omega arith))
        (ap₂ (poll naps fuel start n)
          (interrupts_lem (naps (first + m)) (u32 (start + during naps first m)) (omega arith)
            ∙ omega arith)
          (omega arith))

  poll_lem :
      (fuel start first m : ℕ)
      → start < 2 ^ 32
      → n ≤ fuel + during naps first m
      → ((j : ℕ) → j < m → during naps first j < n)
      → during naps first m < 2 ^ 32
      → Woke start first
          (poll naps (suc fuel) start n (u32 (start + during naps first m)) (first + m))
  poll_lem zero start first m hs hf before small =
      stopped 0 start first m hs (omega arith) before small
  poll_lem (suc fuel) start first m hs hf before small = elim (dec_lt (during naps first m) n) [
    | no long ↦ stopped (suc fuel) start first m hs (omega arith) before small
    | yes short ↦
        let (some_tick, few) = live (first + m) in
        subst (Woke start first) (sym (slept_on (suc fuel) start first m hs short small)) (
          poll_lem fuel start first (suc m) hs (omega arith) (still first m before short)
            (omega arith))
  ]

-- `delay_ticks` ends when each sleep lasts at least one tick and less than a round of the counter: at
-- the first poll at which `n` ticks have passed since the call, with the counter advanced by the
-- ticks of the sleeps, also when it wraps on the way.
pub delay_ticks-elapsed :
    (naps : ℕ → ℕ) (n g_ticks slept : ℕ)
    → ((k : ℕ) → (1 ≤ naps k) × (naps k + n ≤ 2 ^ 32))
    → g_ticks < 2 ^ 32
    → (m : ℕ) × (delay_ticks naps n g_ticks slept
        ≡ some (u32 (g_ticks + during naps slept m), slept + m))
      × (n ≤ during naps slept m)
      × ((j : ℕ) → j < m → during naps slept j < n)
unfolding delay_ticks
delay_ticks-elapsed naps n g_ticks slept live h =
    let woke =
      poll_lem naps n live n g_ticks slept 0 h (omega arith) (λ j p. absurd (omega arith))
        (omega arith) in
    (woke.sleeps, begins ∙ woke.ended, woke.enough, woke.not_before)
  where
    begins :
        poll naps (n + 1) g_ticks n g_ticks slept
        ≡ poll naps (suc n) g_ticks n (u32 (g_ticks + during naps slept 0)) (slept + 0)
    begins =
        ap (λ fuel. poll naps fuel g_ticks n g_ticks slept) more
        ∙ ap₂ (poll naps (suc n) g_ticks n) (omega arith) (omega arith)
      where
        more : n + 1 ≡ suc n
        more = omega arith
