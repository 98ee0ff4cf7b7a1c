-- ===== src/Rtc/Span.antt =====
-- The days of a run of years or months, which the loops of rtc_math.h add up and take off.
use embedded_systems_resourc.Base.{
  ℕ, zero, suc, ◌+◌, ◌-◌, ◌^◌, ◌<◌, ◌≡◌, refl, sym, ap, ap₂, ◌∙◌, some, arith, u32, u64, lt→ltb,
  le→ltb_false, dec_lt, subst,
}
use embedded_systems_resourc.Rtc.{sum_days, take_off}

module _ (days_of : ℕ → ℕ) where
  -- The days of `n` periods from `at` on.
  abbrev pub span : ℕ → ℕ → ℕ
  span zero at = 0
  span (suc n) at = days_of at + span n (suc at)

  pub span_lt : (n more at r : ℕ) → n < more → r < days_of (n + at) → span n at + r < span more at
  span_lt zero zero at r h k = absurd (omega arith)
  span_lt zero (suc more) at r h k = omega (arith, same)
    where
      same : days_of (0 + at) ≡ days_of at
      same = ap days_of (omega arith)
  span_lt (suc n) zero at r h k = absurd (omega arith)
  span_lt (suc n) (suc more) at r h k =
      omega (arith, span_lt n more (suc at) r (omega arith) (subst (λ m. r < days_of m) next k))
    where
      next : suc n + at ≡ n + suc at
      next = omega arith

  pub sum_days-span :
      (n at days : ℕ)
      → n + at < 2 ^ 32
      → days + span n at < 2 ^ 64
      → sum_days days_of n at days ≡ days + span n at
  unfolding sum_days
  sum_days-span zero at days h k = omega arith
  sum_days-span (suc n) at days h k =
      ap₂ (sum_days days_of n) at_word days_word
      ∙ sum_days-span n (suc at) (days + days_of at) (omega arith) (omega arith)
      ∙ omega arith
    where
      at_word : u32 (at + 1) ≡ suc at
      at_word = omega arith

      days_word : u64 (days + days_of at) ≡ days + days_of at
      days_word = omega arith

  stops_here :
      (fuel at days : ℕ) → days < days_of at → take_off days_of (suc fuel) at days ≡ some (at, days)
  unfolding take_off
  stops_here fuel at days h = rw (take_off, lt→ltb days (days_of at) h) refl

  goes_over :
      (fuel at rest : ℕ)
      → at + 1 < 2 ^ 32
      → days_of at + rest < 2 ^ 64
      → take_off days_of (suc fuel) at (days_of at + rest) ≡ take_off days_of fuel (suc at) rest
  unfolding take_off
  goes_over fuel at rest h k =
      rw (take_off, le→ltb_false (days_of at + rest) (days_of at) (omega arith))
        (ap₂ (take_off days_of fuel) at_word rest_word)
    where
      at_word : u32 (at + 1) ≡ suc at
      at_word = omega arith

      rest_word : u64 (days_of at + rest + 2 ^ 64 - days_of at) ≡ rest
      rest_word = omega arith

  -- What is taken off is what was added up.
  pub take_off-span :
      (fuel n at r : ℕ)
      → n < fuel
      → n + at < 2 ^ 32
      → span n at + r < 2 ^ 64
      → r < days_of (n + at)
      → take_off days_of fuel at (span n at + r) ≡ some (n + at, r)
  take_off-span zero n at r p h k l = absurd (omega arith)
  take_off-span (suc fuel) zero at r p h k l =
      ap (take_off days_of (suc fuel) at) all
      ∙ stops_here fuel at r (subst (λ m. r < days_of m) here l)
      ∙ ap (λ m. some (m, r)) (sym here)
    where
      all : 0 + r ≡ r
      all = omega arith

      here : 0 + at ≡ at
      here = omega arith
  take_off-span (suc fuel) (suc n) at r p h k l =
      ap (take_off days_of (suc fuel) at) apart
      ∙ goes_over fuel at (span n (suc at) + r) (omega arith) (omega arith)
      ∙ take_off-span fuel n (suc at) r (omega arith) (omega arith) (omega arith)
          (subst (λ m. r < days_of m) next l)
      ∙ ap (λ m. some (m, r)) (sym next)
    where
      apart : days_of at + span n (suc at) + r ≡ days_of at + (span n (suc at) + r)
      apart = omega arith

      next : suc n + at ≡ n + suc at
      next = omega arith

  -- Days that fit `n` periods end within one of them.
  pub ends_within :
      (n at days : ℕ)
      → days < span n at
      → (m : ℕ) × (r : ℕ) × (m < n) × (r < days_of (m + at)) × (days ≡ span m at + r)
  ends_within zero at days h = absurd (omega arith)
  ends_within (suc n) at days h = elim (dec_lt days (days_of at)) [
    | yes first ↦ (0, days, omega arith, subst (λ m. days < days_of m) here first, omega arith)
    | no later ↦
        let (m, r, p, q, e) = ends_within n (suc at) (days - days_of at) (omega arith) in
        (suc m, r, omega arith, subst (λ k. r < days_of k) (next m) q, omega arith)
  ]
    where
      here : at ≡ 0 + at
      here = omega arith

      next : (m : ℕ) → m + suc at ≡ suc m + at
      next m = omega arith
