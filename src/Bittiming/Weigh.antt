-- ===== src/Bittiming/Weigh.antt =====
-- One split of the bit into segments, as `can_solve_bittiming` weighs it.
use embedded_systems_resourc.Base.{
  ℕ, ◌+◌, ◌-◌, ◌*◌, ◌/◌, ◌≤◌, ◌<◌, ◌≡◌, refl, sym, ap, ap₂, subst, ◌∙◌, inl, inr, Bool, true, false,
  ◌||◌, ltb, if◌then◌else◌, u32, sub32, arith, min, max, Bool-cases, ℕ_discrete, dec_lt,
}
use embedded_systems_resourc.Bittiming.{
  Limits, Timing, Search, abs_diff, jump_width, sample_point, timing_of, better, weigh,
}
use native.Mathlib.Nat.{mul-le-mul_right, div-eq_of_eq-mul_left, div-le_of_le-mul}
use embedded_systems_resourc.Bittiming.Rank.{
  Fits, sp_err, AtLeast, nearer, longer, AtLeast-refl, Exact, NoWrap, Kept, best, At,
}

module _ {f_can_hz bitrate_hz target : ℕ} {lim : Limits} {brp total_tq tseg1 : ℕ}
    (k : NoWrap f_can_hz bitrate_hz target lim) (a : At f_can_hz bitrate_hz lim brp total_tq tseg1)
    (high : tseg1 ≤ lim.tseg1_max) (inside : 1 + tseg1 < total_tq) where
  abbrev pub tseg2 : ℕ
  tseg2 = total_tq - 1 - tseg1

  abbrev pub candidate : Timing
  candidate = timing_of f_can_hz lim brp total_tq tseg1

  pub tseg2_word : sub32 (sub32 total_tq 1) tseg1 ≡ tseg2
  tseg2_word = omega (arith, k.tq_end, a.tq_high)

  sample_exact : sample_point total_tq tseg1 ≡ ((1 + tseg1) * 1000) / total_tq
  sample_exact = ap (λ n. n / total_tq) words
    where
      words : u32 (u32 (1 + tseg1) * 1000) ≡ (1 + tseg1) * 1000
      words = omega (arith, k.tq_end, a.tq_high)

  sample_small : ((1 + tseg1) * 1000) / total_tq ≤ 1000
  sample_small = div-le_of_le-mul total_tq (omega arith)

  err_exact : abs_diff (sample_point total_tq tseg1) target ≡ sp_err target total_tq tseg1
  err_exact =
      ap (λ sp. abs_diff sp target) sample_exact ∙ ground (arith, sample_small, k.target_word)

  -- What one bit at this rate takes, without a wrap.
  bit_exact : f_can_hz ≡ bitrate_hz * (brp * total_tq)
  bit_exact = omega (arith, a.exact)

  bit_word : u32 (brp * total_tq) ≡ brp * total_tq
  bit_word = omega (arith, bit_exact, k.clock, mul-le-mul_right (brp * total_tq) some_rate)
    where
      some_rate : 1 ≤ bitrate_hz
      some_rate = omega (arith, k.bitrate_some)

  rate_exact : f_can_hz / u32 (brp * total_tq) ≡ bitrate_hz
  rate_exact =
      ap (λ n. f_can_hz / n) bit_word
      ∙ div-eq_of_eq-mul_left
          (elim (ℕ_discrete (brp * total_tq) 0) [
            | yes e ↦ absurd (k.clock_some (bit_exact ∙ ap (λ n. bitrate_hz * n) e ∙ omega arith))
            | no ne ↦ omega arith
          ])
          bit_exact

  fits :
      lim.tseg2_min ≤ tseg2 → tseg2 ≤ lim.tseg2_max → Fits f_can_hz bitrate_hz lim brp tseg1 tseg2
  fits low top = record {
    brp_low = a.brp_low;
    brp_high = a.brp_high;
    tseg1_low = a.tseg1_low;
    tseg1_high = high;
    tseg2_low = low;
    tseg2_high = top;
    tseg2_some = omega arith;
    tq_low = omega (arith, a.tq_low);
    tq_high = omega (arith, a.tq_high);
    exact = ap (λ n. brp * bitrate_hz * n) whole ∙ a.exact;
  }
    where
      whole : 1 + tseg1 + tseg2 ≡ total_tq
      whole = omega arith

  jump_exact : jump_width lim.sjw_max tseg1 tseg2 ≡ max 1 (min tseg1 (min tseg2 lim.sjw_max))
  jump_exact = ground arith

  candidate-Exact :
      lim.tseg2_min ≤ tseg2 → tseg2 ≤ lim.tseg2_max → Exact f_can_hz bitrate_hz lim candidate
  candidate-Exact low top = record {
    fits = subst (Fits f_can_hz bitrate_hz lim brp tseg1) (sym tseg2_word) (fits low top);
    total = omega (arith, tseg2_word);
    rate = rate_exact;
    sample = sample_exact;
    jump =
        ap (jump_width lim.sjw_max tseg1) tseg2_word
        ∙ jump_exact
        ∙ ap (λ n. max 1 (min tseg1 (min n lim.sjw_max))) (sym tseg2_word);
    error = refl;
  }

  abbrev pub taken_at : ℕ → Search
  taken_at err = record { found = true; best_sp_err = err; best_tq = total_tq; out = candidate }

  -- The three ways through the body.
  pub data Weighed (s s' : Search) : Type 0 where
    outside : (lim.tseg2_min ≤ tseg2 → tseg2 ≤ lim.tseg2_max → ⊥) → s' ≡ s → Weighed s s'
    worse :
        AtLeast s.best_sp_err s.best_tq (sp_err target total_tq tseg1) total_tq
        → s' ≡ s
        → Weighed s s'
    taken :
        lim.tseg2_min ≤ tseg2
        → tseg2 ≤ lim.tseg2_max
        → AtLeast (sp_err target total_tq tseg1) total_tq s.best_sp_err s.best_tq
        → s' ≡ taken_at (sp_err target total_tq tseg1)
        → Weighed s s'

  range_test :
      (b : Bool)
      → (ltb (sub32 (sub32 total_tq 1) tseg1) lim.tseg2_min
          || ltb lim.tseg2_max (sub32 (sub32 total_tq 1) tseg1))
        ≡ b
      → (ltb tseg2 lim.tseg2_min || ltb lim.tseg2_max tseg2) ≡ b
  range_test b h = ap (λ n. ltb n lim.tseg2_min || ltb lim.tseg2_max n) (sym tseg2_word) ∙ h

  better→AtLeast :
      (err : ℕ) (s : Search)
      → better err total_tq s ≡ true
      → AtLeast err total_tq s.best_sp_err s.best_tq
  better→AtLeast err s h = elim (dec_lt err s.best_sp_err) [
    | yes lt ↦ nearer lt
    | no ge ↦ longer (ground arith) (ground arith)
  ]

  not_better→AtLeast :
      (err : ℕ) (s : Search)
      → better err total_tq s ≡ false
      → AtLeast s.best_sp_err s.best_tq err total_tq
  not_better→AtLeast err s h = elim (dec_lt s.best_sp_err err) [
    | yes lt ↦ nearer lt
    | no ge ↦ longer (ground arith) (ground arith)
  ]

  pub weigh-Weighed :
      (s : Search) → Weighed s (weigh f_can_hz bitrate_hz target lim brp total_tq tseg1 s)
  unfolding weigh
  weigh-Weighed s =
      let err = abs_diff (sample_point total_tq tseg1) target in
      let t2 = sub32 (sub32 total_tq 1) tseg1 in
      elim (Bool-cases (ltb t2 lim.tseg2_min || ltb lim.tseg2_max t2)) [
        | inl out ↦
            outside (λ low top. ground (arith, range_test true out))
              (ap (λ b. if b then s else if better err total_tq s then taken_at err else s) out)
        | inr inner ↦ elim (Bool-cases (better err total_tq s)) [
          | inl wins ↦
              taken (ground (arith, range_test false inner))
                (ground (arith, range_test false inner))
                (subst (λ e. AtLeast e total_tq s.best_sp_err s.best_tq) err_exact
                  (better→AtLeast err s wins))
                (ap₂ (λ b c. if b then s else if c then taken_at err else s) inner wins
                  ∙ ap taken_at err_exact)
          | inr loses ↦
              worse
                (subst (λ e. AtLeast s.best_sp_err s.best_tq e total_tq) err_exact
                  (not_better→AtLeast err s loses))
                (ap₂ (λ b c. if b then s else if c then taken_at err else s) inner loses)
        ]
      ]

  -- The body keeps what holds of the search, never loses rank, and ranks at least as high as the split.
  pub Weighed-Kept :
      {out : Timing} {s s' : Search}
      → Weighed s s'
      → Kept f_can_hz bitrate_hz target lim out s
      → Kept f_can_hz bitrate_hz target lim out s'
  Weighed-Kept {out = out} (outside no_fit e) kept =
      subst (Kept f_can_hz bitrate_hz target lim out) (sym e) kept
  Weighed-Kept {out = out} (worse r e) kept =
      subst (Kept f_can_hz bitrate_hz target lim out) (sym e) kept
  Weighed-Kept {out = out} (taken low top r e) kept =
      subst (Kept f_can_hz bitrate_hz target lim out) (sym e)
        (best refl (candidate-Exact low top) refl refl)

  pub Weighed-AtLeast :
      {s s' : Search} → Weighed s s' → AtLeast s'.best_sp_err s'.best_tq s.best_sp_err s.best_tq
  Weighed-AtLeast {s} (outside no_fit e) = rw e (AtLeast-refl s.best_sp_err s.best_tq)
  Weighed-AtLeast {s} (worse r e) = rw e (AtLeast-refl s.best_sp_err s.best_tq)
  Weighed-AtLeast (taken low top r e) = rw e r

  pub Weighed-seen :
      {s s' : Search}
      → Weighed s s'
      → lim.tseg2_min ≤ tseg2
      → tseg2 ≤ lim.tseg2_max
      → AtLeast s'.best_sp_err s'.best_tq (sp_err target total_tq tseg1) total_tq
  Weighed-seen (outside no_fit e) low top = absurd (no_fit low top)
  Weighed-seen (worse r e) low top = rw e r
  Weighed-seen (taken low' top' r e) low top =
      rw e (AtLeast-refl (sp_err target total_tq tseg1) total_tq)
