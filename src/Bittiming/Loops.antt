-- ===== src/Bittiming/Loops.antt =====
-- The outer loop of `can_solve_bittiming`, over the prescalers.
use embedded_systems_resourc.Base.{
  ℕ, zero, suc, ◌+◌, ◌*◌, ◌/◌, ◌%◌, ◌≤◌, ◌<◌, ◌≡◌, refl, sym, ap, ◌∙◌, ◌≢◌, inl, inr, ◌||◌, Option,
  some, ltb, ◌==◌, ◌!=◌, u32, arith, Bool-cases, dec_le, subst, le→leb, lt→leb_false, ℕ_discrete,
}
use embedded_systems_resourc.Bittiming.{Limits, Timing, Search, at_brp, brp_loop}
use embedded_systems_resourc.Bittiming.Rank.{Fits, AtLeast-trans, NoWrap, Kept, At}
use native.Mathlib.Nat.{mul-le-mul_right, mul-div_cancel_left, mul-mod_right, div-add-mod}
use embedded_systems_resourc.Bittiming.Sweep.{Swept, widen, stay}
use embedded_systems_resourc.Bittiming.Splits.{split-Swept}

-- An exact division.
divides : (d n m : ℕ) → d * n ≡ m → m ≢ 0 → (d ≢ 0) × (m % d ≡ 0) × (m / d ≡ n)
divides d n m e ne = (
  some_d,
  ap (λ x. x % d) (sym e) ∙ mul-mod_right d n,
  ap (λ x. x / d) (sym e) ∙ mul-div_cancel_left n (omega (arith, some_d)),
)
  where
    some_d : d ≢ 0
    some_d z = ne (sym e ∙ ap (λ x. x * n) z ∙ omega arith)

module _ {f_can_hz bitrate_hz target : ℕ} {lim : Limits} (k : NoWrap f_can_hz bitrate_hz target lim)
    (out : Timing) where
  -- Prescalers from `from` on.
  pub record FromBrp (from : ℕ) (brp t1 t2 : ℕ) : Type 0 where
    pub from_on : from ≤ brp

  record OneBrp (here : ℕ) (brp t1 t2 : ℕ) : Type 0 where
    pub same : brp ≡ here

  -- A divisor that fits divides the clock exactly.
  module _ {brp : ℕ} (low : lim.brp_min ≤ brp) (high : brp ≤ lim.brp_max) where
    divisor_word : u32 (brp * bitrate_hz) ≡ brp * bitrate_hz
    divisor_word = omega (arith, k.product, mul-le-mul_right bitrate_hz high)

    Fits-divides :
        {t1 t2 : ℕ}
        → Fits f_can_hz bitrate_hz lim brp t1 t2
        → (u32 (brp * bitrate_hz) ≢ 0)
          × (f_can_hz % u32 (brp * bitrate_hz) ≡ 0)
          × (f_can_hz / u32 (brp * bitrate_hz) ≡ 1 + t1 + t2)
    Fits-divides {t1} {t2} f =
        subst (λ d. (d ≢ 0) × (f_can_hz % d ≡ 0) × (f_can_hz / d ≡ 1 + t1 + t2)) (sym divisor_word)
          (divides (brp * bitrate_hz) (1 + t1 + t2) f_can_hz f.exact k.clock_some)

    Fits-divides_at :
        {b t1 t2 : ℕ}
        → b ≡ brp
        → Fits f_can_hz bitrate_hz lim b t1 t2
        → (u32 (brp * bitrate_hz) ≢ 0)
          × (f_can_hz % u32 (brp * bitrate_hz) ≡ 0)
          × (f_can_hz / u32 (brp * bitrate_hz) ≡ 1 + t1 + t2)
    Fits-divides_at {t1 = t1} {t2 = t2} e f =
        Fits-divides (subst (λ b. Fits f_can_hz bitrate_hz lim b t1 t2) e f)

    split_At :
        f_can_hz % u32 (brp * bitrate_hz) ≡ 0
        → lim.tq_min ≤ f_can_hz / u32 (brp * bitrate_hz)
        → f_can_hz / u32 (brp * bitrate_hz) ≤ lim.tq_max
        → At f_can_hz bitrate_hz lim brp (f_can_hz / u32 (brp * bitrate_hz)) lim.tseg1_min
    split_At e tq_low tq_high = record {
      brp_low = low;
      brp_high = high;
      tq_low = tq_low;
      tq_high = tq_high;
      exact =
          ap (λ d. d * (f_can_hz / u32 (brp * bitrate_hz))) (sym divisor_word)
          ∙ omega (arith, e, div-add-mod f_can_hz (u32 (brp * bitrate_hz)));
      tseg1_low = omega arith;
    }

    at_brp-Swept :
        (s : Search)
        → Kept f_can_hz bitrate_hz target lim out s
        → Swept k out (OneBrp brp) s (at_brp f_can_hz bitrate_hz target lim brp s)
    unfolding at_brp
    at_brp-Swept s kept =
        let divisor = u32 (brp * bitrate_hz) in
        let total_tq = f_can_hz / divisor in
        elim (Bool-cases (divisor == 0 || (f_can_hz % divisor) != 0)) [
          | inl skip ↦
              stay k out (rw skip refl) kept
                (λ b t1 t2 q f. let (ne, e, total) = Fits-divides_at q.same f in ground (arith, e))
          | inr exactly ↦ elim (Bool-cases (ltb total_tq lim.tq_min || ltb lim.tq_max total_tq)) [
            | inl skip ↦ stay k out (rw (exactly, skip) refl) kept (λ b t1 t2 q f.
                let (ne, e, total) = Fits-divides_at q.same f in
                ground (arith, f.tq_low, f.tq_high))
            | inr inside ↦
                let swept =
                  split-Swept k out brp total_tq (lim.tseg1_max + 2) lim.tseg1_min s
                    (split_At (ground arith) (ground arith) (ground arith)) (omega arith)
                    (omega arith) kept in
                subst (Swept k out (OneBrp brp) s) (rw (at_brp, exactly, inside) refl) (
                  widen k out swept (λ b t1 t2 q f. record {
                    same_brp = q.same;
                    same_total = sym (Fits-divides_at q.same f).2;
                    from_on = f.tseg1_low;
                  }))
          ]
        ]

  -- One prescaler, then the rest.
  brp_then :
      {brp : ℕ} {s : Search} {one : Option Search} {result : Option Search}
      → (first : Swept k out (OneBrp brp) s one)
      → Swept k out (FromBrp (suc brp)) first.after result
      → Swept k out (FromBrp brp) s result
  brp_then {brp} first r = record {
    after = r.after;
    returns = r.returns;
    kept = r.kept;
    rank = AtLeast-trans r.rank first.rank;
    passed = λ b t1 t2 q f. elim (ℕ_discrete b brp) [
      | yes here ↦ AtLeast-trans r.rank (first.passed b t1 t2 (record { same = here }) f)
      | no later ↦ r.passed b t1 t2 (record { from_on = omega (arith, q.from_on) }) f
    ];
  }

  brp_ends :
      (fuel brp : ℕ) (s : Search)
      → lim.brp_max < brp
      → brp_loop f_can_hz bitrate_hz target lim (suc fuel) brp s ≡ some s
  unfolding brp_loop
  brp_ends fuel brp s h = rw (brp_loop, lt→leb_false brp lim.brp_max h) refl

  brp_goes_on :
      (fuel brp : ℕ) (s s' : Search)
      → brp ≤ lim.brp_max
      → at_brp f_can_hz bitrate_hz target lim brp s ≡ some s'
      → brp_loop f_can_hz bitrate_hz target lim (suc fuel) brp s
        ≡ brp_loop f_can_hz bitrate_hz target lim fuel (suc brp) s'
  unfolding brp_loop
  brp_goes_on fuel brp s s' high e =
      rw (brp_loop, le→leb brp lim.brp_max high, e)
        (ap (λ n. brp_loop f_can_hz bitrate_hz target lim fuel n s') next)
    where
      next : u32 (brp + 1) ≡ suc brp
      next = omega (arith, k.brp_end)

  pub brp_loop-Swept :
      (fuel brp : ℕ) (s : Search)
      → lim.brp_min ≤ brp
      → 0 < fuel
      → lim.brp_max + 1 < fuel + brp
      → Kept f_can_hz bitrate_hz target lim out s
      → Swept k out (FromBrp brp) s (brp_loop f_can_hz bitrate_hz target lim fuel brp s)
  brp_loop-Swept zero brp s low p enough kept = absurd (omega arith)
  brp_loop-Swept (suc fuel) brp s low p enough kept = elim (dec_le brp lim.brp_max) [
    | no beyond ↦
        stay k out (brp_ends fuel brp s (omega arith)) kept
          (λ b t1 t2 q f. omega (arith, q.from_on, f.brp_high))
    | yes high ↦
        let first = at_brp-Swept low high s kept in
        subst (Swept k out (FromBrp brp) s)
          (sym (brp_goes_on fuel brp s first.after high first.returns))
          (brp_then first (
            brp_loop-Swept fuel (suc brp) first.after (omega arith) (omega arith) (omega arith)
              first.kept))
  ]
