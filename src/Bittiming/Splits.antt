-- ===== src/Bittiming/Splits.antt =====
-- The inner loop of `can_solve_bittiming`, over the splits at one prescaler.
use embedded_systems_resourc.Base.{
  ℕ, zero, suc, ◌+◌, ◌≤◌, ◌<◌, ◌≡◌, refl, sym, ap, ap₂, Option, some, u32, arith, dec_le, dec_lt,
  subst, le→leb, lt→leb_false, ℕ_discrete,
}
use embedded_systems_resourc.Bittiming.{Limits, Timing, Search, weigh, split_loop}
use embedded_systems_resourc.Bittiming.Rank.{sp_err, AtLeast, AtLeast-trans, NoWrap, Kept, At}
use embedded_systems_resourc.Bittiming.Weigh.{
  Weighed, weigh-Weighed, Weighed-Kept, Weighed-AtLeast, Weighed-seen,
}
use embedded_systems_resourc.Bittiming.Sweep.{Swept, stay}

module _ {f_can_hz bitrate_hz target : ℕ} {lim : Limits} (k : NoWrap f_can_hz bitrate_hz target lim)
    (out : Timing) where
  -- The splits at one prescaler with `t1` from `from` on.
  pub record FromSplit (brp total_tq from : ℕ) (brp' t1 t2 : ℕ) : Type 0 where
    pub same_brp : brp' ≡ brp
    pub same_total : 1 + t1 + t2 ≡ total_tq
    pub from_on : from ≤ t1

  module _ (brp total_tq : ℕ) where
    -- The inner loop's three ways on.
    split_ends :
        (fuel tseg1 : ℕ) (s : Search)
        → lim.tseg1_max < tseg1
        → split_loop f_can_hz bitrate_hz target lim (suc fuel) brp total_tq tseg1 s ≡ some s
    unfolding split_loop
    split_ends fuel tseg1 s h = rw (split_loop, lt→leb_false tseg1 lim.tseg1_max h) refl

    split_breaks :
        (fuel tseg1 : ℕ) (s : Search)
        → tseg1 ≤ lim.tseg1_max
        → total_tq ≤ 1 + tseg1
        → split_loop f_can_hz bitrate_hz target lim (suc fuel) brp total_tq tseg1 s ≡ some s
    unfolding split_loop
    split_breaks fuel tseg1 s high past =
        rw (split_loop, le→leb tseg1 lim.tseg1_max high)
          (rw (le→leb total_tq (u32 (1 + tseg1)) (omega (arith, k.tseg1_end))) refl)

    split_goes_on :
        (fuel tseg1 : ℕ) (s : Search)
        → tseg1 ≤ lim.tseg1_max
        → 1 + tseg1 < total_tq
        → split_loop f_can_hz bitrate_hz target lim (suc fuel) brp total_tq tseg1 s
          ≡ split_loop f_can_hz bitrate_hz target lim fuel brp total_tq
              (suc tseg1)
              (weigh f_can_hz bitrate_hz target lim brp total_tq tseg1 s)
    unfolding split_loop
    split_goes_on fuel tseg1 s high inside =
        rw (split_loop, le→leb tseg1 lim.tseg1_max high)
          (rw (lt→leb_false total_tq (u32 (1 + tseg1)) (omega (arith, k.tseg1_end))) (
            ap
              (λ n.
                split_loop f_can_hz bitrate_hz target lim fuel brp total_tq n
                  (weigh f_can_hz bitrate_hz target lim brp total_tq tseg1 s))
              next))
      where
        next : u32 (tseg1 + 1) ≡ suc tseg1
        next = omega (arith, k.tseg1_end)

    next_At :
        {tseg1 : ℕ}
        → At f_can_hz bitrate_hz lim brp total_tq tseg1
        → At f_can_hz bitrate_hz lim brp total_tq (suc tseg1)
    next_At a = record {
      brp_low = a.brp_low;
      brp_high = a.brp_high;
      tq_low = a.tq_low;
      tq_high = a.tq_high;
      exact = a.exact;
      tseg1_low = omega (arith, a.tseg1_low);
    }

    -- One split, then the rest.
    split_then :
        {tseg1 : ℕ} {s s' : Search} {result : Option Search}
        → (a : At f_can_hz bitrate_hz lim brp total_tq tseg1) → (high : tseg1 ≤ lim.tseg1_max)
        → (inside : 1 + tseg1 < total_tq) → Weighed k a high inside s s'
        → Swept k out (FromSplit brp total_tq (suc tseg1)) s' result
        → Swept k out (FromSplit brp total_tq tseg1) s result
    split_then {tseg1} {s} {s'} a high inside w r = record {
      after = r.after;
      returns = r.returns;
      kept = r.kept;
      rank = AtLeast-trans r.rank (Weighed-AtLeast k a high inside w);
      passed = λ b t1 t2 q f. elim (ℕ_discrete t1 tseg1) [
        | yes here ↦ AtLeast-trans r.rank (
            subst (λ (p : ℕ × ℕ). AtLeast s'.best_sp_err s'.best_tq (sp_err target p.0 p.1) p.0)
              (ap₂ (λ (m n : ℕ). (m, n)) (sym q.same_total) (sym here))
              (Weighed-seen k a high inside w (omega (arith, f.tseg2_low, q.same_total, here))
                (omega (arith, f.tseg2_high, q.same_total, here))))
        | no later ↦
            r.passed b t1 t2
              (record {
                same_brp = q.same_brp;
                same_total = q.same_total;
                from_on = omega (arith, q.from_on);
              })
              f
      ];
    }

    pub split-Swept :
        (fuel tseg1 : ℕ) (s : Search)
        → At f_can_hz bitrate_hz lim brp total_tq tseg1
        → 0 < fuel
        → lim.tseg1_max + 1 < fuel + tseg1
        → Kept f_can_hz bitrate_hz target lim out s
        → Swept k out
            (FromSplit brp total_tq tseg1)
            s
            (split_loop f_can_hz bitrate_hz target lim fuel brp total_tq tseg1 s)
    split-Swept zero tseg1 s a p enough kept = absurd (omega arith)
    split-Swept (suc fuel) tseg1 s a p enough kept = elim (dec_le tseg1 lim.tseg1_max) [
      | no beyond ↦
          stay k out (split_ends fuel tseg1 s (omega arith)) kept
            (λ b t1 t2 q f. omega (arith, q.from_on, f.tseg1_high))
      | yes high ↦ elim (dec_lt (1 + tseg1) total_tq) [
        | no past ↦
            stay k out (split_breaks fuel tseg1 s high (omega arith)) kept
              (λ b t1 t2 q f. omega (arith, q.from_on, q.same_total, f.tseg2_some))
        | yes inside ↦
            let w = weigh-Weighed k a high inside s in
            subst (Swept k out (FromSplit brp total_tq tseg1) s)
              (sym (split_goes_on fuel tseg1 s high inside))
              (split_then a high inside w (
                split-Swept fuel (suc tseg1)
                  (weigh f_can_hz bitrate_hz target lim brp total_tq tseg1 s) (next_At a)
                  (omega arith) (omega arith) (Weighed-Kept k a high inside w kept)))
      ]
    ]
