-- ===== src/Bittiming/Solve.antt =====
-- What `can_solve_bittiming` promises: exact timings within the limits, the best of them, found whenever
-- there is one.
use embedded_systems_resourc.Base.{
  ℕ, ◌+◌, ◌*◌, ◌/◌, ◌≤◌, ◌≡◌, refl, ap, ap₂, ◌∙◌, ◌⊎◌, inl, inr, true, false, some, arith, subst,
  ne→==_false,
}
use embedded_systems_resourc.Bittiming.{Limits, Timing, Search, brp_loop, nothing_yet, solve}
use embedded_systems_resourc.Bittiming.Rank.{
  Fits, Exact, sp_err, AtLeast, nearer, longer, NoWrap, nothing, best,
}
use embedded_systems_resourc.Bittiming.Sweep.{Swept}
use embedded_systems_resourc.Bittiming.Loops.{FromBrp, brp_loop-Swept}
use native.Mathlib.Nat.{div-le_of_le-mul}

module _ {f_can_hz bitrate_hz target : ℕ} {lim : Limits} (k : NoWrap f_can_hz bitrate_hz target lim)
    (out : Timing) where
  swept :
      Swept k out
        (FromBrp k out lim.brp_min)
        (nothing_yet out)
        (brp_loop f_can_hz bitrate_hz target lim (lim.brp_max + 2) lim.brp_min (nothing_yet out))
  swept =
      brp_loop-Swept k out (lim.brp_max + 2) lim.brp_min (nothing_yet out) (omega arith)
        (omega arith) (omega arith) (nothing refl)

  answers :
      solve f_can_hz bitrate_hz target (some lim) (some out)
      ≡ some (swept.after.found, some swept.after.out)
  unfolding solve
  answers =
      rw
        (
          ne→==_false f_can_hz 0 k.clock_some,
          ne→==_false bitrate_hz 0 k.bitrate_some,
          swept.returns,
        )
        refl

  -- The search found nothing, or what it holds is exact and ranks as it says.
  data Answer : Type 0 where
    refused :
        swept.after ≡ nothing_yet out
        → solve f_can_hz bitrate_hz target (some lim) (some out) ≡ some (false, some out)
        → Answer
    found :
        solve f_can_hz bitrate_hz target (some lim) (some out) ≡ some (true, some swept.after.out)
        → Exact f_can_hz bitrate_hz lim swept.after.out
        → swept.after.best_sp_err ≡ sp_err target swept.after.out.total_tq swept.after.out.tseg1
        → swept.after.best_tq ≡ swept.after.out.total_tq
        → Answer

  answer : Answer
  answer = elim swept.kept [
    | nothing e ↦ refused e (answers ∙ ap (λ (s : Search). some (s.found, some s.out)) e)
    | best f x r t ↦ found (answers ∙ ap (λ b. some (b, some swept.after.out)) f) x r t
  ]

  -- No rank is below that of an empty search.
  below_empty :
      (t1 t2 : ℕ) → AtLeast 0xffffffff 0 (sp_err target (1 + t1 + t2) t1) (1 + t1 + t2) → ⊥
  below_empty t1 t2 (nearer h) =
      let small : ((1 + t1) * 1000) / (1 + t1 + t2) ≤ 1000 =
        div-le_of_le-mul (1 + t1 + t2) (omega arith) in
      omega (arith, k.target_word)
  below_empty t1 t2 (longer e h) = omega arith

  -- What a fitting timing says of the result.
  abbrev Optimal : ℕ → ℕ → Type 0
  Optimal t1 t2 =
      (t : Timing) × (solve f_can_hz bitrate_hz target (some lim) (some out) ≡ some (true, some t))
      × Exact f_can_hz bitrate_hz lim t
      × AtLeast (sp_err target t.total_tq t.tseg1) t.total_tq (sp_err target (1 + t1 + t2) t1)
          (1 + t1 + t2)

  answer-Optimal : (brp t1 t2 : ℕ) → Fits f_can_hz bitrate_hz lim brp t1 t2 → Answer → Optimal t1 t2
  answer-Optimal brp t1 t2 f (refused e a) = absurd (
      below_empty t1 t2 (
        subst
          (λ (s : Search).
            AtLeast s.best_sp_err s.best_tq (sp_err target (1 + t1 + t2) t1) (1 + t1 + t2))
          e (swept.passed brp t1 t2 (record { from_on = f.brp_low }) f)))
  answer-Optimal brp t1 t2 f (found a x r tq) = (
    swept.after.out,
    a,
    x,
    subst (λ (p : ℕ × ℕ). AtLeast p.0 p.1 (sp_err target (1 + t1 + t2) t1) (1 + t1 + t2))
        (ap₂ (λ (m n : ℕ). (m, n)) r tq)
        (swept.passed brp t1 t2 (record { from_on = f.brp_low }) f),
  )

-- Where neither `brp_max * bitrate_hz` nor a loop counter wraps and neither frequency is 0,
-- `can_solve_bittiming` returns: either true with a timing whose bit rate is exactly the requested one,
-- whose fields are consistent and within the limits, and whose jump width is the least of both
-- segments and the limit but at least 1; or false, with `*out` unchanged.
pub solve-Exact :
    (f_can_hz bitrate_hz target : ℕ) (lim : Limits) (out : Timing)
    → NoWrap f_can_hz bitrate_hz target lim
    → ((t : Timing) × (solve f_can_hz bitrate_hz target (some lim) (some out) ≡ some (true, some t))
        × Exact f_can_hz bitrate_hz lim t)
      ⊎ (solve f_can_hz bitrate_hz target (some lim) (some out) ≡ some (false, some out))
solve-Exact f_can_hz bitrate_hz target lim out k = elim (answer k out) [
  | refused e a ↦ inr a
  | found a x r tq ↦ inl ((swept k out).after.out, a, x)
]

-- Under the same conditions, when any timing fits the limits with the exact bit rate, the function
-- returns true, and its timing's sample point is nearer to the target than that timing's, or as near
-- with at least as many time quanta.
pub solve_optimal :
    (f_can_hz bitrate_hz target : ℕ) (lim : Limits) (out : Timing) (brp t1 t2 : ℕ)
    → NoWrap f_can_hz bitrate_hz target lim
    → Fits f_can_hz bitrate_hz lim brp t1 t2
    → (t : Timing) × (solve f_can_hz bitrate_hz target (some lim) (some out) ≡ some (true, some t))
      × Exact f_can_hz bitrate_hz lim t
      × AtLeast
          (sp_err target t.total_tq t.tseg1)
          t.total_tq
          (sp_err target (1 + t1 + t2) t1)
          (1 + t1 + t2)
solve_optimal f_can_hz bitrate_hz target lim out brp t1 t2 k f =
    answer-Optimal k out brp t1 t2 f (answer k out)
