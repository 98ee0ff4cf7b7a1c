-- ===== src/Bittiming/Sweep.antt =====
-- What a loop of `can_solve_bittiming` has found when it returns.
use embedded_systems_resourc.Base.{ℕ, ◌+◌, ◌≡◌, Option, some}
use embedded_systems_resourc.Bittiming.{Limits, Timing, Search}
use embedded_systems_resourc.Bittiming.Rank.{Fits, sp_err, AtLeast, AtLeast-refl, NoWrap, Kept}

module _ {f_can_hz bitrate_hz target : ℕ} {lim : Limits} (k : NoWrap f_can_hz bitrate_hz target lim)
    (out : Timing) where
  -- A sweep from `s` has returned, and ranks at least as high as all that `Passed` names.
  pub record Swept (Passed : ℕ → ℕ → ℕ → Type 0) (s : Search) (result : Option Search)
      : Type 0 where
    pub after : Search
    pub returns : result ≡ some after
    pub kept : Kept f_can_hz bitrate_hz target lim out after
    pub rank : AtLeast after.best_sp_err after.best_tq s.best_sp_err s.best_tq
    pub passed :
        (brp t1 t2 : ℕ)
        → Passed brp t1 t2
        → Fits f_can_hz bitrate_hz lim brp t1 t2
        → AtLeast after.best_sp_err after.best_tq (sp_err target (1 + t1 + t2) t1) (1 + t1 + t2)

  -- What passes in one sweep may be named otherwise.
  pub widen :
      {Passed Passed' : ℕ → ℕ → ℕ → Type 0} {s : Search} {result : Option Search}
      → Swept Passed s result
      → ((brp t1 t2 : ℕ)
          → Passed' brp t1 t2
          → Fits f_can_hz bitrate_hz lim brp t1 t2
          → Passed brp t1 t2)
      → Swept Passed' s result
  widen r named = record {
    after = r.after;
    returns = r.returns;
    kept = r.kept;
    rank = r.rank;
    passed = λ brp t1 t2 p f. r.passed brp t1 t2 (named brp t1 t2 p f) f;
  }

  -- Nothing passes.
  pub stay :
      {Passed : ℕ → ℕ → ℕ → Type 0} {s : Search} {result : Option Search}
      → result ≡ some s
      → Kept f_can_hz bitrate_hz target lim out s
      → ((brp t1 t2 : ℕ) → Passed brp t1 t2 → Fits f_can_hz bitrate_hz lim brp t1 t2 → ⊥)
      → Swept Passed s result
  stay {s = s} e kept none_fit = record {
    after = s;
    returns = e;
    kept = kept;
    rank = AtLeast-refl s.best_sp_err s.best_tq;
    passed = λ brp t1 t2 p f. absurd (none_fit brp t1 t2 p f);
  }
