-- ===== src/Bittiming/Rank.antt =====
-- What a timing must satisfy, how two are compared, and what the search keeps: the best of those seen.
use embedded_systems_resourc.Base.{
  ℕ, ◌+◌, ◌-◌, ◌*◌, ◌/◌, ◌^◌, ◌≤◌, ◌<◌, ◌≡◌, refl, ◌≢◌, true, arith, min, max,
}
use embedded_systems_resourc.Bittiming.{Limits, Timing, Search, nothing_yet}

-- A split of the bit within the limits whose bit rate is exact.
pub record Fits (f_can_hz bitrate_hz : ℕ) (lim : Limits) (brp tseg1 tseg2 : ℕ) : Type 0 where
  pub brp_low : lim.brp_min ≤ brp
  pub brp_high : brp ≤ lim.brp_max
  pub tseg1_low : lim.tseg1_min ≤ tseg1
  pub tseg1_high : tseg1 ≤ lim.tseg1_max
  pub tseg2_low : lim.tseg2_min ≤ tseg2
  pub tseg2_high : tseg2 ≤ lim.tseg2_max
  pub tseg2_some : 1 ≤ tseg2
  pub tq_low : lim.tq_min ≤ 1 + tseg1 + tseg2
  pub tq_high : 1 + tseg1 + tseg2 ≤ lim.tq_max
  pub exact : brp * bitrate_hz * (1 + tseg1 + tseg2) ≡ f_can_hz

-- The distance of the sample point from the target, in thousandths.
abbrev pub sp_err : ℕ → ℕ → ℕ → ℕ
sp_err target total_tq tseg1 =
    let sp = ((1 + tseg1) * 1000) / total_tq in (sp - target) + (target - sp)

-- The nearer sample point is preferred, and of two equally near the longer bit.
pub data AtLeast (err tq err' tq' : ℕ) : Type 0 where
  nearer : err < err' → AtLeast err tq err' tq'
  longer : err ≡ err' → tq' ≤ tq → AtLeast err tq err' tq'

pub AtLeast-refl : (err tq : ℕ) → AtLeast err tq err tq
AtLeast-refl err tq = longer refl (omega arith)

pub AtLeast-trans :
    {e1 t1 e2 t2 e3 t3 : ℕ} → AtLeast e1 t1 e2 t2 → AtLeast e2 t2 e3 t3 → AtLeast e1 t1 e3 t3
AtLeast-trans (nearer p) (nearer q) = nearer (omega arith)
AtLeast-trans (nearer p) (longer q r) = nearer (omega arith)
AtLeast-trans (longer p r) (nearer q) = nearer (omega arith)
AtLeast-trans (longer p r) (longer q r') = longer (omega arith) (omega arith)

-- A timing that the search may give out.
pub record Exact (f_can_hz bitrate_hz : ℕ) (lim : Limits) (t : Timing) : Type 0 where
  pub fits : Fits f_can_hz bitrate_hz lim t.brp t.tseg1 t.tseg2
  pub total : t.total_tq ≡ 1 + t.tseg1 + t.tseg2
  pub rate : t.bitrate_hz ≡ bitrate_hz
  pub sample : t.sample_point_permille ≡ ((1 + t.tseg1) * 1000) / t.total_tq
  pub jump : t.sjw ≡ max 1 (min t.tseg1 (min t.tseg2 lim.sjw_max))
  pub error : t.bitrate_error_ppm ≡ 0

-- The machine words are large enough.
pub record NoWrap (f_can_hz bitrate_hz target : ℕ) (lim : Limits) : Type 0 where
  pub clock : f_can_hz < 2 ^ 32
  pub clock_some : f_can_hz ≢ 0
  pub bitrate_some : bitrate_hz ≢ 0
  pub target_word : target < 2 ^ 32
  pub brp_end : lim.brp_max + 1 < 2 ^ 32
  pub product : lim.brp_max * bitrate_hz < 2 ^ 32
  pub tseg1_end : lim.tseg1_max + 1 < 2 ^ 32
  pub tq_end : lim.tq_max * 1000 < 2 ^ 32

-- What the search has found so far.
pub data Kept (f_can_hz bitrate_hz target : ℕ) (lim : Limits) (out : Timing) (s : Search)
    : Type 0 where
  nothing : s ≡ nothing_yet out → Kept f_can_hz bitrate_hz target lim out s
  best :
      s.found ≡ true
      → Exact f_can_hz bitrate_hz lim s.out
      → s.best_sp_err ≡ sp_err target s.out.total_tq s.out.tseg1
      → s.best_tq ≡ s.out.total_tq
      → Kept f_can_hz bitrate_hz target lim out s

-- The split that the inner loop looks at.
pub record At (f_can_hz bitrate_hz : ℕ) (lim : Limits) (brp total_tq tseg1 : ℕ) : Type 0 where
  pub brp_low : lim.brp_min ≤ brp
  pub brp_high : brp ≤ lim.brp_max
  pub tq_low : lim.tq_min ≤ total_tq
  pub tq_high : total_tq ≤ lim.tq_max
  pub exact : brp * bitrate_hz * total_tq ≡ f_can_hz
  pub tseg1_low : lim.tseg1_min ≤ tseg1
