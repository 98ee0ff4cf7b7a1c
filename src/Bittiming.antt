-- ===== src/Bittiming.antt =====
-- code/portable/can/can_bittiming.h and can_bittiming.c: the search for a CAN bit timing, and the bus
-- length that a timing allows.
pub mod Rank
pub mod Weigh
pub mod Sweep
pub mod Splits
pub mod Loops
pub mod Bus
pub mod Solve
mod Tests
use embedded_systems_resourc.Base.{
  ℕ, zero, suc, ◌+◌, ◌-◌, ◌*◌, ◌/◌, ◌%◌, Bool, true, false, ◌&&◌, ◌||◌, Option, none, some, ltb,
  leb, ◌==◌, ◌!=◌, if◌then◌else◌, u32, u64, sub32,
}

-- `can_btl_limits_t`
pub record Limits : Type 0 where
  pub brp_min : ℕ
  pub brp_max : ℕ
  pub tseg1_min : ℕ
  pub tseg1_max : ℕ
  pub tseg2_min : ℕ
  pub tseg2_max : ℕ
  pub sjw_max : ℕ
  pub tq_min : ℕ
  pub tq_max : ℕ

-- `CAN_LIMITS_BXCAN`
abbrev pub limits_bxcan : Limits
limits_bxcan = record {
  brp_min = 1;
  brp_max = 1024;
  tseg1_min = 1;
  tseg1_max = 16;
  tseg2_min = 1;
  tseg2_max = 8;
  sjw_max = 4;
  tq_min = 8;
  tq_max = 25;
}

-- `can_bittiming_t`; the code only writes the error 0, so no sign is needed.
pub record Timing : Type 0 where
  pub brp : ℕ
  pub tseg1 : ℕ
  pub tseg2 : ℕ
  pub sjw : ℕ
  pub total_tq : ℕ
  pub bitrate_hz : ℕ
  pub sample_point_permille : ℕ
  pub bitrate_error_ppm : ℕ

-- `abs_diff`
abbrev pub abs_diff : ℕ → ℕ → ℕ
abs_diff a b = if ltb b a then sub32 a b else sub32 b a

-- The locals that the loops change, and what `out` points to.
pub record Search : Type 0 where
  pub found : Bool
  pub best_sp_err : ℕ
  pub best_tq : ℕ
  pub out : Timing

-- The resynchronisation jump width of a split.
abbrev pub jump_width : ℕ → ℕ → ℕ → ℕ
jump_width sjw_max tseg1 tseg2 =
    let sjw = if ltb tseg2 sjw_max then tseg2 else sjw_max in
    let sjw' = if ltb tseg1 sjw then tseg1 else sjw in if sjw' == 0 then 1 else sjw'

-- The sample point of a split.
abbrev pub sample_point : ℕ → ℕ → ℕ
sample_point total_tq tseg1 = u32 (u32 (1 + tseg1) * 1000) / total_tq

-- The code divides by a product that is not zero when it does not wrap.
abbrev pub timing_of : ℕ → Limits → ℕ → ℕ → ℕ → Timing
timing_of f_can_hz lim brp total_tq tseg1 =
    let tseg2 = sub32 (sub32 total_tq 1) tseg1 in
    record {
      brp = brp;
      tseg1 = tseg1;
      tseg2 = tseg2;
      sjw = jump_width lim.sjw_max tseg1 tseg2;
      total_tq = total_tq;
      bitrate_hz = f_can_hz / u32 (brp * total_tq);
      sample_point_permille = sample_point total_tq tseg1;
      bitrate_error_ppm = 0;
    }

-- `better`
abbrev pub better : ℕ → ℕ → Search → Bool
better err total_tq s = ltb err s.best_sp_err || (err == s.best_sp_err && ltb s.best_tq total_tq)

module _ (f_can_hz bitrate_hz target : ℕ) (lim : Limits) where
  -- The inner loop's body after its `break`.
  unfoldable pub weigh : ℕ → ℕ → ℕ → Search → Search
  weigh brp total_tq tseg1 s =
      let tseg2 = sub32 (sub32 total_tq 1) tseg1 in
      let err = abs_diff (sample_point total_tq tseg1) target in
      if ltb tseg2 lim.tseg2_min || ltb lim.tseg2_max tseg2
      then s
      else if better err total_tq s
      then record {
        found = true;
        best_sp_err = err;
        best_tq = total_tq;
        out = timing_of f_can_hz lim brp total_tq tseg1;
      }
      else s

  -- The inner loop from `tseg1` on; `none` when the rounds run out.
  unfoldable pub split_loop : ℕ → ℕ → ℕ → ℕ → Search → Option Search
  unfolding weigh
  split_loop zero brp total_tq tseg1 s = none
  split_loop (suc fuel) brp total_tq tseg1 s = elim (leb tseg1 lim.tseg1_max) [
    | false ↦ some s
    | true ↦ elim (leb total_tq (u32 (1 + tseg1))) [
      | true ↦ some s
      | false ↦ split_loop fuel brp total_tq (u32 (tseg1 + 1)) (weigh brp total_tq tseg1 s)
    ]
  ]

  -- The outer loop's body.
  unfoldable pub at_brp : ℕ → Search → Option Search
  at_brp brp s =
      let divisor = u32 (brp * bitrate_hz) in
      let total_tq = f_can_hz / divisor in
      if divisor == 0 || (f_can_hz % divisor) != 0
      then some s
      else if ltb total_tq lim.tq_min || ltb lim.tq_max total_tq
      then some s
      else split_loop (lim.tseg1_max + 2) brp total_tq lim.tseg1_min s

  -- The outer loop from `brp` on.
  unfoldable pub brp_loop : ℕ → ℕ → Search → Option Search
  brp_loop zero brp s = none
  brp_loop (suc fuel) brp s = elim (leb brp lim.brp_max) [
    | false ↦ some s
    | true ↦ elim (at_brp brp s) [ none ↦ none | some s' ↦ brp_loop fuel (u32 (brp + 1)) s' ]
  ]

-- The locals' initial values.
abbrev pub nothing_yet : Timing → Search
nothing_yet out = record { found = false; best_sp_err = 0xffffffff; best_tq = 0; out = out }

-- `can_solve_bittiming`: the result, and what `out` points to afterwards; `none` stands for a NULL
-- pointer, and for a search that does not end.
unfoldable pub solve : ℕ → ℕ → ℕ → Option Limits → Option Timing → Option (Bool × Option Timing)
solve f_can_hz bitrate_hz target (some lim) (some out) =
    if f_can_hz == 0 || bitrate_hz == 0
    then some (false, some out)
    else elim (brp_loop f_can_hz bitrate_hz target lim (lim.brp_max + 2) lim.brp_min
        (nothing_yet out)) [ none ↦ none | some s ↦ some (s.found, some s.out) ]
solve f_can_hz bitrate_hz target _ out = some (false, out)

-- `can_max_bus_length_m`
unfoldable pub max_bus_length : Option Timing → ℕ → ℕ → ℕ
max_bus_length none f_can_hz delay = 0
max_bus_length (some t) f_can_hz delay =
    let tq_ns = u64 (t.brp * 1000000000) / f_can_hz in
    let budget = u64 ((t.tseg1 - 1) * tq_ns) / 2 in
    if f_can_hz == 0 || t.brp == 0
    then 0
    else if ltb t.tseg1 2
    then 0
    else if leb budget delay
    then 0
    else u32 ((budget - delay) / 5)
