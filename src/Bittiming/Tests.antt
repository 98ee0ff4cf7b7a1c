-- ===== src/Bittiming/Tests.antt =====
-- Runs of the bit timing search, and its theorems at concrete inputs.
use embedded_systems_resourc.Base.{
  ◌+◌, ◌*◌, ◌/◌, ◌-◌, ◌≤◌, ◌≡◌, refl, ◌↔◌, ◌⊎◌, true, false, some, arith,
}
use embedded_systems_resourc.Bittiming.{
  Timing, solve, limits_bxcan, brp_loop, at_brp, split_loop, weigh, max_bus_length,
}
use embedded_systems_resourc.Bittiming.Rank.{Fits, Exact, NoWrap, AtLeast, sp_err}
use embedded_systems_resourc.Bittiming.Solve.{solve-Exact, solve_optimal}
use embedded_systems_resourc.Bittiming.Bus.{max_bus_length-exact}

abbrev blank : Timing
blank = record {
  brp = 0;
  tseg1 = 0;
  tseg2 = 0;
  sjw = 0;
  total_tq = 0;
  bitrate_hz = 0;
  sample_point_permille = 0;
  bitrate_error_ppm = 0;
}

-- The classic 36 MHz clock at 500 kbit/s: the split has a TSEG2 of one quantum.
abbrev classic : Timing
classic = record {
  brp = 9;
  tseg1 = 6;
  tseg2 = 1;
  sjw = 1;
  total_tq = 8;
  bitrate_hz = 500000;
  sample_point_permille = 875;
  bitrate_error_ppm = 0;
}

solve-classic :
    solve 36000000 500000 875 (some limits_bxcan) (some blank) ≡ some (true, some classic)
unfolding solve brp_loop at_brp split_loop weigh
solve-classic = refl

-- The divisor wraps: a request for 4194305 bit/s at 8192 Hz is answered with 1 bit/s and no error.
solve_wraps :
    solve 8192 4194305 875 (some limits_bxcan) (some blank)
    ≡ some (
      true,
      some (record {
        brp = 1024;
        tseg1 = 6;
        tseg2 = 1;
        sjw = 1;
        total_tq = 8;
        bitrate_hz = 1;
        sample_point_permille = 875;
        bitrate_error_ppm = 0;
      }),
    )
unfolding solve brp_loop at_brp split_loop weigh
solve_wraps = refl

classic-NoWrap : NoWrap 36000000 500000 875 limits_bxcan
classic-NoWrap = record {
  clock = omega arith;
  clock_some = λ e. omega arith;
  bitrate_some = λ e. omega arith;
  target_word = omega arith;
  brp_end = omega arith;
  product = omega arith;
  tseg1_end = omega arith;
  tq_end = omega arith;
}

-- Eighteen quanta, of which three behind the sample point.
eighteen-Fits : Fits 36000000 500000 limits_bxcan 4 14 3
eighteen-Fits = record {
  brp_low = omega arith;
  brp_high = omega arith;
  tseg1_low = omega arith;
  tseg1_high = omega arith;
  tseg2_low = omega arith;
  tseg2_high = omega arith;
  tseg2_some = omega arith;
  tq_low = omega arith;
  tq_high = omega arith;
  exact = refl;
}

solve-Exact_example :
    ((t : Timing) × (solve 36000000 500000 875 (some limits_bxcan) (some blank)
        ≡ some (true, some t))
      × Exact 36000000 500000 limits_bxcan t)
    ⊎ (solve 36000000 500000 875 (some limits_bxcan) (some blank) ≡ some (false, some blank))
solve-Exact_example = solve-Exact 36000000 500000 875 limits_bxcan blank classic-NoWrap

solve_optimal_example :
    (t : Timing) × (solve 36000000 500000 875 (some limits_bxcan) (some blank)
      ≡ some (true, some t))
    × Exact 36000000 500000 limits_bxcan t
    × AtLeast (sp_err 875 t.total_tq t.tseg1) t.total_tq (sp_err 875 (1 + 14 + 3) 14) (1 + 14 + 3)
solve_optimal_example =
    solve_optimal 36000000 500000 875 limits_bxcan blank 4 14 3 classic-NoWrap eighteen-Fits

max_bus_length-exact_example :
    (10 ≤ max_bus_length (some classic) 36000000 150)
    ↔ (2 * (5 * 10 + 150) ≤ (classic.tseg1 - 1) * ((classic.brp * 1000000000) / 36000000))
max_bus_length-exact_example =
    max_bus_length-exact classic 36000000 150 10 (λ e. omega arith) (omega arith) (omega arith)
      (omega arith)
