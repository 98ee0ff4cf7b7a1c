-- ===== src/Rtc/Cycle.antt =====
-- Valid dates as bounds, and the 400-year cycle of the calendar.
use embedded_systems_resourc.Base.{
  ℕ, ◌+◌, ◌*◌, ◌/◌, ◌%◌, ◌≤◌, ◌<◌, ◌≡◌, refl, true, some, arith, u32, lt→ltb, Bool-cases,
}
use embedded_systems_resourc.Rtc.{
  Date, is_leap, month_days, year_days, date_valid, from_epoch, date_of, epoch_limit,
}
use embedded_systems_resourc.Rtc.Span.{span, span_lt, take_off-span}

pub record IsDate (d : Date) : Type 0 where
  pub from_2000 : 2000 ≤ d.year
  pub to_2399 : d.year ≤ 2399
  pub month_low : 1 ≤ d.month
  pub month_high : d.month ≤ 12
  pub day_low : 1 ≤ d.day
  pub day_high : d.day ≤ month_days d.year d.month
  pub hour : d.hour < 24
  pub minute : d.minute < 60
  pub second : d.second < 60

pub valid→IsDate : (d : Date) → date_valid (some d) ≡ true → IsDate d
unfolding date_valid
valid→IsDate d h = record {
  from_2000 = ground arith;
  to_2399 = ground arith;
  month_low = ground arith;
  month_high = ground arith;
  day_low = ground arith;
  day_high = ground arith;
  hour = ground arith;
  minute = ground arith;
  second = ground arith;
}

pub IsDate→valid : (d : Date) → IsDate d → date_valid (some d) ≡ true
unfolding date_valid
IsDate→valid d v = ground arith

-- The cycle of 400 years, and the months of a year.
pub cycle_days : span year_days 400 2000 ≡ 146097
unfolding year_days is_leap
cycle_days = refl

pub months_days : (year : ℕ) → span (month_days year) 12 1 ≡ year_days year
unfolding month_days year_days
months_days year = ground (arith, Bool-cases (is_leap year))

-- The days before a date in its year, and in all.
abbrev pub in_year : ℕ → ℕ → ℕ → ℕ
in_year year months days = span (month_days year) months 1 + days

abbrev pub in_cycle : ℕ → ℕ → ℕ → ℕ
in_cycle years months days = span year_days years 2000 + in_year (years + 2000) months days

pub in_year_lt :
    (year months days : ℕ)
    → months < 12
    → days < month_days year (months + 1)
    → in_year year months days < year_days year
in_year_lt year months days h k =
    omega (arith, months_days year, span_lt (month_days year) months 12 1 days h k)

pub in_cycle_lt :
    (years months days : ℕ)
    → years < 400
    → months < 12
    → days < month_days (years + 2000) (months + 1)
    → in_cycle years months days < 146097
in_cycle_lt years months days p h k = omega (
  arith,
  cycle_days,
  span_lt year_days years 400 2000 (in_year (years + 2000) months days) p
      (in_year_lt (years + 2000) months days h k),
)

pub from_value :
    (years months days within seconds : ℕ) (out : Date)
    → years < 400
    → months < 12
    → days < month_days (years + 2000) (months + 1)
    → within < 86400
    → seconds ≡ in_cycle years months days * 86400 + within
    → from_epoch seconds (some out)
      ≡ some (true, some (date_of (years + 2000) (months + 1) days within))
unfolding from_epoch
from_value years months days within seconds out p h k l e =
    rw
      (
        from_epoch,
        lt→ltb seconds epoch_limit (omega (arith, in_cycle_lt years months days p h k)),
        whole_days,
        take_off-span year_days 400 years 2000 (in_year (years + 2000) months days) p (omega arith)
            (omega (arith, in_cycle_lt years months days p h k))
            (in_year_lt (years + 2000) months days h k),
        take_off-span (month_days (years + 2000)) 12 months 1 days h (omega arith)
            (omega (arith, in_cycle_lt years months days p h k)) k,
        rest,
      )
      refl
  where
    whole_days : seconds / 86400 ≡ in_cycle years months days
    whole_days = omega arith

    rest : u32 (seconds % 86400) ≡ within
    rest = omega arith

-- The seconds of the day.
