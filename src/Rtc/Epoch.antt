-- ===== src/Rtc/Epoch.antt =====
-- Dates and seconds since 2000 are in one-to-one correspondence.
use embedded_systems_resourc.Base.{
  ℕ, ◌+◌, ◌-◌, ◌*◌, ◌/◌, ◌%◌, ◌<◌, ◌≡◌, refl, ap, ap₂, ◌∙◌, true, some, arith, u32, u64,
}
use embedded_systems_resourc.Rtc.{
  Date, month_days, year_days, date_valid, sum_days, to_epoch, from_epoch, date_of, epoch_limit,
}
use embedded_systems_resourc.Rtc.Span.{span, sum_days-span, ends_within}
use embedded_systems_resourc.Rtc.Cycle.{
  IsDate, valid→IsDate, IsDate→valid, cycle_days, months_days, in_cycle, in_cycle_lt, from_value,
}

-- A date that `rtc_date_valid` accepts.
abbrev pub in_day : Date → ℕ
in_day d = d.hour * 3600 + d.minute * 60 + d.second

module _ (d : Date) (v : IsDate d) where
  abbrev seconds : ℕ
  seconds = in_cycle (d.year - 2000) (d.month - 1) (d.day - 1) * 86400 + in_day d

  the_year : d.year - 2000 + 2000 ≡ d.year
  the_year = omega (arith, v.from_2000)

  the_month : d.month - 1 + 1 ≡ d.month
  the_month = omega (arith, v.month_low)

  month_fits : d.day - 1 < month_days (d.year - 2000 + 2000) (d.month - 1 + 1)
  month_fits = omega (arith, v.day_low, v.day_high, ap₂ month_days the_year the_month)

  cycle_lt : in_cycle (d.year - 2000) (d.month - 1) (d.day - 1) < 146097
  cycle_lt =
      in_cycle_lt (d.year - 2000) (d.month - 1) (d.day - 1) (omega (arith, v.to_2399, v.from_2000))
        (omega (arith, v.month_high, v.month_low)) month_fits

  day_lt : in_day d < 86400
  day_lt = omega (arith, v.hour, v.minute, v.second)

  months_at :
      span (month_days (d.year - 2000 + 2000)) (d.month - 1) 1
      ≡ span (month_days d.year) (d.month - 1) 1
  months_at = ap (λ y. span (month_days y) (d.month - 1) 1) the_year

  years_sum : sum_days year_days (d.year - 2000) 2000 0 ≡ span year_days (d.year - 2000) 2000
  years_sum =
      sum_days-span year_days (d.year - 2000) 2000 0 (omega (arith, v.to_2399))
        (omega (arith, cycle_lt))
      ∙ omega arith

  months_sum :
      sum_days (month_days d.year) (d.month - 1) 1 (span year_days (d.year - 2000) 2000)
      ≡ span year_days (d.year - 2000) 2000 + span (month_days d.year) (d.month - 1) 1
  months_sum =
      sum_days-span (month_days d.year) (d.month - 1) 1 (span year_days (d.year - 2000) 2000)
        (omega (arith, v.month_high)) (omega (arith, cycle_lt, months_at))

  to_value : (out : ℕ) → to_epoch (some d) (some out) ≡ (true, some seconds)
  unfolding to_epoch
  to_value out =
      rw (to_epoch, IsDate→valid d v, years_sum, months_sum) (ap (λ s. (true, some s)) words)
    where
      day_word :
          u64 (
            span year_days (d.year - 2000) 2000
            + span (month_days d.year) (d.month - 1) 1
            + (d.day - 1))
          ≡ in_cycle (d.year - 2000) (d.month - 1) (d.day - 1)
      day_word = omega (arith, cycle_lt, months_at)

      words :
          u64 (
            u64 (
                span year_days (d.year - 2000) 2000
                + span (month_days d.year) (d.month - 1) 1
                + (d.day - 1))
              * 86400
            + d.hour * 3600
            + d.minute * 60
            + d.second)
          ≡ seconds
      words = omega (arith, day_word, cycle_lt, day_lt)

  back_value : (out : Date) → from_epoch seconds (some out) ≡ some (true, some d)
  back_value out =
      from_value (d.year - 2000) (d.month - 1) (d.day - 1) (in_day d) seconds out
        (omega (arith, v.to_2399, v.from_2000)) (omega (arith, v.month_high, v.month_low))
        month_fits day_lt refl
      ∙ ap (λ e. some (true, some e)) same
    where
      same : date_of (d.year - 2000 + 2000) (d.month - 1 + 1) (d.day - 1) (in_day d) ≡ d
      same = ground (arith, the_year, the_month, cycle_lt, v.hour, v.minute, v.second, v.day_low)

-- A valid date is turned into fewer than 146097 days' seconds, and these are turned back into the date.
pub from_epoch-to_epoch :
    (d : Date) (out : ℕ) (out' : Date)
    → date_valid (some d) ≡ true
    → (seconds : ℕ) × (to_epoch (some d) (some out) ≡ (true, some seconds))
      × (seconds < epoch_limit)
      × (from_epoch seconds (some out') ≡ some (true, some d))
from_epoch-to_epoch d out out' h =
    let v = valid→IsDate d h in
    (seconds d v, to_value d v out, omega (arith, cycle_lt d v, day_lt d v), back_value d v out')

-- The date that the search loops find.
module _ (years months days within : ℕ) (p : years < 400) (h : months < 12)
    (k : days < month_days (years + 2000) (months + 1)) (l : within < 86400) where
  abbrev found : Date
  found = date_of (years + 2000) (months + 1) days within

  found_day : u32 (u32 days + 1) ≡ days + 1
  found_day = omega (arith, in_cycle_lt years months days p h k)

  found-IsDate : IsDate found
  found-IsDate = record {
    from_2000 = omega arith;
    to_2399 = omega arith;
    month_low = omega arith;
    month_high = omega arith;
    day_low = omega (arith, found_day);
    day_high = omega (arith, found_day);
    hour = omega arith;
    minute = omega arith;
    second = omega arith;
  }

  found_seconds :
      (s : ℕ) → s ≡ in_cycle years months days * 86400 + within → seconds found found-IsDate ≡ s
  found_seconds s e = omega (arith, same_days, same_time, e)
    where
      year_back : years + 2000 - 2000 ≡ years
      year_back = omega arith

      month_back : months + 1 - 1 ≡ months
      month_back = omega arith

      day_back : u32 (u32 days + 1) - 1 ≡ days
      day_back = omega (arith, found_day)

      same_days :
          in_cycle (years + 2000 - 2000) (months + 1 - 1) (u32 (u32 days + 1) - 1)
          ≡ in_cycle years months days
      same_days =
          ap (λ y. in_cycle y (months + 1 - 1) (u32 (u32 days + 1) - 1)) year_back
          ∙ ap₂ (in_cycle years) month_back day_back

      same_time : in_day found ≡ within
      same_time = omega arith

-- Every number of seconds below the limit is turned into a valid date, and this is turned back into the
-- same number.
pub to_epoch-from_epoch :
    (s : ℕ) (out : Date) (out' : ℕ)
    → s < epoch_limit
    → (d : Date) × (from_epoch s (some out) ≡ some (true, some d))
      × (date_valid (some d) ≡ true)
      × (to_epoch (some d) (some out') ≡ (true, some s))
to_epoch-from_epoch s out out' h =
    let (years, days, p, q, e) =
      ends_within year_days 400 2000 (s / 86400) (omega (arith, cycle_days)) in
    let (months, rest, p', q', e') =
      ends_within (month_days (years + 2000)) 12 1 days
        (omega (arith, months_days (years + 2000))) in
    let v = found-IsDate years months rest (s % 86400) p p' q' (omega arith) in
    (
      date_of (years + 2000) (months + 1) rest (s % 86400),
      from_value years months rest (s % 86400) s out p p' q' (omega arith) (omega arith),
      IsDate→valid (date_of (years + 2000) (months + 1) rest (s % 86400)) v,
      to_value (date_of (years + 2000) (months + 1) rest (s % 86400)) v out'
          ∙ ap (λ n. (true, some n))
              (found_seconds years months rest (s % 86400) p p' q' (omega arith) s (omega arith)),
    )
