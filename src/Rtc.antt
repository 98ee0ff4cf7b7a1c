-- ===== src/Rtc.antt =====
-- peripherals/rtc-examples/rtc_math.h: the Gregorian calendar of 2000 to 2399, and packed BCD. `none`
-- stands for a NULL pointer.
pub mod Span
pub mod Cycle
pub mod Epoch
pub mod Bcd
mod Tests
use embedded_systems_resourc.Base.{
  ℕ, zero, suc, ◌+◌, ◌-◌, ◌*◌, ◌/◌, ◌%◌, ◌^◌, Bool, true, false, ◌&&◌, ◌||◌, Option, none, some,
  List, [], ◌∷◌, ltb, leb, ◌==◌, ◌!=◌, if◌then◌else◌, u8, u32, u64, ◌<<<◌, ◌>>>◌, bit_and, bit_or,
  get_or,
}

-- `rtc_date`
pub record Date : Type 0 where
  pub year : ℕ
  pub month : ℕ
  pub day : ℕ
  pub hour : ℕ
  pub minute : ℕ
  pub second : ℕ

-- `rtc_is_leap`
unfoldable pub is_leap : ℕ → Bool
is_leap year = (year % 4 == 0) && ((year % 100 != 0) || (year % 400 == 0))

-- `days`
abbrev pub days_table : List ℕ
days_table = 31 ∷ 28 ∷ 31 ∷ 30 ∷ 31 ∷ 30 ∷ 31 ∷ 31 ∷ 30 ∷ 31 ∷ 30 ∷ 31 ∷ []

-- `rtc_month_days`
unfoldable pub month_days : ℕ → ℕ → ℕ
month_days year month =
    if ltb month 1 || ltb 12 month
    then 0
    else get_or days_table (month - 1) 0 + (if (month == 2) && is_leap year then 1 else 0)

-- `rtc_date_valid`
unfoldable pub date_valid : Option Date → Bool
date_valid none = false
date_valid (some d) =
    leb 2000 d.year
    && leb d.year 2399
    && leb 1 d.month
    && leb d.month 12
    && leb 1 d.day
    && leb d.day (month_days d.year d.month)
    && ltb d.hour 24
    && ltb d.minute 60
    && ltb d.second 60

-- `rtc_bcd_decode`: the result, and what `out` points to afterwards.
unfoldable pub bcd_decode : ℕ → ℕ → Option ℕ → Bool × Option ℕ
bcd_decode raw max_value none = (false, none)
bcd_decode raw max_value (some out) =
    let hi = raw >>> 4 in
    let lo = bit_and raw 15 in
    let value = 10 * hi + lo in
    if ltb 99 max_value || ltb 9 hi || ltb 9 lo
    then (false, some out)
    else if ltb max_value value
    then (false, some out)
    else (true, some value)

-- `rtc_bcd_encode`
unfoldable pub bcd_encode : ℕ → Option ℕ → Bool × Option ℕ
bcd_encode value none = (false, none)
bcd_encode value (some out) =
    if ltb 99 value
    then (false, some out)
    else (true, some (u8 (bit_or ((value / 10) <<< 4) (value % 10))))

-- The days of a year, as both functions write it.
unfoldable pub year_days : ℕ → ℕ
year_days year = if is_leap year then 366 else 365

-- The `for` loops of `rtc_to_epoch2000`, with the rounds left: add up years, then months.
unfoldable pub sum_days : (ℕ → ℕ) → ℕ → ℕ → ℕ → ℕ
sum_days days_of zero at days = days
sum_days days_of (suc n) at days = sum_days days_of n (u32 (at + 1)) (u64 (days + days_of at))

-- `rtc_to_epoch2000`
unfoldable pub to_epoch : Option Date → Option ℕ → Bool × Option ℕ
to_epoch d none = (false, none)
to_epoch none (some out) = (false, some out)
to_epoch (some d) (some out) =
    let whole_years = sum_days year_days (d.year - 2000) 2000 0 in
    let whole_months = sum_days (month_days d.year) (d.month - 1) 1 whole_years in
    let days = u64 (whole_months + (d.day - 1)) in
    if date_valid (some d)
    then (true, some (u64 (days * 86400 + d.hour * 3600 + d.minute * 60 + d.second)))
    else (false, some out)

-- `RTC_EPOCH2000_LIMIT`
abbrev pub epoch_limit : ℕ
epoch_limit = 146097 * 86400

-- The two search loops of `rtc_from_epoch2000`: years, then months, are taken off while a whole one
-- fits. `none` when the rounds run out.
unfoldable pub take_off : (ℕ → ℕ) → ℕ → ℕ → ℕ → Option (ℕ × ℕ)
take_off days_of zero at days = none
take_off days_of (suc fuel) at days = elim (ltb days (days_of at)) [
  | true ↦ some (at, days)
  | false ↦ take_off days_of fuel (u32 (at + 1)) (u64 (days + 2 ^ 64 - days_of at))
]

-- What follows the loops.
abbrev pub date_of : ℕ → ℕ → ℕ → ℕ → Date
date_of year month days within = record {
  year = year;
  month = month;
  day = u32 (u32 days + 1);
  hour = within / 3600;
  minute = (within % 3600) / 60;
  second = within % 60;
}

-- `rtc_from_epoch2000`; 400 years and 12 months are rounds enough. `none` if a loop did not end.
unfoldable pub from_epoch : ℕ → Option Date → Option (Bool × Option Date)
from_epoch seconds none = some (false, none)
from_epoch seconds (some out) = elim (ltb seconds epoch_limit) [
  | false ↦ some (false, some out)
  | true ↦ elim (take_off year_days 400 2000 (seconds / 86400)) [
    | none ↦ none
    | some (year, days) ↦ elim (take_off (month_days year) 12 1 days) [
      | none ↦ none
      | some (month, rest) ↦ some (true, some (date_of year month rest (u32 (seconds % 86400))))
    ]
  ]
]
