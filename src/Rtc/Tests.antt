-- ===== src/Rtc/Tests.antt =====
-- The calendar's theorems at concrete inputs.
use embedded_systems_resourc.Base.{ℕ, ◌<◌, ◌≡◌, refl, true, some, arith}
use embedded_systems_resourc.Rtc.{
  Date, bcd_encode, bcd_decode, to_epoch, from_epoch, date_valid, epoch_limit, is_leap, month_days,
}
use embedded_systems_resourc.Rtc.Bcd.{bcd-round_trip}
use embedded_systems_resourc.Rtc.Epoch.{from_epoch-to_epoch, to_epoch-from_epoch}

-- The last second of a leap day.
abbrev leap_day : Date
leap_day = record { year = 2024; month = 2; day = 29; hour = 23; minute = 59; second = 59 }

abbrev epoch : Date
epoch = record { year = 2000; month = 1; day = 1; hour = 0; minute = 0; second = 0 }

leap_day_valid : date_valid (some leap_day) ≡ true
unfolding date_valid month_days is_leap
leap_day_valid = refl

from_epoch-to_epoch_example :
    (seconds : ℕ) × (to_epoch (some leap_day) (some 0) ≡ (true, some seconds))
    × (seconds < epoch_limit)
    × (from_epoch seconds (some epoch) ≡ some (true, some leap_day))
from_epoch-to_epoch_example = from_epoch-to_epoch leap_day 0 epoch leap_day_valid

to_epoch-from_epoch_example :
    (d : Date) × (from_epoch 1000000000 (some epoch) ≡ some (true, some d))
    × (date_valid (some d) ≡ true)
    × (to_epoch (some d) (some 0) ≡ (true, some 1000000000))
to_epoch-from_epoch_example = to_epoch-from_epoch 1000000000 epoch 0 (omega arith)

bcd_read_back :
    (raw : ℕ) × (bcd_encode 42 (some 0) ≡ (true, some raw))
    × (bcd_decode raw 59 (some 0) ≡ (true, some 42))
bcd_read_back = bcd-round_trip 42 59 0 0 (omega arith) (omega arith)
