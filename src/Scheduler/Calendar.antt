-- ===== src/Scheduler/Calendar.antt =====
-- The proleptic Gregorian calendar, as far as `strftime("%Y-W%U")` needs it: the year of an instant,
-- and its week, where weeks begin on Sundays and the days before the first Sunday are in week 0.
use cloud_sentinel_ai.Base.{
  ℕ, ◌+◌, ◌-◌, ◌*◌, ◌/◌, ◌%◌, Instant, days, leb, ◌==◌, ◌&&◌, ◌||◌, not, if◌then◌else◌, Bool,
}

-- Days since the 1st of March of the year 0, for a day counted from 1970-01-01.
abbrev shifted : ℕ → ℕ
shifted day = day + 719468

-- The day within its 400 years, the year within them, and the day within that year from March on.
abbrev day_of_era : ℕ → ℕ
day_of_era day = shifted day % 146097

abbrev year_of_era : ℕ → ℕ
year_of_era day = let d = day_of_era day in (d - d / 1460 + d / 36524 - d / 146096) / 365

abbrev day_from_march : ℕ → ℕ
day_from_march day = let y = year_of_era day in day_of_era day - (365 * y + y / 4 - y / 100)

-- January and February, which come last.
abbrev is_after_december : ℕ → Bool
is_after_december day = leb 306 (day_from_march day)

unfoldable pub year : ℕ → ℕ
year day =
    let y = year_of_era day + shifted day / 146097 * 400 in
    if is_after_december day then y + 1 else y

abbrev is_leap : ℕ → Bool
is_leap y = (y % 4 == 0) && (not (y % 100 == 0) || (y % 400 == 0))

-- The day within the year, from 0.
unfoldable pub day_of_year : ℕ → ℕ
unfolding year
day_of_year day =
    if is_after_december day
    then day_from_march day - 306
    else day_from_march day + (if is_leap (year day) then 60 else 59)

-- The day within the week, from Sunday, which is 0; the first of January 1970 was a Thursday.
abbrev day_of_week : ℕ → ℕ
day_of_week day = (day + 4) % 7

-- The year and the week, as one number.
unfoldable pub week : Instant → ℕ
unfolding year day_of_year
week now = let day = now / days 1 in year day * 100 + (day_of_year day + 7 - day_of_week day) / 7
