-- ===== src/Binance/Csv/Civil.antt =====
-- The calendar of csv_field.hpp: days since the epoch, and the stamps written as date and time. The
-- years are those of four digits, so nothing is negative before the last subtraction.
pub mod Days
mod Examples
use quant_platform.Base.{
  ℕ, zero, suc, ◌+◌, ◌-◌, ◌*◌, ◌/◌, ◌%◌, ◌<◌, ◌≤◌, ◌≡◌, ◌⊎◌, Bool, true, false, ◌&&◌, ◌||◌, not,
  Option, none, some, List, [], ◌∷◌, if◌then◌else◌, ◌>>=◌, ◌==◌, ltb, leb, get_or, drop, length,
  arith,
}
use quant_platform.Base.Int.{ℤ, pos, ◌+ℤ◌, ◌-ℤ◌, ◌*ℤ◌}
use quant_platform.Core.Types.{Timestamp}
use quant_platform.Binance.Csv.{is_digit, comma, past_comma, ends_field}

-- The days from the first of March of the year -400 on. `era` is a floor division, whose year may be
-- -1: here it is one era up, so that all of it is natural.
pub civil_days : (y m d : ℕ) → ℕ
civil_days y m d =
    let y' = if leb m 2 then y + 400 - 1 else y + 400 in
    let era = y' / 400 in
    let yoe = y' - era * 400 in
    let doy = (153 * (if ltb 2 m then m - 3 else m + 9) + 2) / 5 + d - 1 in
    let doe = yoe * 365 + yoe / 4 - yoe / 100 + doy in era * 146_097 + doe

-- The epoch, and the 146097 days of the era that `civil_days` is ahead.
unfoldable pub days_from_civil : (y m d : ℕ) → ℤ
unfolding civil_days
days_from_civil y m d = pos (civil_days y m d) -ℤ pos (719_468 + 146_097)

abbrev pub is_leap : ℕ → Bool
is_leap year = (year % 4 == 0 && not (year % 100 == 0)) || year % 400 == 0

abbrev pub month_lengths : List ℕ
month_lengths = 31 ∷ 28 ∷ 31 ∷ 30 ∷ 31 ∷ 30 ∷ 31 ∷ 31 ∷ 30 ∷ 31 ∷ 30 ∷ 31 ∷ []

unfoldable pub days_in_month : (year month : ℕ) → ℕ
days_in_month year month =
    if ltb month 1 || ltb 12 month
    then 0
    else if month == 2 && is_leap year
    then 29
    else get_or month_lengths (month - 1) 0

-- The loop of `fixed_digits`, over `count` bytes from the head.
pub fixed_digits : List ℕ → (count value : ℕ) → Option ℕ
fixed_digits field zero value = some value
fixed_digits [] (suc count) value = none
fixed_digits (c ∷ field) (suc count) value =
    let go = fixed_digits field count (value * 10 + (c - 48)) in if is_digit c then go else none

-- What `take_datetime` reads of a row of at least 19 bytes.
pub record DateTime : Type 0 where
  pub year : ℕ
  pub month : ℕ
  pub day : ℕ
  pub hour : ℕ
  pub minute : ℕ
  pub second : ℕ

-- The separators of the first 19 bytes.
abbrev pub has_separators : List ℕ → Bool
has_separators row =
    get_or row 4 0 == 45
    && get_or row 7 0 == 45
    && get_or row 10 0 == 32
    && get_or row 13 0 == 58
    && get_or row 16 0 == 58

unfoldable pub read_fields : List ℕ → Option DateTime
unfolding fixed_digits
read_fields row = do
  year ← fixed_digits row 4 0
  month ← fixed_digits (drop 5 row) 2 0
  day ← fixed_digits (drop 8 row) 2 0
  hour ← fixed_digits (drop 11 row) 2 0
  minute ← fixed_digits (drop 14 row) 2 0
  second ← fixed_digits (drop 17 row) 2 0
  some (record {
    year = year;
    month = month;
    day = day;
    hour = hour;
    minute = minute;
    second = second;
  })

-- The guards on the fields.
abbrev pub in_calendar : DateTime → Bool
in_calendar t =
    leb 1 t.day
    && leb t.day (days_in_month t.year t.month)
    && leb t.hour 23
    && leb t.minute 59
    && leb t.second 59

unfoldable pub nanos_of : DateTime → Timestamp
unfolding days_from_civil
nanos_of t =
    (days_from_civil t.year t.month t.day *ℤ pos 86_400
      +ℤ pos (t.hour * 3_600 + t.minute * 60 + t.second))
    *ℤ pos 1_000_000_000

unfoldable pub take_datetime : List ℕ → Option (Timestamp × List ℕ)
unfolding read_fields nanos_of
take_datetime row =
    if leb 19 (length row) && has_separators row
    then (do
      t ← read_fields row
      if in_calendar t && ends_field (drop 19 row)
          then some (nanos_of t, past_comma (drop 19 row))
          else none)
    else none

-- The calendar's next day.
abbrev pub next_date : (y m d : ℕ) → ℕ × ℕ × ℕ
next_date y m d =
    if ltb d (days_in_month y m)
    then (y, m, d + 1)
    else if ltb m 12
    then (y, m + 1, 1)
    else (y + 1, 1, 1)
