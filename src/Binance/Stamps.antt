-- ===== src/Binance/Stamps.antt =====
-- The names of the files: last_segment of
-- src/data_source/source/exchange/binance/binance_historical/listing.cpp, and the stamps, intervals and
-- expected rows of include/data_source/source/exchange/binance/binance_historical/stream.hpp. Years,
-- months and counts stay far below the limits of their types for the names that the bucket has.
use quant_platform.Base.{
  ℕ, zero, suc, ◌+◌, ◌-◌, ◌*◌, ◌/◌, Bool, true, ◌&&◌, ◌||◌, List, [], ◌∷◌, if◌then◌else◌, ◌==◌, ltb,
  leb, length, get_or, drop, take,
}
use quant_platform.Base.Int.{ℤ, pos, ◌-ℤ◌, ◌*ℤ◌}
use quant_platform.Core.Types.{Timestamp}
use quant_platform.Core.Subscription.{symbol_eq}
use quant_platform.Binance.Csv.{is_digit}
use quant_platform.Binance.Csv.Civil.{days_from_civil, days_in_month}

-- `remove_suffix(1)` where the path ends in a slash.
trim_slash : List ℕ → List ℕ
trim_slash [] = []
trim_slash (c ∷ []) = if c == 47 then [] else c ∷ []
trim_slash (c ∷ d ∷ path) = c ∷ trim_slash (d ∷ path)

-- What follows the last slash, or all of it.
after_slash : (found : List ℕ) → List ℕ → List ℕ
after_slash found [] = found
after_slash found (c ∷ path) = after_slash (if c == 47 then path else found) path

pub last_segment : List ℕ → List ℕ
unfolding trim_slash after_slash
last_segment path = let path = trim_slash path in after_slash path path

-- The last `n` bytes of a text that has them.
abbrev pub last_bytes : ℕ → List ℕ → List ℕ
last_bytes n s = drop (length s - n) s

pub ends_with : List ℕ → List ℕ → Bool
ends_with s suffix =
    leb (length suffix) (length s) && symbol_eq (last_bytes (length suffix) s) suffix

pub digits_at : List ℕ → (at count : ℕ) → Bool
digits_at s at zero = true
digits_at s at (suc count) = is_digit (get_or s at 0) && digits_at s (at + 1) count

-- The two shapes of a stamp.
abbrev is_month_stamp : List ℕ → Bool
is_month_stamp tail = digits_at tail 0 4 && get_or tail 4 0 == 45 && digits_at tail 5 2

abbrev is_day_stamp : List ℕ → Bool
is_day_stamp tail = is_month_stamp tail && get_or tail 7 0 == 45 && digits_at tail 8 2

-- The stamp of a name whose suffix is gone.
stamp_in : List ℕ → List ℕ
unfolding digits_at
stamp_in name =
    if leb 10 (length name) && is_day_stamp (last_bytes 10 name)
    then last_bytes 10 name
    else if leb 7 (length name) && is_month_stamp (last_bytes 7 name)
    then last_bytes 7 name
    else []

unfoldable pub stamp_of : List ℕ → List ℕ
unfolding stamp_in last_segment ends_with
stamp_of key =
    let name = last_segment key in
    if ends_with name (46 ∷ 122 ∷ 105 ∷ 112 ∷ [])
    then stamp_in (take (length name - 4) name)
    else []

-- The digits of a stamp.
abbrev digit_at : List ℕ → ℕ → ℕ
digit_at stamp i = get_or stamp i 0 - 48

abbrev pub stamp_year : List ℕ → ℕ
stamp_year stamp =
    digit_at stamp 0 * 1000 + digit_at stamp 1 * 100 + digit_at stamp 2 * 10 + digit_at stamp 3

abbrev pub stamp_month : List ℕ → ℕ
stamp_month stamp = digit_at stamp 5 * 10 + digit_at stamp 6

abbrev pub stamp_day : List ℕ → ℕ
stamp_day stamp = if leb 10 (length stamp) then digit_at stamp 8 * 10 + digit_at stamp 9 else 1

-- `days_from_civil`, which takes a day 00 as the day before the first.
start_days : (y m d : ℕ) → ℤ
start_days y m zero = days_from_civil y m 1 -ℤ pos 1
start_days y m (suc d) = days_from_civil y m (suc d)

unfoldable pub stamp_start_nanos : List ℕ → Timestamp
unfolding start_days
stamp_start_nanos stamp =
    if ltb (length stamp) 7
    then pos 0
    else start_days (stamp_year stamp) (stamp_month stamp) (stamp_day stamp)
      *ℤ pos (86_400 * 1_000_000_000)

-- The digits at the head of a token, and what follows them.
leading_count : (count : ℕ) → List ℕ → ℕ × List ℕ
leading_count count [] = (count, [])
leading_count count (c ∷ token) =
    let go = leading_count (count * 10 + (c - 48)) token in
    if is_digit c then go else (count, c ∷ token)

-- The seconds of a unit: "s", "m", "h", "d" and "w", or none.
abbrev unit_seconds : List ℕ → ℕ
unit_seconds unit =
    if symbol_eq unit (115 ∷ [])
    then 1
    else if symbol_eq unit (109 ∷ [])
    then 60
    else if symbol_eq unit (104 ∷ [])
    then 3_600
    else if symbol_eq unit (100 ∷ [])
    then 86_400
    else if symbol_eq unit (119 ∷ [])
    then 7 * 86_400
    else 0

pub interval_nanos : List ℕ → ℕ
unfolding leading_count
interval_nanos interval =
    let (count, unit) = leading_count 0 interval in count * unit_seconds unit * 1_000_000_000

abbrev day_nanos : ℕ
day_nanos = 86_400 * 1_000_000_000

unfoldable pub expected_rows : (interval stamp : List ℕ) → ℕ
unfolding interval_nanos
expected_rows interval stamp =
    let width = interval_nanos interval in
    let span =
      if ltb (length stamp) 10
      then days_in_month (stamp_year stamp) (stamp_month stamp) * day_nanos
      else day_nanos in
    if width == 0 || ltb (length stamp) 7 then 0 else span / width
