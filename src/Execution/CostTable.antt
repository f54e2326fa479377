-- ===== src/Execution/CostTable.antt =====
-- include/execution/sim/matcher/cost_aware/cost_model/half_spread_linear/cost_row_reader.hpp. A file is
-- the lines that `std::getline` reads, or nothing where it cannot be opened. A message is the kind of
-- the error and its line; the texts that it quotes are left out. `std::from_chars` of an `int` and the
-- calendar of `std::chrono` are the language's: the second is the calendar of Binance/Csv/Civil.antt.
pub mod Lines
use quant_platform.Base.{
  ℕ, zero, suc, ◌+◌, ◌-◌, ◌*◌, ◌%◌, ◌^◌, ◌≡◌, Bool, true, false, ◌&&◌, ◌||◌, not, Option, none,
  some, List, [], ◌∷◌, ◌++◌, if◌then◌else◌, ◌==◌, ltb, leb, length, get_or, take, drop, ◌>>=◌,
}
use quant_platform.Base.Int.{ℤ, pos, negsuc, ◌*ℤ◌, neg_ℤ, pos_part, neg_part}
use quant_platform.Double.{Double}
use quant_platform.Core.Types.{Timestamp}
use quant_platform.Core.Subscription.{Subscription, Instrument, resolve, symbol_eq}
use quant_platform.Execution.HalfSpread.{CostRow}
use quant_platform.Binance.Csv.{is_digit, comma}
use quant_platform.Binance.Csv.Civil.{days_from_civil, days_in_month}
use quant_platform.Binance.Rows.{is_empty}

pub data ReadError : Type 0 where
  not_readable empty_file missing_columns : ReadError
  too_few_fields bad_market bad_week_start missing_rates bad_impact : (line_no : ℕ) → ReadError

-- The lambda `digits`.
number_of_digits : (value : ℕ) → List ℕ → Option ℕ
number_of_digits value [] = some value
number_of_digits value (c ∷ text) =
    let go = number_of_digits (value * 10 + (c - 48)) text in if is_digit c then go else none

abbrev day_ns : ℤ
day_ns = pos (86_400 * 1_000_000_000)

-- The test `ymd.ok()` and the date; a year of four digits is one.
date_ns : (y m d : ℕ) → Option Timestamp
date_ns y m d =
    if leb 1 d && leb d (days_in_month y m) then some (days_from_civil y m d *ℤ day_ns) else none

date_fields : List ℕ → Option Timestamp
unfolding number_of_digits date_ns
date_fields s = do
  y ← number_of_digits 0 (take 4 s)
  m ← number_of_digits 0 (take 2 (drop 5 s))
  d ← number_of_digits 0 (take 2 (drop 8 s))
  date_ns y m d

pub parse_iso_date_to_ns : List ℕ → Option Timestamp
unfolding date_fields
parse_iso_date_to_ns s =
    if length s == 10 && get_or s 4 0 == 45 && get_or s 7 0 == 45 then date_fields s else none

-- A value that is there, whole, and no NaN.
pub whole_number {ℓ} : {W : Type ℓ} ⦃d : Double W⦄ → Option (W × List ℕ) → Option W
whole_number none = none
whole_number ⦃d⦄ (some (v, left)) = if is_empty left && d.eq v v then some v else none

pub parse_optional_double {ℓ} : {W : Type ℓ} ⦃d : Double W⦄ → List ℕ → Option W
unfolding whole_number
parse_optional_double ⦃d⦄ s = if is_empty s then none else whole_number (d.from_chars s)

pub split_csv : List ℕ → List (List ℕ)
split_csv [] = [] ∷ []
split_csv (c ∷ line) =
    let fields = split_csv line in
    if c == comma
    then [] ∷ fields
    else elim fields [ [] ↦ (c ∷ []) ∷ [] | field ∷ rest ↦ (c ∷ field) ∷ rest ]

-- `none` for -1.
pub record HeaderIndex : Type 0 where
  pub symbol : Option ℕ
  pub market : Option ℕ
  pub week_start : Option ℕ
  pub half_spread_bps : Option ℕ
  pub impact_bps_per_unit : Option ℕ
  pub taker_fee_bps : Option ℕ

-- The names of the columns.
abbrev symbol_name : List ℕ
symbol_name = 115 ∷ 121 ∷ 109 ∷ 98 ∷ 111 ∷ 108 ∷ []

abbrev market_name : List ℕ
market_name = 109 ∷ 97 ∷ 114 ∷ 107 ∷ 101 ∷ 116 ∷ []

abbrev week_start_name : List ℕ
week_start_name = 119 ∷ 101 ∷ 101 ∷ 107 ∷ 95 ∷ 115 ∷ 116 ∷ 97 ∷ 114 ∷ 116 ∷ []

abbrev half_spread_name : List ℕ
half_spread_name =
    104 ∷ 97 ∷ 108 ∷ 102 ∷ 95 ∷ 115 ∷ 112 ∷ 114 ∷ 101 ∷ 97 ∷ 100 ∷ 95 ∷ 98 ∷ 112 ∷ 115 ∷ []

abbrev impact_name : List ℕ
impact_name =
    105 ∷ 109 ∷ 112 ∷ 97 ∷ 99 ∷ 116 ∷ 95 ∷ 98 ∷ 112 ∷ 115 ∷ 95 ∷ 112 ∷ 101 ∷ 114 ∷ 95 ∷ 117 ∷ 110
    ∷ 105 ∷ 116 ∷ []

abbrev taker_fee_name : List ℕ
taker_fee_name = 116 ∷ 97 ∷ 107 ∷ 101 ∷ 114 ∷ 95 ∷ 102 ∷ 101 ∷ 101 ∷ 95 ∷ 98 ∷ 112 ∷ 115 ∷ []

-- One round of the loop over the header's fields.
note_column : HeaderIndex → ℕ → List ℕ → HeaderIndex
note_column h i f =
    if symbol_eq f symbol_name
    then record h { symbol = some i }
    else if symbol_eq f market_name
    then record h { market = some i }
    else if symbol_eq f week_start_name
    then record h { week_start = some i }
    else if symbol_eq f half_spread_name
    then record h { half_spread_bps = some i }
    else if symbol_eq f impact_name
    then record h { impact_bps_per_unit = some i }
    else if symbol_eq f taker_fee_name
    then record h { taker_fee_bps = some i }
    else h

note_columns : HeaderIndex → ℕ → List (List ℕ) → HeaderIndex
unfolding note_column
note_columns h i [] = h
note_columns h i (f ∷ fields) = note_columns (note_column h i f) (i + 1) fields

pub parse_header : List ℕ → HeaderIndex
unfolding note_columns split_csv
parse_header line =
    note_columns
      (record {
        symbol = none;
        market = none;
        week_start = none;
        half_spread_bps = none;
        impact_bps_per_unit = none;
        taker_fee_bps = none;
      })
      0 (split_csv line)

-- The columns of a complete header.
pub record Columns : Type 0 where
  pub symbol : ℕ
  pub market : ℕ
  pub week_start : ℕ
  pub half_spread_bps : ℕ
  pub impact_bps_per_unit : ℕ
  pub taker_fee_bps : ℕ

-- `header_complete`, with the indices that are not -1 then.
pub header_complete : HeaderIndex → Option Columns
header_complete h = do
  symbol ← h.symbol
  market ← h.market
  week_start ← h.week_start
  half_spread_bps ← h.half_spread_bps
  impact_bps_per_unit ← h.impact_bps_per_unit
  taker_fee_bps ← h.taker_fee_bps
  some (record {
    symbol = symbol;
    market = market;
    week_start = week_start;
    half_spread_bps = half_spread_bps;
    impact_bps_per_unit = impact_bps_per_unit;
    taker_fee_bps = taker_fee_bps;
  })
