-- ===== src/Execution/CostTable/Lines/Examples.antt =====
-- A table of two lines, the second of which has a rate that is no number.
use quant_platform.Base.{
  ℕ, zero, suc, ◌+◌, ◌-◌, ◌*◌, ◌≡◌, refl, Option, none, some, List, [], ◌∷◌, if◌then◌else◌,
}
use quant_platform.Double.{Double, Fixed, fixed, fixed_double}
use quant_platform.Binance.Csv.{is_digit}
use quant_platform.Core.Subscription.{Subscription}
use quant_platform.Execution.CostTable.{Columns}
use quant_platform.Execution.CostTable.Lines.{head_digits, read_market, parse_market, read_lines}
use quant_platform.Execution.CostTable.Lines.Errors.{Verdict, read_lines-Verdict}

-- The whole numbers at the head of a text.
whole_chars : (value count : ℕ) → List ℕ → Option (Fixed × List ℕ)
whole_chars value zero [] = none
whole_chars value (suc n) [] = some (fixed value, [])
whole_chars value count (c ∷ text) =
    let go = whole_chars (value * 10 + (c - 48)) (count + 1) text in
    if is_digit c then go else elim count [ zero ↦ none | suc n ↦ some (fixed value, c ∷ text) ]

abbrev whole_double : Double Fixed
unfolding whole_chars
whole_double = record fixed_double { from_chars = whole_chars 0 0 }

abbrev columns : Columns
columns = record {
  symbol = 0;
  market = 1;
  week_start = 2;
  half_spread_bps = 3;
  impact_bps_per_unit = 4;
  taker_fee_bps = 5;
}

abbrev known : Subscription
known =
    record {
      exchange = 0;
      markets = record { market = 1; symbols = (66 ∷ 84 ∷ 67 ∷ []) ∷ [] } ∷ [];
    }
    ∷ []

-- "BTC,1,2024-01-01,2,,4"
abbrev good_line : List ℕ
good_line =
    66 ∷ 84 ∷ 67 ∷ 44 ∷ 49 ∷ 44 ∷ 50 ∷ 48 ∷ 50 ∷ 52 ∷ 45 ∷ 48 ∷ 49 ∷ 45 ∷ 48 ∷ 49 ∷ 44 ∷ 50 ∷ 44
    ∷ 44 ∷ 52 ∷ []

-- "BTC,1,2024-01-08,x,,4"
abbrev bad_line : List ℕ
bad_line =
    66 ∷ 84 ∷ 67 ∷ 44 ∷ 49 ∷ 44 ∷ 50 ∷ 48 ∷ 50 ∷ 52 ∷ 45 ∷ 48 ∷ 49 ∷ 45 ∷ 48 ∷ 56 ∷ 44 ∷ 120 ∷ 44
    ∷ 44 ∷ 52 ∷ []

abbrev table : List (List ℕ)
table = good_line ∷ bad_line ∷ good_line ∷ []

read_lines-Verdict_example :
    Verdict Fixed ⦃d = whole_double⦄ known 0 columns 1 table
      (read_lines ⦃d = whole_double⦄ known 0 columns 1 table)
read_lines-Verdict_example = read_lines-Verdict Fixed ⦃d = whole_double⦄ known 0 columns 1 table

-- "1x" and "65537" are market 1.
market_with_tail : parse_market (49 ∷ 120 ∷ []) ≡ some 1
unfolding parse_market read_market head_digits
market_with_tail = refl

market_that_wraps : parse_market (54 ∷ 53 ∷ 53 ∷ 51 ∷ 55 ∷ []) ≡ some 1
unfolding parse_market read_market head_digits
market_that_wraps = refl
