-- ===== src/Binance/Rows/BookDepth/Examples.antt =====
-- A sample of ten rows.
use quant_platform.Base.{ℕ, zero, suc, ◌+◌, ◌*◌, ◌≡◌, refl, some, List, [], ◌∷◌, ◌++◌}
use quant_platform.Base.Int.{pos, ◌*ℤ◌, ◌+ℤ◌, ◌-ℤ◌}
use quant_platform.Double.{Fixed, fixed, fixed_double}
use quant_platform.Core.Types.{Timestamp, DepthBand}
use quant_platform.Binance.Csv.{take_decimal}
use quant_platform.Binance.Csv.Civil.{take_datetime, read_fields, nanos_of, days_in_month}
use quant_platform.Binance.Stream.Lines.{take_row}
use quant_platform.Binance.Rows.BookDepth.{
  read_depth_row, add_inner, add_whole, add_band, add_row, take_depth_row, read_sample,
  finish_sample, parse_book_depth_group,
}
use quant_platform.Binance.Rows.BookDepth.Samples.{IsSample, parse_book_depth_group-IsSample}

-- A row whose depth is the last digit of its percent.
row_of : List ℕ → ℕ → List ℕ
row_of sign digit =
    (50 ∷ 48 ∷ 50 ∷ 51 ∷ 45 ∷ 48 ∷ 49 ∷ 45 ∷ 48 ∷ 49 ∷ 32 ∷ 48 ∷ 48 ∷ 58 ∷ 48 ∷ 48 ∷ 58 ∷ 48 ∷ 48
      ∷ 44 ∷ [])
    ++ (sign ++ (digit ∷ 44 ∷ digit ∷ 44 ∷ 50 ∷ 10 ∷ []))

rows_from : ℕ → List ℕ → List ℕ
unfolding row_of
rows_from zero sign = []
rows_from (suc n) sign = row_of sign (48 + suc n) ++ rows_from n sign

block : List ℕ
unfolding rows_from
block = rows_from 5 (45 ∷ []) ++ rows_from 5 []

abbrev side : List (DepthBand Fixed)
side =
    record { depth = fixed 1; notional = fixed 2 }
    ∷ record { depth = fixed 2; notional = fixed 2 }
    ∷ record { depth = fixed 3; notional = fixed 2 }
    ∷ record { depth = fixed 4; notional = fixed 2 }
    ∷ record { depth = fixed 5; notional = fixed 2 }
    ∷ []

abbrev new_year : Timestamp
new_year = pos (19_358 * 86_400 * 1_000_000_000)

block_reads :
    parse_book_depth_group {W = Fixed} block ≡ some (new_year, record { bids = side; asks = side })
unfolding parse_book_depth_group block read_sample finish_sample take_depth_row add_row add_band
    add_whole add_inner read_depth_row take_row take_datetime take_decimal read_fields nanos_of
    days_in_month ◌*ℤ◌ ◌+ℤ◌ ◌-ℤ◌
block_reads = refl

parse_book_depth_group-IsSample_example :
    IsSample {W = Fixed} block new_year (record { bids = side; asks = side })
parse_book_depth_group-IsSample_example =
    parse_book_depth_group-IsSample block new_year (record { bids = side; asks = side }) block_reads
