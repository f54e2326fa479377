-- ===== src/Binance/Csv/Civil/Examples.antt =====
-- A leap day.
use quant_platform.Base.{◌≡◌, arith}
use quant_platform.Base.Int.{pos, ◌+ℤ◌}
use quant_platform.Binance.Csv.Civil.{days_from_civil, days_in_month}
use quant_platform.Binance.Csv.Civil.Days.{days_from_civil-next_date}

days_from_civil-next_date_example : days_from_civil 2024 2 29 ≡ days_from_civil 2024 2 28 +ℤ pos 1
unfolding days_in_month
days_from_civil-next_date_example =
    days_from_civil-next_date 2024 2 28 (omega arith) (omega arith) (omega arith) (omega arith)
