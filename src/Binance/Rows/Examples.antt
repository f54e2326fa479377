-- ===== src/Binance/Rows/Examples.antt =====
-- A row of the aggTrades dataset.
use quant_platform.Base.{ℕ, ◌≡◌, refl, false, some, List, [], ◌∷◌}
use quant_platform.Base.Int.{pos, ◌*ℤ◌}
use quant_platform.Double.{Fixed, fixed, fixed_double}
use quant_platform.Core.Types.{TradeEvent, sell}
use quant_platform.Binance.Csv.{take_integer, take_decimal, take_stamp, take_bool}
use quant_platform.Binance.Endpoints.{
  Endpoint, market_path_of, kind_path_of, usd_m, agg_trades, both, no_column,
}
use quant_platform.Binance.Rows.{parse_agg_trades_row}

-- "7,2,3,1,4,1700000000000,true".
abbrev trade_row : List ℕ
trade_row =
    55 ∷ 44 ∷ 50 ∷ 44 ∷ 51 ∷ 44 ∷ 49 ∷ 44 ∷ 52 ∷ 44 ∷ 49 ∷ 55 ∷ 48 ∷ 48 ∷ 48 ∷ 48 ∷ 48 ∷ 48 ∷ 48
    ∷ 48 ∷ 48 ∷ 48 ∷ 48 ∷ 44 ∷ 116 ∷ 114 ∷ 117 ∷ 101 ∷ []

abbrev trade_read : TradeEvent Fixed
trade_read = record {
  id = 7;
  first_trade_id = 1;
  last_trade_id = 4;
  price = fixed 2;
  qty = fixed 3;
  side = sell;
}

abbrev um_trades : Endpoint
um_trades = record {
  market_path = market_path_of usd_m;
  kind_path = kind_path_of agg_trades;
  cadence = both;
  intervalled = false;
  column_count = 7;
  volume_column = no_column;
}

row_reads :
    parse_agg_trades_row um_trades trade_row ≡ some (pos 1_700_000_000_000_000_000, trade_read)
unfolding parse_agg_trades_row take_integer take_decimal take_stamp take_bool ◌*ℤ◌
row_reads = refl
