-- ===== src/Execution/Matcher/LastTrade/Examples.antt =====
-- An order after two bars of its instrument, on a book of two symbols.
use quant_platform.Base.{ℕ, ◌<◌, ◌≡◌, refl, some, [], ◌∷◌, arith}
use quant_platform.Base.Int.{pos, ◌*ℤ◌}
use quant_platform.Double.{Fixed, fixed, fixed_double}
use quant_platform.Core.Types.{EventKind, kline, MarketEvent, Order, buy}
use quant_platform.Core.Portfolio.{Portfolio, empty, index, slot}
use quant_platform.Core.Portfolio.Ledger.{InRange}
use quant_platform.Execution.Matcher.{filled, fill_of}
use quant_platform.Execution.Matcher.LastTrade.{try_fill}
use quant_platform.Execution.Matcher.LastTrade.Prices.{table, observe_all, try_fill_last}

abbrev book : Portfolio Fixed
unfolding empty
book = empty 1 2 2

abbrev bar : ℕ → ℕ → MarketEvent Fixed
bar symbol close = record {
  base = record { kind = EventKind.kline; exchange = 0; market = 0; symbol = symbol; ts = pos 7 };
  payload = kline (record {
    open_time = pos 0;
    open_price = fixed 1;
    high = fixed 1;
    low = fixed 1;
    close = fixed close;
    volume = fixed 1;
  });
}

abbrev order : Order Fixed
order = record { id = 1; exchange = 0; market = 0; symbol = 1; side = buy; qty = fixed 2 }

in_range : (symbol : ℕ) → symbol < 2 → InRange 1 book 0 0 symbol
unfolding empty
in_range symbol h = record { exchange_lt = omega arith; market_lt = omega arith; symbol_lt = h }

-- 2 units at 50 cost a fee of 0.04.
try_fill_last_example :
    try_fill
      (observe_all (table book (fixed 0 ∷ fixed 0 ∷ [])) (bar 1 40 ∷ bar 0 60 ∷ bar 1 50 ∷ []))
      order
      (pos 9)
    ≡ filled (fill_of order (pos 9) (fixed 50) (some (pos 400)))
unfolding empty index slot ◌*ℤ◌
try_fill_last_example =
    try_fill_last 1 (bar 1 40 ∷ bar 0 60 ∷ bar 1 50 ∷ []) book (fixed 0 ∷ fixed 0 ∷ []) order
      (pos 9) refl
      (in_range 1 (omega arith), (in_range 0 (omega arith), (in_range 1 (omega arith), tt)))
      (in_range 1 (omega arith))
