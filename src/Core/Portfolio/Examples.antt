-- ===== src/Core/Portfolio/Examples.antt =====
-- The theorems on the books at a portfolio of one exchange with two markets of two symbols, and tests.
use quant_platform.Base.{ℕ, ◌<◌, ◌≡◌, refl, [], ◌∷◌, arith}
use quant_platform.Base.Int.{pos, ◌+ℤ◌, ◌-ℤ◌, ◌*ℤ◌}
use quant_platform.Double.{Fixed, fixed, fixed_double}
use quant_platform.Core.Types.{
  buy, sell, EventBase, EventKind, trade, mark_price_kline, FundingEvent, MarketEvent, Fill,
}
use quant_platform.Core.Portfolio.{
  Portfolio, empty, position, fees_of, mark, equity, apply_fills, apply_fill, apply_mark_price,
  slot, index,
}
use quant_platform.Core.Portfolio.Ledger.{IsSized, InRange, apply_fills_ledger}
use quant_platform.Core.Portfolio.Funding.{apply_marks_last, apply_marks, funding_mark}

abbrev books : Portfolio Fixed
unfolding empty
books = empty 2 2 4

abbrev bought : Fill Fixed
bought = record {
  order_id = 1;
  exchange = 0;
  market = 1;
  symbol = 1;
  side = buy;
  ts = pos 5;
  price = fixed 100;
  qty = fixed 3;
  fee = fixed 1;
}

abbrev sold : Fill Fixed
sold = record bought { symbol = 0; side = sell; qty = fixed 2 }

books-IsSized : IsSized 1 books
unfolding empty
books-IsSized = record {
  positions = refl;
  mark_price = refl;
  funding_mark_price = refl;
  fees = refl;
  funding_paid = refl;
  funding_received = refl;
}

in_range : (m s : ℕ) → m < 2 → s < 2 → InRange 1 books 0 m s
unfolding empty
in_range m s h k = record {
  exchange_lt = omega arith;
  market_lt = omega arith;
  symbol_lt = omega arith;
}

one_one : InRange 1 books 0 1 1
one_one = in_range 1 1 (omega arith) (omega arith)

-- The sale of the other symbol does not show in the position of this one.
apply_fills_ledger_example :
    (position (apply_fills books (bought ∷ sold ∷ bought ∷ [])) 0 1 1 ≡ fixed 6)
    × (fees_of (apply_fills books (bought ∷ sold ∷ bought ∷ [])) 0 1 1 ≡ fixed 2)
unfolding empty position fees_of index slot ◌+ℤ◌
apply_fills_ledger_example =
    apply_fills_ledger 1 (bought ∷ sold ∷ bought ∷ []) books 0 1 1 books-IsSized
      (one_one, (in_range 1 0 (omega arith) (omega arith), (one_one, tt))) one_one

abbrev base : EventBase
base = record { kind = EventKind.funding; exchange = 0; market = 1; symbol = 1; ts = pos 8 }

abbrev marked_at : ℕ → MarketEvent Fixed
marked_at price = record {
  base = base;
  payload = mark_price_kline (record {
    open_time = pos 1;
    open_price = fixed price;
    high = fixed price;
    low = fixed price;
    close = fixed price;
  });
}

abbrev traded_at : ℕ → MarketEvent Fixed
traded_at price = record {
  base = base;
  payload = trade (record {
    id = 1;
    first_trade_id = 1;
    last_trade_id = 1;
    price = fixed price;
    qty = fixed 1;
    side = buy;
  });
}

-- The trade moves the mark and not the price that funding is charged on.
apply_marks_last_example :
    (mark (apply_marks books (marked_at 40 ∷ traded_at 50 ∷ [])) 0 1 1 ≡ fixed 50)
    × (funding_mark (apply_marks books (marked_at 40 ∷ traded_at 50 ∷ [])) 0 1 1 ≡ fixed 40)
apply_marks_last_example =
    apply_marks_last 1 (marked_at 40 ∷ traded_at 50 ∷ []) books 0 1 1 books-IsSized
      (one_one, (one_one, tt)) one_one

abbrev rate : FundingEvent Fixed
rate = record { funding_rate = fixed 1; interval_hours = pos 8 }

equity_test : equity (apply_mark_price (apply_fill books bought) (traded_at 110)) ≡ fixed 29
unfolding empty equity apply_fill apply_mark_price index slot ◌+ℤ◌ ◌-ℤ◌ ◌*ℤ◌
equity_test = refl
