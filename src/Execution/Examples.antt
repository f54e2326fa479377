-- ===== src/Execution/Examples.antt =====
-- The simulated gateway with the last trade matcher.
use quant_platform.Base.{ℕ, ◌≡◌, [], ◌∷◌}
use quant_platform.Base.Int.{pos}
use quant_platform.Double.{Fixed, fixed, fixed_double}
use quant_platform.Core.Types.{EventKind, trade, MarketEvent, Order, buy, sell}
use quant_platform.Execution.Matcher.{PriceTable, empty_table, Matcher}
use quant_platform.Execution.Matcher.LastTrade.{last_trade}
use quant_platform.Execution.Sim.{SimExecution, on_market_event}
use quant_platform.Execution.Sim.Outcomes.{
  submit_all, match_all, fills_in, rejects_in, outcomes_since_event,
}

instance abbrev last_trade_fixed : Matcher Fixed (PriceTable Fixed)
last_trade_fixed = last_trade

abbrev order : ℕ → ℕ → Order Fixed
order i symbol = record {
  id = i;
  exchange = 0;
  market = 0;
  symbol = symbol;
  side = buy;
  qty = fixed 2;
}

abbrev print : MarketEvent Fixed
print = record {
  base = record { kind = EventKind.trade; exchange = 0; market = 0; symbol = 1; ts = pos 7 };
  payload = trade (record {
    id = 1;
    first_trade_id = 1;
    last_trade_id = 1;
    price = fixed 50;
    qty = fixed 1;
    side = sell;
  });
}

abbrev venue : SimExecution Fixed (PriceTable Fixed)
venue = record { matcher = empty_table 1 2 2; fills = []; rejects = [] }

outcomes_since_event_example :
    let (outcomes, last) =
      match_all
        (last_trade_fixed.on_market_event venue.matcher print)
        (order 1 0 ∷ order 2 1 ∷ [])
        (pos 7) in
    let y = submit_all (on_market_event venue print) (order 1 0 ∷ order 2 1 ∷ []) (pos 7) in
    (y.fills ≡ fills_in outcomes) × (y.rejects ≡ rejects_in outcomes) × (y.matcher ≡ last)
outcomes_since_event_example = outcomes_since_event venue print (order 1 0 ∷ order 2 1 ∷ []) (pos 7)
