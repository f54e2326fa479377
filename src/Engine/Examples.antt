-- ===== src/Engine/Examples.antt =====
-- The engine over a list of inputs, the simulated gateway with the last trade matcher, the basic gate
-- and a strategy that asks for one unit at each event.
use quant_platform.Base.{◌≡◌, refl, Bool, true, false, Option, some, none, List, [], ◌∷◌, map}
use quant_platform.Base.Int.{pos}
use quant_platform.Double.{Fixed, fixed, fixed_double}
use quant_platform.Core.Types.{EventKind, trade, MarketEvent, Fill, buy}
use quant_platform.Core.Portfolio.{empty, apply_fills, apply_mark_price, apply_funding}
use quant_platform.Risk.Basic.{BasicRiskGate, basic_gate}
use quant_platform.Execution.Matcher.{PriceTable, empty_table, Matcher}
use quant_platform.Execution.Matcher.LastTrade.{last_trade}
use quant_platform.Execution.Sim.{SimExecution, sim_gateway}
use quant_platform.Execution.Sim.Outcomes.{fills_in, match_all}
use quant_platform.Execution.Gateway.{ExecutionGateway}
use quant_platform.Risk.Gate.{RiskGate}
use quant_platform.Strategy.{Strategy}
use quant_platform.Engine.{
  Engine, EngineInput, Transport, Recorder, handle, take_input, submit_orders,
}
use quant_platform.Engine.Steps.{handle_lem, orders_of}
use quant_platform.Engine.Latched.{handle_all, handle_all_tripped}
use quant_platform.Engine.Timer.{event_fills_once, timer_repeats_fills, timer}
use quant_platform.Core.SpmcQueue.{SpmcQueue}
use quant_platform.Engine.Backtest.{SpmcLeg, spmc_pop, BacktestTransport, backtest_transport}
use quant_platform.Engine.Backtest.Dry.{IsSound, IsUntimed, spmc_runs_dry, backtest_runs_dry}
use quant_platform.Engine.Run.{RunsDry}

abbrev head_of : List (EngineInput Fixed) → Option (EngineInput Fixed) × List (EngineInput Fixed)
head_of [] = (none, [])
head_of (i ∷ is) = (some i, is)

instance abbrev list_transport : Transport Fixed (List (EngineInput Fixed))
list_transport = record { next = head_of; flush = λ t. t }

instance abbrev last_trade_fixed : Matcher Fixed (PriceTable Fixed)
last_trade_fixed = last_trade

instance abbrev sim : ExecutionGateway Fixed (SimExecution Fixed (PriceTable Fixed))
sim = sim_gateway

instance abbrev gates : RiskGate Fixed (BasicRiskGate Fixed)
gates = basic_gate

instance abbrev eager : Strategy Fixed (Unit {0})
eager = record {
  on_event = λ s p ev.
      (record { exchange = 0; market = 0; symbol = 0; target_position = fixed 1 } ∷ [], s);
  on_timer = λ s p ts. ([], s);
}

instance abbrev silent : Recorder Fixed (Unit {0})
silent = record { sample = λ c ts p. c }

abbrev Sample : Type 0
Sample =
    Engine Fixed (List (EngineInput Fixed)) (SimExecution Fixed (PriceTable Fixed))
      (BasicRiskGate Fixed) (Unit {0}) (Unit {0})

abbrev gate : Bool → BasicRiskGate Fixed
gate tripped = record {
  config = record { max_position_qty = fixed 10; max_drawdown = fixed 50; tracked = [] };
  next_id = 1;
  tripped = tripped;
  peak_equity = fixed 0;
  orders = [];
}

abbrev bought : Fill Fixed
bought = record {
  order_id = 1;
  exchange = 0;
  market = 0;
  symbol = 0;
  side = buy;
  ts = pos 5;
  price = fixed 100;
  qty = fixed 3;
  fee = fixed 1;
}

-- An engine whose gateway shows one fill, with its gate open or tripped.
abbrev sample : Bool → List (EngineInput Fixed) → Sample
unfolding empty
sample tripped inputs = record {
  transport = inputs;
  exec = record { matcher = empty_table 1 1 1; fills = bought ∷ []; rejects = [] };
  risk = gate tripped;
  strategy = tt;
  portfolio = empty 1 1 1;
  recorder = tt;
}

abbrev print : MarketEvent Fixed
print = record {
  base = record { kind = EventKind.trade; exchange = 0; market = 0; symbol = 0; ts = pos 7 };
  payload = trade (record {
    id = 1;
    first_trade_id = 1;
    last_trade_id = 1;
    price = fixed 50;
    qty = fixed 1;
    side = buy;
  });
}

abbrev event : EngineInput Fixed
event = record { ts = pos 7; event = some print }

handle_lem_example :
    (handle (sample false []) event).exec
    ≡ submit_orders
        (orders_of (sample false []) event).0
        (pos 7)
        (take_input (sample false []) event).1.exec
unfolding empty
handle_lem_example = (handle_lem (sample false []) event).0

handle_all_tripped_example :
    (handle_all (sample true []) (event ∷ timer (pos 9) ∷ [])).risk.tripped ≡ true
unfolding empty
handle_all_tripped_example =
    (handle_all_tripped (event ∷ timer (pos 9) ∷ []) (sample true []) refl).1

event_fills_once_example :
    (handle (sample false []) event).portfolio
    ≡ apply_fills (apply_mark_price (apply_funding (sample false []).portfolio print) print) (
        fills_in
          (match_all
            (last_trade_fixed.on_market_event (sample false []).exec.matcher print)
            (orders_of (sample false []) event).0
            (pos 7)).0)
unfolding empty
event_fills_once_example = event_fills_once (sample false []) (pos 7) print

timer_repeats_fills_example :
    (handle_all (sample true []) (map timer (pos 8 ∷ pos 9 ∷ []))).portfolio
    ≡ apply_fills (apply_fills (sample true []).portfolio (bought ∷ [])) (bought ∷ [])
unfolding empty
timer_repeats_fills_example = timer_repeats_fills (pos 8 ∷ pos 9 ∷ []) (sample true []) refl

-- The transport of the code over its queue, with one event in it.
instance abbrev replay : Transport Fixed (BacktestTransport Fixed (SpmcLeg Fixed))
replay = backtest_transport ⦃q = spmc_pop 1⦄

abbrev Replayed : Type 0
Replayed =
    Engine Fixed (BacktestTransport Fixed (SpmcLeg Fixed)) (SimExecution Fixed (PriceTable Fixed))
      (BasicRiskGate Fixed) (Unit {0}) (Unit {0})

abbrev loaded : SpmcQueue (MarketEvent Fixed)
loaded = record { storage = λ i. some print; published = 1; cursors = λ c. 0 }

abbrev replayed : Replayed
unfolding empty
replayed = record {
  transport = record {
    legs = record { queue = record { queue = loaded; consumer = 0 }; lookahead = none } ∷ [];
    timer_period = pos 0;
    next_timer = pos 0;
    timer_armed = false;
    flushing = false;
  };
  exec = record { matcher = empty_table 1 1 1; fills = []; rejects = [] };
  risk = gate false;
  strategy = tt;
  portfolio = empty 1 1 1;
  recorder = tt;
}

abbrev queue_runs_dry : RunsDry replay (IsUntimed ⦃q = spmc_pop 1⦄ IsSound (spmc_runs_dry 1))
queue_runs_dry = backtest_runs_dry ⦃q = spmc_pop 1⦄ IsSound (spmc_runs_dry 1)
