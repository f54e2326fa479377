-- ===== src/Strategy/Carry/Examples.antt =====
-- The carry strategy at one funding event.
use quant_platform.Base.{arith}
use quant_platform.Base.Int.{pos}
use quant_platform.Double.{Fixed, fixed, fixed_double}
use quant_platform.Core.Types.{EventBase, EventKind, funding, Intent}
use quant_platform.Core.Portfolio.{Portfolio, empty}
use quant_platform.Core.ViewablePool.{fresh}
use quant_platform.Strategy.Carry.{FundingCarryStrategy, on_event}
use quant_platform.Strategy.Carry.Intents.{on_event_lem, Answers}

abbrev blank : Intent Fixed
blank = record { exchange = 0; market = 0; symbol = 0; target_position = fixed 0 }

abbrev strategy : FundingCarryStrategy Fixed
strategy = record {
  config = record {
    futures = record { exchange = 0; market = 1; symbol = 0 };
    spot = record { exchange = 0; market = 0; symbol = 0 };
    target_qty = fixed 2;
    entry_funding_rate = fixed 1;
    exit_funding_rate = fixed 0;
  };
  buffer = fresh 2 blank;
}

abbrev base : EventBase
base = record { kind = EventKind.funding; exchange = 0; market = 1; symbol = 0; ts = pos 8 }

abbrev books : Portfolio Fixed
unfolding empty
books = empty 2 1 2

on_event_lem_example :
    Answers strategy.config books base
      (funding (record { funding_rate = fixed 1; interval_hours = pos 8 }))
      (on_event strategy books (record {
        base = base;
        payload = funding (record { funding_rate = fixed 1; interval_hours = pos 8 });
      })).0
unfolding empty
on_event_lem_example =
    (on_event_lem strategy books base
      (funding (record { funding_rate = fixed 1; interval_hours = pos 8 })) (omega arith)).0
