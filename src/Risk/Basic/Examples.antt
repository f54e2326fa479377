-- ===== src/Risk/Basic/Examples.antt =====
-- A gate over a portfolio that holds three units, open and tripped.
use quant_platform.Base.{◌≡◌, refl, inr, true, false, some, [], ◌∷◌, map}
use quant_platform.Base.Int.{negsuc, ◌+ℤ◌, ◌-ℤ◌, ◌*ℤ◌}
use quant_platform.Double.{Fixed, fixed, fixed_double, Fixed-IsIeee}
use quant_platform.Core.Types.{Intent, Order}
use quant_platform.Core.Portfolio.{Portfolio, position, index, slot, equity}
use quant_platform.Risk.Basic.{BasicRiskGate, BasicRiskGateConfig, fresh_gate, check, on_tick}
use quant_platform.Risk.Basic.Sizing.{Sizes, check-Sizes}
use quant_platform.Risk.Basic.Latch.{run_gate, run_gate_ids, run_gate_trips, checks, ticks}
use quant_platform.Risk.Basic.Flatten.{on_tick_closes, move}

abbrev holding : Portfolio Fixed
holding = record {
  max_market = 1;
  max_symbol = 1;
  positions = fixed 3 ∷ [];
  mark_price = fixed 10 ∷ [];
  funding_mark_price = fixed 10 ∷ [];
  fees = fixed 0 ∷ [];
  funding_paid = fixed 0 ∷ [];
  funding_received = fixed 0 ∷ [];
  cash = fixed 0;
}

abbrev config : BasicRiskGateConfig Fixed
config = record {
  max_position_qty = fixed 10;
  max_drawdown = fixed 50;
  tracked = record { exchange = 0; market = 0; symbol = 0 } ∷ [];
}

abbrev gate : BasicRiskGate Fixed
unfolding fresh_gate
gate = fresh_gate config

-- A gate that has seen an equity of 100, so that the 30 of now are a fall by 70.
abbrev high : BasicRiskGate Fixed
high = record {
  config = config;
  next_id = 4;
  tripped = false;
  peak_equity = fixed 100;
  orders = [];
}

abbrev shut_gate : BasicRiskGate Fixed
shut_gate = record {
  config = config;
  next_id = 4;
  tripped = true;
  peak_equity = fixed 100;
  orders = [];
}

abbrev wish : Intent Fixed
wish = record { exchange = 0; market = 0; symbol = 0; target_position = fixed 25 }

check-Sizes_example : Sizes Fixed-IsIeee gate holding wish (fixed 10)
unfolding fresh_gate position index slot ◌-ℤ◌
check-Sizes_example =
    check-Sizes Fixed-IsIeee gate holding wish (fixed 10) refl refl (inr (inr (refl, refl))) refl

run_gate_ids_example :
    map
      (λ (o : Order Fixed). o.id)
      (run_gate gate (checks holding wish ∷ checks holding wish ∷ [])).0
    ≡ 1 ∷ 2 ∷ []
unfolding fresh_gate run_gate check
run_gate_ids_example = (run_gate_ids (checks holding wish ∷ checks holding wish ∷ []) gate).0

run_gate_trips_example : (run_gate high (checks holding wish ∷ ticks holding ∷ [])).1.tripped ≡ true
unfolding equity ◌+ℤ◌ ◌-ℤ◌ ◌*ℤ◌
run_gate_trips_example = (run_gate_trips (checks holding wish ∷ ticks holding ∷ []) high).0

on_tick_closes_example :
    map move (on_tick high holding).0
    ≡ record { exchange = 0; market = 0; symbol = 0; change = some (negsuc 29_999) } ∷ []
unfolding equity position index slot ◌+ℤ◌ ◌-ℤ◌ ◌*ℤ◌
on_tick_closes_example = on_tick_closes Fixed-IsIeee high holding (refl, tt)
