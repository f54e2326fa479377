-- ===== src/Strategy.antt =====
-- include/strategy: the strategy concept, and the carry strategy. A strategy that holds a reference to
-- the portfolio reads it at each call, so here the portfolio is an argument. The span that a call
-- returns is the list that it shows then.
pub mod Carry
use quant_platform.Base.{List}
use quant_platform.Core.Types.{Timestamp, MarketEvent, Intent}
use quant_platform.Core.Portfolio.{Portfolio}

pub record Strategy {ℓ} (W S : Type ℓ) : Type ℓ where
  pub on_event : S → Portfolio W → MarketEvent W → List (Intent W) × S
  pub on_timer : S → Portfolio W → Timestamp → List (Intent W) × S
