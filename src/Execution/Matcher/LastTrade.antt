-- ===== src/Execution/Matcher/LastTrade.antt =====
-- include/execution/sim/matcher/last_trade/last_trade_matcher.hpp.
pub mod Prices
mod Examples
use quant_platform.Base.{if◌then◌else◌}
use quant_platform.Double.{Double}
use quant_platform.Core.Types.{Timestamp, Order, no_price_available}
use quant_platform.Execution.Matcher.{
  Outcome, filled, refused, Matcher, PriceTable, observe, reject_of, fill_of, last_of,
}

module _ {ℓ} {W : Type ℓ} ⦃d : Double W⦄ where
  open d use {nought, mul, eq, decimal}

  abbrev pub taker_fee_rate : W
  taker_fee_rate = decimal 4 4

  pub try_fill : PriceTable W → Order W → Timestamp → Outcome W
  try_fill t o ts =
      let price = last_of t o.exchange o.market o.symbol in
      if eq price nought
      then refused (reject_of o no_price_available ts)
      else filled (fill_of o ts price (mul (mul price o.qty) taker_fee_rate))

  abbrev pub last_trade : Matcher W (PriceTable W)
  last_trade = record { on_market_event = observe; try_fill = λ t o ts. (try_fill t o ts, t) }
