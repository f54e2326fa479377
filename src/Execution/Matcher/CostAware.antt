-- ===== src/Execution/Matcher/CostAware.antt =====
-- include/execution/sim/matcher/cost_aware: the matcher over any cost model, and the concept of one.
use quant_platform.Base.{Option, none, some, if◌then◌else◌}
use quant_platform.Double.{Double}
use quant_platform.Core.Types.{Timestamp, Order, no_price_available, no_cost_available}
use quant_platform.Execution.Matcher.{
  Outcome, filled, refused, Matcher, PriceTable, observe, reject_of, fill_of, last_of,
}

pub record FillPricing {ℓ} (W : Type ℓ) : Type ℓ where
  pub fill_price : W
  pub fee : W

-- `price` is const in the concept.
pub record CostModel {ℓ} (W C : Type ℓ) : Type ℓ where
  pub price : C → Order W → W → Timestamp → Option (FillPricing W)

pub record CostAwareMatcher {ℓ} (W C : Type ℓ) : Type ℓ where
  pub cost : C
  pub table : PriceTable W

module _ {ℓ} {W : Type ℓ} where
  priced : Order W → Timestamp → Option (FillPricing W) → Outcome W
  priced o ts none = refused (reject_of o no_cost_available ts)
  priced o ts (some p) = filled (fill_of o ts p.fill_price p.fee)

module _ {ℓ} {W C : Type ℓ} ⦃d : Double W⦄ ⦃c : CostModel W C⦄ where
  pub try_fill : CostAwareMatcher W C → Order W → Timestamp → Outcome W
  unfolding priced
  try_fill m o ts =
      let ref = last_of m.table o.exchange o.market o.symbol in
      if d.eq ref d.nought
      then refused (reject_of o no_price_available ts)
      else priced o ts (c.price m.cost o ref ts)

  abbrev pub cost_aware : Matcher W (CostAwareMatcher W C)
  cost_aware = record {
    on_market_event = λ m ev. record m { table = observe m.table ev };
    try_fill = λ m o ts. (try_fill m o ts, m);
  }
