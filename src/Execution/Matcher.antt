-- ===== src/Execution/Matcher.antt =====
-- include/execution/sim/matcher: the matcher concept, what a fill or a refusal looks like, and the
-- table of last prices that both matchers keep. The matchers use their reference to the portfolio for
-- `index` alone, whose sizes never change, so they keep these sizes.
pub mod LastTrade
pub mod CostAware
use quant_platform.Base.{ℕ, List, set, get_or, replicate}
use quant_platform.Double.{Double}
use quant_platform.Core.Types.{
  Timestamp, EventBase, Payload, trade, kline, MarketEvent, Order, Fill, Reject, RejectReason,
}
use quant_platform.Core.Portfolio.{slot}

-- `std::variant<Fill, Reject>`.
pub data Outcome {ℓ} (W : Type ℓ) : Type ℓ where
  filled : Fill W → Outcome W
  refused : Reject → Outcome W

pub record Matcher {ℓ} (W M : Type ℓ) : Type ℓ where
  pub on_market_event : M → MarketEvent W → M
  pub try_fill : M → Order W → Timestamp → Outcome W × M

-- The member `last_price_` with the portfolio's sizes.
pub record PriceTable {ℓ} (W : Type ℓ) : Type ℓ where
  pub max_market : ℕ
  pub max_symbol : ℕ
  pub last_price : List W

module _ {ℓ} {W : Type ℓ} where
  abbrev pub price_slot : PriceTable W → (exchange market symbol : ℕ) → ℕ
  price_slot t exchange market symbol = slot t.max_market t.max_symbol exchange market symbol

  -- The body that `on_market_event` has in both matchers.
  unfoldable pub observe : PriceTable W → MarketEvent W → PriceTable W
  observe t ev = elim ev.payload [
    | trade e ↦ record t {
      last_price =
          set t.last_price (price_slot t ev.base.exchange ev.base.market ev.base.symbol) e.price;
    }
    | kline e ↦ record t {
      last_price =
          set t.last_price (price_slot t ev.base.exchange ev.base.market ev.base.symbol) e.close;
    }
    | _ ↦ t
  ]

  abbrev pub reject_of : Order W → RejectReason → Timestamp → Reject
  reject_of o reason ts = record {
    order_id = o.id;
    exchange = o.exchange;
    market = o.market;
    symbol = o.symbol;
    reason = reason;
    ts = ts;
  }

  abbrev pub fill_of : Order W → Timestamp → W → W → Fill W
  fill_of o ts price fee = record {
    order_id = o.id;
    exchange = o.exchange;
    market = o.market;
    symbol = o.symbol;
    side = o.side;
    ts = ts;
    price = price;
    qty = o.qty;
    fee = fee;
  }

module _ {ℓ} {W : Type ℓ} ⦃d : Double W⦄ where
  abbrev pub empty_table : (max_market max_symbol max_instruments : ℕ) → PriceTable W
  empty_table max_market max_symbol max_instruments = record {
    max_market = max_market;
    max_symbol = max_symbol;
    last_price = replicate max_instruments d.nought;
  }

  abbrev pub last_of : PriceTable W → (exchange market symbol : ℕ) → W
  last_of t exchange market symbol =
      get_or t.last_price (price_slot t exchange market symbol) d.nought
