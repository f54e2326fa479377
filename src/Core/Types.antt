-- ===== src/Core/Types.antt =====
-- include/core/types.hpp. Ids and slots are numbers below 2^16 or 2^64 as the field says; a
-- `Timestamp` is an integer of nanoseconds. `W` is the type of doubles. The field that the source
-- calls `open` is `open_price`, since that word is taken.
use quant_platform.Base.{ℕ, List}
use quant_platform.Base.Int.{ℤ}

abbrev pub Timestamp : Type 0
Timestamp = ℤ

pub data Side : Type 0 where
  buy sell : Side

pub data EventKind : Type 0 where
  trade funding kline mark_price_kline premium_index_kline open_interest book_depth : EventKind

pub record EventBase : Type 0 where
  pub kind : EventKind
  pub exchange : ℕ
  pub market : ℕ
  pub symbol : ℕ
  pub ts : Timestamp

pub record TradeEvent {ℓ} (W : Type ℓ) : Type ℓ where
  pub id : ℕ
  pub first_trade_id : ℕ
  pub last_trade_id : ℕ
  pub price : W
  pub qty : W
  pub side : Side

pub record FundingEvent {ℓ} (W : Type ℓ) : Type ℓ where
  pub funding_rate : W
  pub interval_hours : ℤ

pub record KlineEvent {ℓ} (W : Type ℓ) : Type ℓ where
  pub open_time : Timestamp
  pub open_price : W
  pub high : W
  pub low : W
  pub close : W
  pub volume : W

pub record MarkPriceKlineEvent {ℓ} (W : Type ℓ) : Type ℓ where
  pub open_time : Timestamp
  pub open_price : W
  pub high : W
  pub low : W
  pub close : W

pub record PremiumIndexKlineEvent {ℓ} (W : Type ℓ) : Type ℓ where
  pub open_time : Timestamp
  pub open_price : W
  pub high : W
  pub low : W
  pub close : W

pub record OpenInterestEvent {ℓ} (W : Type ℓ) : Type ℓ where
  pub open_interest : W
  pub open_interest_value : W
  pub toptrader_account_ratio : W
  pub toptrader_position_ratio : W
  pub account_long_short_ratio : W
  pub taker_long_short_volume_ratio : W

pub record DepthBand {ℓ} (W : Type ℓ) : Type ℓ where
  pub depth : W
  pub notional : W

-- Two arrays of five bands.
pub record BookDepthBands {ℓ} (W : Type ℓ) : Type ℓ where
  pub bids : List (DepthBand W)
  pub asks : List (DepthBand W)

-- `MarketEventPayload`, a variant.
pub data Payload {ℓ} (W : Type ℓ) : Type ℓ where
  trade : TradeEvent W → Payload W
  funding : FundingEvent W → Payload W
  kline : KlineEvent W → Payload W
  mark_price_kline : MarkPriceKlineEvent W → Payload W
  premium_index_kline : PremiumIndexKlineEvent W → Payload W
  open_interest : OpenInterestEvent W → Payload W
  book_depth : BookDepthBands W → Payload W

pub record MarketEvent {ℓ} (W : Type ℓ) : Type ℓ where
  pub base : EventBase
  pub payload : Payload W

pub record Intent {ℓ} (W : Type ℓ) : Type ℓ where
  pub exchange : ℕ
  pub market : ℕ
  pub symbol : ℕ
  pub target_position : W

pub record Order {ℓ} (W : Type ℓ) : Type ℓ where
  pub id : ℕ
  pub exchange : ℕ
  pub market : ℕ
  pub symbol : ℕ
  pub side : Side
  pub qty : W

pub record Fill {ℓ} (W : Type ℓ) : Type ℓ where
  pub order_id : ℕ
  pub exchange : ℕ
  pub market : ℕ
  pub symbol : ℕ
  pub side : Side
  pub ts : Timestamp
  pub price : W
  pub qty : W
  pub fee : W

pub data RejectReason : Type 0 where
  no_price_available no_cost_available : RejectReason

pub record Reject : Type 0 where
  pub order_id : ℕ
  pub exchange : ℕ
  pub market : ℕ
  pub symbol : ℕ
  pub reason : RejectReason
  pub ts : Timestamp
