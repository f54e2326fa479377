-- ===== src/Execution/Matcher/LastTrade/Prices.antt =====
-- The price that an order is matched at.
use quant_platform.Base.{
  ℕ, ◌*◌, ◌≡◌, ◌∙◌, refl, ap, List, [], ◌∷◌, length, length-set, get_or, set, if◌then◌else◌,
}
use quant_platform.Double.{Double}
use quant_platform.Core.Types.{
  Timestamp, EventBase, Payload, trade, kline, MarketEvent, Order, no_price_available,
}
use quant_platform.Core.Portfolio.{Portfolio, index}
use quant_platform.Core.Portfolio.Ledger.{InRange, same}
use quant_platform.Core.Portfolio.Funding.{EventsInRange, last_price, written, if_same}
use quant_platform.Execution.Matcher.{
  filled, refused, PriceTable, observe, reject_of, fill_of, last_of,
}
use quant_platform.Execution.Matcher.LastTrade.{try_fill, taker_fee_rate}

module _ {ℓ} {W : Type ℓ} ⦃d : Double W⦄ where
  open d use {nought, mul, eq}

  -- The prices that count: those of trades and of bars at their close.
  abbrev pub traded_price : Payload W → W → W
  traded_price (trade t) old = t.price
  traded_price (kline k) old = k.close
  traded_price _ old = old

  -- The matcher's table beside the book that it was built for.
  abbrev pub table : Portfolio W → List W → PriceTable W
  table p prices = record {
    max_market = p.max_market;
    max_symbol = p.max_symbol;
    last_price = prices;
  }

  pub observe_all : PriceTable W → List (MarketEvent W) → PriceTable W
  observe_all t [] = t
  observe_all t (ev ∷ evs) = observe_all (observe t ev) evs

  -- The prices after one event.
  abbrev pub prices_after : Portfolio W → List W → EventBase → Payload W → List W
  prices_after p prices base (trade t) =
      set prices (index p base.exchange base.market base.symbol) t.price
  prices_after p prices base (kline k) =
      set prices (index p base.exchange base.market base.symbol) k.close
  prices_after p prices base _ = prices

  observe_lem :
      (p : Portfolio W) (prices : List W) (base : EventBase) (payload : Payload W)
      → observe (table p prices) (record { base = base; payload = payload })
        ≡ table p (prices_after p prices base payload)
  unfolding observe index
  observe_lem p prices base (trade t) = refl
  observe_lem p prices base (kline k) = refl
  observe_lem p prices base _ = refl

  length-prices_after :
      (p : Portfolio W) (prices : List W) (base : EventBase) (payload : Payload W)
      → length (prices_after p prices base payload) ≡ length prices
  length-prices_after p prices base (trade t) = length-set prices _ _
  length-prices_after p prices base (kline k) = length-set prices _ _
  length-prices_after p prices base _ = refl

  price_moves :
      (n : ℕ) (p : Portfolio W) (prices : List W) (base : EventBase) (payload : Payload W)
      (e m s : ℕ)
      → length prices ≡ n * p.max_market * p.max_symbol
      → InRange n p base.exchange base.market base.symbol
      → InRange n p e m s
      → get_or (prices_after p prices base payload) (index p e m s) nought ≡ (
          if same base.exchange base.market base.symbol e m s
          then traded_price payload (get_or prices (index p e m s) nought)
          else get_or prices (index p e m s) nought)
  price_moves n p prices base (trade t) e m s h rb r = written n p base e m s prices t.price h rb r
  price_moves n p prices base (kline k) e m s h rb r = written n p base e m s prices k.close h rb r
  price_moves n p prices base _ e m s h rb r = if_same _ _

  observe_all_lem :
      (n : ℕ) (evs : List (MarketEvent W)) (p : Portfolio W) (prices : List W) (e m s : ℕ)
      → length prices ≡ n * p.max_market * p.max_symbol
      → EventsInRange n p evs
      → InRange n p e m s
      → last_of (observe_all (table p prices) evs) e m s
        ≡ last_price traded_price e m s (get_or prices (index p e m s) nought) evs
  unfolding observe_all index
  observe_all_lem n [] p prices e m s h rs r = refl
  observe_all_lem n (ev ∷ evs) p prices e m s h rs r =
      let after = prices_after p prices ev.base ev.payload in
      ap (λ t. last_of (observe_all t evs) e m s) (observe_lem p prices ev.base ev.payload)
      ∙ observe_all_lem n evs p after e m s (length-prices_after p prices ev.base ev.payload ∙ h)
          rs.1 r
      ∙ ap (λ x. last_price traded_price e m s x evs)
          (price_moves n p prices ev.base ev.payload e m s h rs.0 r)

  -- After any events of instruments in range, an order for an instrument in range is matched at the
  -- last price among its own trades and closed bars, for its whole quantity and with the taker's fee, and
  -- refused for want of a price exactly when that price equals zero.
  pub try_fill_last :
      (n : ℕ) (evs : List (MarketEvent W)) (p : Portfolio W) (prices : List W) (o : Order W)
      (ts : Timestamp)
      → length prices ≡ n * p.max_market * p.max_symbol
      → EventsInRange n p evs
      → InRange n p o.exchange o.market o.symbol
      → let before = get_or prices (index p o.exchange o.market o.symbol) nought in
        let price = last_price traded_price o.exchange o.market o.symbol before evs in
        try_fill (observe_all (table p prices) evs) o ts ≡ (
          if eq price nought
          then refused (reject_of o no_price_available ts)
          else filled (fill_of o ts price (mul (mul price o.qty) taker_fee_rate)))
  unfolding try_fill
  try_fill_last n evs p prices o ts h rs r =
      ap
        (λ price.
          if eq price nought
          then refused (reject_of o no_price_available ts)
          else filled (fill_of o ts price (mul (mul price o.qty) taker_fee_rate)))
        (observe_all_lem n evs p prices o.exchange o.market o.symbol h rs r)
