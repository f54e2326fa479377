-- ===== src/Core/Portfolio.antt =====
-- include/core/portfolio.hpp. A vector read out of range is undefined there, and gives 0.0 here; a
-- write out of range is lost. `Subscription` builds the sizes, and its modules prove that a resolved
-- instrument is in range. Sums are left to right, as the code adds.
pub mod Index
pub mod Ledger
pub mod Funding
mod Examples
use quant_platform.Base.{
  ℕ, zero, suc, ◌+◌, ◌*◌, List, [], ◌∷◌, get_or, set, replicate, length, if◌then◌else◌, foldl,
}
use quant_platform.Double.{Double, std_max, std_min}
use quant_platform.Core.Types.{
  Side, buy, sell, EventBase, Payload, trade, funding, kline, mark_price_kline, premium_index_kline,
  open_interest, book_depth, MarketEvent, Fill,
}

pub record Portfolio {ℓ} (W : Type ℓ) : Type ℓ where
  pub max_market : ℕ
  pub max_symbol : ℕ
  pub positions : List W
  pub mark_price : List W
  pub funding_mark_price : List W
  pub fees : List W
  pub funding_paid : List W
  pub funding_received : List W
  pub cash : W

-- The product stays below 2^48 for 16-bit arguments: `Index.slot_lt`.
unfoldable pub slot : ℕ → ℕ → ℕ → ℕ → ℕ → ℕ
slot max_market max_symbol exchange market symbol =
    exchange * max_market * max_symbol + market * max_symbol + symbol

module _ {ℓ} {W : Type ℓ} where
  unfoldable pub index : Portfolio W → ℕ → ℕ → ℕ → ℕ
  unfolding slot
  index p exchange market symbol = slot p.max_market p.max_symbol exchange market symbol

  pub max_instruments : Portfolio W → ℕ
  max_instruments p = length p.positions

module _ {ℓ} {W : Type ℓ} ⦃d : Double W⦄ where
  open d use {nought, add, sub, mul, neg}

  -- The constructor, from the sizes of a subscription.
  unfoldable pub empty : (max_market max_symbol total_slots : ℕ) → Portfolio W
  empty max_market max_symbol total_slots = record {
    max_market = max_market;
    max_symbol = max_symbol;
    positions = replicate total_slots nought;
    mark_price = replicate total_slots nought;
    funding_mark_price = replicate total_slots nought;
    fees = replicate total_slots nought;
    funding_paid = replicate total_slots nought;
    funding_received = replicate total_slots nought;
    cash = nought;
  }

  abbrev pub signed : Side → W → W
  signed buy qty = qty
  signed sell qty = neg qty

  pub apply_fill : Portfolio W → Fill W → Portfolio W
  apply_fill p fill =
      let i = index p fill.exchange fill.market fill.symbol in
      let delta = signed fill.side fill.qty in
      record p {
        positions = set p.positions i (add (get_or p.positions i nought) delta);
        cash = sub p.cash (add (mul delta fill.price) fill.fee);
        fees = set p.fees i (add (get_or p.fees i nought) fill.fee);
      }

  -- The branch of `apply_funding` for a funding payload.
  apply_rate : Portfolio W → EventBase → W → Portfolio W
  apply_rate p base rate =
      let i = index p base.exchange base.market base.symbol in
      let flow =
        mul (mul (get_or p.positions i nought) (get_or p.funding_mark_price i nought)) rate in
      record p {
        cash = sub p.cash flow;
        funding_paid =
            set p.funding_paid i (add (get_or p.funding_paid i nought) (std_max flow nought));
        funding_received =
            set p.funding_received i
              (sub (get_or p.funding_received i nought) (std_min flow nought));
      }

  pub apply_funding : Portfolio W → MarketEvent W → Portfolio W
  unfolding apply_rate
  apply_funding p event = elim event.payload [
    | funding f ↦ apply_rate p event.base f.funding_rate
    | _ ↦ p
  ]

  set_mark : Portfolio W → EventBase → W → Portfolio W
  set_mark p base price = record p {
    mark_price = set p.mark_price (index p base.exchange base.market base.symbol) price;
  }

  set_mark_funding : Portfolio W → EventBase → W → Portfolio W
  set_mark_funding p base price = record p {
    funding_mark_price =
        set p.funding_mark_price (index p base.exchange base.market base.symbol) price;
  }

  pub apply_mark_price : Portfolio W → MarketEvent W → Portfolio W
  unfolding set_mark set_mark_funding
  apply_mark_price p event = elim event.payload [
    | trade t ↦ set_mark p event.base t.price
    | kline k ↦ set_mark p event.base k.close
    | mark_price_kline k ↦ set_mark_funding (set_mark p event.base k.close) event.base k.close
    | _ ↦ p
  ]

  unfoldable pub position : Portfolio W → ℕ → ℕ → ℕ → W
  position p exchange market symbol = get_or p.positions (index p exchange market symbol) nought

  pub fees_of : Portfolio W → ℕ → ℕ → ℕ → W
  fees_of p exchange market symbol = get_or p.fees (index p exchange market symbol) nought

  pub funding_paid_of : Portfolio W → ℕ → ℕ → ℕ → W
  funding_paid_of p exchange market symbol =
      get_or p.funding_paid (index p exchange market symbol) nought

  pub funding_received_of : Portfolio W → ℕ → ℕ → ℕ → W
  funding_received_of p exchange market symbol =
      get_or p.funding_received (index p exchange market symbol) nought

  pub mark : Portfolio W → ℕ → ℕ → ℕ → W
  mark p exchange market symbol = get_or p.mark_price (index p exchange market symbol) nought

  -- The loop of `equity` from index `i` on, with `left` positions to go.
  equity_from : Portfolio W → (left i : ℕ) → W → W
  equity_from p zero i total = total
  equity_from p (suc left) i total =
      equity_from p left (i + 1)
        (add total (mul (get_or p.positions i nought) (get_or p.mark_price i nought)))

  unfoldable pub equity : Portfolio W → W
  unfolding equity_from
  equity p = equity_from p (length p.positions) 0 p.cash

  -- The fills of a drain, in order.
  pub apply_fills : Portfolio W → List (Fill W) → Portfolio W
  apply_fills p [] = p
  apply_fills p (f ∷ fs) = apply_fills (apply_fill p f) fs
