-- ===== src/Strategy/Carry.antt =====
-- include/strategy/carry/funding_carry_strategy.hpp.
pub mod Intents
mod Examples
use quant_platform.Base.{ℕ, Bool, true, false, not, ◌&&◌, ◌||◌, List, [], ◌∷◌, ◌==◌, if◌then◌else◌}
use quant_platform.Double.{Double}
use quant_platform.Core.Types.{
  Timestamp, EventBase, Payload, funding, MarketEvent, FundingEvent, Intent,
}
use quant_platform.Core.Portfolio.{Portfolio, position}
use quant_platform.Core.ViewablePool.{ViewablePool, push, reset, view}
use quant_platform.Strategy.{Strategy}

pub record Leg : Type 0 where
  pub exchange : ℕ
  pub market : ℕ
  pub symbol : ℕ

pub record Config {ℓ} (W : Type ℓ) : Type ℓ where
  pub futures : Leg
  pub spot : Leg
  pub target_qty : W
  pub entry_funding_rate : W
  pub exit_funding_rate : W

abbrev pub max_intents : ℕ
max_intents = 2

pub record FundingCarryStrategy {ℓ} (W : Type ℓ) : Type ℓ where
  pub config : Config W
  pub buffer : ViewablePool (Intent W)

abbrev pub on_leg : EventBase → Leg → Bool
on_leg base leg =
    base.exchange == leg.exchange && (base.market == leg.market && base.symbol == leg.symbol)

module _ {ℓ} {W : Type ℓ} ⦃d : Double W⦄ where
  open d use {nought, neg, le}

  abbrev pub intent_for : Leg → W → Intent W
  intent_for leg target = record {
    exchange = leg.exchange;
    market = leg.market;
    symbol = leg.symbol;
    target_position = target;
  }

  pub target_for : Config W → Portfolio W → W → W
  target_for c p rate =
      if le c.entry_funding_rate rate
      then c.target_qty
      else if le rate c.exit_funding_rate
      then nought
      else position p c.spot.exchange c.spot.market c.spot.symbol

  -- `on_event` for the funding of the futures leg.
  rebalance : FundingCarryStrategy W → W → List (Intent W) × FundingCarryStrategy W
  rebalance s target =
      let b =
        push (push (reset s.buffer) (intent_for s.config.spot target))
          (intent_for s.config.futures (neg target)) in
      (view b, record s { buffer = b })

  pub on_event :
      FundingCarryStrategy W
      → Portfolio W
      → MarketEvent W
      → List (Intent W) × FundingCarryStrategy W
  unfolding rebalance target_for
  on_event s p event = elim event.payload [
    | funding f ↦
        if on_leg event.base s.config.futures
        then rebalance s (target_for s.config p f.funding_rate)
        else ([], s)
    | _ ↦ ([], s)
  ]

  pub on_timer :
      FundingCarryStrategy W → Portfolio W → Timestamp → List (Intent W) × FundingCarryStrategy W
  on_timer s p ts = ([], s)

  abbrev pub carry : Strategy W (FundingCarryStrategy W)
  carry = record { on_event = on_event; on_timer = on_timer }
