-- ===== src/Risk/Basic.antt =====
-- include/risk/basic/basic_risk_gate.hpp. Order ids are 64 bits and wrap.
pub mod Sizing
pub mod Latch
pub mod Flatten
mod Examples
use quant_platform.Base.{
  ℕ, ◌+◌, ◌%◌, ◌^◌, Bool, true, false, ◌||◌, Option, none, some, List, [], ◌∷◌, ◌++◌, if◌then◌else◌,
}
use quant_platform.Double.{Double, std_max, std_clamp}
use quant_platform.Core.Types.{Side, buy, sell, Intent, Order}
use quant_platform.Core.Portfolio.{Portfolio, position, equity}
use quant_platform.Risk.Gate.{RiskOutcome, approved, resized, rejected, RiskDecision, RiskGate}

pub record TrackedInstrument : Type 0 where
  pub exchange : ℕ
  pub market : ℕ
  pub symbol : ℕ

pub record BasicRiskGateConfig {ℓ} (W : Type ℓ) : Type ℓ where
  pub max_position_qty : W
  pub max_drawdown : W
  pub tracked : List TrackedInstrument

pub record BasicRiskGate {ℓ} (W : Type ℓ) : Type ℓ where
  pub config : BasicRiskGateConfig W
  pub next_id : ℕ
  pub tripped : Bool
  pub peak_equity : W
  pub orders : List (Order W)

abbrev pub after_id : ℕ → ℕ
after_id n = (n + 1) % 2 ^ 64

module _ {ℓ} {W : Type ℓ} ⦃d : Double W⦄ where
  open d use {nought, sub, neg, abs, lt, le, eq}

  pub fresh_gate : BasicRiskGateConfig W → BasicRiskGate W
  fresh_gate config = record {
    config = config;
    next_id = 1;
    tripped = false;
    peak_equity = nought;
    orders = [];
  }

  abbrev pub target_of : BasicRiskGate W → Intent W → W
  target_of g intent =
      std_clamp intent.target_position (neg g.config.max_position_qty) g.config.max_position_qty

  -- The order of `check`, for the way that is left to the target.
  order_to : BasicRiskGate W → Intent W → W → Order W
  order_to g intent delta = record {
    id = g.next_id;
    exchange = intent.exchange;
    market = intent.market;
    symbol = intent.symbol;
    side = if le nought delta then buy else sell;
    qty = abs delta;
  }

  pub check : BasicRiskGate W → Portfolio W → Intent W → RiskDecision W × BasicRiskGate W
  unfolding order_to
  check g p intent = if g.tripped then (record { outcome = rejected; order = none }, g) else (
    record {
      outcome = if eq (target_of g intent) intent.target_position then approved else resized;
      order = some (
          order_to g intent
            (sub (target_of g intent) (position p intent.exchange intent.market intent.symbol)));
    },
    record g { next_id = after_id g.next_id },
  )

  -- The order that closes a position.
  close_order : TrackedInstrument → ℕ → W → Order W
  close_order t id pos = record {
    id = id;
    exchange = t.exchange;
    market = t.market;
    symbol = t.symbol;
    side = if lt nought pos then sell else buy;
    qty = abs pos;
  }

  -- The loop of `on_tick` over the tracked instruments: the id counter and the orders so far.
  flatten_from : Portfolio W → List TrackedInstrument → ℕ → List (Order W) → ℕ × List (Order W)
  unfolding close_order
  flatten_from p [] id orders = (id, orders)
  flatten_from p (t ∷ ts) id orders =
      let pos = position p t.exchange t.market t.symbol in
      let flat = eq pos nought in
      flatten_from p ts (if flat then id else after_id id)
        (if flat then orders else orders ++ (close_order t id pos ∷ []))

  -- `on_tick` past its guard.
  trip : BasicRiskGate W → Portfolio W → List (Order W) × BasicRiskGate W
  unfolding flatten_from
  trip g p =
      let (id, orders) = flatten_from p g.config.tracked g.next_id [] in
      (orders, record g { tripped = true; next_id = id; orders = orders })

  pub on_tick : BasicRiskGate W → Portfolio W → List (Order W) × BasicRiskGate W
  unfolding trip
  on_tick g p =
      let peak = std_max g.peak_equity (equity p) in
      let g' = record g { peak_equity = peak } in
      if g.tripped || lt (sub peak (equity p)) g.config.max_drawdown then ([], g') else trip g' p

  abbrev pub basic_gate : RiskGate W (BasicRiskGate W)
  basic_gate = record { check = check; on_tick = on_tick }
