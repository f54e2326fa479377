-- ===== src/Execution/Sim.antt =====
-- include/execution/sim/sim_execution.hpp, over any matcher. The reserve of the constructor is a
-- matter of allocation.
pub mod Outcomes
use quant_platform.Base.{List, [], ◌∷◌, ◌++◌}
use quant_platform.Core.Types.{Timestamp, MarketEvent, Order, Fill, Reject}
use quant_platform.Execution.Gateway.{ExecutionGateway}
use quant_platform.Execution.Matcher.{Outcome, filled, refused, Matcher}

pub record SimExecution {ℓ} (W M : Type ℓ) : Type ℓ where
  pub matcher : M
  pub fills : List (Fill W)
  pub rejects : List Reject

module _ {ℓ} {W M : Type ℓ} ⦃m : Matcher W M⦄ where
  unfoldable pub reset_outcomes : SimExecution W M → SimExecution W M
  reset_outcomes x = record x { fills = []; rejects = [] }

  unfoldable pub on_market_event : SimExecution W M → MarketEvent W → SimExecution W M
  unfolding reset_outcomes
  on_market_event x ev =
      let x' = reset_outcomes x in record x' { matcher = m.on_market_event x'.matcher ev }

  -- `submit` once the matcher has answered.
  unfoldable pub book_outcome : SimExecution W M → Outcome W → SimExecution W M
  book_outcome x (filled f) = record x { fills = x.fills ++ (f ∷ []) }
  book_outcome x (refused r) = record x { rejects = x.rejects ++ (r ∷ []) }

  unfoldable pub submit : SimExecution W M → Order W → Timestamp → SimExecution W M
  unfolding book_outcome
  submit x o ts =
      let (outcome, matcher) = m.try_fill x.matcher o ts in
      book_outcome (record x { matcher = matcher }) outcome

  abbrev pub sim_gateway : ExecutionGateway W (SimExecution W M)
  sim_gateway = record {
    on_market_event = on_market_event;
    submit = submit;
    fills = λ x. x.fills;
    rejects = λ x. x.rejects;
  }
