-- ===== src/Risk/Gate.antt =====
-- include/risk/risk_gate.hpp: the concept that the engine is generic over. A gate that holds a
-- reference to the portfolio reads it at each call, so here the portfolio is an argument.
use quant_platform.Base.{Option, List}
use quant_platform.Core.Types.{Intent, Order}
use quant_platform.Core.Portfolio.{Portfolio}

pub data RiskOutcome : Type 0 where
  approved resized rejected : RiskOutcome

pub record RiskDecision {ℓ} (W : Type ℓ) : Type ℓ where
  pub outcome : RiskOutcome
  pub order : Option (Order W)

-- `G` is the type of gates: a call returns the gate as it is afterwards.
pub record RiskGate {ℓ} (W G : Type ℓ) : Type ℓ where
  pub check : G → Portfolio W → Intent W → RiskDecision W × G
  pub on_tick : G → Portfolio W → List (Order W) × G
