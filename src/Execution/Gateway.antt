-- ===== src/Execution/Gateway.antt =====
-- include/execution/execution_gateway.hpp: the concept that the engine is generic over.
use quant_platform.Base.{List}
use quant_platform.Core.Types.{Timestamp, MarketEvent, Order, Fill, Reject}

-- A call returns the gateway as it is afterwards.
pub record ExecutionGateway {ℓ} (W E : Type ℓ) : Type ℓ where
  pub on_market_event : E → MarketEvent W → E
  pub submit : E → Order W → Timestamp → E
  pub fills : E → List (Fill W)
  pub rejects : E → List Reject
