-- ===== src/Engine/Latched.antt =====
-- The engine with the basic gate, after the gate has tripped.
use quant_platform.Base.{◌≡◌, ◌∙◌, refl, ap, true, none, some, List, [], ◌∷◌, ◌++◌, arith}
use quant_platform.Double.{Double}
use quant_platform.Core.Types.{Intent}
use quant_platform.Core.Portfolio.{Portfolio}
use quant_platform.Risk.Basic.{BasicRiskGate, basic_gate, on_tick}
use quant_platform.Risk.Basic.Latch.{check_tripped, on_tick_tripped}
use quant_platform.Execution.Gateway.{ExecutionGateway}
use quant_platform.Strategy.{Strategy}
use quant_platform.Engine.{
  Engine, EngineInput, Transport, Recorder, submit_orders, take_input, handle,
}
use quant_platform.Engine.Steps.{clear_all, orders_of, handle_lem}

module _ {ℓ} {W : Type ℓ} ⦃d : Double W⦄ where
  clear_all_tripped :
      (is : List (Intent W)) (p : Portfolio W) (g : BasicRiskGate W)
      → g.tripped ≡ true
      → clear_all ⦃rg = basic_gate⦄ is p g ≡ ([], g)
  unfolding clear_all
  clear_all_tripped [] p g h = refl
  clear_all_tripped (i ∷ is) p g h = rw (check_tripped g p i h) (clear_all_tripped is p g h)

module _ {ℓ} {W E : Type ℓ} ⦃ex : ExecutionGateway W E⦄ where
  -- The gateway when it is shown the market events of some inputs, and nothing else.
  abbrev pub watch : E → List (EngineInput W) → E
  watch x [] = x
  watch x (i ∷ is) = watch (elim i.event [ some ev ↦ ex.on_market_event x ev | none ↦ x ]) is

module _ {ℓ} {W T E S C : Type ℓ} ⦃d : Double W⦄ ⦃tx : Transport W T⦄ ⦃ex : ExecutionGateway W E⦄
    ⦃st : Strategy W S⦄ ⦃rc : Recorder W C⦄ where
  -- The inputs of a run one after the other.
  unfoldable pub handle_all :
      Engine W T E (BasicRiskGate W) S C → List (EngineInput W) → Engine W T E (BasicRiskGate W) S C
  handle_all e [] = e
  handle_all e (i ∷ is) = handle_all (handle ⦃rg = basic_gate⦄ e i) is

  take_input_keeps :
      (e : Engine W T E (BasicRiskGate W) S C) (i : EngineInput W)
      → let e' = (take_input ⦃rg = basic_gate⦄ e i).1 in
        (e'.risk ≡ e.risk)
        × (e'.exec ≡ (elim i.event [ some ev ↦ ex.on_market_event e.exec ev | none ↦ e.exec ]))
  unfolding take_input
  take_input_keeps e i = ground arith

  pub handle_tripped :
      (e : Engine W T E (BasicRiskGate W) S C) (i : EngineInput W)
      → e.risk.tripped ≡ true
      → let q = handle ⦃rg = basic_gate⦄ e i in
        (q.exec ≡ watch e.exec (i ∷ [])) × (q.risk.tripped ≡ true)
  unfolding orders_of submit_orders
  handle_tripped e i h =
      let (intents, e') = take_input ⦃rg = basic_gate⦄ e i in
      let (risk_is, exec_is) = take_input_keeps e i in
      let shut : e'.risk.tripped ≡ true = ap (λ g. g.tripped) risk_is ∙ h in
      let cleared_none = clear_all_tripped intents e'.portfolio e'.risk shut in
      let (no_orders, still) = on_tick_tripped e'.risk e'.portfolio shut in
      let lem = handle_lem ⦃rg = basic_gate⦄ e i in
      (
        lem.0
            ∙ ap (λ os. submit_orders os i.ts e'.exec)
                (ap (λ c. c.0 ++ (on_tick c.1 e'.portfolio).0) cleared_none ∙ no_orders)
            ∙ exec_is,
        ap (λ g. g.tripped) lem.1
            ∙ ap (λ c. (on_tick c.1 e'.portfolio).1.tripped) cleared_none
            ∙ still,
      )

  -- Once the basic gate has tripped, the engine submits no order ever again, whatever its inputs and
  -- its strategy are: the gateway is only shown the market events, and the gate stays tripped.
  pub handle_all_tripped :
      (is : List (EngineInput W)) (e : Engine W T E (BasicRiskGate W) S C)
      → e.risk.tripped ≡ true
      → ((handle_all e is).exec ≡ watch e.exec is) × ((handle_all e is).risk.tripped ≡ true)
  unfolding handle_all
  handle_all_tripped [] e h = (refl, h)
  handle_all_tripped (i ∷ is) e h =
      let (silent, still) = handle_tripped e i h in
      let rest = handle_all_tripped is (handle ⦃rg = basic_gate⦄ e i) still in
      (rest.0 ∙ ap (λ x. watch x is) silent, rest.1)
