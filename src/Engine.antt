-- ===== src/Engine.antt =====
-- include/engine/engine.hpp: one pull of the engine and its run loop, over any transport, gateway,
-- gate, strategy and recorder. The portfolio is the one object that the gate and the strategy read,
-- so each call of theirs is handed the portfolio as it is then. The back-off only sleeps.
pub mod Steps
pub mod Latched
pub mod Timer
pub mod Run
pub mod Backtest
pub mod EquitySeries
mod Examples
use quant_platform.Base.{
  ℕ, zero, suc, Bool, true, false, Option, none, some, List, [], ◌∷◌, if◌then◌else◌,
}
use quant_platform.Double.{Double}
use quant_platform.Core.Types.{Timestamp, MarketEvent, Intent, Order}
use quant_platform.Core.Portfolio.{Portfolio, apply_funding, apply_mark_price, apply_fills}
use quant_platform.Risk.Gate.{RiskOutcome, approved, resized, rejected, RiskDecision, RiskGate}
use quant_platform.Execution.Gateway.{ExecutionGateway}
use quant_platform.Strategy.{Strategy}

-- transport.hpp: `event` is absent for a timer tick.
pub record EngineInput {ℓ} (W : Type ℓ) : Type ℓ where
  pub ts : Timestamp
  pub event : Option (MarketEvent W)

-- `next` may change the transport also where it returns nothing.
pub record Transport {ℓ} (W T : Type ℓ) : Type ℓ where
  pub next : T → Option (EngineInput W) × T
  pub flush : T → T

-- recorder.hpp.
pub record Recorder {ℓ} (W C : Type ℓ) : Type ℓ where
  pub sample : C → Timestamp → Portfolio W → C

pub data ControlCommand : Type 0 where
  start stop : ControlCommand

pub record Engine {ℓ} (W T E G S C : Type ℓ) : Type ℓ where
  pub transport : T
  pub exec : E
  pub risk : G
  pub strategy : S
  pub portfolio : Portfolio W
  pub recorder : C

-- The iterations that `run` makes between two polls of the control channel. The proofs never compute
-- with it.
pub steps_per_poll : ℕ
steps_per_poll = 1_048_576

module _ {ℓ} {W E : Type ℓ} ⦃ex : ExecutionGateway W E⦄ where
  -- A decision that is not a rejection carries an order; the code would read an empty option
  -- otherwise.
  unfoldable pub submit_if_approved : E → RiskDecision W → Timestamp → E
  submit_if_approved x decision ts = elim decision.outcome [
    | rejected ↦ x
    | _ ↦ elim decision.order [ none ↦ x | some o ↦ ex.submit x o ts ]
  ]

  unfoldable pub submit_orders : List (Order W) → Timestamp → E → E
  submit_orders [] ts x = x
  submit_orders (o ∷ os) ts x = submit_orders os ts (ex.submit x o ts)

module _ {ℓ} {W E G : Type ℓ} ⦃ex : ExecutionGateway W E⦄ ⦃rg : RiskGate W G⦄ where
  -- The loop over the intents of one call of the strategy.
  unfoldable pub submit_intents : List (Intent W) → Portfolio W → Timestamp → E → G → E × G
  unfolding submit_if_approved
  submit_intents [] p ts x g = (x, g)
  submit_intents (i ∷ is) p ts x g =
      let (decision, g') = rg.check g p i in
      submit_intents is p ts (submit_if_approved x decision ts) g'

module _ {ℓ} {W T E G S C : Type ℓ} ⦃d : Double W⦄ ⦃tx : Transport W T⦄ ⦃ex : ExecutionGateway W E⦄
    ⦃rg : RiskGate W G⦄ ⦃st : Strategy W S⦄ ⦃rc : Recorder W C⦄ where
  -- `step` up to the intents: the gateway, the books and the strategy see the input.
  unfoldable pub take_event :
      Engine W T E G S C → MarketEvent W → List (Intent W) × Engine W T E G S C
  take_event e event =
      let p = apply_mark_price (apply_funding e.portfolio event) event in
      let (intents, s) = st.on_event e.strategy p event in
      (intents, record e { exec = ex.on_market_event e.exec event; portfolio = p; strategy = s })

  unfoldable pub take_timer : Engine W T E G S C → Timestamp → List (Intent W) × Engine W T E G S C
  take_timer e ts =
      let (intents, s) = st.on_timer e.strategy e.portfolio ts in
      (intents, record e { strategy = s })

  unfoldable pub take_input :
      Engine W T E G S C → EngineInput W → List (Intent W) × Engine W T E G S C
  unfolding take_event take_timer
  take_input e input = elim input.event [
    | some event ↦ take_event e event
    | none ↦ take_timer e input.ts
  ]

  -- The rest of `step`: the intents go through the gate, the gate's own orders follow, the outcomes
  -- are drained and the recorder samples.
  unfoldable pub settle : Engine W T E G S C → List (Intent W) → Timestamp → Engine W T E G S C
  unfolding submit_intents submit_orders
  settle e intents ts =
      let (x, g) = submit_intents intents e.portfolio ts e.exec e.risk in
      let (orders, g') = rg.on_tick g e.portfolio in
      let x' = submit_orders orders ts x in
      let p = apply_fills e.portfolio (ex.fills x') in
      record e { exec = x'; risk = g'; portfolio = p; recorder = rc.sample e.recorder ts p }

  unfoldable pub handle : Engine W T E G S C → EngineInput W → Engine W T E G S C
  unfolding take_input settle
  handle e input = let (intents, e') = take_input e input in settle e' intents input.ts

  unfoldable pub step : Engine W T E G S C → Bool × Engine W T E G S C
  unfolding handle
  step e =
      let (input, t) = tx.next e.transport in
      let e' = record e { transport = t } in
      elim input [ none ↦ (false, e') | some i ↦ (true, handle e' i) ]

  -- At most `n` steps, up to the first that finds the transport dry.
  unfoldable pub batch : ℕ → Engine W T E G S C → Engine W T E G S C
  batch zero e = e
  batch (suc n) e =
      let (progressed, e') = step e in let rest = batch n e' in if progressed then rest else e'

  -- `while (step())`, with fuel: `none` if that runs out.
  unfoldable pub drain : ℕ → Engine W T E G S C → Option (Engine W T E G S C)
  drain zero e = none
  drain (suc fuel) e =
      let (progressed, e') = step e in
      let rest = drain fuel e' in if progressed then rest else some e'

  -- `run`, over what each poll of the control channel returns; `none` while no `Stop` has come, or if
  -- the fuel of the last loop runs out.
  unfoldable pub run :
      ℕ → Engine W T E G S C → List (Option ControlCommand) → Option (Engine W T E G S C)
  run fuel e [] = none
  run fuel e (command ∷ commands) =
      let e' = batch steps_per_poll e in
      elim command [
        | some stop ↦ drain fuel (record e' { transport = tx.flush e'.transport })
        | _ ↦ run fuel e' commands
      ]
