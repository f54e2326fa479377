-- ===== src/Engine/Timer.antt =====
-- Which fills a step books: on a market event and on a timer tick, with the simulated gateway.
use quant_platform.Base.{
  ℕ, zero, suc, ◌≡◌, ◌∙◌, refl, ap, ap₂, true, none, some, List, [], ◌∷◌, map, length,
}
use quant_platform.Double.{Double}
use quant_platform.Core.Types.{Timestamp, MarketEvent, Order}
use quant_platform.Core.Portfolio.{apply_funding, apply_mark_price, apply_fills}
use quant_platform.Risk.Gate.{RiskGate}
use quant_platform.Risk.Basic.{BasicRiskGate, basic_gate}
use quant_platform.Execution.Gateway.{ExecutionGateway}
use quant_platform.Execution.Matcher.{Matcher}
use quant_platform.Execution.Sim.{SimExecution, sim_gateway, on_market_event}
use quant_platform.Execution.Sim.Outcomes.{fills_in, match_all, submit_all, outcomes_since_event}
use quant_platform.Strategy.{Strategy}
use quant_platform.Engine.{
  Engine, EngineInput, Transport, Recorder, submit_orders, take_input, handle,
}
use quant_platform.Engine.Steps.{orders_of, handle_lem}
use quant_platform.Engine.Latched.{handle_all, handle_tripped}

module _ {ℓ} {W M : Type ℓ} ⦃m : Matcher W M⦄ where
  submit_orders-eq-submit_all :
      (os : List (Order W)) (ts : Timestamp) (x : SimExecution W M)
      → submit_orders ⦃ex = sim_gateway⦄ os ts x ≡ submit_all x os ts
  unfolding submit_orders submit_all
  submit_orders-eq-submit_all [] ts x = refl
  submit_orders-eq-submit_all (o ∷ os) ts x = submit_orders-eq-submit_all os ts _

module _ {ℓ} {W T M G S C : Type ℓ} ⦃d : Double W⦄ ⦃tx : Transport W T⦄ ⦃m : Matcher W M⦄
    ⦃rg : RiskGate W G⦄ ⦃st : Strategy W S⦄ ⦃rc : Recorder W C⦄ where
  -- On a market event the books take the event's funding and marks and then the fills of exactly the
  -- orders of this step, each once: nothing of an earlier step is left over.
  pub event_fills_once :
      (e : Engine W T (SimExecution W M) G S C) (ts : Timestamp) (ev : MarketEvent W)
      → let input : EngineInput W = record { ts = ts; event = some ev } in
        let orders = (orders_of ⦃ex = sim_gateway⦄ e input).0 in
        let outcomes = (match_all (m.on_market_event e.exec.matcher ev) orders ts).0 in
        (handle ⦃ex = sim_gateway⦄ e input).portfolio
        ≡ apply_fills (apply_mark_price (apply_funding e.portfolio ev) ev) (fills_in outcomes)
  unfolding take_input
  event_fills_once e ts ev =
      let input : EngineInput W = record { ts = ts; event = some ev } in
      let orders = (orders_of ⦃ex = sim_gateway⦄ e input).0 in
      let lem = handle_lem ⦃ex = sim_gateway⦄ e input in
      lem.2
      ∙ ap (apply_fills (apply_mark_price (apply_funding e.portfolio ev) ev)) (
          ap (λ x. x.fills)
            (lem.0 ∙ submit_orders-eq-submit_all orders ts (on_market_event e.exec ev))
          ∙ (outcomes_since_event e.exec ev orders ts).0)

-- `f` applied `n` times.
abbrev pub repeated {ℓ} : {A : Type ℓ} → ℕ → (A → A) → A → A
repeated zero f a = a
repeated (suc n) f a = repeated n f (f a)

module _ {ℓ} {W : Type ℓ} where
  abbrev pub timer : Timestamp → EngineInput W
  timer ts = record { ts = ts; event = none }

module _ {ℓ} {W T E S C : Type ℓ} ⦃d : Double W⦄ ⦃tx : Transport W T⦄ ⦃ex : ExecutionGateway W E⦄
    ⦃st : Strategy W S⦄ ⦃rc : Recorder W C⦄ where
  tick_repeats :
      (e : Engine W T E (BasicRiskGate W) S C) (ts : Timestamp)
      → e.risk.tripped ≡ true
      → let q = handle ⦃rg = basic_gate⦄ e (timer ts) in
        (q.exec ≡ e.exec)
        × (q.risk.tripped ≡ true)
        × (q.portfolio ≡ apply_fills e.portfolio (ex.fills e.exec))
  unfolding take_input
  tick_repeats e ts h =
      let (silent, still) = handle_tripped e (timer ts) h in
      (
        silent,
        still,
        (handle_lem ⦃rg = basic_gate⦄ e (timer ts)).2
            ∙ ap (λ x. apply_fills e.portfolio (ex.fills x)) silent,
      )

  -- The gateway clears its outcomes on market events only, so each timer tick books the fills of the
  -- last step again: behind a tripped gate, where no order is submitted, `n` ticks in a row apply
  -- the fills that the gateway still shows `n` more times.
  pub timer_repeats_fills :
      (times : List Timestamp) (e : Engine W T E (BasicRiskGate W) S C)
      → e.risk.tripped ≡ true
      → (handle_all e (map timer times)).portfolio
        ≡ repeated (length times) (λ p. apply_fills p (ex.fills e.exec)) e.portfolio
  unfolding handle_all
  timer_repeats_fills [] e h = refl
  timer_repeats_fills (ts ∷ times) e h =
      let (exec_is, still, books) = tick_repeats e ts h in
      timer_repeats_fills times (handle ⦃rg = basic_gate⦄ e (timer ts)) still
      ∙ ap₂ (λ x p. repeated (length times) (λ q. apply_fills q (ex.fills x)) p) exec_is books
