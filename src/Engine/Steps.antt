-- ===== src/Engine/Steps.antt =====
-- What one step submits, and what it leaves alone.
use quant_platform.Base.{◌≡◌, ◌∙◌, refl, ap, ap₂, sym, none, some, List, [], ◌∷◌, ◌++◌, arith}
use quant_platform.Double.{Double}
use quant_platform.Core.Types.{Timestamp, Intent, Order}
use quant_platform.Core.Portfolio.{Portfolio, apply_fills}
use quant_platform.Risk.Gate.{rejected, RiskDecision, RiskGate}
use quant_platform.Execution.Gateway.{ExecutionGateway}
use quant_platform.Strategy.{Strategy}
use quant_platform.Engine.{
  Engine, EngineInput, Transport, Recorder, submit_if_approved, submit_intents, submit_orders,
  take_input, handle,
}

module _ {ℓ} {W : Type ℓ} where
  -- The order of a decision that is not a rejection.
  abbrev pub cleared : RiskDecision W → List (Order W)
  cleared decision = elim decision.outcome [
    | rejected ↦ []
    | _ ↦ elim decision.order [ none ↦ [] | some o ↦ o ∷ [] ]
  ]

module _ {ℓ} {W G : Type ℓ} ⦃rg : RiskGate W G⦄ where
  -- What the gate clears of some intents, and the gate after them.
  unfoldable pub clear_all : List (Intent W) → Portfolio W → G → List (Order W) × G
  clear_all [] p g = ([], g)
  clear_all (i ∷ is) p g =
      let (decision, g') = rg.check g p i in
      let (orders, last) = clear_all is p g' in (cleared decision ++ orders, last)

module _ {ℓ} {W E : Type ℓ} ⦃ex : ExecutionGateway W E⦄ where
  submit_orders-append :
      (os qs : List (Order W)) (ts : Timestamp) (x : E)
      → submit_orders (os ++ qs) ts x ≡ submit_orders qs ts (submit_orders os ts x)
  unfolding submit_orders
  submit_orders-append [] qs ts x = refl
  submit_orders-append (o ∷ os) qs ts x = submit_orders-append os qs ts (ex.submit x o ts)

  submit_if_approved_lem :
      (x : E) (decision : RiskDecision W) (ts : Timestamp)
      → submit_if_approved x decision ts ≡ submit_orders (cleared decision) ts x
  unfolding submit_if_approved submit_orders
  submit_if_approved_lem x decision ts = ground arith

module _ {ℓ} {W E G : Type ℓ} ⦃ex : ExecutionGateway W E⦄ ⦃rg : RiskGate W G⦄ where
  submit_intents_lem :
      (is : List (Intent W)) (p : Portfolio W) (ts : Timestamp) (x : E) (g : G)
      → let (orders, last) = clear_all is p g in
        ((submit_intents is p ts x g).0 ≡ submit_orders orders ts x)
        × ((submit_intents is p ts x g).1 ≡ last)
  unfolding submit_intents clear_all submit_orders
  submit_intents_lem [] p ts x g = (refl, refl)
  submit_intents_lem (i ∷ is) p ts x g =
      let (decision, g') = rg.check g p i in
      let ih = submit_intents_lem is p ts (submit_if_approved x decision ts) g' in
      let orders = (clear_all is p g').0 in
      (
        ih.0
            ∙ ap (submit_orders orders ts) (submit_if_approved_lem x decision ts)
            ∙ sym (submit_orders-append (cleared decision) orders ts x),
        ih.1,
      )

module _ {ℓ} {W T E G S C : Type ℓ} ⦃d : Double W⦄ ⦃tx : Transport W T⦄ ⦃ex : ExecutionGateway W E⦄
    ⦃rg : RiskGate W G⦄ ⦃st : Strategy W S⦄ ⦃rc : Recorder W C⦄ where
  -- The orders of a step: those that the gate clears of the strategy's intents, then the gate's own,
  -- and the gate after them.
  unfoldable pub orders_of : Engine W T E G S C → EngineInput W → List (Order W) × G
  orders_of e input =
      let (intents, e') = take_input e input in
      let (orders, g) = clear_all intents e'.portfolio e'.risk in
      let (own, last) = rg.on_tick g e'.portfolio in (orders ++ own, last)

  -- A step hands the gateway exactly the orders that the gate cleared of the strategy's intents and
  -- then the gate's own, in this order, after the gateway has seen the input; the books then take all
  -- fills that the gateway shows, and the recorder samples the books as they are after that.
  pub handle_lem :
      (e : Engine W T E G S C) (input : EngineInput W)
      → let (intents, e') = take_input e input in
        let (orders, gate) = orders_of e input in
        let q = handle e input in
        (q.exec ≡ submit_orders orders input.ts e'.exec)
        × (q.risk ≡ gate)
        × (q.portfolio ≡ apply_fills e'.portfolio (ex.fills q.exec))
        × (q.recorder ≡ rc.sample e'.recorder input.ts q.portfolio)
  unfolding handle orders_of
  handle_lem e input =
      let (intents, e') = take_input e input in
      let (exec_is, gate_is) = submit_intents_lem intents e'.portfolio input.ts e'.exec e'.risk in
      (
        ap₂ (λ x g. submit_orders (rg.on_tick g e'.portfolio).0 input.ts x) exec_is gate_is
            ∙ sym (
                submit_orders-append (clear_all intents e'.portfolio e'.risk).0
                  (rg.on_tick (clear_all intents e'.portfolio e'.risk).1 e'.portfolio).0 input.ts
                  e'.exec),
        ap (λ g. (rg.on_tick g e'.portfolio).1) gate_is,
        refl,
        refl,
      )
