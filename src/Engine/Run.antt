-- ===== src/Engine/Run.antt =====
-- The run loop: it ends after a `Stop`, with the transport drained.
use quant_platform.Base.{ℕ, zero, suc, ◌<◌, ◌≤◌, ◌≡◌, none, some}
use quant_platform.Double.{Double}
use quant_platform.Risk.Gate.{RiskGate}
use quant_platform.Execution.Gateway.{ExecutionGateway}
use quant_platform.Strategy.{Strategy}
use quant_platform.Engine.{Engine, EngineInput, Transport, Recorder, handle, batch, steps_per_poll}

-- A transport that runs dry where `Good` holds: every input that it hands out lowers a measure, and
-- nothing raises it.
pub record RunsDry {ℓ} {W T : Type ℓ} (tx : Transport W T) (Good : T → Type ℓ) : Type ℓ where
  pub remaining : T → ℕ
  pub falls :
      (t : T) (i : EngineInput W)
      → Good t
      → (tx.next t).0 ≡ some i
      → remaining (tx.next t).1 < remaining t
  pub keeps : (t : T) → Good t → remaining (tx.next t).1 ≤ remaining t
  pub flush_keeps : (t : T) → Good t → remaining (tx.flush t) ≤ remaining t
  pub next_good : (t : T) → Good t → Good (tx.next t).1
  pub flush_good : (t : T) → Good t → Good (tx.flush t)

module _ {ℓ} {W T E G S C : Type ℓ} ⦃d : Double W⦄ ⦃tx : Transport W T⦄ ⦃ex : ExecutionGateway W E⦄
    ⦃rg : RiskGate W G⦄ ⦃st : Strategy W S⦄ ⦃rc : Recorder W C⦄ where
  -- Every input is handled until the transport has none.
  pub data Drains : Engine W T E G S C → Engine W T E G S C → Type ℓ where
    dry :
        {e : Engine W T E G S C}
        → (tx.next e.transport).0 ≡ none
        → Drains e (record e { transport = (tx.next e.transport).1 })
    pull :
        {e e' : Engine W T E G S C} (i : EngineInput W)
        → (tx.next e.transport).0 ≡ some i
        → Drains (handle (record e { transport = (tx.next e.transport).1 }) i) e'
        → Drains e e'

  -- Up to `n` inputs are handled, and fewer only if the transport has no more.
  pub data Handles : ℕ → Engine W T E G S C → Engine W T E G S C → Type ℓ where
    taken_all : {e : Engine W T E G S C} → Handles 0 e e
    misses :
        {n : ℕ} {e : Engine W T E G S C}
        → (tx.next e.transport).0 ≡ none
        → Handles (suc n) e (record e { transport = (tx.next e.transport).1 })
    one :
        {n : ℕ} {e e' : Engine W T E G S C} (i : EngineInput W)
        → (tx.next e.transport).0 ≡ some i
        → Handles n (handle (record e { transport = (tx.next e.transport).1 }) i) e'
        → Handles (suc n) e e'

  -- The handling between the polls, up to `kStepsPerPoll` inputs a round.
  pub data Rounds : ℕ → Engine W T E G S C → Engine W T E G S C → Type ℓ where
    over : {e : Engine W T E G S C} → Rounds 0 e e
    round :
        {n : ℕ} {e e' e'' : Engine W T E G S C}
        → Handles steps_per_poll e e'
        → Rounds n e' e''
        → Rounds (suc n) e e''

  module _ (Good : T → Type ℓ) (runs_dry : RunsDry tx Good) where
    open runs_dry use {remaining, falls, keeps, flush_keeps, next_good, flush_good}

    -- The engine after some batches of steps.
    abbrev pub batches : ℕ → Engine W T E G S C → Engine W T E G S C
    batches zero e = e
    batches (suc n) e = batches n (batch steps_per_poll e)

    abbrev pub flushed : Engine W T E G S C → Engine W T E G S C
    flushed e = record e { transport = tx.flush e.transport }

    -- What holds of the transport after some steps.
    abbrev Kept : Engine W T E G S C → Engine W T E G S C → Type ℓ
    Kept e e' = Good e'.transport × (remaining e'.transport ≤ remaining e.transport)
