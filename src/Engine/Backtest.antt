-- ===== src/Engine/Backtest.antt =====
-- include/engine/transport/backtest_in_process/backtest_in_process_transport.hpp: the legs are merged
-- by time, and timer ticks stand between the events. A leg is a queue with the consumer that reads it
-- and the one event that was taken off ahead. The queue is any type with a `try_pop`;
-- `SpmcLeg` is the one of the code. Times are integers; `next_timer_` is taken not to overflow.
pub mod Legs
pub mod Timely
pub mod Merge
pub mod Fed
pub mod Dry
mod Examples
use quant_platform.Base.{
  ℕ, zero, suc, Bool, true, false, ◌&&◌, not, Option, none, some, List, [], ◌∷◌, if◌then◌else◌,
}
use quant_platform.Base.Int.{pos, ◌+ℤ◌, ltb_ℤ, leb_ℤ}
use quant_platform.Core.Types.{Timestamp, MarketEvent}
use quant_platform.Core.SpmcQueue.{SpmcQueue, try_pop}
use quant_platform.Engine.{EngineInput, Transport}

pub record PopQueue {ℓ} (W Q : Type ℓ) : Type ℓ where
  pub try_pop : Q → Option (MarketEvent W) × Q

-- What a leg reads in the code: a queue, as the consumer of one id.
pub record SpmcLeg {ℓ} (W : Type ℓ) : Type ℓ where
  pub queue : SpmcQueue (MarketEvent W)
  pub consumer : ℕ

-- `try_pop(consumer)` of a queue with `2 ^ k` slots.
abbrev pub spmc_pop {ℓ} : {W : Type ℓ} → ℕ → PopQueue W (SpmcLeg W)
spmc_pop k = record {
  try_pop = λ x.
      let (popped, queue) = try_pop k x.queue x.consumer in (popped, record x { queue = queue });
}

pub record QueueLeg {ℓ} (W Q : Type ℓ) : Type ℓ where
  pub queue : Q
  pub lookahead : Option (MarketEvent W)

pub record BacktestTransport {ℓ} (W Q : Type ℓ) : Type ℓ where
  pub legs : List (QueueLeg W Q)
  pub timer_period : Timestamp
  pub next_timer : Timestamp
  pub timer_armed : Bool
  pub flushing : Bool

module _ {ℓ} {W : Type ℓ} where
  -- The earliest lookahead so far, as its event and the index of its leg; a later leg has to be
  -- strictly earlier.
  abbrev pub earlier : Option (MarketEvent W × ℕ) → MarketEvent W → ℕ → Option (MarketEvent W × ℕ)
  earlier none ev i = some (ev, i)
  earlier (some (best, j)) ev i =
      if ltb_ℤ ev.base.ts best.base.ts then some (ev, i) else some (best, j)

module _ {ℓ} {W Q : Type ℓ} where
  unfoldable pub flush : BacktestTransport W Q → BacktestTransport W Q
  flush t = record t { flushing = true }

  -- `lookahead_[i].reset()`.
  unfoldable pub reset_leg : List (QueueLeg W Q) → ℕ → List (QueueLeg W Q)
  reset_leg [] i = []
  reset_leg (leg ∷ legs) zero = record leg { lookahead = none } ∷ legs
  reset_leg (leg ∷ legs) (suc i) = leg ∷ reset_leg legs i

  -- The single pass of `next`, on legs that are topped up as it goes: whether one is missing, and the
  -- earliest.
  unfoldable pub any_missing : List (QueueLeg W Q) → Bool
  any_missing [] = false
  any_missing (leg ∷ legs) = elim leg.lookahead [ none ↦ true | some ev ↦ any_missing legs ]

  unfoldable pub earliest :
      ℕ → Option (MarketEvent W × ℕ) → List (QueueLeg W Q) → Option (MarketEvent W × ℕ)
  earliest i best [] = best
  earliest i best (leg ∷ legs) =
      earliest (suc i) (elim leg.lookahead [ none ↦ best | some ev ↦ earlier best ev i ]) legs

  -- `next` past the pass, where an event is known: a timer boundary at or before it fires first.
  unfoldable pub emit :
      BacktestTransport W Q → MarketEvent W → ℕ → Option (EngineInput W) × BacktestTransport W Q
  unfolding reset_leg
  emit t ev i =
      let timed = ltb_ℤ (pos 0) t.timer_period in
      let boundary = if t.timer_armed then t.next_timer else ev.base.ts +ℤ t.timer_period in
      let t' = if timed then record t { next_timer = boundary; timer_armed = true } else t in
      if timed && leb_ℤ boundary ev.base.ts
      then (
        some (record { ts = boundary; event = none }),
        record t' { next_timer = boundary +ℤ t.timer_period },
      )
      else (
        some (record { ts = ev.base.ts; event = some ev }),
        record t' { legs = reset_leg t'.legs i },
      )

module _ {ℓ} {W Q : Type ℓ} ⦃q : PopQueue W Q⦄ where
  -- A leg whose lookahead is filled from its queue, if it was empty and the queue has an event.
  unfoldable pub top_up : QueueLeg W Q → QueueLeg W Q
  top_up leg = elim leg.lookahead [
    | some ev ↦ leg
    | none ↦
        let (popped, queue) = q.try_pop leg.queue in record { queue = queue; lookahead = popped }
  ]

  unfoldable pub top_up_all : List (QueueLeg W Q) → List (QueueLeg W Q)
  unfolding top_up
  top_up_all [] = []
  top_up_all (leg ∷ legs) = top_up leg ∷ top_up_all legs

  unfoldable pub next : BacktestTransport W Q → Option (EngineInput W) × BacktestTransport W Q
  unfolding top_up_all any_missing earliest emit
  next t =
      let t' = record t { legs = top_up_all t.legs } in
      if not t.flushing && any_missing t'.legs
      then (none, t')
      else elim (earliest 0 none t'.legs) [ none ↦ (none, t') | some (ev, i) ↦ emit t' ev i ]

  abbrev pub backtest_transport : Transport W (BacktestTransport W Q)
  backtest_transport = record { next = next; flush = flush }
