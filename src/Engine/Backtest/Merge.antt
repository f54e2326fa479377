-- ===== src/Engine/Backtest/Merge.antt =====
-- The inputs of the transport in the order of time, while the legs still fill.
use quant_platform.Base.{
  ℕ, zero, suc, refl, inl, inr, Option, none, some, List, [], ◌∷◌, All, Bool-cases, Option-cases,
}
use quant_platform.Base.Int.{◌≤ℤ◌}
use quant_platform.Core.Types.{Timestamp, MarketEvent}
use quant_platform.Engine.{EngineInput}
use quant_platform.Engine.Backtest.{
  PopQueue, QueueLeg, BacktestTransport, earliest, any_missing, top_up_all, next,
}
use quant_platform.Engine.Backtest.Legs.{Ascending, earliest_lem, found}
use quant_platform.Engine.Backtest.Timely.{
  GoesOn, LegGoesOn, Timely, Returned, top_up_all_lem, emit_lem,
}

module _ {ℓ} {W Q : Type ℓ} ⦃q : PopQueue W Q⦄ (Bound : Q → Timestamp → Type ℓ)
    (asc : Ascending q Bound) where
  next_lem :
      (last : Timestamp) (t : BacktestTransport W Q)
      → Timely Bound asc last t
      → Returned Bound asc last (next t)
  unfolding next
  next_lem last t h =
      let legs = top_up_all t.legs in
      let legs_ok = top_up_all_lem Bound asc last t.legs h.legs_ok in
      let topped : Timely Bound asc last (record t { legs = legs }) = record {
        waiting = h.waiting;
        legs_ok = legs_ok;
        timer_ok = h.timer_ok;
      } in
      elim (Bool-cases (any_missing legs)) [
        | inl f ↦
            rw (h.waiting, f)
              (inl (refl, record { waiting = refl; legs_ok = legs_ok; timer_ok = h.timer_ok }))
        | inr f ↦ elim (Option-cases (earliest 0 none legs)) [
          | inl e ↦ rw (h.waiting, f, e) (inl (refl, topped))
          | inr ((ev, i), e) ↦
              let (all, bound, from) = earliest_lem legs 0 none ev i e in
              rw (h.waiting, f, e)
                (emit_lem Bound asc last (record t { legs = legs }) ev i topped f all
                  (found legs ev i from))
        ]
      ]

  -- The transport and its surroundings: a pull, or a change of one leg's queue by its producer.
  pub data Turn : Type ℓ where
    pull : Turn
    arrive : ℕ → (Q → Q) → Turn

  -- What a producer does leaves its queue in the order of time.
  abbrev pub Adds : Turn → Type ℓ
  Adds pull = Unit
  Adds (arrive i grow) = (x : Q) (t : Timestamp) → Bound x t → Bound (grow x) t

  abbrev pub grow_leg : List (QueueLeg W Q) → ℕ → (Q → Q) → List (QueueLeg W Q)
  grow_leg [] i grow = []
  grow_leg (leg ∷ legs) zero grow = record leg { queue = grow leg.queue } ∷ legs
  grow_leg (leg ∷ legs) (suc i) grow = leg ∷ grow_leg legs i grow

  -- The inputs that the pulls return.
  pub pull_all : BacktestTransport W Q → List Turn → List (EngineInput W)
  pull_all t [] = []
  pull_all t (pull ∷ turns) =
      let (out, t') = next t in
      let rest = pull_all t' turns in elim out [ none ↦ rest | some input ↦ input ∷ rest ]
  pull_all t (arrive i grow ∷ turns) = pull_all (record t { legs = grow_leg t.legs i grow }) turns

  abbrev pub InOrder : Timestamp → List (EngineInput W) → Type 0
  InOrder last [] = Unit
  InOrder last (input ∷ inputs) = (last ≤ℤ input.ts) × InOrder input.ts inputs

  grown :
      (last : Timestamp) (o : Option (MarketEvent W)) (x : Q) (grow : Q → Q)
      → ((x : Q) (t : Timestamp) → Bound x t → Bound (grow x) t)
      → GoesOn Bound asc last o x
      → GoesOn Bound asc last o (grow x)
  grown last none x grow g h = g x last h
  grown last (some ev) x grow g h = (h.0, g x ev.base.ts h.1)

  grow_leg_lem :
      (last : Timestamp) (legs : List (QueueLeg W Q)) (i : ℕ) (grow : Q → Q)
      → ((x : Q) (t : Timestamp) → Bound x t → Bound (grow x) t)
      → All (LegGoesOn Bound asc last) legs
      → All (LegGoesOn Bound asc last) (grow_leg legs i grow)
  grow_leg_lem last [] i grow g h = tt
  grow_leg_lem last (leg ∷ legs) zero grow g h =
      (grown last leg.lookahead leg.queue grow g h.0, h.1)
  grow_leg_lem last (leg ∷ legs) (suc i) grow g h = (h.0, grow_leg_lem last legs i grow g h.1)

  -- While the transport waits for all legs, its inputs, events and timer ticks together, come in the
  -- order of time, if each queue hands out its own events in the order of time, and what the producers
  -- do between the pulls leaves it so.
  pub pull_all_ordered :
      (turns : List Turn) (last : Timestamp) (t : BacktestTransport W Q)
      → All Adds turns
      → Timely Bound asc last t
      → InOrder last (pull_all t turns)
  unfolding pull_all
  pull_all_ordered [] last t a h = tt
  pull_all_ordered (arrive i grow ∷ turns) last t a h =
      pull_all_ordered turns last (record t { legs = grow_leg t.legs i grow }) a.1
        (record {
          waiting = h.waiting;
          legs_ok = grow_leg_lem last t.legs i grow a.0 h.legs_ok;
          timer_ok = h.timer_ok;
        })
  pull_all_ordered (pull ∷ turns) last t a h = elim (next_lem last t h) [
    | inl (e, h') ↦ rw (e, pull_all) (pull_all_ordered turns last (next t).1 a.1 h')
    | inr (input, e, up, h') ↦
        rw (e, pull_all) (up, pull_all_ordered turns input.ts (next t).1 a.1 h')
  ]
