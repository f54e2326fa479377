-- ===== src/Engine/Backtest/Examples.antt =====
-- Two legs over the queue of the code, each with a producer of its own.
use quant_platform.Base.{ℕ, ◌+◌, ◌*◌, refl, false, none, List, [], ◌∷◌, arith}
use quant_platform.Base.Int.{pos, ◌≤ℤ◌}
use quant_platform.Double.{Fixed, fixed}
use quant_platform.Core.Types.{EventKind, kline, MarketEvent}
use quant_platform.Core.SpmcQueue.{fresh}
use quant_platform.Engine.Backtest.{BacktestTransport}
use quant_platform.Engine.Backtest.Fed.{FedLeg, fed_pop, feed, IsFed, FedLeg-Ascending, feed-IsFed}
use quant_platform.Engine.Backtest.Timely.{Timely}
use quant_platform.Engine.Backtest.Merge.{pull_all, pull_all_ordered, Turn, pull, arrive, InOrder}

abbrev bar : ℕ → MarketEvent Fixed
bar ts = record {
  base = record { kind = EventKind.kline; exchange = 0; market = 0; symbol = 0; ts = pos ts };
  payload = kline (record {
    open_time = pos 0;
    open_price = fixed 1;
    high = fixed 1;
    low = fixed 1;
    close = fixed 1;
    volume = fixed 1;
  });
}

-- A producer of bars at `first`, `first + gap` and so on, and a queue that is empty yet.
abbrev fed : (first gap : ℕ) → FedLeg Fixed
unfolding fresh
fed first gap = record {
  leg = record { queue = fresh; consumer = 0 };
  script = λ i. bar (first + i * gap);
  total = 5;
}

fed-IsFed : (first gap : ℕ) → IsFed 1 1 (fed first gap) (pos 0)
unfolding fresh
fed-IsFed first gap = record {
  ascends = λ i. steps first gap i;
  small = omega arith;
  one_of = omega arith;
  behind = omega arith;
  scripted = omega arith;
  room = omega arith;
  kept = λ i lo hi. absurd (omega arith);
  due = omega arith;
}
  where
    steps : (first gap i : ℕ) → pos (first + i * gap) ≤ℤ pos (first + (i + 1) * gap)
    steps first gap i = grind arith

abbrev merging : BacktestTransport Fixed (FedLeg Fixed)
merging = record {
  legs =
      record { queue = fed 4 5; lookahead = none }
      ∷ record { queue = fed 3 2; lookahead = none }
      ∷ [];
  timer_period = pos 2;
  next_timer = pos 0;
  timer_armed = false;
  flushing = false;
}

-- The producers push between the pulls, once into a queue that is full.
abbrev turns : List (Turn {W = Fixed} ⦃q = fed_pop 1 1⦄ (IsFed 1 1) (FedLeg-Ascending 1 1))
turns =
    pull
    ∷ arrive 0 (feed 1 1)
    ∷ arrive 1 (feed 1 1)
    ∷ arrive 1 (feed 1 1)
    ∷ arrive 1 (feed 1 1)
    ∷ pull
    ∷ pull
    ∷ pull
    ∷ arrive 0 (feed 1 1)
    ∷ pull
    ∷ pull
    ∷ []

merging_ok : Timely ⦃q = fed_pop 1 1⦄ (IsFed 1 1) (FedLeg-Ascending 1 1) (pos 0) merging
merging_ok = record {
  waiting = refl;
  legs_ok = (fed-IsFed 4 5, (fed-IsFed 3 2, tt));
  timer_ok = λ timed armed. absurd (cc);
}

pull_all_ordered_example :
    InOrder ⦃q = fed_pop 1 1⦄
      (IsFed 1 1)
      (FedLeg-Ascending 1 1)
      (pos 0)
      (pull_all ⦃q = fed_pop 1 1⦄ (IsFed 1 1) (FedLeg-Ascending 1 1) merging turns)
pull_all_ordered_example =
    pull_all_ordered ⦃q = fed_pop 1 1⦄ (IsFed 1 1) (FedLeg-Ascending 1 1) turns (pos 0) merging
      (
        tt,
        (
          feed-IsFed 1 1,
          (
            feed-IsFed 1 1,
            (feed-IsFed 1 1, (feed-IsFed 1 1, (tt, (tt, (tt, (feed-IsFed 1 1, (tt, (tt, tt)))))))),
          ),
        ),
      )
      merging_ok
