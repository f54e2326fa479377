-- ===== src/DataSource.antt =====
-- include/data_source: what a source answers (source/source.hpp), the source that ends at once
-- (source/eof_source.hpp) and the driver that moves events into sinks (run_data_source.hpp). The tuples
-- of sources and sinks are the lanes of a list. A lane's state stands for all that its source or its
-- sink reads, also what other threads do between two rounds. The sleep of a round without work changes
-- no state.
pub mod Logs
pub mod Scripts
mod Examples
use quant_platform.Base.{
  ℕ, zero, suc, ◌+◌, ◌%◌, Bool, true, false, ◌&&◌, ◌||◌, Option, none, some, List, [], ◌∷◌,
  if◌then◌else◌, ◌==◌,
}

pub data SourceStatus : Type 0 where
  no_data eof : SourceStatus

-- `std::expected<MarketEvent, SourceStatus>`.
pub data PullResult {ℓ} (A : Type ℓ) : Type ℓ where
  pulled : A → PullResult A
  unexpected : SourceStatus → PullResult A

pub record Source {ℓ} (S A : Type ℓ) : Type ℓ where
  pub next : S → PullResult A × S

-- `record` consumes the event only where it answers true.
pub record Sink {ℓ} (K A : Type ℓ) : Type ℓ where
  pub accept : K → A → Bool × K

-- The whole of `EofSource`.
pub eof_source {ℓ} : {S A : Type ℓ} → Source S A
eof_source = record { next = λ s. (unexpected eof, s) }

-- A source, its sink, and the entries of `pending` and `done` at their position.
pub record Lane {ℓ} (S K A : Type ℓ) : Type ℓ where
  pub source : S
  pub sink : K
  pub pending : Option A
  pub done : Bool

module _ {ℓ} {S K A : Type ℓ} (source : Source S A) (sink : Sink K A) where
  -- An event held back is offered again.
  offer : Lane S K A → A → Bool × Lane S K A
  offer l ev =
      let (taken, k) = sink.accept l.sink ev in
      (taken, record l { sink = k; pending = if taken then none else some ev })

  -- What a pull leads to.
  receive : Lane S K A → PullResult A → Bool × Lane S K A
  unfolding offer
  receive l (pulled ev) = offer l ev
  receive l (unexpected eof) = (false, record l { done = true })
  receive l (unexpected no_data) = (false, l)

  advance : Lane S K A → Option A → Bool × Lane S K A
  unfolding offer receive
  advance l (some ev) = offer l ev
  advance l none = let (res, s) = source.next l.source in receive (record l { source = s }) res

  -- One lane's part of a round, and whether an event was moved.
  pub poll_lane : Lane S K A → Bool × Lane S K A
  unfolding advance
  poll_lane l = if l.done then (false, l) else advance l l.pending

  pub poll_round : List (Lane S K A) → Bool × List (Lane S K A)
  unfolding poll_lane
  poll_round [] = (false, [])
  poll_round (l ∷ ls) =
      let (any, l') = poll_lane l in let (any', ls') = poll_round ls in (any || any', l' ∷ ls')

  pub all_done : List (Lane S K A) → Bool
  all_done [] = true
  all_done (l ∷ ls) = l.done && all_done ls

  -- `stop r` is whether the poll of the control channel in round `r` answers Stop. `every` is
  -- `stop_poll_every`. Without fuel the loop is cut off.
  pub run :
      (stop : ℕ → Bool) (every fuel round : ℕ) → List (Lane S K A) → Option (List (Lane S K A))
  unfolding poll_round all_done
  run stop every zero round ls = none
  run stop every (suc fuel) round ls =
      let ls' = (poll_round ls).1 in
      let more = run stop every fuel (round + 1) ls' in
      if all_done ls' then some ls' else if round % every == 0 && stop round then some ls' else more

  abbrev pub run_data_source :
      (stop : ℕ → Bool) (every fuel : ℕ) → List (Lane S K A) → Option (List (Lane S K A))
  run_data_source stop every fuel ls = run stop every fuel 0 ls

-- The lane at the start of a run.
abbrev pub fresh_lane {ℓ} : {S K A : Type ℓ} → S → K → Lane S K A
fresh_lane s k = record { source = s; sink = k; pending = none; done = false }
