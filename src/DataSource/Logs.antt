-- ===== src/DataSource/Logs.antt =====
-- What goes through a lane of the driver, in order.
use mathlib.Core.List.{append-nil}
use quant_platform.Base.{
  ℕ, zero, suc, ◌+◌, ◌%◌, ◌≤◌, ◌<◌, ◌≡◌, ◌∙◌, ap, ap₂, ==_iff, refl, sym, subst, inl, inr, Bool,
  true, false, ◌&&◌, Option, none, some, List, [], ◌∷◌, ◌++◌, if◌then◌else◌, ◌==◌, All, Bool-cases,
  arith,
}
use quant_platform.DataSource.{
  no_data, eof, PullResult, pulled, unexpected, Source, Sink, Lane, offer, receive, advance,
  poll_lane, poll_round, all_done, run, run_data_source, fresh_lane,
}

-- The events of a pull.
abbrev pub event_of {ℓ} : {A : Type ℓ} → PullResult A → List A
event_of (pulled ev) = ev ∷ []
event_of (unexpected status) = []

abbrev pub held {ℓ} : {A : Type ℓ} → Option A → List A
held none = []
held (some ev) = ev ∷ []

-- A source that also keeps all it has given out, and a sink that keeps all it has taken.
abbrev pub logged_source {ℓ} : {S A : Type ℓ} → Source S A → Source (S × List A) A
logged_source source = record {
  next = λ (s, log). let (res, s') = source.next s in (res, (s', log ++ event_of res));
}

abbrev pub logged_sink {ℓ} : {K A : Type ℓ} → Sink K A → Sink (K × List A) A
logged_sink sink = record {
  accept = λ (k, log) ev.
      let (taken, k') = sink.accept k ev in (taken, (k', if taken then log ++ (ev ∷ []) else log));
}

-- The lanes at the start, with empty logs.
abbrev pub start {ℓ} : {S K A : Type ℓ} → List (S × K) → List (Lane (S × List A) (K × List A) A)
start [] = []
start ((s, k) ∷ pairs) = fresh_lane (s, []) (k, []) ∷ start pairs

-- All that was pulled is in the sink, in order, but for one event held back; none at the end.
pub record IsComplete {ℓ} {S K A : Type ℓ} (l : Lane (S × List A) (K × List A) A) : Type ℓ where
  pub kept : l.source.1 ≡ l.sink.1 ++ held l.pending
  pub ended : l.done ≡ true → l.pending ≡ none

module _ {ℓ} {S K A : Type ℓ} where
  after_offer :
      (taken : Bool) (s : S) (k : K) (given log : List A) (ev : A)
      → given ≡ log ++ (ev ∷ [])
      → IsComplete (record {
        source = (s, given);
        sink = (k, if taken then log ++ (ev ∷ []) else log);
        pending = if taken then none else some ev;
        done = false;
      })
  after_offer true s k given log ev h = record {
    kept = h ∙ sym (append-nil (log ++ (ev ∷ [])));
    ended = λ e. absurd (cc);
  }
  after_offer false s k given log ev h = record { kept = h; ended = λ e. absurd (cc) }

  module _ (source : Source S A) (sink : Sink K A) where
    after_pull :
        (res : PullResult A) (s : S) (k : K) (log : List A)
        → IsComplete
            (receive
              (logged_source source)
              (logged_sink sink)
              (record {
                source = (s, log ++ event_of res);
                sink = (k, log);
                pending = none;
                done = false;
              })
              res).1
    unfolding receive offer
    after_pull (pulled ev) s k log =
        after_offer (sink.accept k ev).0 s (sink.accept k ev).1 (log ++ (ev ∷ [])) log ev refl
    after_pull (unexpected eof) s k log = record { kept = refl; ended = λ e. refl }
    after_pull (unexpected no_data) s k log = record { kept = refl; ended = λ e. absurd (cc) }

    advance-IsComplete :
        (pending : Option A) (s : S) (k : K) (given log : List A)
        → given ≡ log ++ held pending
        → IsComplete
            (advance
              (logged_source source)
              (logged_sink sink)
              (record { source = (s, given); sink = (k, log); pending = pending; done = false })
              pending).1
    unfolding advance offer
    advance-IsComplete (some ev) s k given log h =
        after_offer (sink.accept k ev).0 s (sink.accept k ev).1 given log ev h
    advance-IsComplete none s k given log h =
        let same : given ≡ log = h ∙ append-nil log in
        let (res, s') = source.next s in
        subst
          (λ g.
            IsComplete
              (receive (logged_source source) (logged_sink sink)
                (record {
                  source = (s', g ++ event_of res);
                  sink = (k, log);
                  pending = none;
                  done = false;
                })
                res).1)
          (sym same) (after_pull res s' k log)

    poll_lane-IsComplete :
        (done : Bool) (s : S) (k : K) (given log : List A) (pending : Option A)
        → IsComplete
            (record { source = (s, given); sink = (k, log); pending = pending; done = done })
        → IsComplete
            (poll_lane
              (logged_source source)
              (logged_sink sink)
              (record { source = (s, given); sink = (k, log); pending = pending; done = done })).1
    unfolding poll_lane
    poll_lane-IsComplete true s k given log pending c = c
    poll_lane-IsComplete false s k given log pending c =
        advance-IsComplete pending s k given log c.kept

    pub poll_round-IsComplete :
        (ls : List (Lane (S × List A) (K × List A) A))
        → All IsComplete ls
        → All IsComplete (poll_round (logged_source source) (logged_sink sink) ls).1
    unfolding poll_round
    poll_round-IsComplete [] h = tt
    poll_round-IsComplete (l ∷ ls) (c, h) = (
      poll_lane-IsComplete l.done l.source.0 l.sink.0 l.source.1 l.sink.1 l.pending c,
      poll_round-IsComplete ls h,
    )

module _ {ℓ} {S K : Type ℓ} where
  start-IsComplete : (A : Type ℓ) (pairs : List (S × K)) → All IsComplete (start {A = A} pairs)
  start-IsComplete A [] = tt
  start-IsComplete A ((s, k) ∷ pairs) =
      (record { kept = refl; ended = λ e. refl }, start-IsComplete A pairs)

module _ {ℓ} {S K A : Type ℓ} where
  module _ (source : Source S A) (sink : Sink K A) where
    run-IsComplete :
        (stop : ℕ → Bool) (every fuel round : ℕ) (ls ls' : List (Lane (S × List A) (K × List A) A))
        → All IsComplete ls
        → run (logged_source source) (logged_sink sink) stop every fuel round ls ≡ some ls'
        → All IsComplete ls'
    unfolding run
    run-IsComplete stop every zero round ls ls' h e = absurd (cc)
    run-IsComplete stop every (suc fuel) round ls ls' h e =
        let next = poll_round (logged_source source) (logged_sink sink) ls in
        let now = poll_round-IsComplete source sink ls h in
        elim (Bool-cases (all_done (logged_source source) (logged_sink sink) next.1)) [
          | inl t ↦ let same : next.1 ≡ ls' = ground arith in subst (All IsComplete) same now
          | inr t ↦ elim (Bool-cases (round % every == 0 && stop round)) [
            | inl u ↦ let same : next.1 ≡ ls' = ground arith in subst (All IsComplete) same now
            | inr u ↦ run-IsComplete stop every fuel (round + 1) next.1 ls' now (ground arith)
          ]
        ]

    -- However a run ends, each sink has taken exactly what its source gave, in that order, but for at
    -- most one last event that is still held back, and for none where the lane is done.
    pub run_data_source-IsComplete :
        (stop : ℕ → Bool) (every fuel : ℕ) (pairs : List (S × K))
        (ls : List (Lane (S × List A) (K × List A) A))
        → run_data_source (logged_source source) (logged_sink sink) stop every fuel (start pairs)
          ≡ some ls
        → All IsComplete ls
    run_data_source-IsComplete stop every fuel pairs ls e =
        run-IsComplete stop every fuel 0 (start pairs) ls (start-IsComplete A pairs) e

module _ {ℓ} {S K A : Type ℓ} (source : Source S A) (sink : Sink K A) where
  -- Whether a run returns.
  abbrev pub Returns : Option (List (Lane S K A)) → Type ℓ
  Returns res = (ls' : List (Lane S K A)) × (res ≡ some ls')

  run_stops :
      (stop : ℕ → Bool) (every fuel round at : ℕ) (ls : List (Lane S K A))
      → at % every ≡ 0
      → stop at ≡ true
      → round ≤ at
      → at < round + fuel
      → Returns (run source sink stop every fuel round ls)
  unfolding run
  run_stops stop every zero round at ls m s le lt = absurd (omega arith)
  run_stops stop every (suc fuel) round at ls m s le lt =
      let next = (poll_round source sink ls).1 in
      elim (Bool-cases (all_done source sink next)) [
        | inl t ↦ rw t (next, refl)
        | inr t ↦ elim (Bool-cases (round == at)) [
          | inl here ↦
              let same : round ≡ at = (==_iff round at).0 here in
              let due : (round % every == 0) ≡ true =
                (==_iff _ 0).1 (ap (λ r. r % every) same ∙ m) in
              let on : (round % every == 0 && stop round) ≡ true =
                ap₂ (λ x y. x && y) due (ap stop same ∙ s) in
              rw (t, on) (next, refl)
          | inr before ↦ elim (Bool-cases (round % every == 0 && stop round)) [
            | inl on ↦ rw (t, on) (next, refl)
            | inr off ↦
                let left : round + 1 ≤ at = ground arith in
                rw (t, off) (run_stops stop every fuel (round + 1) at next m s left (omega arith))
          ]
        ]
      ]

  -- A Stop that a poll finds ends the run in that round at the latest, whatever the sources and the
  -- sinks answer.
  pub run_data_source_stops :
      (stop : ℕ → Bool) (every fuel at : ℕ) (ls : List (Lane S K A))
      → at % every ≡ 0
      → stop at ≡ true
      → at < fuel
      → Returns (run_data_source source sink stop every fuel ls)
  run_data_source_stops stop every fuel at ls m s lt =
      run_stops stop every fuel 0 at ls m s (omega arith) (omega arith)
