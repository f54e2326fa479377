-- ===== src/DataSource/Scripts.antt =====
-- The driver on sources that end: every event arrives, within a bound on the rounds.
use mathlib.Core.List.{append-nil, append_assoc}
use quant_platform.Base.{
  ℕ, zero, suc, ◌+◌, ◌*◌, ◌%◌, ◌≤◌, ◌<◌, ◌≡◌, ◌∙◌, refl, sym, ap, ap₂, inl, inr, Bool, true, false,
  ◌&&◌, Option, none, some, List, [], ◌∷◌, ◌++◌, map, if◌then◌else◌, ◌==◌, length, Bool-cases,
  &&_both, &&_off, arith,
}
use quant_platform.DataSource.{
  no_data, eof, pulled, unexpected, Source, Sink, Lane, offer, receive, advance, poll_lane,
  poll_round, all_done, run, run_data_source,
}
use quant_platform.DataSource.Logs.{logged_source, logged_sink, held, start}

-- A source that gives these answers and then ends: `none` where it has no event yet.
abbrev pub scripted_source : {A : Type 0} → Source (List (Option A)) A
scripted_source = record {
  next = λ script. elim script [
    | [] ↦ (unexpected eof, [])
    | none ∷ rest ↦ (unexpected no_data, rest)
    | some ev ∷ rest ↦ (pulled ev, rest)
  ];
}

-- A sink that gives these answers and then takes everything.
abbrev pub scripted_sink : {A : Type 0} → Sink (List Bool) A
scripted_sink = record {
  accept = λ answers ev. elim answers [ [] ↦ (true, []) | taken ∷ rest ↦ (taken, rest) ];
}

-- The events of a script.
abbrev pub events : {A : Type 0} → List (Option A) → List A
events [] = []
events (none ∷ script) = events script
events (some ev ∷ script) = ev ∷ events script

abbrev pub ScriptLane : Type 0 → Type 0
ScriptLane A = Lane (List (Option A) × List A) (List Bool × List A) A

abbrev owed : Bool → ℕ
owed b = if b then 0 else 1

module _ {A : Type 0} where
  -- The rounds that a lane may still take.
  abbrev pub rounds_left : ScriptLane A → ℕ
  rounds_left l =
      if l.done then 0 else 2 * length l.source.0 + length l.sink.0 + length (held l.pending) + 1

  abbrev pub total_rounds : List (ScriptLane A) → ℕ
  total_rounds [] = 0
  total_rounds (l ∷ ls) = rounds_left l + total_rounds ls

  -- What a lane's sink has, and what it has in the end.
  abbrev pub sunk : ScriptLane A → List A
  sunk l = l.sink.1

  abbrev to_come : ScriptLane A → List A
  to_come l = if l.done then l.sink.1 else l.sink.1 ++ (held l.pending ++ events l.source.0)

  step_lane : ScriptLane A → ScriptLane A
  step_lane l = (poll_lane (logged_source scripted_source) (logged_sink scripted_sink) l).1

  Advances : ScriptLane A → Type 0
  Advances l =
      (rounds_left (step_lane l) + owed (step_lane l).done ≤ rounds_left l)
      × (to_come (step_lane l) ≡ to_come l)

  step_lane_lem :
      (done : Bool) (script : List (Option A)) (given : List A) (answers : List Bool) (log : List A)
      (pending : Option A)
      → Advances (record {
        source = (script, given);
        sink = (answers, log);
        pending = pending;
        done = done;
      })
  unfolding Advances step_lane poll_lane advance offer receive
  step_lane_lem true script given answers log pending = (omega arith, refl)
  step_lane_lem false script given [] log (some ev) =
      (omega arith, append_assoc log (ev ∷ []) (events script))
  step_lane_lem false script given (true ∷ answers) log (some ev) =
      (omega arith, append_assoc log (ev ∷ []) (events script))
  step_lane_lem false script given (false ∷ answers) log (some ev) = (omega arith, refl)
  step_lane_lem false [] given answers log none = (omega arith, sym (append-nil log))
  step_lane_lem false (none ∷ script) given answers log none = (omega arith, refl)
  step_lane_lem false (some ev ∷ script) given [] log none =
      (omega arith, append_assoc log (ev ∷ []) (events script))
  step_lane_lem false (some ev ∷ script) given (true ∷ answers) log none =
      (omega arith, append_assoc log (ev ∷ []) (events script))
  step_lane_lem false (some ev ∷ script) given (false ∷ answers) log none = (omega arith, refl)

  abbrev step_all : List (ScriptLane A) → List (ScriptLane A)
  step_all ls = (poll_round (logged_source scripted_source) (logged_sink scripted_sink) ls).1

  abbrev all_ended : List (ScriptLane A) → Bool
  all_ended ls = all_done (logged_source scripted_source) (logged_sink scripted_sink) ls

  step_lane-Advances : (l : ScriptLane A) → Advances l
  step_lane-Advances l = step_lane_lem l.done l.source.0 l.source.1 l.sink.0 l.sink.1 l.pending

  step_all_lem :
      (ls : List (ScriptLane A))
      → (total_rounds (step_all ls) + owed (all_ended (step_all ls)) ≤ total_rounds ls)
        × (map to_come (step_all ls) ≡ map to_come ls)
  unfolding poll_round all_done Advances step_lane
  step_all_lem [] = (omega arith, refl)
  step_all_lem (l ∷ ls) = (
    within _ _ _ _ (step_lane l).done (all_ended (step_all ls)) (step_lane-Advances l).0
        (step_all_lem ls).0,
    ap₂ (λ t ts. t ∷ ts) (step_lane-Advances l).1 (step_all_lem ls).1,
  )
    where
      within :
          (a b c d : ℕ) (x y : Bool)
          → a + owed x ≤ b
          → c + owed y ≤ d
          → a + c + owed (x && y) ≤ b + d
      within a b c d true true h k = omega arith
      within a b c d true false h k = omega arith
      within a b c d false true h k = omega arith
      within a b c d false false h k = omega arith

  -- At the end nothing is to come.
  ended_lem : (ls : List (ScriptLane A)) → all_ended ls ≡ true → map sunk ls ≡ map to_come ls
  unfolding all_done
  ended_lem [] h = refl
  ended_lem (l ∷ ls) h =
      let (now, rest) = &&_both l.done (all_ended ls) h in
      ap₂ (λ t ts. t ∷ ts)
        (sym
          (ap (λ b. if b then l.sink.1 else l.sink.1 ++ (held l.pending ++ events l.source.0)) now))
        (ended_lem ls rest)

  -- What a run comes to: it returns, all lanes are done, and the sinks have everything.
  abbrev Delivers : Option (List (ScriptLane A)) → List (ScriptLane A) → Type 0
  Delivers res ls =
      (ls' : List (ScriptLane A)) × (res ≡ some ls')
      × (all_ended ls' ≡ true)
      × (map sunk ls' ≡ map to_come ls)

  run_lem :
      (stop : ℕ → Bool) (every fuel round : ℕ) (ls : List (ScriptLane A))
      → ((r : ℕ) → stop r ≡ false)
      → total_rounds ls < fuel
      → Delivers
          (run (logged_source scripted_source) (logged_sink scripted_sink) stop every fuel round ls)
          ls
  unfolding run
  run_lem stop every zero round ls quiet h = absurd (omega arith)
  run_lem stop every (suc fuel) round ls quiet h =
      let (shorter, same) = step_all_lem ls in
      elim (Bool-cases (all_ended (step_all ls))) [
        | inl t ↦ rw t (step_all ls, refl, t, ended_lem (step_all ls) t ∙ same)
        | inr t ↦
            let less : total_rounds (step_all ls) < fuel = ground arith in
            let (ls', found, ended, got) =
              run_lem stop every fuel (round + 1) (step_all ls) quiet less in
            let on : (round % every == 0 && stop round) ≡ false =
              ap (λ b. round % every == 0 && b) (quiet round) ∙ &&_off (round % every == 0) in
            rw (t, on) (ls', found, ended, got ∙ same)
      ]

-- The events of the scripts.
abbrev pub all_events : {A : Type 0} → List (List (Option A) × List Bool) → List (List A)
all_events [] = []
all_events ((script, answers) ∷ pairs) = events script ∷ all_events pairs

abbrev pub rounds_bound : {A : Type 0} → List (List (Option A) × List Bool) → ℕ
rounds_bound [] = 0
rounds_bound ((script, answers) ∷ pairs) =
    2 * length script + length answers + 1 + rounds_bound pairs

module _ {A : Type 0} where
  start_rounds :
      (pairs : List (List (Option A) × List Bool)) → total_rounds (start pairs) ≡ rounds_bound pairs
  start_rounds [] = refl
  start_rounds ((script, answers) ∷ pairs) = omega (arith, start_rounds pairs)

  start-to_come :
      (pairs : List (List (Option A) × List Bool)) → map to_come (start pairs) ≡ all_events pairs
  start-to_come [] = refl
  start-to_come ((script, answers) ∷ pairs) = ap (λ t. events script ∷ t) (start-to_come pairs)

  -- Sources that give finitely many answers before they end, with any number of misses between, and
  -- sinks that refuse finitely often: if no poll answers Stop, the driver returns within the rounds
  -- that the answers and the refusals bound, with every lane done and every event of every source in
  -- its sink, in order.
  pub run_data_source_delivers :
      (stop : ℕ → Bool) (every fuel : ℕ) (pairs : List (List (Option A) × List Bool))
      → ((r : ℕ) → stop r ≡ false)
      → rounds_bound pairs < fuel
      → (ls : List (ScriptLane A)) × (run_data_source
            (logged_source scripted_source)
            (logged_sink scripted_sink)
            stop
            every
            fuel
            (start pairs)
          ≡ some ls)
        × (all_done (logged_source scripted_source) (logged_sink scripted_sink) ls ≡ true)
        × (map sunk ls ≡ all_events pairs)
  run_data_source_delivers stop every fuel pairs quiet h =
      let enough : total_rounds (start pairs) < fuel = omega (arith, start_rounds pairs) in
      let (ls, found, ended, got) = run_lem stop every fuel 0 (start pairs) quiet enough in
      (ls, found, ended, got ∙ start-to_come pairs)
