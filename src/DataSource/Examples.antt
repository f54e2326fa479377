-- ===== src/DataSource/Examples.antt =====
-- The driver on small inputs.
use quant_platform.Base.{
  ℕ, ◌≡◌, refl, Bool, true, false, Option, none, some, List, [], ◌∷◌, map, All, arith,
}
use quant_platform.DataSource.{run, run_data_source, all_done}
use quant_platform.DataSource.Logs.{
  logged_source, logged_sink, IsComplete, start, run_data_source-IsComplete,
}
use quant_platform.DataSource.Scripts.{
  ScriptLane, scripted_source, scripted_sink, sunk, run_data_source_delivers,
}

-- Two lanes: one with a miss between its events, one whose sink refuses twice.
abbrev two_lanes : List (List (Option ℕ) × List Bool)
two_lanes =
    (some 1 ∷ none ∷ some 2 ∷ [], []) ∷ (some 7 ∷ some 8 ∷ [], false ∷ true ∷ false ∷ []) ∷ []

abbrev ended_lanes : List (ScriptLane ℕ)
ended_lanes =
    record { source = ([], 1 ∷ 2 ∷ []); sink = ([], 1 ∷ 2 ∷ []); pending = none; done = true }
    ∷ record { source = ([], 7 ∷ 8 ∷ []); sink = ([], 7 ∷ 8 ∷ []); pending = none; done = true }
    ∷ []

two_lanes_run :
    run_data_source
      (logged_source scripted_source)
      (logged_sink scripted_sink)
      (λ r. false)
      64
      20
      (start two_lanes)
    ≡ some ended_lanes
unfolding run
two_lanes_run = refl

run_data_source-IsComplete_example : All IsComplete ended_lanes
run_data_source-IsComplete_example =
    run_data_source-IsComplete scripted_source scripted_sink (λ r. false) 64 20 two_lanes
      ended_lanes two_lanes_run

run_data_source_delivers_example :
    (ls : List (ScriptLane ℕ)) × (run_data_source
        (logged_source scripted_source)
        (logged_sink scripted_sink)
        (λ r. false)
        64
        20
        (start two_lanes)
      ≡ some ls)
    × (all_done (logged_source scripted_source) (logged_sink scripted_sink) ls ≡ true)
    × (map sunk ls ≡ (1 ∷ 2 ∷ []) ∷ (7 ∷ 8 ∷ []) ∷ [])
run_data_source_delivers_example =
    run_data_source_delivers (λ r. false) 64 20 two_lanes (λ r. refl) (omega arith)
