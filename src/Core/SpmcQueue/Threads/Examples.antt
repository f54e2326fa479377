-- ===== src/Core/SpmcQueue/Threads/Examples.antt =====
-- Two consumers of a queue with two slots.
use quant_platform.Base.{
  ℕ, ◌+◌, ◌^◌, ◌≤◌, ◌≡◌, ◌≢◌, refl, List, [], ◌∷◌, ◌++◌, if◌then◌else◌, length, take, replicate,
  arith,
}
use quant_platform.Core.SpmcQueue.{masked, push}
use quant_platform.Core.SpmcQueue.Threads.{
  Move, produce, consume, Threads, run_moves, start, produce_step, consume_step, move,
}
use quant_platform.Core.SpmcQueue.Threads.Delivery.{run_moves_deliver, run_moves_apart}
use quant_platform.Core.SpmcQueue.Threads.Push.{accesses, push_moves}

-- One push, a second that is about to construct, and a pop that is about to read.
abbrev moves : List (Move ℕ)
moves =
    produce 7
    ∷ produce 7
    ∷ produce 7
    ∷ consume 1
    ∷ consume 1
    ∷ consume 1
    ∷ produce 8
    ∷ produce 8
    ∷ produce 8
    ∷ consume 1
    ∷ produce 9
    ∷ consume 0
    ∷ consume 0
    ∷ consume 0
    ∷ []

got : (run_moves 1 2 start moves).seen 1 ≡ 7 ∷ []
unfolding run_moves move produce_step consume_step start
got = refl

run_moves_deliver_example :
    let t = run_moves 1 2 start moves in
    (t.seen 1 ≡ take (length (t.seen 1)) t.log)
    × (length (t.seen 1) ≡ t.queue.cursors 1)
    × (length (t.seen 1) ≤ length t.log)
    × (length t.log ≤ length (t.seen 1) + 2 ^ 1)
run_moves_deliver_example = run_moves_deliver 1 2 moves 1 (omega arith) (omega arith)

abbrev racing : List (Move ℕ)
racing = produce 7 ∷ produce 7 ∷ produce 7 ∷ consume 1 ∷ produce 8 ∷ []

run_moves_apart_example : masked 1 1 ≢ masked 1 0
unfolding run_moves move produce_step consume_step start
run_moves_apart_example = run_moves_apart 1 2 racing 1 8 1 0 (omega arith) (omega arith) refl refl

push_moves_example :
    let (ok, queue) = push 1 2 (start {A = ℕ}).queue 7 in
    run_moves 1 2 start (replicate (accesses 1 2 (start {A = ℕ}).queue ok) (produce 7))
    ≡ record (start {A = ℕ}) {
      queue = queue;
      log = if ok then (start {A = ℕ}).log ++ (7 ∷ []) else (start {A = ℕ}).log;
    }
unfolding start
push_moves_example = push_moves 1 2 7 start (omega arith) refl

abbrev primed : Threads ℕ
primed = run_moves 1 2 start (produce 7 ∷ produce 7 ∷ produce 7 ∷ [])
