-- ===== src/Core/SpmcQueue/Threads/Delivery.antt =====
-- What the consumers get.
use native.Mathlib.Nat.{le_refl}
use quant_platform.Base.{
  ℕ, ◌+◌, ◌^◌, ◌<◌, ◌≤◌, ◌≡◌, ◌≢◌, ◌∙◌, refl, sym, ap, subst, List, [], ◌∷◌, lap_apart, length,
  length-append, take, length-take, arith,
}
use quant_platform.Base.Bits.{bit_and-mask, pow_pos}
use quant_platform.Core.SpmcQueue.{masked, fresh}
use quant_platform.Core.SpmcQueue.Threads.{
  Producer, idle, scanning, claimed, written, Consumer, resting, reading, holding, Threads, Move,
  produce, consume, produce_step, consume_step, move, run_moves, start,
}
use quant_platform.Core.SpmcQueue.Threads.Sound.{OnTrack, InTurn, Sound, produce-Sound}
use quant_platform.Core.SpmcQueue.Threads.Received.{consume-Sound}

module _ {ℓ} {A : Type ℓ} (k n : ℕ) where
  start-Sound : Sound k n (start {A = A})
  unfolding start fresh
  start-Sound = record {
    published = refl;
    in_turn = tt;
    keeps = λ c cn. record {
      seen = refl;
      behind = le_refl 0;
      room = omega arith;
      kept = λ i lo hi. absurd (omega arith);
      phase_ok = tt;
    };
  }

  log_grows_produce :
      (t : Threads A) (v : A) (p : Producer A)
      → length (produce_step k n (record t { producer = p }) v).log ≤ length t.log + 1
  unfolding produce_step
  log_grows_produce t v idle = omega arith
  log_grows_produce t v (scanning w next i min) = omega arith
  log_grows_produce t v (claimed w next) = omega arith
  log_grows_produce t v (written w next) = omega (arith, length-append t.log (w ∷ []))

  log_same_consume :
      (t : Threads A) (c : ℕ) (phase : Consumer A)
      → t.consumers c ≡ phase
      → (consume_step k t c).log ≡ t.log
  unfolding consume_step
  log_same_consume t c resting e = rw (e, consume_step) refl
  log_same_consume t c (reading cur) e = rw (e, consume_step) refl
  log_same_consume t c (holding cur out) e = rw (e, consume_step) refl

  log_grows : (t : Threads A) (m : Move A) → length (move k n t m).log ≤ length t.log + 1
  unfolding move
  log_grows t (produce v) = log_grows_produce t v t.producer
  log_grows t (consume c) = omega (arith, ap length (log_same_consume t c (t.consumers c) refl))

  run-Sound :
      (ms : List (Move A)) (t : Threads A)
      → length t.log + length ms < 2 ^ 64
      → Sound k n t
      → Sound k n (run_moves k n t ms)
  unfolding run_moves move
  run-Sound [] t small h = h
  run-Sound (m ∷ ms) t small h =
      run-Sound ms (move k n t m) (omega (arith, log_grows t m)) (move_sound m)
    where
      move_sound : (m : Move A) → Sound k n (move k n t m)
      move_sound (produce v) =
          produce-Sound k n t.queue t.consumers t.log t.seen v t.producer (omega arith) h
      move_sound (consume c) =
          consume-Sound k n t.queue t.consumers t.log t.seen t.producer c (t.consumers c) refl
            (omega arith) h

  begin :
      (ms : List (Move A)) → length ms < 2 ^ 64 → length (start {A = A}).log + length ms < 2 ^ 64
  unfolding start
  begin ms small = omega arith

  -- However the threads interleave, each consumer has got the published values from the first on, in
  -- order, each once and none lost or torn, and is at most the capacity behind. Fewer than 2^64
  -- accesses keep the counters from wrapping.
  pub run_moves_deliver :
      (ms : List (Move A)) (c : ℕ)
      → length ms < 2 ^ 64
      → c < n
      → let t = run_moves k n start ms in
        (t.seen c ≡ take (length (t.seen c)) t.log)
        × (length (t.seen c) ≡ t.queue.cursors c)
        × (length (t.seen c) ≤ length t.log)
        × (length t.log ≤ length (t.seen c) + 2 ^ k)
  run_moves_deliver ms c small cn =
      let t = run_moves k n (start {A = A}) ms in
      let h = (run-Sound ms (start {A = A}) (begin ms small) start-Sound).keeps c cn in
      let count : length (t.seen c) ≡ t.queue.cursors c =
        ap length h.seen ∙ length-take (t.queue.cursors c) t.log h.behind in
      (
        h.seen ∙ ap (λ i. take i t.log) (sym count),
        count,
        omega (arith, h.behind),
        omega (arith, h.room),
      )

  -- However the threads interleave, when the producer is about to construct a value, no consumer is
  -- about to read the same slot.
  pub run_moves_apart :
      (ms : List (Move A)) (c : ℕ) (v : A) (next cur : ℕ)
      → length ms < 2 ^ 64
      → c < n
      → (run_moves k n (start {A = A}) ms).producer ≡ claimed v next
      → (run_moves k n (start {A = A}) ms).consumers c ≡ reading cur
      → masked k next ≢ masked k cur
  run_moves_apart ms c v next cur small cn p r e =
      let t = run_moves k n (start {A = A}) ms in
      let h = run-Sound ms (start {A = A}) (begin ms small) start-Sound in
      let (at, free, u) = subst (InTurn k n t.queue.storage t.log t.queue.cursors) p h.in_turn in
      let (here, below, w) =
        subst (OnTrack k n t.log (t.queue.cursors c)) r (h.keeps c cn).phase_ok in
      lap_apart (2 ^ k) cur next (pow_pos k) (omega arith) (omega (arith, free c cn))
        (sym (bit_and-mask k cur) ∙ sym e ∙ bit_and-mask k next)
