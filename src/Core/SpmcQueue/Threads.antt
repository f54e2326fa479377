-- ===== src/Core/SpmcQueue/Threads.antt =====
-- The producer's thread and the consumers' threads of include/core/spmc_queue.hpp, one access to shared
-- memory at a time, in any order.
pub mod Sound
pub mod Received
pub mod Delivery
pub mod Push
pub mod Pop
mod Examples
use quant_platform.Base.{
  ℕ, ◌+◌, ◌-◌, ◌^◌, Bool, true, false, Option, none, some, List, [], ◌∷◌, ◌++◌, if◌then◌else◌, ◌==◌,
  ltb, put,
}
use quant_platform.Core.SpmcQueue.{SpmcQueue, fresh, construct, publish, read_slot, advance}

-- Where `push` is: in the loop of `min_cursor` after `i` cursors, before the construction, or before
-- the store of `published_`.
pub data Producer {ℓ} (A : Type ℓ) : Type ℓ where
  idle : Producer A
  scanning : A → (next i min : ℕ) → Producer A
  claimed : A → (next : ℕ) → Producer A
  written : A → (next : ℕ) → Producer A

-- Where `try_pop` is: before the read of the slot, or before the store of the cursor.
pub data Consumer {ℓ} (A : Type ℓ) : Type ℓ where
  resting : Consumer A
  reading : (cur : ℕ) → Consumer A
  holding : (cur : ℕ) → Option A → Consumer A

-- The queue with its threads; `log` is what the accepted pushes published and `seen` what each
-- consumer has popped.
pub record Threads {ℓ} (A : Type ℓ) : Type ℓ where
  pub queue : SpmcQueue A
  pub producer : Producer A
  pub consumers : ℕ → Consumer A
  pub log : List A
  pub seen : ℕ → List A

-- Which thread moves. The value is that of the next push, where one begins.
pub data Move {ℓ} (A : Type ℓ) : Type ℓ where
  produce : A → Move A
  consume : ℕ → Move A

module _ {ℓ} {A : Type ℓ} where
  pub start : Threads A
  unfolding fresh
  start = record {
    queue = fresh;
    producer = idle;
    consumers = λ c. resting;
    log = [];
    seen = λ c. [];
  }

  -- The producer's next access.
  pub produce_step : (k n : ℕ) → Threads A → A → Threads A
  unfolding construct publish
  produce_step k n t v = elim t.producer [
    | idle ↦
        let next = t.queue.published in
        record t {
          producer =
              if ltb next (2 ^ k) then claimed v next else scanning v next 1 (t.queue.cursors 0);
        }
    | scanning v next i min ↦ record t {
      producer =
          if ltb i n
          then scanning v next (i + 1)
              (if ltb (t.queue.cursors i) min then t.queue.cursors i else min)
          else if ltb (next - 2 ^ k) min
          then claimed v next
          else idle;
    }
    | claimed v next ↦ record t { queue = construct k t.queue next v; producer = written v next }
    | written v next ↦ record t {
      queue = publish t.queue next;
      producer = idle;
      log = t.log ++ (v ∷ []);
    }
  ]

  -- What a consumer has after a pop.
  abbrev pub received : List A → Option A → List A
  received xs none = xs
  received xs (some v) = xs ++ (v ∷ [])

  -- The next access of consumer `c`.
  pub consume_step : ℕ → Threads A → ℕ → Threads A
  unfolding read_slot advance
  consume_step k t c = elim (t.consumers c) [
    | resting ↦
        let cur = t.queue.cursors c in
        record t {
          consumers = put t.consumers c (if cur == t.queue.published then resting else reading cur);
        }
    | reading cur ↦ record t {
      consumers = put t.consumers c (holding cur (read_slot k t.queue cur));
    }
    | holding cur out ↦ record t {
      queue = advance t.queue c cur;
      consumers = put t.consumers c resting;
      seen = put t.seen c (received (t.seen c) out);
    }
  ]

  pub move : (k n : ℕ) → Threads A → Move A → Threads A
  unfolding produce_step consume_step
  move k n t (produce v) = produce_step k n t v
  move k n t (consume c) = consume_step k t c

  pub run_moves : (k n : ℕ) → Threads A → List (Move A) → Threads A
  unfolding move
  run_moves k n t [] = t
  run_moves k n t (m ∷ ms) = run_moves k n (move k n t m) ms
