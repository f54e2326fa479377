-- ===== src/Core/SpscQueue.antt =====
-- include/core/spsc_queue.hpp, one whole operation at a time. `2 ^ k` is the capacity; one slot stays
-- free. What is destroyed is left in its slot, where nothing reads it before it is written again.
pub mod Fifo
pub mod Calls
mod Examples
use Prim.Native.Nat.{bit_and}
use quant_platform.Base.{
  ℕ, ◌+◌, ◌-◌, ◌^◌, Bool, true, false, Option, none, some, if◌then◌else◌, ◌==◌, put, to_size,
}

pub record SpscQueue {ℓ} (A : Type ℓ) : Type ℓ where
  pub storage : ℕ → Option A
  pub head : ℕ
  pub tail : ℕ

-- `(index + 1) & INDEX_MASK`.
abbrev pub step_index : ℕ → ℕ → ℕ
step_index k index = bit_and (to_size (index + 1)) (2 ^ k - 1)

module _ {ℓ} {A : Type ℓ} where
  pub fresh : SpscQueue A
  fresh = record { storage = λ i. none; head = 0; tail = 0 }

  pub push : ℕ → SpscQueue A → A → Bool × SpscQueue A
  push k q v =
      let next_head = step_index k q.head in
      if next_head == q.tail
      then (false, q)
      else (true, record q { storage = put q.storage q.head (some v); head = next_head })

  pub pop : ℕ → SpscQueue A → Option A × SpscQueue A
  pop k q =
      if q.tail == q.head
      then (none, q)
      else (q.storage q.tail, record q { tail = step_index k q.tail })

  -- The difference of two `std::size_t` wraps.
  pub size : ℕ → SpscQueue A → ℕ
  size k q = bit_and (to_size (2 ^ 64 + q.head - q.tail)) (2 ^ k - 1)
