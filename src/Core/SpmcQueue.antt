-- ===== src/Core/SpmcQueue.antt =====
-- include/core/spmc_queue.hpp. `2 ^ k` is the capacity and `n` the number of consumers. A slot that was
-- never written holds nothing, and a slot keeps its last value: `push` destroys one only to construct
-- the next in its place. Memory is sequentially consistent.
pub mod Threads
use Prim.Native.Nat.{bit_and}
use quant_platform.Base.{
  ℕ, zero, suc, ◌+◌, ◌-◌, ◌^◌, Bool, true, false, Option, none, some, if◌then◌else◌, ◌==◌, ltb, put,
  to_size,
}

pub record SpmcQueue {ℓ} (A : Type ℓ) : Type ℓ where
  pub storage : ℕ → Option A
  pub published : ℕ
  pub cursors : ℕ → ℕ

-- `index & INDEX_MASK`.
abbrev pub masked : ℕ → ℕ → ℕ
masked k position = bit_and position (2 ^ k - 1)

-- The loop of `min_cursor` from index `i` on, with `left` cursors to go.
abbrev pub min_cursor_from : (ℕ → ℕ) → (left i : ℕ) → ℕ → ℕ
min_cursor_from cursors zero i min = min
min_cursor_from cursors (suc left) i min =
    min_cursor_from cursors left (i + 1) (if ltb (cursors i) min then cursors i else min)

unfoldable pub min_cursor : ℕ → (ℕ → ℕ) → ℕ
min_cursor n cursors = min_cursor_from cursors (n - 1) 1 (cursors 0)

module _ {ℓ} {A : Type ℓ} where
  unfoldable pub fresh : SpmcQueue A
  fresh = record { storage = λ i. none; published = 0; cursors = λ i. 0 }

  unfoldable pub slot_free : (k n : ℕ) → SpmcQueue A → ℕ → Bool
  unfolding min_cursor
  slot_free k n q next =
      if ltb next (2 ^ k) then true else ltb (next - 2 ^ k) (min_cursor n q.cursors)

  -- The construction of the value in its slot.
  unfoldable pub construct : ℕ → SpmcQueue A → ℕ → A → SpmcQueue A
  construct k q next v = record q { storage = put q.storage (masked k next) (some v) }

  unfoldable pub publish : SpmcQueue A → ℕ → SpmcQueue A
  publish q next = record q { published = to_size (next + 1) }

  unfoldable pub push : (k n : ℕ) → SpmcQueue A → A → Bool × SpmcQueue A
  unfolding slot_free construct publish
  push k n q v =
      let next = q.published in
      if slot_free k n q next then (true, publish (construct k q next v) next) else (false, q)

  unfoldable pub read_slot : ℕ → SpmcQueue A → ℕ → Option A
  read_slot k q cur = q.storage (masked k cur)

  unfoldable pub advance : SpmcQueue A → ℕ → ℕ → SpmcQueue A
  advance q consumer cur = record q { cursors = put q.cursors consumer (to_size (cur + 1)) }

  unfoldable pub try_pop : ℕ → SpmcQueue A → ℕ → Option A × SpmcQueue A
  unfolding read_slot advance
  try_pop k q consumer =
      let cur = q.cursors consumer in
      if cur == q.published then (none, q) else (read_slot k q cur, advance q consumer cur)
