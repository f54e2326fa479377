-- ===== src/Core/SlotRing.antt =====
-- include/core/slot_ring.hpp, one whole operation at a time. `2 ^ k` is the capacity. What `take`
-- destroys is left in its slot, where nothing reads it before it is written again.
pub mod Window
pub mod Calls
mod Examples
use Prim.Native.Nat.{bit_and}
use quant_platform.Base.{
  ℕ, zero, suc, ◌+◌, ◌-◌, ◌^◌, Bool, true, false, Option, none, some, List, [], ◌∷◌, if◌then◌else◌,
  ◌==◌, put, to_size,
}

-- `cells_`: the sequence number of each cell, and what it stores.
pub record SlotRing {ℓ} (A : Type ℓ) : Type ℓ where
  pub seq : ℕ → ℕ
  pub storage : ℕ → Option A

-- `position & INDEX_MASK`.
abbrev pub cell_of : ℕ → ℕ → ℕ
cell_of k position = bit_and position (2 ^ k - 1)

module _ {ℓ} {A : Type ℓ} where
  -- Slot i awaits the producer at position i.
  unfoldable pub fresh : SlotRing A
  fresh = record { seq = λ i. i; storage = λ i. none }

  unfoldable pub place : ℕ → SlotRing A → ℕ → A → Bool × SlotRing A
  place k r position v =
      let i = cell_of k position in
      if r.seq i == position
      then (
        true,
        record { seq = put r.seq i (to_size (position + 1)); storage = put r.storage i (some v) },
      )
      else (false, r)

  pub ready : ℕ → SlotRing A → ℕ → Bool
  ready k r position = r.seq (cell_of k position) == to_size (position + 1)

  unfoldable pub take : ℕ → SlotRing A → ℕ → Option A × SlotRing A
  take k r position =
      let i = cell_of k position in
      if r.seq i == to_size (position + 1)
      then (r.storage i, record r { seq = put r.seq i (to_size (position + 2 ^ k)) })
      else (none, r)

  -- The difference of two `std::size_t` wraps.
  pub filled : ℕ → SlotRing A → ℕ → Bool
  filled k r index = bit_and (to_size (2 ^ 64 + r.seq index - index)) (2 ^ k - 1) == 1

  -- The cells whose value the destructor destroys, among the last `count` indices below `2 ^ k`.
  destroyed_from : ℕ → SlotRing A → (count index : ℕ) → List ℕ
  unfolding filled
  destroyed_from k r zero index = []
  destroyed_from k r (suc count) index =
      let rest = destroyed_from k r count (index + 1) in
      if filled k r index then index ∷ rest else rest

  pub destroyed : ℕ → SlotRing A → List ℕ
  unfolding destroyed_from
  destroyed k r = destroyed_from k r (2 ^ k) 0
