-- ===== src/Binance/Merge.antt =====
-- include/data_source/source/exchange/binance/binance_historical/binance_historical_source.hpp: `next`,
-- the merge of the streams. A stream is what `refill` and `finished` reach through the flat index. The
-- heap is the list of its entries; `std::push_heap` and `std::pop_heap` stand by what they do to it.
-- A slot is its event while it is loaded.
pub mod Order
pub mod Ascending
pub mod Ends
pub mod Build
mod Examples
use quant_platform.Base.{
  ℕ, zero, suc, ◌+◌, Bool, true, false, ◌&&◌, ◌||◌, Option, none, some, List, [], ◌∷◌, ◌++◌,
  if◌then◌else◌, ◌==◌, ltb, put,
}
use quant_platform.Base.Int.{ℤ, ltb_ℤ, eqb_ℤ}
use quant_platform.Core.Types.{Timestamp}
use quant_platform.DataSource.{SourceStatus, no_data, eof, PullResult, pulled, unexpected}

-- `next` and `finished` of a stream, and the stamp of its events.
pub record EventStream {ℓ} (S A : Type ℓ) : Type ℓ where
  pub next_event : S → Option A × S
  pub is_finished : S → Bool
  pub stamp : A → Timestamp

-- `std::tuple<Timestamp, bool, std::uint32_t>`.
pub record Entry : Type 0 where
  pub ts : Timestamp
  pub bar : Bool
  pub index : ℕ

abbrev less_bool : Bool → Bool → Bool
less_bool false b = b
less_bool true b = false

abbrev same_bool : Bool → Bool → Bool
same_bool true b = b
same_bool false b = if b then false else true

-- `a > b` on tuples.
pub later_first : Entry → Entry → Bool
later_first a b =
    ltb_ℤ b.ts a.ts
    || (eqb_ℤ a.ts b.ts
        && (less_bool b.bar a.bar || (same_bool a.bar b.bar && ltb b.index a.index)))

-- `pop_heap` and `pop_back`: the least entry, and the others.
pub pop_least : Entry → List Entry → Entry × List Entry
unfolding later_first
pop_least e [] = (e, [])
pop_least e (f ∷ heap) =
    let (least, rest) = pop_least f heap in
    if later_first e least then (least, e ∷ rest) else (e, f ∷ heap)

-- The streams and their slots by flat index, `pending_` and `heap_`.
pub record Merge {ℓ} (S A : Type ℓ) : Type ℓ where
  pub streams : ℕ → S
  pub slots : ℕ → Option A
  pub pending : List ℕ
  pub heap : List Entry

-- The event of a slot that the heap names; no slot of the heap is empty.
answer {ℓ} : {A : Type ℓ} → Option A → PullResult A
answer none = unexpected no_data
answer (some event) = pulled event

module _ {ℓ} {S A : Type ℓ} where
  pop_front : Merge S A → List Entry → PullResult A × Merge S A
  unfolding pop_least answer
  pop_front m [] = (unexpected eof, m)
  pop_front m (e ∷ heap) =
      let (least, rest) = pop_least e heap in
      (
        answer (m.slots least.index),
        record m {
          pending = m.pending ++ (least.index ∷ []);
          slots = put m.slots least.index none;
          heap = rest;
        },
      )

  -- An answer without an event where a stream that is not finished has none.
  settle : Merge S A → List ℕ → PullResult A × Merge S A
  unfolding pop_front
  settle m [] = pop_front (record m { pending = [] }) m.heap
  settle m (index ∷ kept) = (unexpected no_data, record m { pending = index ∷ kept })

module _ {ℓ} {S A : Type ℓ} (es : EventStream S A) (is_bar : ℕ → Bool) where
  -- `load`: nothing is read into a slot that is loaded.
  pub load : Merge S A → ℕ → Option A → Merge S A
  load m index (some event) = m
  load m index none =
      let (found, s) = es.next_event (m.streams index) in
      record m { streams = put m.streams index s; slots = put m.slots index found }

  -- What the loop over `pending_` does with an index after `refill`: `kept` is what stays pending.
  pub place_index : Merge S A → ℕ → (kept : List ℕ) → Option A → Merge S A × List ℕ
  place_index m index kept (some event) = (
    record m { heap = record { ts = es.stamp event; bar = is_bar index; index = index } ∷ m.heap },
    kept,
  )
  place_index m index kept none =
      (m, if es.is_finished (m.streams index) then kept else kept ++ (index ∷ []))

  -- The loop over `pending_`.
  pub refill_all : Merge S A → List ℕ → (kept : List ℕ) → Merge S A × List ℕ
  unfolding load place_index
  refill_all m [] kept = (m, kept)
  refill_all m (index ∷ rest) kept =
      let m' = load m index (m.slots index) in
      let (m'', kept') = place_index m' index kept (m'.slots index) in refill_all m'' rest kept'

  unfoldable pub next_merged : Merge S A → PullResult A × Merge S A
  unfolding refill_all settle
  next_merged m = let (m', kept) = refill_all m m.pending [] in settle m' kept

-- The flat indices from `first` on.
pub indices_from : (first count : ℕ) → List ℕ
indices_from first zero = []
indices_from first (suc count) = first ∷ indices_from (first + 1) count

-- What `index_streams` leaves: every stream is pending, and nothing is loaded.
unfoldable pub start_merge {ℓ} : {S A : Type ℓ} → (ℕ → S) → (count : ℕ) → Merge S A
unfolding indices_from
start_merge streams count = record {
  streams = streams;
  slots = λ i. none;
  pending = indices_from 0 count;
  heap = [];
}
