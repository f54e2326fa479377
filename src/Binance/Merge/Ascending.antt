-- ===== src/Binance/Merge/Ascending.antt =====
-- The merge of streams that ascend ascends: the invariant of `next`.
use mathlib.Core.List.{append-nil}
use quant_platform.Base.{
  ℕ, zero, suc, ◌+◌, ◌≤◌, ◌≡◌, ◌≢◌, ◌∙◌, refl, sym, ap, subst, inl, inr, Bool, true, Option, none,
  some, List, [], ◌∷◌, ◌++◌, if◌then◌else◌, ◌==◌, ltb, put, put_self, put_ne, All, Bool-cases,
  ==_refl, ==_iff, arith,
}
use quant_platform.Base.Int.{◌≤ℤ◌}
use quant_platform.Core.Types.{Timestamp}
use quant_platform.DataSource.{PullResult, pulled, unexpected}
use quant_platform.Binance.Merge.{
  EventStream, Entry, Merge, pop_least, load, place_index, refill_all, answer, pop_front, settle,
  next_merged, indices_from, start_merge,
}
use quant_platform.Binance.Merge.Order.{
  occurs, occurs-append, indices, pop_least-All, pop_least-occurs, pop_least-IsFirst, NotBefore,
}

-- A stream's events ascend: all that `s` still has is at or after `t` where `Bound s t`.
pub record IsAscending {ℓ} {S A : Type ℓ} (es : EventStream S A) (Bound : S → Timestamp → Type 0)
    : Type ℓ where
  pub event_after :
      (s : S) (t : Timestamp) (ev : A)
      → Bound s t
      → (es.next_event s).0 ≡ some ev
      → (t ≤ℤ es.stamp ev) × Bound (es.next_event s).1 (es.stamp ev)
  pub none_after :
      (s : S) (t : Timestamp) → Bound s t → (es.next_event s).0 ≡ none → Bound (es.next_event s).1 t

module _ {ℓ} {S A : Type ℓ} (es : EventStream S A) (is_bar : ℕ → Bool) where
  -- The events of `n` pulls, in order.
  unfoldable pub pull_merged : ℕ → Merge S A → List A
  pull_merged zero m = []
  pull_merged (suc n) m =
      let (res, m') = next_merged es is_bar m in
      let rest = pull_merged n m' in elim res [ pulled ev ↦ ev ∷ rest | unexpected status ↦ rest ]

-- Events at or after `t`, each at or after the one before.
abbrev pub Ascends {ℓ} : {S A : Type ℓ} → EventStream S A → Timestamp → List A → Type 0
Ascends es t [] = Unit
Ascends es t (ev ∷ evs) = (t ≤ℤ es.stamp ev) × Ascends es (es.stamp ev) evs

module _ {ℓ} {S A : Type ℓ} (es : EventStream S A) (Bound : S → Timestamp → Type 0) where
  -- An entry of the heap: its slot is loaded with an event of its stamp.
  pub record Held (t : Timestamp) (streams : ℕ → S) (slots : ℕ → Option A) (e : Entry)
      : Type ℓ where
    pub due : t ≤ℤ e.ts
    pub event : A
    pub loaded : slots e.index ≡ some event
    pub stamped : es.stamp event ≡ e.ts
    pub rest_after : Bound (streams e.index) e.ts

  -- Every index is pending or in the heap at most once, and nothing that is still to come is before
  -- `t`.
  pub record Inv (t : Timestamp) (m : Merge S A) (todo : List ℕ) : Type ℓ where
    pub unique : (i : ℕ) → occurs i (indices m.heap) + occurs i todo ≤ 1
    pub waits : (i : ℕ) → 1 ≤ occurs i todo → Bound (m.streams i) t × (m.slots i ≡ none)
    pub holds : All (Held t m.streams m.slots) m.heap

  -- What other streams do leaves the heap's entries.
  Held-put :
      (t : Timestamp) (streams streams' : ℕ → S) (slots slots' : ℕ → Option A) (x : ℕ)
      (heap : List Entry)
      → occurs x (indices heap) ≡ 0
      → ((j : ℕ) → x ≢ j → streams' j ≡ streams j)
      → ((j : ℕ) → x ≢ j → slots' j ≡ slots j)
      → All (Held t streams slots) heap
      → All (Held t streams' slots') heap
  Held-put t streams streams' slots slots' x [] none_at f g h = tt
  Held-put t streams streams' slots slots' x (e ∷ heap) none_at f g (h, hs) =
      let ne : x ≢ e.index = λ same.
        let yes : (e.index == x) ≡ true = (==_iff e.index x).1 (sym same) in
        let one = ap (λ b. (if b then 1 else 0) + occurs x (indices heap)) yes in omega arith in
      let zero_there : occurs x (indices heap) ≡ 0 = omega arith in
      (
        record {
          due = h.due;
          event = h.event;
          loaded = g e.index ne ∙ h.loaded;
          stamped = h.stamped;
          rest_after = subst (λ s. Bound s e.ts) (sym (f e.index ne)) h.rest_after;
        },
        Held-put t streams streams' slots slots' x heap zero_there f g hs,
      )

  -- Entries that are due at `t` are held at `u` where none is before `u`.
  Held-later :
      (t u : Timestamp) (streams : ℕ → S) (slots : ℕ → Option A) (heap : List Entry)
      → All (NotBefore u) heap
      → All (Held t streams slots) heap
      → All (Held u streams slots) heap
  Held-later t u streams slots [] n h = tt
  Held-later t u streams slots (e ∷ heap) (n, ns) (h, hs) = (
    record {
      due = n;
      event = h.event;
      loaded = h.loaded;
      stamped = h.stamped;
      rest_after = h.rest_after;
    },
    Held-later t u streams slots heap ns hs,
  )

  occurs_head : (i : ℕ) (js : List ℕ) → 1 ≤ occurs i (i ∷ js)
  occurs_head i js = rw (==_refl i) (omega arith)

  module _ (asc : IsAscending es Bound) (is_bar : ℕ → Bool) where
    module _ (t : Timestamp) (streams : ℕ → S) (slots : ℕ → Option A) (heap : List Entry)
        (pending : List ℕ) (index : ℕ) (todo : List ℕ) where
      -- The state before an index is asked, and after the stream answered.
      abbrev Before : Type ℓ
      Before =
          Inv t (record { streams = streams; slots = slots; pending = pending; heap = heap })
            (index ∷ todo)

      abbrev streams' : ℕ → S
      streams' = put streams index (es.next_event (streams index)).1

      not_in_heap : Before → occurs index (indices heap) ≡ 0
      not_in_heap v = omega (arith, v.unique index, occurs_head index todo)

      index_bound : Before → Bound (streams index) t
      index_bound v = (v.waits index (occurs_head index todo)).0

      -- The other indices wait as before.
      others_wait :
          (found : Option A) (j : ℕ)
          → Before
          → 1 ≤ occurs j todo
          → Bound (streams' j) t × (put slots index found j ≡ none)
      others_wait found j v h =
          let ne : index ≢ j = λ same.
            let yes : (index == j) ≡ true = (==_iff index j).1 same in
            let one = ap (λ b. (if b then 1 else 0) + occurs j todo) yes in
            omega (arith, v.unique j) in
          let (b, e) = v.waits j (omega arith) in
          (
            subst (λ s. Bound s t)
                (sym (put_ne streams index j (es.next_event (streams index)).1 ne)) b,
            put_ne slots index j found ne ∙ e,
          )

      heap_holds : (found : Option A) → Before → All (Held t streams' (put slots index found)) heap
      heap_holds found v =
          Held-put t streams streams' slots (put slots index found) index heap (not_in_heap v)
            (λ j ne. put_ne streams index j (es.next_event (streams index)).1 ne)
            (λ j ne. put_ne slots index j found ne) v.holds

      -- An event goes into the heap.
      loaded_Inv :
          (ev : A)
          → Before
          → (es.next_event (streams index)).0 ≡ some ev
          → Inv t
              (record {
                streams = streams';
                slots = put slots index (some ev);
                pending = pending;
                heap = record { ts = es.stamp ev; bar = is_bar index; index = index } ∷ heap;
              })
              todo
      loaded_Inv ev v e =
          let (le, after) = asc.event_after (streams index) t ev (index_bound v) e in
          record {
            unique = λ i. omega (arith, v.unique i);
            waits = λ j h. others_wait (some ev) j v h;
            holds = (
              record {
                due = le;
                event = ev;
                loaded = put_self slots index (some ev);
                stamped = refl;
                rest_after =
                    subst (λ s. Bound s (es.stamp ev))
                      (sym (put_self streams index (es.next_event (streams index)).1)) after;
              },
              heap_holds (some ev) v,
            );
          }

      -- An index without an event is dropped, or goes to the end.
      dropped_Inv :
          Before
          → Inv t
              (record {
                streams = streams';
                slots = put slots index none;
                pending = pending;
                heap = heap;
              })
              todo
      dropped_Inv v = record {
        unique = λ i. omega (arith, v.unique i);
        waits = λ j h. others_wait none j v h;
        holds = heap_holds none v;
      }

      kept_Inv :
          (todo' : List ℕ)
          → ((i : ℕ) → occurs i todo' ≡ occurs i (index ∷ todo))
          → Before
          → (es.next_event (streams index)).0 ≡ none
          → Inv t
              (record {
                streams = streams';
                slots = put slots index none;
                pending = pending;
                heap = heap;
              })
              todo'
      kept_Inv todo' same v e = record {
        unique = λ i. omega (arith, v.unique i, same i);
        waits = λ j h. elim (Bool-cases (index == j)) [
          | inl t1 ↦
              let here : index ≡ j = (==_iff index j).0 t1 in
              subst (λ n. Bound (streams' n) t × (put slots index none n ≡ none)) here
                (
                  subst (λ s. Bound s t)
                      (sym (put_self streams index (es.next_event (streams index)).1))
                      (asc.none_after (streams index) t (index_bound v) e),
                  put_self slots index none,
                )
          | inr t1 ↦
              let off = ap (λ b. (if b then 1 else 0) + occurs j todo) t1 in
              others_wait none j v (omega (arith, same j))
        ];
        holds = heap_holds none v;
      }

    -- What the loop over `rest` makes of a state.
    abbrev Refilled : Timestamp → Merge S A → List ℕ → List ℕ → Type ℓ
    Refilled t m rest kept = let (m', kept') = refill_all es is_bar m rest kept in Inv t m' kept'

    abbrev asked : Merge S A → ℕ → Option A → Merge S A
    asked m index found = record m {
      streams = put m.streams index (es.next_event (m.streams index)).1;
      slots = put m.slots index found;
    }

    placed_Refilled :
        (t : Timestamp) (m : Merge S A) (index : ℕ) (rest kept : List ℕ) (found : Option A)
        → ((m' : Merge S A) (kept' : List ℕ) → Inv t m' (rest ++ kept') → Refilled t m' rest kept')
        → Inv t m (index ∷ (rest ++ kept))
        → (es.next_event (m.streams index)).0 ≡ found
        → let (m', kept') = place_index es is_bar (asked m index found) index kept found in
          Refilled t m' rest kept'
    unfolding place_index
    placed_Refilled t m index rest kept (some ev) ih v e =
        ih _ kept (loaded_Inv t m.streams m.slots m.heap m.pending index (rest ++ kept) ev v e)
    placed_Refilled t m index rest kept none ih v e =
        elim (Bool-cases (es.is_finished ((asked m index none).streams index))) [
          | inl u ↦
              rw u (
                ih _ kept (dropped_Inv t m.streams m.slots m.heap m.pending index (rest ++ kept) v))
          | inr u ↦
              let same : (i : ℕ)
                  → occurs i (rest ++ (kept ++ (index ∷ []))) ≡ occurs i (index ∷ (rest ++ kept)) =
                λ i. omega (
                  arith,
                  occurs-append i rest (kept ++ (index ∷ [])),
                  occurs-append i kept (index ∷ []),
                  occurs-append i rest kept,
                ) in
              rw u (
                ih _ (kept ++ (index ∷ [])) (
                  kept_Inv t m.streams m.slots m.heap m.pending index (rest ++ kept)
                    (rest ++ (kept ++ (index ∷ []))) same v e))
        ]

    refill_all-Inv :
        (t : Timestamp) (rest kept : List ℕ) (m : Merge S A)
        → Inv t m (rest ++ kept)
        → Refilled t m rest kept
    unfolding refill_all
    refill_all-Inv t [] kept m v = v
    refill_all-Inv t (index ∷ rest) kept m v =
        let (_, unloaded) = v.waits index (occurs_head index (rest ++ kept)) in
        let found = (es.next_event (m.streams index)).0 in
        let Goal : Merge S A → Option A → Type ℓ = λ m' o.
          let (m'', kept') = place_index es is_bar m' index kept o in Refilled t m'' rest kept' in
        let ih = λ (m' : Merge S A) (kept' : List ℕ). refill_all-Inv t rest kept' m' in
        let done : Goal (asked m index found) found =
          placed_Refilled t m index rest kept found ih v refl in
        subst (λ o. Goal (load es is_bar m index o) ((load es is_bar m index o).slots index))
          (sym unloaded)
          (subst (Goal (asked m index found)) (sym (put_self m.slots index found)) done)

  -- What an answer says of the time: events go on from `t`, and nothing else moves it.
  pub Outcome : Timestamp → PullResult A → Merge S A → Type ℓ
  Outcome t (pulled ev) m = (t ≤ℤ es.stamp ev) × Inv (es.stamp ev) m m.pending
  Outcome t (unexpected status) m = Unit {0} × Inv t m m.pending

  Inv-pending :
      (t : Timestamp) (m : Merge S A) (pending todo : List ℕ)
      → Inv t m todo
      → Inv t (record m { pending = pending }) todo
  Inv-pending t m pending todo v = record { unique = v.unique; waits = v.waits; holds = v.holds }

  -- The state once the least entry has left the heap.
  popped_Inv :
      (t : Timestamp) (streams : ℕ → S) (slots : ℕ → Option A) (pending : List ℕ) (e : Entry)
      (heap : List Entry)
      → Inv t (record { streams = streams; slots = slots; pending = pending; heap = e ∷ heap }) []
      → let (least, rest) = pop_least e heap in
        Held t streams slots least
        × Inv least.ts
            (record {
              streams = streams;
              slots = put slots least.index none;
              pending = pending;
              heap = rest;
            })
            (least.index ∷ [])
  popped_Inv t streams slots pending e heap v =
      let (held, others) = pop_least-All (Held t streams slots) e heap v.holds.0 v.holds.1 in
      let (least, rest) = pop_least e heap in
      let (first, all_first) = pop_least-IsFirst e heap in
      let (_, later) = pop_least-All (NotBefore least.ts) e heap first all_first in
      let once : (i : ℕ) → occurs i (least.index ∷ indices rest) ≤ 1 =
        λ i. omega (arith, v.unique i, pop_least-occurs i e heap) in
      let gone : occurs least.index (indices rest) ≡ 0 = omega (
        arith,
        once least.index,
        ap (λ b. (if b then 1 else 0) + occurs least.index (indices rest)) (==_refl least.index),
      ) in
      (
        held,
        record {
          unique = λ i. omega (arith, once i);
          waits = λ i h. elim (Bool-cases (least.index == i)) [
            | inl u ↦
                let here : least.index ≡ i = (==_iff least.index i).0 u in
                subst (λ n. Bound (streams n) least.ts × (put slots least.index none n ≡ none)) here
                  (held.rest_after, put_self slots least.index none)
            | inr u ↦ absurd (omega (arith, ap {B = ℕ} (λ b. if b then 1 else 0) u))
          ];
          holds = Held-later t least.ts streams (put slots least.index none) rest later (
              Held-put t streams streams slots (put slots least.index none) least.index rest gone
                (λ j ne. refl) (λ j ne. put_ne slots least.index j none ne) others);
        },
      )

  pop_front_lem :
      (t : Timestamp) (streams : ℕ → S) (slots : ℕ → Option A) (heap : List Entry)
      → Inv t (record { streams = streams; slots = slots; pending = []; heap = heap }) []
      → let (res, m') =
          pop_front (record { streams = streams; slots = slots; pending = []; heap = heap }) heap in
        Outcome t res m'
  unfolding Outcome pop_front answer
  pop_front_lem t streams slots [] v = (tt, v)
  pop_front_lem t streams slots (e ∷ heap) v =
      let (held, after) = popped_Inv t streams slots [] e heap v in
      let (least, rest) = pop_least e heap in
      let m' : Merge S A = record {
        streams = streams;
        slots = put slots least.index none;
        pending = least.index ∷ [];
        heap = rest;
      } in
      let ready : Outcome t (pulled held.event) m' = (
        subst (λ u. t ≤ℤ u) (sym held.stamped) held.due,
        subst (λ u. Inv u m' (least.index ∷ [])) (sym held.stamped)
            (Inv-pending least.ts _ (least.index ∷ []) (least.index ∷ []) after),
      ) in
      subst (λ o. Outcome t (answer o) m') (sym held.loaded) ready

  settle_lem :
      (t : Timestamp) (m : Merge S A) (kept : List ℕ)
      → Inv t m kept
      → let (res, m') = settle m kept in Outcome t res m'
  unfolding settle Outcome
  settle_lem t m [] v = pop_front_lem t m.streams m.slots m.heap (Inv-pending t m [] [] v)
  settle_lem t m (index ∷ kept) v = (tt, Inv-pending t m (index ∷ kept) (index ∷ kept) v)

  module _ (asc : IsAscending es Bound) (is_bar : ℕ → Bool) where
    pub next_merged-Outcome :
        (t : Timestamp) (m : Merge S A)
        → Inv t m m.pending
        → let (res, m') = next_merged es is_bar m in Outcome t res m'
    unfolding next_merged
    next_merged-Outcome t m v =
        let whole : m.pending ++ [] ≡ m.pending = append-nil m.pending in
        let refilled = refill_all-Inv asc is_bar t m.pending [] m (subst (Inv t m) (sym whole) v) in
        let (m', kept) = refill_all es is_bar m m.pending [] in settle_lem t m' kept refilled

    pulls_ascend :
        (n : ℕ) (t : Timestamp) (m : Merge S A)
        → Inv t m m.pending
        → Ascends es t (pull_merged es is_bar n m)
    unfolding pull_merged Outcome
    pulls_ascend zero t m v = tt
    pulls_ascend (suc n) t m v =
        let (res, m') = next_merged es is_bar m in
        step res m' (λ u w. pulls_ascend n u m' w) (next_merged-Outcome t m v)
      where
        step :
            (res : PullResult A) (m' : Merge S A)
            → ((u : Timestamp) → Inv u m' m'.pending → Ascends es u (pull_merged es is_bar n m'))
            → Outcome t res m'
            → Ascends es t (elim res [
              | pulled ev ↦ ev ∷ pull_merged es is_bar n m'
              | unexpected status ↦ pull_merged es is_bar n m'
            ])
        step (pulled ev) m' ih (le, v') = (le, ih (es.stamp ev) v')
        step (unexpected status) m' ih (_, v') = ih t v'

    occurs_from :
        (i first count : ℕ) → occurs i (indices_from first count) ≤ (if ltb i first then 0 else 1)
    unfolding indices_from
    occurs_from i first zero = omega arith
    occurs_from i first (suc count) = ground (arith, occurs_from i (first + 1) count)

    -- If each stream's events ascend, and none has an event before `t`, then all that the merge ever
    -- answers ascends from `t` on, however often streams have nothing yet.
    pub merge-Ascends :
        (n count : ℕ) (t : Timestamp) (streams : ℕ → S)
        → ((i : ℕ) → Bound (streams i) t)
        → Ascends es t (pull_merged es is_bar n (start_merge streams count))
    unfolding start_merge
    merge-Ascends n count t streams all = pulls_ascend n t (start_merge streams count) (record {
      unique = λ i. ground (arith, occurs_from i 0 count);
      waits = λ i h. (all i, refl);
      holds = tt;
    })
