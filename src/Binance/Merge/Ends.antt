-- ===== src/Binance/Merge/Ends.antt =====
-- The merge ends only once every stream has ended.
use mathlib.Core.List.{append-nil}
use quant_platform.Base.{
  ℕ, zero, suc, ◌+◌, ◌≤◌, ◌<◌, ◌≡◌, ◌≢◌, ◌⊎◌, ◌∙◌, refl, sym, ap, subst, inl, inr, Bool, true,
  Option, none, some, List, [], ◌∷◌, ◌++◌, if◌then◌else◌, ◌==◌, put, put_ne, Bool-cases, ==_iff,
  arith,
}
use quant_platform.DataSource.{no_data, eof, PullResult, unexpected}
use quant_platform.Binance.Merge.{
  EventStream, Entry, Merge, pop_least, load, place_index, refill_all, answer, pop_front, settle,
  next_merged, indices_from, start_merge,
}
use quant_platform.Binance.Merge.Order.{occurs, occurs-append, indices, pop_least-occurs}

module _ {ℓ} {S A : Type ℓ} (es : EventStream S A) (is_bar : ℕ → Bool) (count : ℕ) where
  -- The stream has ended, and its slot is empty.
  abbrev pub HasEnded : Merge S A → ℕ → Type ℓ
  HasEnded m i = (es.is_finished (m.streams i) ≡ true) × (m.slots i ≡ none)

  -- Every stream is pending or in the heap, or has ended.
  pub Accounted : Merge S A → List ℕ → Type ℓ
  Accounted m todo =
      (i : ℕ) → i < count → (1 ≤ occurs i (indices m.heap) + occurs i todo) ⊎ HasEnded m i

  load-Accounted :
      (m : Merge S A) (index : ℕ) (todo : List ℕ) (o : Option A)
      → Accounted m (index ∷ todo)
      → Accounted (load es is_bar m index o) (index ∷ todo)
  unfolding Accounted load
  load-Accounted m index todo (some ev) a i lt = a i lt
  load-Accounted m index todo none a i lt = elim (Bool-cases (index == i)) [
    | inl t ↦ inl (omega (arith, ap {B = ℕ} (λ b. if b then 1 else 0) t))
    | inr t ↦
        let ne : index ≢ i = λ e. ground arith in
        elim (a i lt) [
          | inl there ↦ inl there
          | inr (ended, empty) ↦ inr (
            ap es.is_finished (put_ne m.streams index i (es.next_event (m.streams index)).1 ne)
                ∙ ended,
            put_ne m.slots index i (es.next_event (m.streams index)).0 ne ∙ empty,
          )
        ]
  ]

  place_Accounted :
      (m : Merge S A) (index : ℕ) (rest kept : List ℕ) (o : Option A)
      → m.slots index ≡ o
      → Accounted m (index ∷ (rest ++ kept))
      → let (m', kept') = place_index es is_bar m index kept o in Accounted m' (rest ++ kept')
  unfolding Accounted place_index
  place_Accounted m index rest kept (some ev) e a i lt = elim (a i lt) [
    | inl there ↦ inl (omega arith)
    | inr ended ↦ inr ended
  ]
  place_Accounted m index rest kept none e a i lt =
      elim (Bool-cases (es.is_finished (m.streams index))) [
        | inl t ↦ rw t (elim (Bool-cases (index == i)) [
          | inl u ↦
              let same : index ≡ i = (==_iff index i).0 u in inr (subst (HasEnded m) same (t, e))
          | inr u ↦
              let off = ap {B = ℕ} (λ b. if b then 1 else 0) u in
              elim (a i lt) [ inl there ↦ inl (omega arith) | inr ended ↦ inr ended ]
        ])
        | inr t ↦ rw t (elim (a i lt) [
          | inl there ↦ inl (
              omega (
                arith,
                occurs-append i rest kept,
                occurs-append i rest (kept ++ (index ∷ [])),
                occurs-append i kept (index ∷ []),
              ))
          | inr ended ↦ inr ended
        ])
      ]

  refill_Accounted :
      (rest kept : List ℕ) (m : Merge S A)
      → Accounted m (rest ++ kept)
      → let (m', kept') = refill_all es is_bar m rest kept in Accounted m' kept'
  unfolding refill_all
  refill_Accounted [] kept m a = a
  refill_Accounted (index ∷ rest) kept m a =
      let m' = load es is_bar m index (m.slots index) in
      let loaded = load-Accounted m index (rest ++ kept) (m.slots index) a in
      let placed = place_Accounted m' index rest kept (m'.slots index) refl loaded in
      let (m'', kept') = place_index es is_bar m' index kept (m'.slots index) in
      refill_Accounted rest kept' m'' placed

  -- An answer, and the state after it: the end means that all streams have ended.
  pub EndsWell : PullResult A → Merge S A → Type ℓ
  EndsWell (unexpected eof) m = (i : ℕ) → i < count → HasEnded m i
  EndsWell res m = Accounted m m.pending

  nothing_left : (m : Merge S A) → m.heap ≡ [] → Accounted m [] → EndsWell (unexpected eof) m
  unfolding EndsWell Accounted
  nothing_left m e a i lt = elim (a i lt) [
    | inl there ↦ absurd (omega (arith, ap (λ h. occurs i (indices h)) e))
    | inr ended ↦ ended
  ]

  waiting : (m : Merge S A) → Accounted m m.pending → EndsWell (unexpected no_data) m
  unfolding EndsWell
  waiting m a = a

  answer-EndsWell : (o : Option A) (m : Merge S A) → Accounted m m.pending → EndsWell (answer o) m
  unfolding EndsWell answer
  answer-EndsWell none m a = a
  answer-EndsWell (some ev) m a = a

  popped_Accounted :
      (streams : ℕ → S) (slots : ℕ → Option A) (e : Entry) (heap : List Entry)
      → Accounted (record { streams = streams; slots = slots; pending = []; heap = e ∷ heap }) []
      → let (least, rest) = pop_least e heap in
        Accounted
          (record {
            streams = streams;
            slots = put slots least.index none;
            pending = least.index ∷ [];
            heap = rest;
          })
          (least.index ∷ [])
  unfolding Accounted
  popped_Accounted streams slots e heap a i lt =
      let least = (pop_least e heap).0 in
      elim (a i lt) [
        | inl there ↦ inl (omega (arith, pop_least-occurs i e heap))
        | inr (ended, empty) ↦ elim (Bool-cases (least.index == i)) [
          | inl u ↦ inl (omega (arith, ap {B = ℕ} (λ b. if b then 1 else 0) u))
          | inr u ↦
              let ne : least.index ≢ i = λ e. ground arith in
              inr (ended, put_ne slots least.index i none ne ∙ empty)
        ]
      ]

  pop_EndsWell :
      (streams : ℕ → S) (slots : ℕ → Option A) (heap : List Entry)
      → Accounted (record { streams = streams; slots = slots; pending = []; heap = heap }) []
      → let (res, m') =
          pop_front (record { streams = streams; slots = slots; pending = []; heap = heap }) heap in
        EndsWell res m'
  unfolding pop_front
  pop_EndsWell streams slots [] a =
      nothing_left (record { streams = streams; slots = slots; pending = []; heap = [] }) refl a
  pop_EndsWell streams slots (e ∷ heap) a =
      let (least, rest) = pop_least e heap in
      answer-EndsWell (slots least.index)
        (record {
          streams = streams;
          slots = put slots least.index none;
          pending = least.index ∷ [];
          heap = rest;
        })
        (popped_Accounted streams slots e heap a)

  settle-EndsWell :
      (m : Merge S A) (kept : List ℕ)
      → Accounted m kept
      → let (res, m') = settle m kept in EndsWell res m'
  unfolding settle Accounted
  settle-EndsWell m [] a = pop_EndsWell m.streams m.slots m.heap a
  settle-EndsWell m (index ∷ kept) a = waiting (record m { pending = index ∷ kept }) a

  -- If every stream is pending, in the heap or ended, it still is after an answer of the merge, and
  -- this answers the end only when every stream has ended and no event is left in a slot.
  pub next_merged-EndsWell :
      (m : Merge S A)
      → Accounted m m.pending
      → let (res, m') = next_merged es is_bar m in EndsWell res m'
  unfolding next_merged
  next_merged-EndsWell m a =
      let whole : m.pending ++ [] ≡ m.pending = append-nil m.pending in
      let refilled = refill_Accounted m.pending [] m (subst (Accounted m) (sym whole) a) in
      let (m', kept) = refill_all es is_bar m m.pending [] in settle-EndsWell m' kept refilled

  occurs_all : (i first n : ℕ) → first ≤ i → i < first + n → 1 ≤ occurs i (indices_from first n)
  unfolding indices_from
  occurs_all i first zero le lt = absurd (omega arith)
  occurs_all i first (suc n) le lt = elim (Bool-cases (first == i)) [
    | inl t ↦ rw t (omega arith)
    | inr t ↦
        let more : first + 1 ≤ i = ground arith in
        omega (arith, occurs_all i (first + 1) n more (omega arith))
  ]

  pub start_Accounted :
      (streams : ℕ → S) → let m : Merge S A = start_merge streams count in Accounted m m.pending
  unfolding Accounted start_merge
  start_Accounted streams i lt =
      inl (omega (arith, occurs_all i 0 count (omega arith) (omega arith)))
