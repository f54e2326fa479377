-- ===== src/Engine/Backtest/Fed.antt =====
-- The queue that the transport reads, include/core/spmc_queue.hpp, with a producer that pushes a script of
-- events in the order of time: it hands them out in that order.
use quant_platform.Base.{
  ℕ, zero, suc, ◌+◌, ◌-◌, ◌%◌, ◌^◌, ◌<◌, ◌≤◌, ◌≡◌, ◌≢◌, ◌∙◌, sym, ap, subst, inl, inr, true, none,
  some, if◌then◌else◌, ◌==◌, ltb, put, put_self, put_ne, to_size, to_size_small, lap_apart,
  Bool-cases, ==_iff, ltb→lt, arith,
}
use quant_platform.Base.Bits.{bit_and-mask, pow_pos}
use quant_platform.Base.Int.{◌≤ℤ◌}
use quant_platform.Core.Types.{Timestamp, MarketEvent}
use quant_platform.Core.SpmcQueue.{
  SpmcQueue, masked, min_cursor_from, min_cursor, slot_free, construct, publish, push, read_slot,
  advance, try_pop,
}
use quant_platform.Engine.Backtest.{PopQueue, SpmcLeg, spmc_pop}
use quant_platform.Engine.Backtest.Legs.{Ascending}

-- A leg's queue, and the events of its producer: `script i` is the `i`th push, up to `total`.
pub record FedLeg {ℓ} (W : Type ℓ) : Type ℓ where
  pub leg : SpmcLeg W
  pub script : ℕ → MarketEvent W
  pub total : ℕ

min_cursor_from-le : (cursors : ℕ → ℕ) (left i min : ℕ) → min_cursor_from cursors left i min ≤ min
min_cursor_from-le cursors zero i min = omega arith
min_cursor_from-le cursors (suc left) i min =
    let rest =
      min_cursor_from-le cursors left (i + 1) (if ltb (cursors i) min then cursors i else min) in
    ground arith

min_cursor_from-at :
    (cursors : ℕ → ℕ) (left i min j : ℕ)
    → i ≤ j
    → j < i + left
    → min_cursor_from cursors left i min ≤ cursors j
min_cursor_from-at cursors zero i min j lo hi = absurd (omega arith)
min_cursor_from-at cursors (suc left) i min j lo hi =
    let min' = if ltb (cursors i) min then cursors i else min in
    elim (Bool-cases (i == j)) [
      | inl t ↦
          let same : i ≡ j = (==_iff i j).0 t in
          let rest = min_cursor_from-le cursors left (i + 1) min' in
          let here : min_cursor_from cursors left (i + 1) min' ≤ cursors i = ground arith in
          subst (λ x. min_cursor_from cursors left (i + 1) min' ≤ cursors x) same here
      | inr t ↦
          let ne : i ≢ j = λ e. ground arith in
          min_cursor_from-at cursors left (i + 1) min' j (omega arith) (omega arith)
    ]

min_cursor-le : (n : ℕ) (cursors : ℕ → ℕ) (c : ℕ) → c < n → min_cursor n cursors ≤ cursors c
unfolding min_cursor
min_cursor-le n cursors zero lt = min_cursor_from-le cursors (n - 1) 1 (cursors 0)
min_cursor-le n cursors (suc c) lt =
    min_cursor_from-at cursors (n - 1) 1 (cursors 0) (suc c) (omega arith) (omega arith)

module _ {ℓ} {W : Type ℓ} (k n : ℕ) where
  abbrev pub fed_pop : PopQueue W (FedLeg W)
  fed_pop = record {
    try_pop =
        λ x. let (popped, leg) = (spmc_pop k).try_pop x.leg in (popped, record x { leg = leg });
  }

  -- The producer pushes its next event, if there is one; the queue may refuse it.
  pub feed : FedLeg W → FedLeg W
  feed x =
      let q = x.leg.queue in
      if ltb q.published x.total
      then record x { leg = record x.leg { queue = (push k n q (x.script q.published)).1 } }
      else x

  -- The queue holds the script from its consumer's cursor on, which ascends from `t`.
  pub record IsFed (x : FedLeg W) (t : Timestamp) : Type ℓ where
    pub ascends : (i : ℕ) → (x.script i).base.ts ≤ℤ (x.script (i + 1)).base.ts
    pub small : x.total < 2 ^ 64
    pub one_of : x.leg.consumer < n
    pub behind : x.leg.queue.cursors x.leg.consumer ≤ x.leg.queue.published
    pub scripted : x.leg.queue.published ≤ x.total
    pub room : x.leg.queue.published ≤ x.leg.queue.cursors x.leg.consumer + 2 ^ k
    pub kept :
        (i : ℕ)
        → x.leg.queue.cursors x.leg.consumer ≤ i
        → i < x.leg.queue.published
        → x.leg.queue.storage (i % 2 ^ k) ≡ some (x.script i)
    pub due : t ≤ℤ (x.script (x.leg.queue.cursors x.leg.consumer)).base.ts

  -- A slot that is free is less than a lap ahead of every consumer.
  slot_free-room :
      (q : SpmcQueue (MarketEvent W)) (next c : ℕ)
      → c < n
      → slot_free k n q next ≡ true
      → next < q.cursors c + 2 ^ k
  unfolding slot_free
  slot_free-room q next c lt free = elim (Bool-cases (ltb next (2 ^ k))) [
    | inl t ↦ let below = ltb→lt next (2 ^ k) t in omega arith
    | inr t ↦
        let over : ltb (next - 2 ^ k) (min_cursor n q.cursors) ≡ true = rw t at free in
        let least = min_cursor-le n q.cursors c lt in
        let below = ltb→lt (next - 2 ^ k) (min_cursor n q.cursors) over in omega arith
  ]

  -- The slot at the cursor, where there is one, has the script's event.
  read_kept :
      (x : FedLeg W) (t : Timestamp)
      → IsFed x t
      → x.leg.queue.cursors x.leg.consumer < x.leg.queue.published
      → read_slot k x.leg.queue (x.leg.queue.cursors x.leg.consumer)
        ≡ some (x.script (x.leg.queue.cursors x.leg.consumer))
  unfolding read_slot
  read_kept x t h lt =
      let cur = x.leg.queue.cursors x.leg.consumer in
      ap x.leg.queue.storage (bit_and-mask k cur) ∙ h.kept cur (omega arith) lt

  -- The leg after its consumer has moved on by one.
  abbrev moved_on : FedLeg W → FedLeg W
  moved_on x = record x {
    leg = record x.leg {
      queue = advance x.leg.queue x.leg.consumer (x.leg.queue.cursors x.leg.consumer);
    };
  }

  advance-IsFed :
      (x : FedLeg W) (t : Timestamp)
      → IsFed x t
      → x.leg.queue.cursors x.leg.consumer < x.leg.queue.published
      → IsFed (moved_on x) (x.script (x.leg.queue.cursors x.leg.consumer)).base.ts
  unfolding advance
  advance-IsFed x t h lt =
      let q = x.leg.queue in
      let c = x.leg.consumer in
      let cur = q.cursors c in
      let small : cur + 1 < 2 ^ 64 = omega (arith, h.small, h.scripted) in
      let next : put q.cursors c (to_size (cur + 1)) c ≡ cur + 1 =
        put_self q.cursors c (to_size (cur + 1)) ∙ to_size_small (cur + 1) small in
      record {
        ascends = h.ascends;
        small = h.small;
        one_of = h.one_of;
        behind = omega (arith, next);
        scripted = h.scripted;
        room = omega (arith, next, h.room);
        kept = λ i lo hi. h.kept i (omega (arith, next)) hi;
        due =
            subst (λ j. (x.script cur).base.ts ≤ℤ (x.script j).base.ts) (sym next) (h.ascends cur);
      }

  pub FedLeg-Ascending : Ascending fed_pop IsFed
  unfolding try_pop
  FedLeg-Ascending = record { pops = pops; waits = waits }
    where
      pops :
          (x : FedLeg W) (t : Timestamp) (ev : MarketEvent W)
          → IsFed x t
          → (fed_pop.try_pop x).0 ≡ some ev
          → (t ≤ℤ ev.base.ts) × IsFed (fed_pop.try_pop x).1 ev.base.ts
      pops x t ev h e =
          let q = x.leg.queue in
          let cur = q.cursors x.leg.consumer in
          elim (Bool-cases (cur == q.published)) [
            | inl f ↦ let bad : none ≡ some ev = rw f at e in absurd (cc)
            | inr f ↦
                let lt : cur < q.published = ground (arith, h.behind) in
                let popped : read_slot k q cur ≡ some ev = rw f at e in
                let read = read_kept x t h lt in
                let same : x.script cur ≡ ev = cc in
                rw f (
                  subst (λ y. (t ≤ℤ y.base.ts) × IsFed (moved_on x) y.base.ts) same
                    (h.due, advance-IsFed x t h lt))
          ]

      waits :
          (x : FedLeg W) (t : Timestamp)
          → IsFed x t
          → (fed_pop.try_pop x).0 ≡ none
          → IsFed (fed_pop.try_pop x).1 t
      waits x t h e =
          let q = x.leg.queue in
          let cur = q.cursors x.leg.consumer in
          elim (Bool-cases (cur == q.published)) [
            | inl f ↦ rw f h
            | inr f ↦
                let lt : cur < q.published = ground (arith, h.behind) in
                let missed : read_slot k q cur ≡ none = rw f at e in
                let read = read_kept x t h lt in absurd (cc)
          ]

  pushed-IsFed :
      (x : FedLeg W) (t : Timestamp)
      → IsFed x t
      → x.leg.queue.published < x.total
      → x.leg.queue.published < x.leg.queue.cursors x.leg.consumer + 2 ^ k
      → let q = x.leg.queue in
        IsFed
          (record x {
            leg = record x.leg {
              queue = publish (construct k q q.published (x.script q.published)) q.published;
            };
          })
          t
  unfolding construct publish
  pushed-IsFed x t h more free =
      let q = x.leg.queue in
      let next = q.published in
      let cur = q.cursors x.leg.consumer in
      let grown : to_size (next + 1) ≡ next + 1 =
        to_size_small (next + 1) (omega (arith, h.small)) in
      let mask = bit_and-mask k next in
      record {
        ascends = h.ascends;
        small = h.small;
        one_of = h.one_of;
        behind = omega (arith, grown, h.behind);
        scripted = omega (arith, grown);
        room = omega (arith, grown);
        kept = λ i lo hi. elim (Bool-cases (next == i)) [
          | inl f ↦
              let at : next ≡ i = (==_iff next i).0 f in
              subst
                (λ j.
                  put q.storage (masked k next) (some (x.script next)) (j % 2 ^ k)
                  ≡ some (x.script j))
                at
                (ap (put q.storage (masked k next) (some (x.script next))) (sym mask)
                  ∙ put_self q.storage (masked k next) (some (x.script next)))
          | inr f ↦
              let below : i < next = ground (arith, grown) in
              put_ne q.storage (masked k next) (i % 2 ^ k) (some (x.script next))
                (λ e. lap_apart (2 ^ k) i next (pow_pos k) below (omega arith) (sym e ∙ mask))
              ∙ h.kept i lo below
        ];
        due = h.due;
      }

  -- A push by the producer, accepted or not, leaves the queue in the order of time.
  pub feed-IsFed : (x : FedLeg W) (t : Timestamp) → IsFed x t → IsFed (feed x) t
  unfolding feed push
  feed-IsFed x t h =
      let q = x.leg.queue in
      elim (Bool-cases (ltb q.published x.total)) [
        | inr f ↦ rw f h
        | inl f ↦ elim (Bool-cases (slot_free k n q q.published)) [
          | inr g ↦ rw (f, g) h
          | inl g ↦
              rw (f, g)
                (pushed-IsFed x t h (ltb→lt q.published x.total f)
                  (slot_free-room q q.published x.leg.consumer h.one_of g))
        ]
      ]
