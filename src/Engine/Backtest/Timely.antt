-- ===== src/Engine/Backtest/Timely.antt =====
-- What holds of the transport between two pulls, while it waits for every leg.
use quant_platform.Base.{
  ℕ, zero, suc, ◌≡◌, refl, subst, ◌⊎◌, inl, inr, Bool, true, false, Option, none, some, List, [],
  ◌∷◌, get_elem?, All, if◌then◌else◌, Bool-cases, Option-cases, arith,
}
use quant_platform.Base.Int.{pos, ltb_ℤ, leb_ℤ, ◌≤ℤ◌, ◌+ℤ◌, ltb_ℤ→lt, leb_ℤ→le, leb_ℤ→gt, +ℤ_parts}
use quant_platform.Core.Types.{Timestamp, MarketEvent}
use quant_platform.Engine.{EngineInput}
use quant_platform.Engine.Backtest.{
  PopQueue, QueueLeg, BacktestTransport, any_missing, reset_leg, top_up, top_up_all, emit,
}
use quant_platform.Engine.Backtest.Legs.{Ascending, held, NotBefore}

module _ {ℓ} {W Q : Type ℓ} ⦃q : PopQueue W Q⦄ (Bound : Q → Timestamp → Type ℓ)
    (asc : Ascending q Bound) where
  -- A leg goes on from the time `last`: its event ahead is not before that, and its queue goes on from
  -- there.
  abbrev pub GoesOn : Timestamp → Option (MarketEvent W) → Q → Type ℓ
  GoesOn last none x = Bound x last
  GoesOn last (some ev) x = (last ≤ℤ ev.base.ts) × Bound x ev.base.ts

  abbrev pub LegGoesOn : Timestamp → QueueLeg W Q → Type ℓ
  LegGoesOn last leg = GoesOn last leg.lookahead leg.queue

  popped :
      (last : Timestamp) (x x' : Q) (o : Option (MarketEvent W))
      → (o ≡ none → Bound x' last)
      → ((ev : MarketEvent W) → o ≡ some ev → (last ≤ℤ ev.base.ts) × Bound x' ev.base.ts)
      → GoesOn last o x'
  popped last x x' none w p = w refl
  popped last x x' (some ev) w p = p ev refl

  top_up_lem :
      (last : Timestamp) (leg : QueueLeg W Q) → LegGoesOn last leg → LegGoesOn last (top_up leg)
  unfolding top_up
  top_up_lem last leg h = elim (Option-cases leg.lookahead) [
    | inr (ev, e) ↦ rw (e, top_up) h
    | inl e ↦
        let bound : Bound leg.queue last = subst (λ o. GoesOn last o leg.queue) e h in
        rw (e, top_up)
          (popped last leg.queue (q.try_pop leg.queue).1 (q.try_pop leg.queue).0
            (asc.waits leg.queue last bound) (λ ev. asc.pops leg.queue last ev bound))
  ]

  pub top_up_all_lem :
      (last : Timestamp) (legs : List (QueueLeg W Q))
      → All (LegGoesOn last) legs
      → All (LegGoesOn last) (top_up_all legs)
  unfolding top_up_all
  top_up_all_lem last [] h = tt
  top_up_all_lem last (leg ∷ legs) h = (top_up_lem last leg h.0, top_up_all_lem last legs h.1)

  raise_one :
      (ts last : Timestamp) (newest : Q) (o : Option (MarketEvent W)) (rest : Bool)
      → elim o [ none ↦ true | some ev ↦ rest ] ≡ false
      → NotBefore ts o
      → GoesOn last o newest
      → GoesOn ts o newest × (rest ≡ false)
  raise_one ts last newest none rest f n h = absurd (cc)
  raise_one ts last newest (some ev) rest f n h = ((n, h.1), f)

  -- With an event ahead everywhere, and none before a time, all legs go on from that time.
  raise :
      (ts last : Timestamp) (legs : List (QueueLeg W Q))
      → any_missing legs ≡ false
      → All (NotBefore ts) (held legs)
      → All (LegGoesOn last) legs
      → All (LegGoesOn ts) legs
  unfolding any_missing
  raise ts last [] f n h = tt
  raise ts last (leg ∷ legs) f n h =
      let (own, rest) = raise_one ts last leg.queue leg.lookahead (any_missing legs) f n.0 h.0 in
      (own, raise ts last legs rest n.1 h.1)

  taken_one :
      (ev : MarketEvent W) (x : Q) (o : Option (MarketEvent W))
      → o ≡ some ev
      → GoesOn ev.base.ts o x
      → Bound x ev.base.ts
  taken_one ev x none e h = absurd (cc)
  taken_one ev x (some e') e h = let same : e' ≡ ev = cc in subst (λ y. Bound x y.base.ts) same h.1

  -- The leg whose event is taken goes on from it.
  taken :
      (ev : MarketEvent W) (legs : List (QueueLeg W Q)) (m : ℕ)
      → get_elem? (held legs) m ≡ some (some ev)
      → All (LegGoesOn ev.base.ts) legs
      → All (LegGoesOn ev.base.ts) (reset_leg legs m)
  unfolding reset_leg
  taken ev [] m e h = tt
  taken ev (leg ∷ legs) zero e h =
      let same : leg.lookahead ≡ some ev = cc in
      (taken_one ev leg.queue leg.lookahead same h.0, h.1)
  taken ev (leg ∷ legs) (suc m) e h = (h.0, taken ev legs m e h.1)

  -- The state of the transport from the time `last` on, while it waits for every leg.
  pub record Timely (last : Timestamp) (t : BacktestTransport W Q) : Type ℓ where
    pub waiting : t.flushing ≡ false
    pub legs_ok : All (LegGoesOn last) t.legs
    pub timer_ok : ltb_ℤ (pos 0) t.timer_period ≡ true → t.timer_armed ≡ true → last ≤ℤ t.next_timer

  ahead_one :
      (last : Timestamp) (newest : Q) (o : Option (MarketEvent W)) (ev : MarketEvent W)
      → o ≡ some ev
      → GoesOn last o newest
      → last ≤ℤ ev.base.ts
  ahead_one last newest none ev e h = absurd (cc)
  ahead_one last newest (some e') ev e h =
      let same : e' ≡ ev = cc in subst (λ x. last ≤ℤ x.base.ts) same h.0

  ahead :
      (last : Timestamp) (ev : MarketEvent W) (legs : List (QueueLeg W Q)) (m : ℕ)
      → get_elem? (held legs) m ≡ some (some ev)
      → All (LegGoesOn last) legs
      → last ≤ℤ ev.base.ts
  ahead last ev [] m e h = absurd (cc)
  ahead last ev (leg ∷ legs) zero e h =
      let same : leg.lookahead ≡ some ev = cc in ahead_one last leg.queue leg.lookahead ev same h.0
  ahead last ev (leg ∷ legs) (suc m) e h = ahead last ev legs m e h.1

  -- The boundary that the timer fires at, if it is on.
  abbrev boundary_of : BacktestTransport W Q → MarketEvent W → Timestamp
  boundary_of t ev = if t.timer_armed then t.next_timer else ev.base.ts +ℤ t.timer_period

  boundary_after :
      (last : Timestamp) (t : BacktestTransport W Q) (ev : MarketEvent W)
      → Timely last t
      → last ≤ℤ ev.base.ts
      → ltb_ℤ (pos 0) t.timer_period ≡ true
      → last ≤ℤ boundary_of t ev
  boundary_after last t ev h up timed = elim (Bool-cases t.timer_armed) [
    | inl a ↦ rw a (h.timer_ok timed a)
    | inr a ↦
        let positive = ltb_ℤ→lt (pos 0) t.timer_period timed in
        rw a (omega (arith, +ℤ_parts ev.base.ts t.timer_period))
  ]

  -- What `next` returns, with its time, and what holds after it.
  abbrev pub Returned : Timestamp → Option (EngineInput W) × BacktestTransport W Q → Type ℓ
  Returned last (out, t) =
      ((out ≡ none) × Timely last t)
      ⊎ ((input : EngineInput W) × (out ≡ some input) × (last ≤ℤ input.ts) × Timely input.ts t)

  none_before_one :
      (ts ts' : Timestamp) (o : Option (MarketEvent W))
      → ts ≤ℤ ts'
      → NotBefore ts' o
      → NotBefore ts o
  none_before_one ts ts' none le h = tt
  none_before_one ts ts' (some ev) le h = omega arith

  none_before :
      (ts ts' : Timestamp) (os : List (Option (MarketEvent W)))
      → ts ≤ℤ ts'
      → All (NotBefore ts') os
      → All (NotBefore ts) os
  none_before ts ts' [] le h = tt
  none_before ts ts' (o ∷ os) le h = (none_before_one ts ts' o le h.0, none_before ts ts' os le h.1)

  pub emit_lem :
      (last : Timestamp) (t : BacktestTransport W Q) (ev : MarketEvent W) (m : ℕ)
      → Timely last t
      → any_missing t.legs ≡ false
      → All (NotBefore ev.base.ts) (held t.legs)
      → get_elem? (held t.legs) m ≡ some (some ev)
      → Returned last (emit t ev m)
  unfolding emit
  emit_lem last t ev m h f n e =
      let up = ahead last ev t.legs m e h.legs_ok in
      let all = raise ev.base.ts last t.legs f n h.legs_ok in
      elim (Bool-cases (ltb_ℤ (pos 0) t.timer_period)) [
        | inr off ↦ rw off (
            inr (
              record { ts = ev.base.ts; event = some ev },
              refl,
              up,
              record {
                waiting = h.waiting;
                legs_ok = taken ev t.legs m e all;
                timer_ok = λ timed armed. absurd (cc);
              },
            ))
        | inl timed ↦
            let past = boundary_after last t ev h up timed in
            let positive = ltb_ℤ→lt (pos 0) t.timer_period timed in
            rw timed (elim (Bool-cases (leb_ℤ (boundary_of t ev) ev.base.ts)) [
              | inl due ↦
                  let before = leb_ℤ→le (boundary_of t ev) ev.base.ts due in
                  rw due (
                    inr (
                      record { ts = boundary_of t ev; event = none },
                      refl,
                      past,
                      record {
                        waiting = h.waiting;
                        legs_ok =
                            raise (boundary_of t ev) last t.legs f
                              (none_before (boundary_of t ev) ev.base.ts (held t.legs) before n)
                              h.legs_ok;
                        timer_ok =
                            λ w armed. omega (arith, +ℤ_parts (boundary_of t ev) t.timer_period);
                      },
                    ))
              | inr early ↦
                  let later = leb_ℤ→gt (boundary_of t ev) ev.base.ts early in
                  rw early (
                    inr (
                      record { ts = ev.base.ts; event = some ev },
                      refl,
                      up,
                      record {
                        waiting = h.waiting;
                        legs_ok = taken ev t.legs m e all;
                        timer_ok = λ w armed. omega arith;
                      },
                    ))
            ])
      ]
