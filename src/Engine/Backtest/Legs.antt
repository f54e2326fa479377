-- ===== src/Engine/Backtest/Legs.antt =====
-- The legs of the transport: what is taken off ahead, and the pass that looks for the earliest.
use quant_platform.Base.{
  ℕ, suc, ◌+◌, ◌≡◌, ◌∙◌, sym, ap, subst, ◌⊎◌, inl, inr, Option, none, some, List, [], ◌∷◌, map,
  get_elem?, All, if◌then◌else◌, Bool-cases, arith,
}
use quant_platform.Base.Int.{ltb_ℤ, ◌≤ℤ◌, ltb_ℤ→lt, ltb_ℤ→ge}
use quant_platform.Core.Types.{Timestamp, MarketEvent}
use quant_platform.Engine.Backtest.{PopQueue, QueueLeg, earlier, earliest}

-- A queue that hands out its events in the order of time: where `Bound x t` holds, what it has and what
-- its producer is still to add is at or after `t`.
pub record Ascending {ℓ} {W Q : Type ℓ} (q : PopQueue W Q) (Bound : Q → Timestamp → Type ℓ)
    : Type ℓ where
  pub pops :
      (x : Q) (t : Timestamp) (ev : MarketEvent W)
      → Bound x t
      → (q.try_pop x).0 ≡ some ev
      → (t ≤ℤ ev.base.ts) × Bound (q.try_pop x).1 ev.base.ts
  pub waits : (x : Q) (t : Timestamp) → Bound x t → (q.try_pop x).0 ≡ none → Bound (q.try_pop x).1 t

-- What the legs have ahead.
abbrev pub held {ℓ} : {W Q : Type ℓ} → List (QueueLeg W Q) → List (Option (MarketEvent W))
held legs = map (λ leg. leg.lookahead) legs

module _ {ℓ} {W : Type ℓ} where
  abbrev pub NotBefore : Timestamp → Option (MarketEvent W) → Type 0
  NotBefore ts none = Unit
  NotBefore ts (some ev) = ts ≤ℤ ev.base.ts

  -- The best so far, if there is one, is not before the time.
  abbrev pub BestNotBefore : Timestamp → Option (MarketEvent W × ℕ) → Type 0
  BestNotBefore ts none = Unit
  BestNotBefore ts (some (ev, j)) = ts ≤ℤ ev.base.ts

  -- The best after one leg.
  abbrev after :
      Option (MarketEvent W) → Option (MarketEvent W × ℕ) → ℕ → Option (MarketEvent W × ℕ)
  after o best i = elim o [ none ↦ best | some ev ↦ earlier best ev i ]

  after_bounds :
      (ts : Timestamp) (o : Option (MarketEvent W)) (best : Option (MarketEvent W × ℕ)) (i : ℕ)
      → BestNotBefore ts (after o best i)
      → NotBefore ts o × BestNotBefore ts best
  after_bounds ts none best i h = (tt, h)
  after_bounds ts (some e) none i h = (h, tt)
  after_bounds ts (some e) (some (b, j)) i h = elim (Bool-cases (ltb_ℤ e.base.ts b.base.ts)) [
    | inl f ↦
        let h' = subst (λ x. BestNotBefore ts (if x then some (e, i) else some (b, j))) f h in
        (h', (let earlier = ltb_ℤ→lt e.base.ts b.base.ts f in omega arith))
    | inr f ↦
        let h' = subst (λ x. BestNotBefore ts (if x then some (e, i) else some (b, j))) f h in
        ((let later = ltb_ℤ→ge e.base.ts b.base.ts f in omega arith), h')
  ]

  after_from :
      (o : Option (MarketEvent W)) (best : Option (MarketEvent W × ℕ)) (i j : ℕ)
      (ev : MarketEvent W)
      → after o best i ≡ some (ev, j)
      → (best ≡ some (ev, j)) ⊎ ((i ≡ j) × (o ≡ some ev))
  after_from none best i j ev h = inl h
  after_from (some e) none i j ev h =
      let at : i ≡ j = cc in let is : e ≡ ev = cc in inr (at, ap some is)
  after_from (some e) (some (b, k)) i j ev h = elim (Bool-cases (ltb_ℤ e.base.ts b.base.ts)) [
    | inl f ↦
        let h' : ◌≡◌ {A = Option (MarketEvent W × ℕ)} (some (e, i)) (some (ev, j)) =
          sym (ap (λ x. if x then some (e, i) else some (b, k)) f) ∙ h in
        let at : i ≡ j = cc in let is : e ≡ ev = cc in inr (at, ap some is)
    | inr f ↦ inl (sym (ap (λ x. if x then some (e, i) else some (b, k)) f) ∙ h)
  ]

module _ {ℓ} {W Q : Type ℓ} where
  -- What the pass finds is the best so far or stands ahead of some leg, and is before none of them.
  pub earliest_lem :
      (legs : List (QueueLeg W Q)) (i : ℕ) (best : Option (MarketEvent W × ℕ)) (ev : MarketEvent W)
      (j : ℕ)
      → earliest i best legs ≡ some (ev, j)
      → All (NotBefore ev.base.ts) (held legs)
        × BestNotBefore ev.base.ts best
        × ((best ≡ some (ev, j))
            ⊎ ((m : ℕ) × (j ≡ i + m) × (get_elem? (held legs) m ≡ some (some ev))))
  unfolding earliest
  earliest_lem [] i best ev j h = (tt, rw h (omega arith), inl h)
  earliest_lem (leg ∷ legs) i best ev j h =
      let (all, bound, from) = earliest_lem legs (suc i) (after leg.lookahead best i) ev j h in
      let (own, old) = after_bounds ev.base.ts leg.lookahead best i bound in
      (
        (own, all),
        old,
        elim from [
          | inr (m, at, is) ↦ inr (suc m, omega arith, is)
          | inl first ↦ elim (after_from leg.lookahead best i j ev first) [
            | inl e ↦ inl e
            | inr (at, is) ↦ inr (0, omega arith, ap some is)
          ]
        ],
      )

  -- With no best at the start, what the pass finds stands ahead of the leg of that index.
  pub found :
      (legs : List (QueueLeg W Q)) (ev : MarketEvent W) (i : ℕ)
      → (◌≡◌ {A = Option (MarketEvent W × ℕ)} none (some (ev, i)))
        ⊎ ((m : ℕ) × (i ≡ 0 + m) × (get_elem? (held legs) m ≡ some (some ev)))
      → get_elem? (held legs) i ≡ some (some ev)
  found legs ev i (inl e) = absurd (cc)
  found legs ev i (inr (m, at, is)) =
      let same : i ≡ m = omega arith in ap (get_elem? (held legs)) same ∙ is
