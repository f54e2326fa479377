-- ===== src/Execution/Sim/Outcomes.antt =====
-- The lists of outcomes, over any matcher.
use quant_platform.Base.{◌≡◌, ◌∙◌, refl, ap, sym, List, [], ◌∷◌, ◌++◌}
use mathlib.Core.List.{append_assoc, append-nil}
use quant_platform.Core.Types.{Timestamp, MarketEvent, Order, Fill, Reject}
use quant_platform.Execution.Matcher.{Outcome, filled, refused, Matcher}
use quant_platform.Execution.Sim.{SimExecution, on_market_event, submit, book_outcome}

module _ {ℓ} {W : Type ℓ} where
  abbrev pub fills_in : List (Outcome W) → List (Fill W)
  fills_in [] = []
  fills_in (filled f ∷ os) = f ∷ fills_in os
  fills_in (refused r ∷ os) = fills_in os

  abbrev pub rejects_in : List (Outcome W) → List Reject
  rejects_in [] = []
  rejects_in (filled f ∷ os) = rejects_in os
  rejects_in (refused r ∷ os) = r ∷ rejects_in os

module _ {ℓ} {W M : Type ℓ} ⦃m : Matcher W M⦄ where
  -- What the matcher answers to the orders in turn, and the matcher after them.
  abbrev pub match_all : M → List (Order W) → Timestamp → List (Outcome W) × M
  match_all x [] ts = ([], x)
  match_all x (o ∷ os) ts =
      let (outcome, x') = m.try_fill x o ts in
      let (rest, last) = match_all x' os ts in (outcome ∷ rest, last)

  unfoldable pub submit_all : SimExecution W M → List (Order W) → Timestamp → SimExecution W M
  submit_all x [] ts = x
  submit_all x (o ∷ os) ts = submit_all (submit x o ts) os ts

  booked :
      (x : SimExecution W M) (outcome : Outcome W) (rest : List (Outcome W))
      → let y = book_outcome x outcome in
        (y.fills ++ fills_in rest ≡ x.fills ++ fills_in (outcome ∷ rest))
        × (y.rejects ++ rejects_in rest ≡ x.rejects ++ rejects_in (outcome ∷ rest))
        × (y.matcher ≡ x.matcher)
  unfolding book_outcome
  booked x (filled f) rest = (append_assoc x.fills (f ∷ []) (fills_in rest), refl, refl)
  booked x (refused r) rest = (refl, append_assoc x.rejects (r ∷ []) (rejects_in rest), refl)

  submit_all_outcomes :
      (os : List (Order W)) (x : SimExecution W M) (ts : Timestamp)
      → let (outcomes, last) = match_all x.matcher os ts in
        let y = submit_all x os ts in
        (y.fills ≡ x.fills ++ fills_in outcomes)
        × (y.rejects ≡ x.rejects ++ rejects_in outcomes)
        × (y.matcher ≡ last)
  unfolding submit_all submit
  submit_all_outcomes [] x ts = (sym (append-nil _), sym (append-nil _), refl)
  submit_all_outcomes (o ∷ os) x ts =
      let (outcome, matcher) = m.try_fill x.matcher o ts in
      let rest = (match_all matcher os ts).0 in
      let y = submit x o ts in
      let (fills, rejects, kept) = booked (record x { matcher = matcher }) outcome rest in
      let (ih_fills, ih_rejects, ih_matcher) = submit_all_outcomes os y ts in
      (
        ih_fills ∙ ap (λ q. y.fills ++ fills_in (match_all q os ts).0) kept ∙ fills,
        ih_rejects ∙ ap (λ q. y.rejects ++ rejects_in (match_all q os ts).0) kept ∙ rejects,
        ih_matcher ∙ ap (λ q. (match_all q os ts).1) kept,
      )

  -- After a market event and any orders, the fills and the rejects are the matcher's answers to
  -- exactly these orders, in order: each order has one outcome, and what went before is gone.
  pub outcomes_since_event :
      (x : SimExecution W M) (ev : MarketEvent W) (os : List (Order W)) (ts : Timestamp)
      → let (outcomes, last) = match_all (m.on_market_event x.matcher ev) os ts in
        let y = submit_all (on_market_event x ev) os ts in
        (y.fills ≡ fills_in outcomes) × (y.rejects ≡ rejects_in outcomes) × (y.matcher ≡ last)
  unfolding on_market_event
  outcomes_since_event x ev os ts = submit_all_outcomes os (on_market_event x ev) ts
