-- ===== src/Strategy/Carry/Intents.antt =====
-- What the carry strategy asks for.
use quant_platform.Base.{
  ◌≤◌, ◌≡◌, ◌∙◌, refl, ap, subst, inl, inr, true, false, Bool-cases, List, [], ◌∷◌, ◌++◌, arith,
}
use quant_platform.Double.{Double}
use quant_platform.Core.Types.{EventBase, Payload, funding, FundingEvent, Intent}
use quant_platform.Core.Portfolio.{Portfolio, position}
use quant_platform.Core.ViewablePool.{push, reset, capacity, view-push, capacity-push, view-reset}
use quant_platform.Strategy.Carry.{
  Leg, FundingCarryStrategy, Config, on_leg, intent_for, target_for, rebalance, on_event,
}

abbrev OnLeg : EventBase → Leg → Type 0
OnLeg base leg =
    (base.exchange ≡ leg.exchange) × (base.market ≡ leg.market) × (base.symbol ≡ leg.symbol)

on_leg_iff : (base : EventBase) (leg : Leg) → on_leg base leg ≡ true → OnLeg base leg
on_leg_iff base leg t = ground arith

off_leg : (base : EventBase) (leg : Leg) → on_leg base leg ≡ false → OnLeg base leg → ⊥
off_leg base leg t on = ground arith

module _ {ℓ} {W : Type ℓ} ⦃d : Double W⦄ where
  rebalance_view :
      (s : FundingCarryStrategy W) (target : W)
      → 2 ≤ capacity s.buffer
      → (rebalance s target).0
        ≡ intent_for s.config.spot target ∷ intent_for s.config.futures (d.neg target) ∷ []
  unfolding rebalance reset push
  rebalance_view s target room =
      let spot = intent_for s.config.spot target in
      let futures = intent_for s.config.futures (d.neg target) in
      let one = push (reset s.buffer) spot in
      view-push one futures (omega (arith, capacity-push (reset s.buffer) spot))
      ∙ ap (λ xs. xs ++ (futures ∷ []))
          (view-push (reset s.buffer) spot (omega arith)
            ∙ ap (λ xs. xs ++ (spot ∷ [])) (view-reset s.buffer))

  -- An event is the funding of the futures leg, at a rate.
  abbrev pub IsFuturesRate : Config W → EventBase → Payload W → (rate : W) → Type ℓ
  IsFuturesRate c base (funding f) rate =
      (f.funding_rate ≡ rate)
      × (base.exchange ≡ c.futures.exchange)
      × (base.market ≡ c.futures.market)
      × (base.symbol ≡ c.futures.symbol)
  IsFuturesRate c base _ rate = Unit {ℓ} × ⊥

  -- The target on the spot leg: the configured quantity from the entry rate on, nothing at the exit
  -- rate or below it, and what is there in between.
  pub record IsTarget (c : Config W) (p : Portfolio W) (rate target : W) : Type ℓ where
    pub enters : d.le c.entry_funding_rate rate ≡ true → target ≡ c.target_qty
    pub exits :
        d.le c.entry_funding_rate rate ≡ false
        → d.le rate c.exit_funding_rate ≡ true
        → target ≡ d.nought
    pub keeps :
        d.le c.entry_funding_rate rate ≡ false
        → d.le rate c.exit_funding_rate ≡ false
        → target ≡ position p c.spot.exchange c.spot.market c.spot.symbol

  -- The two legs of a target.
  abbrev pub delta_neutral : Config W → W → List (Intent W)
  delta_neutral c target =
      record {
        exchange = c.spot.exchange;
        market = c.spot.market;
        symbol = c.spot.symbol;
        target_position = target;
      }
      ∷ record {
        exchange = c.futures.exchange;
        market = c.futures.market;
        symbol = c.futures.symbol;
        target_position = d.neg target;
      }
      ∷ []

  target_for-IsTarget :
      (c : Config W) (p : Portfolio W) (rate : W) → IsTarget c p rate (target_for c p rate)
  unfolding target_for
  target_for-IsTarget c p rate = record {
    enters = λ h. rw h refl;
    exits = λ h k. rw (h, k) refl;
    keeps = λ h k. rw (h, k) refl;
  }

  -- What the strategy asks for on an event.
  pub record Answers (c : Config W) (p : Portfolio W) (base : EventBase) (payload : Payload W)
      (intents : List (Intent W)) : Type ℓ where
    pub on_rate :
        (rate : W)
        → IsFuturesRate c base payload rate
        → (target : W) × IsTarget c p rate target × (intents ≡ delta_neutral c target)
    pub otherwise : ((rate : W) → IsFuturesRate c base payload rate → ⊥) → intents ≡ []

  funding_Answers :
      (s : FundingCarryStrategy W) (p : Portfolio W) (base : EventBase) (f : FundingEvent W)
      → 2 ≤ capacity s.buffer
      → Answers s.config p base
          (funding f)
          (on_event s p (record { base = base; payload = funding f })).0
  unfolding on_event
  funding_Answers s p base f room = elim (Bool-cases (on_leg base s.config.futures)) [
    | inl t ↦
        let target = target_for s.config p f.funding_rate in
        let same = on_leg_iff base s.config.futures t in
        rw t (record {
          on_rate = λ rate h. (
            target,
            subst (λ w. IsTarget s.config p w target) h.0
                (target_for-IsTarget s.config p f.funding_rate),
            rebalance_view s target room,
          );
          otherwise = λ h. absurd (h f.funding_rate (refl, same.0, same.1, same.2));
        })
    | inr t ↦ rw t (record {
      on_rate = λ rate h. absurd (off_leg base s.config.futures t (h.1, h.2, h.3));
      otherwise = λ h. refl;
    })
  ]

  -- With room for two intents in its buffer the strategy answers the funding of its futures leg by
  -- exactly two intents, the target on the spot leg and its opposite on the futures leg, where the
  -- target is the configured quantity from the entry rate on, nothing at the exit rate or below, and
  -- what the spot leg holds in between; it answers any other event by none, and its configuration never
  -- changes.
  pub on_event_lem :
      (s : FundingCarryStrategy W) (p : Portfolio W) (base : EventBase) (payload : Payload W)
      → 2 ≤ capacity s.buffer
      → let (intents, s') = on_event s p (record { base = base; payload = payload }) in
        Answers s.config p base payload intents × (s'.config ≡ s.config)
  unfolding on_event
  on_event_lem s p base (funding f) room = (funding_Answers s p base f room, ground arith)
  on_event_lem s p base _ room =
      (record { on_rate = λ rate h. absurd h.1; otherwise = λ h. refl }, refl)
