-- ===== src/Engine/Backtest/Dry.antt =====
-- The transport over queues that run dry, without a timer: it runs dry too.
use quant_platform.Base.{
  ℕ, zero, suc, ◌+◌, ◌-◌, ◌^◌, ◌<◌, ◌≤◌, ◌≡◌, ◌∙◌, refl, sym, ap, subst, ◌⊎◌, inl, inr, false, not,
  ◌&&◌, Option, none, some, List, [], ◌∷◌, get_elem?, All, ◌==◌, put_self, to_size, to_size_small,
  Bool-cases, Option-cases, arith,
}
use native.Mathlib.Nat.{le_refl}
use quant_platform.Base.Int.{pos, ltb_ℤ}
use quant_platform.Core.Types.{MarketEvent}
use quant_platform.Core.SpmcQueue.{try_pop, advance}
use quant_platform.Engine.{EngineInput}
use quant_platform.Engine.Run.{RunsDry}
use quant_platform.Engine.Backtest.{
  PopQueue, SpmcLeg, spmc_pop, QueueLeg, BacktestTransport, flush, any_missing, earliest, reset_leg,
  emit, top_up, top_up_all, next, backtest_transport,
}
use quant_platform.Engine.Backtest.Legs.{held, earliest_lem, found}

-- A queue that runs dry where `Sound` holds: each event lowers the count of those that are left.
pub record DryQueue {ℓ} {W Q : Type ℓ} (q : PopQueue W Q) (Sound : Q → Type 0) : Type ℓ where
  pub left : Q → ℕ
  pub pops :
      (x : Q) (ev : MarketEvent W)
      → Sound x
      → (q.try_pop x).0 ≡ some ev
      → left (q.try_pop x).1 < left x
  pub waits : (x : Q) → Sound x → left (q.try_pop x).1 ≤ left x
  pub sound : (x : Q) → Sound x → Sound (q.try_pop x).1

-- What the code's queue needs: its cursor is not past what was published, and the counters do not wrap.
pub record IsSound {ℓ} {W : Type ℓ} (x : SpmcLeg W) : Type 0 where
  pub behind : x.queue.cursors x.consumer ≤ x.queue.published
  pub small : x.queue.published < 2 ^ 64

module _ {ℓ} {W : Type ℓ} (k : ℕ) where
  abbrev pub stepped : SpmcLeg W → SpmcLeg W
  stepped x = record x { queue = advance x.queue x.consumer (x.queue.cursors x.consumer) }

  next_cursor :
      (x : SpmcLeg W)
      → IsSound x
      → x.queue.cursors x.consumer < x.queue.published
      → (stepped x).queue.cursors x.consumer ≡ x.queue.cursors x.consumer + 1
  unfolding advance
  next_cursor x h lt =
      let cur = x.queue.cursors x.consumer in
      put_self x.queue.cursors x.consumer (to_size (cur + 1))
      ∙ to_size_small (cur + 1) (omega (arith, h.small))

  -- What a pop leaves: the queue as it was, or one event less.
  pub popped :
      (x : SpmcLeg W)
      → IsSound x
      → (((spmc_pop k).try_pop x ≡ (none, x))
          ⊎ ((x.queue.cursors x.consumer < x.queue.published)
              × (((spmc_pop k).try_pop x).1 ≡ stepped x)))
  unfolding try_pop
  popped x h = elim (Bool-cases (x.queue.cursors x.consumer == x.queue.published)) [
    | inl t ↦ rw t (inl refl)
    | inr t ↦ rw t (inr (ground (arith, h.behind), refl))
  ]

  abbrev pub left_of : SpmcLeg W → ℕ
  left_of x = x.queue.published - x.queue.cursors x.consumer

  pub stepped_left :
      (x : SpmcLeg W)
      → IsSound x
      → x.queue.cursors x.consumer < x.queue.published
      → left_of (stepped x) < left_of x
  unfolding advance
  stepped_left x h lt = omega (arith, next_cursor x h lt)

  pub stepped-IsSound :
      (x : SpmcLeg W)
      → IsSound x
      → x.queue.cursors x.consumer < x.queue.published
      → IsSound (stepped x)
  unfolding advance
  stepped-IsSound x h lt = record { behind = omega (arith, next_cursor x h lt); small = h.small }

  unfoldable pub spmc_runs_dry : DryQueue {W = W} (spmc_pop k) IsSound
  spmc_runs_dry = record { left = left_of; pops = pops; waits = waits; sound = sound }
    where
      pops :
          (x : SpmcLeg W) (ev : MarketEvent W)
          → IsSound x
          → ((spmc_pop k).try_pop x).0 ≡ some ev
          → left_of ((spmc_pop k).try_pop x).1 < left_of x
      pops x ev h e = elim (popped x h) [
        | inl same ↦ let bad : none ≡ some ev = sym (ap (λ r. r.0) same) ∙ e in absurd (cc)
        | inr (lt, same) ↦ subst (λ y. left_of y < left_of x) (sym same) (stepped_left x h lt)
      ]

      waits : (x : SpmcLeg W) → IsSound x → left_of ((spmc_pop k).try_pop x).1 ≤ left_of x
      waits x h = elim (popped x h) [
        | inl same ↦ subst (λ y. left_of y ≤ left_of x) (sym (ap (λ r. r.1) same)) (le_refl _)
        | inr (lt, same) ↦
            subst (λ y. left_of y ≤ left_of x) (sym same)
              (let less = stepped_left x h lt in omega arith)
      ]

      sound : (x : SpmcLeg W) → IsSound x → IsSound ((spmc_pop k).try_pop x).1
      sound x h = elim (popped x h) [
        | inl same ↦ subst IsSound (sym (ap (λ r. r.1) same)) h
        | inr (lt, same) ↦ subst IsSound (sym same) (stepped-IsSound x h lt)
      ]

-- What one event ahead counts.
abbrev pub ahead_count {ℓ} : {W : Type ℓ} → Option (MarketEvent W) → ℕ
ahead_count none = 0
ahead_count (some ev) = 1

module _ {ℓ} {W Q : Type ℓ} ⦃q : PopQueue W Q⦄ (Sound : Q → Type 0)
    (dry_queue : DryQueue q Sound) where
  open dry_queue use {left}

  -- The events that a leg still has, with the one ahead.
  abbrev pub weight : QueueLeg W Q → ℕ
  weight leg = left leg.queue + ahead_count leg.lookahead

  unfoldable pub total_weight : List (QueueLeg W Q) → ℕ
  total_weight [] = 0
  total_weight (leg ∷ legs) = weight leg + total_weight legs

  abbrev pub SoundLeg : QueueLeg W Q → Type 0
  SoundLeg leg = Sound leg.queue

  top_up_le :
      (leg : QueueLeg W Q)
      → SoundLeg leg
      → SoundLeg (top_up leg) × (weight (top_up leg) ≤ weight leg)
  unfolding top_up
  top_up_le leg h = elim (Option-cases leg.lookahead) [
    | inr (ev, e) ↦ rw (e, top_up) (h, (let one = ap ahead_count e in omega arith))
    | inl e ↦
        rw (e, top_up)
          (
            dry_queue.sound leg.queue h,
            filled (q.try_pop leg.queue).0 (left (q.try_pop leg.queue).1) (left leg.queue)
                (dry_queue.waits leg.queue h) (λ ev. dry_queue.pops leg.queue ev h),
          )
  ]
    where
      filled :
          (o : Option (MarketEvent W)) (now before : ℕ)
          → now ≤ before
          → ((ev : MarketEvent W) → o ≡ some ev → now < before)
          → now + ahead_count o ≤ before + 0
      filled none now before le lt = omega arith
      filled (some ev) now before le lt = let less = lt ev refl in omega arith

  top_up_all_le :
      (legs : List (QueueLeg W Q))
      → All SoundLeg legs
      → All SoundLeg (top_up_all legs) × (total_weight (top_up_all legs) ≤ total_weight legs)
  unfolding top_up_all total_weight
  top_up_all_le [] h = (tt, le_refl _)
  top_up_all_le (leg ∷ legs) h =
      let (own, le) = top_up_le leg h.0 in
      let (rest, le') = top_up_all_le legs h.1 in ((own, rest), omega arith)

  -- Taking the event of a leg lowers the weight.
  reset_lt :
      (legs : List (QueueLeg W Q)) (i : ℕ) (ev : MarketEvent W)
      → get_elem? (held legs) i ≡ some (some ev)
      → All SoundLeg legs
      → All SoundLeg (reset_leg legs i) × (total_weight (reset_leg legs i) < total_weight legs)
  unfolding reset_leg total_weight
  reset_lt [] i ev e h = absurd (cc)
  reset_lt (leg ∷ legs) zero ev e h =
      let there : leg.lookahead ≡ some ev = cc in
      let one : ahead_count leg.lookahead ≡ 1 = ap ahead_count there in (h, omega (arith, one))
  reset_lt (leg ∷ legs) (suc i) ev e h =
      let (rest, lt) = reset_lt legs i ev e h.1 in ((h.0, rest), omega arith)

  -- The timer is off, and the queues are sound.
  pub record IsUntimed (t : BacktestTransport W Q) : Type ℓ where
    pub timer_off : ltb_ℤ (pos 0) t.timer_period ≡ false
    pub sound_legs : All SoundLeg t.legs

  -- What one call of `next` does to a measure.
  abbrev pub Lowers :
      BacktestTransport W Q → Option (EngineInput W) × BacktestTransport W Q → Type ℓ
  Lowers t (out, t') =
      IsUntimed t'
      × (total_weight t'.legs ≤ total_weight t.legs)
      × ((i : EngineInput W) → out ≡ some i → total_weight t'.legs < total_weight t.legs)

  emit-Lowers :
      (t topped : BacktestTransport W Q) (ev : MarketEvent W) (i : ℕ)
      → IsUntimed topped
      → total_weight topped.legs ≤ total_weight t.legs
      → get_elem? (held topped.legs) i ≡ some (some ev)
      → Lowers t (emit topped ev i)
  unfolding emit
  emit-Lowers t topped ev i h le there =
      let (sound, lt) = reset_lt topped.legs i ev there h.sound_legs in
      rw h.timer_off (
        record { timer_off = h.timer_off; sound_legs = sound },
        omega arith,
        λ input e. omega arith,
      )

  pub next-Lowers : (t : BacktestTransport W Q) → IsUntimed t → Lowers t (next t)
  unfolding next
  next-Lowers t h =
      let legs = top_up_all t.legs in
      let (sound, le) = top_up_all_le t.legs h.sound_legs in
      let topped : BacktestTransport W Q = record t { legs = legs } in
      let good : IsUntimed topped = record { timer_off = h.timer_off; sound_legs = sound } in
      elim (Bool-cases (not t.flushing && any_missing legs)) [
        | inl f ↦ rw f (good, le, λ i e. absurd (cc))
        | inr f ↦ elim (Option-cases (earliest 0 none legs)) [
          | inl e ↦ rw (f, e) (good, le, λ i bad. absurd (cc))
          | inr ((ev, i), e) ↦
              let (all, bound, from) = earliest_lem legs 0 none ev i e in
              rw (f, e) (emit-Lowers t topped ev i good le (found legs ev i from))
        ]
      ]

  unfoldable pub backtest_runs_dry : RunsDry backtest_transport IsUntimed
  unfolding flush
  backtest_runs_dry = record {
    remaining = λ t. total_weight t.legs;
    falls = λ t i h e. (next-Lowers t h).2 i e;
    keeps = λ t h. (next-Lowers t h).1;
    flush_keeps = λ t h. le_refl _;
    next_good = λ t h. (next-Lowers t h).0;
    flush_good = λ t h. record { timer_off = h.timer_off; sound_legs = h.sound_legs };
  }
