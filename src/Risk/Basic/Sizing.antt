-- ===== src/Risk/Basic/Sizing.antt =====
-- `check` while the gate is open: how the order is sized.
use quant_platform.Base.{
  ◌≡◌, ◌↔◌, ◌⊎◌, refl, sym, subst, inl, inr, false, some, if◌then◌else◌, arith, Bool-cases,
}
use quant_platform.Double.{Double, IsIeee, ◌≼◌, ◌≺◌, IsNumber, std_clamp, fixed_double}
use quant_platform.Core.Types.{buy, sell, Intent, Order}
use quant_platform.Core.Portfolio.{Portfolio, position, signed}
use quant_platform.Risk.Gate.{approved, resized}
use quant_platform.Risk.Basic.{BasicRiskGate, target_of, order_to, check}

module _ {ℓ} {W : Type ℓ} ⦃d : Double W⦄ (laws : IsIeee W) where
  open d use {nought, sub, neg, abs, lt, le, eq}

  pub not_le→lt : (x y : W) → IsNumber x → IsNumber y → le x y ≡ false → y ≺ x
  not_le→lt x y nx ny h = ground (arith, laws.lt-eq-not-le y x ny nx)

  pub not_lt→le : (x y : W) → IsNumber x → IsNumber y → lt x y ≡ false → y ≼ x
  not_lt→le x y nx ny h = ground (arith, laws.lt-eq-not-le x y nx ny)

  -- A side and a size that stand for a signed quantity.
  pub signed-abs :
      (delta : W)
      → IsNumber delta
      → signed (if le nought delta then buy else sell) (abs delta) ≡ delta
  signed-abs delta num = elim (Bool-cases (le nought delta)) [
    | inl h ↦ rw h (laws.abs_of_nonneg delta h)
    | inr h ↦
        rw (h, laws.abs_of_neg delta (not_le→lt nought delta laws.number_nought num h))
          (laws.neg_neg delta)
  ]

  -- The target nearest to what is wanted within the limit on either side: what is wanted where that is
  -- within, and else the side that it is past.
  abbrev pub IsNearest : (limit wanted target : W) → Type ℓ
  IsNearest limit wanted target =
      ((neg limit ≼ wanted) × (wanted ≼ limit) × (target ≡ wanted))
      ⊎ (((wanted ≺ neg limit) × (target ≡ neg limit)) ⊎ ((limit ≺ wanted) × (target ≡ limit)))

  le→not_lt : (x y : W) → x ≼ y → lt y x ≡ false
  le→not_lt x y h =
      let (nx, ny) = laws.number_of_le x y h in ground (arith, laws.lt-eq-not-le y x ny nx)

  std_clamp-IsNearest :
      (limit wanted target : W)
      → neg limit ≼ limit
      → IsNearest limit wanted target
      → std_clamp wanted (neg limit) limit ≡ target
  std_clamp-IsNearest limit wanted target h (inl (above, below, e)) =
      rw (le→not_lt (neg limit) wanted above, le→not_lt wanted limit below) (sym e)
  std_clamp-IsNearest limit wanted target h (inr (inl (past, e))) = rw past (sym e)
  std_clamp-IsNearest limit wanted target h (inr (inr (past, e))) =
      let up = laws.le_trans (neg limit) limit wanted h (laws.le_of_lt limit wanted past) in
      rw (le→not_lt (neg limit) wanted up, past) (sym e)

  nearest_bounds :
      (limit wanted target : W)
      → neg limit ≼ limit
      → IsNearest limit wanted target
      → (neg limit ≼ target) × (target ≼ limit)
  nearest_bounds limit wanted target h (inl (above, below, e)) =
      subst (λ x. (neg limit ≼ x) × (x ≼ limit)) (sym e) (above, below)
  nearest_bounds limit wanted target h (inr (inl (past, e))) =
      let number = (laws.number_of_le (neg limit) limit h).0 in
      subst (λ x. (neg limit ≼ x) × (x ≼ limit)) (sym e) (number, h)
  nearest_bounds limit wanted target h (inr (inr (past, e))) =
      let number = (laws.number_of_le (neg limit) limit h).1 in
      subst (λ x. (neg limit ≼ x) × (x ≼ limit)) (sym e) (h, number)

  nearest-IsNumber :
      (limit wanted target : W)
      → neg limit ≼ limit
      → IsNearest limit wanted target
      → IsNumber target
  nearest-IsNumber limit wanted target h near =
      (laws.number_of_le (neg limit) target (nearest_bounds limit wanted target h near).0).1

  approved_iff :
      (target wanted : W)
      → IsNumber target
      → ((if eq target wanted then approved else resized) ≡ approved) ↔ (target ≡ wanted)
  approved_iff target wanted number = elim (Bool-cases (eq target wanted)) [
    | inl e ↦ rw e ((λ h. ((laws.eq_iff target wanted).0 e).0), (λ h. refl))
    | inr e ↦ rw e (
      (λ h. absurd (cc)),
      (λ same. let yes_eq = (laws.eq_iff target wanted).1 (same, number) in absurd (cc)),
    )
  ]

  -- What an open gate decides on an intent whose target within the limit is `target`.
  abbrev pub Sizes : BasicRiskGate W → Portfolio W → Intent W → (target : W) → Type ℓ
  Sizes g p intent target =
      let decision = (check g p intent).0 in
      (o : Order W) × (decision.order ≡ some o)
      × (o.id ≡ g.next_id)
      × ((o.exchange ≡ intent.exchange) × (o.market ≡ intent.market) × (o.symbol ≡ intent.symbol))
      × (signed o.side o.qty ≡ sub target (position p intent.exchange intent.market intent.symbol))
      × ((neg g.config.max_position_qty ≼ target) × (target ≼ g.config.max_position_qty))
      × ((decision.outcome ≡ approved) ↔ (target ≡ intent.target_position))
      × ((decision.outcome ≡ approved) ⊎ (decision.outcome ≡ resized))

  -- While the gate is open, a numeric intent always gets an order, for its own instrument and under
  -- the gate's next id. Its signed size is the difference of `target` and the present position, where
  -- `target` is what the intent asks for if that lies within the limit on either side, and else the
  -- side that it is past. The outcome is `Approved` exactly when that is the intent's own target, and
  -- `Resized` otherwise.
  pub check-Sizes :
      (g : BasicRiskGate W) (p : Portfolio W) (intent : Intent W) (target : W)
      → g.tripped ≡ false
      → neg g.config.max_position_qty ≼ g.config.max_position_qty
      → IsNearest g.config.max_position_qty intent.target_position target
      → IsNumber (sub target (position p intent.exchange intent.market intent.symbol))
      → Sizes g p intent target
  unfolding check
  check-Sizes g p intent target open_gate limit near delta_num =
      let delta = sub target (position p intent.exchange intent.market intent.symbol) in
      let clamped : target_of g intent ≡ target =
        std_clamp-IsNearest g.config.max_position_qty intent.target_position target limit near in
      rw (open_gate, clamped)
        (
          order_to g intent delta,
          refl,
          refl,
          (refl, refl, refl),
          signed-abs delta delta_num,
          nearest_bounds g.config.max_position_qty intent.target_position target limit near,
          approved_iff target intent.target_position
              (nearest-IsNumber g.config.max_position_qty intent.target_position target limit near),
          ground arith,
        )
