-- ===== src/Risk/Basic/Flatten.antt =====
-- The orders of the tick that trips the gate.
use quant_platform.Base.{
  ℕ, ◌≡◌, ◌∙◌, ap, sym, inl, inr, false, ◌||◌, List, [], ◌∷◌, ◌++◌, map, All, if◌then◌else◌,
  Bool-cases,
}
use mathlib.Core.Bool.{false≢true}
use mathlib.Core.List.{append_assoc, append-nil, map-append}
use quant_platform.Double.{Double, IsIeee, ◌≺◌, IsNumber, std_max}
use quant_platform.Core.Types.{Order}
use quant_platform.Core.Portfolio.{Portfolio, position, signed, equity}
use quant_platform.Risk.Basic.{
  BasicRiskGate, TrackedInstrument, after_id, on_tick, trip, flatten_from, close_order,
}
use quant_platform.Risk.Basic.Sizing.{not_lt→le, not_le→lt}

-- What an order does to the position of its instrument.
pub record Move {ℓ} (W : Type ℓ) : Type ℓ where
  pub exchange : ℕ
  pub market : ℕ
  pub symbol : ℕ
  pub change : W

module _ {ℓ} {W : Type ℓ} ⦃d : Double W⦄ where
  open d use {nought, sub, neg, abs, lt, le, eq}

  abbrev pub move : Order W → Move W
  move o = record {
    exchange = o.exchange;
    market = o.market;
    symbol = o.symbol;
    change = signed o.side o.qty;
  }

  abbrev pub held : Portfolio W → TrackedInstrument → W
  held p t = position p t.exchange t.market t.symbol

  -- The moves that take every tracked position that is not zero back by its whole size, in the order
  -- of the configuration.
  abbrev pub closing : Portfolio W → List TrackedInstrument → List (Move W)
  closing p [] = []
  closing p (t ∷ ts) =
      let rest = closing p ts in
      if eq (held p t) nought
      then rest
      else record {
        exchange = t.exchange;
        market = t.market;
        symbol = t.symbol;
        change = neg (held p t);
      }
        ∷ rest

  module _ (laws : IsIeee W) where
    below_zero : (w : W) → IsNumber w → eq w nought ≡ false → lt nought w ≡ false → w ≺ nought
    below_zero w num h q = elim (Bool-cases (le nought w)) [
      | inl up ↦
          let same =
            laws.le_antisymm w nought (not_lt→le laws nought w laws.number_nought num q) up in
          let bad = (laws.eq_iff w nought).1 (same, num) in absurd (false≢true (sym h ∙ bad))
      | inr down ↦ not_le→lt laws nought w laws.number_nought num down
    ]

    close_order_change :
        (t : TrackedInstrument) (id : ℕ) (w : W)
        → IsNumber w
        → eq w nought ≡ false
        → signed (close_order t id w).side (close_order t id w).qty ≡ neg w
    unfolding close_order
    close_order_change t id w num h = elim (Bool-cases (lt nought w)) [
      | inl q ↦ rw q (ap neg (laws.abs_of_nonneg w (laws.le_of_lt nought w q)))
      | inr q ↦ rw q (laws.abs_of_neg w (below_zero w num h q))
    ]

    move-close_order :
        (t : TrackedInstrument) (id : ℕ) (w : W)
        → IsNumber w
        → eq w nought ≡ false
        → move (close_order t id w)
          ≡ record { exchange = t.exchange; market = t.market; symbol = t.symbol; change = neg w }
    unfolding close_order
    move-close_order t id w num h =
        ap (λ c. record { exchange = t.exchange; market = t.market; symbol = t.symbol; change = c })
          (close_order_change t id w num h)

    flatten_from_moves :
        (p : Portfolio W) (ts : List TrackedInstrument) (id : ℕ) (acc : List (Order W))
        → All (λ t. IsNumber (held p t)) ts
        → map move (flatten_from p ts id acc).1 ≡ map move acc ++ closing p ts
    unfolding flatten_from
    flatten_from_moves p [] id acc v = sym (append-nil _)
    flatten_from_moves p (t ∷ ts) id acc v = elim (Bool-cases (eq (held p t) nought)) [
      | inl h ↦ rw (h, flatten_from) (flatten_from_moves p ts id acc v.1)
      | inr h ↦
          rw (h, flatten_from)
            (flatten_from_moves p ts (after_id id) (acc ++ (close_order t id (held p t) ∷ [])) v.1
              ∙ ap (λ ms. ms ++ closing p ts)
                  (map-append move acc (close_order t id (held p t) ∷ []))
              ∙ append_assoc (map move acc) (move (close_order t id (held p t)) ∷ []) (closing p ts)
              ∙ ap (λ mv. map move acc ++ (mv ∷ closing p ts))
                  (move-close_order t id (held p t) v.0 h))
    ]

    -- If the tracked positions are numbers, a tick of an open gate whose drawdown has reached the
    -- limit closes each tracked position that is not zero, by an order of exactly its opposite, in the
    -- order of the configuration, and orders nothing else. Any other tick orders nothing.
    pub on_tick_closes :
        (g : BasicRiskGate W) (p : Portfolio W)
        → All (λ t. IsNumber (held p t)) g.config.tracked
        → map move (on_tick g p).0 ≡ (
            if g.tripped
              || lt (sub (std_max g.peak_equity (equity p)) (equity p)) g.config.max_drawdown
            then []
            else closing p g.config.tracked)
    unfolding on_tick trip
    on_tick_closes g p v =
        elim (Bool-cases (
          g.tripped
          || lt (sub (std_max g.peak_equity (equity p)) (equity p)) g.config.max_drawdown)) [
            | inl h ↦ rw h
            | inr h ↦ rw h (flatten_from_moves p g.config.tracked g.next_id [] v)
          ]
