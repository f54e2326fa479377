-- ===== src/Risk/Basic/Latch.antt =====
-- The drawdown latch, and the ids that the gate hands out, over any sequence of calls.
use quant_platform.Base.{
  ℕ, zero, suc, ◌+◌, ◌≡◌, ◌∙◌, refl, ap, ap₂, sym, inl, inr, Bool, true, false, not, ◌||◌, Option,
  some, none, List, [], ◌∷◌, ◌++◌, map, length, length-append, arith, Bool-cases,
}
use mathlib.Core.List.{map-append}
use quant_platform.Double.{Double, std_max}
use quant_platform.Core.Types.{Intent, Order}
use quant_platform.Core.Portfolio.{Portfolio, equity, position}
use quant_platform.Risk.Gate.{rejected}
use quant_platform.Risk.Basic.{
  BasicRiskGate, TrackedInstrument, after_id, check, on_tick, trip, flatten_from, close_order,
}

-- What the engine asks of a gate, with the portfolio that the gate sees then.
pub data GateCall {ℓ} (W : Type ℓ) : Type ℓ where
  checks : Portfolio W → Intent W → GateCall W
  ticks : Portfolio W → GateCall W

-- `count` ids from `id` on.
abbrev pub ids_from : ℕ → ℕ → List ℕ
ids_from zero id = []
ids_from (suc count) id = id ∷ ids_from count (after_id id)

abbrev pub id_after : ℕ → ℕ → ℕ
id_after zero id = id
id_after (suc count) id = id_after count (after_id id)

ids_snoc : (n id : ℕ) → ids_from n id ++ (id_after n id ∷ []) ≡ ids_from (suc n) id
ids_snoc zero id = refl
ids_snoc (suc n) id = ap (◌∷◌ id) (ids_snoc n (after_id id))

id_after_snoc : (n id : ℕ) → after_id (id_after n id) ≡ id_after (suc n) id
id_after_snoc zero id = refl
id_after_snoc (suc n) id = id_after_snoc n (after_id id)

ids_from-append : (m n id : ℕ) → ids_from m id ++ ids_from n (id_after m id) ≡ ids_from (m + n) id
ids_from-append zero n id = let e : n ≡ 0 + n = omega arith in ap (λ k. ids_from k id) e
ids_from-append (suc m) n id =
    let e : suc (m + n) ≡ suc m + n = omega arith in
    ap (◌∷◌ id) (ids_from-append m n (after_id id)) ∙ ap (λ k. ids_from k id) e

id_after-add : (m n id : ℕ) → id_after n (id_after m id) ≡ id_after (m + n) id
id_after-add zero n id = let e : n ≡ 0 + n = omega arith in ap (λ k. id_after k id) e
id_after-add (suc m) n id =
    let e : suc (m + n) ≡ suc m + n = omega arith in
    id_after-add m n (after_id id) ∙ ap (λ k. id_after k id) e

module _ {ℓ} {W : Type ℓ} ⦃d : Double W⦄ where
  open d use {nought, sub, lt}

  abbrev order_list : Option (Order W) → List (Order W)
  order_list none = []
  order_list (some o) = o ∷ []

  -- The orders that one call lets through, and the gate after it.
  unfoldable pub call : BasicRiskGate W → GateCall W → List (Order W) × BasicRiskGate W
  call g (checks p intent) =
      let (decision, g') = check g p intent in (order_list decision.order, g')
  call g (ticks p) = on_tick g p

  unfoldable pub run_gate : BasicRiskGate W → List (GateCall W) → List (Order W) × BasicRiskGate W
  unfolding call
  run_gate g [] = ([], g)
  run_gate g (c ∷ cs) =
      let (orders, g') = call g c in let (later, last) = run_gate g' cs in (orders ++ later, last)

  pub check_tripped :
      (g : BasicRiskGate W) (p : Portfolio W) (intent : Intent W)
      → g.tripped ≡ true
      → check g p intent ≡ (record { outcome = rejected; order = none }, g)
  unfolding check
  check_tripped g p intent h = ground arith

  pub on_tick_tripped :
      (g : BasicRiskGate W) (p : Portfolio W)
      → g.tripped ≡ true
      → ((on_tick g p).0 ≡ []) × ((on_tick g p).1.tripped ≡ true)
  unfolding on_tick
  on_tick_tripped g p h = ground arith

  call_tripped :
      (g : BasicRiskGate W) (c : GateCall W)
      → g.tripped ≡ true
      → ((call g c).0 ≡ []) × ((call g c).1.tripped ≡ true) × ((call g c).1.next_id ≡ g.next_id)
  unfolding call check on_tick
  call_tripped g (checks p intent) h = ground arith
  call_tripped g (ticks p) h = ground arith

  -- Once tripped, the gate lets no order through, whatever it is asked, and never opens again.
  pub run_gate_tripped :
      (cs : List (GateCall W)) (g : BasicRiskGate W)
      → g.tripped ≡ true
      → ((run_gate g cs).0 ≡ []) × ((run_gate g cs).1.tripped ≡ true)
  unfolding run_gate
  run_gate_tripped [] g h = (refl, h)
  run_gate_tripped (c ∷ cs) g h =
      let (none_now, still, _) = call_tripped g c h in
      let (none_later, last) = run_gate_tripped cs (call g c).1 still in
      (rw (none_now, none_later), last)

  -- The equities that the ticks of some calls see.
  abbrev pub equities : List (GateCall W) → List W
  equities [] = []
  equities (checks p intent ∷ cs) = equities cs
  equities (ticks p ∷ cs) = equity p ∷ equities cs

  -- The peak after some equities, from a peak on.
  abbrev pub peak_after : W → List W → W
  peak_after peak [] = peak
  peak_after peak (now ∷ later) = peak_after (std_max peak now) later

  -- Whether one of the equities, counted with those before it, has fallen from the peak so far by the
  -- limit. A comparison with NaN fails, which counts as a fall too.
  abbrev pub has_fallen : (limit peak : W) → List W → Bool
  has_fallen limit peak [] = false
  has_fallen limit peak (now ∷ later) =
      not (lt (sub (std_max peak now) now) limit) || has_fallen limit (std_max peak now) later

  tick_latch :
      (g : BasicRiskGate W) (p : Portfolio W)
      → let peak = std_max g.peak_equity (equity p) in
        let g' = (on_tick g p).1 in
        (g'.tripped ≡ g.tripped || not (lt (sub peak (equity p)) g.config.max_drawdown))
        × (g'.peak_equity ≡ peak)
        × (g'.config ≡ g.config)
  unfolding on_tick trip
  tick_latch g p = ground arith

  check_latch :
      (g : BasicRiskGate W) (p : Portfolio W) (intent : Intent W)
      → let g' = (check g p intent).1 in
        (g'.tripped ≡ g.tripped) × (g'.peak_equity ≡ g.peak_equity) × (g'.config ≡ g.config)
  unfolding check
  check_latch g p intent = ground arith

  -- After any checks and ticks the gate is tripped exactly when it was before or the equity of some
  -- tick had fallen by the limit from the running peak, this tick's equity included; and its peak is
  -- the largest of the equities of all its ticks, those after the trip as well. A comparison with NaN
  -- fails, so it trips then too.
  pub run_gate_trips :
      (cs : List (GateCall W)) (g : BasicRiskGate W)
      → let last = (run_gate g cs).1 in
        (last.tripped ≡ g.tripped || has_fallen g.config.max_drawdown g.peak_equity (equities cs))
        × (last.peak_equity ≡ peak_after g.peak_equity (equities cs))
  unfolding run_gate call
  run_gate_trips [] g = ground arith
  run_gate_trips (checks p intent ∷ cs) g =
      let (same, peak, config) = check_latch g p intent in
      let (trips, last) = run_gate_trips cs (check g p intent).1 in
      (
        trips
            ∙ ap₂
                (λ b c.
                  b || has_fallen c.max_drawdown (check g p intent).1.peak_equity (equities cs))
                same config
            ∙ ap (λ w. g.tripped || has_fallen g.config.max_drawdown w (equities cs)) peak,
        last ∙ ap (λ w. peak_after w (equities cs)) peak,
      )
  run_gate_trips (ticks p ∷ cs) g =
      let (now, peak, config) = tick_latch g p in
      let (trips, last) = run_gate_trips cs (on_tick g p).1 in
      let fell =
        not (lt (sub (std_max g.peak_equity (equity p)) (equity p)) g.config.max_drawdown) in
      (
        trips
            ∙ ap₂ (λ b c. b || has_fallen c.max_drawdown (on_tick g p).1.peak_equity (equities cs))
                now config
            ∙ ap (λ w. (g.tripped || fell) || has_fallen g.config.max_drawdown w (equities cs)) peak
            ∙ or_assoc g.tripped fell _,
        last ∙ ap (λ w. peak_after w (equities cs)) peak,
      )
    where
      or_assoc : (a b c : Bool) → (a || b) || c ≡ a || (b || c)
      or_assoc true b c = refl
      or_assoc false b c = refl

  abbrev order_id : Order W → ℕ
  order_id o = o.id

  snoc_ids :
      (acc : List (Order W)) (o : Order W) (start : ℕ)
      → map order_id acc ≡ ids_from (length acc) start
      → o.id ≡ id_after (length acc) start
      → map order_id (acc ++ (o ∷ [])) ≡ ids_from (length (acc ++ (o ∷ []))) start
  snoc_ids acc o start h k =
      let count : length (acc ++ (o ∷ [])) ≡ suc (length acc) =
        length-append acc (o ∷ []) ∙ omega arith in
      map-append order_id acc (o ∷ [])
      ∙ ap₂ (λ xs n. xs ++ (n ∷ [])) h k
      ∙ ids_snoc (length acc) start
      ∙ ap (λ n. ids_from n start) (sym count)

  close_order_id : (t : TrackedInstrument) (id : ℕ) (pos : W) → (close_order t id pos).id ≡ id
  unfolding close_order
  close_order_id t id pos = refl

  flatten_from_ids :
      (p : Portfolio W) (ts : List TrackedInstrument) (id : ℕ) (acc : List (Order W)) (start : ℕ)
      → map order_id acc ≡ ids_from (length acc) start
      → id ≡ id_after (length acc) start
      → let (last, out) = flatten_from p ts id acc in
        (map order_id out ≡ ids_from (length out) start) × (last ≡ id_after (length out) start)
  unfolding flatten_from
  flatten_from_ids p [] id acc start h k = (h, k)
  flatten_from_ids p (t ∷ ts) id acc start h k =
      let pos = position p t.exchange t.market t.symbol in
      let o = close_order t id pos in
      let count : length (acc ++ (o ∷ [])) ≡ suc (length acc) =
        length-append acc (o ∷ []) ∙ omega arith in
      let ids = snoc_ids acc o start h (close_order_id t id pos ∙ k) in
      let next : after_id id ≡ id_after (length (acc ++ (o ∷ []))) start =
        ap after_id k ∙ id_after_snoc (length acc) start ∙ ap (λ n. id_after n start) (sym count) in
      elim (Bool-cases (d.eq pos nought)) [
        | inl flat ↦ rw (flat, flatten_from) (flatten_from_ids p ts id acc start h k)
        | inr held ↦
            rw (held, flatten_from)
              (flatten_from_ids p ts (after_id id) (acc ++ (o ∷ [])) start ids next)
      ]

  -- The orders let through by one call carry the next ids in turn.
  call_ids :
      (g : BasicRiskGate W) (c : GateCall W)
      → let (orders, g') = call g c in
        (map order_id orders ≡ ids_from (length orders) g.next_id)
        × (g'.next_id ≡ id_after (length orders) g.next_id)
  unfolding call check on_tick trip
  call_ids g (checks p intent) = ground arith
  call_ids g (ticks p) =
      ground (arith, flatten_from_ids p g.config.tracked g.next_id [] g.next_id refl refl)

  -- All orders that a gate ever lets through, its own closing orders included, are numbered without
  -- a gap or a repeat from the gate's next id on, up to the wrap of 64 bits.
  pub run_gate_ids :
      (cs : List (GateCall W)) (g : BasicRiskGate W)
      → let (orders, last) = run_gate g cs in
        (map order_id orders ≡ ids_from (length orders) g.next_id)
        × (last.next_id ≡ id_after (length orders) g.next_id)
  unfolding run_gate
  run_gate_ids [] g = (refl, refl)
  run_gate_ids (c ∷ cs) g =
      let (orders, g') = call g c in
      let (later, last) = run_gate g' cs in
      let (now_ids, now_next) = call_ids g c in
      let (later_ids, later_next) = run_gate_ids cs g' in
      let n = length orders in
      let total = length-append orders later in
      (
        map-append order_id orders later
            ∙ ap₂ ◌++◌ now_ids (later_ids ∙ ap (ids_from (length later)) now_next)
            ∙ ids_from-append n (length later) g.next_id
            ∙ ap (λ k. ids_from k g.next_id) (sym total),
        later_next
            ∙ ap (id_after (length later)) now_next
            ∙ id_after-add n (length later) g.next_id
            ∙ ap (λ k. id_after k g.next_id) (sym total),
      )
