-- ===== src/Core/Portfolio/Funding.antt =====
-- `Portfolio::apply_funding`, `apply_mark_price` and the equity.
use quant_platform.Base.{
  ℕ, ◌*◌, ◌<◌, ◌≡◌, refl, ap, ◌∙◌, Bool, true, false, List, [], ◌∷◌, All, length, get_or, set,
  length-set, get_or-set_self, get_or-set, if◌then◌else◌, arith,
}
use quant_platform.Double.{Double, IsIeee, ◌≺◌, std_max, std_min}
use quant_platform.Core.Types.{
  MarketEvent, EventBase, Payload, FundingEvent, trade, kline, mark_price_kline,
}
use quant_platform.Core.Portfolio.{
  Portfolio, index, position, mark, apply_funding, apply_mark_price, funding_paid_of,
  funding_received_of,
}
use quant_platform.Core.Portfolio.Ledger.{IsSized, InRange, same, index-same, index_lt}

module _ {ℓ} {W : Type ℓ} ⦃d : Double W⦄ where
  open d use {nought, add, sub, mul}

  lt_not_lt : IsIeee W → (x y : W) → x ≺ y → d.lt y x ≡ false
  lt_not_lt laws x y h =
      let le = laws.le_of_lt x y h in
      let nums = laws.number_of_le x y le in
      ground (arith, laws.lt-eq-not-le x y nums.0 nums.1, laws.lt-eq-not-le y x nums.1 nums.0)

  -- What a funding event is worth to the holder of a position.
  abbrev pub flow_of : Portfolio W → EventBase → W → W
  flow_of p base rate =
      mul
        (mul (position p base.exchange base.market base.symbol)
          (get_or p.funding_mark_price (index p base.exchange base.market base.symbol) nought))
        rate

  -- A funding event of an instrument in range takes position times mark times rate out of the cash;
  -- a positive amount is booked as paid and a negative one as received, each by its size with the
  -- other book moved by a zero only.
  pub apply_funding_lem :
      IsIeee W
      → (n : ℕ) (p : Portfolio W) (base : EventBase) (f : FundingEvent W) → IsSized n p
      → InRange n p base.exchange base.market base.symbol
      → let q = apply_funding p (record { base = base; payload = Payload.funding f }) in
        let flow = flow_of p base f.funding_rate in
        let paid = funding_paid_of p base.exchange base.market base.symbol in
        let received = funding_received_of p base.exchange base.market base.symbol in
        (q.cash ≡ sub p.cash flow)
        × (q.positions ≡ p.positions)
        × (nought ≺ flow
            → (funding_paid_of q base.exchange base.market base.symbol ≡ add paid flow)
              × (funding_received_of q base.exchange base.market base.symbol ≡ sub received nought))
        × (flow ≺ nought
            → (funding_paid_of q base.exchange base.market base.symbol ≡ add paid nought)
              × (funding_received_of q base.exchange base.market base.symbol ≡ sub received flow))
  unfolding apply_funding position funding_paid_of funding_received_of index
  apply_funding_lem laws n p base f v r =
      let i = index p base.exchange base.market base.symbol in
      let flow = flow_of p base f.funding_rate in
      let room = index_lt n p r in
      let paid =
        get_or-set_self p.funding_paid i
          (add (get_or p.funding_paid i nought) (std_max flow nought)) nought
          (omega (arith, v.funding_paid)) in
      let received =
        get_or-set_self p.funding_received i
          (sub (get_or p.funding_received i nought) (std_min flow nought)) nought
          (omega (arith, v.funding_received)) in
      (
        refl,
        refl,
        λ h.
            let back = lt_not_lt laws nought flow h in
            (
              paid
                  ∙ ap (λ c. add (get_or p.funding_paid i nought) (if c then nought else flow))
                      back,
              received
                  ∙ ap (λ c. sub (get_or p.funding_received i nought) (if c then nought else flow))
                      h,
            ),
        λ h.
            let back = lt_not_lt laws flow nought h in
            (
              paid ∙ ap (λ c. add (get_or p.funding_paid i nought) (if c then nought else flow)) h,
              received
                  ∙ ap (λ c. sub (get_or p.funding_received i nought) (if c then nought else flow))
                      back,
            ),
      )

  -- The prices that an event carries for its instrument: the one that marks the book, and the one
  -- that funding is charged on.
  abbrev pub book_price : Payload W → W → W
  book_price (trade t) old = t.price
  book_price (kline k) old = k.close
  book_price (mark_price_kline k) old = k.close
  book_price _ old = old

  abbrev pub funding_price : Payload W → W → W
  funding_price (mark_price_kline k) old = k.close
  funding_price _ old = old

  abbrev pub funding_mark : Portfolio W → (e m s : ℕ) → W
  funding_mark p e m s = get_or p.funding_mark_price (index p e m s) nought

  -- A write to one instrument's entry of a column, seen at an instrument.
  pub written :
      (n : ℕ) (p : Portfolio W) (base : EventBase) (e m s : ℕ) (column : List W) (price : W)
      → length column ≡ n * p.max_market * p.max_symbol
      → InRange n p base.exchange base.market base.symbol
      → InRange n p e m s
      → get_or
          (set column (index p base.exchange base.market base.symbol) price)
          (index p e m s)
          nought
        ≡ (if same base.exchange base.market base.symbol e m s
            then price
            else get_or column (index p e m s) nought)
  written n p base e m s column price h rb r =
      rw (← index-same n p base.exchange base.market base.symbol e m s rb r) (
        get_or-set column (index p base.exchange base.market base.symbol) (index p e m s) price
          nought (omega (arith, index_lt n p rb)))

  pub if_same : (b : Bool) (x : W) → x ≡ (if b then x else x)
  if_same true x = refl
  if_same false x = refl

  abbrev pub marked : Portfolio W → EventBase → Payload W → Portfolio W
  marked p base payload = apply_mark_price p (record { base = base; payload = payload })

  mark_moves :
      (n : ℕ) (p : Portfolio W) (base : EventBase) (payload : Payload W) (e m s : ℕ)
      → IsSized n p
      → InRange n p base.exchange base.market base.symbol
      → InRange n p e m s
      → let own = same base.exchange base.market base.symbol e m s in
        (mark (marked p base payload) e m s
          ≡ (if own then book_price payload (mark p e m s) else mark p e m s))
        × (funding_mark (marked p base payload) e m s
            ≡ (if own then funding_price payload (funding_mark p e m s) else funding_mark p e m s))
  unfolding apply_mark_price mark index
  mark_moves n p base (trade t) e m s v rb r =
      (written n p base e m s p.mark_price t.price v.mark_price rb r, if_same _ _)
  mark_moves n p base (kline k) e m s v rb r =
      (written n p base e m s p.mark_price k.close v.mark_price rb r, if_same _ _)
  mark_moves n p base (mark_price_kline k) e m s v rb r = (
    written n p base e m s p.mark_price k.close v.mark_price rb r,
    written n p base e m s p.funding_mark_price k.close v.funding_mark_price rb r,
  )
  mark_moves n p base _ e m s v rb r = (if_same _ _, if_same _ _)

  apply_mark_price-IsSized :
      (n : ℕ) (p : Portfolio W) (base : EventBase) (payload : Payload W)
      → IsSized n p
      → IsSized n (marked p base payload)
  unfolding apply_mark_price
  apply_mark_price-IsSized n p base (trade t) v = record {
    positions = v.positions;
    mark_price = length-set p.mark_price _ _ ∙ v.mark_price;
    funding_mark_price = v.funding_mark_price;
    fees = v.fees;
    funding_paid = v.funding_paid;
    funding_received = v.funding_received;
  }
  apply_mark_price-IsSized n p base (kline t) v = record {
    positions = v.positions;
    mark_price = length-set p.mark_price _ _ ∙ v.mark_price;
    funding_mark_price = v.funding_mark_price;
    fees = v.fees;
    funding_paid = v.funding_paid;
    funding_received = v.funding_received;
  }
  apply_mark_price-IsSized n p base (mark_price_kline t) v = record {
    positions = v.positions;
    mark_price = length-set p.mark_price _ _ ∙ v.mark_price;
    funding_mark_price = length-set p.funding_mark_price _ _ ∙ v.funding_mark_price;
    fees = v.fees;
    funding_paid = v.funding_paid;
    funding_received = v.funding_received;
  }
  apply_mark_price-IsSized n p base _ v = v

  keep_range :
      {n : ℕ} {p : Portfolio W} {e m s : ℕ}
      → e < n
      → m < p.max_market
      → s < p.max_symbol
      → InRange n p e m s
  keep_range h k l = record { exchange_lt = h; market_lt = k; symbol_lt = l }

  InRange-marked :
      (n : ℕ) (p : Portfolio W) (base : EventBase) (payload : Payload W) {e m s : ℕ}
      → InRange n p e m s
      → InRange n (marked p base payload) e m s
  unfolding apply_mark_price
  InRange-marked n p base (trade t) r = keep_range r.exchange_lt r.market_lt r.symbol_lt
  InRange-marked n p base _ r = keep_range r.exchange_lt r.market_lt r.symbol_lt

  pub apply_marks : Portfolio W → List (MarketEvent W) → Portfolio W
  apply_marks p [] = p
  apply_marks p (ev ∷ evs) = apply_marks (apply_mark_price p ev) evs

  -- The last price that the events carry for one instrument.
  abbrev pub last_price : (Payload W → W → W) → (e m s : ℕ) → W → List (MarketEvent W) → W
  last_price price e m s acc [] = acc
  last_price price e m s acc (ev ∷ evs) =
      last_price price e m s
        (if same ev.base.exchange ev.base.market ev.base.symbol e m s
          then price ev.payload acc
          else acc)
        evs

  abbrev pub EventsInRange : ℕ → Portfolio W → List (MarketEvent W) → Type 0
  EventsInRange n p = All (λ ev. InRange n p ev.base.exchange ev.base.market ev.base.symbol)

  EventsInRange-marked :
      (n : ℕ) (p : Portfolio W) (base : EventBase) (payload : Payload W)
      (evs : List (MarketEvent W))
      → EventsInRange n p evs
      → EventsInRange n (marked p base payload) evs
  EventsInRange-marked n p base payload [] h = tt
  EventsInRange-marked n p base payload (ev ∷ evs) h =
      (InRange-marked n p base payload h.0, EventsInRange-marked n p base payload evs h.1)

  -- After any events of instruments in range, an instrument is marked at the last price among its own
  -- trades, bars and mark price bars, and funding is charged on its last mark price bar, never on a
  -- trade.
  pub apply_marks_last :
      (n : ℕ) (evs : List (MarketEvent W)) (p : Portfolio W) (e m s : ℕ)
      → IsSized n p
      → EventsInRange n p evs
      → InRange n p e m s
      → (mark (apply_marks p evs) e m s ≡ last_price book_price e m s (mark p e m s) evs)
        × (funding_mark (apply_marks p evs) e m s
            ≡ last_price funding_price e m s (funding_mark p e m s) evs)
  unfolding apply_marks
  apply_marks_last n [] p e m s v h r = (refl, refl)
  apply_marks_last n (ev ∷ evs) p e m s v h r =
      let moves = mark_moves n p ev.base ev.payload e m s v h.0 r in
      let rest =
        apply_marks_last n evs (apply_mark_price p ev) e m s
          (apply_mark_price-IsSized n p ev.base ev.payload v)
          (EventsInRange-marked n p ev.base ev.payload evs h.1)
          (InRange-marked n p ev.base ev.payload r) in
      (
        rest.0 ∙ ap (λ w. last_price book_price e m s w evs) moves.0,
        rest.1 ∙ ap (λ w. last_price funding_price e m s w evs) moves.1,
      )
