-- ===== src/Core/Subscription/Sizes.antt =====
-- The sizes that the coarse arrays take from a subscription, and the portfolio built over them.
use quant_platform.Base.{
  ℕ, ◌+◌, ◌<◌, ◌≤◌, ◌^◌, ◌≡◌, refl, ap, Option, none, some, List, [], ◌∷◌, All, length,
  length-replicate, arith,
}
use quant_platform.Double.{Double}
use quant_platform.Core.Portfolio.{Portfolio, empty}
use quant_platform.Core.Portfolio.Ledger.{IsSized, InRange}
use quant_platform.Core.Subscription.{
  Symbol, Instrument, MarketSlice, ExchangeSlice, Subscription, find_exchange, find_market, resolve,
  to_u16, max_u16, max_exchange, max_exchange_from, max_market, max_market_in, max_market_from,
  max_symbol, max_symbol_in, max_symbol_from, total_slots,
}
use quant_platform.Core.Subscription.Resolve.{symbols_in, symbols_of, resolve-get_elem?}

-- What keeps the three 16-bit maxima from wrapping to 0: no exchange or market is 65535, and no
-- market lists 65536 symbols.
abbrev pub MarketIsNarrow : MarketSlice → Type 0
MarketIsNarrow mkt = (mkt.market + 1 < 2 ^ 16) × (length mkt.symbols < 2 ^ 16)

abbrev pub IsNarrow : Subscription → Type 0
IsNarrow = All (λ ex. (ex.exchange + 1 < 2 ^ 16) × All MarketIsNarrow ex.markets)

le-max_exchange_from : (a : ℕ) (sub : Subscription) → a ≤ max_exchange_from a sub
unfolding max_exchange_from
le-max_exchange_from a [] = omega arith
le-max_exchange_from a (x ∷ sub) =
    ground (arith, le-max_exchange_from (max_u16 a (to_u16 (x.exchange + 1))) sub)

exchange_lt :
    (a e : ℕ) (sub : Subscription) (ex : ExchangeSlice)
    → IsNarrow sub
    → find_exchange e sub ≡ some ex
    → e < max_exchange_from a sub
unfolding max_exchange_from find_exchange
exchange_lt a e [] ex v h = cc
exchange_lt a e (x ∷ sub) ex v h =
    let a' = max_u16 a (to_u16 (x.exchange + 1)) in
    ground (arith, le-max_exchange_from a' sub, exchange_lt a' e sub ex v.1)

le-max_market_in : (a : ℕ) (ms : List MarketSlice) → a ≤ max_market_in a ms
unfolding max_market_in
le-max_market_in a [] = omega arith
le-max_market_in a (x ∷ ms) =
    ground (arith, le-max_market_in (max_u16 a (to_u16 (x.market + 1))) ms)

market_lt_in :
    (a m : ℕ) (ms : List MarketSlice) (mkt : MarketSlice)
    → All MarketIsNarrow ms
    → find_market m ms ≡ some mkt
    → m < max_market_in a ms
unfolding max_market_in find_market
market_lt_in a m [] mkt v h = cc
market_lt_in a m (x ∷ ms) mkt v h =
    let a' = max_u16 a (to_u16 (x.market + 1)) in
    ground (arith, le-max_market_in a' ms, market_lt_in a' m ms mkt v.1)

le-max_market_from : (a : ℕ) (sub : Subscription) → a ≤ max_market_from a sub
unfolding max_market_from
le-max_market_from a [] = omega arith
le-max_market_from a (x ∷ sub) =
    omega (arith, le-max_market_in a x.markets, le-max_market_from (max_market_in a x.markets) sub)

market_lt :
    (a e m : ℕ) (sub : Subscription) (ex : ExchangeSlice) (mkt : MarketSlice)
    → IsNarrow sub
    → find_exchange e sub ≡ some ex
    → find_market m ex.markets ≡ some mkt
    → m < max_market_from a sub
unfolding max_market_from find_exchange
market_lt a e m [] ex mkt v h k = cc
market_lt a e m (x ∷ sub) ex mkt v h k =
    let a' = max_market_in a x.markets in
    ground (
      arith,
      market_lt_in a m x.markets mkt v.0.1,
      le-max_market_from a' sub,
      market_lt a' e m sub ex mkt v.1,
    )

le-max_symbol_in : (a : ℕ) (ms : List MarketSlice) → a ≤ max_symbol_in a ms
unfolding max_symbol_in
le-max_symbol_in a [] = omega arith
le-max_symbol_in a (x ∷ ms) =
    ground (arith, le-max_symbol_in (max_u16 a (to_u16 (length x.symbols))) ms)

symbols_le_in :
    (a m : ℕ) (ms : List MarketSlice) (mkt : MarketSlice)
    → All MarketIsNarrow ms
    → find_market m ms ≡ some mkt
    → length mkt.symbols ≤ max_symbol_in a ms
unfolding max_symbol_in find_market
symbols_le_in a m [] mkt v h = cc
symbols_le_in a m (x ∷ ms) mkt v h =
    let a' = max_u16 a (to_u16 (length x.symbols)) in
    ground (arith, le-max_symbol_in a' ms, symbols_le_in a' m ms mkt v.1)

le-max_symbol_from : (a : ℕ) (sub : Subscription) → a ≤ max_symbol_from a sub
unfolding max_symbol_from
le-max_symbol_from a [] = omega arith
le-max_symbol_from a (x ∷ sub) =
    omega (arith, le-max_symbol_in a x.markets, le-max_symbol_from (max_symbol_in a x.markets) sub)

symbols_le :
    (a e m : ℕ) (sub : Subscription) (ex : ExchangeSlice) (mkt : MarketSlice)
    → IsNarrow sub
    → find_exchange e sub ≡ some ex
    → find_market m ex.markets ≡ some mkt
    → length mkt.symbols ≤ max_symbol_from a sub
unfolding max_symbol_from find_exchange
symbols_le a e m [] ex mkt v h k = cc
symbols_le a e m (x ∷ sub) ex mkt v h k =
    let a' = max_symbol_in a x.markets in
    ground (
      arith,
      symbols_le_in a m x.markets mkt v.0.1,
      le-max_symbol_from a' sub,
      symbols_le a' e m sub ex mkt v.1,
    )

-- No list of symbols reaches 2^16.
short_in :
    (m : ℕ) (ms : List MarketSlice) → All MarketIsNarrow ms → length (symbols_in m ms) < 2 ^ 16
unfolding find_market
short_in m [] v = omega arith
short_in m (x ∷ ms) v = ground (arith, short_in m ms v.1)

short_of : (sub : Subscription) (e m : ℕ) → IsNarrow sub → length (symbols_of sub e m) < 2 ^ 16
unfolding find_exchange find_market
short_of [] e m v = omega arith
short_of (x ∷ sub) e m v = ground (arith, short_in m x.markets v.0.1, short_of sub e m v.1)

-- Where a market lists a symbol, both slices were found.
market_found :
    (o : Option MarketSlice)
    → 0 < length {A = Symbol} (elim o [ none ↦ [] | some mkt ↦ mkt.symbols ])
    → (mkt : MarketSlice) × (o ≡ some mkt)
      × (elim o [ none ↦ [] | some mkt ↦ mkt.symbols ] ≡ mkt.symbols)
market_found none h = absurd (omega arith)
market_found (some mkt) h = (mkt, refl, refl)

slices_found :
    (m : ℕ) (o : Option ExchangeSlice)
    → 0 < length (symbols_in m (elim o [ none ↦ [] | some ex ↦ ex.markets ]))
    → (ex : ExchangeSlice) × (mkt : MarketSlice) × (o ≡ some ex)
      × (find_market m ex.markets ≡ some mkt)
      × (symbols_in m (elim o [ none ↦ [] | some ex ↦ ex.markets ]) ≡ mkt.symbols)
unfolding find_market
slices_found m none h = absurd (omega arith)
slices_found m (some ex) h =
    let (mkt, found, is) = market_found (find_market m ex.markets) h in (ex, mkt, refl, found, is)

-- Every instrument that a narrow subscription resolves has a slot of its own in the portfolio that is
-- built from the subscription's sizes, and every column of that portfolio reaches it.
pub resolve-InRange {ℓ} :
    {W : Type ℓ} ⦃d : Double W⦄ (sub : Subscription) (e m : ℕ) (s : Symbol) (r : Instrument)
    → IsNarrow sub
    → resolve sub e m s ≡ some r
    → let p : Portfolio W = empty (max_market sub) (max_symbol sub) (total_slots sub) in
      IsSized (max_exchange sub) p × InRange (max_exchange sub) p r.exchange r.market r.symbol
unfolding empty total_slots max_exchange max_market max_symbol
resolve-InRange {W = W} ⦃d⦄ sub e m s r v h =
    let (re, rm, rs, _) = resolve-get_elem? sub e m s r (omega (arith, short_of sub e m v)) h in
    let (ex, mkt, fe, fm, is) = slices_found m (find_exchange e sub) (omega arith) in
    (
      record {
        positions = length-replicate _ _;
        mark_price = length-replicate _ _;
        funding_mark_price = length-replicate _ _;
        fees = length-replicate _ _;
        funding_paid = length-replicate _ _;
        funding_received = length-replicate _ _;
      },
      record {
        exchange_lt = omega (arith, exchange_lt 0 e sub ex v fe);
        market_lt = omega (arith, market_lt 0 e m sub ex mkt v fe fm);
        symbol_lt = omega (arith, symbols_le 0 e m sub ex mkt v fe fm, ap length is);
      },
    )
