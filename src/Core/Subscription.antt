-- ===== src/Core/Subscription.antt =====
-- include/core/subscription.hpp and exchange.hpp. Symbols are byte strings; an exchange id is its
-- 16-bit slot. The vectors keep the order of insertion, and the reference that `ensure_*` returns is
-- a change in place of the first entry that matches.
pub mod Resolve
pub mod Sizes
mod Examples
use quant_platform.Base.{
  ℕ, zero, suc, ◌+◌, ◌*◌, ◌%◌, ◌^◌, Bool, true, false, ◌&&◌, Option, none, some, List, [], ◌∷◌,
  ◌++◌, length, if◌then◌else◌, ◌>>=◌, ◌==◌, ltb,
}

abbrev pub Symbol : Type 0
Symbol = List ℕ

abbrev pub symbol_eq : Symbol → Symbol → Bool
symbol_eq [] [] = true
symbol_eq (a ∷ xs) (b ∷ ys) = a == b && symbol_eq xs ys
symbol_eq _ _ = false

-- `static_cast<std::uint16_t>`.
abbrev pub to_u16 : ℕ → ℕ
to_u16 n = n % 2 ^ 16

pub record Instrument : Type 0 where
  pub exchange : ℕ
  pub market : ℕ
  pub symbol : ℕ

pub record MarketSlice : Type 0 where
  pub market : ℕ
  pub symbols : List Symbol

pub record ExchangeSlice : Type 0 where
  pub exchange : ℕ
  pub markets : List MarketSlice

-- `Subscription` and `SubscriptionBuilder` hold the same vector.
abbrev pub Subscription : Type 0
Subscription = List ExchangeSlice

unfoldable pub find_exchange : ℕ → Subscription → Option ExchangeSlice
find_exchange slot [] = none
find_exchange slot (ex ∷ exs) = if ex.exchange == slot then some ex else find_exchange slot exs

unfoldable pub find_market : ℕ → List MarketSlice → Option MarketSlice
find_market market [] = none
find_market market (m ∷ ms) = if m.market == market then some m else find_market market ms

-- `std::find` with the distance from the start.
unfoldable pub symbol_index : Symbol → List Symbol → Option ℕ
symbol_index s [] = none
symbol_index s (t ∷ ts) =
    let rest = symbol_index s ts in
    if symbol_eq t s then some 0 else elim rest [ none ↦ none | some i ↦ some (suc i) ]

unfoldable pub resolve : Subscription → ℕ → ℕ → Symbol → Option Instrument
resolve sub exchange market symbol = do
  ex ← find_exchange exchange sub
  mkt ← find_market market ex.markets
  i ← symbol_index symbol mkt.symbols
  some (record { exchange = exchange; market = market; symbol = to_u16 i })

abbrev max_u16 : ℕ → ℕ → ℕ
max_u16 m n = if ltb m n then n else m

max_exchange_from : ℕ → Subscription → ℕ
max_exchange_from m [] = m
max_exchange_from m (ex ∷ exs) = max_exchange_from (max_u16 m (to_u16 (ex.exchange + 1))) exs

pub max_exchange : Subscription → ℕ
unfolding max_exchange_from
max_exchange sub = max_exchange_from 0 sub

max_market_in : ℕ → List MarketSlice → ℕ
max_market_in m [] = m
max_market_in m (mkt ∷ ms) = max_market_in (max_u16 m (to_u16 (mkt.market + 1))) ms

max_market_from : ℕ → Subscription → ℕ
unfolding max_market_in
max_market_from m [] = m
max_market_from m (ex ∷ exs) = max_market_from (max_market_in m ex.markets) exs

pub max_market : Subscription → ℕ
unfolding max_market_from
max_market sub = max_market_from 0 sub

max_symbol_in : ℕ → List MarketSlice → ℕ
max_symbol_in m [] = m
max_symbol_in m (mkt ∷ ms) = max_symbol_in (max_u16 m (to_u16 (length mkt.symbols))) ms

max_symbol_from : ℕ → Subscription → ℕ
unfolding max_symbol_in
max_symbol_from m [] = m
max_symbol_from m (ex ∷ exs) = max_symbol_from (max_symbol_in m ex.markets) exs

pub max_symbol : Subscription → ℕ
unfolding max_symbol_from
max_symbol sub = max_symbol_from 0 sub

-- The product of three 16-bit numbers fits a `size_t`.
pub total_slots : Subscription → ℕ
total_slots sub = max_exchange sub * max_market sub * max_symbol sub

-- `ensure_market` with the change that its caller makes to the slice.
ensure_market : ℕ → Symbol → List MarketSlice → List MarketSlice
ensure_market market symbol [] = record { market = market; symbols = symbol ∷ [] } ∷ []
ensure_market market symbol (m ∷ ms) =
    if m.market == market
    then record m { symbols = m.symbols ++ (symbol ∷ []) } ∷ ms
    else m ∷ ensure_market market symbol ms

-- `SubscriptionBuilder::add`: the recursion is `ensure_exchange` with what `add` does to its slice.
pub add : Subscription → ℕ → ℕ → Symbol → Subscription
unfolding ensure_market
add [] exchange market symbol =
    record { exchange = exchange; markets = ensure_market market symbol [] } ∷ []
add (ex ∷ exs) exchange market symbol =
    if ex.exchange == exchange
    then record ex { markets = ensure_market market symbol ex.markets } ∷ exs
    else ex ∷ add exs exchange market symbol
