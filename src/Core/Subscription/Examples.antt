-- ===== src/Core/Subscription/Examples.antt =====
-- A subscription to two symbols of one market, and the theorems at it.
use quant_platform.Base.{ℕ, ◌^◌, ◌≤◌, ◌≡◌, refl, some, [], ◌∷◌, length, arith}
use quant_platform.Double.{Fixed, fixed_double}
use quant_platform.Core.Portfolio.{Portfolio, empty}
use quant_platform.Core.Portfolio.Ledger.{IsSized, InRange}
use quant_platform.Core.Subscription.{
  Symbol, Subscription, Instrument, add, ensure_market, resolve, find_exchange, find_market,
  symbol_index, max_exchange, max_market, max_symbol, total_slots,
}
use quant_platform.Core.Subscription.Resolve.{
  resolve-add, resolve_injective, symbols_of, or_else, instrument,
}
use quant_platform.Core.Subscription.Sizes.{resolve-InRange}

abbrev btc : Symbol
btc = 66 ∷ 84 ∷ 67 ∷ []

abbrev eth : Symbol
eth = 69 ∷ 84 ∷ 72 ∷ []

subscribed : Subscription
unfolding add ensure_market
subscribed = add (add [] 0 1 btc) 0 1 eth

abbrev eth_slot : Instrument
eth_slot = record { exchange = 0; market = 1; symbol = 1 }

eth_resolves : resolve subscribed 0 1 eth ≡ some eth_slot
unfolding subscribed resolve find_exchange find_market symbol_index
eth_resolves = refl

btc_is_first : resolve subscribed 0 1 btc ≡ some (record { exchange = 0; market = 1; symbol = 0 })
unfolding subscribed resolve find_exchange find_market symbol_index
btc_is_first = refl

resolve-add_example :
    resolve (add subscribed 0 2 btc) 0 2 btc
    ≡ or_else
        (resolve subscribed 0 2 btc)
        (instrument 0 2 (some (length (symbols_of subscribed 0 2))))
resolve-add_example = resolve-add subscribed 0 2 btc 0 2 btc

short : (e m : ℕ) → length (symbols_of subscribed e m) ≤ 2 ^ 16
unfolding subscribed find_exchange find_market
short e m = ground arith

resolve_injective_example : (◌≡◌ {A = ℕ} 0 0) × (◌≡◌ {A = ℕ} 1 1) × (eth ≡ eth)
resolve_injective_example =
    resolve_injective subscribed 0 1 eth 0 1 eth eth_slot short eth_resolves eth_resolves

resolve-InRange_example :
    let p : Portfolio Fixed =
      empty (max_market subscribed) (max_symbol subscribed) (total_slots subscribed) in
    IsSized (max_exchange subscribed) p × InRange (max_exchange subscribed) p 0 1 1
unfolding subscribed
resolve-InRange_example =
    resolve-InRange {W = Fixed} subscribed 0 1 eth eth_slot
      (((omega arith), (((omega arith), (omega arith)), tt)), tt) eth_resolves
