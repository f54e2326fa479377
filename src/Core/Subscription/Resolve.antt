-- ===== src/Core/Subscription/Resolve.antt =====
-- `resolve` against `add`: what a builder has been told, by exchange and market.
use quant_platform.Base.{
  ℕ, zero, suc, ◌<◌, ◌≤◌, ◌^◌, ◌≡◌, ◌∙◌, refl, sym, ap, ap₂, inl, inr, true, ◌&&◌, Option, none,
  some, List, [], ◌∷◌, ◌++◌, length, if◌then◌else◌, ◌==◌, get_elem?, arith, Bool-cases,
  Option-cases,
}
use native.Mathlib.Nat.{mod-eq_of_lt}
use mathlib.Core.Option.{some-injective}
use quant_platform.Core.Subscription.{
  Symbol, symbol_eq, to_u16, Instrument, MarketSlice, ExchangeSlice, Subscription, find_exchange,
  find_market, symbol_index, ◌>>=◌, resolve, add, ensure_market,
}

symbol_eq_refl : (s : Symbol) → symbol_eq s s ≡ true
symbol_eq_refl [] = refl
symbol_eq_refl (a ∷ s) = ground (arith, symbol_eq_refl s)

symbol_eq→eq : (s t : Symbol) → symbol_eq s t ≡ true → s ≡ t
symbol_eq→eq [] [] h = refl
symbol_eq→eq [] (b ∷ t) h = cc
symbol_eq→eq (a ∷ s) [] h = cc
symbol_eq→eq (a ∷ s) (b ∷ t) h = ground (arith, symbol_eq→eq s t)

-- The index found is one where the symbol stands.
pub symbol_index-get_elem? :
    (s : Symbol) (ts : List Symbol) (i : ℕ) → symbol_index s ts ≡ some i → get_elem? ts i ≡ some s
unfolding symbol_index
symbol_index-get_elem? s [] i h = cc
symbol_index-get_elem? s (t ∷ ts) zero h = ground (arith, symbol_eq→eq t s)
symbol_index-get_elem? s (t ∷ ts) (suc i) h = ground (arith, symbol_index-get_elem? s ts i)

pub symbol_index_lt :
    (s : Symbol) (ts : List Symbol) (i : ℕ) → symbol_index s ts ≡ some i → i < length ts
unfolding symbol_index
symbol_index_lt s [] i h = cc
symbol_index_lt s (t ∷ ts) zero h = omega arith
symbol_index_lt s (t ∷ ts) (suc i) h = ground (arith, symbol_index_lt s ts i)

-- The first `b` where `a` is nothing.
abbrev pub or_else {ℓ} : {A : Type ℓ} → Option A → Option A → Option A
or_else (some a) b = some a
or_else none b = b

symbol_index-append :
    (s t : Symbol) (ts : List Symbol)
    → symbol_index s (ts ++ (t ∷ []))
      ≡ or_else (symbol_index s ts) (if symbol_eq t s then some (length ts) else none)
unfolding symbol_index
symbol_index-append s t [] = ground arith
symbol_index-append s t (u ∷ ts) = ground (arith, symbol_index-append s t ts)

-- The symbols subscribed on one market of one exchange, in order: what a subscription means.
abbrev pub symbols_in : ℕ → List MarketSlice → List Symbol
symbols_in market ms = elim (find_market market ms) [ none ↦ [] | some m ↦ m.symbols ]

abbrev pub markets_of : Subscription → ℕ → List MarketSlice
markets_of sub exchange = elim (find_exchange exchange sub) [ none ↦ [] | some ex ↦ ex.markets ]

abbrev pub symbols_of : Subscription → ℕ → ℕ → List Symbol
symbols_of sub exchange market = symbols_in market (markets_of sub exchange)

symbols_in-ensure_market :
    (m : ℕ) (s : Symbol) (ms : List MarketSlice) (m' : ℕ)
    → symbols_in m' (ensure_market m s ms)
      ≡ (if m == m' then symbols_in m' ms ++ (s ∷ []) else symbols_in m' ms)
unfolding ensure_market find_market
symbols_in-ensure_market m s [] m' = ground arith
symbols_in-ensure_market m s (x ∷ ms) m' = ground (arith, symbols_in-ensure_market m s ms m')

markets_of-add :
    (sub : Subscription) (e m : ℕ) (s : Symbol) (e' : ℕ)
    → markets_of (add sub e m s) e'
      ≡ (if e == e' then ensure_market m s (markets_of sub e') else markets_of sub e')
unfolding add find_exchange
markets_of-add [] e m s e' = ground arith
markets_of-add (x ∷ sub) e m s e' = ground (arith, markets_of-add sub e m s e')

symbols_of-add :
    (sub : Subscription) (e m : ℕ) (s : Symbol) (e' m' : ℕ)
    → symbols_of (add sub e m s) e' m'
      ≡ (if e == e' && m == m' then symbols_of sub e' m' ++ (s ∷ []) else symbols_of sub e' m')
symbols_of-add sub e m s e' m' = elim (Bool-cases (e == e')) [
  | inl h ↦
      ap (symbols_in m') (markets_of-add sub e m s e')
      ∙ rw h (symbols_in-ensure_market m s (markets_of sub e') m')
  | inr h ↦ ap (symbols_in m') (markets_of-add sub e m s e') ∙ rw h refl
]

abbrev pub instrument : ℕ → ℕ → Option ℕ → Option Instrument
instrument e m none = none
instrument e m (some i) = some (record { exchange = e; market = m; symbol = to_u16 i })

resolve_market :
    (e m : ℕ) (s : Symbol) (o : Option MarketSlice)
    → (do
      mkt ← o
      i ← symbol_index s mkt.symbols
      some (record { exchange = e; market = m; symbol = to_u16 i }))
      ≡ instrument e m (symbol_index s (elim o [ none ↦ [] | some mkt ↦ mkt.symbols ]))
unfolding symbol_index
resolve_market e m s none = refl
resolve_market e m s (some mkt) = elim (Option-cases (symbol_index s mkt.symbols)) [
  | inl t ↦ rw t
  | inr (i, t) ↦ rw t
]

resolve_exchange :
    (e m : ℕ) (s : Symbol) (o : Option ExchangeSlice)
    → (do
      ex ← o
      mkt ← find_market m ex.markets
      i ← symbol_index s mkt.symbols
      some (record { exchange = e; market = m; symbol = to_u16 i }))
      ≡ instrument e m (symbol_index s (symbols_in m (elim o [ none ↦ [] | some ex ↦ ex.markets ])))
unfolding symbol_index find_market
resolve_exchange e m s none = refl
resolve_exchange e m s (some ex) = resolve_market e m s (find_market m ex.markets)

pub resolve_lem :
    (sub : Subscription) (e m : ℕ) (s : Symbol)
    → resolve sub e m s ≡ instrument e m (symbol_index s (symbols_of sub e m))
unfolding resolve
resolve_lem sub e m s = resolve_exchange e m s (find_exchange e sub)

-- Adding a symbol changes what is resolved in one way: that symbol, on that exchange and market,
-- gets the next id there if it had none. Every id given before stays, on every market.
pub resolve-add :
    (sub : Subscription) (e m : ℕ) (s : Symbol) (e' m' : ℕ) (s' : Symbol)
    → resolve (add sub e m s) e' m' s'
      ≡ or_else (resolve sub e' m' s') (
          if (e == e' && m == m') && symbol_eq s s'
          then instrument e' m' (some (length (symbols_of sub e' m')))
          else none)
resolve-add sub e m s e' m' s' =
    resolve_lem (add sub e m s) e' m' s'
    ∙ ap (λ ts. instrument e' m' (symbol_index s' ts)) (symbols_of-add sub e m s e' m')
    ∙ rw (resolve_lem sub e' m' s') (elim (Bool-cases (e == e' && m == m')) [
      | inl h ↦
          rw (h, symbol_index-append s' s (symbols_of sub e' m'))
            (elim (Option-cases (symbol_index s' (symbols_of sub e' m'))) [
              | inl q ↦ rw q (elim (Bool-cases (symbol_eq s s')) [ inl g ↦ rw g | inr g ↦ rw g ])
              | inr (i, q) ↦ rw q
            ])
      | inr h ↦ rw h (elim (Option-cases (symbol_index s' (symbols_of sub e' m'))) [
        | inl q ↦ rw q
        | inr (i, q) ↦ rw q
      ])
    ])

-- A symbol that resolves stands at its id in the list of its market.
pub resolve-get_elem? :
    (sub : Subscription) (e m : ℕ) (s : Symbol) (r : Instrument)
    → length (symbols_of sub e m) ≤ 2 ^ 16
    → resolve sub e m s ≡ some r
    → (r.exchange ≡ e)
      × (r.market ≡ m)
      × (r.symbol < length (symbols_of sub e m))
      × (get_elem? (symbols_of sub e m) r.symbol ≡ some s)
resolve-get_elem? sub e m s r room h = elim (Option-cases (symbol_index s (symbols_of sub e m))) [
  | inl q ↦
      let bad : none ≡ some r = sym (ap (instrument e m) q) ∙ sym (resolve_lem sub e m s) ∙ h in
      absurd (cc)
  | inr (i, q) ↦
      let lt = symbol_index_lt s (symbols_of sub e m) i q in
      let fits : to_u16 i ≡ i = mod-eq_of_lt (omega arith) in
      let is : r ≡ record { exchange = e; market = m; symbol = i } =
        sym (some-injective _ _ (sym (ap (instrument e m) q) ∙ sym (resolve_lem sub e m s) ∙ h))
        ∙ ap (λ t. record { exchange = e; market = m; symbol = t }) fits in
      rw is (refl, refl, lt, symbol_index-get_elem? s (symbols_of sub e m) i q)
]

-- Distinct instruments have distinct ids, if no market lists more than 2^16 symbols: what resolves to
-- the same triple was asked for by the same exchange, market and symbol.
pub resolve_injective :
    (sub : Subscription) (e m : ℕ) (s : Symbol) (e' m' : ℕ) (s' : Symbol) (r : Instrument)
    → ((e m : ℕ) → length (symbols_of sub e m) ≤ 2 ^ 16)
    → resolve sub e m s ≡ some r
    → resolve sub e' m' s' ≡ some r
    → (e ≡ e') × (m ≡ m') × (s ≡ s')
resolve_injective sub e m s e' m' s' r room h k =
    let (he, hm, hl, hs) = resolve-get_elem? sub e m s r (room e m) h in
    let (ke, km, kl, ks) = resolve-get_elem? sub e' m' s' r (room e' m') k in
    let es = sym he ∙ ke in
    let ms = sym hm ∙ km in
    (
      es,
      ms,
      some-injective _ _ (sym hs ∙ ap₂ (λ a b. get_elem? (symbols_of sub a b) r.symbol) es ms ∙ ks),
    )
