-- ===== src/Binance/Merge/Build.antt =====
-- The streams of a source: build_streams, add, index_streams and plan_with of
-- binance_historical_source.hpp.
use quant_platform.Base.{
  ℕ, ◌≡◌, refl, inl, inr, Bool, true, false, Option, none, some, List, [], ◌∷◌, ◌++◌, if◌then◌else◌,
  ◌==◌, All, All-append, Bool-cases,
}
use quant_platform.Core.Subscription.{
  Symbol, Instrument, MarketSlice, ExchangeSlice, Subscription, find_exchange, resolve,
}
use quant_platform.Core.Types.{Timestamp}
use quant_platform.Binance.Endpoints.{
  BinanceMarket, EndpointKind, klines, mark_price_klines, premium_index_klines, funding_rate,
  metrics, book_depth, agg_trades, Cadence, Endpoint, find_endpoint, supports, market_of_slot,
  fallback_cadence, CadenceSupport, daily_only, monthly_only, both,
}
use quant_platform.Binance.Stream.Files.{Stream, open_stream, stream_prefix, plan}

-- `ExchangeId::Binance`.
abbrev pub binance_exchange : ℕ
binance_exchange = 0

pub record StreamSpec : Type 0 where
  pub kind : EndpointKind
  pub interval : List ℕ

-- `BinanceHistoricalConfig`, without the pool's.
pub record Config : Type 0 where
  pub streams : List StreamSpec
  pub cadence : Cadence
  pub from : Timestamp
  pub to : Timestamp
  pub prefetch_depth : ℕ

-- A stream and the kind of its parser.
pub record HeldStream : Type 0 where
  pub kind : EndpointKind
  pub stream : Stream

-- `P::intervalled` of the parser of a kind.
abbrev is_intervalled : EndpointKind → Bool
is_intervalled klines = true
is_intervalled mark_price_klines = true
is_intervalled premium_index_klines = true
is_intervalled kind = false

-- The cadence that is asked for, or the one that the dataset has.
pub usable_cadence : Endpoint → Cadence → Cadence
unfolding supports fallback_cadence
usable_cadence entry cadence = if supports entry cadence then cadence else fallback_cadence entry

add_found : Config → StreamSpec → Symbol → Instrument → Option Endpoint → List HeldStream
unfolding usable_cadence open_stream
add_found config spec symbol instrument none = []
add_found config spec symbol instrument (some entry) =
    record {
      kind = spec.kind;
      stream =
          open_stream entry (usable_cadence entry config.cadence) symbol
            (if is_intervalled spec.kind then spec.interval else []) instrument
            config.prefetch_depth;
    }
    ∷ []

-- `add_stream` and `add`: nothing for a dataset that the market does not publish.
pub add_stream : Config → BinanceMarket → StreamSpec → Symbol → Instrument → List HeldStream
unfolding add_found find_endpoint
add_stream config path spec symbol instrument =
    add_found config spec symbol instrument (find_endpoint path spec.kind)

module _ (config : Config) where
  add_specs : BinanceMarket → Symbol → Instrument → List StreamSpec → List HeldStream
  unfolding add_stream
  add_specs path symbol instrument [] = []
  add_specs path symbol instrument (spec ∷ specs) =
      add_stream config path spec symbol instrument ++ add_specs path symbol instrument specs

  -- A symbol that does not resolve is skipped.
  add_resolved : BinanceMarket → Symbol → Option Instrument → List HeldStream
  unfolding add_specs
  add_resolved path symbol none = []
  add_resolved path symbol (some instrument) = add_specs path symbol instrument config.streams

  module _ (universe : Subscription) where
    add_symbols : BinanceMarket → (market : ℕ) → List Symbol → List HeldStream
    unfolding add_resolved
    add_symbols path market [] = []
    add_symbols path market (symbol ∷ symbols) =
        add_resolved path symbol (resolve universe binance_exchange market symbol)
        ++ add_symbols path market symbols

    add_market : MarketSlice → Option BinanceMarket → List HeldStream
    unfolding add_symbols
    add_market slice none = []
    add_market slice (some path) = add_symbols path slice.market slice.symbols

    add_markets : List MarketSlice → List HeldStream
    unfolding add_market
    add_markets [] = []
    add_markets (slice ∷ slices) =
        add_market slice (market_of_slot slice.market) ++ add_markets slices

    add_exchange : Option ExchangeSlice → List HeldStream
    unfolding add_markets
    add_exchange none = []
    add_exchange (some slice) = add_markets slice.markets

    -- The streams in the order in which they are added.
    unfoldable pub build_streams : List HeldStream
    unfolding add_exchange
    build_streams = add_exchange (find_exchange binance_exchange universe)

-- The position of the vector that a kind has in `index_streams`.
abbrev kind_rank : EndpointKind → ℕ
kind_rank klines = 0
kind_rank mark_price_klines = 1
kind_rank premium_index_klines = 2
kind_rank funding_rate = 3
kind_rank metrics = 4
kind_rank book_depth = 5
kind_rank agg_trades = 6

-- The vector of one kind, in the order of insertion.
of_rank : ℕ → List HeldStream → List HeldStream
of_rank rank [] = []
of_rank rank (held ∷ helds) =
    let rest = of_rank rank helds in if kind_rank held.kind == rank then held ∷ rest else rest

-- The flat index: one kind after the other.
pub index_streams : List HeldStream → List HeldStream
unfolding of_rank
index_streams helds =
    of_rank 0 helds
    ++ (of_rank 1 helds
        ++ (of_rank 2 helds
            ++ (of_rank 3 helds ++ (of_rank 4 helds ++ (of_rank 5 helds ++ of_rank 6 helds)))))

-- `plan_with` and `plan_range`: every stream plans what the lister has under its prefix.
pub plan_with : Config → (lister : List ℕ → List (List ℕ)) → List HeldStream → List HeldStream
unfolding plan stream_prefix
plan_with config lister [] = []
plan_with config lister (held ∷ helds) =
    record held {
      stream = plan held.stream (lister (stream_prefix held.stream)) config.from config.to;
    }
    ∷ plan_with config lister helds

fallback_supported :
    (entry : Endpoint) (c : CadenceSupport)
    → entry.cadence ≡ c
    → supports entry (fallback_cadence entry) ≡ true
unfolding supports fallback_cadence
fallback_supported entry daily_only e = rw e refl
fallback_supported entry monthly_only e = rw e refl
fallback_supported entry both e = rw e refl

usable_cadence-supported :
    (entry : Endpoint) (cadence : Cadence) → supports entry (usable_cadence entry cadence) ≡ true
unfolding usable_cadence
usable_cadence-supported entry cadence = elim (Bool-cases (supports entry cadence)) [
  | inl t ↦ rw t t
  | inr t ↦ rw t (fallback_supported entry entry.cadence refl)
]

-- What a stream that was built is for.
pub record IsPublished (universe : Subscription) (held : HeldStream) : Type 0 where
  pub path : BinanceMarket
  pub market : ℕ
  pub traded : market_of_slot market ≡ some path
  pub listed : find_endpoint path held.kind ≡ some held.stream.endpoint
  pub available : supports held.stream.endpoint held.stream.cadence ≡ true
  pub resolved :
      resolve universe binance_exchange market held.stream.symbol ≡ some held.stream.instrument

module _ (config : Config) (universe : Subscription) where
  abbrev Published : List HeldStream → Type 0
  Published = All (IsPublished universe)

  add_found-Published :
      (path : BinanceMarket) (market : ℕ) (spec : StreamSpec) (symbol : Symbol)
      (instrument : Instrument) (o : Option Endpoint)
      → market_of_slot market ≡ some path
      → find_endpoint path spec.kind ≡ o
      → resolve universe binance_exchange market symbol ≡ some instrument
      → Published (add_found config spec symbol instrument o)
  unfolding add_found open_stream
  add_found-Published path market spec symbol instrument none m e r = tt
  add_found-Published path market spec symbol instrument (some entry) m e r = (
    record {
      path = path;
      market = market;
      traded = m;
      listed = e;
      available = usable_cadence-supported entry config.cadence;
      resolved = r;
    },
    tt,
  )

  add_specs-Published :
      (path : BinanceMarket) (market : ℕ) (symbol : Symbol) (instrument : Instrument)
      (specs : List StreamSpec)
      → market_of_slot market ≡ some path
      → resolve universe binance_exchange market symbol ≡ some instrument
      → Published (add_specs config path symbol instrument specs)
  unfolding add_specs add_stream
  add_specs-Published path market symbol instrument [] m r = tt
  add_specs-Published path market symbol instrument (spec ∷ specs) m r =
      All-append (IsPublished universe) (add_stream config path spec symbol instrument) _
        (add_found-Published path market spec symbol instrument (find_endpoint path spec.kind) m
          refl r)
        (add_specs-Published path market symbol instrument specs m r)

  add_resolved-Published :
      (path : BinanceMarket) (market : ℕ) (symbol : Symbol) (o : Option Instrument)
      → market_of_slot market ≡ some path
      → resolve universe binance_exchange market symbol ≡ o
      → Published (add_resolved config path symbol o)
  unfolding add_resolved
  add_resolved-Published path market symbol none m r = tt
  add_resolved-Published path market symbol (some instrument) m r =
      add_specs-Published path market symbol instrument config.streams m r

  add_symbols-Published :
      (path : BinanceMarket) (market : ℕ) (symbols : List Symbol)
      → market_of_slot market ≡ some path
      → Published (add_symbols config universe path market symbols)
  unfolding add_symbols
  add_symbols-Published path market [] m = tt
  add_symbols-Published path market (symbol ∷ symbols) m =
      All-append (IsPublished universe)
        (add_resolved config path symbol (resolve universe binance_exchange market symbol)) _
        (add_resolved-Published path market symbol (resolve universe binance_exchange market symbol)
          m refl)
        (add_symbols-Published path market symbols m)

  add_market-Published :
      (slice : MarketSlice) (o : Option BinanceMarket)
      → market_of_slot slice.market ≡ o
      → Published (add_market config universe slice o)
  unfolding add_market
  add_market-Published slice none m = tt
  add_market-Published slice (some path) m = add_symbols-Published path slice.market slice.symbols m

  add_markets-Published :
      (slices : List MarketSlice) → Published (add_markets config universe slices)
  unfolding add_markets
  add_markets-Published [] = tt
  add_markets-Published (slice ∷ slices) =
      All-append (IsPublished universe)
        (add_market config universe slice (market_of_slot slice.market)) _
        (add_market-Published slice (market_of_slot slice.market) refl)
        (add_markets-Published slices)

  add_exchange-Published : (o : Option ExchangeSlice) → Published (add_exchange config universe o)
  unfolding add_exchange
  add_exchange-Published none = tt
  add_exchange-Published (some slice) = add_markets-Published slice.markets

  -- Every stream that a source builds is for a dataset that its market publishes, in a cadence that the
  -- dataset has whatever the configuration asks for, and for an instrument that the subscription
  -- resolves from the stream's own symbol.
  pub build_streams-IsPublished : All (IsPublished universe) (build_streams config universe)
  unfolding build_streams
  build_streams-IsPublished = add_exchange-Published (find_exchange binance_exchange universe)
