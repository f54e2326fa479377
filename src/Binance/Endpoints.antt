-- ===== src/Binance/Endpoints.antt =====
-- include/data_source/source/exchange/binance/binance_historical/endpoints.hpp. Strings are their bytes.
use quant_platform.Base.{
  ℕ, Bool, true, false, ◌&&◌, Option, none, some, List, [], ◌∷◌, ◌++◌, if◌then◌else◌, get_elem?,
}
use quant_platform.Core.Subscription.{symbol_eq}

pub data BinanceMarket : Type 0 where
  spot usd_m coin_m : BinanceMarket

-- Nothing when the slot is not one of Binance's markets.
unfoldable pub market_of_slot : ℕ → Option BinanceMarket
market_of_slot slot = get_elem? (spot ∷ usd_m ∷ coin_m ∷ []) slot

pub data EndpointKind : Type 0 where
  klines mark_price_klines premium_index_klines funding_rate metrics book_depth agg_trades :
      EndpointKind

pub data Cadence : Type 0 where
  daily monthly : Cadence

pub data CadenceSupport : Type 0 where
  daily_only monthly_only both : CadenceSupport

abbrev pub no_column : ℕ
no_column = 255

pub record Endpoint : Type 0 where
  pub market_path : List ℕ
  pub kind_path : List ℕ
  pub cadence : CadenceSupport
  pub intervalled : Bool
  pub column_count : ℕ
  pub volume_column : ℕ

abbrev pub market_path_of : BinanceMarket → List ℕ
market_path_of spot = 115 ∷ 112 ∷ 111 ∷ 116 ∷ []
market_path_of usd_m = 102 ∷ 117 ∷ 116 ∷ 117 ∷ 114 ∷ 101 ∷ 115 ∷ 47 ∷ 117 ∷ 109 ∷ []
market_path_of coin_m = 102 ∷ 117 ∷ 116 ∷ 117 ∷ 114 ∷ 101 ∷ 115 ∷ 47 ∷ 99 ∷ 109 ∷ []

abbrev pub kind_path_of : EndpointKind → List ℕ
kind_path_of klines = 107 ∷ 108 ∷ 105 ∷ 110 ∷ 101 ∷ 115 ∷ []
kind_path_of mark_price_klines =
    109 ∷ 97 ∷ 114 ∷ 107 ∷ 80 ∷ 114 ∷ 105 ∷ 99 ∷ 101 ∷ 75 ∷ 108 ∷ 105 ∷ 110 ∷ 101 ∷ 115 ∷ []
kind_path_of premium_index_klines =
    112 ∷ 114 ∷ 101 ∷ 109 ∷ 105 ∷ 117 ∷ 109 ∷ 73 ∷ 110 ∷ 100 ∷ 101 ∷ 120 ∷ 75 ∷ 108 ∷ 105 ∷ 110
    ∷ 101 ∷ 115 ∷ []
kind_path_of funding_rate = 102 ∷ 117 ∷ 110 ∷ 100 ∷ 105 ∷ 110 ∷ 103 ∷ 82 ∷ 97 ∷ 116 ∷ 101 ∷ []
kind_path_of metrics = 109 ∷ 101 ∷ 116 ∷ 114 ∷ 105 ∷ 99 ∷ 115 ∷ []
kind_path_of book_depth = 98 ∷ 111 ∷ 111 ∷ 107 ∷ 68 ∷ 101 ∷ 112 ∷ 116 ∷ 104 ∷ []
kind_path_of agg_trades = 97 ∷ 103 ∷ 103 ∷ 84 ∷ 114 ∷ 97 ∷ 100 ∷ 101 ∷ 115 ∷ []

-- A row of the table; its two strings are the ones that the functions above return.
abbrev entry : BinanceMarket → EndpointKind → CadenceSupport → Bool → ℕ → ℕ → Endpoint
entry market kind cadence intervalled column_count volume_column = record {
  market_path = market_path_of market;
  kind_path = kind_path_of kind;
  cadence = cadence;
  intervalled = intervalled;
  column_count = column_count;
  volume_column = volume_column;
}

abbrev pub endpoints : List Endpoint
endpoints =
    entry spot klines both true 12 5
    ∷ entry usd_m klines both true 12 5
    ∷ entry usd_m mark_price_klines both true 12 5
    ∷ entry usd_m premium_index_klines both true 12 5
    ∷ entry usd_m funding_rate monthly_only false 3 0
    ∷ entry coin_m klines both true 12 7
    ∷ entry coin_m mark_price_klines both true 12 5
    ∷ entry coin_m premium_index_klines both true 12 5
    ∷ entry coin_m funding_rate monthly_only false 3 0
    ∷ entry usd_m metrics daily_only false 8 no_column
    ∷ entry coin_m metrics daily_only false 8 no_column
    ∷ entry usd_m book_depth daily_only false 4 no_column
    ∷ entry coin_m book_depth daily_only false 4 no_column
    ∷ entry spot agg_trades both false 8 no_column
    ∷ entry usd_m agg_trades both false 7 no_column
    ∷ entry coin_m agg_trades both false 7 no_column
    ∷ []

pub search : List ℕ → List ℕ → List Endpoint → Option Endpoint
search market_path kind_path [] = none
search market_path kind_path (e ∷ es) =
    let rest = search market_path kind_path es in
    if symbol_eq e.market_path market_path && symbol_eq e.kind_path kind_path then some e else rest

unfoldable pub find_endpoint : BinanceMarket → EndpointKind → Option Endpoint
unfolding search
find_endpoint market kind = search (market_path_of market) (kind_path_of kind) endpoints

unfoldable pub supports : Endpoint → Cadence → Bool
supports e cadence = elim e.cadence [
  | daily_only ↦ elim cadence [ daily ↦ true | monthly ↦ false ]
  | monthly_only ↦ elim cadence [ daily ↦ false | monthly ↦ true ]
  | both ↦ true
]

unfoldable pub fallback_cadence : Endpoint → Cadence
fallback_cadence e = elim e.cadence [ daily_only ↦ daily | _ ↦ monthly ]

unfoldable pub prefix : Endpoint → (symbol interval : List ℕ) → Cadence → List ℕ
prefix e symbol interval cadence =
    (100 ∷ 97 ∷ 116 ∷ 97 ∷ 47 ∷ [])
    ++ e.market_path
    ++ elim cadence [
      | daily ↦ 47 ∷ 100 ∷ 97 ∷ 105 ∷ 108 ∷ 121 ∷ 47 ∷ []
      | monthly ↦ 47 ∷ 109 ∷ 111 ∷ 110 ∷ 116 ∷ 104 ∷ 108 ∷ 121 ∷ 47 ∷ []
    ]
    ++ e.kind_path
    ++ (47 ∷ [])
    ++ symbol
    ++ (47 ∷ [])
    ++ (if e.intervalled then interval ++ (47 ∷ []) else [])

pub file_name : Endpoint → (symbol interval stamp : List ℕ) → List ℕ
file_name e symbol interval stamp =
    symbol
    ++ (45 ∷ [])
    ++ (if e.intervalled then interval else e.kind_path)
    ++ (45 ∷ [])
    ++ stamp
    ++ (46 ∷ 122 ∷ 105 ∷ 112 ∷ [])

abbrev pub data_host : List ℕ
data_host =
    104 ∷ 116 ∷ 116 ∷ 112 ∷ 115 ∷ 58 ∷ 47 ∷ 47 ∷ 100 ∷ 97 ∷ 116 ∷ 97 ∷ 46 ∷ 98 ∷ 105 ∷ 110 ∷ 97
    ∷ 110 ∷ 99 ∷ 101 ∷ 46 ∷ 118 ∷ 105 ∷ 115 ∷ 105 ∷ 111 ∷ 110 ∷ []

pub file_url : Endpoint → (symbol interval : List ℕ) → Cadence → (stamp : List ℕ) → List ℕ
unfolding prefix file_name
file_url e symbol interval cadence stamp =
    data_host ++ (47 ∷ []) ++ prefix e symbol interval cadence ++ file_name e symbol interval stamp
