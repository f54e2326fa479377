-- ===== src/Binance/Rows.antt =====
-- include/data_source/source/exchange/binance/binance_historical/parsers: one row of each dataset but
-- bookDepth, which BookDepth has. A parser returns the stamp and the event, or nothing where the code
-- returns false and leaves both outputs alone.
pub mod Trades
pub mod BookDepth
mod Examples
use quant_platform.Base.{
  ℕ, ◌+◌, ◌-◌, ◌%◌, ◌^◌, Bool, true, false, ◌||◌, not, Option, none, some, List, [], ◌∷◌,
  if◌then◌else◌, ◌==◌, ltb, leb, ◌>>=◌,
}
use quant_platform.Base.Int.{ℤ, pos, negsuc, ltb_ℤ, leb_ℤ, pos_part}
use quant_platform.Double.{Double}
use quant_platform.Core.Types.{
  Timestamp, TradeEvent, FundingEvent, KlineEvent, MarkPriceKlineEvent, PremiumIndexKlineEvent,
  OpenInterestEvent, buy, sell,
}
use quant_platform.Binance.Endpoints.{Endpoint}
use quant_platform.Binance.Csv.{
  take_integer, take_decimal, take_optional_decimal, take_stamp, take_bool, take_field,
}
use quant_platform.Binance.Csv.Civil.{take_datetime}

abbrev pub is_empty : List ℕ → Bool
is_empty [] = true
is_empty (c ∷ row) = false

-- The eighth column of a row, where the endpoint has one.
pub take_best_match : Endpoint → List ℕ → Option (List ℕ)
take_best_match entry row =
    if ltb 7 entry.column_count
    then elim (take_bool row) [ none ↦ none | some (b, rest) ↦ some rest ]
    else some row

-- `static_cast<std::int32_t>` of a positive number.
abbrev pub to_int32 : ℕ → ℤ
to_int32 n = let low = n % 2 ^ 32 in if ltb low (2 ^ 31) then pos low else negsuc (2 ^ 32 - low - 1)

-- The locals of `parse_agg_trades_row` once all columns are read, and what is left of the row.
pub record TradeFields {ℓ} (W : Type ℓ) : Type ℓ where
  pub agg_id : ℤ
  pub price : W
  pub qty : W
  pub first_id : ℤ
  pub last_id : ℤ
  pub stamp : Timestamp
  pub buyer_maker : Bool
  pub rest : List ℕ

module _ {ℓ} {W : Type ℓ} ⦃d : Double W⦄ where
  open d use {nought, le}

  pub read_trade_fields : Endpoint → List ℕ → Option (TradeFields W)
  unfolding take_best_match
  read_trade_fields entry row = do
    (agg_id, row) ← take_integer row
    (price, row) ← take_decimal row
    (qty, row) ← take_decimal row
    (first_id, row) ← take_integer row
    (last_id, row) ← take_integer row
    (stamp, row) ← take_stamp row
    (buyer_maker, row) ← take_bool row
    row ← take_best_match entry row
    some (record {
      agg_id = agg_id;
      price = price;
      qty = qty;
      first_id = first_id;
      last_id = last_id;
      stamp = stamp;
      buyer_maker = buyer_maker;
      rest = row;
    })

  -- The tests on the row's end and on the values.
  pub trade_is_bad : TradeFields W → Bool
  trade_is_bad f =
      not (is_empty f.rest)
      || (le f.price nought
          || le f.qty nought
          || ltb_ℤ f.agg_id (pos 0)
          || ltb_ℤ f.first_id (pos 0)
          || ltb_ℤ f.last_id f.first_id)

  -- The casts to unsigned are of numbers that are not negative.
  abbrev pub trade_event : TradeFields W → TradeEvent W
  trade_event f = record {
    id = pos_part f.agg_id;
    first_trade_id = pos_part f.first_id;
    last_trade_id = pos_part f.last_id;
    price = f.price;
    qty = f.qty;
    side = if f.buyer_maker then sell else buy;
  }

  pub parse_agg_trades_row : Endpoint → List ℕ → Option (Timestamp × TradeEvent W)
  unfolding read_trade_fields trade_is_bad
  parse_agg_trades_row entry row = do
    f ← read_trade_fields entry row
    if trade_is_bad f then none else some (f.stamp, trade_event f)

  pub parse_funding_row : List ℕ → Option (Timestamp × FundingEvent W)
  parse_funding_row row = do
    (calc_time, row) ← take_stamp row
    (interval_hours, row) ← take_integer row
    (rate, row) ← take_decimal row
    if leb_ℤ interval_hours (pos 0)
        then none
        else some (
          calc_time,
          record { funding_rate = rate; interval_hours = to_int32 (pos_part interval_hours) },
        )

-- The symbol's column: it has to be there, and is not kept.
pub skip_symbol : List ℕ → Option (List ℕ)
skip_symbol row = let (field, rest) = take_field row in if is_empty field then none else some rest

-- The columns that the bars share.
pub record KlineRow {ℓ} (W : Type ℓ) : Type ℓ where
  pub open_time : Timestamp
  pub close_time : Timestamp
  pub open_price : W
  pub high : W
  pub low : W
  pub close : W
  pub volume : W

module _ {ℓ} {W : Type ℓ} ⦃d : Double W⦄ where
  -- The volume, from column 7 where the endpoint says so.
  pub base_volume : Endpoint → W → List ℕ → Option W
  base_volume entry volume row =
      if entry.volume_column == 7
      then elim (take_decimal {W = W} row) [ none ↦ none | some (v, rest) ↦ some v ]
      else some volume

  pub read_kline_row : Endpoint → List ℕ → Option (KlineRow W)
  unfolding base_volume
  read_kline_row entry row = do
    (open_time, row) ← take_stamp row
    (open_price, row) ← take_decimal row
    (high, row) ← take_decimal row
    (low, row) ← take_decimal row
    (close, row) ← take_decimal row
    (volume, row) ← take_decimal row
    (close_time, row) ← take_stamp row
    volume ← base_volume entry volume row
    some (record {
      open_time = open_time;
      close_time = close_time;
      open_price = open_price;
      high = high;
      low = low;
      close = close;
      volume = volume;
    })

  pub parse_klines_row : Endpoint → List ℕ → Option (Timestamp × KlineEvent W)
  unfolding read_kline_row
  parse_klines_row entry row = do
    fields ← read_kline_row entry row
    some (
      fields.close_time,
      record {
        open_time = fields.open_time;
        open_price = fields.open_price;
        high = fields.high;
        low = fields.low;
        close = fields.close;
        volume = fields.volume;
      },
    )

  pub parse_mark_klines_row : Endpoint → List ℕ → Option (Timestamp × MarkPriceKlineEvent W)
  unfolding read_kline_row
  parse_mark_klines_row entry row = do
    fields ← read_kline_row entry row
    some (
      fields.close_time,
      record {
        open_time = fields.open_time;
        open_price = fields.open_price;
        high = fields.high;
        low = fields.low;
        close = fields.close;
      },
    )

  pub parse_premium_klines_row : Endpoint → List ℕ → Option (Timestamp × PremiumIndexKlineEvent W)
  unfolding read_kline_row
  parse_premium_klines_row entry row = do
    fields ← read_kline_row entry row
    some (
      fields.close_time,
      record {
        open_time = fields.open_time;
        open_price = fields.open_price;
        high = fields.high;
        low = fields.low;
        close = fields.close;
      },
    )

  pub parse_metrics_row : List ℕ → Option (Timestamp × OpenInterestEvent W)
  unfolding skip_symbol
  parse_metrics_row row = do
    (create_time, row) ← take_datetime row
    row ← skip_symbol row
    (open_interest, row) ← take_decimal row
    (open_interest_value, row) ← take_decimal row
    (toptrader_account, row) ← take_optional_decimal row
    (toptrader_position, row) ← take_optional_decimal row
    (account_long_short, row) ← take_optional_decimal row
    (taker_long_short, row) ← take_optional_decimal row
    some (
      create_time,
      record {
        open_interest = open_interest;
        open_interest_value = open_interest_value;
        toptrader_account_ratio = toptrader_account;
        toptrader_position_ratio = toptrader_position;
        account_long_short_ratio = account_long_short;
        taker_long_short_volume_ratio = taker_long_short;
      },
    )
