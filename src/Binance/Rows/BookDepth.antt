-- ===== src/Binance/Rows/BookDepth.antt =====
-- include/data_source/source/exchange/binance/binance_historical/parsers/book_depth.hpp: a sample of the
-- book from its block of rows. A set of bits is a function from the index of the bit. The remainder and
-- the quotient of a negative number go towards zero, as those of its amount do.
pub mod Bands
pub mod Samples
mod Examples
use quant_platform.Base.{
  ℕ, zero, suc, ◌+◌, ◌-◌, ◌*◌, ◌/◌, ◌%◌, Bool, true, false, ◌&&◌, ◌||◌, not, Option, none, some,
  List, [], ◌∷◌, if◌then◌else◌, ◌==◌, ltb, leb, length, put, ◌>>=◌,
}
use quant_platform.Base.Int.{ℤ, pos, ltb_ℤ, eqb_ℤ, abs_ℤ}
use quant_platform.Double.{Double}
use quant_platform.Core.Types.{Timestamp, DepthBand, BookDepthBands}
use quant_platform.Binance.Csv.{take_decimal}
use quant_platform.Binance.Csv.Civil.{take_datetime}
use quant_platform.Binance.Rows.{is_empty}
use quant_platform.Binance.Stream.Lines.{take_row}

abbrev pub depth_bands : ℕ
depth_bands = 5

abbrev pub inner_band_hundredths : ℕ
inner_band_hundredths = 20

-- The columns of a row.
pub record DepthRow {ℓ} (W : Type ℓ) : Type ℓ where
  pub row_ts : Timestamp
  pub percent : W
  pub depth : W
  pub notional : W

-- The locals of the loop: the bands by their index, the bits of `seen`, and the two bits of `inner`.
pub record Sample {ℓ} (W : Type ℓ) : Type ℓ where
  pub bids : ℕ → DepthBand W
  pub asks : ℕ → DepthBand W
  pub stamp : Timestamp
  pub seen : ℕ → Bool
  pub inner_bid : Bool
  pub inner_ask : Bool
  pub count : ℕ

-- The bit of a whole percent below or above the middle.
abbrev pub bit_of : (below : Bool) → ℕ → ℕ
bit_of below whole = if below then depth_bands - whole else depth_bands + whole

module _ {ℓ} {W : Type ℓ} ⦃d : Double W⦄ where
  pub read_depth_row : List ℕ → Option (DepthRow W)
  read_depth_row row = do
    (row_ts, row) ← take_datetime row
    (percent, row) ← take_decimal row
    (depth, row) ← take_decimal row
    (notional, row) ← take_decimal row
    if is_empty row
        then some
            (record { row_ts = row_ts; percent = percent; depth = depth; notional = notional })
        else none

  abbrev pub hundredths_of : DepthRow W → ℤ
  hundredths_of r = d.llround (d.mul r.percent (d.of_int (pos 100)))

  abbrev pub band_of : DepthRow W → DepthBand W
  band_of r = record { depth = r.depth; notional = r.notional }

  abbrev pub place_band : Sample W → (below : Bool) → (band : ℕ) → DepthBand W → Sample W
  place_band s below band b =
      if below then record s { bids = put s.bids band b } else record s { asks = put s.asks band b }

  -- An inner band may come once, and is not kept.
  pub add_inner : Sample W → (below : Bool) → Option (Sample W)
  add_inner s below =
      if below
      then (if s.inner_bid then none else some (record s { inner_bid = true }))
      else (if s.inner_ask then none else some (record s { inner_ask = true }))

  pub add_whole : Sample W → (below : Bool) → (whole : ℕ) → DepthBand W → Option (Sample W)
  add_whole s below whole b =
      if whole == 0 || ltb depth_bands whole || s.seen (bit_of below whole)
      then none
      else some (
          place_band (record s { seen = put s.seen (bit_of below whole) true }) below (whole - 1) b)

  pub add_band : Sample W → DepthRow W → Option (Sample W)
  unfolding add_inner add_whole
  add_band s r =
      let below = ltb_ℤ (hundredths_of r) (pos 0) in
      let amount = abs_ℤ (hundredths_of r) in
      if amount == inner_band_hundredths
      then add_inner s below
      else if amount % 100 == 0
      then add_whole s below (amount / 100) (band_of r)
      else none

  -- The first row's stamp is the sample's, and all others have it.
  pub add_row : Sample W → DepthRow W → Option (Sample W)
  unfolding add_band
  add_row s r =
      if s.count == 1
      then add_band (record s { stamp = r.row_ts }) r
      else if eqb_ℤ r.row_ts s.stamp
      then add_band s r
      else none

  -- A round of the loop, on a row.
  pub take_depth_row : Sample W → List ℕ → Option (Sample W)
  unfolding add_row read_depth_row
  take_depth_row s row =
      let s' = record s { count = s.count + 1 } in
      if ltb (2 * depth_bands + 2) s'.count then none else (do r ← read_depth_row row; add_row s' r)

  -- The loop over the block; each round takes a byte at least.
  pub read_sample : ℕ → Sample W → List ℕ → Option (Sample W)
  unfolding take_depth_row
  read_sample zero s block = some s
  read_sample (suc fuel) s [] = some s
  read_sample (suc fuel) s (c ∷ block) =
      let l = take_row (c ∷ block) in take_depth_row s l.row >>= λ s'. read_sample fuel s' l.rest

  abbrev pub five : (ℕ → DepthBand W) → List (DepthBand W)
  five f = f 0 ∷ f 1 ∷ f 2 ∷ f 3 ∷ f 4 ∷ []

  -- Both inner bands or neither, and every other band.
  pub finish_sample : Sample W → Option (Timestamp × BookDepthBands W)
  finish_sample s =
      let whole_sample = 2 * depth_bands + (if s.inner_bid then 2 else 0) in
      if (s.inner_bid && s.inner_ask || not s.inner_bid && not s.inner_ask)
        && s.count == whole_sample
      then some (s.stamp, record { bids = five s.bids; asks = five s.asks })
      else none

  abbrev pub empty_sample : Sample W
  empty_sample = record {
    bids = λ i. record { depth = d.nought; notional = d.nought };
    asks = λ i. record { depth = d.nought; notional = d.nought };
    stamp = pos 0;
    seen = λ i. false;
    inner_bid = false;
    inner_ask = false;
    count = 0;
  }

  pub parse_book_depth_group : List ℕ → Option (Timestamp × BookDepthBands W)
  unfolding read_sample finish_sample
  parse_book_depth_group block =
      read_sample (length block) empty_sample block >>= λ s. finish_sample s
