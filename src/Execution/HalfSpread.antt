-- ===== src/Execution/HalfSpread.antt =====
-- include/execution/sim/matcher/cost_aware/cost_model/half_spread_linear: cost_row.hpp and
-- half_spread_linear.hpp. The counts are of fewer rows than 2 ^ 32. `std::sort` is a parameter, and
-- `std::upper_bound` is the first position that its test takes; the bound of an empty series is its
-- start.
pub mod Grouping
pub mod Latest
mod Examples
use quant_platform.Base.{
  ℕ, zero, suc, ◌+◌, ◌-◌, Bool, true, false, Option, none, some, List, [], ◌∷◌, if◌then◌else◌, ◌==◌,
  length, get_elem?, put,
}
use quant_platform.Base.Int.{ℤ, pos, ltb_ℤ}
use quant_platform.Double.{Double}
use quant_platform.Core.Types.{Timestamp, Order, Side, buy, sell}
use quant_platform.Core.Portfolio.{Portfolio, index}
use quant_platform.Execution.Matcher.CostAware.{FillPricing, CostModel}

pub record CostRow {ℓ} (W : Type ℓ) : Type ℓ where
  pub exchange : ℕ
  pub market : ℕ
  pub symbol : ℕ
  pub week_start_ns : Timestamp
  pub half_spread_bps : W
  pub impact_bps_per_unit : W
  pub taker_fee_bps : W

pub record HalfSpreadLinear {ℓ} (W : Type ℓ) : Type ℓ where
  pub book : Portfolio W
  pub row_count : ℕ
  pub by_instrument : ℕ → List (CostRow W)

-- `running` before instrument `i`.
pub offset : (ℕ → ℕ) → ℕ → ℕ
offset counts zero = 0
offset counts (suc i) = offset counts i + counts i

module _ {ℓ} {W : Type ℓ} where
  -- `book.index` of a row.
  abbrev pub row_slot : Portfolio W → CostRow W → ℕ
  row_slot book r = index book r.exchange r.market r.symbol

  -- The loop that counts the rows of each instrument.
  pub count_rows : Portfolio W → (ℕ → ℕ) → List (CostRow W) → ℕ → ℕ
  count_rows book counts [] = counts
  count_rows book counts (r ∷ table) =
      count_rows book (put counts (row_slot book r) (counts (row_slot book r) + 1)) table

  -- The loop that writes each row to the next place of its instrument.
  pub write_rows :
      Portfolio W
      → (offsets : ℕ → ℕ) → (rows : ℕ → CostRow W) → (writes : ℕ → ℕ) → List (CostRow W)
      → ℕ
      → CostRow W
  write_rows book offsets rows writes [] = rows
  write_rows book offsets rows writes (r ∷ table) =
      let s = row_slot book r in
      write_rows book offsets (put rows (offsets s + writes s) r) (put writes s (writes s + 1))
        table

  -- `count` rows from `first` on.
  pub segment : (rows : ℕ → CostRow W) → (first count : ℕ) → List (CostRow W)
  segment rows first zero = []
  segment rows first (suc count) = rows first ∷ segment rows (first + 1) count

  -- `std::upper_bound` over the stamps.
  pub upper_bound : Timestamp → List (CostRow W) → ℕ
  upper_bound ts [] = 0
  upper_bound ts (r ∷ rows) =
      let rest = upper_bound ts rows in if ltb_ℤ ts r.week_start_ns then 0 else rest + 1

  -- The row before the bound.
  row_before : ℕ → List (CostRow W) → Option (CostRow W)
  row_before zero series = none
  row_before (suc n) series = get_elem? series n

module _ {ℓ} {W : Type ℓ} ⦃d : Double W⦄ where
  -- What `resize` fills in.
  abbrev blank_row : CostRow W
  blank_row = record {
    exchange = 0;
    market = 0;
    symbol = 0;
    week_start_ns = pos 0;
    half_spread_bps = d.nought;
    impact_bps_per_unit = d.nought;
    taker_fee_bps = d.nought;
  }

  -- The constructor; `sort` is `std::sort` by the start of the week.
  pub build_table :
      (sort : List (CostRow W) → List (CostRow W))
      → Portfolio W
      → List (CostRow W)
      → HalfSpreadLinear W
  unfolding count_rows offset write_rows segment
  build_table sort book table =
      let counts = count_rows book (λ i. 0) table in
      let rows = write_rows book (offset counts) (λ i. blank_row) (λ i. 0) table in
      record {
        book = book;
        row_count = length table;
        by_instrument = λ i. sort (segment rows (offset counts i) (counts i));
      }

  -- The price and the fee by one row.
  pub price_by : CostRow W → Order W → W → FillPricing W
  price_by row o ref =
      let bps = d.add row.half_spread_bps (d.mul row.impact_bps_per_unit o.qty) in
      let one = d.of_int (pos 1) in
      let sign : W = elim o.side [ buy ↦ one | sell ↦ d.neg one ] in
      let scale = d.of_int (pos 10_000) in
      let fp = d.mul ref (d.add one (d.div (d.mul sign bps) scale)) in
      record { fill_price = fp; fee = d.div (d.mul (d.mul fp o.qty) row.taker_fee_bps) scale }

  priced_by : Option (CostRow W) → Order W → W → Option (FillPricing W)
  unfolding price_by
  priced_by none o ref = none
  priced_by (some row) o ref = some (price_by row o ref)

  pub price : HalfSpreadLinear W → Order W → W → Timestamp → Option (FillPricing W)
  unfolding upper_bound row_before priced_by
  price m o ref ts =
      let series = m.by_instrument (index m.book o.exchange o.market o.symbol) in
      priced_by (row_before (upper_bound ts series) series) o ref

  -- It is a cost model of the matcher.
  abbrev pub half_spread_linear : CostModel W (HalfSpreadLinear W)
  half_spread_linear = record { price = price }
