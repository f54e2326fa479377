-- ===== src/Execution/HalfSpread/Examples.antt =====
-- The cost model with an insertion sort.
use quant_platform.Base.{ℕ, inl, inr, List, [], ◌∷◌, if◌then◌else◌, Bool-cases, arith}
use quant_platform.Base.Int.{pos, ltb_ℤ, ◌≤ℤ◌, ltb_ℤ→lt, ltb_ℤ→ge}
use quant_platform.Double.{Fixed, fixed, fixed_double}
use quant_platform.Core.Types.{Timestamp, Order, buy}
use quant_platform.Core.Portfolio.{Portfolio, index}
use quant_platform.Execution.HalfSpread.{CostRow, build_table, price}
use quant_platform.Execution.HalfSpread.Grouping.{rows_of}
use quant_platform.Execution.HalfSpread.Latest.{
  Among, AscendFrom, IsSorted, IsSort, Prices, price_latest,
}

insert_row : CostRow Fixed → List (CostRow Fixed) → List (CostRow Fixed)
insert_row r [] = r ∷ []
insert_row r (x ∷ rows) =
    if ltb_ℤ r.week_start_ns x.week_start_ns then r ∷ x ∷ rows else x ∷ insert_row r rows

sort_rows : List (CostRow Fixed) → List (CostRow Fixed)
unfolding insert_row
sort_rows [] = []
sort_rows (r ∷ rows) = insert_row r (sort_rows rows)

AscendFrom-insert_row :
    (t : Timestamp) (r : CostRow Fixed) (rows : List (CostRow Fixed))
    → t ≤ℤ r.week_start_ns
    → AscendFrom t rows
    → AscendFrom t (insert_row r rows)
unfolding insert_row
AscendFrom-insert_row t r [] le a = (le, tt)
AscendFrom-insert_row t r (x ∷ rows) le (first, a) =
    elim (Bool-cases (ltb_ℤ r.week_start_ns x.week_start_ns)) [
      | inl u ↦ let lt = ltb_ℤ→lt r.week_start_ns x.week_start_ns u in rw u (le, (omega arith, a))
      | inr u ↦
          let ge = ltb_ℤ→ge r.week_start_ns x.week_start_ns u in
          rw u (first, AscendFrom-insert_row x.week_start_ns r rows ge a)
    ]

insert_row-IsSorted :
    (r : CostRow Fixed) (rows : List (CostRow Fixed)) → IsSorted rows → IsSorted (insert_row r rows)
unfolding insert_row
insert_row-IsSorted r [] s = tt
insert_row-IsSorted r (x ∷ rows) s = elim (Bool-cases (ltb_ℤ r.week_start_ns x.week_start_ns)) [
  | inl u ↦ let lt = ltb_ℤ→lt r.week_start_ns x.week_start_ns u in rw u (omega arith, s)
  | inr u ↦
      let ge = ltb_ℤ→ge r.week_start_ns x.week_start_ns u in
      rw u (AscendFrom-insert_row x.week_start_ns r rows ge s)
]

from_insert :
    (r y : CostRow Fixed) (rows : List (CostRow Fixed))
    → Among y (insert_row r rows)
    → Among y (r ∷ rows)
unfolding insert_row
from_insert r y [] m = m
from_insert r y (x ∷ rows) m = elim (Bool-cases (ltb_ℤ r.week_start_ns x.week_start_ns)) [
  | inl u ↦ rw u at m
  | inr u ↦
      let m' : Among y (x ∷ insert_row r rows) = rw u at m in
      elim m' [
        | inl e ↦ inr (inl e)
        | inr later ↦ elim (from_insert r y rows later) [
          | inl e ↦ inl e
          | inr there ↦ inr (inr there)
        ]
      ]
]

to_insert :
    (r y : CostRow Fixed) (rows : List (CostRow Fixed))
    → Among y (r ∷ rows)
    → Among y (insert_row r rows)
unfolding insert_row
to_insert r y [] m = m
to_insert r y (x ∷ rows) m = elim (Bool-cases (ltb_ℤ r.week_start_ns x.week_start_ns)) [
  | inl u ↦ rw u m
  | inr u ↦ rw u (elim m [
    | inl e ↦ inr (to_insert r y rows (inl e))
    | inr (inl e) ↦ inl e
    | inr (inr there) ↦ inr (to_insert r y rows (inr there))
  ])
]

sort_rows-IsSorted : (rows : List (CostRow Fixed)) → IsSorted (sort_rows rows)
unfolding sort_rows
sort_rows-IsSorted [] = tt
sort_rows-IsSorted (r ∷ rows) = insert_row-IsSorted r (sort_rows rows) (sort_rows-IsSorted rows)

from_sort_rows :
    (rows : List (CostRow Fixed)) (y : CostRow Fixed) → Among y (sort_rows rows) → Among y rows
unfolding sort_rows
from_sort_rows [] y m = m
from_sort_rows (r ∷ rows) y m = elim (from_insert r y (sort_rows rows) m) [
  | inl e ↦ inl e
  | inr there ↦ inr (from_sort_rows rows y there)
]

to_sort_rows :
    (rows : List (CostRow Fixed)) (y : CostRow Fixed) → Among y rows → Among y (sort_rows rows)
unfolding sort_rows
to_sort_rows [] y m = m
to_sort_rows (r ∷ rows) y m =
    to_insert r y (sort_rows rows)
      (elim m [ inl e ↦ inl e | inr there ↦ inr (to_sort_rows rows y there) ])

sort_rows-IsSort : IsSort sort_rows
sort_rows-IsSort = record {
  sorted = sort_rows-IsSorted;
  from_rows = from_sort_rows;
  to_sort = to_sort_rows;
}

abbrev row : (symbol week bps : ℕ) → CostRow Fixed
row symbol week bps = record {
  exchange = 0;
  market = 0;
  symbol = symbol;
  week_start_ns = pos week;
  half_spread_bps = fixed bps;
  impact_bps_per_unit = fixed 0;
  taker_fee_bps = fixed 2;
}

abbrev book : Portfolio Fixed
book = record {
  max_market = 1;
  max_symbol = 2;
  positions = fixed 0 ∷ fixed 0 ∷ [];
  mark_price = fixed 0 ∷ fixed 0 ∷ [];
  funding_mark_price = fixed 0 ∷ fixed 0 ∷ [];
  fees = fixed 0 ∷ fixed 0 ∷ [];
  funding_paid = fixed 0 ∷ fixed 0 ∷ [];
  funding_received = fixed 0 ∷ fixed 0 ∷ [];
  cash = fixed 0;
}

-- Two instruments, out of order.
abbrev table : List (CostRow Fixed)
table = row 1 20 7 ∷ row 0 10 5 ∷ row 1 10 3 ∷ row 1 30 9 ∷ []

abbrev order : Order Fixed
order = record { id = 1; exchange = 0; market = 0; symbol = 1; side = buy; qty = fixed 2 }

price_latest_example :
    Prices
      (rows_of book (index book 0 0 1) table)
      order
      (fixed 100)
      (pos 25)
      (price (build_table sort_rows book table) order (fixed 100) (pos 25))
price_latest_example = price_latest sort_rows book table order (fixed 100) (pos 25) sort_rows-IsSort
