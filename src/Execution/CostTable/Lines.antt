-- ===== src/Execution/CostTable/Lines.antt =====
-- `read_cost_rows_csv` of cost_row_reader.hpp: one line, and the loop over the lines.
pub mod Errors
mod Examples
use quant_platform.Base.{
  ℕ, zero, suc, ◌+◌, ◌-◌, ◌*◌, ◌%◌, ◌^◌, ◌≡◌, Bool, true, false, ◌&&◌, ◌||◌, not, Option, none,
  some, List, [], ◌∷◌, ◌++◌, if◌then◌else◌, ◌==◌, ltb, leb, length, get_or,
}
use quant_platform.Base.Int.{ℤ, pos, negsuc}
use quant_platform.Double.{Double}
use quant_platform.Core.Types.{Timestamp}
use quant_platform.Core.Subscription.{Subscription, Instrument, resolve, to_u16}
use quant_platform.Execution.HalfSpread.{CostRow}
use quant_platform.Binance.Csv.{is_digit}
use quant_platform.Binance.Rows.{is_empty}
use quant_platform.Execution.CostTable.{
  ReadError, not_readable, empty_file, missing_columns, too_few_fields, bad_market, bad_week_start,
  missing_rates, bad_impact, Columns, parse_iso_date_to_ns, parse_optional_double, split_csv,
  parse_header, header_complete,
}

-- A value, or what the code throws.
pub data Result {ℓ} (A : Type ℓ) : Type ℓ where
  ok : A → Result A
  err : ReadError → Result A

infixl 5 ◌>>=◌
abbrev pub ◌>>=◌ {ℓ κ} : {A : Type ℓ} {B : Type κ} → Result A → (A → Result B) → Result B
ok a >>= f = f a
err e >>= f = err e

-- What is there, or an error.
abbrev pub or_throw {ℓ} : {A : Type ℓ} → Option A → ReadError → Result A
or_throw none e = err e
or_throw (some a) e = ok a

-- `pop_back` of a carriage return.
pub pop_return : List ℕ → List ℕ
pop_return [] = []
pop_return (c ∷ []) = if c == 13 then [] else c ∷ []
pop_return (c ∷ d ∷ line) = c ∷ pop_return (d ∷ line)

-- The digits at the head: the value and their count.
head_digits : (value count : ℕ) → List ℕ → ℕ × ℕ
head_digits value count [] = (value, count)
head_digits value count (c ∷ text) =
    let go = head_digits (value * 10 + (c - 48)) (count + 1) text in
    if is_digit c then go else (value, count)

-- `std::from_chars` of an `int`, of which only the error is looked at: there has to be a digit, and the
-- value has to fit 32 bits. The cast to 16 bits is made at once.
read_market : Bool → List ℕ → Option ℕ
unfolding head_digits
read_market negative text =
    let (value, count) = head_digits 0 0 text in
    let limit = if negative then 2 ^ 31 + 1 else 2 ^ 31 in
    if count == 0 || leb limit value
    then none
    else some (if negative then (2 ^ 16 - value % 2 ^ 16) % 2 ^ 16 else value % 2 ^ 16)

pub parse_market : List ℕ → Option ℕ
unfolding read_market
parse_market [] = none
parse_market (c ∷ text) = if c == 45 then read_market true text else read_market false (c ∷ text)

-- `std::max` of the six columns.
abbrev max_of : ℕ → ℕ → ℕ
max_of a b = if ltb a b then b else a

abbrev pub max_needed : Columns → ℕ
max_needed c = max_of c.symbol (
    max_of c.market (
      max_of c.week_start
        (max_of c.half_spread_bps (max_of c.impact_bps_per_unit c.taker_fee_bps))))

abbrev pub need : List (List ℕ) → ℕ → List ℕ
need fields i = get_or fields i []

pub enough_fields : Columns → (line_no : ℕ) → List (List ℕ) → Result (List (List ℕ))
enough_fields c line_no fields =
    if leb (length fields) (max_needed c) then err (too_few_fields line_no) else ok fields

module _ {ℓ} {W : Type ℓ} ⦃d : Double W⦄ where
  -- An empty field is 0.0.
  pub parse_impact : List ℕ → Option W
  parse_impact field = if is_empty field then some d.nought else parse_optional_double field

  -- A line whose instrument resolves.
  pub read_row : Columns → (line_no : ℕ) → List (List ℕ) → Instrument → Result (CostRow W)
  unfolding parse_impact
  read_row c line_no fields instr = do
    ws_ns ← or_throw (parse_iso_date_to_ns (need fields c.week_start)) (bad_week_start line_no)
    hs ← or_throw (parse_optional_double (need fields c.half_spread_bps)) (missing_rates line_no)
    tf ← or_throw (parse_optional_double (need fields c.taker_fee_bps)) (missing_rates line_no)
    im ← or_throw (parse_impact (need fields c.impact_bps_per_unit)) (bad_impact line_no)
    ok (record {
      exchange = instr.exchange;
      market = instr.market;
      symbol = instr.symbol;
      week_start_ns = ws_ns;
      half_spread_bps = hs;
      impact_bps_per_unit = im;
      taker_fee_bps = tf;
    })

  -- A line whose instrument does not resolve is skipped.
  pub resolved_row :
      Columns → (line_no : ℕ) → List (List ℕ) → Option Instrument → Result (List (CostRow W))
  unfolding read_row
  resolved_row c line_no fields none = ok []
  resolved_row c line_no fields (some instr) = do
    row ← read_row c line_no fields instr
    ok (row ∷ [])

  pub read_fields :
      Subscription
      → (exchange : ℕ) → Columns
      → (line_no : ℕ) → List (List ℕ)
      → Result (List (CostRow W))
  unfolding resolved_row enough_fields parse_market
  read_fields sub exchange c line_no fields = do
    fields ← enough_fields c line_no fields
    market ← or_throw (parse_market (need fields c.market)) (bad_market line_no)
    resolved_row c line_no fields (resolve sub exchange market (need fields c.symbol))

  -- One line: the rows that it adds.
  pub read_line :
      Subscription → (exchange : ℕ) → Columns → (line_no : ℕ) → List ℕ → Result (List (CostRow W))
  unfolding read_fields pop_return split_csv
  read_line sub exchange c line_no line =
      let line = pop_return line in
      if is_empty line then ok [] else read_fields sub exchange c line_no (split_csv line)

  -- The loop: `line_no` is that of the line before.
  pub read_lines :
      Subscription
      → (exchange : ℕ) → Columns
      → (line_no : ℕ) → List (List ℕ)
      → Result (List (CostRow W))
  unfolding read_line
  read_lines sub exchange c line_no [] = ok []
  read_lines sub exchange c line_no (line ∷ lines) = do
    rows ← read_line sub exchange c (line_no + 1) line
    more ← read_lines sub exchange c (line_no + 1) lines
    ok (rows ++ more)

  pub read_file : Subscription → (exchange : ℕ) → List (List ℕ) → Result (List (CostRow W))
  unfolding read_lines parse_header header_complete
  read_file sub exchange [] = err empty_file
  read_file sub exchange (header ∷ lines) = do
    c ← or_throw (header_complete (parse_header (pop_return header))) missing_columns
    read_lines sub exchange c 1 lines

  -- `none` is a file that cannot be opened.
  pub read_cost_rows_csv :
      Option (List (List ℕ)) → Subscription → (exchange : ℕ) → Result (List (CostRow W))
  unfolding read_file
  read_cost_rows_csv none sub exchange = err not_readable
  read_cost_rows_csv (some lines) sub exchange = read_file sub exchange lines
