-- ===== src/Binance/Csv.antt =====
-- include/data_source/source/exchange/binance/binance_historical/parsers/csv_field.hpp. A row is its
-- bytes. A function that takes a field returns it with the row past its comma, or nothing where the code
-- returns false; no caller looks at the row or the output after a false.
pub mod Civil
pub mod Digits
use quant_platform.Base.{
  ℕ, zero, suc, ◌+◌, ◌-◌, ◌*◌, ◌^◌, Bool, true, false, ◌&&◌, ◌||◌, not, Option, none, some, List,
  [], ◌∷◌, if◌then◌else◌, ◌==◌, ltb, leb, length,
}
use quant_platform.Base.Int.{ℤ, pos, neg_ℤ, ◌+ℤ◌, ◌*ℤ◌}
use quant_platform.Double.{Double}
use quant_platform.Core.Types.{Timestamp}
use quant_platform.Core.Subscription.{symbol_eq}

abbrev pub comma : ℕ
comma = 44

abbrev pub microsecond_floor : ℕ
microsecond_floor = 100_000_000_000_000

abbrev pub stamp_ceiling : ℕ
stamp_ceiling = 100_000_000_000_000_000

abbrev pub max_mantissa_digits : ℕ
max_mantissa_digits = 18

-- Only stamps that are not negative reach it.
pub to_nanos : ℕ → ℕ
to_nanos stamp = if leb microsecond_floor stamp then stamp * 1_000 else stamp * 1_000_000

abbrev pub is_digit : ℕ → Bool
is_digit c = leb 48 c && leb c 57

pub take_field : List ℕ → List ℕ × List ℕ
take_field [] = ([], [])
take_field (c ∷ row) =
    let (field, rest) = take_field row in if c == comma then ([], row) else (c ∷ field, rest)

pub leading_field : List ℕ → List ℕ
leading_field [] = []
leading_field (c ∷ row) = if c == comma then [] else c ∷ leading_field row

-- The optional sign, and the row after it.
pub take_sign : List ℕ → Bool × List ℕ
take_sign [] = (false, [])
take_sign (c ∷ row) = if c == 45 || c == 43 then (c == 45, row) else (false, c ∷ row)

-- The loop over digits: the value, the count and the rest.
pub scan_digits : (value digits : ℕ) → List ℕ → ℕ × ℕ × List ℕ
scan_digits value digits [] = (value, digits, [])
scan_digits value digits (c ∷ row) =
    let value' = if ltb digits max_mantissa_digits then value * 10 + (c - 48) else value in
    let go = scan_digits value' (digits + 1) row in
    if is_digit c then go else (value, digits, c ∷ row)

-- `p != end && *p != ','`, negated.
abbrev pub ends_field : List ℕ → Bool
ends_field [] = true
ends_field (c ∷ row) = c == comma

-- `remove_prefix` past the comma, if there is one.
abbrev pub past_comma : List ℕ → List ℕ
past_comma [] = []
past_comma (c ∷ row) = row

-- The test that every digit run ends with.
abbrev pub is_run : ℕ → List ℕ → Bool
is_run digits rest = not (digits == 0) && leb digits max_mantissa_digits && ends_field rest

unfoldable pub take_integer : List ℕ → Option (ℤ × List ℕ)
unfolding take_sign scan_digits
take_integer row =
    let (negative, unsigned) = take_sign row in
    let (value, digits, rest) = scan_digits 0 0 unsigned in
    if is_run digits rest
    then some (if negative then neg_ℤ (pos value) else pos value, past_comma rest)
    else none

unfoldable pub take_stamp : List ℕ → Option (Timestamp × List ℕ)
unfolding scan_digits to_nanos
take_stamp row =
    let (raw, digits, rest) = scan_digits 0 0 row in
    if is_run digits rest && ltb 0 raw && ltb raw stamp_ceiling
    then some (pos (to_nanos raw), past_comma rest)
    else none

-- "true" and "True", "false" and "False".
unfoldable pub take_bool : List ℕ → Option (Bool × List ℕ)
unfolding take_field
take_bool row =
    let (field, rest) = take_field row in
    if symbol_eq field (116 ∷ 114 ∷ 117 ∷ 101 ∷ []) || symbol_eq field (84 ∷ 114 ∷ 117 ∷ 101 ∷ [])
    then some (true, rest)
    else if symbol_eq field (102 ∷ 97 ∷ 108 ∷ 115 ∷ 101 ∷ [])
        || symbol_eq field (70 ∷ 97 ∷ 108 ∷ 115 ∷ 101 ∷ [])
    then some (false, rest)
    else none

pub is_header_row : List ℕ → Bool
is_header_row [] = true
is_header_row (c ∷ row) = not (is_digit c)

-- The point and the digits after it: the value, the count, the scale and the rest.
pub scan_fraction : (value digits : ℕ) → List ℕ → ℕ × ℕ × ℕ × List ℕ
unfolding scan_digits
scan_fraction value digits [] = (value, digits, 0, [])
scan_fraction value digits (c ∷ row) =
    let (value', digits', rest) = scan_digits value digits row in
    if c == 46 then (value', digits', digits' - digits, rest) else (value, digits, 0, c ∷ row)

module _ {ℓ} {W : Type ℓ} ⦃d : Double W⦄ where
  pub take_double_slow : List ℕ → Option (W × List ℕ)
  unfolding take_field
  take_double_slow row =
      let (field, rest) = take_field row in
      elim (d.from_chars field) [ none ↦ none | some (v, left) ↦ some (v, rest) ]

  unfoldable pub take_decimal : List ℕ → Option (W × List ℕ)
  unfolding take_sign scan_digits scan_fraction take_double_slow
  take_decimal row =
      let (negative, unsigned) = take_sign row in
      let (whole, count, point) = scan_digits 0 0 unsigned in
      let (mantissa, digits, scale, rest) = scan_fraction whole count point in
      let out = d.div (d.of_int (pos mantissa)) (d.of_int (pos (10 ^ scale))) in
      if is_run digits rest
      then some (if negative then d.neg out else out, past_comma rest)
      else take_double_slow row

  pub take_optional_decimal : List ℕ → Option (W × List ℕ)
  unfolding take_decimal
  take_optional_decimal [] = some (d.nan, [])
  take_optional_decimal (c ∷ row) = if c == comma then some (d.nan, row) else take_decimal (c ∷ row)
