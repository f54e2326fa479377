-- ===== src/Binance/Csv/Digits.antt =====
-- Runs of digits: integers and stamps.
use quant_platform.Base.{
  ℕ, suc, ◌+◌, ◌-◌, ◌*◌, ◌<◌, ◌^◌, ◌≤◌, ◌≡◌, ◌∙◌, ◌↔◌, ◌⊎◌, refl, ap, Bool, true, false, ◌&&◌, ◌||◌,
  none, some, List, [], ◌∷◌, ◌++◌, map, All, length, if◌then◌else◌, ◌==◌, ltb, lt→ltb, arith,
}
use quant_platform.Base.Int.{pos, neg_ℤ}
use quant_platform.Binance.Csv.{
  is_digit, scan_digits, ends_field, past_comma, is_run, take_sign, take_integer, take_stamp,
  to_nanos, microsecond_floor, stamp_ceiling,
}

-- The text of some digits, and what they stand for after a value.
abbrev pub text : List ℕ → List ℕ
text ds = map (λ d. d + 48) ds

abbrev pub value_of : ℕ → List ℕ → ℕ
value_of value [] = value
value_of value (d ∷ ds) = value_of (value * 10 + d) ds

abbrev pub AreDigits : List ℕ → Type 0
AreDigits ds = All (λ d. d < 10) ds

scan_end :
    (value digits : ℕ) (rest : List ℕ)
    → ends_field rest ≡ true
    → scan_digits value digits rest ≡ (value, digits, rest)
unfolding scan_digits
scan_end value digits [] h = refl
scan_end value digits (c ∷ rest) h =
    let not_digit : is_digit c ≡ false = ground arith in rw not_digit refl

-- The loop reads all digits up to the end of the field.
scan_digits_lem :
    (ds : List ℕ) (value digits : ℕ) (rest : List ℕ)
    → AreDigits ds
    → digits + length ds ≤ 18
    → ends_field rest ≡ true
    → scan_digits value digits (text ds ++ rest) ≡ (value_of value ds, digits + length ds, rest)
unfolding scan_digits
scan_digits_lem [] value digits rest ok room h =
    let same : digits ≡ digits + 0 = omega arith in
    scan_end value digits rest h ∙ ap (λ n. (value, n, rest)) same
scan_digits_lem (d ∷ ds) value digits rest ok room h =
    let digit : is_digit (d + 48) ≡ true = let small : d < 10 = ok.0 in ground arith in
    let early : ltb digits 18 ≡ true = lt→ltb digits 18 (omega arith) in
    let back : d + 48 - 48 ≡ d = omega arith in
    let count : digits + 1 + length ds ≡ digits + suc (length ds) = omega arith in
    rw (digit, early, back)
      (scan_digits_lem ds (value * 10 + d) (digits + 1) rest ok.1 (omega arith) h
        ∙ ap (λ n. (value_of (value * 10 + d) ds, n, rest)) count)

run_ok :
    (n : ℕ) (rest : List ℕ) → 1 ≤ n → n ≤ 18 → ends_field rest ≡ true → is_run (0 + n) rest ≡ true
run_ok n rest lo hi h = rw h (ground arith)

abbrev pub sign_text : Bool → List ℕ
sign_text true = 45 ∷ []
sign_text false = []

-- A row of an optional minus sign, one to eighteen digits and a comma or the end is read as the number
-- that they stand for, and left past the comma.
pub take_integer_lem :
    (negative : Bool) (ds rest : List ℕ)
    → AreDigits ds
    → 1 ≤ length ds
    → length ds ≤ 18
    → ends_field rest ≡ true
    → take_integer (sign_text negative ++ (text ds ++ rest))
      ≡ some
          (if negative then neg_ℤ (pos (value_of 0 ds)) else pos (value_of 0 ds), past_comma rest)
unfolding take_integer take_sign
take_integer_lem true ds rest ok lo hi h =
    rw (scan_digits_lem ds 0 0 rest ok hi' h) (rw (run_ok (length ds) rest lo hi h) refl)
  where
    hi' : 0 + length ds ≤ 18
    hi' = omega arith
take_integer_lem false [] rest ok lo hi h = absurd (omega arith)
take_integer_lem false (d ∷ ds) rest ok lo hi h =
    let room : 0 + length (d ∷ ds) ≤ 18 = omega arith in
    let unsigned : (d + 48 == 45 || d + 48 == 43) ≡ false = ground arith in
    rw (unsigned, take_sign)
      (rw (scan_digits_lem (d ∷ ds) 0 0 rest ok room h)
        (rw (run_ok (length (d ∷ ds)) rest lo hi h) refl))

-- A stamp of one to eighteen digits within the bounds is scaled to nanoseconds; a stamp of zero or at
-- the ceiling is refused.
pub take_stamp_lem :
    (ds rest : List ℕ)
    → AreDigits ds
    → 1 ≤ length ds
    → length ds ≤ 18
    → ends_field rest ≡ true
    → take_stamp (text ds ++ rest) ≡ (
        if ltb 0 (value_of 0 ds) && ltb (value_of 0 ds) stamp_ceiling
        then some (pos (to_nanos (value_of 0 ds)), past_comma rest)
        else none)
unfolding take_stamp
take_stamp_lem ds rest ok lo hi h =
    let room : 0 + length ds ≤ 18 = omega arith in
    rw (scan_digits_lem ds 0 0 rest ok room h) (rw (run_ok (length ds) rest lo hi h) refl)

-- The stamps under the ceiling whose nanoseconds fit 64 bits with a sign: milliseconds up to
-- 9223372036854 and microseconds up to 9223372036854775. The others overflow.
pub to_nanos_fits :
    (raw : ℕ)
    → raw < stamp_ceiling
    → (to_nanos raw < 2 ^ 63)
      ↔ ((raw ≤ 9_223_372_036_854) ⊎ ((microsecond_floor ≤ raw) × (raw ≤ 9_223_372_036_854_775)))
unfolding to_nanos
to_nanos_fits raw h = ground arith
