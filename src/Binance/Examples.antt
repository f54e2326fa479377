-- ===== src/Binance/Examples.antt =====
-- Rows of the venue's files.
use quant_platform.Base.{ℕ, ◌≡◌, refl, true, some, List, [], ◌∷◌, ◌++◌, arith}
use quant_platform.Base.Int.{negsuc}
use quant_platform.Binance.Csv.{take_integer}
use quant_platform.Binance.Csv.Digits.{text, sign_text, AreDigits, take_integer_lem}

-- "-42,7" and "1700000000000,7".
take_integer_lem_example :
    take_integer (sign_text true ++ (text (4 ∷ 2 ∷ []) ++ (44 ∷ 55 ∷ [])))
    ≡ some (negsuc 41, 55 ∷ [])
take_integer_lem_example =
    take_integer_lem true (4 ∷ 2 ∷ []) (44 ∷ 55 ∷ []) ((omega arith), ((omega arith), tt))
      (omega arith) (omega arith) refl

abbrev stamp_digits : List ℕ
stamp_digits = 1 ∷ 7 ∷ 0 ∷ 0 ∷ 0 ∷ 0 ∷ 0 ∷ 0 ∷ 0 ∷ 0 ∷ 0 ∷ 0 ∷ 0 ∷ []

stamp_digits-AreDigits : AreDigits stamp_digits
stamp_digits-AreDigits = ground arith
