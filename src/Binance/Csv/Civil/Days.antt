-- ===== src/Binance/Csv/Civil/Days.antt =====
-- `days_from_civil` is the calendar.
use quant_platform.Base.{
  ℕ, zero, suc, ◌+◌, ◌<◌, ◌≤◌, ◌≡◌, ◌∙◌, refl, sym, ap, inl, inr, ltb, ltb→ge, ltb→lt, Bool-cases,
  arith,
}
use quant_platform.Base.Int.{pos, ◌+ℤ◌, ◌-ℤ◌, eq_of_parts, -ℤ_parts, +ℤ_parts}
use quant_platform.Binance.Csv.Civil.{civil_days, days_from_civil, days_in_month, next_date}

epoch : days_from_civil 1970 1 1 ≡ pos 0
unfolding days_from_civil ◌-ℤ◌
epoch = refl

next_day : (y m d : ℕ) → 1 ≤ d → civil_days y m (d + 1) ≡ civil_days y m d + 1
unfolding civil_days
next_day y m d h = ground arith

next_year : (y : ℕ) → civil_days (y + 1) 1 1 ≡ civil_days y 12 31 + 1
unfolding civil_days
next_year y = omega arith

january : (y : ℕ) → civil_days y 2 1 ≡ civil_days y 1 (days_in_month y 1) + 1
unfolding civil_days days_in_month
january y = ground arith

december : (y : ℕ) → days_in_month y 12 ≡ 31
unfolding days_in_month
december y = refl

february : (y : ℕ) → civil_days y 3 1 ≡ civil_days y 2 (days_in_month y 2) + 1
unfolding civil_days days_in_month
february y = ground arith

march : (y : ℕ) → civil_days y 4 1 ≡ civil_days y 3 (days_in_month y 3) + 1
unfolding civil_days days_in_month
march y = ground arith

april : (y : ℕ) → civil_days y 5 1 ≡ civil_days y 4 (days_in_month y 4) + 1
unfolding civil_days days_in_month
april y = ground arith

may : (y : ℕ) → civil_days y 6 1 ≡ civil_days y 5 (days_in_month y 5) + 1
unfolding civil_days days_in_month
may y = ground arith

june : (y : ℕ) → civil_days y 7 1 ≡ civil_days y 6 (days_in_month y 6) + 1
unfolding civil_days days_in_month
june y = ground arith

july : (y : ℕ) → civil_days y 8 1 ≡ civil_days y 7 (days_in_month y 7) + 1
unfolding civil_days days_in_month
july y = ground arith

august : (y : ℕ) → civil_days y 9 1 ≡ civil_days y 8 (days_in_month y 8) + 1
unfolding civil_days days_in_month
august y = ground arith

september : (y : ℕ) → civil_days y 10 1 ≡ civil_days y 9 (days_in_month y 9) + 1
unfolding civil_days days_in_month
september y = ground arith

october : (y : ℕ) → civil_days y 11 1 ≡ civil_days y 10 (days_in_month y 10) + 1
unfolding civil_days days_in_month
october y = ground arith

november : (y : ℕ) → civil_days y 12 1 ≡ civil_days y 11 (days_in_month y 11) + 1
unfolding civil_days days_in_month
november y = ground arith

-- The last day of a month and the first of the next.
next_month :
    (y m : ℕ) → 1 ≤ m → m < 12 → civil_days y (m + 1) 1 ≡ civil_days y m (days_in_month y m) + 1
next_month y (suc zero) lo hi = january y
next_month y (suc (suc zero)) lo hi = february y
next_month y (suc (suc (suc zero))) lo hi = march y
next_month y (suc (suc (suc (suc zero)))) lo hi = april y
next_month y (suc (suc (suc (suc (suc zero))))) lo hi = may y
next_month y (suc (suc (suc (suc (suc (suc zero)))))) lo hi = june y
next_month y (suc (suc (suc (suc (suc (suc (suc zero))))))) lo hi = july y
next_month y (suc (suc (suc (suc (suc (suc (suc (suc zero)))))))) lo hi = august y
next_month y (suc (suc (suc (suc (suc (suc (suc (suc (suc zero))))))))) lo hi = september y
next_month y (suc (suc (suc (suc (suc (suc (suc (suc (suc (suc zero)))))))))) lo hi = october y
next_month y (suc (suc (suc (suc (suc (suc (suc (suc (suc (suc (suc zero))))))))))) lo hi =
    november y
next_month y zero lo hi = absurd (omega arith)
next_month y (suc (suc (suc (suc (suc (suc (suc (suc (suc (suc (suc (suc m)))))))))))) lo hi =
    absurd (omega arith)

last_day : (y m d : ℕ) → d ≤ days_in_month y m → days_in_month y m ≤ d → d ≡ days_in_month y m
last_day y m d le ge = omega arith

next_civil :
    (y m d : ℕ)
    → 1 ≤ m
    → m ≤ 12
    → 1 ≤ d
    → d ≤ days_in_month y m
    → let (y', m', d') = next_date y m d in civil_days y' m' d' ≡ civil_days y m d + 1
next_civil y m d m_pos m_le d_pos d_le = elim (Bool-cases (ltb d (days_in_month y m))) [
  | inl e ↦ rw e (next_day y m d d_pos)
  | inr e ↦
      let last = last_day y m d d_le (ltb→ge d (days_in_month y m) e) in
      elim (Bool-cases (ltb m 12)) [
        | inl f ↦
            rw (e, f)
              (next_month y m m_pos (ltb→lt m 12 f) ∙ ap (λ x. civil_days y m x + 1) (sym last))
        | inr f ↦
            let twelve : m ≡ 12 = omega (arith, ltb→ge m 12 f) in
            let thirty_one : days_in_month y 12 ≡ 31 = december y in
            rw (e, f)
              (next_year y
                ∙ ap (λ x. civil_days y 12 x + 1)
                    (sym (last ∙ ap (days_in_month y) twelve ∙ thirty_one))
                ∙ ap (λ x. civil_days y x d + 1) (sym twelve))
      ]
]

shift : (a b c : ℕ) → a ≡ b + 1 → pos a -ℤ pos c ≡ pos b -ℤ pos c +ℤ pos 1
shift a b c h = eq_of_parts (pos a -ℤ pos c) (pos b -ℤ pos c +ℤ pos 1) (
    omega (
      arith,
      -ℤ_parts (pos a) (pos c),
      -ℤ_parts (pos b) (pos c),
      +ℤ_parts (pos b -ℤ pos c) (pos 1),
    ))

-- For every date of the calendar, leap years included, the next date is one day later.
pub days_from_civil-next_date :
    (y m d : ℕ)
    → 1 ≤ m
    → m ≤ 12
    → 1 ≤ d
    → d ≤ days_in_month y m
    → let (y', m', d') = next_date y m d in
      days_from_civil y' m' d' ≡ days_from_civil y m d +ℤ pos 1
unfolding days_from_civil
days_from_civil-next_date y m d m_pos m_le d_pos d_le =
    let (y', m', d') = next_date y m d in
    shift (civil_days y' m' d') (civil_days y m d) (719_468 + 146_097)
      (next_civil y m d m_pos m_le d_pos d_le)
