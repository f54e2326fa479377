-- ===== src/Execution/HalfSpread/Latest.antt =====
-- The price is by the latest row of the instrument that has begun.
use quant_platform.Base.{
  ℕ, zero, suc, ◌+◌, ◌≤◌, ◌≡◌, ◌⊎◌, refl, sym, subst, inl, inr, Option, none, some, List, [], ◌∷◌,
  get_elem?-some, length, Bool-cases, arith,
}
use quant_platform.Base.Int.{ltb_ℤ, ◌≤ℤ◌, ◌<ℤ◌, ltb_ℤ→lt, ltb_ℤ→ge}
use quant_platform.Double.{Double}
use quant_platform.Core.Types.{Timestamp, Order}
use quant_platform.Core.Portfolio.{Portfolio, index}
use quant_platform.Execution.Matcher.CostAware.{FillPricing}
use quant_platform.Execution.HalfSpread.{
  CostRow, upper_bound, row_before, priced_by, blank_row, build_table, price_by, price,
}
use quant_platform.Execution.HalfSpread.Grouping.{rows_of, grouped_rows}

module _ {ℓ} {W : Type ℓ} where
  -- A row stands in a list.
  abbrev pub Among : CostRow W → List (CostRow W) → Type ℓ
  Among r [] = Unit {ℓ} × ⊥
  Among r (x ∷ xs) = (r ≡ x) ⊎ Among r xs

  -- The weeks ascend.
  abbrev pub AscendFrom : Timestamp → List (CostRow W) → Type 0
  AscendFrom t [] = Unit
  AscendFrom t (r ∷ rows) = (t ≤ℤ r.week_start_ns) × AscendFrom r.week_start_ns rows

  abbrev pub IsSorted : List (CostRow W) → Type 0
  IsSorted [] = Unit
  IsSorted (r ∷ rows) = AscendFrom r.week_start_ns rows

  -- The documented effect of `std::sort`: the same rows, in the order of their weeks.
  pub record IsSort (sort : List (CostRow W) → List (CostRow W)) : Type ℓ where
    pub sorted : (rows : List (CostRow W)) → IsSorted (sort rows)
    pub from_rows : (rows : List (CostRow W)) (r : CostRow W) → Among r (sort rows) → Among r rows
    pub to_sort : (rows : List (CostRow W)) (r : CostRow W) → Among r rows → Among r (sort rows)

  -- No row before the bound begins after `ts`, and no row from it on has begun.
  all_later :
      (t ts : Timestamp) (rows : List (CostRow W)) (r : CostRow W)
      → ts <ℤ t
      → AscendFrom t rows
      → Among r rows
      → ts <ℤ r.week_start_ns
  all_later t ts [] r lt a m = absurd m.1
  all_later t ts (x ∷ rows) r lt (le, a) (inl e) =
      subst (λ y. ts <ℤ y.week_start_ns) (sym e) (omega arith)
  all_later t ts (x ∷ rows) r lt (le, a) (inr m) =
      all_later x.week_start_ns ts rows r (omega arith) a m

  -- What stands at the bound's left: nothing where no row has begun, and else the latest that has.
  abbrev pub IsLatest : Timestamp → List (CostRow W) → Option (CostRow W) → Type ℓ
  IsLatest ts rows none = (r : CostRow W) → Among r rows → ts <ℤ r.week_start_ns
  IsLatest ts rows (some best) =
      Among best rows
      × (best.week_start_ns ≤ℤ ts)
      × ((r : CostRow W)
          → Among r rows
          → r.week_start_ns ≤ℤ ts
          → r.week_start_ns ≤ℤ best.week_start_ns)

  IsLatest-cons_some :
      (x : CostRow W) (rows : List (CostRow W)) (ts : Timestamp) (best : CostRow W)
      → AscendFrom x.week_start_ns rows
      → IsLatest ts rows (some best)
      → IsLatest ts (x ∷ rows) (some best)
  IsLatest-cons_some x rows ts best a (there, due, latest) = (
    inr there,
    due,
    λ r m began. elim m [
      | inl e ↦
          subst (λ y. y.week_start_ns ≤ℤ best.week_start_ns) (sym e)
            (ascends x.week_start_ns rows best a there)
      | inr in_rest ↦ latest r in_rest began
    ],
  )
    where
      ascends :
          (t : Timestamp) (rows : List (CostRow W)) (r : CostRow W)
          → AscendFrom t rows
          → Among r rows
          → t ≤ℤ r.week_start_ns
      ascends t [] r a m = absurd m.1
      ascends t (y ∷ rows) r (le, a) (inl e) = subst (λ z. t ≤ℤ z.week_start_ns) (sym e) le
      ascends t (y ∷ rows) r (le, a) (inr m) =
          let ih = ascends y.week_start_ns rows r a m in omega arith

  upper_bound-le : (ts : Timestamp) (rows : List (CostRow W)) → upper_bound ts rows ≤ length rows
  unfolding upper_bound
  upper_bound-le ts [] = omega arith
  upper_bound-le ts (x ∷ rows) = elim (Bool-cases (ltb_ℤ ts x.week_start_ns)) [
    | inl t ↦ rw t (omega arith)
    | inr t ↦ rw t (omega (arith, upper_bound-le ts rows))
  ]

  -- One row more before the bound.
  shift-IsLatest :
      (x : CostRow W) (rows : List (CostRow W)) (ts : Timestamp) (n : ℕ)
      → n ≤ length rows
      → x.week_start_ns ≤ℤ ts
      → AscendFrom x.week_start_ns rows
      → IsLatest ts rows (row_before n rows)
      → IsLatest ts (x ∷ rows) (row_before (n + 1) (x ∷ rows))
  unfolding row_before
  shift-IsLatest x rows ts zero le due a latest = (
    inl refl,
    due,
    λ r m began. elim m [
      | inl e ↦ subst (λ y. y.week_start_ns ≤ℤ x.week_start_ns) (sym e) (omega arith)
      | inr in_rest ↦ let later = latest r in_rest in absurd (omega arith)
    ],
  )
  shift-IsLatest x rows ts (suc n) le due a latest =
      let (best, found) = get_elem?-some rows n (omega arith) in
      let same : suc n + 1 ≡ suc (suc n) = omega arith in
      rw same
        (rw found (IsLatest-cons_some x rows ts best a (subst (IsLatest ts rows) found latest)))

  upper_bound-IsLatest :
      (ts : Timestamp) (rows : List (CostRow W))
      → IsSorted rows
      → IsLatest ts rows (row_before (upper_bound ts rows) rows)
  unfolding upper_bound row_before
  upper_bound-IsLatest ts [] s = λ r m. absurd m.1
  upper_bound-IsLatest ts (x ∷ rows) s = elim (Bool-cases (ltb_ℤ ts x.week_start_ns)) [
    | inl t ↦
        let lt = ltb_ℤ→lt ts x.week_start_ns t in
        rw t (λ r m. elim m [
          | inl e ↦ subst (λ y. ts <ℤ y.week_start_ns) (sym e) lt
          | inr in_rest ↦ all_later x.week_start_ns ts rows r lt s in_rest
        ])
    | inr t ↦
        let due = ltb_ℤ→ge ts x.week_start_ns t in
        rw t (
          shift-IsLatest x rows ts (upper_bound ts rows) (upper_bound-le ts rows) due s
            (upper_bound-IsLatest ts rows (tail_sorted x.week_start_ns rows s)))
  ]
    where
      tail_sorted : (t : Timestamp) (rows : List (CostRow W)) → AscendFrom t rows → IsSorted rows
      tail_sorted t [] a = tt
      tail_sorted t (y ∷ rows) (le, a) = a

module _ {ℓ} {W : Type ℓ} ⦃d : Double W⦄ where
  -- What a price says: without one, no row of the instrument has begun, and else it is by a row of the
  -- instrument that has, the latest of these.
  pub Prices : List (CostRow W) → Order W → W → Timestamp → Option (FillPricing W) → Type ℓ
  Prices rows o ref ts none = (r : CostRow W) → Among r rows → ts <ℤ r.week_start_ns
  Prices rows o ref ts (some pricing) =
      (best : CostRow W) × IsLatest ts rows (some best) × (pricing ≡ price_by best o ref)

  priced_Prices :
      (sort : List (CostRow W) → List (CostRow W)) (rows : List (CostRow W)) (o : Order W) (ref : W)
      (ts : Timestamp) (row : Option (CostRow W))
      → IsSort sort
      → IsLatest ts (sort rows) row
      → Prices rows o ref ts (priced_by row o ref)
  unfolding Prices priced_by
  priced_Prices sort rows o ref ts none is later = λ r m. later r (is.to_sort rows r m)
  priced_Prices sort rows o ref ts (some best) is (there, due, latest) = (
    best,
    (is.from_rows rows best there, due, λ r m began. latest r (is.to_sort rows r m) began),
    refl,
  )

  -- An order is priced by the latest row of its own instrument that has begun at its time, and is
  -- not priced exactly when none has, for any table of rows, in any order, and any sort by the
  -- weeks.
  pub price_latest :
      (sort : List (CostRow W) → List (CostRow W)) (book : Portfolio W) (table : List (CostRow W))
      (o : Order W) (ref : W) (ts : Timestamp)
      → IsSort sort
      → Prices
          (rows_of book (index book o.exchange o.market o.symbol) table)
          o
          ref
          ts
          (price (build_table sort book table) o ref ts)
  unfolding price build_table
  price_latest sort book table o ref ts is =
      let i = index book o.exchange o.market o.symbol in
      let rows = rows_of book i table in
      let found = upper_bound-IsLatest ts (sort rows) (is.sorted rows) in
      subst
        (λ series.
          Prices rows o ref ts
            (priced_by (row_before (upper_bound ts (sort series)) (sort series)) o ref))
        (sym (grouped_rows book (λ j. blank_row) table i))
        (priced_Prices sort rows o ref ts (row_before (upper_bound ts (sort rows)) (sort rows)) is
          found)
