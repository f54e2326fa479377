-- ===== src/Execution/CostTable/Lines/Errors.antt =====
-- What a cost table is rejected for, and what its rows are.
use quant_platform.Base.{
  ℕ, zero, suc, ◌+◌, ◌<◌, ◌≤◌, ◌≡◌, ◌⊎◌, refl, subst, inl, inr, true, false, ◌&&◌, Option, none,
  some, List, [], ◌∷◌, ◌++◌, leb, length, get_elem?, Bool-cases, Option-cases, &&_both, leb→le,
  arith,
}
use quant_platform.Double.{Double}
use quant_platform.Core.Subscription.{Subscription, Instrument, resolve}
use quant_platform.Execution.HalfSpread.{CostRow}
use quant_platform.Binance.Rows.{is_empty}
use quant_platform.Execution.CostTable.{
  ReadError, not_readable, empty_file, missing_columns, too_few_fields, bad_market, bad_week_start,
  missing_rates, bad_impact, Columns, parse_iso_date_to_ns, parse_optional_double, whole_number,
  split_csv,
}
use quant_platform.Execution.CostTable.Lines.{
  Result, ok, err, ◌>>=◌, pop_return, parse_market, need, max_needed, enough_fields, parse_impact,
  read_row, resolved_row, read_fields, read_line, read_lines,
}

abbrev pub fields_of : List ℕ → List (List ℕ)
fields_of line = split_csv (pop_return line)

-- A column of a line.
abbrev pub field : List ℕ → ℕ → List ℕ
field line i = need (fields_of line) i

-- A line that is not blank and has all the columns.
abbrev pub IsWhole : Columns → List ℕ → Type 0
IsWhole c line = (is_empty (pop_return line) ≡ false) × (max_needed c < length (fields_of line))

module _ {ℓ} {W : Type ℓ} ⦃d : Double W⦄ where
  -- A value that is equal to itself is no NaN.
  abbrev pub IsNoNan : W → Type 0
  IsNoNan x = d.eq x x ≡ true

  whole_number-IsNoNan : (o : Option (W × List ℕ)) (x : W) → whole_number o ≡ some x → IsNoNan x
  unfolding whole_number
  whole_number-IsNoNan none x e = absurd (cc)
  whole_number-IsNoNan (some (v, left)) x e = elim (Bool-cases (is_empty left && d.eq v v)) [
    | inl t ↦
        let found : some v ≡ some x = rw t at e in
        let same : v ≡ x = cc in subst IsNoNan same (&&_both (is_empty left) (d.eq v v) t).1
    | inr t ↦ let bad : none ≡ some x = rw t at e in absurd (cc)
  ]

  parse-IsNoNan : (s : List ℕ) (x : W) → parse_optional_double s ≡ some x → IsNoNan x
  unfolding parse_optional_double
  parse-IsNoNan [] x e = absurd (cc)
  parse-IsNoNan (c ∷ s) x e = whole_number-IsNoNan (d.from_chars (c ∷ s)) x e

lt_of_leb : (a b : ℕ) → leb a b ≡ false → b < a
lt_of_leb a b h = ground arith

module _ (sub : Subscription) (exchange : ℕ) where
  -- A whole line of an instrument.
  pub record IsOf (c : Columns) (line : List ℕ) (instr : Instrument) : Type 0 where
    pub whole : IsWhole c line
    pub market : ℕ
    pub reads : parse_market (field line c.market) ≡ some market
    pub resolved : resolve sub exchange market (field line c.symbol) ≡ some instr

  -- A whole line of an instrument that the subscription does not have.
  pub record IsForeign (c : Columns) (line : List ℕ) : Type 0 where
    pub whole : IsWhole c line
    pub market : ℕ
    pub reads : parse_market (field line c.market) ≡ some market
    pub unresolved : resolve sub exchange market (field line c.symbol) ≡ none

module _ {ℓ} (W : Type ℓ) ⦃d : Double W⦄ (sub : Subscription) (exchange : ℕ) where
  -- A column that is no number.
  abbrev pub NotRead : Option W → Type ℓ
  NotRead o = o ≡ none

  abbrev pub IsBadRow : Columns → List ℕ → Type ℓ → Type ℓ
  IsBadRow c line Bad = (instr : Instrument) × IsOf sub exchange c line instr × Bad

  -- What is wrong with the line `n` that an error names.
  abbrev pub IsFault : Columns → (n : ℕ) → List ℕ → ReadError → Type ℓ
  IsFault c n line (too_few_fields k) =
      Unit {ℓ}
      × (k ≡ n)
      × (is_empty (pop_return line) ≡ false)
      × (length (fields_of line) ≤ max_needed c)
  IsFault c n line (bad_market k) =
      Unit {ℓ} × (k ≡ n) × IsWhole c line × (parse_market (field line c.market) ≡ none)
  IsFault c n line (bad_week_start k) =
      (k ≡ n) × IsBadRow c line (Unit {ℓ} × (parse_iso_date_to_ns (field line c.week_start) ≡ none))
  IsFault c n line (missing_rates k) =
      (k ≡ n)
      × IsBadRow c line (
          NotRead (parse_optional_double (field line c.half_spread_bps))
          ⊎ NotRead (parse_optional_double (field line c.taker_fee_bps)))
  IsFault c n line (bad_impact k) =
      (k ≡ n) × IsBadRow c line (NotRead (parse_impact (field line c.impact_bps_per_unit)))
  IsFault c n line not_readable = Unit {ℓ} × ⊥
  IsFault c n line empty_file = Unit {ℓ} × ⊥
  IsFault c n line missing_columns = Unit {ℓ} × ⊥

  -- The row of a line: its instrument, its week and its rates, which are no NaN.
  pub record IsRowOf (c : Columns) (line : List ℕ) (r : CostRow W) : Type ℓ where
    pub instrument :
        IsOf sub exchange c line
          (record { exchange = r.exchange; market = r.market; symbol = r.symbol })
    pub week : parse_iso_date_to_ns (field line c.week_start) ≡ some r.week_start_ns
    pub spread : parse_optional_double (field line c.half_spread_bps) ≡ some r.half_spread_bps
    pub fee : parse_optional_double (field line c.taker_fee_bps) ≡ some r.taker_fee_bps
    pub impact : parse_impact (field line c.impact_bps_per_unit) ≡ some r.impact_bps_per_unit
    pub spread_number : IsNoNan r.half_spread_bps
    pub fee_number : IsNoNan r.taker_fee_bps

  -- What a line says: no row where it is blank or foreign, else its one row, or what is wrong with it.
  abbrev pub LineSays : Columns → (n : ℕ) → List ℕ → Result (List (CostRow W)) → Type ℓ
  LineSays c n line (ok []) =
      Unit {ℓ} × ((is_empty (pop_return line) ≡ true) ⊎ IsForeign sub exchange c line)
  LineSays c n line (ok (r ∷ [])) = IsRowOf c line r
  LineSays c n line (ok (r ∷ r' ∷ rows)) = Unit {ℓ} × ⊥
  LineSays c n line (err e) = IsFault c n line e

  resolved_row-LineSays :
      (c : Columns) (n : ℕ) (line : List ℕ) (market : ℕ) (o : Option Instrument)
      → IsWhole c line
      → parse_market (field line c.market) ≡ some market
      → resolve sub exchange market (field line c.symbol) ≡ o
      → LineSays c n line (resolved_row c n (fields_of line) o)
  unfolding resolved_row read_row
  resolved_row-LineSays c n line market none whole m r =
      (tt, inr (record { whole = whole; market = market; reads = m; unresolved = r }))
  resolved_row-LineSays c n line market (some instr) whole m r =
      let is : IsOf sub exchange c line instr = record {
        whole = whole;
        market = market;
        reads = m;
        resolved = r;
      } in
      elim (Option-cases (parse_iso_date_to_ns (field line c.week_start))) [
        | inl w ↦ rw w (refl, (instr, is, (tt, w)))
        | inr (ws, w) ↦
            elim (Option-cases (parse_optional_double {W = W} (field line c.half_spread_bps))) [
              | inl h ↦ rw (w, h) (refl, (instr, is, inl h))
              | inr (hs, h) ↦
                  elim (Option-cases (parse_optional_double {W = W} (field line c.taker_fee_bps))) [
                    | inl t ↦ rw (w, h, t) (refl, (instr, is, inr t))
                    | inr (tf, t) ↦
                        elim (Option-cases
                          (parse_impact {W = W} (field line c.impact_bps_per_unit))) [
                            | inl i ↦ rw (w, h, t, i) (refl, (instr, is, i))
                            | inr (im, i) ↦
                                rw (w, h, t, i)
                                  (record {
                                    instrument = is;
                                    week = w;
                                    spread = h;
                                    fee = t;
                                    impact = i;
                                    spread_number =
                                        parse-IsNoNan (field line c.half_spread_bps) hs h;
                                    fee_number = parse-IsNoNan (field line c.taker_fee_bps) tf t;
                                  })
                          ]
                  ]
            ]
      ]

  read_line-LineSays :
      (c : Columns) (n : ℕ) (line : List ℕ) → LineSays c n line (read_line sub exchange c n line)
  unfolding read_line read_fields enough_fields
  read_line-LineSays c n line = elim (Bool-cases (is_empty (pop_return line))) [
    | inl t ↦ rw t (tt, inl t)
    | inr t ↦ elim (Bool-cases (leb (length (fields_of line)) (max_needed c))) [
      | inl f ↦ rw (t, f) (tt, refl, t, leb→le (length (fields_of line)) (max_needed c) f)
      | inr f ↦
          let whole : IsWhole c line = (t, lt_of_leb (length (fields_of line)) (max_needed c) f) in
          elim (Option-cases (parse_market (field line c.market))) [
            | inl m ↦ rw (t, f, m) (tt, refl, whole, m)
            | inr (market, m) ↦
                rw (t, f, m)
                  (resolved_row-LineSays c n line market
                    (resolve sub exchange market (field line c.symbol)) whole m refl)
          ]
    ]
  ]

  -- The first bad line: all lines before it are good.
  pub record IsFirstBad (c : Columns) (n : ℕ) (lines : List (List ℕ)) (e : ReadError) : Type ℓ where
    pub position : ℕ
    pub line : List ℕ
    pub there : get_elem? lines position ≡ some line
    pub bad : IsFault c (n + 1 + position) line e
    pub good_before :
        (i : ℕ) (before : List ℕ)
        → i < position
        → get_elem? lines i ≡ some before
        → (rows : List (CostRow W)) × LineSays c (n + 1 + i) before (ok rows)

  -- The rows are what the lines say, line by line.
  abbrev pub AreRowsOf : Columns → (n : ℕ) → List (List ℕ) → List (CostRow W) → Type ℓ
  AreRowsOf c n [] rows = rows ≡ []
  AreRowsOf c n (line ∷ lines) rows =
      (own later : List (CostRow W)) × LineSays c (n + 1) line (ok own)
      × AreRowsOf c (n + 1) lines later
      × (rows ≡ own ++ later)

  pub Verdict : Columns → ℕ → List (List ℕ) → Result (List (CostRow W)) → Type ℓ
  Verdict c n lines (ok rows) = AreRowsOf c n lines rows
  Verdict c n lines (err e) = IsFirstBad c n lines e

  first_bad :
      (c : Columns) (n : ℕ) (line : List ℕ) (lines : List (List ℕ)) (e : ReadError)
      → IsFault c (n + 1) line e
      → IsFirstBad c n (line ∷ lines) e
  first_bad c n line lines e bad =
      let here : n + 1 ≡ n + 1 + 0 = omega arith in
      record {
        position = 0;
        line = line;
        there = refl;
        bad = subst (λ k. IsFault c k line e) here bad;
        good_before = λ i before lt found. absurd (omega arith);
      }

  later_bad :
      (c : Columns) (n : ℕ) (line : List ℕ) (lines : List (List ℕ)) (e : ReadError)
      (rows : List (CostRow W))
      → LineSays c (n + 1) line (ok rows)
      → IsFirstBad c (n + 1) lines e
      → IsFirstBad c n (line ∷ lines) e
  later_bad c n line lines e rows good b =
      let shift : (i : ℕ) → n + 1 + 1 + i ≡ n + 1 + suc i = λ i. omega arith in
      record {
        position = suc b.position;
        line = b.line;
        there = b.there;
        bad = subst (λ k. IsFault c k b.line e) (shift b.position) b.bad;
        good_before = before_good;
      }
    where
      before_good :
          (i : ℕ) (before : List ℕ)
          → i < suc b.position
          → get_elem? (line ∷ lines) i ≡ some before
          → (got : List (CostRow W)) × LineSays c (n + 1 + i) before (ok got)
      before_good zero before lt found =
          let same : line ≡ before = cc in
          let here : n + 1 ≡ n + 1 + 0 = omega arith in
          (
            rows,
            subst (λ l. LineSays c (n + 1 + 0) l (ok rows)) same
                (subst (λ k. LineSays c k line (ok rows)) here good),
          )
      before_good (suc i) before lt found =
          let (got, e) = b.good_before i before (omega arith) found in
          let shift : n + 1 + 1 + i ≡ n + 1 + suc i = omega arith in
          (got, subst (λ k. LineSays c k before (ok got)) shift e)

  line_Verdict :
      (c : Columns) (n : ℕ) (line : List ℕ) (lines : List (List ℕ))
      (m rest : Result (List (CostRow W)))
      → LineSays c (n + 1) line m
      → Verdict c (n + 1) lines rest
      → Verdict c n (line ∷ lines) (m >>= λ rows. rest >>= λ more. ok (rows ++ more))
  unfolding Verdict
  line_Verdict c n line lines (err e) rest h v = first_bad c n line lines e h
  line_Verdict c n line lines (ok rows) (err e) h v = later_bad c n line lines e rows h v
  line_Verdict c n line lines (ok rows) (ok more) h v = (rows, more, h, v, refl)

  nothing_read : (c : Columns) (n : ℕ) → Verdict c n [] (ok [])
  unfolding Verdict
  nothing_read c n = refl

  -- The rows of a table that is read are what its lines after the header say, line by line: nothing for
  -- a blank line or an instrument that the subscription does not resolve, and else one row, with the
  -- line's instrument, week and rates, none of them NaN. A table that is not read is rejected by its
  -- first bad line: the error names that line and what is wrong with it, and all lines before it are
  -- good.
  pub read_lines-Verdict :
      (c : Columns) (n : ℕ) (lines : List (List ℕ))
      → Verdict c n lines (read_lines sub exchange c n lines)
  unfolding read_lines
  read_lines-Verdict c n [] = nothing_read c n
  read_lines-Verdict c n (line ∷ lines) =
      line_Verdict c n line lines (read_line sub exchange c (n + 1) line)
        (read_lines sub exchange c (n + 1) lines) (read_line-LineSays c (n + 1) line)
        (read_lines-Verdict c (n + 1) lines)
