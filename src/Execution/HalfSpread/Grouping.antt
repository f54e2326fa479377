-- ===== src/Execution/HalfSpread/Grouping.antt =====
-- The counting sort of the constructor groups the rows by instrument.
use quant_platform.Base.{
  ℕ, zero, suc, ◌+◌, ◌≤◌, ◌<◌, ◌≡◌, ◌≢◌, ◌⊎◌, ◌∙◌, refl, sym, ap, ap₂, subst, inl, inr, List, [],
  ◌∷◌, if◌then◌else◌, ◌==◌, ltb, put, put_self, put_ne, Bool-cases, ==_iff, ==_refl, arith,
}
use quant_platform.Core.Portfolio.{Portfolio}
use quant_platform.Execution.HalfSpread.{CostRow, row_slot, count_rows, offset, write_rows, segment}

module _ {ℓ} {W : Type ℓ} where
  -- The rows of an instrument, in the order of the table, and their number.
  pub rows_of : Portfolio W → ℕ → List (CostRow W) → List (CostRow W)
  rows_of book i [] = []
  rows_of book i (r ∷ table) =
      if row_slot book r == i then r ∷ rows_of book i table else rows_of book i table

  abbrev number_of : Portfolio W → ℕ → List (CostRow W) → ℕ
  number_of book i [] = 0
  number_of book i (r ∷ table) =
      if row_slot book r == i then suc (number_of book i table) else number_of book i table

  count_rows_lem :
      (book : Portfolio W) (counts : ℕ → ℕ) (table : List (CostRow W)) (i : ℕ)
      → count_rows book counts table i ≡ counts i + number_of book i table
  unfolding count_rows
  count_rows_lem book counts [] i = omega arith
  count_rows_lem book counts (r ∷ table) i =
      let s = row_slot book r in
      let ih = count_rows_lem book (put counts s (counts s + 1)) table i in
      elim (Bool-cases (s == i)) [
        | inl t ↦
            let same : s ≡ i = (==_iff s i).0 t in
            let next : put counts s (counts s + 1) i ≡ counts i + 1 =
              ap (λ b. if b then counts s + 1 else counts i) t ∙ ap (λ n. counts n + 1) same in
            ih ∙ ap (λ n. n + number_of book i table) next ∙ rw t (omega arith)
        | inr t ↦
            let next : put counts s (counts s + 1) i ≡ counts i =
              ap (λ b. if b then counts s + 1 else counts i) t in
            ih ∙ ap (λ n. n + number_of book i table) next ∙ rw t (omega arith)
      ]

-- The segments of two instruments are apart.
offset_mono : (counts : ℕ → ℕ) (i s : ℕ) → i < s → offset counts i + counts i ≤ offset counts s
unfolding offset
offset_mono counts i zero lt = absurd (omega arith)
offset_mono counts i (suc s) lt = elim (Bool-cases (i == s)) [
  | inl t ↦
      let same : i ≡ s = (==_iff i s).0 t in
      subst (λ n. offset counts i + counts i ≤ offset counts n + counts n) same (omega arith)
  | inr t ↦ let below : i < s = ground arith in omega (arith, offset_mono counts i s below)
]

-- A position is outside what instrument `i` still writes.
abbrev Outside : (start left p : ℕ) → Type 0
Outside start left p = (p < start) ⊎ (start + left ≤ p)

apart :
    (counts : ℕ → ℕ) (i s at_i at_s left : ℕ)
    → i ≢ s
    → at_i + left ≤ counts i
    → at_s < counts s
    → Outside (offset counts i + at_i) left (offset counts s + at_s)
apart counts i s at_i at_s left ne fits room = elim (Bool-cases (ltb i s)) [
  | inl t ↦ let lt : i < s = ground arith in inr (omega (arith, offset_mono counts i s lt))
  | inr t ↦ let lt : s < i = ground arith in inl (omega (arith, offset_mono counts s i lt))
]

module _ {ℓ} {W : Type ℓ} (book : Portfolio W) (counts : ℕ → ℕ) where
  write_rows_other :
      (rows : ℕ → CostRow W) (writes : ℕ → ℕ) (table : List (CostRow W)) (p : ℕ)
      → ((i : ℕ) → Outside (offset counts i + writes i) (number_of book i table) p)
      → write_rows book (offset counts) rows writes table p ≡ rows p
  unfolding write_rows
  write_rows_other rows writes [] p out = refl
  write_rows_other rows writes (r ∷ table) p out =
      let s = row_slot book r in
      let ne : offset counts s + writes s ≢ p = λ e. elim (out s) [
        | inl lt ↦ omega arith
        | inr le ↦
            let one =
              ap (λ b. if b then suc (number_of book s table) else number_of book s table)
                (==_refl s) in
            omega arith
      ] in
      let out' : (i : ℕ)
          → Outside (offset counts i + put writes s (writes s + 1) i) (number_of book i table) p =
        λ i. elim (Bool-cases (s == i)) [
          | inl t ↦
              let same : s ≡ i = (==_iff s i).0 t in
              let next : put writes s (writes s + 1) i ≡ writes i + 1 =
                ap (λ b. if b then writes s + 1 else writes i) t ∙ ap (λ n. writes n + 1) same in
              let one =
                ap (λ b. if b then suc (number_of book i table) else number_of book i table) t in
              elim (out i) [ inl lt ↦ inl (omega arith) | inr le ↦ inr (omega arith) ]
          | inr t ↦
              let next : put writes s (writes s + 1) i ≡ writes i =
                ap (λ b. if b then writes s + 1 else writes i) t in
              let off =
                ap (λ b. if b then suc (number_of book i table) else number_of book i table) t in
              elim (out i) [ inl lt ↦ inl (omega arith) | inr le ↦ inr (omega arith) ]
        ] in
      write_rows_other (put rows (offset counts s + writes s) r) (put writes s (writes s + 1)) table
        p out'
      ∙ put_ne rows (offset counts s + writes s) p r ne

  -- What the loop still writes of an instrument stands in its segment, in order.
  segment-write_rows :
      (rows : ℕ → CostRow W) (writes : ℕ → ℕ) (table : List (CostRow W))
      → ((i : ℕ) → writes i + number_of book i table ≤ counts i)
      → (i : ℕ)
      → segment
          (write_rows book (offset counts) rows writes table)
          (offset counts i + writes i)
          (number_of book i table)
        ≡ rows_of book i table
  unfolding write_rows segment rows_of
  segment-write_rows rows writes [] room i = refl
  segment-write_rows rows writes (r ∷ table) room i =
      let s = row_slot book r in
      let rows' = put rows (offset counts s + writes s) r in
      let writes' = put writes s (writes s + 1) in
      let final = write_rows book (offset counts) rows' writes' table in
      let at_s : writes' s ≡ writes s + 1 = put_self writes s (writes s + 1) in
      let one : number_of book s (r ∷ table) ≡ suc (number_of book s table) =
        ap (λ b. if b then suc (number_of book s table) else number_of book s table) (==_refl s) in
      let room' : (j : ℕ) → writes' j + number_of book j table ≤ counts j = λ j.
        elim (Bool-cases (s == j)) [
          | inl t ↦
              let same : s ≡ j = (==_iff s j).0 t in
              subst (λ n. writes' n + number_of book n table ≤ counts n) same
                (omega (arith, room s))
          | inr t ↦
              let next : writes' j ≡ writes j = ap (λ b. if b then writes s + 1 else writes j) t in
              let off =
                ap (λ b. if b then suc (number_of book j table) else number_of book j table) t in
              omega (arith, room j)
        ] in
      let ih = segment-write_rows rows' writes' table room' i in
      elim (Bool-cases (s == i)) [
        | inl t ↦
            let same : s ≡ i = (==_iff s i).0 t in
            let out : (j : ℕ)
                → Outside (offset counts j + writes' j) (number_of book j table)
                    (offset counts s + writes s) =
              λ j. elim (Bool-cases (j == s)) [
                | inl u ↦
                    let here : j ≡ s = (==_iff j s).0 u in
                    inl (
                      subst (λ n. offset counts s + writes s < offset counts n + writes' n)
                        (sym here) (omega arith))
                | inr u ↦
                    let ne : j ≢ s = λ e. ground arith in
                    apart counts j s (writes' j) (writes s) (number_of book j table) ne (room' j)
                      (omega (arith, room s))
              ] in
            let first : final (offset counts i + writes i) ≡ r =
              ap (λ n. final (offset counts n + writes n)) (sym same)
              ∙ write_rows_other rows' writes' table (offset counts s + writes s) out
              ∙ put_self rows (offset counts s + writes s) r in
            let later : offset counts i + writes' i ≡ offset counts i + writes i + 1 =
              subst (λ n. offset counts n + writes' n ≡ offset counts n + writes n + 1) same
                (omega arith) in
            rw t (
              ap₂ (λ x xs. x ∷ xs) first
                (ap (λ n. segment final n (number_of book i table)) (sym later) ∙ ih))
        | inr t ↦
            let next : writes' i ≡ writes i = ap (λ b. if b then writes s + 1 else writes i) t in
            rw t (
              ap (λ n. segment final (offset counts i + n) (number_of book i table)) (sym next)
              ∙ ih)
      ]

module _ {ℓ} {W : Type ℓ} (book : Portfolio W) (blank : ℕ → CostRow W)
    (table : List (CostRow W)) where
  -- After the constructor's loops the segment of an instrument is its rows, in the order of the table.
  pub grouped_rows :
      (i : ℕ)
      → let counts = count_rows book (λ j. 0) table in
        segment (write_rows book (offset counts) blank (λ j. 0) table) (offset counts i) (counts i)
        ≡ rows_of book i table
  grouped_rows i =
      let counts = count_rows book (λ j. 0) table in
      let final = write_rows book (offset counts) blank (λ j. 0) table in
      let start : offset counts i ≡ offset counts i + 0 = omega arith in
      let all : counts i ≡ number_of book i table =
        omega (arith, count_rows_lem book (λ j. 0) table i) in
      ap₂ (segment final) start all
      ∙ segment-write_rows book counts blank (λ j. 0) table
          (λ j. omega (arith, count_rows_lem book (λ j. 0) table j)) i
