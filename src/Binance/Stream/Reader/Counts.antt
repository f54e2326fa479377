-- ===== src/Binance/Stream/Reader/Counts.antt =====
-- Every row of a file is counted once, and the loop over rows reaches the file's end.
use quant_platform.Base.{
  ℕ, zero, suc, ◌+◌, ◌≤◌, ◌<◌, ◌≡◌, ◌∙◌, refl, sym, ap, subst, inl, inr, Bool, true, false, Option,
  none, some, List, [], ◌∷◌, length, Bool-cases, Option-cases, arith,
}
use quant_platform.Core.Types.{Timestamp}
use quant_platform.Binance.Csv.{is_header_row}
use quant_platform.Binance.Endpoints.{Endpoint}
use quant_platform.Binance.Rows.{is_empty}
use quant_platform.Binance.Stream.Lines.{Line, take_row}
use quant_platform.Binance.Stream.Lines.Runs.{extend_run_lem}
use quant_platform.Binance.Stream.Lines.Split.{line_count, line_count-take_row, length-take_row}
use quant_platform.Binance.Stream.Reader.{
  Parser, GapStats, Reader, check_sequence, note_event, row_run, sequenced, take_parsed, read_row,
  read_rows,
}

-- The rows that the counters have.
abbrev pub counted : GapStats → ℕ
counted s = s.header_rows + s.blank_rows + s.rows_parsed + s.rows_rejected

-- The rows of a run leave the text.
row_run_lem :
    (grouped : Bool) (l : Line)
    → ((row_run grouped l).used + line_count (row_run grouped l).left ≡ 1 + line_count l.rest)
      × (length (row_run grouped l).left ≤ length l.rest)
unfolding row_run
row_run_lem true l = extend_run_lem l
row_run_lem false l = (refl, omega arith)

-- Reading adds to the counters what it takes off the text.
pub record Progress (r r' : Reader) : Type 0 where
  pub counts : counted r'.stats + line_count r'.rows ≡ counted r.stats + line_count r.rows
  pub shorter : length r'.rows < length r.rows

module _ {ℓ} {E : Type ℓ} where
  sequenced-counted :
      (r : Reader) (payload : E) (o : Option (E → ℕ))
      → (counted (sequenced r payload o).stats ≡ counted r.stats)
        × ((sequenced r payload o).rows ≡ r.rows)
  unfolding sequenced check_sequence
  sequenced-counted r payload none = (refl, refl)
  sequenced-counted r payload (some sequence) = (refl, refl)

  take_parsed-counted :
      (p : Parser E) (r : Reader) (used : ℕ) (o : Option (Timestamp × E))
      → (counted (take_parsed p r used o).1.stats ≡ counted r.stats + used)
        × ((take_parsed p r used o).1.rows ≡ r.rows)
  unfolding take_parsed note_event
  take_parsed-counted p r used none = (omega arith, refl)
  take_parsed-counted p r used (some (ts, payload)) =
      let (same, left) = sequenced-counted (note_event r ts used) payload p.sequence in
      (same ∙ omega arith, left)

  read_row_lem :
      (p : Parser E) (entry : Endpoint) (c : ℕ) (text : List ℕ) (r : Reader)
      → r.rows ≡ c ∷ text
      → Progress r (read_row p entry r).1
  unfolding read_row
  read_row_lem p entry c text r e =
      let l = take_row r.rows in
      let lines : line_count r.rows ≡ 1 + line_count l.rest =
        ap line_count e
        ∙ line_count-take_row c text
        ∙ ap (λ t. 1 + line_count (take_row t).rest) (sym e) in
      let less : length l.rest < length r.rows =
        subst (λ t. length (take_row t).rest < length t) (sym e) (length-take_row c text) in
      elim (Bool-cases (is_empty l.row)) [
        | inl t ↦ rw t (record { counts = omega arith; shorter = less })
        | inr t ↦ elim (Bool-cases (is_header_row l.row)) [
          | inl u ↦ rw (t, u) (record { counts = omega arith; shorter = less })
          | inr u ↦
              let run = row_run p.grouped l in
              let (whole, short) = row_run_lem p.grouped l in
              let (same, left) =
                take_parsed-counted p (record r { rows = run.left }) run.used
                  (p.parse entry run.block) in
              rw (t, u)
                (record {
                  counts = omega (arith, same, ap line_count left, whole);
                  shorter = subst (λ t. length t < length r.rows) (sym left) (omega arith);
                })
        ]
      ]

  pub read_row-Progress :
      (p : Parser E) (entry : Endpoint) (text : List ℕ) (r : Reader)
      → r.rows ≡ text
      → is_empty text ≡ false
      → Progress r (read_row p entry r).1
  read_row-Progress p entry [] r e h = absurd (cc)
  read_row-Progress p entry (c ∷ text) r e h = read_row_lem p entry c text r e

  -- Every row is counted exactly once, as blank, as a header, as rejected or as part of an event: the
  -- counters grow by the lines that leave the text.
  pub read_rows_counts :
      (fuel : ℕ) (p : Parser E) (entry : Endpoint) (r : Reader)
      → counted (read_rows fuel p entry r).1.stats + line_count (read_rows fuel p entry r).1.rows
        ≡ counted r.stats + line_count r.rows
  unfolding read_rows
  read_rows_counts zero p entry r = refl
  read_rows_counts (suc fuel) p entry r = elim (Bool-cases (is_empty r.rows)) [
    | inl t ↦ rw t refl
    | inr t ↦
        let now = (read_row-Progress p entry r.rows r refl t).counts in
        elim (Option-cases (read_row p entry r).0) [
          | inl none_yet ↦
              rw (t, none_yet) (read_rows_counts fuel p entry (read_row p entry r).1 ∙ now)
          | inr (event, found) ↦ rw (t, found) now
        ]
  ]

  -- With a round for each byte, the loop finds no event only at the end of the file.
  pub read_rows_drained :
      (fuel : ℕ) (p : Parser E) (entry : Endpoint) (r : Reader)
      → length r.rows ≤ fuel
      → (read_rows fuel p entry r).0 ≡ none
      → is_empty (read_rows fuel p entry r).1.rows ≡ true
  unfolding read_rows
  read_rows_drained zero p entry r le h = nothing r.rows le
    where
      nothing : (text : List ℕ) → length text ≤ 0 → is_empty text ≡ true
      nothing [] le = refl
      nothing (c ∷ text) le = absurd (omega arith)
  read_rows_drained (suc fuel) p entry r le h = elim (Bool-cases (is_empty r.rows)) [
    | inl t ↦ rw t t
    | inr t ↦
        let less = (read_row-Progress p entry r.rows r refl t).shorter in
        elim (Option-cases (read_row p entry r).0) [
          | inl none_yet ↦
              rw (t, none_yet)
                (read_rows_drained fuel p entry (read_row p entry r).1 (omega arith)
                  (rw (t, none_yet) at h))
          | inr (event, found) ↦ let bad : some event ≡ none = rw (t, found) at h in absurd (cc)
        ]
  ]

-- The files that the counters have, which reading rows leaves alone.
abbrev pub files_counted : Reader → ℕ
files_counted r = r.stats.files_read + r.stats.files_failed

module _ {ℓ} {E : Type ℓ} where
  sequenced_files :
      (r : Reader) (payload : E) (o : Option (E → ℕ))
      → files_counted (sequenced r payload o) ≡ files_counted r
  unfolding sequenced check_sequence
  sequenced_files r payload none = refl
  sequenced_files r payload (some sequence) = refl

  take_parsed_files :
      (p : Parser E) (r : Reader) (used : ℕ) (o : Option (Timestamp × E))
      → files_counted (take_parsed p r used o).1 ≡ files_counted r
  unfolding take_parsed note_event
  take_parsed_files p r used none = refl
  take_parsed_files p r used (some (ts, payload)) =
      sequenced_files (note_event r ts used) payload p.sequence

  read_row_files :
      (p : Parser E) (entry : Endpoint) (r : Reader)
      → files_counted (read_row p entry r).1 ≡ files_counted r
  unfolding read_row
  read_row_files p entry r =
      let l = take_row r.rows in
      let run = row_run p.grouped l in
      elim (Bool-cases (is_empty l.row)) [
        | inl t ↦ rw t refl
        | inr t ↦ elim (Bool-cases (is_header_row l.row)) [
          | inl u ↦ rw (t, u) refl
          | inr u ↦
              rw (t, u)
                (take_parsed_files p (record r { rows = run.left }) run.used
                  (p.parse entry run.block))
        ]
      ]

  pub read_rows_files :
      (fuel : ℕ) (p : Parser E) (entry : Endpoint) (r : Reader)
      → files_counted (read_rows fuel p entry r).1 ≡ files_counted r
  unfolding read_rows
  read_rows_files zero p entry r = refl
  read_rows_files (suc fuel) p entry r = elim (Bool-cases (is_empty r.rows)) [
    | inl t ↦ rw t refl
    | inr t ↦
        let now = read_row_files p entry r in
        elim (Option-cases (read_row p entry r).0) [
          | inl none_yet ↦
              rw (t, none_yet) (read_rows_files fuel p entry (read_row p entry r).1 ∙ now)
          | inr (event, found) ↦ rw (t, found) now
        ]
  ]
