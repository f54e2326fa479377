-- ===== src/Binance/Stream/Reader/Order.antt =====
-- The events of a file that is read row by row are those of its lines, in order.
use quant_platform.Base.{
  ℕ, zero, suc, ◌≤◌, ◌≡◌, ◌∙◌, refl, sym, ap, ap₂, inl, inr, true, false, Option, none, some, List,
  [], ◌∷◌, if◌then◌else◌, length, Bool-cases, Option-cases, arith,
}
use quant_platform.Core.Types.{Timestamp}
use quant_platform.Binance.Csv.{is_header_row}
use quant_platform.Binance.Endpoints.{Endpoint}
use quant_platform.Binance.Rows.{is_empty}
use quant_platform.Binance.Stream.Lines.{Line, take_row}
use quant_platform.Binance.Stream.Lines.Split.{cut_rows, cut_rows-take_row}
use quant_platform.Binance.Stream.Reader.Counts.{read_row-Progress}
use quant_platform.Binance.Stream.Reader.{
  Parser, Reader, row_run, sequenced, note_event, check_sequence, take_parsed, read_row, read_rows,
}

no_bytes : (text : List ℕ) → length text ≤ 0 → text ≡ []
no_bytes [] le = refl
no_bytes (c ∷ text) le = absurd (omega arith)

empty_is : (text : List ℕ) → is_empty text ≡ true → text ≡ []
empty_is [] e = refl
empty_is (c ∷ text) e = absurd (cc)

module _ {ℓ} {E : Type ℓ} (p : Parser E) (entry : Endpoint) where
  -- The event of a row that is neither blank nor a header.
  abbrev pub event_of_row : List ℕ → Option (Timestamp × E)
  event_of_row row =
      if is_empty row then none else if is_header_row row then none else p.parse entry row

  abbrev pub add_event : Option (Timestamp × E) → List (Timestamp × E) → List (Timestamp × E)
  add_event none rest = rest
  add_event (some event) rest = event ∷ rest

  abbrev pub first_event : List (Timestamp × E) → Option (Timestamp × E)
  first_event [] = none
  first_event (event ∷ rest) = some event

  abbrev pub other_events : List (Timestamp × E) → List (Timestamp × E)
  other_events [] = []
  other_events (event ∷ rest) = rest

  -- The events of some rows.
  abbrev pub events_of : List (List ℕ) → List (Timestamp × E)
  events_of [] = []
  events_of (row ∷ rows) = add_event (event_of_row row) (events_of rows)

  -- The events of a text, from its rows.
  abbrev pub text_events : List ℕ → List (Timestamp × E)
  text_events text = events_of (cut_rows text)

  take_parsed_lem :
      (r : Reader) (used : ℕ) (o : Option (Timestamp × E))
      → ((take_parsed p r used o).0 ≡ o) × ((take_parsed p r used o).1.rows ≡ r.rows)
  unfolding take_parsed note_event sequenced check_sequence
  take_parsed_lem r used none = (refl, refl)
  take_parsed_lem r used (some (ts, payload)) = (refl, kept p.sequence)
    where
      kept : (o : Option (E → ℕ)) → (sequenced (note_event r ts used) payload o).rows ≡ r.rows
      kept none = refl
      kept (some sequence) = refl

  -- The row that is read, and what is left.
  abbrev Reads : Reader → Line → Type ℓ
  Reads r l = ((read_row p entry r).0 ≡ event_of_row l.row) × ((read_row p entry r).1.rows ≡ l.rest)

  read_row-Reads : (r : Reader) → p.grouped ≡ false → Reads r (take_row r.rows)
  unfolding read_row row_run
  read_row-Reads r single =
      let l = take_row r.rows in
      elim (Bool-cases (is_empty l.row)) [
        | inl t ↦ rw t (refl, refl)
        | inr t ↦ elim (Bool-cases (is_header_row l.row)) [
          | inl u ↦ rw (t, u) (refl, refl)
          | inr u ↦
              rw (t, u, single)
                (take_parsed_lem (record r { rows = l.rest }) 1 (p.parse entry l.row))
        ]
      ]

  read_row_events :
      (r : Reader) (text : List ℕ)
      → p.grouped ≡ false
      → r.rows ≡ text
      → is_empty text ≡ false
      → text_events r.rows
        ≡ add_event (read_row p entry r).0 (text_events (read_row p entry r).1.rows)
  read_row_events r [] single e h = absurd (cc)
  read_row_events r (c ∷ text) single e h =
      let (event, left) = read_row-Reads r single in
      ap text_events e
      ∙ ap events_of (cut_rows-take_row c text)
      ∙ ap (λ t. add_event (event_of_row (take_row t).row) (text_events (take_row t).rest)) (sym e)
      ∙ ap₂ (λ o t. add_event o (text_events t)) (sym event) (sym left)

  read_rows-add_event :
      (fuel : ℕ) (r : Reader)
      → p.grouped ≡ false
      → text_events r.rows
        ≡ add_event (read_rows fuel p entry r).0 (text_events (read_rows fuel p entry r).1.rows)
  unfolding read_rows
  read_rows-add_event zero r single = refl
  read_rows-add_event (suc fuel) r single = elim (Bool-cases (is_empty r.rows)) [
    | inl t ↦ rw t refl
    | inr t ↦
        let now = read_row_events r r.rows single refl t in
        elim (Option-cases (read_row p entry r).0) [
          | inl none_yet ↦
              let same : text_events r.rows ≡ text_events (read_row p entry r).1.rows =
                now ∙ ap (λ o. add_event o (text_events (read_row p entry r).1.rows)) none_yet in
              rw (t, none_yet) (same ∙ read_rows-add_event fuel (read_row p entry r).1 single)
          | inr (event, found) ↦
              rw (t, found)
                (now ∙ ap (λ o. add_event o (text_events (read_row p entry r).1.rows)) found)
        ]
  ]

  -- Without an event the loop has read the whole text.
  read_rows_empty :
      (fuel : ℕ) (r : Reader)
      → length r.rows ≤ fuel
      → (read_rows fuel p entry r).0 ≡ none
      → (read_rows fuel p entry r).1.rows ≡ []
  unfolding read_rows
  read_rows_empty zero r le e = no_bytes r.rows (omega arith)
  read_rows_empty (suc fuel) r le e = elim (Bool-cases (is_empty r.rows)) [
    | inl t ↦ rw t (empty_is r.rows t)
    | inr t ↦ elim (Option-cases (read_row p entry r).0) [
      | inl none_yet ↦
          let shorter = (read_row-Progress p entry r.rows r refl t).shorter in
          let later : (read_rows fuel p entry (read_row p entry r).1).0 ≡ none =
            rw (t, none_yet) at e in
          rw (t, none_yet) (read_rows_empty fuel (read_row p entry r).1 (omega arith) later)
      | inr (event, found) ↦ let bad : some event ≡ none = rw (t, found) at e in absurd (cc)
    ]
  ]

  -- The loop over the rows, with a round for each byte: a parser of single rows gives the first event
  -- of the text's lines, or none exactly when they have none, and what is left has the others. No line
  -- is skipped, read twice or read out of order.
  pub read_rows_events :
      (fuel : ℕ) (r : Reader)
      → p.grouped ≡ false
      → length r.rows ≤ fuel
      → ((read_rows fuel p entry r).0 ≡ first_event (text_events r.rows))
        × (text_events (read_rows fuel p entry r).1.rows ≡ other_events (text_events r.rows))
  read_rows_events fuel r single le =
      let whole = read_rows-add_event fuel r single in
      elim (Option-cases (read_rows fuel p entry r).0) [
        | inl e ↦
            let left : text_events (read_rows fuel p entry r).1.rows ≡ [] =
              ap text_events (read_rows_empty fuel r le e) in
            let nothing : text_events r.rows ≡ [] = whole ∙ ap₂ add_event e left in
            (e ∙ sym (ap first_event nothing), left ∙ sym (ap other_events nothing))
        | inr (event, e) ↦
            let found : text_events r.rows ≡ event ∷ text_events (read_rows fuel p entry r).1.rows =
              whole ∙ ap (λ o. add_event o (text_events (read_rows fuel p entry r).1.rows)) e in
            (e ∙ sym (ap first_event found), sym (ap other_events found))
      ]
