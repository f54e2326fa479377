-- ===== src/Binance/Stream/Reader.antt =====
-- The part of a stream that reads rows: the loop over `rows_` in `next`, and check_sequence, of
-- stream.hpp, with the seam of parsers/parser.hpp. A counter counts rows or files that were in memory,
-- so it does not reach the end of its type.
pub mod Counts
pub mod Order
use quant_platform.Base.{
  ℕ, zero, suc, ◌+◌, ◌%◌, ◌^◌, Bool, true, false, ◌&&◌, not, Option, none, some, List, [], ◌∷◌,
  ◌++◌, if◌then◌else◌, ◌==◌, ltb, length,
}
use quant_platform.Base.Int.{ℤ, pos, ltb_ℤ, eqb_ℤ}
use quant_platform.Core.Types.{Timestamp, EventKind}
use quant_platform.Binance.Csv.{is_header_row}
use quant_platform.Binance.Endpoints.{Endpoint, EndpointKind}
use quant_platform.Binance.Rows.{is_empty}
use quant_platform.Binance.Stream.Lines.{Line, Run, take_row, extend_run}

-- `sequence` is there for a parser that exposes one, and `grouped` says whether an event spans rows.
pub record Parser {ℓ} (E : Type ℓ) : Type ℓ where
  pub event_kind : EventKind
  pub endpoint_kind : EndpointKind
  pub intervalled : Bool
  pub grouped : Bool
  pub parse : Endpoint → List ℕ → Option (Timestamp × E)
  pub sequence : Option (E → ℕ)

pub record GapStats : Type 0 where
  pub files_planned : ℕ
  pub files_read : ℕ
  pub files_failed : ℕ
  pub header_rows : ℕ
  pub blank_rows : ℕ
  pub rows_expected : ℕ
  pub rows_parsed : ℕ
  pub rows_rejected : ℕ
  pub backwards_stamps : ℕ
  pub repeated_stamps : ℕ
  pub sequence_gaps : ℕ

-- The members that reading a row changes.
pub record Reader : Type 0 where
  pub rows : List ℕ
  pub last_ts : Timestamp
  pub last_sequence : ℕ
  pub have_sequence : Bool
  pub stats : GapStats

-- `last_sequence_ + 1` is of 64 bits.
pub check_sequence : Reader → ℕ → Reader
check_sequence r id =
    let gap = r.have_sequence && not (id == (r.last_sequence + 1) % 2 ^ 64) in
    record r {
      last_sequence = id;
      have_sequence = true;
      stats = record r.stats { sequence_gaps = r.stats.sequence_gaps + (if gap then 1 else 0) };
    }

-- The counters and the last stamp, for an event of `used` rows.
pub note_event : Reader → Timestamp → ℕ → Reader
note_event r ts used =
    let back = ltb_ℤ ts r.last_ts in
    let again = eqb_ℤ ts r.last_ts && ltb 0 r.stats.rows_parsed in
    record r {
      last_ts = ts;
      stats = record r.stats {
        rows_parsed = r.stats.rows_parsed + used;
        backwards_stamps = r.stats.backwards_stamps + (if back then 1 else 0);
        repeated_stamps = r.stats.repeated_stamps + (if again then 1 else 0);
      };
    }

-- A row, or the run of rows that it starts.
pub row_run : Bool → Line → Run
row_run grouped l =
    if grouped
    then extend_run l
    else record { block = l.row; used = 1; after = l.ending; left = l.rest }

module _ {ℓ} {E : Type ℓ} where
  sequenced : Reader → E → Option (E → ℕ) → Reader
  unfolding check_sequence
  sequenced r payload none = r
  sequenced r payload (some sequence) = check_sequence r (sequence payload)

  -- What a parsed block does. No event means that the loop goes on.
  pub take_parsed :
      Parser E → Reader → (used : ℕ) → Option (Timestamp × E) → Option (Timestamp × E) × Reader
  unfolding sequenced note_event
  take_parsed p r used none =
      (none, record r { stats = record r.stats { rows_rejected = r.stats.rows_rejected + used } })
  take_parsed p r used (some (ts, payload)) =
      (some (ts, payload), sequenced (note_event r ts used) payload p.sequence)

  -- One round of the loop over rows.
  pub read_row : Parser E → Endpoint → Reader → Option (Timestamp × E) × Reader
  unfolding take_parsed row_run
  read_row p entry r =
      let l = take_row r.rows in
      if is_empty l.row
      then (
        none,
        record r { rows = l.rest; stats = record r.stats { blank_rows = r.stats.blank_rows + 1 } },
      )
      else if is_header_row l.row
      then (
        none,
        record r {
          rows = l.rest;
          stats = record r.stats { header_rows = r.stats.header_rows + 1 };
        },
      )
      else let run = row_run p.grouped l in
        take_parsed p (record r { rows = run.left }) run.used (p.parse entry run.block)

  -- The loop, with a round for each byte: the first event, or nothing once no row is left.
  unfoldable pub read_rows : ℕ → Parser E → Endpoint → Reader → Option (Timestamp × E) × Reader
  unfolding read_row
  read_rows zero p entry r = (none, r)
  read_rows (suc fuel) p entry r =
      let (found, r') = read_row p entry r in
      let more = read_rows fuel p entry r' in
      if is_empty r.rows
      then (none, r)
      else elim found [ some event ↦ (some event, r') | none ↦ more ]
