-- ===== src/Binance/Stream/Files.antt =====
-- The files of a stream: plan, pump, load_next_file, next and finished of stream.hpp, and the file slots
-- of fetch_pool.hpp. The pool is a parameter: it answers whether it takes a request, and its workers
-- place the file in the slot of the stream later. A file that lands in the middle of a call counts as
-- there before the call if the call looks at its slot afterwards, and else as there after it: a call
-- looks at no slot again once that was empty.
pub mod Cursors
pub mod Steps
pub mod Landing
mod Examples
use quant_platform.Base.{
  ℕ, zero, suc, ◌+◌, ◌-◌, ◌%◌, ◌≡◌, Bool, true, false, ◌&&◌, ◌||◌, not, Option, none, some, List,
  [], ◌∷◌, ◌++◌, if◌then◌else◌, ◌==◌, ltb, leb, length, get_or, to_size,
}
use quant_platform.Base.Int.{ltb_ℤ, pos}
use quant_platform.Core.SlotRing.{SlotRing, fresh, take}
use quant_platform.Core.Subscription.{Instrument}
use quant_platform.Core.Types.{Timestamp, EventBase, EventKind}
use quant_platform.Binance.Endpoints.{Endpoint, Cadence, data_host, prefix}
use quant_platform.Binance.Rows.{is_empty}
use quant_platform.Binance.Stamps.{stamp_of, stamp_start_nanos, expected_rows}
use quant_platform.Binance.Stream.Reader.{Parser, GapStats, Reader, read_rows}

pub data FetchStatus : Type 0 where
  ok not_found server_error transport_error zip_error cancelled : FetchStatus

pub is_failure : FetchStatus → Bool
is_failure ok = false
is_failure status = true

pub record FetchedFile : Type 0 where
  pub body : List ℕ
  pub status : FetchStatus

-- `kFileSlotCount` is `2 ^ slot_bits`.
abbrev pub slot_bits : ℕ
slot_bits = 6

abbrev pub FileSlots : Type 0
FileSlots = SlotRing FetchedFile

-- Not under src as code of the stream: `submit` of whatever pool the stream is built on.
pub record FetchPool {ℓ} (Q : Type ℓ) : Type ℓ where
  pub submit : Q → (url : List ℕ) → (position : ℕ) → Bool × Q

pub record Stream : Type 0 where
  pub endpoint : Endpoint
  pub cadence : Cadence
  pub symbol : List ℕ
  pub interval : List ℕ
  pub instrument : Instrument
  pub depth : ℕ
  pub paths : List (List ℕ)
  pub fetch_cursor : ℕ
  pub read_cursor : ℕ
  pub slots : FileSlots
  pub pump_tick : ℕ
  pub reader : Reader

-- `std::clamp(prefetch_depth, 1, FileSlots::capacity())`.
abbrev pub clamp_depth : ℕ → ℕ
clamp_depth n = if ltb n 1 then 1 else if ltb 64 n then 64 else n

abbrev pub no_stats : GapStats
no_stats = record {
  files_planned = 0;
  files_read = 0;
  files_failed = 0;
  header_rows = 0;
  blank_rows = 0;
  rows_expected = 0;
  rows_parsed = 0;
  rows_rejected = 0;
  backwards_stamps = 0;
  repeated_stamps = 0;
  sequence_gaps = 0;
}

-- The constructor, for the row of the endpoint table that it looks up.
unfoldable pub open_stream :
    Endpoint → Cadence → (symbol interval : List ℕ) → Instrument → (prefetch_depth : ℕ) → Stream
unfolding fresh
open_stream entry cadence symbol interval instrument prefetch_depth = record {
  endpoint = entry;
  cadence = cadence;
  symbol = symbol;
  interval = interval;
  instrument = instrument;
  depth = clamp_depth prefetch_depth;
  paths = [];
  fetch_cursor = 0;
  read_cursor = 0;
  slots = fresh;
  pump_tick = 0;
  reader = record {
    rows = [];
    last_ts = pos 0;
    last_sequence = 0;
    have_sequence = false;
    stats = no_stats;
  };
}

unfoldable pub stream_prefix : Stream → List ℕ
stream_prefix s = prefix s.endpoint s.symbol s.interval s.cadence

-- Whether the plan keeps a key.
pub in_span : (from to : Timestamp) → List ℕ → Bool
in_span from to key =
    let stamp = stamp_of key in
    let start = stamp_start_nanos stamp in
    not (is_empty stamp) && not (ltb_ℤ start from || ltb_ℤ to start)

keep_in_span : (from to : Timestamp) → List (List ℕ) → List (List ℕ)
unfolding in_span
keep_in_span from to [] = []
keep_in_span from to (key ∷ keys) =
    let rest = keep_in_span from to keys in if in_span from to key then key ∷ rest else rest

unfoldable pub plan : Stream → List (List ℕ) → (from to : Timestamp) → Stream
unfolding keep_in_span
plan s keys from to =
    let paths = s.paths ++ keep_in_span from to keys in
    record s {
      paths = paths;
      reader = record s.reader { stats = record s.reader.stats { files_planned = length paths } };
    }

-- Every planned file fetched, read and drained.
pub finished : Stream → Bool
finished s =
    leb (length s.paths) s.fetch_cursor
    && leb s.fetch_cursor s.read_cursor
    && is_empty s.reader.rows

-- `file_url` of the stream.
pub path_url : Stream → ℕ → List ℕ
path_url s index = data_host ++ ((47 ∷ []) ++ get_or s.paths index [])

-- The test of the loop in `pump`; the cursors do not cross, so their difference is `outstanding`.
abbrev pub has_room : Stream → Bool
has_room s = ltb s.fetch_cursor (length s.paths) && ltb (s.fetch_cursor - s.read_cursor) s.depth

module _ {ℓ} {Q : Type ℓ} (pool : FetchPool Q) where
  -- The loop of `pump`, a round for each file that the window takes at most.
  pump_from : ℕ → Q → Stream → Q × Stream
  pump_from zero q s = (q, s)
  pump_from (suc fuel) q s =
      let (taken, q') = pool.submit q (path_url s s.fetch_cursor) s.fetch_cursor in
      let more = pump_from fuel q' (record s { fetch_cursor = s.fetch_cursor + 1 }) in
      if has_room s then if taken then more else (q', s) else (q, s)

  pub pump : Q → Stream → Q × Stream
  unfolding pump_from
  pump q s = pump_from s.depth q s

  -- The cursor and the expected rows, once a file was taken from its slot.
  abbrev take_file : Stream → FileSlots → Stream
  take_file s slots' =
      let expected = expected_rows s.interval (stamp_of (get_or s.paths s.read_cursor [])) in
      record s {
        read_cursor = s.read_cursor + 1;
        slots = slots';
        reader = record s.reader {
          stats = record s.reader.stats { rows_expected = s.reader.stats.rows_expected + expected };
        };
      }

  abbrev count_failed : Stream → Stream
  count_failed s = record s {
    reader = record s.reader {
      stats = record s.reader.stats { files_failed = s.reader.stats.files_failed + 1 };
    };
  }

  abbrev open_file : Stream → List ℕ → Stream
  open_file s body = record s {
    reader = record s.reader {
      rows = body;
      stats = record s.reader.stats { files_read = s.reader.stats.files_read + 1 };
    };
  }

  -- The loop of `load_next_file`, with a round for each planned file.
  load_from : ℕ → Q → Stream → Bool × Q × Stream
  unfolding pump is_failure
  load_from zero q s = (false, q, s)
  load_from (suc fuel) q s =
      let (file, slots') = take slot_bits s.slots s.read_cursor in
      let (q', s') = pump q (take_file s slots') in
      let more = load_from fuel q' (count_failed s') in
      elim file [
        | none ↦ (false, q, s)
        | some f ↦ if is_failure f.status then more else (true, q', open_file s' f.body)
      ]

  pub load_next_file : Q → Stream → Bool × Q × Stream
  unfolding load_from
  load_next_file q s = load_from (length s.paths + 1) q s

  module _ {κ} {E : Type κ} (p : Parser E) where
    abbrev pub stamped : Stream → Timestamp × E → EventBase × E
    stamped s (ts, payload) = (
      record {
        kind = p.event_kind;
        exchange = s.instrument.exchange;
        market = s.instrument.market;
        symbol = s.instrument.symbol;
        ts = ts;
      },
      payload,
    )

    -- The outer loop of `next`: a file where no row is left, then its rows.
    next_from : ℕ → Q → Stream → Option (EventBase × E) × Q × Stream
    unfolding load_next_file read_rows
    next_from zero q s = (none, q, s)
    next_from (suc fuel) q s =
        let (there, q', s') = if is_empty s.reader.rows then load_next_file q s else (true, q, s) in
        let (found, reader') = read_rows (length s'.reader.rows) p s'.endpoint s'.reader in
        let more = next_from fuel q' (record s' { reader = reader' }) in
        if there
        then elim found [
          | none ↦ more
          | some event ↦ (some (stamped s' event), q', record s' { reader = reader' })
        ]
        else (none, q', s')

    -- `rows_.empty() || (++pump_tick_ & kPumpMask) == 0`: the tick moves only while there are rows.
    abbrev tick : Stream → Bool × Stream
    tick s =
        let t = to_size (s.pump_tick + 1) in
        if is_empty s.reader.rows then (true, s) else (t % 256 == 0, record s { pump_tick = t })

    pub next : Q → Stream → Option (EventBase × E) × Q × Stream
    unfolding next_from pump
    next q s =
        let (due, s') = tick s in
        let (q', s'') = if due then pump q s' else (q, s') in next_from (length s.paths + 2) q' s''
