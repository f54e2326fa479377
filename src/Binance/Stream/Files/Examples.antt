-- ===== src/Binance/Stream/Files/Examples.antt =====
-- A stream of two files over a parser of rows of one digit.
use quant_platform.Base.{ℕ, ◌+◌, ◌-◌, ◌≡◌, refl, true, false, none, some, List, [], ◌∷◌, arith}
use quant_platform.Base.Int.{pos, ◌*ℤ◌, ◌-ℤ◌}
use quant_platform.Binance.Csv.Civil.{days_from_civil}
use quant_platform.Core.SlotRing.{place, take}
use quant_platform.Core.Types.{funding}
use quant_platform.Binance.Endpoints.{
  Endpoint, market_path_of, kind_path_of, usd_m, agg_trades, both, no_column, daily,
}
use quant_platform.Binance.Stamps.{stamp_of, stamp_start_nanos}
use quant_platform.Binance.Stream.Lines.Split.{line_count}
use quant_platform.Binance.Stream.Reader.{Parser, Reader, read_rows}
use quant_platform.Binance.Stream.Reader.Counts.{counted, read_rows_counts}
use quant_platform.Binance.Stream.Reader.Order.{
  text_events, first_event, other_events, read_rows_events,
}
use quant_platform.Binance.Stream.Files.{
  FetchedFile, FetchPool, ok, slot_bits, no_stats, open_stream, plan, next,
}
use quant_platform.Binance.Stream.Files.Cursors.{IsValid}
use quant_platform.Binance.Stream.Files.Steps.{Answers, next-Answers}
use quant_platform.Binance.Stream.Files.Landing.{
  World, land, IsAwaited, Reach, here, on, called, landed, planned_stream, land_taken,
  planned-Reach-IsValid,
}

abbrev some_endpoint : Endpoint
some_endpoint = record {
  market_path = market_path_of usd_m;
  kind_path = kind_path_of agg_trades;
  cadence = both;
  intervalled = false;
  column_count = 7;
  volume_column = no_column;
}

abbrev digit_parser : Parser ℕ
digit_parser = record {
  event_kind = funding;
  endpoint_kind = agg_trades;
  intervalled = false;
  grouped = false;
  parse = λ entry row. elim row [ [] ↦ none | c ∷ rest ↦ some (pos (c - 48), c - 48) ];
  sequence = some (λ n. n);
}

-- A header, a row, a blank row with a carriage return, and a row without a newline: "h\n3\n\r\n5".
abbrev some_text : List ℕ
some_text = 104 ∷ 10 ∷ 51 ∷ 10 ∷ 13 ∷ 10 ∷ 53 ∷ []

abbrev some_reader : Reader
some_reader = record {
  rows = some_text;
  last_ts = pos 0;
  last_sequence = 0;
  have_sequence = false;
  stats = no_stats;
}

read_rows_counts_example :
    counted (read_rows 7 digit_parser some_endpoint some_reader).1.stats
      + line_count (read_rows 7 digit_parser some_endpoint some_reader).1.rows
    ≡ counted no_stats + line_count some_text
read_rows_counts_example = read_rows_counts 7 digit_parser some_endpoint some_reader

read_rows_events_example :
    ((read_rows 7 digit_parser some_endpoint some_reader).0
      ≡ first_event digit_parser some_endpoint (text_events digit_parser some_endpoint some_text))
    × (text_events digit_parser some_endpoint
          (read_rows 7 digit_parser some_endpoint some_reader).1.rows
        ≡ other_events digit_parser some_endpoint
            (text_events digit_parser some_endpoint some_text))
read_rows_events_example =
    read_rows_events digit_parser some_endpoint 7 some_reader refl (omega arith)

-- "A-2024-03-0n.zip".
abbrev some_key : ℕ → List ℕ
some_key n =
    65 ∷ 45 ∷ 50 ∷ 48 ∷ 50 ∷ 52 ∷ 45 ∷ 48 ∷ 51 ∷ 45 ∷ 48 ∷ (48 + n) ∷ 46 ∷ 122 ∷ 105 ∷ 112 ∷ []

abbrev some_pool : FetchPool ℕ
some_pool = record { submit = λ q url position. (true, q + 1) }

abbrev some_world : World
some_world =
    planned_stream some_endpoint daily (65 ∷ []) []
      (record { exchange = 0; market = 1; symbol = 0 }) 16 (some_key 1 ∷ some_key 2 ∷ []) (pos 0)
      (pos 2_000_000_000_000_000_000)

abbrev asked_world : World
asked_world = record some_world { stream = (next some_pool digit_parser 0 some_world.stream).2 }

abbrev some_file : FetchedFile
some_file = record { body = some_text; status = ok }

-- Both files were asked for, and none has landed.
asked_cursors : (asked_world.stream.read_cursor ≡ 0) × (asked_world.stream.fetch_cursor ≡ 2)
unfolding next plan open_stream stamp_of stamp_start_nanos days_from_civil ◌*ℤ◌ ◌-ℤ◌ take
asked_cursors = (refl, refl)

second-IsAwaited : IsAwaited asked_world 1
second-IsAwaited =
    let (read, fetch) = asked_cursors in
    record { not_read = omega arith; requested = omega arith; in_flight = refl }

-- The second file lands first.
some-Reach : Reach some_pool digit_parser some_world (land asked_world 1 some_file)
some-Reach = on (on here (called 0)) (landed 1 some_file second-IsAwaited)

planned-Reach-IsValid_example :
    IsValid (land asked_world 1 some_file).stream (land asked_world 1 some_file).content
planned-Reach-IsValid_example =
    planned-Reach-IsValid some_pool digit_parser some_endpoint daily (65 ∷ []) []
      (record { exchange = 0; market = 1; symbol = 0 }) 16 (some_key 1 ∷ some_key 2 ∷ []) (pos 0)
      (pos 2_000_000_000_000_000_000) (land asked_world 1 some_file) (omega arith) some-Reach

asked-IsValid : IsValid asked_world.stream asked_world.content
asked-IsValid =
    planned-Reach-IsValid some_pool digit_parser some_endpoint daily (65 ∷ []) []
      (record { exchange = 0; market = 1; symbol = 0 }) 16 (some_key 1 ∷ some_key 2 ∷ []) (pos 0)
      (pos 2_000_000_000_000_000_000) asked_world (omega arith) (on here (called 0))

land_taken_example :
    ((place slot_bits asked_world.stream.slots 1 some_file).0 ≡ true)
    × IsValid (land asked_world 1 some_file).stream (land asked_world 1 some_file).content
land_taken_example = land_taken asked_world 1 some_file asked-IsValid second-IsAwaited

next-Answers_example :
    Answers asked_world.content
      (next some_pool digit_parser 0 asked_world.stream).0
      (next some_pool digit_parser 0 asked_world.stream).2
next-Answers_example =
    next-Answers some_pool digit_parser asked_world.content 0 asked_world.stream asked-IsValid
