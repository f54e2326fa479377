-- ===== src/Engine/EquitySeries/Examples.antt =====
-- Samples one unit of time apart, with an interval of two.
use quant_platform.Base.{◌≡◌, refl, true, List, [], ◌∷◌, ◌++◌}
use quant_platform.Base.Int.{pos}
use quant_platform.Double.{Fixed, fixed, fixed_double}
use quant_platform.Core.Types.{Timestamp}
use quant_platform.Core.Portfolio.{Portfolio, empty}
use quant_platform.Engine.EquitySeries.{EquityPoint, EquitySeriesRecorder}
use quant_platform.Engine.EquitySeries.Spacing.{sample_all, sample_all_spaced, AreSpaced}

abbrev recorder : EquitySeriesRecorder Fixed
recorder = record {
  sink = record { ts = pos 5; equity = fixed 0 } ∷ [];
  min_interval_ns = pos 2;
  last_ts = pos 5;
  primed = true;
}

abbrev steps : List (Timestamp × Portfolio Fixed)
steps = (pos 6, empty 1 1 1) ∷ (pos 7, empty 1 1 1) ∷ (pos 8, empty 1 1 1) ∷ []

sample_all_spaced_example :
    (points : List (EquityPoint Fixed)) × ((sample_all recorder steps).sink
      ≡ recorder.sink ++ points)
    × AreSpaced (pos 2) (pos 5) points
sample_all_spaced_example = sample_all_spaced steps recorder refl refl
