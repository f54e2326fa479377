-- ===== src/Engine/EquitySeries.antt =====
-- include/engine/recorder/equity_series/equity_series_recorder.hpp, the side of the recorder. The sink
-- is the list of the points that were pushed to it.
pub mod Spacing
mod Examples
use quant_platform.Base.{Bool, true, false, ◌&&◌, List, [], ◌∷◌, ◌++◌, if◌then◌else◌}
use quant_platform.Base.Int.{pos, ◌-ℤ◌, ltb_ℤ}
use quant_platform.Double.{Double}
use quant_platform.Core.Types.{Timestamp}
use quant_platform.Core.Portfolio.{Portfolio, equity}

pub record EquityPoint {ℓ} (W : Type ℓ) : Type ℓ where
  pub ts : Timestamp
  pub equity : W

pub record EquitySeriesRecorder {ℓ} (W : Type ℓ) : Type ℓ where
  pub sink : List (EquityPoint W)
  pub min_interval_ns : Timestamp
  pub last_ts : Timestamp
  pub primed : Bool

module _ {ℓ} {W : Type ℓ} ⦃d : Double W⦄ where
  pub sample : EquitySeriesRecorder W → Timestamp → Portfolio W → EquitySeriesRecorder W
  sample r ts book =
      if ltb_ℤ (pos 0) r.min_interval_ns && r.primed && ltb_ℤ (ts -ℤ r.last_ts) r.min_interval_ns
      then r
      else record r {
        last_ts = ts;
        primed = true;
        sink = r.sink ++ (record { ts = ts; equity = equity book } ∷ []);
      }
