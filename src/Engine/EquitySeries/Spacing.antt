-- ===== src/Engine/EquitySeries/Spacing.antt =====
-- The distance between two recorded points.
use mathlib.Core.List.{append_assoc, append-nil}
use quant_platform.Base.{
  ◌≡◌, ◌∙◌, refl, sym, ap, inl, inr, Bool, true, false, ◌&&◌, List, [], ◌∷◌, ◌++◌, if◌then◌else◌,
  Bool-cases, arith,
}
use quant_platform.Base.Int.{pos, ◌-ℤ◌, ltb_ℤ, ◌≤ℤ◌, ltb_ℤ→ge}
use quant_platform.Double.{Double}
use quant_platform.Core.Types.{Timestamp}
use quant_platform.Core.Portfolio.{Portfolio, equity}
use quant_platform.Engine.EquitySeries.{EquityPoint, EquitySeriesRecorder, sample}

all_of : (a b c c' : Bool) → a ≡ true → b ≡ true → c ≡ c' → (a && b && c) ≡ c'
all_of a b c c' h h' h'' = ground arith

module _ {ℓ} {W : Type ℓ} ⦃d : Double W⦄ where
  pub sample_all : EquitySeriesRecorder W → List (Timestamp × Portfolio W) → EquitySeriesRecorder W
  sample_all r [] = r
  sample_all r ((ts, book) ∷ steps) = sample_all (sample r ts book) steps

  abbrev pub AreSpaced : Timestamp → Timestamp → List (EquityPoint W) → Type 0
  AreSpaced gap last [] = Unit
  AreSpaced gap last (p ∷ ps) = (gap ≤ℤ p.ts -ℤ last) × AreSpaced gap p.ts ps

  -- With an interval and a point, the distance decides.
  sample_lem :
      (r : EquitySeriesRecorder W) (ts : Timestamp) (book : Portfolio W) (soon : Bool)
      → ltb_ℤ (pos 0) r.min_interval_ns ≡ true
      → r.primed ≡ true
      → ltb_ℤ (ts -ℤ r.last_ts) r.min_interval_ns ≡ soon
      → sample r ts book ≡ (
          if soon then r else record r {
            last_ts = ts;
            primed = true;
            sink = r.sink ++ (record { ts = ts; equity = equity book } ∷ []);
          })
  unfolding sample
  sample_lem r ts book soon on primed e =
      ap
        (λ b. if b then r else record r {
          last_ts = ts;
          primed = true;
          sink = r.sink ++ (record { ts = ts; equity = equity book } ∷ []);
        })
        (all_of (ltb_ℤ (pos 0) r.min_interval_ns) r.primed
          (ltb_ℤ (ts -ℤ r.last_ts) r.min_interval_ns) soon on primed e)

  -- With an interval that is positive, a recorder that has a point only adds points to its series, each at
  -- least the interval after the point before it.
  pub sample_all_spaced :
      (steps : List (Timestamp × Portfolio W)) (r : EquitySeriesRecorder W)
      → ltb_ℤ (pos 0) r.min_interval_ns ≡ true
      → r.primed ≡ true
      → (points : List (EquityPoint W)) × ((sample_all r steps).sink ≡ r.sink ++ points)
        × AreSpaced r.min_interval_ns r.last_ts points
  unfolding sample_all
  sample_all_spaced [] r on primed = ([], sym (append-nil r.sink), tt)
  sample_all_spaced ((ts, book) ∷ steps) r on primed =
      elim (Bool-cases (ltb_ℤ (ts -ℤ r.last_ts) r.min_interval_ns)) [
        | inl soon ↦
            let (points, e, spaced) = sample_all_spaced steps r on primed in
            (
              points,
              ap (λ s. (sample_all s steps).sink) (sample_lem r ts book true on primed soon) ∙ e,
              spaced,
            )
        | inr due ↦
            let point : EquityPoint W = record { ts = ts; equity = equity book } in
            let r' : EquitySeriesRecorder W = record r {
              last_ts = ts;
              primed = true;
              sink = r.sink ++ (point ∷ []);
            } in
            let (points, e, spaced) = sample_all_spaced steps r' on refl in
            let step : sample r ts book ≡ r' = sample_lem r ts book false on primed due in
            (
              point ∷ points,
              ap (λ s. (sample_all s steps).sink) step
                  ∙ e
                  ∙ append_assoc r.sink (point ∷ []) points,
              (ltb_ℤ→ge (ts -ℤ r.last_ts) r.min_interval_ns due, spaced),
            )
      ]
