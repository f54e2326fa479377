-- ===== src/Core/Portfolio/Ledger.antt =====
-- The books per instrument: what fills, funding and marks do to one, and that others do not move.
use quant_platform.Base.{
  ℕ, ◌*◌, ◌<◌, ◌≡◌, refl, ap, ◌∙◌, Bool, ◌&&◌, List, [], ◌∷◌, length, length-set, get_or-update,
  if◌then◌else◌, ◌==◌, arith,
}
use quant_platform.Double.{Double}
use quant_platform.Core.Types.{Fill}
use quant_platform.Core.Portfolio.{
  Portfolio, index, position, fees_of, apply_fill, apply_fills, signed,
}
use quant_platform.Core.Portfolio.Index.{slot_lt, slot_injective}

-- Every column has one entry for each slot of `n` exchanges.
pub record IsSized {ℓ} {W : Type ℓ} (n : ℕ) (p : Portfolio W) : Type 0 where
  pub positions : length p.positions ≡ n * p.max_market * p.max_symbol
  pub mark_price : length p.mark_price ≡ n * p.max_market * p.max_symbol
  pub funding_mark_price : length p.funding_mark_price ≡ n * p.max_market * p.max_symbol
  pub fees : length p.fees ≡ n * p.max_market * p.max_symbol
  pub funding_paid : length p.funding_paid ≡ n * p.max_market * p.max_symbol
  pub funding_received : length p.funding_received ≡ n * p.max_market * p.max_symbol

-- An instrument that the portfolio has a slot for.
pub record InRange {ℓ} {W : Type ℓ} (n : ℕ) (p : Portfolio W) (exchange market symbol : ℕ)
    : Type 0 where
  pub exchange_lt : exchange < n
  pub market_lt : market < p.max_market
  pub symbol_lt : symbol < p.max_symbol

abbrev pub same : (e m s e' m' s' : ℕ) → Bool
same e m s e' m' s' = e == e' && m == m' && s == s'

module _ {ℓ} {W : Type ℓ} ⦃d : Double W⦄ (n : ℕ) where
  open d use {nought, add, sub, mul}

  pub index_lt :
      (p : Portfolio W) {e m s : ℕ}
      → InRange n p e m s
      → index p e m s < n * p.max_market * p.max_symbol
  unfolding index
  index_lt p {e} {m} {s} r =
      slot_lt n p.max_market p.max_symbol e m s r.exchange_lt r.market_lt r.symbol_lt

  -- Slots are equal exactly for one instrument.
  pub index-same :
      (p : Portfolio W) (e m s e' m' s' : ℕ)
      → InRange n p e m s
      → InRange n p e' m' s'
      → (index p e m s == index p e' m' s') ≡ same e m s e' m' s'
  unfolding index
  index-same p e m s e' m' s' r r' = ground (
    arith,
    slot_injective p.max_market p.max_symbol e m s e' m' s' r.market_lt r.symbol_lt r'.market_lt
        r'.symbol_lt,
  )

  pub apply_fill-IsSized : (p : Portfolio W) (f : Fill W) → IsSized n p → IsSized n (apply_fill p f)
  unfolding apply_fill
  apply_fill-IsSized p f v = record {
    positions = length-set p.positions _ _ ∙ v.positions;
    mark_price = v.mark_price;
    funding_mark_price = v.funding_mark_price;
    fees = length-set p.fees _ _ ∙ v.fees;
    funding_paid = v.funding_paid;
    funding_received = v.funding_received;
  }

  -- One fill moves the position and the fees of its own instrument, by the signed quantity and the
  -- fee, and no other.
  fill_moves :
      (p : Portfolio W) (f : Fill W) (e m s : ℕ)
      → IsSized n p
      → InRange n p f.exchange f.market f.symbol
      → InRange n p e m s
      → let own = same f.exchange f.market f.symbol e m s in
        (position (apply_fill p f) e m s
          ≡ (if own then add (position p e m s) (signed f.side f.qty) else position p e m s))
        × (fees_of (apply_fill p f) e m s
            ≡ (if own then add (fees_of p e m s) f.fee else fees_of p e m s))
  unfolding apply_fill position fees_of index
  fill_moves p f e m s v rf r =
      let i = index p f.exchange f.market f.symbol in
      let j = index p e m s in
      let own = index-same p f.exchange f.market f.symbol e m s rf r in
      let room = index_lt p rf in
      (
        rw (← own) (
            get_or-update p.positions i j (λ w. add w (signed f.side f.qty)) nought
              (omega (arith, v.positions))),
        rw (← own) (get_or-update p.fees i j (λ w. add w f.fee) nought (omega (arith, v.fees))),
      )

  -- The trades of one instrument among the fills, added up in order, and likewise its fees.
  abbrev pub traded : (e m s : ℕ) → W → List (Fill W) → W
  traded e m s acc [] = acc
  traded e m s acc (f ∷ fs) =
      traded e m s
        (if same f.exchange f.market f.symbol e m s then add acc (signed f.side f.qty) else acc) fs

  abbrev pub charged : (e m s : ℕ) → W → List (Fill W) → W
  charged e m s acc [] = acc
  charged e m s acc (f ∷ fs) =
      charged e m s (if same f.exchange f.market f.symbol e m s then add acc f.fee else acc) fs

  abbrev pub FillsInRange : Portfolio W → List (Fill W) → Type 0
  FillsInRange p [] = Unit {0}
  FillsInRange p (f ∷ fs) = InRange n p f.exchange f.market f.symbol × FillsInRange p fs

  InRange-apply_fill :
      (p : Portfolio W) (f : Fill W) {e m s : ℕ}
      → InRange n p e m s
      → InRange n (apply_fill p f) e m s
  unfolding apply_fill
  InRange-apply_fill p f r = record {
    exchange_lt = r.exchange_lt;
    market_lt = r.market_lt;
    symbol_lt = r.symbol_lt;
  }

  FillsInRange-apply_fill :
      (p : Portfolio W) (f : Fill W) (fs : List (Fill W))
      → FillsInRange p fs
      → FillsInRange (apply_fill p f) fs
  FillsInRange-apply_fill p f [] h = tt
  FillsInRange-apply_fill p f (g ∷ fs) h =
      (InRange-apply_fill p f h.0, FillsInRange-apply_fill p f fs h.1)

  -- After any fills of instruments in range, the position of an instrument is the one before with
  -- the signed quantities of its own fills added in order, and its fees those before with its own
  -- fees added: no fill leaks into another instrument.
  pub apply_fills_ledger :
      (fs : List (Fill W)) (p : Portfolio W) (e m s : ℕ)
      → IsSized n p
      → FillsInRange p fs
      → InRange n p e m s
      → (position (apply_fills p fs) e m s ≡ traded e m s (position p e m s) fs)
        × (fees_of (apply_fills p fs) e m s ≡ charged e m s (fees_of p e m s) fs)
  unfolding apply_fills
  apply_fills_ledger [] p e m s v h r = (refl, refl)
  apply_fills_ledger (f ∷ fs) p e m s v h r =
      let moves = fill_moves p f e m s v h.0 r in
      let rest =
        apply_fills_ledger fs (apply_fill p f) e m s (apply_fill-IsSized p f v)
          (FillsInRange-apply_fill p f fs h.1) (InRange-apply_fill p f r) in
      (rest.0 ∙ ap (λ w. traded e m s w fs) moves.0, rest.1 ∙ ap (λ w. charged e m s w fs) moves.1)
