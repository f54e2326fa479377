-- ===== src/Binance/Rows/Trades.antt =====
-- What is known of a trade that was read.
use quant_platform.Base.{
  ℕ, ◌≤◌, ◌≡◌, refl, ap, subst, Bool, true, false, ◌||◌, not, Option, none, some, List,
  if◌then◌else◌, ◌>>=◌, arith,
}
use quant_platform.Base.Int.{ℤ, pos, negsuc, ltb_ℤ, pos_part}
use quant_platform.Double.{Double}
use quant_platform.Core.Types.{Timestamp, TradeEvent}
use quant_platform.Binance.Endpoints.{Endpoint}
use quant_platform.Binance.Rows.{
  is_empty, trade_is_bad, TradeFields, trade_event, read_trade_fields, parse_agg_trades_row,
}

-- A chain that succeeds has a first step that did.
bind-some {ℓ κ} :
    {A : Type ℓ} {B : Type κ} (o : Option A) (f : A → Option B) (b : B)
    → (o >>= f) ≡ some b
    → (a : A) × (o ≡ some a) × (f a ≡ some b)
bind-some none f b h = absurd (cc)
bind-some (some a) f b h = (a, refl, h)

checked {ℓ} :
    {B : Type ℓ} (bad : Bool) (a b : B)
    → (if bad then none else some a) ≡ some b
    → (bad ≡ false) × (a ≡ b)
checked true a b h = absurd (cc)
checked false a b h = (refl, cc)

all_false :
    (a b c d e f : Bool)
    → (a || (b || c || d || e || f)) ≡ false
    → (a ≡ false) × (b ≡ false) × (c ≡ false) × (d ≡ false) × (e ≡ false) × (f ≡ false)
all_false a b c d e f h = ground arith

ids_ordered :
    (first last : ℤ)
    → ltb_ℤ first (pos 0) ≡ false
    → ltb_ℤ last first ≡ false
    → pos_part first ≤ pos_part last
ids_ordered (pos a) (pos b) h h' = ground arith
ids_ordered (pos a) (negsuc b) h h' = ground arith
ids_ordered (negsuc a) last h h' = ground arith

module _ {ℓ} {W : Type ℓ} ⦃d : Double W⦄ where
  tests_fail :
      (f : TradeFields W)
      → trade_is_bad f ≡ false
      → (not (is_empty f.rest) ≡ false)
        × (d.le f.price d.nought ≡ false)
        × (d.le f.qty d.nought ≡ false)
        × (ltb_ℤ f.agg_id (pos 0) ≡ false)
        × (ltb_ℤ f.first_id (pos 0) ≡ false)
        × (ltb_ℤ f.last_id f.first_id ≡ false)
  unfolding trade_is_bad
  tests_fail f h =
      all_false (not (is_empty f.rest)) (d.le f.price d.nought) (d.le f.qty d.nought)
        (ltb_ℤ f.agg_id (pos 0)) (ltb_ℤ f.first_id (pos 0)) (ltb_ℤ f.last_id f.first_id) h

  -- A trade that was read has a price and a quantity that do not compare as at most zero, and its first
  -- underlying id is not above its last.
  pub parse_agg_trades_row_lem :
      (entry : Endpoint) (row : List ℕ) (ts : Timestamp) (t : TradeEvent W)
      → parse_agg_trades_row entry row ≡ some (ts, t)
      → (d.le t.price d.nought ≡ false)
        × (d.le t.qty d.nought ≡ false)
        × (t.first_trade_id ≤ t.last_trade_id)
  unfolding parse_agg_trades_row trade_is_bad
  parse_agg_trades_row_lem entry row ts t h =
      let (f, e, h') =
        bind-some (read_trade_fields entry row)
          (λ f. if trade_is_bad f then none else some (f.stamp, trade_event f)) (ts, t) h in
      let (good, same) = checked (trade_is_bad f) (f.stamp, trade_event f) (ts, t) h' in
      let (complete, price, qty, agg, first, last) = tests_fail f good in
      subst
        (λ t.
          (d.le t.price d.nought ≡ false)
          × (d.le t.qty d.nought ≡ false)
          × (t.first_trade_id ≤ t.last_trade_id))
        (ap (λ p. p.1) same) (price, qty, ids_ordered f.first_id f.last_id first last)
