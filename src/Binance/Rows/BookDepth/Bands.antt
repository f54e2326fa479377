-- ===== src/Binance/Rows/BookDepth/Bands.antt =====
-- What a sample that was read is: every band is a row of its block.
use quant_platform.Base.{
  ℕ, zero, suc, ◌+◌, ◌-◌, ◌*◌, ◌≤◌, ◌<◌, ◌≡◌, ◌≢◌, ◌∙◌, refl, sym, ap, subst, inl, inr, Bool, true,
  false, Option, none, some, List, if◌then◌else◌, ◌==◌, ltb, put, put_self, put_ne, Bool-cases,
  ==_iff, ◌>>=◌, arith,
}
use quant_platform.Base.Int.{pos, ltb_ℤ, abs_ℤ}
use quant_platform.Double.{Double}
use quant_platform.Core.Types.{DepthBand}
use quant_platform.Binance.Rows.BookDepth.{
  depth_bands, DepthRow, Sample, bit_of, read_depth_row, hundredths_of, band_of, place_band,
  add_inner, add_whole,
}

-- The bits below `n` that are set.
pub tally : ℕ → (ℕ → Bool) → ℕ
tally zero f = 0
tally (suc n) f = tally n f + (if f n then 1 else 0)

pub tally_none : (n : ℕ) → tally n (λ i. false) ≡ 0
unfolding tally
tally_none zero = refl
tally_none (suc n) = omega (arith, tally_none n)

tally-le : (n : ℕ) (f : ℕ → Bool) → tally n f ≤ n
unfolding tally
tally-le zero f = omega arith
tally-le (suc n) f = ground (arith, tally-le n f)

tally_beyond : (n : ℕ) (f : ℕ → Bool) (i : ℕ) → n ≤ i → tally n (put f i true) ≡ tally n f
unfolding tally
tally_beyond zero f i le = refl
tally_beyond (suc n) f i le =
    let rest = tally_beyond n f i (omega arith) in
    let same : put f i true n ≡ f n = put_ne f i n true (λ e. omega arith) in
    omega (arith, rest, ap {B = ℕ} (λ b. if b then 1 else 0) same)

tally-put :
    (n : ℕ) (f : ℕ → Bool) (i : ℕ) → i < n → f i ≡ false → tally n (put f i true) ≡ tally n f + 1
unfolding tally
tally-put zero f i lt off = absurd (omega arith)
tally-put (suc n) f i lt off = elim (Bool-cases (i == n)) [
  | inl t ↦
      let same : i ≡ n = (==_iff i n).0 t in
      let now : put f i true n ≡ true = ap (λ j. put f i true j) (sym same) ∙ put_self f i true in
      let old : f n ≡ false = ap f (sym same) ∙ off in
      let rest = tally_beyond n f i (omega arith) in
      omega (
        arith,
        rest,
        ap {B = ℕ} (λ b. if b then 1 else 0) now,
        ap {B = ℕ} (λ b. if b then 1 else 0) old,
      )
  | inr t ↦
      let ne : i ≢ n = λ e. ground arith in
      let rest = tally-put n f i (omega arith) off in
      omega (arith, rest, ap {B = ℕ} (λ b. if b then 1 else 0) (put_ne f i n true ne))
]

-- With two bits clear the others cannot be more than two fewer.
pub two_clear :
    (n : ℕ) (f : ℕ → Bool) (i j : ℕ)
    → i < n
    → j < n
    → i ≢ j
    → f i ≡ false
    → f j ≡ false
    → tally n f + 2 ≤ n
two_clear n f i j lt lt' ne off off' =
    let one = tally-put n f i lt off in
    let two = tally-put n (put f i true) j lt' (put_ne f i j true ne ∙ off') in
    omega (arith, one, two, tally-le n (put (put f i true) j true))

pub bit_below_11 : (below : Bool) (w : ℕ) → w ≤ 5 → bit_of below w < 11
bit_below_11 true w le = omega arith
bit_below_11 false w le = omega arith

pub bit_not_middle : (below : Bool) (w : ℕ) → 1 ≤ w → w ≤ 5 → bit_of below w ≢ 5
bit_not_middle true w ge le e = omega arith
bit_not_middle false w ge le e = omega arith

-- What holds of a result, if there is one.
abbrev pub OnSome {ℓ κ} : {A : Type ℓ} → (A → Type κ) → Option A → Type κ
OnSome Q none = Unit
OnSome Q (some a) = Q a

pub OnSome-bind {ℓ ℓ' κ} :
    {A : Type ℓ} {B : Type ℓ'} (Q : B → Type κ) (o : Option A) (f : A → Option B)
    → ((a : A) → o ≡ some a → OnSome Q (f a))
    → OnSome Q (o >>= f)
OnSome-bind Q none f h = tt
OnSome-bind Q (some a) f h = h a refl

module _ {ℓ} {W : Type ℓ} ⦃d : Double W⦄ where
  abbrev pub band_at : Sample W → (below : Bool) → ℕ → DepthBand W
  band_at s below i = if below then s.bids i else s.asks i

  -- A line of `P` whose row is for a whole percent of one side, with the depth and the notional of `b`.
  pub record FromLine (P : List ℕ → Type 0) (below : Bool) (whole : ℕ) (b : DepthBand W)
      : Type ℓ where
    pub line : List ℕ
    pub row : DepthRow W
    pub there : P line
    pub reads : read_depth_row line ≡ some row
    pub side : ltb_ℤ (hundredths_of row) (pos 0) ≡ below
    pub percent : abs_ℤ (hundredths_of row) ≡ whole * 100
    pub band : b ≡ band_of row

  -- After `n` rows: each has set one bit, and each bit of a band has its row.
  pub record Inv (P : List ℕ → Type 0) (n : ℕ) (s : Sample W) : Type ℓ where
    pub counted :
        tally 11 s.seen + (if s.inner_bid then 1 else 0) + (if s.inner_ask then 1 else 0) ≡ n
    pub middle : s.seen 5 ≡ false
    pub filled :
        (below : Bool) (w : ℕ)
        → 1 ≤ w
        → w ≤ 5
        → s.seen (bit_of below w) ≡ true
        → FromLine P below w (band_at s below (w - 1))

  pub record Added (P : List ℕ → Type 0) (n : ℕ) (s s' : Sample W) : Type ℓ where
    pub inv : Inv P (n + 1) s'
    pub count : s'.count ≡ s.count
    pub stamp : s'.stamp ≡ s.stamp

  module _ (P : List ℕ → Type 0) (n : ℕ) (s : Sample W) (i : Inv P n s) where
    pub add_inner-Added : (below : Bool) → OnSome (Added P n s) (add_inner s below)
    unfolding add_inner
    add_inner-Added true = elim (Bool-cases s.inner_bid) [
      | inl t ↦ rw t tt
      | inr t ↦
          let clear = ap {B = ℕ} (λ b. if b then 1 else 0) t in
          rw t (record {
            inv = record {
              counted = omega (arith, i.counted, clear);
              middle = i.middle;
              filled = i.filled;
            };
            count = refl;
            stamp = refl;
          })
    ]
    add_inner-Added false = elim (Bool-cases s.inner_ask) [
      | inl t ↦ rw t tt
      | inr t ↦
          let clear = ap {B = ℕ} (λ b. if b then 1 else 0) t in
          rw t (record {
            inv = record {
              counted = omega (arith, i.counted, clear);
              middle = i.middle;
              filled = i.filled;
            };
            count = refl;
            stamp = refl;
          })
    ]

    -- The sample with one band more.
    abbrev with_band : (below : Bool) → ℕ → DepthBand W → Sample W
    with_band below w b =
        place_band (record s { seen = put s.seen (bit_of below w) true }) below (w - 1) b

    old_band :
        (below other : Bool) (w v : ℕ) (b : DepthBand W)
        → 1 ≤ w
        → w ≤ 5
        → 1 ≤ v
        → v ≤ 5
        → bit_of below w ≢ bit_of other v
        → band_at (with_band below w b) other (v - 1) ≡ band_at s other (v - 1)
    old_band true true w v b ge le ge' le' ne =
        put_ne s.bids (w - 1) (v - 1) b (λ e. ne (ap (λ k. 5 - k) (omega arith)))
    old_band true false w v b ge le ge' le' ne = refl
    old_band false true w v b ge le ge' le' ne = refl
    old_band false false w v b ge le ge' le' ne =
        put_ne s.asks (w - 1) (v - 1) b (λ e. ne (ap (λ k. 5 + k) (omega arith)))

    new_band :
        (below other : Bool) (w v : ℕ) (b : DepthBand W)
        → 1 ≤ w
        → w ≤ 5
        → 1 ≤ v
        → v ≤ 5
        → bit_of below w ≡ bit_of other v
        → (below ≡ other) × (w ≡ v) × (band_at (with_band below w b) other (v - 1) ≡ b)
    new_band true true w v b ge le ge' le' e =
        let same : w ≡ v = omega arith in
        (refl, same, ap (λ k. put s.bids (w - 1) b (k - 1)) (sym same) ∙ put_self s.bids (w - 1) b)
    new_band true false w v b ge le ge' le' e = absurd (omega arith)
    new_band false true w v b ge le ge' le' e = absurd (omega arith)
    new_band false false w v b ge le ge' le' e =
        let same : w ≡ v = omega arith in
        (refl, same, ap (λ k. put s.asks (w - 1) b (k - 1)) (sym same) ∙ put_self s.asks (w - 1) b)

    with_band-filled :
        (below : Bool) (w : ℕ) (b : DepthBand W)
        → 1 ≤ w
        → w ≤ 5
        → FromLine P below w b
        → (other : Bool) (v : ℕ) → 1 ≤ v
        → v ≤ 5
        → put s.seen (bit_of below w) true (bit_of other v) ≡ true
        → FromLine P other v (band_at (with_band below w b) other (v - 1))
    with_band-filled below w b ge le f other v ge' le' on =
        elim (Bool-cases (bit_of below w == bit_of other v)) [
          | inl t ↦
              let (side, same, band) =
                new_band below other w v b ge le ge' le'
                  ((==_iff (bit_of below w) (bit_of other v)).0 t) in
              record {
                line = f.line;
                row = f.row;
                there = f.there;
                reads = f.reads;
                side = f.side ∙ side;
                percent = f.percent ∙ ap (λ k. k * 100) same;
                band = band ∙ f.band;
              }
          | inr t ↦
              let ne : bit_of below w ≢ bit_of other v = λ e. ground arith in
              let old =
                i.filled other v ge' le'
                  (sym (put_ne s.seen (bit_of below w) (bit_of other v) true ne) ∙ on) in
              subst (FromLine P other v) (sym (old_band below other w v b ge le ge' le' ne)) old
        ]

    with_band-Added :
        (below : Bool) (w : ℕ) (b : DepthBand W)
        → 1 ≤ w
        → w ≤ 5
        → s.seen (bit_of below w) ≡ false
        → FromLine P below w b
        → Added P n s (with_band below w b)
    with_band-Added true w b ge le off f =
        let more = tally-put 11 s.seen (5 - w) (bit_below_11 true w le) off in
        record {
          inv = record {
            counted = omega (arith, i.counted, more);
            middle = put_ne s.seen (5 - w) 5 true (bit_not_middle true w ge le) ∙ i.middle;
            filled = with_band-filled true w b ge le f;
          };
          count = refl;
          stamp = refl;
        }
    with_band-Added false w b ge le off f =
        let more = tally-put 11 s.seen (5 + w) (bit_below_11 false w le) off in
        record {
          inv = record {
            counted = omega (arith, i.counted, more);
            middle = put_ne s.seen (5 + w) 5 true (bit_not_middle false w ge le) ∙ i.middle;
            filled = with_band-filled false w b ge le f;
          };
          count = refl;
          stamp = refl;
        }

    pub add_whole-Added :
        (below : Bool) (w : ℕ) (b : DepthBand W)
        → FromLine P below w b
        → OnSome (Added P n s) (add_whole s below w b)
    unfolding add_whole
    add_whole-Added below w b f = elim (Bool-cases (w == 0)) [
      | inl t ↦ rw t tt
      | inr t ↦ elim (Bool-cases (ltb depth_bands w)) [
        | inl u ↦ rw (t, u) tt
        | inr u ↦ elim (Bool-cases (s.seen (bit_of below w))) [
          | inl v ↦ rw (t, u, v) tt
          | inr v ↦ rw (t, u, v) (with_band-Added below w b (ground arith) (ground arith) v f)
        ]
      ]
    ]
