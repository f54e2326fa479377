-- ===== src/Binance/Rows/BookDepth/Samples.antt =====
-- A sample that was read, as a whole.
use mathlib.Core.Bool.{false≢true}
use native.Mathlib.Nat.{div-add-mod'}
use quant_platform.Base.{
  ℕ, zero, suc, ◌+◌, ◌-◌, ◌*◌, ◌/◌, ◌%◌, ◌≤◌, ◌<◌, ◌≡◌, ◌⊎◌, ◌∙◌, refl, sym, ap, subst, inl, inr,
  Bool, true, false, Option, none, some, List, [], ◌∷◌, if◌then◌else◌, ◌==◌, ltb, length, get_elem?,
  All, Bool-cases, ==_iff, ◌>>=◌, arith,
}
use quant_platform.Base.Int.{pos, ltb_ℤ, eqb_ℤ, abs_ℤ, eq_of_parts}
use quant_platform.Double.{Double}
use quant_platform.Core.Types.{Timestamp, DepthBand, BookDepthBands}
use quant_platform.Binance.Rows.BookDepth.{
  depth_bands, inner_band_hundredths, DepthRow, Sample, bit_of, read_depth_row, hundredths_of,
  band_of, five, add_band, add_row, take_depth_row, read_sample, finish_sample, empty_sample,
  parse_book_depth_group,
}
use quant_platform.Binance.Rows.BookDepth.Bands.{
  tally, tally_none, two_clear, bit_below_11, bit_not_middle, OnSome, OnSome-bind, FromLine, Inv,
  Added, add_inner-Added, add_whole-Added,
}
use quant_platform.Binance.Stream.Lines.{take_row}
use quant_platform.Binance.Stream.Lines.Split.{cut_rows, cut_rows-take_row, length-take_row}

-- A row of some rows.
abbrev pub There : List (List ℕ) → List ℕ → Type 0
There rows line = (i : ℕ) × (get_elem? rows i ≡ some line)

There-later :
    (row : List ℕ) (rows lines : List (List ℕ))
    → All (There rows) lines
    → All (There (row ∷ rows)) lines
There-later row rows [] h = tt
There-later row rows (line ∷ lines) ((i, e), h) = ((suc i, e), There-later row rows lines h)

all-There : (rows : List (List ℕ)) → All (There rows) rows
all-There [] = tt
all-There (row ∷ rows) = ((0, refl), There-later row rows rows (all-There rows))

-- A line whose row has a stamp.
abbrev pub StampedAt {ℓ} : (W : Type ℓ) ⦃d : Double W⦄ → Timestamp → List ℕ → Type ℓ
StampedAt W t line = (r : DepthRow W) × (read_depth_row line ≡ some r) × (r.row_ts ≡ t)

module _ {ℓ} {W : Type ℓ} ⦃d : Double W⦄ where
  add_band-Added :
      (P : List ℕ → Type 0) (n : ℕ) (s : Sample W) (line : List ℕ) (r : DepthRow W)
      → Inv P n s
      → P line
      → read_depth_row line ≡ some r
      → OnSome (Added P n s) (add_band s r)
  unfolding add_band
  add_band-Added P n s line r i there reads =
      let below = ltb_ℤ (hundredths_of r) (pos 0) in
      let amount = abs_ℤ (hundredths_of r) in
      elim (Bool-cases (amount == inner_band_hundredths)) [
        | inl t ↦ rw t (add_inner-Added P n s i below)
        | inr t ↦ elim (Bool-cases (amount % 100 == 0)) [
          | inl u ↦
              let whole : amount % 100 ≡ 0 = (==_iff (amount % 100) 0).0 u in
              rw (t, u)
                (add_whole-Added P n s i below (amount / 100) (band_of r) (record {
                  line = line;
                  row = r;
                  there = there;
                  reads = reads;
                  side = refl;
                  percent = omega (arith, whole, div-add-mod' amount 100);
                  band = refl;
                }))
          | inr u ↦ rw (t, u) tt
        ]
      ]

  -- A row that was taken.
  record Taken (P : List ℕ → Type 0) (s : Sample W) (line : List ℕ) (s' : Sample W) : Type ℓ where
    row : DepthRow W
    reads : read_depth_row line ≡ some row
    stamped : row.row_ts ≡ s'.stamp
    keeps : 1 ≤ s.count → s'.stamp ≡ s.stamp
    count : s'.count ≡ s.count + 1
    inv : Inv P (s.count + 1) s'

  Taken-row :
      (P : List ℕ → Type 0) (s s0 : Sample W) (line : List ℕ) (r : DepthRow W)
      → Inv P s.count s0
      → P line
      → read_depth_row line ≡ some r
      → r.row_ts ≡ s0.stamp
      → (1 ≤ s.count → s0.stamp ≡ s.stamp)
      → s0.count ≡ s.count + 1
      → OnSome (Taken P s line) (add_band s0 r)
  Taken-row P s s0 line r i there reads on keeps count =
      taken_option (add_band s0 r) (add_band-Added P s.count s0 line r i there reads)
    where
      taken_option :
          (o : Option (Sample W)) → OnSome (Added P s.count s0) o → OnSome (Taken P s line) o
      taken_option none a = tt
      taken_option (some s') a = record {
        row = r;
        reads = reads;
        stamped = on ∙ sym a.stamp;
        keeps = λ h. a.stamp ∙ keeps h;
        count = a.count ∙ count;
        inv = a.inv;
      }

  counted_Inv :
      (P : List ℕ → Type 0) (n : ℕ) (s : Sample W) (t : Timestamp) (k : ℕ)
      → Inv P n s
      → Inv P n (record s { count = k; stamp = t })
  counted_Inv P n s t k i = record { counted = i.counted; middle = i.middle; filled = i.filled }

  add_row-Taken :
      (P : List ℕ → Type 0) (s : Sample W) (line : List ℕ) (r : DepthRow W)
      → Inv P s.count s
      → P line
      → read_depth_row line ≡ some r
      → OnSome (Taken P s line) (add_row (record s { count = s.count + 1 }) r)
  unfolding add_row
  add_row-Taken P s line r i there reads = elim (Bool-cases (s.count + 1 == 1)) [
    | inl t ↦
        let first : s.count + 1 ≡ 1 = (==_iff (s.count + 1) 1).0 t in
        rw t (
          Taken-row P s (record s { count = s.count + 1; stamp = r.row_ts }) line r
            (counted_Inv P s.count s r.row_ts (s.count + 1) i) there reads refl
            (λ h. absurd (omega arith)) refl)
    | inr t ↦ elim (Bool-cases (eqb_ℤ r.row_ts s.stamp)) [
      | inl u ↦
          let same : r.row_ts ≡ s.stamp = eq_of_parts r.row_ts s.stamp ((==_iff _ _).0 u) in
          rw (t, u)
            (Taken-row P s (record s { count = s.count + 1 }) line r
              (counted_Inv P s.count s s.stamp (s.count + 1) i) there reads same (λ h. refl) refl)
      | inr u ↦ rw (t, u) tt
    ]
  ]

  take_depth_row-Taken :
      (P : List ℕ → Type 0) (s : Sample W) (line : List ℕ)
      → Inv P s.count s
      → P line
      → OnSome (Taken P s line) (take_depth_row s line)
  unfolding take_depth_row
  take_depth_row-Taken P s line i there =
      elim (Bool-cases (ltb (2 * depth_bands + 2) (s.count + 1))) [
        | inl t ↦ rw t tt
        | inr t ↦ rw t (
            OnSome-bind (Taken P s line) (read_depth_row line)
              (λ r. add_row (record s { count = s.count + 1 }) r)
              (λ r e. add_row-Taken P s line r i there e))
      ]

  record Read (P : List ℕ → Type 0) (s : Sample W) (block : List ℕ) (s' : Sample W) : Type ℓ where
    stamped : All (StampedAt W s'.stamp) (cut_rows block)
    keeps : 1 ≤ s.count → s'.stamp ≡ s.stamp
    count : s'.count ≡ s.count + length (cut_rows block)
    inv : Inv P s'.count s'

  nothing_more : (P : List ℕ → Type 0) (s : Sample W) → Inv P s.count s → Read P s [] s
  nothing_more P s i = record { stamped = tt; keeps = λ h. refl; count = omega arith; inv = i }

  more_rows :
      (P : List ℕ → Type 0) (s s' : Sample W) (c : ℕ) (block : List ℕ)
      → Taken P s (take_row (c ∷ block)).row s'
      → (o : Option (Sample W)) → OnSome (Read P s' (take_row (c ∷ block)).rest) o
      → OnSome (Read P s (c ∷ block)) o
  more_rows P s s' c block t none h = tt
  more_rows P s s' c block t (some s'') h =
      let cut = cut_rows-take_row c block in
      let kept : s''.stamp ≡ s'.stamp = h.keeps (omega (arith, t.count)) in
      record {
        stamped =
            subst (All (StampedAt W s''.stamp)) (sym cut)
              ((t.row, t.reads, t.stamped ∙ sym kept), h.stamped);
        keeps = λ some_before. kept ∙ t.keeps some_before;
        count = omega (arith, h.count, t.count, ap length cut);
        inv = h.inv;
      }

  read_sample-Read :
      (P : List ℕ → Type 0) (fuel : ℕ) (s : Sample W) (block : List ℕ)
      → length block ≤ fuel
      → Inv P s.count s
      → All P (cut_rows block)
      → OnSome (Read P s block) (read_sample fuel s block)
  unfolding read_sample
  read_sample-Read P zero s [] le i h = nothing_more P s i
  read_sample-Read P zero s (c ∷ block) le i h = absurd (omega arith)
  read_sample-Read P (suc fuel) s [] le i h = nothing_more P s i
  read_sample-Read P (suc fuel) s (c ∷ block) le i h =
      let l = take_row (c ∷ block) in
      let (there, rest) = subst (All P) (cut_rows-take_row c block) h in
      let again : (s' : Sample W)
          → Inv P s'.count s'
          → OnSome (Read P s' l.rest) (read_sample fuel s' l.rest) =
        λ s' i'.
          let shorter = length-take_row c block in
          read_sample-Read P fuel s' l.rest (omega arith) i' rest in
      bind_more (take_depth_row s l.row) (take_depth_row-Taken P s l.row i there) again
    where
      bind_more :
          (o : Option (Sample W))
          → OnSome (Taken P s (take_row (c ∷ block)).row) o
          → ((s' : Sample W)
              → Inv P s'.count s'
              → OnSome
                  (Read P s' (take_row (c ∷ block)).rest)
                  (read_sample fuel s' (take_row (c ∷ block)).rest))
          → OnSome
              (Read P s (c ∷ block))
              (o >>= λ s'. read_sample fuel s' (take_row (c ∷ block)).rest)
      bind_more none t again = tt
      bind_more (some s') t again =
          more_rows P s s' c block t (read_sample fuel s' (take_row (c ∷ block)).rest)
            (again s' (subst (λ n. Inv P n s') (sym t.count) t.inv))

  -- What a sample says of its block.
  pub record IsSample (block : List ℕ) (t : Timestamp) (out : BookDepthBands W) : Type ℓ where
    pub size : (length (cut_rows block) ≡ 10) ⊎ (length (cut_rows block) ≡ 12)
    pub stamped : All (StampedAt W t) (cut_rows block)
    pub bands :
        (below : Bool) (w : ℕ)
        → 1 ≤ w
        → w ≤ 5
        → (b : DepthBand W) × (get_elem? (if below then out.bids else out.asks) (w - 1) ≡ some b)
          × FromLine (There (cut_rows block)) below w b

  get_five : (f : ℕ → DepthBand W) (i : ℕ) → i < 5 → get_elem? (five f) i ≡ some (f i)
  get_five f zero lt = refl
  get_five f (suc zero) lt = refl
  get_five f (suc (suc zero)) lt = refl
  get_five f (suc (suc (suc zero))) lt = refl
  get_five f (suc (suc (suc (suc zero)))) lt = refl
  get_five f (suc (suc (suc (suc (suc i))))) lt = absurd (omega arith)

  -- Ten bits are set, and the middle one is not: all bands are there.
  all_seen :
      (P : List ℕ → Type 0) (n : ℕ) (s : Sample W)
      → Inv P n s
      → 10 ≤ tally 11 s.seen
      → (below : Bool) (w : ℕ) → 1 ≤ w
      → w ≤ 5
      → s.seen (bit_of below w) ≡ true
  all_seen P n s i full below w ge le = elim (Bool-cases (s.seen (bit_of below w))) [
    | inl t ↦ t
    | inr t ↦
        let few =
          two_clear 11 s.seen (bit_of below w) 5 (bit_below_11 below w le) (omega arith)
            (bit_not_middle below w ge le) t i.middle in
        absurd (omega (arith, few, full))
  ]

  sample_of :
      (block : List ℕ) (s : Sample W)
      → Read (There (cut_rows block)) empty_sample block s
      → 10 ≤ tally 11 s.seen
      → (s.count ≡ 10) ⊎ (s.count ≡ 12)
      → IsSample block s.stamp (record { bids = five s.bids; asks = five s.asks })
  sample_of block s r full size = record {
    size = elim size [
      | inl e ↦ inl (omega (arith, e, r.count))
      | inr e ↦ inr (omega (arith, e, r.count))
    ];
    stamped = r.stamped;
    bands = bands;
  }
    where
      bands :
          (below : Bool) (w : ℕ)
          → 1 ≤ w
          → w ≤ 5
          → (b : DepthBand W) × (get_elem? (if below then five s.bids else five s.asks) (w - 1)
              ≡ some b)
            × FromLine (There (cut_rows block)) below w b
      bands true w ge le = (
        s.bids (w - 1),
        get_five s.bids (w - 1) (omega arith),
        r.inv.filled true w ge le (all_seen _ s.count s r.inv full true w ge le),
      )
      bands false w ge le = (
        s.asks (w - 1),
        get_five s.asks (w - 1) (omega arith),
        r.inv.filled false w ge le (all_seen _ s.count s r.inv full false w ge le),
      )

  finish_sample-IsSample :
      (block : List ℕ) (s : Sample W)
      → Read (There (cut_rows block)) empty_sample block s
      → OnSome (λ (t, out). IsSample block t out) (finish_sample s)
  unfolding finish_sample
  finish_sample-IsSample block s r =
      let counted = r.inv.counted in
      elim (Bool-cases s.inner_bid) [
        | inl t ↦ elim (Bool-cases s.inner_ask) [
          | inl u ↦ elim (Bool-cases (s.count == 12)) [
            | inl v ↦
                let all : s.count ≡ 12 = (==_iff s.count 12).0 v in
                rw (t, u, v)
                  (sample_of block s r (omega (arith, counted, all, bit t, bit u)) (inr all))
            | inr v ↦ rw (t, u, v) tt
          ]
          | inr u ↦ rw (t, u) tt
        ]
        | inr t ↦ elim (Bool-cases s.inner_ask) [
          | inl u ↦ rw (t, u) tt
          | inr u ↦ elim (Bool-cases (s.count == 10)) [
            | inl v ↦
                let all : s.count ≡ 10 = (==_iff s.count 10).0 v in
                rw (t, u, v)
                  (sample_of block s r (omega (arith, counted, all, bit t, bit u)) (inl all))
            | inr v ↦ rw (t, u, v) tt
          ]
        ]
      ]
    where
      bit : {b c : Bool} → b ≡ c → ◌≡◌ {A = ℕ} (if b then 1 else 0) (if c then 1 else 0)
      bit e = ap {B = ℕ} (λ b. if b then 1 else 0) e

  -- A sample that is read out of a block has ten or twelve rows, all of its own stamp, and each of its
  -- five bands on either side is the depth and the notional of a row of the block for that percent.
  pub parse_book_depth_group-IsSample :
      (block : List ℕ) (t : Timestamp) (out : BookDepthBands W)
      → parse_book_depth_group block ≡ some (t, out)
      → IsSample block t out
  unfolding parse_book_depth_group
  parse_book_depth_group-IsSample block t out e =
      subst (OnSome (λ (t, out). IsSample block t out)) e (
        OnSome-bind (λ (t, out). IsSample block t out)
          (read_sample (length block) empty_sample block) (λ s. finish_sample s)
          (λ s read. finish_sample-IsSample block s (
            subst (OnSome (Read (There (cut_rows block)) empty_sample block)) read (
              read_sample-Read (There (cut_rows block)) (length block) empty_sample block
                (omega arith) start (all-There (cut_rows block))))))
    where
      start : Inv {W = W} (There (cut_rows block)) 0 empty_sample
      start = record {
        counted = omega (arith, tally_none 11);
        middle = refl;
        filled = λ below w ge le on. absurd (false≢true on);
      }
