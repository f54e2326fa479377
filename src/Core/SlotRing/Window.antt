-- ===== src/Core/SlotRing/Window.antt =====
-- The slot ring against a window of positions, which may be filled in any order and are taken in order.
use Prim.Native.Nat.{bit_and}
use native.Mathlib.Nat.{
  div-add-mod', mod-lt, mod-eq_of_lt, mod-add-mod, add-mod_right, add-mul-mod_self_right,
}
use quant_platform.Base.{
  ℕ, ◌+◌, ◌-◌, ◌*◌, ◌/◌, ◌%◌, ◌^◌, ◌<◌, ◌≤◌, ◌≡◌, ◌≢◌, ◌∙◌, refl, sym, ap, ap₂, subst, inl, inr,
  Bool, true, false, ◌&&◌, Option, none, some, if◌then◌else◌, ◌==◌, ltb, leb, ltb→lt, put, put_self,
  put_ne, to_size, to_size_small, lap_apart, Bool-cases, ==_iff, ==_false, arith,
}
use quant_platform.Base.Bits.{bit_and-mask, pow_pos}
use quant_platform.Core.SlotRing.{SlotRing, cell_of, fresh, place, ready, take, filled}

abbrev pub is_some {ℓ} : {A : Type ℓ} → Option A → Bool
is_some none = false
is_some (some a) = true

-- The position that the consumer takes next, and all values that were placed, by position.
pub record Window {ℓ} (A : Type ℓ) : Type ℓ where
  pub read : ℕ
  pub content : ℕ → Option A

module _ {ℓ} {A : Type ℓ} where
  abbrev pub opened : Window A
  opened = record { read = 0; content = λ p. none }

  -- A position takes one value, while it is less than a lap ahead of the consumer.
  abbrev pub is_free : ℕ → Window A → ℕ → Bool
  is_free k w p =
      leb w.read p && ltb p (w.read + 2 ^ k) && (if is_some (w.content p) then false else true)

  abbrev pub fill : ℕ → Window A → ℕ → A → Bool × Window A
  fill k w p v =
      if is_free k w p then (true, record w { content = put w.content p (some v) }) else (false, w)

  abbrev pub pop : Window A → Option A × Window A
  pop w = (
    w.content w.read,
    record w { read = if is_some (w.content w.read) then w.read + 1 else w.read },
  )

module _ {ℓ} {A : Type ℓ} (k : ℕ) where
  -- The cell of a position that is empty, or that holds a value.
  abbrev Cell : SlotRing A → ℕ → Option A → Type ℓ
  Cell r p none = (r.seq (p % 2 ^ k) ≡ p) × Unit {ℓ}
  Cell r p (some v) = (r.seq (p % 2 ^ k) ≡ p + 1) × (r.storage (p % 2 ^ k) ≡ some v)

  -- The ring holds this window.
  pub record Holds (r : SlotRing A) (w : Window A) : Type ℓ where
    pub cells : (p : ℕ) → w.read ≤ p → p < w.read + 2 ^ k → Cell r p (w.content p)
    pub beyond : (p : ℕ) → w.read + 2 ^ k ≤ p → w.content p ≡ none

  pub fresh-Holds : Holds (fresh {A = A}) opened
  unfolding fresh
  fresh-Holds = record {
    cells = λ p le lt. (mod-eq_of_lt {n = p} {m = 2 ^ k} (omega arith), tt);
    beyond = λ p h. refl;
  }

  -- The number that a cell shows.
  Cell-seq :
      (r : SlotRing A) (p : ℕ) (o : Option A)
      → Cell r p o
      → r.seq (p % 2 ^ k) ≡ p + (if is_some o then 1 else 0)
  Cell-seq r p none c = omega (arith, c.0)
  Cell-seq r p (some v) c = c.0

  Cell-storage :
      (r : SlotRing A) (p : ℕ) (o : Option A)
      → Cell r p o
      → is_some o ≡ true
      → r.storage (p % 2 ^ k) ≡ o
  Cell-storage r p none c h = absurd (cc)
  Cell-storage r p (some v) c h = c.1

  -- A cell depends on its own number and value only.
  Cell-same :
      (r r' : SlotRing A) (p : ℕ) (o : Option A)
      → r'.seq (p % 2 ^ k) ≡ r.seq (p % 2 ^ k)
      → r'.storage (p % 2 ^ k) ≡ r.storage (p % 2 ^ k)
      → Cell r p o
      → Cell r' p o
  Cell-same r r' p none e f c = (e ∙ c.0, tt)
  Cell-same r r' p (some v) e f c = (e ∙ c.0, f ∙ c.1)

-- The position of the window that shares a cell with `p`.
abbrev lap_mate : (k read p : ℕ) → ℕ
lap_mate k read p = read + (p + read * 2 ^ k - read) % 2 ^ k

mate_mod : (k read p : ℕ) → lap_mate k read p % 2 ^ k ≡ p % 2 ^ k
mate_mod k read p =
    let far = p + read * 2 ^ k - read in
    let turn : read + far % 2 ^ k ≡ far % 2 ^ k + read = omega arith in
    let back : far + read ≡ p + read * 2 ^ k = grind (arith, pow_pos k) in
    ap (λ n. n % 2 ^ k) turn
    ∙ mod-add-mod far (2 ^ k) read
    ∙ ap (λ n. n % 2 ^ k) back
    ∙ add-mul-mod_self_right p read (2 ^ k)

-- Two positions of one window with one cell are the same.
apart_in :
    (k read p q : ℕ)
    → read ≤ p
    → p < read + 2 ^ k
    → read ≤ q
    → q < read + 2 ^ k
    → q ≢ p
    → q % 2 ^ k ≢ p % 2 ^ k
apart_in k read p q a b c d ne = elim (Bool-cases (ltb q p)) [
  | inl t ↦ let lt = ltb→lt q p t in lap_apart (2 ^ k) q p (pow_pos k) lt (omega arith)
  | inr t ↦
      let lt : p < q = ground arith in
      λ e. lap_apart (2 ^ k) p q (pow_pos k) lt (omega arith) (sym e)
]

-- A cell whose position is not `p` does not show `p` either when it holds a value.
not_shown : (k m p full : ℕ) → 2 ≤ 2 ^ k → full ≤ 1 → m % 2 ^ k ≡ p % 2 ^ k → m ≢ p → m + full ≢ p
not_shown k m p full big le same ne e = elim (Bool-cases (full == 0)) [
  | inl t ↦ ground arith
  | inr t ↦
      let one : full ≡ 1 = ground arith in
      lap_apart (2 ^ k) m p (pow_pos k) (omega arith) (omega arith) same
]

flag : (b : Bool) → (if b then 1 else 0) ≤ 1
flag true = omega arith
flag false = omega arith

module _ {ℓ} {A : Type ℓ} (k : ℕ) (big : 2 ≤ 2 ^ k) where
  -- The number in the cell of a position in the window.
  seq_in :
      (r : SlotRing A) (w : Window A) (p : ℕ)
      → Holds k r w
      → w.read ≤ p
      → p < w.read + 2 ^ k
      → r.seq (cell_of k p) ≡ p + (if is_some (w.content p) then 1 else 0)
  seq_in r w p h le lt =
      ap r.seq (bit_and-mask k p) ∙ Cell-seq k r p (w.content p) (h.cells p le lt)

  -- Outside the window the cell belongs to another position.
  seq_out :
      (r : SlotRing A) (w : Window A) (p : ℕ)
      → Holds k r w
      → (w.read ≤ p → p < w.read + 2 ^ k → ⊥)
      → r.seq (cell_of k p) ≢ p
  seq_out r w p h out e =
      let m = lap_mate k w.read p in
      let below = mod-lt (p + w.read * 2 ^ k - w.read) (pow_pos k) in
      let le : w.read ≤ m = omega arith in
      let lt : m < w.read + 2 ^ k = omega arith in
      let shown = ap r.seq (mate_mod k w.read p) ∙ sym (ap r.seq (bit_and-mask k p)) ∙ e in
      not_shown k m p (if is_some (w.content m) then 1 else 0) big (flag (is_some (w.content m)))
        (mate_mod k w.read p)
        (λ same. out (subst (λ n. w.read ≤ n) same le) (subst (λ n. n < w.read + 2 ^ k) same lt))
        (sym (Cell-seq k r m (w.content m) (h.cells m le lt)) ∙ shown)

  free_in :
      (w : Window A) (p : ℕ)
      → is_free k w p ≡ true
      → (w.read ≤ p) × (p < w.read + 2 ^ k) × (is_some (w.content p) ≡ false)
  free_in w p h = ground arith

  pub in_free :
      (w : Window A) (p : ℕ)
      → w.read ≤ p
      → p < w.read + 2 ^ k
      → is_free k w p ≡ (if is_some (w.content p) then false else true)
  in_free w p le lt = ground arith

  -- The cell shows exactly the positions that are free.
  shows_free :
      (r : SlotRing A) (w : Window A) (p : ℕ)
      → Holds k r w
      → (r.seq (cell_of k p) == p) ≡ is_free k w p
  shows_free r w p h = elim (Bool-cases (leb w.read p && ltb p (w.read + 2 ^ k))) [
    | inl t ↦
        let le : w.read ≤ p = ground arith in
        let lt : p < w.read + 2 ^ k = ground arith in
        ap (λ n. n == p) (seq_in r w p h le lt)
        ∙ shown (is_some (w.content p)) p
        ∙ sym (in_free w p le lt)
    | inr t ↦
        let out : w.read ≤ p → p < w.read + 2 ^ k → ⊥ = λ le lt. ground arith in
        let off : is_free k w p ≡ false = ground arith in
        ==_false (r.seq (cell_of k p)) p (seq_out r w p h out) ∙ sym off
  ]
    where
      shown : (b : Bool) (p : ℕ) → (p + (if b then 1 else 0) == p) ≡ (if b then false else true)
      shown true p = ground arith
      shown false p = ground arith

  -- The window after a value was placed.
  filled_window :
      (r : SlotRing A) (w : Window A) (p : ℕ) (v : A)
      → Holds k r w
      → w.read ≤ p
      → p < w.read + 2 ^ k
      → w.read + 2 * 2 ^ k ≤ 2 ^ 64
      → Holds k
          (record {
            seq = put r.seq (cell_of k p) (to_size (p + 1));
            storage = put r.storage (cell_of k p) (some v);
          })
          (record w { content = put w.content p (some v) })
  filled_window r w p v h le lt small =
      let at = bit_and-mask k p in
      let r' : SlotRing A = record {
        seq = put r.seq (cell_of k p) (to_size (p + 1));
        storage = put r.storage (cell_of k p) (some v);
      } in
      record {
        cells = λ q qle qlt. elim (Bool-cases (p == q)) [
          | inl t ↦
              let same : p ≡ q = (==_iff p q).0 t in
              subst (λ n. Cell k r' n (put w.content p (some v) n)) same
                (subst (Cell k r' p) (sym (put_self w.content p (some v))) (
                  ap (put r.seq (cell_of k p) (to_size (p + 1))) (sym at)
                      ∙ put_self r.seq (cell_of k p) (to_size (p + 1))
                      ∙ to_size_small (p + 1) (omega arith),
                  ap (put r.storage (cell_of k p) (some v)) (sym at)
                      ∙ put_self r.storage (cell_of k p) (some v),
                ))
          | inr t ↦
              let ne : q ≢ p = λ e. ground arith in
              let ne' : p ≢ q = λ e. ne (sym e) in
              let far : cell_of k p ≢ q % 2 ^ k =
                λ e. apart_in k w.read p q le lt qle qlt ne (sym e ∙ at) in
              subst (Cell k r' q) (sym (put_ne w.content p q (some v) ne')) (
                Cell-same k r r' q (w.content q)
                  (put_ne r.seq (cell_of k p) (q % 2 ^ k) (to_size (p + 1)) far)
                  (put_ne r.storage (cell_of k p) (q % 2 ^ k) (some v) far) (h.cells q qle qlt))
        ];
        beyond = λ q far.
            let ne : p ≢ q = λ e. omega arith in put_ne w.content p q (some v) ne ∙ h.beyond q far;
      }

  -- A position takes a value exactly when it is free, and a refusal changes nothing.
  pub place-Holds :
      (r : SlotRing A) (w : Window A) (p : ℕ) (v : A)
      → Holds k r w
      → w.read + 2 * 2 ^ k ≤ 2 ^ 64
      → ((place k r p v).0 ≡ (fill k w p v).0) × Holds k (place k r p v).1 (fill k w p v).1
  unfolding place
  place-Holds r w p v h small = elim (Bool-cases (is_free k w p)) [
    | inl t ↦
        let (le, lt, _) = free_in w p t in
        rw (shows_free r w p h ∙ t, t) (refl, filled_window r w p v h le lt small)
    | inr t ↦ rw (shows_free r w p h ∙ t, t) (refl, h)
  ]

  -- Whether a cell of the window shows that it holds a value.
  shows_full :
      (r : SlotRing A) (w : Window A) (p : ℕ)
      → Holds k r w
      → w.read ≤ p
      → p < w.read + 2 ^ k
      → w.read + 2 * 2 ^ k ≤ 2 ^ 64
      → (r.seq (cell_of k p) == to_size (p + 1)) ≡ is_some (w.content p)
  shows_full r w p h le lt small =
      ap₂ (λ a b. a == b) (seq_in r w p h le lt) (to_size_small (p + 1) (omega arith))
      ∙ shown (is_some (w.content p)) p
    where
      shown : (b : Bool) (p : ℕ) → (p + (if b then 1 else 0) == p + 1) ≡ b
      shown true p = ground arith
      shown false p = ground arith

  -- The window after its first value was taken.
  emptied_window :
      (r : SlotRing A) (w : Window A)
      → Holds k r w
      → w.read + 2 * 2 ^ k ≤ 2 ^ 64
      → Holds k
          (record r { seq = put r.seq (cell_of k w.read) (to_size (w.read + 2 ^ k)) })
          (record w { read = w.read + 1 })
  emptied_window r w h small =
      let at = bit_and-mask k w.read in
      let r' : SlotRing A = record r {
        seq = put r.seq (cell_of k w.read) (to_size (w.read + 2 ^ k));
      } in
      let next : r'.seq (w.read % 2 ^ k) ≡ w.read + 2 ^ k =
        ap (put r.seq (cell_of k w.read) (to_size (w.read + 2 ^ k))) (sym at)
        ∙ put_self r.seq (cell_of k w.read) (to_size (w.read + 2 ^ k))
        ∙ to_size_small (w.read + 2 ^ k) (omega arith) in
      record {
        cells = λ q qle qlt. elim (Bool-cases (q == w.read + 2 ^ k)) [
          | inl t ↦
              let same : q ≡ w.read + 2 ^ k = (==_iff q (w.read + 2 ^ k)).0 t in
              subst (λ n. Cell k r' n (w.content n)) (sym same)
                (subst (Cell k r' (w.read + 2 ^ k)) (sym (h.beyond (w.read + 2 ^ k) (omega arith)))
                  (ap r'.seq (add-mod_right w.read (2 ^ k)) ∙ next, tt))
          | inr t ↦
              let inside : q < w.read + 2 ^ k = ground arith in
              let far : cell_of k w.read ≢ q % 2 ^ k =
                λ e. lap_apart (2 ^ k) w.read q (pow_pos k) (omega arith) inside (sym at ∙ e) in
              Cell-same k r r' q (w.content q)
                (put_ne r.seq (cell_of k w.read) (q % 2 ^ k) (to_size (w.read + 2 ^ k)) far) refl
                (h.cells q (omega arith) inside)
        ];
        beyond = λ q far. h.beyond q (omega arith);
      }

  pub take-Holds :
      (r : SlotRing A) (w : Window A)
      → Holds k r w
      → w.read + 2 * 2 ^ k ≤ 2 ^ 64
      → ((take k r w.read).0 ≡ (pop w).0) × Holds k (take k r w.read).1 (pop w).1
  unfolding take
  take-Holds r w h small =
      let test = shows_full r w w.read h (omega arith) (omega (arith, pow_pos k)) small in
      elim (Bool-cases (is_some (w.content w.read))) [
        | inl t ↦
            let here = h.cells w.read (omega arith) (omega (arith, pow_pos k)) in
            rw (test ∙ t, t)
              (
                ap r.storage (bit_and-mask k w.read)
                    ∙ Cell-storage k r w.read (w.content w.read) here t,
                emptied_window r w h small,
              )
        | inr t ↦ rw (test ∙ t, t) (nothing (w.content w.read) t, h)
      ]
    where
      nothing : (o : Option A) → is_some o ≡ false → none ≡ o
      nothing none e = refl
      nothing (some v) e = absurd (cc)

  -- What the consumer is told of a position, and what the destructor finds in its cell.
  pub ready-Holds :
      (r : SlotRing A) (w : Window A) (p : ℕ)
      → Holds k r w
      → w.read ≤ p
      → p < w.read + 2 ^ k
      → w.read + 2 * 2 ^ k ≤ 2 ^ 64
      → (ready k r p ≡ is_some (w.content p)) × (filled k r (p % 2 ^ k) ≡ is_some (w.content p))
  unfolding ready filled
  ready-Holds r w p h le lt small =
      let full = if is_some (w.content p) then 1 else 0 in
      let at : r.seq (p % 2 ^ k) ≡ p + full = Cell-seq k r p (w.content p) (h.cells p le lt) in
      let whole = div-add-mod' p (2 ^ k) in
      let low = flag (is_some (w.content p)) in
      let apart : to_size (2 ^ 64 + r.seq (p % 2 ^ k) - p % 2 ^ k) ≡ full + p / 2 ^ k * 2 ^ k =
        omega arith in
      let rest : bit_and (to_size (2 ^ 64 + r.seq (p % 2 ^ k) - p % 2 ^ k)) (2 ^ k - 1) ≡ full =
        bit_and-mask k (to_size (2 ^ 64 + r.seq (p % 2 ^ k) - p % 2 ^ k))
        ∙ ap (λ n. n % 2 ^ k) apart
        ∙ add-mul-mod_self_right full (p / 2 ^ k) (2 ^ k)
        ∙ mod-eq_of_lt {n = full} {m = 2 ^ k} (omega arith) in
      (shows_full r w p h le lt small, ap (λ n. n == 1) rest ∙ shown (is_some (w.content p)))
    where
      shown : (b : Bool) → ((if b then 1 else 0) == 1) ≡ b
      shown true = refl
      shown false = refl
