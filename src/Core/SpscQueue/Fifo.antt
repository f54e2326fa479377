-- ===== src/Core/SpscQueue/Fifo.antt =====
-- The ring is a first-in first-out list of at most one less than the capacity.
use native.Mathlib.Nat.{add-mod_right, mod-lt, mod-eq_of_lt, mod-add-mod}
use quant_platform.Base.{
  ℕ, suc, ◌+◌, ◌%◌, ◌^◌, ◌<◌, ◌≤◌, ◌≡◌, ◌≢◌, ◌∙◌, refl, sym, ap, subst, inl, inr, true, false, none,
  some, List, [], ◌∷◌, ◌++◌, if◌then◌else◌, ◌==◌, ltb, lt→ltb, put, put_self, put_ne, to_size,
  to_size_small, lap_apart, length, length-append, get_elem?, get_elem?-append,
  get_elem?-append_end, Bool-cases, ==_iff, ==_false, arith,
}
use quant_platform.Base.Bits.{bit_and-mask, pow_pos}
use quant_platform.Core.SpscQueue.{SpscQueue, step_index, fresh, push, pop}

module _ {ℓ} {A : Type ℓ} (k : ℕ) where
  -- The queue holds exactly these values, the oldest first.
  pub record Holds (q : SpscQueue A) (xs : List A) : Type ℓ where
    pub tail_ok : q.tail < 2 ^ k
    pub head_ok : q.head ≡ (q.tail + length xs) % 2 ^ k
    pub room : length xs < 2 ^ k
    pub kept : (i : ℕ) → i < length xs → q.storage ((q.tail + i) % 2 ^ k) ≡ get_elem? xs i

step_index_lem : (k i : ℕ) → i < 2 ^ k → 2 ^ k ≤ 2 ^ 63 → step_index k i ≡ (i + 1) % 2 ^ k
step_index_lem k i lt le =
    bit_and-mask k (to_size (i + 1)) ∙ ap (λ x. x % 2 ^ k) (to_size_small (i + 1) (omega arith))

not_met : (a b : ℕ) → (a == b) ≡ false → a ≢ b
not_met a b h e = ground arith

-- The head after a push.
next_head : (c t n : ℕ) → 0 < c → ((t + n) % c + 1) % c ≡ (t + (n + 1)) % c
next_head c t n pos =
    let same : t + n + 1 ≡ t + (n + 1) = omega arith in
    mod-add-mod (t + n) c 1 ∙ ap (λ x. x % c) same

-- The next head meets the tail exactly when all other slots are taken.
meets : (c t n : ℕ) → t < c → n < c → (t + (n + 1)) % c ≡ t → n + 1 ≡ c
meets c t n tc nc h = elim (Bool-cases (n + 1 == c)) [
  | inl e ↦ (==_iff (n + 1) c).0 e
  | inr e ↦
      let short : n + 1 < c = ground arith in
      absurd (
        lap_apart c t (t + (n + 1)) (omega arith) (omega arith) (omega arith)
          (mod-eq_of_lt tc ∙ sym h))
]

meets_full : (c t n : ℕ) → t < c → n + 1 ≡ c → (t + (n + 1)) % c ≡ t
meets_full c t n tc h = ap (λ x. (t + x) % c) h ∙ add-mod_right t c ∙ mod-eq_of_lt tc

module _ {ℓ} {A : Type ℓ} (k : ℕ) where
  pub fresh-Holds : Holds k (fresh {A = A}) []
  unfolding fresh
  fresh-Holds = record {
    tail_ok = pow_pos k;
    head_ok = sym (mod-eq_of_lt (pow_pos k));
    room = pow_pos k;
    kept = λ i h. absurd (omega arith);
  }

  -- The answer of a push, and the queue after it.
  pub push-Holds :
      (q : SpscQueue A) (xs : List A) (v : A)
      → 2 ^ k ≤ 2 ^ 63
      → Holds k q xs
      → ((push k q v).0 ≡ ltb (length xs + 1) (2 ^ k))
        × Holds k (push k q v).1 (if ltb (length xs + 1) (2 ^ k) then xs ++ (v ∷ []) else xs)
  unfolding push
  push-Holds q xs v le h =
      let head_lt : q.head < 2 ^ k =
        subst (λ x. x < 2 ^ k) (sym h.head_ok) (mod-lt (q.tail + length xs) (pow_pos k)) in
      let next : step_index k q.head ≡ (q.tail + (length xs + 1)) % 2 ^ k =
        step_index_lem k q.head head_lt le
        ∙ ap (λ x. (x + 1) % 2 ^ k) h.head_ok
        ∙ next_head (2 ^ k) q.tail (length xs) (pow_pos k) in
      elim (Bool-cases (step_index k q.head == q.tail)) [
        | inl e ↦
            let at = (==_iff (step_index k q.head) q.tail).0 e in
            let full = meets (2 ^ k) q.tail (length xs) h.tail_ok h.room (sym next ∙ at) in
            let no : ltb (length xs + 1) (2 ^ k) ≡ false = ground arith in rw (e, no) (refl, h)
        | inr e ↦
            let apart : length xs + 1 ≢ 2 ^ k = λ full.
              not_met (step_index k q.head) q.tail e
                (next ∙ meets_full (2 ^ k) q.tail (length xs) h.tail_ok full) in
            let room = h.room in
            let yes : ltb (length xs + 1) (2 ^ k) ≡ true =
              lt→ltb (length xs + 1) (2 ^ k) (omega arith) in
            let longer = length-append xs (v ∷ []) in
            rw (e, yes)
              (
                refl,
                record {
                  tail_ok = h.tail_ok;
                  head_ok = next ∙ ap (λ n. (q.tail + n) % 2 ^ k) (sym longer);
                  room = omega arith;
                  kept = λ i lt. elim (Bool-cases (i == length xs)) [
                    | inl t ↦
                        let at : i ≡ length xs = (==_iff i (length xs)).0 t in
                        ap (put q.storage q.head (some v))
                          (ap (λ n. (q.tail + n) % 2 ^ k) at ∙ sym h.head_ok)
                        ∙ put_self q.storage q.head (some v)
                        ∙ sym (get_elem?-append_end xs v)
                        ∙ ap (get_elem? (xs ++ (v ∷ []))) (sym at)
                    | inr t ↦
                        let below : i < length xs = ground arith in
                        put_ne q.storage q.head ((q.tail + i) % 2 ^ k) (some v) (λ m.
                          lap_apart (2 ^ k) (q.tail + i) (q.tail + length xs) (pow_pos k)
                            (omega arith) (omega arith) (sym m ∙ h.head_ok))
                        ∙ h.kept i below
                        ∙ sym (get_elem?-append xs (v ∷ []) i below)
                  ];
                },
              )
      ]

  pub pop_empty : (q : SpscQueue A) → Holds k q [] → pop k q ≡ (none, q)
  unfolding pop
  pop_empty q h =
      let start : q.tail + 0 ≡ q.tail = omega arith in
      let met : q.head ≡ q.tail = h.head_ok ∙ ap (λ x. x % 2 ^ k) start ∙ mod-eq_of_lt h.tail_ok in
      let yes : (q.tail == q.head) ≡ true = (==_iff q.tail q.head).1 (sym met) in rw yes refl

  pub pop_oldest :
      (q : SpscQueue A) (x : A) (xs : List A)
      → 2 ^ k ≤ 2 ^ 63
      → Holds k q (x ∷ xs)
      → ((pop k q).0 ≡ some x) × Holds k (pop k q).1 xs
  unfolding pop
  pop_oldest q x xs le h =
      let room = h.room in
      let start : q.tail + 0 ≡ q.tail = omega arith in
      let home : (q.tail + 0) % 2 ^ k ≡ q.tail =
        ap (λ n. n % 2 ^ k) start ∙ mod-eq_of_lt h.tail_ok in
      let apart : q.tail ≢ q.head = λ met.
        lap_apart (2 ^ k) (q.tail + 0) (q.tail + suc (length xs)) (pow_pos k) (omega arith)
          (omega arith) (home ∙ met ∙ h.head_ok) in
      let no : (q.tail == q.head) ≡ false = ==_false q.tail q.head apart in
      let next : step_index k q.tail ≡ (q.tail + 1) % 2 ^ k =
        step_index_lem k q.tail h.tail_ok le in
      rw no (
        ap q.storage (sym home) ∙ h.kept 0 (omega arith),
        record {
          tail_ok = subst (λ n. n < 2 ^ k) (sym next) (mod-lt (q.tail + 1) (pow_pos k));
          head_ok =
              let same : q.tail + suc (length xs) ≡ q.tail + 1 + length xs = omega arith in
              h.head_ok
              ∙ ap (λ n. n % 2 ^ k) same
              ∙ sym (mod-add-mod (q.tail + 1) (2 ^ k) (length xs))
              ∙ ap (λ n. (n + length xs) % 2 ^ k) (sym next);
          room = omega arith;
          kept = λ i lt.
              let same : q.tail + 1 + i ≡ q.tail + suc i = omega arith in
              ap (λ n. q.storage ((n + i) % 2 ^ k)) next
              ∙ ap q.storage (mod-add-mod (q.tail + 1) (2 ^ k) i ∙ ap (λ n. n % 2 ^ k) same)
              ∙ h.kept (suc i) (omega arith);
        },
      )
