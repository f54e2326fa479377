-- ===== src/Core/SpmcQueue/Threads/Sound.antt =====
-- What holds between any two accesses of the threads, and that the producer keeps it.
use native.Mathlib.Nat.{le_trans, le_refl}
use quant_platform.Base.{
  ℕ, ◌+◌, ◌-◌, ◌%◌, ◌^◌, ◌<◌, ◌≤◌, ◌≡◌, ◌∙◌, sym, ap, subst, Option, some, List, [], ◌∷◌, ◌++◌, inl,
  inr, if◌then◌else◌, ◌==◌, ltb, put, put_self, put_ne, to_size, to_size_small, lap_apart, length,
  length-append, get_elem?, get_elem?-append, get_elem?-append_end, take, take-append, Bool-cases,
  arith, ==_iff, ltb→lt, ltb→ge,
}
use quant_platform.Base.Bits.{bit_and-mask, pow_pos}
use quant_platform.Core.SpmcQueue.{SpmcQueue, masked, construct, publish}
use quant_platform.Core.SpmcQueue.Threads.{
  Producer, idle, scanning, claimed, written, Consumer, resting, reading, holding, Threads,
  produce_step,
}

-- One more cursor is read.
scanned :
    (n : ℕ) (cursors : ℕ → ℕ) (i min : ℕ)
    → ((j : ℕ) → j < n → j < i → min ≤ cursors j)
    → (j : ℕ) → j < n
    → j < i + 1
    → (if ltb (cursors i) min then cursors i else min) ≤ cursors j
scanned n cursors i min least j jn ji = elim (Bool-cases (j == i)) [
  | inl e ↦
      let at : j ≡ i = (==_iff j i).0 e in
      subst (λ x. (if ltb (cursors i) min then cursors i else min) ≤ cursors x) (sym at)
        (ground arith)
  | inr e ↦ let old : min ≤ cursors j = least j jn (ground arith) in ground arith
]

module _ {ℓ} {A : Type ℓ} (k n : ℕ) where
  -- A consumer between its accesses, at its cursor.
  abbrev pub OnTrack : List A → ℕ → Consumer A → Type ℓ
  OnTrack log cur resting = Unit {ℓ}
  OnTrack log cur (reading at) = (at ≡ cur) × (cur < length log) × Unit {ℓ}
  OnTrack log cur (holding at out) = (at ≡ cur) × (cur < length log) × (out ≡ get_elem? log cur)

  -- One consumer has what was published up to its cursor, is less than a lap behind, and finds the
  -- rest in the slots.
  pub record Keeps (storage : ℕ → Option A) (log : List A) (cur : ℕ) (phase : Consumer A)
      (got : List A) : Type ℓ where
    pub seen : got ≡ take cur log
    pub behind : cur ≤ length log
    pub room : length log ≤ cur + 2 ^ k
    pub kept : (i : ℕ) → cur ≤ i → i < length log → storage (i % 2 ^ k) ≡ get_elem? log i
    pub phase_ok : OnTrack log cur phase

  -- The producer between its accesses: what it has learnt of the cursors stays true.
  abbrev pub InTurn : (ℕ → Option A) → List A → (ℕ → ℕ) → Producer A → Type ℓ
  InTurn storage log cursors idle = Unit {ℓ}
  InTurn storage log cursors (scanning v next i min) =
      (next ≡ length log) × (2 ^ k ≤ next) × ((j : ℕ) → j < n → j < i → min ≤ cursors j) × Unit {ℓ}
  InTurn storage log cursors (claimed v next) =
      (next ≡ length log) × ((j : ℕ) → j < n → next < cursors j + 2 ^ k) × Unit {ℓ}
  InTurn storage log cursors (written v next) =
      (next ≡ length log)
      × ((j : ℕ) → j < n → next < cursors j + 2 ^ k)
      × (storage (next % 2 ^ k) ≡ some v)

  pub record Sound (t : Threads A) : Type ℓ where
    pub published : t.queue.published ≡ length t.log
    pub in_turn : InTurn t.queue.storage t.log t.queue.cursors t.producer
    pub keeps :
        (c : ℕ) → c < n → Keeps t.queue.storage t.log (t.queue.cursors c) (t.consumers c) (t.seen c)

  -- The construction spoils no slot that a consumer still needs.
  Keeps-put :
      (storage : ℕ → Option A) (log : List A) (cur : ℕ) (phase : Consumer A) (got : List A) (v : A)
      → length log < cur + 2 ^ k
      → Keeps storage log cur phase got
      → Keeps (put storage (masked k (length log)) (some v)) log cur phase got
  Keeps-put storage log cur phase got v room h = record {
    seen = h.seen;
    behind = h.behind;
    room = h.room;
    kept = λ i lo hi.
        put_ne storage (masked k (length log)) (i % 2 ^ k) (some v) (λ e.
          lap_apart (2 ^ k) i (length log) (pow_pos k) hi (omega arith)
            (sym e ∙ bit_and-mask k (length log)))
        ∙ h.kept i lo hi;
    phase_ok = h.phase_ok;
  }

  OnTrack-append :
      (log : List A) (v : A) (cur : ℕ) (phase : Consumer A)
      → OnTrack log cur phase
      → OnTrack (log ++ (v ∷ [])) cur phase
  OnTrack-append log v cur resting h = tt
  OnTrack-append log v cur (reading at) (a, b, c) =
      (a, omega (arith, length-append log (v ∷ [])), tt)
  OnTrack-append log v cur (holding at out) (a, b, c) =
      (a, omega (arith, length-append log (v ∷ [])), c ∙ sym (get_elem?-append log (v ∷ []) cur b))

  -- The store of `published_` shows each consumer one more.
  Keeps-append :
      (storage : ℕ → Option A) (log : List A) (cur : ℕ) (phase : Consumer A) (got : List A) (v : A)
      → length log < cur + 2 ^ k
      → storage (length log % 2 ^ k) ≡ some v
      → Keeps storage log cur phase got
      → Keeps storage (log ++ (v ∷ [])) cur phase got
  Keeps-append storage log cur phase got v room here h =
      let longer : length (log ++ (v ∷ [])) ≡ length log + 1 = length-append log (v ∷ []) in
      record {
        seen = h.seen ∙ sym (take-append cur log (v ∷ []) h.behind);
        behind = omega (arith, longer, h.behind);
        room = omega (arith, longer);
        kept = λ i lo hi. elim (Bool-cases (i == length log)) [
          | inl e ↦
              let at : i ≡ length log = (==_iff i (length log)).0 e in
              subst (λ j. storage (j % 2 ^ k) ≡ get_elem? (log ++ (v ∷ [])) j) (sym at)
                (here ∙ sym (get_elem?-append_end log v))
          | inr e ↦
              let below : i < length log = ground (arith, longer) in
              h.kept i lo below ∙ sym (get_elem?-append log (v ∷ []) i below)
        ];
        phase_ok = OnTrack-append log v cur phase h.phase_ok;
      }

  -- A longer time at the producer: cursors only grow, and that keeps what it has learnt.
  pub InTurn-grow :
      (storage : ℕ → Option A) (log : List A) (cursors cursors' : ℕ → ℕ) (p : Producer A)
      → ((j : ℕ) → j < n → cursors j ≤ cursors' j)
      → InTurn storage log cursors p
      → InTurn storage log cursors' p
  InTurn-grow storage log cursors cursors' idle up h = tt
  InTurn-grow storage log cursors cursors' (scanning v next i min) up (a, b, c, d) =
      (a, b, (λ j jn ji. le_trans (c j jn ji) (up j jn)), d)
  InTurn-grow storage log cursors cursors' (claimed v next) up (a, b, d) =
      (a, (λ j jn. omega (arith, b j jn, up j jn)), d)
  InTurn-grow storage log cursors cursors' (written v next) up (a, b, d) =
      (a, (λ j jn. omega (arith, b j jn, up j jn)), d)

  -- One access of the producer.
  pub produce-Sound :
      (q : SpmcQueue A) (cs : ℕ → Consumer A) (log : List A) (got : ℕ → List A) (v : A)
      (p : Producer A)
      → length log + 1 < 2 ^ 64
      → Sound (record { queue = q; producer = p; consumers = cs; log = log; seen = got })
      → Sound (
          produce_step k n
            (record { queue = q; producer = p; consumers = cs; log = log; seen = got })
            v)
  unfolding produce_step construct publish
  produce-Sound q cs log got v idle small h = elim (Bool-cases (ltb q.published (2 ^ k))) [
    | inl e ↦
        let short : q.published < 2 ^ k = ltb→lt q.published (2 ^ k) e in
        rw e (record {
          published = h.published;
          in_turn = (h.published, (λ j jn. omega arith), tt);
          keeps = h.keeps;
        })
    | inr e ↦
        let long : 2 ^ k ≤ q.published = ltb→ge q.published (2 ^ k) e in
        rw e (record {
          published = h.published;
          in_turn = (
            h.published,
            long,
            (λ j jn ji.
                let same : j ≡ 0 = omega arith in
                subst (λ i. q.cursors 0 ≤ q.cursors i) (sym same) (le_refl (q.cursors 0))),
            tt,
          );
          keeps = h.keeps;
        })
  ]
  produce-Sound q cs log got v (scanning w next i min) small h =
      let (at, long, least, u) = h.in_turn in
      elim (Bool-cases (ltb i n)) [
        | inl e ↦ rw e (record {
          published = h.published;
          in_turn = (at, long, scanned n q.cursors i min least, tt);
          keeps = h.keeps;
        })
        | inr e ↦ rw e (elim (Bool-cases (ltb (next - 2 ^ k) min)) [
          | inl f ↦ rw f (record {
            published = h.published;
            in_turn = (
              at,
              (λ j jn.
                  omega
                    (arith, least j jn (le_trans jn (ltb→ge i n e)), ltb→lt (next - 2 ^ k) min f)),
              tt,
            );
            keeps = h.keeps;
          })
          | inr f ↦ rw f (record { published = h.published; in_turn = tt; keeps = h.keeps })
        ])
      ]
  produce-Sound q cs log got v (claimed w next) small h =
      let (at, free, u) = h.in_turn in
      record {
        published = h.published;
        in_turn = (
          at,
          free,
          ap (put q.storage (masked k next) (some w)) (sym (bit_and-mask k next))
              ∙ put_self q.storage (masked k next) (some w),
        );
        keeps = λ c cn.
            subst
              (λ x. Keeps (put q.storage (masked k x) (some w)) log (q.cursors c) (cs c) (got c))
              (sym at)
              (Keeps-put q.storage log (q.cursors c) (cs c) (got c) w (omega (arith, free c cn))
                (h.keeps c cn));
      }
  produce-Sound q cs log got v (written w next) small h =
      let (at, free, here) = h.in_turn in
      record {
        published =
            ap (λ x. to_size (x + 1)) at
            ∙ to_size_small (length log + 1) small
            ∙ sym (length-append log (w ∷ []));
        in_turn = tt;
        keeps = λ c cn.
            Keeps-append q.storage log (q.cursors c) (cs c) (got c) w (omega (arith, free c cn))
              (subst (λ x. q.storage (x % 2 ^ k) ≡ some w) at here) (h.keeps c cn);
      }
