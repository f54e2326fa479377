-- ===== src/Core/SpmcQueue/Threads/Received.antt =====
-- An access of a consumer keeps what holds between any two accesses.
use native.Mathlib.Nat.{le_refl}
use quant_platform.Base.{
  ℕ, suc, ◌+◌, ◌^◌, ◌<◌, ◌≤◌, ◌≡◌, ◌≢◌, ◌∙◌, refl, sym, ap, subst, Option, List, [], ◌∷◌, ◌++◌, inl,
  inr, if◌then◌else◌, ◌==◌, put, to_size, to_size_small, length, get_elem?-some, take, take-suc,
  Bool-cases, arith, ==_iff,
}
use quant_platform.Base.Bits.{bit_and-mask}
use quant_platform.Core.SpmcQueue.{SpmcQueue, masked, read_slot, advance}
use quant_platform.Core.SpmcQueue.Threads.{
  Producer, Consumer, resting, reading, holding, consume_step, received,
}
use quant_platform.Core.SpmcQueue.Threads.Sound.{OnTrack, Keeps, Sound, InTurn-grow}

module _ {ℓ} {A : Type ℓ} (k n : ℕ) where
  -- What holds of a consumer in a phase that is known.
  Keeps-phase :
      (storage : ℕ → Option A) (log : List A) (cursors : ℕ → ℕ) (cs : ℕ → Consumer A)
      (got : ℕ → List A) (c j : ℕ) (phase : Consumer A)
      → cs c ≡ phase
      → c ≡ j
      → Keeps k n storage log (cursors j) (cs j) (got j)
      → Keeps k n storage log (cursors c) phase (got c)
  Keeps-phase storage log cursors cs got c j phase e at h =
      subst (λ x. Keeps k n storage log (cursors c) x (got c)) e
        (subst (λ i. Keeps k n storage log (cursors i) (cs i) (got i)) (sym at) h)

  -- Only the phase of consumer `c` changes.
  Keeps-shift :
      (storage : ℕ → Option A) (log : List A) (cursors : ℕ → ℕ) (cs : ℕ → Consumer A)
      (got : ℕ → List A) (c j : ℕ) (phase phase' : Consumer A)
      → cs c ≡ phase
      → (Keeps k n storage log (cursors c) phase (got c)
          → Keeps k n storage log (cursors c) phase' (got c))
      → Keeps k n storage log (cursors j) (cs j) (got j)
      → Keeps k n storage log (cursors j) (put cs c phase' j) (got j)
  Keeps-shift storage log cursors cs got c j phase phase' e own h = elim (Bool-cases (c == j)) [
    | inl t ↦
        let at : c ≡ j = (==_iff c j).0 t in
        rw t (
          subst (λ i. Keeps k n storage log (cursors i) phase' (got i)) at
            (own (Keeps-phase storage log cursors cs got c j phase e at h)))
    | inr t ↦ rw t h
  ]

  -- Consumer `c` moves on.
  Keeps-advance :
      (storage : ℕ → Option A) (log : List A) (cursors : ℕ → ℕ) (cs : ℕ → Consumer A)
      (got : ℕ → List A) (c j cur : ℕ) (phase phase' : Consumer A) (xs : List A)
      → cs c ≡ phase
      → (Keeps k n storage log (cursors c) phase (got c) → Keeps k n storage log cur phase' xs)
      → Keeps k n storage log (cursors j) (cs j) (got j)
      → Keeps k n storage log (put cursors c cur j) (put cs c phase' j) (put got c xs j)
  Keeps-advance storage log cursors cs got c j cur phase phase' xs e own h =
      elim (Bool-cases (c == j)) [
        | inl t ↦
            rw t (own (Keeps-phase storage log cursors cs got c j phase e ((==_iff c j).0 t) h))
        | inr t ↦ rw t h
      ]

  Keeps-rest :
      (storage : ℕ → Option A) (log : List A) (cur : ℕ) (got : List A) (phase phase' : Consumer A)
      → (OnTrack k n log cur phase → OnTrack k n log cur phase')
      → Keeps k n storage log cur phase got
      → Keeps k n storage log cur phase' got
  Keeps-rest storage log cur got phase phase' f h = record {
    seen = h.seen;
    behind = h.behind;
    room = h.room;
    kept = h.kept;
    phase_ok = f h.phase_ok;
  }

  Keeps-take :
      (storage : ℕ → Option A) (log : List A) (cur : ℕ) (out : Option A) (got : List A)
      → Keeps k n storage log cur (holding cur out) got
      → Keeps k n storage log (cur + 1) resting (received got out)
  Keeps-take storage log cur out got h =
      let (here, below, is) = h.phase_ok in
      let (v, at) = get_elem?-some log cur below in
      let one_more : suc cur ≡ cur + 1 = omega arith in
      record {
        seen =
            ap (received got) (is ∙ at)
            ∙ ap (λ t. t ++ (v ∷ [])) h.seen
            ∙ sym (take-suc log cur v at)
            ∙ ap (λ i. take i log) one_more;
        behind = omega arith;
        room = omega (arith, h.room);
        kept = λ i lo hi. h.kept i (omega arith) hi;
        phase_ok = tt;
      }

  next_cursor :
      (storage : ℕ → Option A) (log : List A) (cur at : ℕ) (out : Option A) (got : List A)
      → length log < 2 ^ 64
      → Keeps k n storage log cur (holding at out) got
      → to_size (at + 1) ≡ cur + 1
  next_cursor storage log cur at out got small h =
      ap (λ x. to_size (x + 1)) h.phase_ok.0
      ∙ to_size_small (cur + 1) (let (at, below, is) = h.phase_ok in omega arith)

  grows :
      (q : SpmcQueue A) (cs : ℕ → Consumer A) (log : List A) (got : ℕ → List A) (c cur : ℕ)
      (out : Option A)
      → cs c ≡ holding cur out
      → length log < 2 ^ 64
      → (j : ℕ) → Keeps k n q.storage log (q.cursors j) (cs j) (got j)
      → q.cursors j ≤ put q.cursors c (to_size (cur + 1)) j
  grows q cs log got c cur out e small j h = elim (Bool-cases (c == j)) [
    | inl t ↦
        let at : c ≡ j = (==_iff c j).0 t in
        let own = Keeps-phase q.storage log q.cursors cs got c j (holding cur out) e at h in
        rw t (
          omega (
            arith,
            next_cursor q.storage log (q.cursors c) cur out (got c) small own,
            ap q.cursors at,
          ))
    | inr t ↦ rw t (le_refl (q.cursors j))
  ]

  pub consume-Sound :
      (q : SpmcQueue A) (cs : ℕ → Consumer A) (log : List A) (got : ℕ → List A) (p : Producer A)
      (c : ℕ) (phase : Consumer A)
      → cs c ≡ phase
      → length log < 2 ^ 64
      → Sound k n (record { queue = q; producer = p; consumers = cs; log = log; seen = got })
      → Sound k n (
          consume_step k
            (record { queue = q; producer = p; consumers = cs; log = log; seen = got })
            c)
  unfolding consume_step read_slot advance
  consume-Sound q cs log got p c resting e small h = rw e (record {
    published = h.published;
    in_turn = h.in_turn;
    keeps = λ j jn.
        Keeps-shift q.storage log q.cursors cs got c j resting
          (if q.cursors c == q.published then resting else reading (q.cursors c)) e
          (λ own. elim (Bool-cases (q.cursors c == q.published)) [
            | inl t ↦ rw t own
            | inr t ↦
                let ne : q.cursors c ≢ q.published = λ x. ground arith in
                rw t (
                  Keeps-rest q.storage log (q.cursors c) (got c) resting (reading (q.cursors c))
                    (λ u. (refl, omega (arith, own.behind, h.published, ne), tt)) own)
          ])
          (h.keeps j jn);
  })
  consume-Sound q cs log got p c (reading cur) e small h = rw e (record {
    published = h.published;
    in_turn = h.in_turn;
    keeps = λ j jn.
        Keeps-shift q.storage log q.cursors cs got c j (reading cur)
          (holding cur (q.storage (masked k cur))) e
          (λ own.
            Keeps-rest q.storage log (q.cursors c) (got c) (reading cur)
              (holding cur (q.storage (masked k cur)))
              (λ (at, below, u). (
                at,
                below,
                ap (λ i. q.storage (masked k i)) at
                    ∙ ap q.storage (bit_and-mask k (q.cursors c))
                    ∙ own.kept (q.cursors c) (le_refl (q.cursors c)) below,
              ))
              own)
          (h.keeps j jn);
  })
  consume-Sound q cs log got p c (holding cur out) e small h = rw e (record {
    published = h.published;
    in_turn =
        InTurn-grow k n q.storage log q.cursors (put q.cursors c (to_size (cur + 1))) p
          (λ j jn. grows q cs log got c cur out e small j (h.keeps j jn)) h.in_turn;
    keeps = λ j jn.
        Keeps-advance q.storage log q.cursors cs got c j (to_size (cur + 1)) (holding cur out)
          resting (received (got c) out) e
          (λ own.
            subst (λ x. Keeps k n q.storage log x resting (received (got c) out))
              (sym (next_cursor q.storage log (q.cursors c) cur out (got c) small own))
              (Keeps-take q.storage log (q.cursors c) out (got c) (
                subst (λ x. Keeps k n q.storage log (q.cursors c) (holding x out) (got c))
                  own.phase_ok.0 own)))
          (h.keeps j jn);
  })
