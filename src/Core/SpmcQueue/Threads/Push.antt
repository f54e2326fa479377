-- ===== src/Core/SpmcQueue/Threads/Push.antt =====
-- A producer that is not interrupted.
use quant_platform.Base.{
  ℕ, zero, suc, ◌+◌, ◌-◌, ◌^◌, ◌<◌, ◌≡◌, ◌∙◌, refl, sym, ap, subst, Bool, true, false, List, [],
  ◌∷◌, ◌++◌, inl, inr, if◌then◌else◌, ltb, lt→ltb, replicate, Bool-cases, arith,
}
use quant_platform.Core.SpmcQueue.{
  SpmcQueue, push, slot_free, min_cursor, min_cursor_from, construct, publish,
}
use quant_platform.Core.SpmcQueue.Threads.{
  Producer, idle, scanning, claimed, Threads, Move, produce, produce_step, move, run_moves,
}

-- The construction and the store of `published_`, if the slot is free.
abbrev pub last_accesses : Bool → ℕ
last_accesses free = if free then 2 else 0

module _ {ℓ} {A : Type ℓ} (k n : ℕ) where
  run_moves-append :
      (xs ys : List (Move A)) (t : Threads A)
      → run_moves k n t (xs ++ ys) ≡ run_moves k n (run_moves k n t xs) ys
  unfolding run_moves
  run_moves-append [] ys t = refl
  run_moves-append (x ∷ xs) ys t = run_moves-append xs ys (move k n t x)

  replicate-add : (a b : ℕ) (m : Move A) → replicate (a + b) m ≡ replicate a m ++ replicate b m
  replicate-add zero b m = let same : 0 + b ≡ b = omega arith in ap (λ x. replicate x m) same
  replicate-add (suc a) b m =
      let same : suc a + b ≡ suc (a + b) = omega arith in
      ap (λ x. replicate x m) same ∙ ap (λ ms. m ∷ ms) (replicate-add a b m)

  abbrev at : Threads A → Producer A → Threads A
  at t p = record t { producer = p }

  scan_step :
      (i min next : ℕ) (v : A) (t : Threads A)
      → ltb i n ≡ true
      → move k n (at t (scanning v next i min)) (produce v)
        ≡ at t (
            scanning v next
              (i + 1)
              (if ltb (t.queue.cursors i) min then t.queue.cursors i else min))
  unfolding move produce_step
  scan_step i min next v t e =
      ap
        (λ b. at t (
          if b
          then scanning v next (i + 1)
              (if ltb (t.queue.cursors i) min then t.queue.cursors i else min)
          else if ltb (next - 2 ^ k) min
          then claimed v next
          else idle))
        e

  decide_step :
      (min next : ℕ) (v : A) (t : Threads A)
      → move k n (at t (scanning v next n min)) (produce v)
        ≡ at t (if ltb (next - 2 ^ k) min then claimed v next else idle)
  unfolding move produce_step
  decide_step min next v t =
      let over : ltb n n ≡ false = ground arith in
      ap
        (λ b. at t (
          if b
          then scanning v next (n + 1)
              (if ltb (t.queue.cursors n) min then t.queue.cursors n else min)
          else if ltb (next - 2 ^ k) min
          then claimed v next
          else idle))
        over

  -- The loop of `min_cursor`.
  scan_lem :
      (left i min next : ℕ) (v : A) (t : Threads A)
      → i + left ≡ n
      → run_moves k n (at t (scanning v next i min)) (replicate left (produce v))
        ≡ at t (scanning v next n (min_cursor_from t.queue.cursors left i min))
  unfolding run_moves
  scan_lem zero i min next v t h =
      let end : i ≡ n = omega arith in ap (λ x. at t (scanning v next x min)) end
  scan_lem (suc left) i min next v t h =
      ap (λ s. run_moves k n s (replicate left (produce v)))
        (scan_step i min next v t (lt→ltb i n (omega arith)))
      ∙ scan_lem left (i + 1) (if ltb (t.queue.cursors i) min then t.queue.cursors i else min) next
          v t (omega arith)

  -- What `push` does once it knows whether the slot is free.
  abbrev outcome : Threads A → A → Bool → Threads A
  outcome t v free =
      let next = t.queue.published in
      let (ok, queue) : Bool × SpmcQueue A =
        if free then (true, publish (construct k t.queue next v) next) else (false, t.queue) in
      record t { queue = queue; producer = idle; log = if ok then t.log ++ (v ∷ []) else t.log }

  decided :
      (free : Bool) (v : A) (t : Threads A)
      → run_moves k n
          (at t (if free then claimed v t.queue.published else idle))
          (replicate (last_accesses free) (produce v))
        ≡ outcome t v free
  unfolding run_moves move produce_step
  decided true v t = refl
  decided false v t = refl

  idle_step :
      (v : A) (t : Threads A)
      → move k n (at t idle) (produce v)
        ≡ at t (
            if ltb t.queue.published (2 ^ k)
            then claimed v t.queue.published
            else scanning v t.queue.published 1 (t.queue.cursors 0))
  unfolding move produce_step
  idle_step v t = refl

  -- The accesses of a push: one where the queue starts, and past the first lap one for each cursor
  -- after that and one more; then two if the slot is free.
  abbrev pub accesses : SpmcQueue A → (free : Bool) → ℕ
  accesses q free = (if ltb q.published (2 ^ k) then 1 else n + 1) + last_accesses free

  push_idle :
      (v : A) (t : Threads A)
      → 0 < n
      → run_moves k n
          (at t idle)
          (replicate (accesses t.queue (slot_free k n t.queue t.queue.published)) (produce v))
        ≡ outcome t v (slot_free k n t.queue t.queue.published)
  unfolding slot_free min_cursor run_moves
  push_idle v t pos = elim (Bool-cases (ltb t.queue.published (2 ^ k))) [
    | inl f ↦ rw f (
        ap (λ s. run_moves k n s (replicate 2 (produce v)))
          (idle_step v t
            ∙ ap
                (λ b. at t (
                  if b
                  then claimed v t.queue.published
                  else scanning v t.queue.published 1 (t.queue.cursors 0)))
                f)
        ∙ decided true v t)
    | inr f ↦
        let next = t.queue.published in
        let min = min_cursor_from t.queue.cursors (n - 1) 1 (t.queue.cursors 0) in
        let free = ltb (next - 2 ^ k) min in
        let count = last_accesses free in
        let split : n + 1 + count ≡ suc ((n - 1) + suc count) = omega arith in
        rw f (
          ap (λ c. run_moves k n (at t idle) (replicate c (produce v))) split
          ∙ ap (λ s. run_moves k n s (replicate ((n - 1) + suc count) (produce v)))
              (idle_step v t
                ∙ ap
                    (λ b.
                      at t (if b then claimed v next else scanning v next 1 (t.queue.cursors 0)))
                    f)
          ∙ ap (run_moves k n (at t (scanning v next 1 (t.queue.cursors 0))))
              (replicate-add (n - 1) (suc count) (produce v))
          ∙ run_moves-append (replicate (n - 1) (produce v)) (replicate (suc count) (produce v))
              (at t (scanning v next 1 (t.queue.cursors 0)))
          ∙ ap (λ s. run_moves k n s (replicate (suc count) (produce v)))
              (scan_lem (n - 1) 1 (t.queue.cursors 0) next v t (omega arith))
          ∙ ap (λ s. run_moves k n s (replicate count (produce v))) (decide_step min next v t)
          ∙ decided free v t)
  ]

  push_idle_ok :
      (v : A) (t : Threads A)
      → 0 < n
      → run_moves k n (at t idle) (replicate (accesses t.queue (push k n t.queue v).0) (produce v))
        ≡ record t {
          queue = (push k n t.queue v).1;
          producer = idle;
          log = if (push k n t.queue v).0 then t.log ++ (v ∷ []) else t.log;
        }
  unfolding push
  push_idle_ok v t pos = elim (Bool-cases (slot_free k n t.queue t.queue.published)) [
    | inl f ↦ rw f (
        subst
          (λ b.
            run_moves k n (at t idle) (replicate (accesses t.queue b) (produce v)) ≡ outcome t v b)
          f (push_idle v t pos))
    | inr f ↦ rw f (
        subst
          (λ b.
            run_moves k n (at t idle) (replicate (accesses t.queue b) (produce v)) ≡ outcome t v b)
          f (push_idle v t pos))
  ]

  -- The accesses of one push in a row are `push`: the queue is the one it leaves, the value is logged
  -- exactly when it returns true, and the producer is idle again. They are one access in the first lap
  -- and else one more than there are cursors, and two more where the push is accepted.
  pub push_moves :
      (v : A) (t : Threads A)
      → 0 < n
      → t.producer ≡ idle
      → let (ok, queue) = push k n t.queue v in
        run_moves k n t (replicate (accesses t.queue ok) (produce v))
        ≡ record t { queue = queue; log = if ok then t.log ++ (v ∷ []) else t.log }
  unfolding push
  push_moves v t pos e =
      subst
        (λ p.
          run_moves k n (at t p) (replicate (accesses t.queue (push k n t.queue v).0) (produce v))
          ≡ record t {
            queue = (push k n t.queue v).1;
            producer = p;
            log = if (push k n t.queue v).0 then t.log ++ (v ∷ []) else t.log;
          })
        (sym e) (push_idle_ok v t pos)
