-- ===== src/Core/SpmcQueue/Threads/Pop.antt =====
-- A consumer that is not interrupted.
use quant_platform.Base.{
  ℕ, ◌≡◌, ◌∙◌, refl, ap, false, Option, inl, inr, if◌then◌else◌, ◌==◌, put, put_self, replicate,
  Bool-cases,
}
use quant_platform.Core.SpmcQueue.{try_pop, read_slot, advance}
use quant_platform.Core.SpmcQueue.Threads.{
  resting, reading, holding, Threads, consume, consume_step, move, run_moves, received,
}

module _ {ℓ} {A : Type ℓ} (k n : ℕ) where
  -- Each access of a consumer whose phase is known.
  rest_step :
      (c : ℕ) (t : Threads A)
      → t.consumers c ≡ resting
      → consume_step k t c ≡ record t {
        consumers = put t.consumers c (
            if t.queue.cursors c == t.queue.published
            then resting
            else reading (t.queue.cursors c));
      }
  unfolding consume_step
  rest_step c t e = rw (e, consume_step) refl

  read_step :
      (c cur : ℕ) (t : Threads A)
      → t.consumers c ≡ reading cur
      → consume_step k t c
        ≡ record t { consumers = put t.consumers c (holding cur (read_slot k t.queue cur)) }
  unfolding consume_step
  read_step c cur t e = rw (e, consume_step) refl

  hold_step :
      (c cur : ℕ) (out : Option A) (t : Threads A)
      → t.consumers c ≡ holding cur out
      → consume_step k t c ≡ record t {
        queue = advance t.queue c cur;
        consumers = put t.consumers c resting;
        seen = put t.seen c (received (t.seen c) out);
      }
  unfolding consume_step
  hold_step c cur out t e = rw (e, consume_step) refl

  -- A pop that finds a value.
  pop_steps :
      (c : ℕ) (t : Threads A)
      → t.consumers c ≡ resting
      → (t.queue.cursors c == t.queue.published) ≡ false
      → let out = read_slot k t.queue (t.queue.cursors c) in
        let t' = consume_step k (consume_step k (consume_step k t c) c) c in
        (t'.queue ≡ advance t.queue c (t.queue.cursors c)) × (t'.seen c ≡ received (t.seen c) out)
  pop_steps c t e f =
      let cur = t.queue.cursors c in
      let out = read_slot k t.queue cur in
      let t1 : Threads A = record t { consumers = put t.consumers c (reading cur) } in
      let t2 : Threads A = record t1 { consumers = put t1.consumers c (holding cur out) } in
      let e1 : consume_step k t c ≡ t1 =
        rest_step c t e
        ∙ ap (λ b. record t { consumers = put t.consumers c (if b then resting else reading cur) })
            f in
      let e2 : consume_step k t1 c ≡ t2 =
        read_step c cur t1 (put_self t.consumers c (reading cur)) in
      let e3 = hold_step c cur out t2 (put_self t1.consumers c (holding cur out)) in
      let whole =
        ap (λ s. consume_step k (consume_step k s c) c) e1 ∙ ap (λ s. consume_step k s c) e2 ∙ e3 in
      (
        ap (λ s. s.queue) whole,
        ap (λ s. s.seen c) whole ∙ put_self t.seen c (received (t.seen c) out),
      )

  -- The accesses of one `try_pop` in a row are `try_pop`: the queue is the one it leaves, and the
  -- consumer has got what it returns.
  pub try_pop_moves :
      (c : ℕ) (t : Threads A)
      → t.consumers c ≡ resting
      → let (out, queue) = try_pop k t.queue c in
        (count : ℕ) × ((run_moves k n t (replicate count (consume c))).queue ≡ queue)
        × ((run_moves k n t (replicate count (consume c))).seen c ≡ received (t.seen c) out)
  unfolding try_pop run_moves move consume_step
  try_pop_moves c t e = elim (Bool-cases (t.queue.cursors c == t.queue.published)) [
    | inl f ↦ rw f (0, refl, refl)
    | inr f ↦ let (queue, seen) = pop_steps c t e f in rw f (3, queue, seen)
  ]
