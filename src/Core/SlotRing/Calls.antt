-- ===== src/Core/SlotRing/Calls.antt =====
-- Any sequence of calls on the slot ring answers as the window of positions does.
use quant_platform.Base.{
  ℕ, ◌+◌, ◌*◌, ◌^◌, ◌≤◌, ◌≡◌, ◌∙◌, refl, sym, ap, ap₂, Bool, Option, List, [], ◌∷◌, if◌then◌else◌,
  length, arith,
}
use quant_platform.Core.SlotRing.{SlotRing, fresh, place, take}
use quant_platform.Core.SlotRing.Window.{
  Window, Holds, opened, is_some, fill, pop, fresh-Holds, place-Holds, take-Holds,
}

-- A producer places a value at a position; the consumer takes at its own next position.
pub data Call {ℓ} (A : Type ℓ) : Type ℓ where
  placing : ℕ → A → Call A
  taking : Call A

pub data Answer {ℓ} (A : Type ℓ) : Type ℓ where
  placed : Bool → Answer A
  taken : Option A → Answer A

module _ {ℓ} {A : Type ℓ} (k : ℕ) where
  -- `read` is the consumer's next position, which it moves when it gets a value.
  pub answers : SlotRing A → (read : ℕ) → List (Call A) → List (Answer A)
  answers r read [] = []
  answers r read (placing p v ∷ calls) =
      let (ok, r') = place k r p v in placed ok ∷ answers r' read calls
  answers r read (taking ∷ calls) =
      let (got, r') = take k r read in
      taken got ∷ answers r' (if is_some got then read + 1 else read) calls

  unfoldable pub window_answers : Window A → List (Call A) → List (Answer A)
  window_answers w [] = []
  window_answers w (placing p v ∷ calls) =
      let (ok, w') = fill k w p v in placed ok ∷ window_answers w' calls
  window_answers w (taking ∷ calls) = let (got, w') = pop w in taken got ∷ window_answers w' calls

  module _ (big : 2 ≤ 2 ^ k) where
    answers_window :
        (calls : List (Call A)) (r : SlotRing A) (w : Window A)
        → Holds k r w
        → w.read + length calls + 2 * 2 ^ k ≤ 2 ^ 64
        → answers r w.read calls ≡ window_answers w calls
    unfolding answers window_answers
    answers_window [] r w h small = refl
    answers_window (placing p v ∷ calls) r w h small =
        let (same, h') = place-Holds k big r w p v h (omega arith) in
        let keeps : (fill k w p v).1.read ≡ w.read = ground arith in
        ap₂ (λ b rest. placed b ∷ rest) same
          (ap (λ n. answers (place k r p v).1 n calls) (sym keeps)
            ∙ answers_window calls (place k r p v).1 (fill k w p v).1 h' (omega arith))
    answers_window (taking ∷ calls) r w h small =
        let (same, h') = take-Holds k big r w h (omega arith) in
        let moves : (pop w).1.read ≤ w.read + 1 = ground arith in
        ap₂ (λ got rest. taken got ∷ rest) same
          (ap
              (λ got.
                answers (take k r w.read).1 (if is_some got then w.read + 1 else w.read) calls)
              same
            ∙ answers_window calls (take k r w.read).1 (pop w).1 h' (omega arith))

    -- On any sequence of fewer calls than `2 ^ 64` less two laps, the ring answers as a window of
    -- positions that starts empty: a position takes one value while it is less than a lap ahead of the
    -- consumer, in any order, and the consumer gets the values in the order of the positions.
    pub answers-eq-window :
        (calls : List (Call A))
        → length calls + 2 * 2 ^ k ≤ 2 ^ 64
        → answers fresh 0 calls ≡ window_answers opened calls
    answers-eq-window calls small = answers_window calls fresh opened (fresh-Holds k) (omega arith)
