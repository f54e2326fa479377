-- ===== src/Core/SlotRing/Examples.antt =====
-- The slot ring with four slots.
use quant_platform.Base.{ℕ, ◌≡◌, refl, true, false, none, some, List, [], ◌∷◌, arith}
use quant_platform.Core.SlotRing.{SlotRing, fresh, place, destroyed}
use quant_platform.Core.SlotRing.Window.{opened}
use quant_platform.Core.SlotRing.Calls.{
  Call, placing, taking, placed, taken, answers, window_answers, answers-eq-window,
}

-- Out of order, one too far ahead, and one in the place of a value that was taken.
abbrev calls : List (Call ℕ)
calls =
    placing 1 11
    ∷ taking
    ∷ placing 0 10
    ∷ placing 4 14
    ∷ taking
    ∷ placing 4 14
    ∷ placing 1 99
    ∷ taking
    ∷ taking
    ∷ []

calls_answers :
    window_answers 2 opened calls
    ≡ placed true
      ∷ taken none
      ∷ placed true
      ∷ placed false
      ∷ taken (some 10)
      ∷ placed true
      ∷ placed false
      ∷ taken (some 11)
      ∷ taken none
      ∷ []
unfolding window_answers
calls_answers = refl

answers-eq-window_example : answers 2 fresh 0 calls ≡ window_answers 2 opened calls
answers-eq-window_example = answers-eq-window 2 (omega arith) calls (omega arith)

abbrev one_placed : SlotRing ℕ
one_placed = (place 2 fresh 1 11).1

-- The destructor finds the one value.
one_destroyed : destroyed 2 one_placed ≡ 1 ∷ []
unfolding destroyed place fresh
one_destroyed = refl
