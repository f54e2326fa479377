-- ===== src/Core/SpscQueue/Examples.antt =====
-- A queue of two slots, which holds one value.
use quant_platform.Base.{ℕ, ◌≡◌, true, false, none, some, List, [], ◌∷◌, arith}
use quant_platform.Core.SpscQueue.{fresh}
use quant_platform.Core.SpscQueue.Calls.{Call, pushes, pops, pushed, popped, replies, replies_fifo}

abbrev calls : List (Call ℕ)
calls = pops ∷ pushes 7 ∷ pushes 8 ∷ pops ∷ pushes 9 ∷ pops ∷ pops ∷ []

replies_fifo_example :
    replies 1 fresh calls
    ≡ popped none
      ∷ pushed true
      ∷ pushed false
      ∷ popped (some 7)
      ∷ pushed true
      ∷ popped (some 9)
      ∷ popped none
      ∷ []
replies_fifo_example = replies_fifo 1 calls (omega arith)
