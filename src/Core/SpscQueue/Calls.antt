-- ===== src/Core/SpscQueue/Calls.antt =====
-- Any calls of the queue in turn, beside a list.
use quant_platform.Base.{
  ℕ, ◌+◌, ◌-◌, ◌^◌, ◌<◌, ◌≤◌, ◌≡◌, ◌∙◌, refl, sym, ap, ap₂, Bool, Option, none, some, List, [], ◌∷◌,
  ◌++◌, if◌then◌else◌, ltb, length, arith,
}
use quant_platform.Base.Bits.{pow_pos}
use quant_platform.Core.SpscQueue.{SpscQueue, fresh, push, pop}
use quant_platform.Core.SpscQueue.Fifo.{Holds, fresh-Holds, push-Holds, pop_empty, pop_oldest}

pub data Call {ℓ} (A : Type ℓ) : Type ℓ where
  pushes : A → Call A
  pops : Call A

pub data Reply {ℓ} (A : Type ℓ) : Type ℓ where
  pushed : Bool → Reply A
  popped : Option A → Reply A

room_lem : (n c : ℕ) → 0 < c → ltb n (c - 1) ≡ ltb (n + 1) c
room_lem n c h = ground arith

module _ {ℓ} {A : Type ℓ} where
  pub replies : ℕ → SpscQueue A → List (Call A) → List (Reply A)
  replies k q [] = []
  replies k q (pushes v ∷ cs) = let (ok, q') = push k q v in pushed ok ∷ replies k q' cs
  replies k q (pops ∷ cs) = let (out, q') = pop k q in popped out ∷ replies k q' cs

  -- A list with room for `room` values.
  abbrev pub list_replies : ℕ → List A → List (Call A) → List (Reply A)
  list_replies room xs [] = []
  list_replies room xs (pushes v ∷ cs) =
      let ok = ltb (length xs) room in
      pushed ok ∷ list_replies room (if ok then xs ++ (v ∷ []) else xs) cs
  list_replies room [] (pops ∷ cs) = popped none ∷ list_replies room [] cs
  list_replies room (x ∷ xs) (pops ∷ cs) = popped (some x) ∷ list_replies room xs cs

  replies_lem :
      (k : ℕ) (cs : List (Call A)) (q : SpscQueue A) (xs : List A)
      → 2 ^ k ≤ 2 ^ 63
      → Holds k q xs
      → replies k q cs ≡ list_replies (2 ^ k - 1) xs cs
  unfolding replies
  replies_lem k [] q xs le h = refl
  replies_lem k (pushes v ∷ cs) q xs le h =
      let (ok, h') = push-Holds k q xs v le h in
      let same = room_lem (length xs) (2 ^ k) (pow_pos k) in
      ap₂ (λ b t. pushed b ∷ t) ok
        (replies_lem k cs (push k q v).1
          (if ltb (length xs + 1) (2 ^ k) then xs ++ (v ∷ []) else xs) le h')
      ∙ ap (λ b. pushed b ∷ list_replies (2 ^ k - 1) (if b then xs ++ (v ∷ []) else xs) cs)
          (sym same)
  replies_lem k (pops ∷ cs) q [] le h =
      let e = pop_empty k q h in
      ap (λ r. popped r.0 ∷ replies k r.1 cs) e
      ∙ ap (λ t. popped none ∷ t) (replies_lem k cs q [] le h)
  replies_lem k (pops ∷ cs) q (x ∷ xs) le h =
      let (out, h') = pop_oldest k q x xs le h in
      ap₂ (λ a t. popped a ∷ t) out (replies_lem k cs (pop k q).1 xs le h')

  -- For any calls from the start on, the queue answers as a first-in first-out list with room for one
  -- value less than the capacity.
  pub replies_fifo :
      (k : ℕ) (cs : List (Call A))
      → 2 ^ k ≤ 2 ^ 63
      → replies k fresh cs ≡ list_replies (2 ^ k - 1) [] cs
  replies_fifo k cs le = replies_lem k cs fresh [] le (fresh-Holds k)
