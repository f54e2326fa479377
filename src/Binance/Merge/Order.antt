-- ===== src/Binance/Merge/Order.antt =====
-- The merge of streams that ascend ascends.
use quant_platform.Base.{
  ℕ, ◌+◌, ◌≡◌, refl, sym, subst, inl, inr, true, false, List, [], ◌∷◌, ◌++◌, if◌then◌else◌, ◌==◌,
  All, Bool-cases, arith,
}
use quant_platform.Base.Int.{◌≤ℤ◌}
use quant_platform.Core.Types.{Timestamp}
use quant_platform.Binance.Merge.{Entry, later_first, pop_least}

-- How often an index stands in a list.
abbrev pub occurs : ℕ → List ℕ → ℕ
occurs i [] = 0
occurs i (j ∷ js) = (if j == i then 1 else 0) + occurs i js

pub occurs-append : (i : ℕ) (js ks : List ℕ) → occurs i (js ++ ks) ≡ occurs i js + occurs i ks
occurs-append i [] ks = omega arith
occurs-append i (j ∷ js) ks = omega (arith, occurs-append i js ks)

abbrev pub indices : List Entry → List ℕ
indices [] = []
indices (e ∷ heap) = e.index ∷ indices heap

later_first-ge : (a b : Entry) → later_first a b ≡ true → b.ts ≤ℤ a.ts
unfolding later_first
later_first-ge a b h = ground arith

later_first-le : (a b : Entry) → later_first a b ≡ false → a.ts ≤ℤ b.ts
unfolding later_first
later_first-le a b h = ground arith

-- What `pop_least` returns is the list, and its first part is not later than any of it.
module _ {κ} (P : Entry → Type κ) where
  pub pop_least-All :
      (e : Entry) (heap : List Entry)
      → P e
      → All P heap
      → P (pop_least e heap).0 × All P (pop_least e heap).1
  unfolding pop_least
  pop_least-All e [] p ps = (p, tt)
  pop_least-All e (f ∷ heap) p (q, ps) =
      let (least, rest) = pop_least-All f heap q ps in
      elim (Bool-cases (later_first e (pop_least f heap).0)) [
        | inl t ↦ rw t (least, (p, rest))
        | inr t ↦ rw t (p, (q, ps))
      ]

pub pop_least-occurs :
    (i : ℕ) (e : Entry) (heap : List Entry)
    → occurs i ((pop_least e heap).0.index ∷ indices (pop_least e heap).1)
      ≡ occurs i (e.index ∷ indices heap)
unfolding pop_least
pop_least-occurs i e [] = refl
pop_least-occurs i e (f ∷ heap) =
    let ih = pop_least-occurs i f heap in
    elim (Bool-cases (later_first e (pop_least f heap).0)) [
      | inl t ↦ rw t (omega (arith, ih))
      | inr t ↦ rw t refl
    ]

abbrev pub NotBefore : Timestamp → Entry → Type 0
NotBefore t e = t ≤ℤ e.ts

pub NotBefore-weaker :
    (t u : Timestamp) (heap : List Entry) → t ≤ℤ u → All (NotBefore u) heap → All (NotBefore t) heap
NotBefore-weaker t u [] le h = tt
NotBefore-weaker t u (e ∷ heap) le (h, hs) = (omega arith, NotBefore-weaker t u heap le hs)

pop_least-least :
    (e f : Entry) (heap : List Entry)
    → (pop_least e (f ∷ heap)).0
      ≡ (if later_first e (pop_least f heap).0 then (pop_least f heap).0 else e)
unfolding pop_least
pop_least-least e f heap = elim (Bool-cases (later_first e (pop_least f heap).0)) [
  | inl t ↦ rw t refl
  | inr t ↦ rw t refl
]

single : (e : Entry) → NotBefore (pop_least e []).0.ts e
unfolding pop_least
single e = omega arith

abbrev pub IsFirst : Entry → Entry → List Entry → Type 0
IsFirst least e heap = NotBefore least.ts e × All (NotBefore least.ts) heap

pub pop_least-IsFirst : (e : Entry) (heap : List Entry) → IsFirst (pop_least e heap).0 e heap
pop_least-IsFirst e [] = (single e, tt)
pop_least-IsFirst e (f ∷ heap) =
    let (first, others) = pop_least-IsFirst f heap in
    let least = (pop_least f heap).0 in
    let chosen = pop_least-least e f heap in
    subst (λ l. IsFirst l e (f ∷ heap)) (sym chosen)
      (elim (Bool-cases (later_first e least)) [
        | inl t ↦
            subst (λ b. IsFirst (if b then least else e) e (f ∷ heap)) (sym t)
              (later_first-ge e least t, (first, others))
        | inr t ↦
            let le = later_first-le e least t in
            subst (λ b. IsFirst (if b then least else e) e (f ∷ heap)) (sym t)
              (omega arith, (omega arith, NotBefore-weaker e.ts least.ts heap le others))
      ])
