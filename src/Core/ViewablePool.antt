-- ===== src/Core/ViewablePool.antt =====
-- include/core/viewable_pool.hpp: fixed storage and a write position. The asserted bound is the
-- caller's; a push past it is undefined there and writes nothing here. Both storage modes hold the
-- same values, and `emplace` is `push` of the value that it builds.
use native.Mathlib.Numerals.{add-one}
use quant_platform.Base.{
  ℕ, suc, ◌+◌, ◌<◌, ◌≡◌, refl, ap, ◌∙◌, length-set, List, [], ◌∷◌, ◌++◌, length, set, take,
  replicate, arith,
}

pub record ViewablePool {ℓ} (A : Type ℓ) : Type ℓ where
  pub storage : List A
  pub count : ℕ

module _ {ℓ} {A : Type ℓ} where
  -- Storage is value-initialised.
  abbrev pub fresh : ℕ → A → ViewablePool A
  fresh capacity a = record { storage = replicate capacity a; count = 0 }

  unfoldable pub push : ViewablePool A → A → ViewablePool A
  push p a = record { storage = set p.storage p.count a; count = p.count + 1 }

  unfoldable pub reset : ViewablePool A → ViewablePool A
  reset p = record p { count = 0 }

  unfoldable pub view : ViewablePool A → List A
  view p = take p.count p.storage

  abbrev pub size : ViewablePool A → ℕ
  size p = p.count

  abbrev pub capacity : ViewablePool A → ℕ
  capacity p = length p.storage

  take-set :
      (xs : List A) (n : ℕ) (a : A)
      → n < length xs
      → take (suc n) (set xs n a) ≡ take n xs ++ (a ∷ [])
  take-set [] n a h = absurd (omega arith)
  take-set (x ∷ xs) ℕ.zero a h = refl
  take-set (x ∷ xs) (suc n) a h = ap (◌∷◌ x) (take-set xs n a (omega arith))

  -- A push within the capacity appends to the view.
  pub view-push :
      (p : ViewablePool A) (a : A) → size p < capacity p → view (push p a) ≡ view p ++ (a ∷ [])
  unfolding view push
  view-push p a h =
      ap (λ n. take n (set p.storage p.count a)) (add-one p.count) ∙ take-set p.storage p.count a h

  pub capacity-push : (p : ViewablePool A) (a : A) → capacity (push p a) ≡ capacity p
  unfolding push
  capacity-push p a = length-set p.storage p.count a

  pub view-reset : (p : ViewablePool A) → view (reset p) ≡ []
  unfolding view reset
  view-reset p = refl
