-- ===== src/Base/Arrays.antt =====
-- Arrays as functions of the index, rings of a power of two, and `std::size_t`.
use Prim.Native.Nat.{ℕ, ◌+◌, ◌*◌, ◌/◌, ◌%◌, ◌^◌, ◌<◌, ◌≤◌}
use mathlib.Core.Path.{◌≡◌, ap}
use mathlib.Core.Logic.{◌≢◌}
use native.Mathlib.Nat.{mod-eq_of_lt, div-add-mod', mul-le-mul, le_refl}
use native.Mathlib.Omega.{arith}
use native.Mathlib.Decide.{dec_le}
use quant_platform.Base.Tests.{if◌then◌else◌, ◌==◌, ==_refl, ==_false}

-- `a[i] = v`.
abbrev pub put {ℓ} : {A : Type ℓ} → (ℕ → A) → ℕ → A → ℕ → A
put f i v j = if i == j then v else f j

pub put_self {ℓ} : {A : Type ℓ} (f : ℕ → A) (i : ℕ) (v : A) → put f i v i ≡ v
put_self f i v = ap (λ b. if b then v else f i) (==_refl i)

pub put_ne {ℓ} : {A : Type ℓ} (f : ℕ → A) (i j : ℕ) (v : A) → i ≢ j → put f i v j ≡ f j
put_ne f i j v h = ap (λ b. if b then v else f j) (==_false i j h)

abbrev pub to_size : ℕ → ℕ
to_size n = n % 2 ^ 64

pub to_size_small : (n : ℕ) → n < 2 ^ 64 → to_size n ≡ n
to_size_small n h = mod-eq_of_lt h

-- Two positions less than a lap apart are in different slots.
pub lap_apart : (c a b : ℕ) → 0 < c → a < b → b < a + c → a % c ≢ b % c
lap_apart c a b pos lt near h =
    let below : a / c * c ≤ a = omega (arith, div-add-mod' a c) in
    elim (dec_le (b / c) (a / c)) [
      | yes p ↦ omega (arith, div-add-mod' a c, div-add-mod' b c, mul-le-mul p (le_refl c))
      | no p ↦
          let up : a / c + 1 ≤ b / c = omega arith in
          omega (arith, div-add-mod' a c, div-add-mod' b c, mul-le-mul up (le_refl c))
    ]
