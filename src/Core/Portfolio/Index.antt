-- ===== src/Core/Portfolio/Index.antt =====
-- `Portfolio::index`: the row-major slot.
use native.Mathlib.Nat.{mul-le-mul, le_refl}
use native.Mathlib.Decide.{dec_le}
use quant_platform.Base.{ℕ, suc, ◌+◌, ◌*◌, ◌≤◌, ◌<◌, ◌≡◌, ap, sym, arith}
use quant_platform.Core.Portfolio.{slot}

two_level_lt : (n k a b : ℕ) → a < n → b < k → a * k + b < n * k
two_level_lt n k a b p q = grind arith

le_of_two_level : (k a b c e : ℕ) → c < k → a * k + b ≡ e * k + c → a ≤ e
le_of_two_level k a b c e q h = elim (dec_le a e) [
  | yes p ↦ p
  | no p ↦ let up : suc e ≤ a = omega arith in absurd (omega (arith, mul-le-mul up (le_refl k)))
]

two_level_injective :
    (k a b a' b' : ℕ) → b < k → b' < k → a * k + b ≡ a' * k + b' → (a ≡ a') × (b ≡ b')
two_level_injective k a b a' b' p q h =
    let same : a ≡ a' =
      omega (arith, le_of_two_level k a b b' a' q h, le_of_two_level k a' b' b a p (sym h)) in
    (same, omega (arith, ap (λ (t : ℕ). t * k) same))

-- The widths of the three coordinates.
pub slot_lt :
    (max_exchange max_market max_symbol exchange market symbol : ℕ)
    → exchange < max_exchange
    → market < max_market
    → symbol < max_symbol
    → slot max_market max_symbol exchange market symbol < max_exchange * max_market * max_symbol
unfolding slot
slot_lt max_exchange max_market max_symbol exchange market symbol he hm hs =
    let outer = two_level_lt max_exchange max_market exchange market he hm in
    omega (
      arith,
      two_level_lt (max_exchange * max_market) max_symbol (exchange * max_market + market) symbol
          outer hs,
    )

-- The dense index has no collisions: two instruments whose market and symbol are within the widths
-- have the same slot only if they are the same.
pub slot_injective :
    (max_market max_symbol e m s e' m' s' : ℕ)
    → m < max_market
    → s < max_symbol
    → m' < max_market
    → s' < max_symbol
    → slot max_market max_symbol e m s ≡ slot max_market max_symbol e' m' s'
    → (e ≡ e') × (m ≡ m') × (s ≡ s')
unfolding slot
slot_injective max_market max_symbol e m s e' m' s' hm hs hm' hs' h =
    let (outer, inner) =
      two_level_injective max_symbol (e * max_market + m) s (e' * max_market + m') s' hs hs'
        (omega arith) in
    let (first, second) = two_level_injective max_market e m e' m' hm hm' outer in
    (first, second, inner)
