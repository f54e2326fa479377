-- ===== src/Base/Bits.antt =====
-- `x & (2 ^ k - 1)`, the mask that every ring of the platform indexes by.
use Prim.Native.Nat.{
  ℕ, zero, suc, ◌+◌, ◌-◌, ◌*◌, ◌/◌, ◌%◌, ◌^◌, ◌≤◌, ◌<◌, min, bit_and, digits, bit_and-bitwise,
}
use mathlib.Core.Path.{◌≡◌, ap, ◌∙◌}
use native.Mathlib.Nat.{
  pow-suc, mod-lt, mod-eq_of_lt, add-mul-mod_self_right, div-add-mod', mul_assoc, one-le-pow,
}
use native.Mathlib.Omega.{arith}

-- The lowest digit of a remainder by an even number.
mod_double : (p x : ℕ) → 0 < p → x % (p * 2) ≡ x / 2 % p * 2 + x % 2
mod_double p x h =
    ap (λ t. t % (p * 2)) shape
    ∙ add-mul-mod_self_right (x / 2 % p * 2 + x % 2) (x / 2 / p) (p * 2)
    ∙ mod-eq_of_lt (omega (arith, mod-lt (x / 2) h))
  where
    shape : x ≡ x / 2 % p * 2 + x % 2 + x / 2 / p * (p * 2)
    shape = omega (arith, div-add-mod' (x / 2) p, mul_assoc (x / 2 / p) p 2)

pub pow_pos : (k : ℕ) → 0 < 2 ^ k
pow_pos k = one-le-pow k 2 (omega arith)

half : (p : ℕ) → 0 < p → (p * 2 - 1) / 2 ≡ p - 1
half p h = omega arith

masked : (n k x : ℕ) → x ≤ n → digits (λ b. zero) min n x (2 ^ k - 1) ≡ x % 2 ^ k
masked zero k zero h = omega (arith, mod-eq_of_lt (pow_pos k))
masked zero k (suc x) h = absurd (omega arith)
masked (suc n) k zero h = omega (arith, mod-eq_of_lt (pow_pos k))
masked (suc n) zero (suc x) h = omega (arith, masked n zero (suc x / 2) (omega arith))
masked (suc n) (suc k) (suc x) h =
    rw (pow-suc 2 k, half (2 ^ k) (pow_pos k))
      (omega (
        arith,
        masked n k (suc x / 2) (omega arith),
        mod_double (2 ^ k) (suc x) (pow_pos k),
        pow_pos k,
      ))

pub bit_and-mask : (k x : ℕ) → bit_and x (2 ^ k - 1) ≡ x % 2 ^ k
bit_and-mask k x = bit_and-bitwise x (2 ^ k - 1) ∙ masked x k x (omega arith)
