-- ===== src/Double.antt =====
-- What the platform does with a `double`: the operations as an interface, since there is no floating
-- point in the logic, and the facts of IEEE 754 that the theorems rest on as named hypotheses.
-- Equality of values is meant to identify the two zeros and all NaNs: the code divides by constants
-- only, so nothing tells the zeros apart.
use quant_platform.Base.{
  ℕ, ◌*◌, ◌/◌, ◌^◌, ◌≡◌, refl, ap, ◌↔◌, Bool, true, false, not, Option, some, none, List, arith,
  if◌then◌else◌,
}
use mathlib.Core.Bool.{false≢true}
use quant_platform.Base.Int.{
  ℤ, pos, eq_of_parts, ◌+ℤ◌, ◌-ℤ◌, ◌*ℤ◌, neg_ℤ, abs_ℤ, div_ℤ, ltb_ℤ, leb_ℤ, eqb_ℤ,
}

-- `nought` is 0.0, `decimal m e` the literal m / 10^e, `of_int` the conversion of an integer,
-- `llround` the rounding to the nearest one, and `from_chars` reads the longest number at the head of
-- a text, with what is left of it.
pub record Double {ℓ} (W : Type ℓ) : Type ℓ where
  pub nought : W
  pub nan : W
  pub add : W → W → W
  pub sub : W → W → W
  pub mul : W → W → W
  pub div : W → W → W
  pub neg : W → W
  pub abs : W → W
  pub lt : W → W → Bool
  pub le : W → W → Bool
  pub eq : W → W → Bool
  pub of_int : ℤ → W
  pub decimal : ℕ → ℕ → W
  pub llround : W → ℤ
  pub from_chars : List ℕ → Option (W × List ℕ)

module _ {ℓ} {W : Type ℓ} ⦃d : Double W⦄ where
  open d use {nought, neg, abs, lt, le, eq}

  infix 4 ◌≼◌ ◌≺◌
  abbrev pub ◌≼◌ : W → W → Type 0
  x ≼ y = le x y ≡ true

  abbrev pub ◌≺◌ : W → W → Type 0
  x ≺ y = lt x y ≡ true

  -- NaN is the value that is not `<=` itself.
  abbrev pub IsNumber : W → Type 0
  IsNumber x = x ≼ x

  -- `std::max`, `std::min` and `std::clamp`, by the comparisons that they make.
  abbrev pub std_max : W → W → W
  std_max a b = if lt a b then b else a

  abbrev pub std_min : W → W → W
  std_min a b = if lt b a then b else a

  abbrev pub std_clamp : W → W → W → W
  std_clamp v lo hi = if lt v lo then lo else if lt hi v then hi else v

-- The order is total away from NaN, and signs are exact.
pub record IsIeee {ℓ} (W : Type ℓ) ⦃d : Double W⦄ : Type ℓ where
  pub number_nought : IsNumber d.nought
  pub number_of_le : (x y : W) → x ≼ y → IsNumber x × IsNumber y
  pub le_of_lt : (x y : W) → x ≺ y → x ≼ y
  pub le_trans : (x y z : W) → x ≼ y → y ≼ z → x ≼ z
  pub le_antisymm : (x y : W) → x ≼ y → y ≼ x → x ≡ y
  pub lt-eq-not-le : (x y : W) → IsNumber x → IsNumber y → d.lt x y ≡ not (d.le y x)
  pub eq_iff : (x y : W) → (d.eq x y ≡ true) ↔ ((x ≡ y) × IsNumber x)
  pub neg_neg : (x : W) → d.neg (d.neg x) ≡ x
  pub neg-le : (x y : W) → x ≼ y → d.neg y ≼ d.neg x
  pub abs_of_nonneg : (x : W) → d.nought ≼ x → d.abs x ≡ x
  pub abs_of_neg : (x : W) → x ≺ d.nought → d.abs x ≡ d.neg x

-- The laws can be met, and programs run: fixed point with four decimals, and `none` for NaN.
abbrev pub Fixed : Type 0
Fixed = Option ℤ

abbrev pub fixed_one : ℕ
fixed_one = 10_000

abbrev pub fixed : ℕ → Fixed
fixed n = some (pos (n * fixed_one))

abbrev on_fixed : (ℤ → ℤ → ℤ) → Fixed → Fixed → Fixed
on_fixed f (some a) (some b) = some (f a b)
on_fixed f _ _ = none

abbrev map_fixed : (ℤ → ℤ) → Fixed → Fixed
map_fixed f (some a) = some (f a)
map_fixed f none = none

abbrev test_fixed : (ℤ → ℤ → Bool) → Fixed → Fixed → Bool
test_fixed f (some a) (some b) = f a b
test_fixed f _ _ = false

abbrev quotient : ℤ → ℤ → ℤ
quotient a (pos n) = div_ℤ (a *ℤ pos fixed_one) n
quotient a b = div_ℤ (neg_ℤ (a *ℤ pos fixed_one)) (abs_ℤ b)

instance abbrev pub fixed_double : Double Fixed
fixed_double = record {
  nought = some (pos 0);
  nan = none;
  add = on_fixed ◌+ℤ◌;
  sub = on_fixed ◌-ℤ◌;
  mul = on_fixed (λ a b. div_ℤ (a *ℤ b) fixed_one);
  div = on_fixed quotient;
  neg = map_fixed neg_ℤ;
  abs = map_fixed (λ a. pos (abs_ℤ a));
  lt = test_fixed ltb_ℤ;
  le = test_fixed leb_ℤ;
  eq = test_fixed eqb_ℤ;
  of_int = λ n. some (n *ℤ pos fixed_one);
  decimal = λ m e. some (pos (m * fixed_one / 10 ^ e));
  llround = λ x. elim x [ none ↦ pos 0 | some a ↦ div_ℤ a fixed_one ];
  from_chars = λ _. none;
}

order_total :
    (x y : Fixed) → IsNumber x → IsNumber y → fixed_double.lt x y ≡ not (fixed_double.le y x)
order_total x y h k = ground arith

antisymm_fixed : (x y : Fixed) → x ≼ y → y ≼ x → x ≡ y
antisymm_fixed (some a) (some b) h k = ap some (eq_of_parts a b (ground arith))
antisymm_fixed (some a) none h k = absurd (false≢true h)
antisymm_fixed none y h k = absurd (false≢true h)

eq_fixed_iff : (x y : Fixed) → (fixed_double.eq x y ≡ true) ↔ ((x ≡ y) × IsNumber x)
eq_fixed_iff (some a) (some b) =
    (λ e. (ap some (eq_of_parts a b (ground arith)), ground arith), λ h. ground arith)
eq_fixed_iff (some a) none = (λ e. cc, λ h. cc)
eq_fixed_iff none y = (λ e. cc, λ h. absurd (false≢true h.1))

neg_neg_fixed : (x : Fixed) → fixed_double.neg (fixed_double.neg x) ≡ x
neg_neg_fixed x = ground arith

neg-le_fixed : (x y : Fixed) → x ≼ y → fixed_double.neg y ≼ fixed_double.neg x
neg-le_fixed x y h = ground arith

pub Fixed-IsIeee : IsIeee Fixed
Fixed-IsIeee = record {
  number_nought = refl;
  number_of_le = λ x y h. ground arith;
  le_of_lt = λ x y h. ground arith;
  le_trans = λ x y z h k. ground arith;
  le_antisymm = antisymm_fixed;
  lt-eq-not-le = order_total;
  eq_iff = eq_fixed_iff;
  neg_neg = neg_neg_fixed;
  neg-le = neg-le_fixed;
  abs_of_nonneg = λ x h. ground arith;
  abs_of_neg = λ x h. ground arith;
}
