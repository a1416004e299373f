-- ===== src/Base/Digits.antt =====
-- The decimal digits of a number determine it.
use Prim.Native.Nat.{ℕ, zero, suc, ◌+◌, ◌-◌, ◌*◌, ◌/◌, ◌%◌, ◌≤◌, ◌<◌}
use mathlib.Core.Path.{◌≡◌, sym, ap, ◌∙◌}
use mathlib.Core.Logic.{inl, inr}
use mathlib.Core.Bool.{true}
use mathlib.Core.List.{[], ◌∷◌}
use native.Mathlib.Omega.{arith}
use cortex_rag.Base.Equality.{ltb, Bool-cases}
use cortex_rag.Base.Str.{Text, decimal_onto, decimal}

-- The number that starts with `n` and goes on with the digits of `s`.
abbrev pub value_onto : ℕ → Text → ℕ
value_onto n [] = n
value_onto n (c ∷ s) = value_onto (n * 10 + (c - 48)) s

below_ten : (n : ℕ) → ltb n 10 ≡ true → n < 10
below_ten n h = ground arith

digit_alone : (n : ℕ) → n < 10 → 0 * 10 + (48 + n % 10 - 48) ≡ n
digit_alone n h = omega (arith, h)

digits_joined : (n : ℕ) → n / 10 * 10 + (48 + n % 10 - 48) ≡ n
digits_joined n = omega arith

value_onto-decimal_onto :
    (fuel n : ℕ) (rest : Text)
    → n ≤ fuel
    → value_onto 0 (decimal_onto fuel n rest) ≡ value_onto n rest
unfolding decimal_onto
value_onto-decimal_onto zero n rest h =
    ap (λ k. value_onto k rest) (digit_alone n (omega (arith, h)))
value_onto-decimal_onto (suc fuel) n rest h = elim (Bool-cases (ltb n 10)) [
  | inl small ↦ rw small (ap (λ k. value_onto k rest) (digit_alone n (below_ten n small)))
  | inr large ↦ rw large (
      value_onto-decimal_onto fuel (n / 10) ((48 + n % 10) ∷ rest) (omega (arith, h))
      ∙ ap (λ k. value_onto k rest) (digits_joined n))
]

-- The digits of a number are read as that number, so the fuel of `decimal` leaves no digit out.
pub value_onto-decimal : (n : ℕ) → value_onto 0 (decimal n) ≡ n
unfolding decimal
value_onto-decimal n = value_onto-decimal_onto n n [] (omega arith)

-- Numbers with the same digits are equal.
pub decimal-injective : (m n : ℕ) → decimal m ≡ decimal n → m ≡ n
decimal-injective m n h = sym (value_onto-decimal m) ∙ ap (value_onto 0) h ∙ value_onto-decimal n
