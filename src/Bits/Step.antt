-- ===== src/Bits/Step.antt =====
-- `&` and `|` are given by a recursion on binary digits that counts down from the first operand.
-- One equation for each, with no count: the lowest digit and the rest.
use Prim.Native.Nat.{digits, bitwise, bit_and-bitwise, bit_or-bitwise}
use fit_fred.Common.{
  ℕ, zero, suc, ◌+◌, ◌*◌, ◌/◌, ◌%◌, ◌≤◌, max, min, bit_and, bit_or, ◌≡◌, refl, arith,
}

module _ (z : ℕ → ℕ) (f : ℕ → ℕ → ℕ) where
  -- Any two counts that cover the first operand give one result.
  count_irrelevant : (j k a b : ℕ) → a ≤ j → a ≤ k → digits z f j a b ≡ digits z f k a b
  count_irrelevant (suc j) (suc k) (suc a) b hj hk =
      rw (count_irrelevant j k (suc a / 2) (b / 2) (omega arith) (omega arith))
  count_irrelevant zero zero zero b hj hk = refl
  count_irrelevant zero (suc k) zero b hj hk = refl
  count_irrelevant (suc j) zero zero b hj hk = refl
  count_irrelevant (suc j) (suc k) zero b hj hk = refl
  count_irrelevant zero k (suc a) b hj hk = absurd (omega arith)
  count_irrelevant (suc j) zero (suc a) b hj hk = absurd (omega arith)

  lowest_digit :
      (a b : ℕ)
      → bitwise z f (suc a) b ≡ bitwise z f (suc a / 2) (b / 2) * 2 + f (suc a % 2) (b % 2)
  lowest_digit a b =
      rw (count_irrelevant a (suc a / 2) (suc a / 2) (b / 2) (omega arith) (omega arith))

pub and_step : (a b : ℕ) → bit_and a b ≡ bit_and (a / 2) (b / 2) * 2 + min (a % 2) (b % 2)
and_step zero b = omega (arith, bit_and-bitwise 0 b, bit_and-bitwise 0 (b / 2))
and_step (suc a) b = simp bit_and-bitwise (lowest_digit (λ y. 0) min a b)

pub or_step : (a b : ℕ) → bit_or a b ≡ bit_or (a / 2) (b / 2) * 2 + max (a % 2) (b % 2)
or_step zero b = omega (arith, bit_or-bitwise 0 b, bit_or-bitwise 0 (b / 2))
or_step (suc a) b = simp bit_or-bitwise (lowest_digit (λ y. y) max a b)
