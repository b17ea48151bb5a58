-- ===== src/Utils/Decimal/Digits.antt =====
-- The bytes of a decimal text.
use fit_fred.Common.{
  ℕ, zero, suc, ◌+◌, ◌/◌, ◌%◌, ◌<◌, ◌≤◌, ◌≡◌, arith, Bytes, [], ◌∷◌, ltb, All, Bool-cases, inl, inr,
}
use fit_fred.Utils.Decimal.{digits_before, decimal}

abbrev pub IsDigit : ℕ → Type 0
IsDigit c = (48 ≤ c) × (c < 58)

digits_before-IsDigit :
    (fuel n : ℕ) (rest : Bytes) → All IsDigit rest → All IsDigit (digits_before fuel n rest)
unfolding digits_before
digits_before-IsDigit zero n rest h = h
digits_before-IsDigit (suc fuel) n rest h = elim (Bool-cases (ltb n 10)) [
  | inl one ↦ rw (digits_before, one) ((omega arith, ground arith), h)
  | inr more ↦
      rw (digits_before, more)
        (digits_before-IsDigit fuel (n / 10) ((48 + n % 10) ∷ rest) ((omega arith, omega arith), h))
]

pub decimal-IsDigit : (n : ℕ) → All IsDigit (decimal n)
unfolding decimal
decimal-IsDigit n = digits_before-IsDigit 20 n [] tt

digits_before-full : (fuel n c : ℕ) (rest : Bytes) → ¬ (digits_before fuel n (c ∷ rest) ≡ [])
unfolding digits_before
digits_before-full zero n c rest = λ e. cc
digits_before-full (suc fuel) n c rest = elim (Bool-cases (ltb n 10)) [
  | inl one ↦ rw (digits_before, one) λ e. cc
  | inr more ↦ rw (digits_before, more) (digits_before-full fuel (n / 10) (48 + n % 10) (c ∷ rest))
]

pub decimal-full : (n : ℕ) → ¬ (decimal n ≡ [])
unfolding decimal digits_before
decimal-full n = elim (Bool-cases (ltb n 10)) [
  | inl one ↦ rw (decimal, digits_before, one) λ e. cc
  | inr more ↦ rw (decimal, digits_before, more) (digits_before-full 19 (n / 10) (48 + n % 10) [])
]
