-- ===== src/Utils/Decimal.antt =====
-- `std::to_string` of integers, as mapi/include/communication-utils/WinCCRequest.h uses it.
pub mod Digits
use fit_fred.Common.{
  ℕ, zero, suc, ◌+◌, ◌-◌, ◌*◌, ◌/◌, ◌%◌, ◌^◌, ◌<◌, ◌≡◌, arith, Bytes, [], ◌∷◌, ltb, leb, ◌&&◌,
  if◌then◌else◌, Option, none, some, Bool-cases, inl, inr,
}
use native.Mathlib.Nat.{pow-suc}
use fit_fred.Common.Int.{ℤ, pos, negsuc}

-- The digits of a number, put in front of what is there; `fuel` digits are given at most.
digits_before : ℕ → ℕ → Bytes → Bytes
digits_before zero n rest = rest
digits_before (suc fuel) n rest =
    let next = digits_before fuel (n / 10) ((48 + n % 10) ∷ rest) in
    if ltb n 10 then (48 + n) ∷ rest else next

-- A 64-bit number has 20 digits at most.
unfoldable pub decimal : ℕ → Bytes
unfolding digits_before
decimal n = digits_before 20 n []

unfoldable pub signed_decimal : ℤ → Bytes
unfolding decimal
signed_decimal (pos n) = decimal n
signed_decimal (negsuc n) = 45 ∷ decimal (suc n)

-- The number that digits stand for, read on from a number.
unfoldable pub read_digits : ℕ → Bytes → Option ℕ
read_digits n [] = some n
read_digits n (c ∷ s) = if leb 48 c && ltb c 58 then read_digits (n * 10 + (c - 48)) s else none

-- Reading what `digits_before` has put in front is reading what was behind it.
read_digits-digits_before :
    (fuel n : ℕ) (rest : Bytes)
    → n < 10 ^ fuel
    → read_digits 0 (digits_before fuel n rest) ≡ read_digits n rest
unfolding digits_before read_digits
read_digits-digits_before zero n rest h = let none_left : n ≡ 0 = omega arith in rw none_left
read_digits-digits_before (suc fuel) n rest h = elim (Bool-cases (ltb n 10)) [
  | inl one ↦ rw (digits_before, one) (ground arith)
  | inr more ↦
      let smaller : n / 10 < 10 ^ fuel = omega (arith, pow-suc 10 fuel) in
      let before = read_digits-digits_before fuel (n / 10) ((48 + n % 10) ∷ rest) smaller in
      rw (digits_before, more, before) (ground arith)
]

-- For a number of at most 20 digits: the digits of its decimal text stand for the number.
pub read_digits-decimal : (n : ℕ) → n < 10 ^ 20 → read_digits 0 (decimal n) ≡ some n
unfolding decimal read_digits
read_digits-decimal n h = read_digits-digits_before 20 n [] h
