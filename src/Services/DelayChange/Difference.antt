-- ===== src/Services/DelayChange/Difference.antt =====
-- When a delay change is needed.
use fit_fred.Common.{
  ◌^◌, ◌<◌, ◌≡◌, ◌↔◌, ap, arith, max, none, some, ◌==◌, true, Bool-cases, ==_iff, inl, inr,
}
use native.Mathlib.Nat.{mod-eq_of_lt}
use fit_fred.Common.Int.{ℤ, pos, negsuc}
use fit_fred.Board.Defs.{ParameterInfo}
use fit_fred.Services.DelayChange.{distance, get_delay_difference, change_of}

distance-zero : (a b : ℤ) → distance a b ≡ 0 → a ≡ b
distance-zero (pos a) (pos b) h = ap pos (omega arith)
distance-zero (negsuc a) (negsuc b) h = ap negsuc (omega arith)
distance-zero (pos a) (negsuc b) h = absurd (omega arith)
distance-zero (negsuc a) (pos b) h = absurd (omega arith)

distance-same : (a : ℤ) → distance a a ≡ 0
distance-same a = omega arith

known_difference :
    {Double : Type 0} (info : ParameterInfo Double) (old new : ℤ)
    → info.electronic_value ≡ some old
    → distance old new < 2 ^ 32
    → get_delay_difference info (some new) ≡ distance old new
unfolding get_delay_difference
known_difference info old new e h = rw e (mod-eq_of_lt h)

-- Both delays are known, and the new ones differ from them by less than 2 ^ 32: there is nothing to
-- change exactly if both new delays are the known ones.
pub change_of-none :
    {Double : Type 0} (info_a info_c : ParameterInfo Double) (old_a old_c new_a new_c : ℤ)
    → info_a.electronic_value ≡ some old_a
    → info_c.electronic_value ≡ some old_c
    → distance old_a new_a < 2 ^ 32
    → distance old_c new_c < 2 ^ 32
    → (change_of info_a info_c (some new_a) (some new_c) ≡ none)
      ↔ ((old_a ≡ new_a) × (old_c ≡ new_c))
unfolding change_of
change_of-none info_a info_c old_a old_c new_a new_c e_a e_c small_a small_c =
    let a = known_difference info_a old_a new_a e_a small_a in
    let c = known_difference info_c old_c new_c e_c small_c in
    let largest = max (distance old_a new_a) (distance old_c new_c) in
    elim (Bool-cases (largest == 0)) [
      | inl zero_change ↦
          let none_left : largest ≡ 0 = (==_iff largest 0).0 zero_change in
          (
            λ _. (distance-zero old_a new_a (omega arith), distance-zero old_c new_c (omega arith)),
            λ _. rw (change_of, a, c, zero_change),
          )
      | inr changes ↦ (
        λ h. let wrong = rw (change_of, a, c, changes) at h in cc,
        λ (same_a, same_c).
            let none_left : largest ≡ 0 = rw (same_a, same_c) (omega arith) in
            let zero_change : (largest == 0) ≡ true = (==_iff largest 0).1 none_left in cc,
      )
    ]
