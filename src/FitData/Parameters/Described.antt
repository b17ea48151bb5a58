-- ===== src/FitData/Parameters/Described.antt =====
-- When the row of a parameter describes it soundly.
use fit_fred.Common.{
  ℕ, ◌+◌, ◌-◌, ◌%◌, ◌^◌, ◌≤◌, ◌<◌, ◌≡◌, refl, sym, arith, Option, none, some, true, ltb,
}
use fit_fred.Common.Int.{ℤ, pos, negsuc, ◌≤ℤ◌}
use fit_fred.Bits.Fields.{pow_pos, pow_mono}
use fit_fred.Board.Defs.{ValueEncoding, unsigned, signed}
use fit_fred.Board.Codes.{IsDescribed, Holds}
use fit_fred.Database.Rows.{ParameterRow}
use fit_fred.FitData.Parameters.{
  bit_length_of, encoding_of, default_min, default_max, or_default, parse_parameter,
}

-- Limits that the row has stay within those that it would have without.
abbrev pub IsAtLeast : Option ℤ → ℤ → Type 0
IsAtLeast none value = Unit
IsAtLeast (some limit) value = value ≤ℤ limit

abbrev pub IsAtMost : Option ℤ → ℤ → Type 0
IsAtMost none value = Unit
IsAtMost (some limit) value = limit ≤ℤ value

bit_length_of_lem :
    (row : ParameterRow)
    → row.start_bit ≤ row.end_bit
    → row.end_bit < 32
    → bit_length_of row ≡ row.end_bit - row.start_bit + 1
unfolding bit_length_of
bit_length_of_lem row h top = omega arith

defaults_signed :
    (l : ℕ)
    → 1 ≤ l
    → l ≤ 32
    → (default_min signed l ≡ negsuc (2 ^ (l - 1) - 1))
      × (default_max signed l ≡ pos (2 ^ (l - 1) - 1))
unfolding default_min default_max
defaults_signed l h w =
    let last : (l + (2 ^ 32 - 1)) % 2 ^ 32 ≡ l - 1 = omega arith in
    let small = pow_mono (l - 1) 32 (omega arith) in
    let some_bit = pow_pos (l - 1) in
    let near : ltb (l - 1) 64 ≡ true = ground arith in rw (last, near) (ground arith, ground arith)

default_max_unsigned : (l : ℕ) → l ≤ 32 → default_max unsigned l ≡ pos (2 ^ l - 1)
unfolding default_max
default_max_unsigned l w =
    let small = pow_mono l 32 w in
    let some_bit = pow_pos l in let near : ltb l 64 ≡ true = ground arith in rw near (ground arith)

lower : (o : Option ℤ) (l value : ℤ) → value ≡ l → IsAtLeast o value → l ≤ℤ or_default o value
lower none l value e h = rw (sym e) (omega arith)
lower (some limit) l value e h = rw e at h

upper : (o : Option ℤ) (l value : ℤ) → value ≡ l → IsAtMost o value → or_default o value ≤ℤ l
upper none l value e h = rw (sym e) (omega arith)
upper (some limit) l value e h = rw e at h

holds :
    (e : ValueEncoding) (l : ℕ) (lo hi : Option ℤ)
    → 1 ≤ l
    → l ≤ 32
    → IsAtLeast lo (default_min e l)
    → IsAtMost hi (default_max e l)
    → Holds e l (or_default lo (default_min e l)) (or_default hi (default_max e l))
unfolding default_min
holds unsigned l lo hi h w at_least at_most = (
  lower lo (pos 0) (pos 0) refl at_least,
  upper hi (pos (2 ^ l - 1)) (default_max unsigned l) (default_max_unsigned l w) at_most,
)
holds signed l lo hi h w at_least at_most =
    let (min_value, max_value) = defaults_signed l h w in
    (
      lower lo _ (default_min signed l) min_value at_least,
      upper hi _ (default_max signed l) max_value at_most,
    )

-- For a row whose start bit is not behind its end bit, whose end bit lies inside the 32-bit word,
-- and whose limits, as far as it has any, are not wider than the default ones: the parameter that
-- is parsed from the row is a field inside the word, and its limits are values that the field can
-- hold.
pub parse_parameter-IsDescribed :
    {Double : Type 0} (row : ParameterRow)
    → row.start_bit ≤ row.end_bit
    → row.end_bit < 32
    → IsAtLeast row.min_value (default_min (encoding_of row) (bit_length_of row))
    → IsAtMost row.max_value (default_max (encoding_of row) (bit_length_of row))
    → IsDescribed (parse_parameter {Double = Double} row)
unfolding parse_parameter
parse_parameter-IsDescribed row order top at_least at_most =
    let length = bit_length_of_lem row order top in
    record {
      some_bit = omega arith;
      inside_word = omega arith;
      holds =
          holds (encoding_of row) (bit_length_of row) row.min_value row.max_value (omega arith)
            (omega arith) at_least at_most;
    }
