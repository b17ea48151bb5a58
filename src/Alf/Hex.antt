-- ===== src/Alf/Hex.antt =====
-- `charToHex` and `stringToByte` of mapi/include/communication-utils/AlfResponseParser.h, and how
-- they undo the digits that SwtSequence writes.
use fit_fred.Common.{
  ℕ, zero, suc, ◌+◌, ◌-◌, ◌*◌, ◌%◌, ◌^◌, ◌≤◌, ◌<◌, bit_and, bit_or, ◌≡◌, refl, arith, Bool, true,
  false, ◌&&◌, leb, ◌==◌, if◌then◌else◌, Fallible, ok, err, ◌>>=◌,
}
use fit_fred.Bits.Fields.{or_join}
use fit_fred.Utils.BitField.{and_low_mask}
use fit_fred.Swt.Hex.{half_byte_to_hex}

-- What is thrown: the exceptions of the source, and the model's mark for a loop that was given too
-- few rounds.
pub data ParseError : Type 0 where
  invalid_hexadecimal_character : ParseError
  invalid_line : ℕ → ParseError
  out_of_range : ParseError
  iterator_points_to_end : ParseError
  no_current_line : ParseError
  too_few_rounds : ParseError

unfoldable pub char_to_hex : ℕ → Fallible ParseError ℕ
char_to_hex ch =
    if leb b'0' ch && leb ch b'9'
    then ok (ch - b'0')
    else if leb b'A' ch && leb ch b'F'
    then ok (ch - b'A' + 10)
    else if leb b'a' ch && leb ch b'f'
    then ok (ch - b'a' + 10)
    else err invalid_hexadecimal_character

-- `static_cast<uint8_t>((charToHex(c1) << 4) | charToHex(c2))`.
unfoldable pub string_to_byte : ℕ → ℕ → Fallible ParseError ℕ
string_to_byte c1 c2 = do
  high ← char_to_hex c1
  low ← char_to_hex c2
  ok (bit_or (high * 2 ^ 4) low % 2 ^ 8)

every_below : ℕ → (ℕ → Bool) → Bool
every_below zero p = true
every_below (suc n) p = p n && every_below n p

every_below_lem : (n : ℕ) (p : ℕ → Bool) (x : ℕ) → every_below n p ≡ true → x < n → p x ≡ true
unfolding every_below
every_below_lem zero p x h lt = absurd (omega arith)
every_below_lem (suc n) p x h lt = ground (arith, every_below_lem n p x)

reads_back : ℕ → Bool
reads_back h = elim (char_to_hex (half_byte_to_hex h)) [ ok v ↦ v == h | err e ↦ false ]

every_digit : every_below 16 reads_back ≡ true
unfolding every_below reads_back char_to_hex half_byte_to_hex
every_digit = refl

-- A written digit is read back.
pub char_to_hex-half_byte_to_hex : (h : ℕ) → h < 16 → char_to_hex (half_byte_to_hex h) ≡ ok h
unfolding reads_back
char_to_hex-half_byte_to_hex h fits =
    ground (arith, every_below_lem 16 reads_back h every_digit fits)

low_digit : (h : ℕ) → half_byte_to_hex h ≡ half_byte_to_hex (h % 16)
unfolding half_byte_to_hex
low_digit h =
    let e : bit_and h 15 ≡ bit_and (h % 16) 15 =
      omega (arith, and_low_mask h 4, and_low_mask (h % 16) 4) in
    rw (half_byte_to_hex, e)

-- Two written digits are read back as a byte, whatever else the half bytes hold.
pub string_to_byte-half_byte_to_hex :
    (h l : ℕ) → string_to_byte (half_byte_to_hex h) (half_byte_to_hex l) ≡ ok (h % 16 * 16 + l % 16)
unfolding string_to_byte
string_to_byte-half_byte_to_hex h l =
    rw (low_digit h, low_digit l)
      (rw
        (
          char_to_hex-half_byte_to_hex (h % 16) (omega arith),
          char_to_hex-half_byte_to_hex (l % 16) (omega arith),
        )
        (ground (arith, or_join 4 (h % 16) (l % 16) (omega arith))))

-- The same with the digit '0' before it.
pub string_to_byte_zero : (l : ℕ) → string_to_byte b'0' (half_byte_to_hex l) ≡ ok (l % 16)
string_to_byte_zero l = ground (arith, string_to_byte-half_byte_to_hex 0 l, zero_digit)
  where
    zero_digit : half_byte_to_hex 0 ≡ b'0'
    zero_digit = unfold half_byte_to_hex in refl

digits_from_zero : every_below 16 (λ h. leb b'0' (half_byte_to_hex h)) ≡ true
unfolding every_below half_byte_to_hex
digits_from_zero = refl

-- A written digit is no control character.
pub half_byte_to_hex_printable : (h : ℕ) → b'0' ≤ half_byte_to_hex h
half_byte_to_hex_printable h = rw (low_digit h) (
    ground
      (arith, every_below_lem 16 (λ n. leb b'0' (half_byte_to_hex n)) (h % 16) digits_from_zero))
