-- ===== src/Alf/Frame.antt =====
-- `AlfResponseParser::SwtFrame`: the three numbers of a read frame, from 19 hexadecimal digits.
use fit_fred.Common.{
  ℕ, ◌+◌, ◌*◌, ◌/◌, ◌%◌, ◌^◌, ◌<◌, bit_and, ◌≡◌, arith, Fallible, ok, ◌>>=◌, Bytes, ◌∷◌, ◌++◌,
  get_elem?, none, some,
}
use fit_fred.Utils.BitField.{and_low_mask}
use fit_fred.Swt.Hex.{half_byte_to_hex, word_to_hex}
use fit_fred.Alf.Hex.{
  ParseError, string_to_byte, string_to_byte-half_byte_to_hex, string_to_byte_zero,
}

pub record SwtFrame : Type 0 where
  pub prefix : ℕ
  pub address : ℕ
  pub word : ℕ

-- A byte of a text that ends with a zero byte, as `std::string` keeps it.
abbrev pub peek : Bytes → ℕ → ℕ
peek s i = elim (get_elem? s i) [ none ↦ 0 | some c ↦ c ]

abbrev byte_at : Bytes → ℕ → Fallible ParseError ℕ
byte_at s i = string_to_byte (peek s i) (peek s (i + 1))

-- Four bytes to a word, the first the highest, in `uint32_t`.
abbrev word_at : Bytes → ℕ → Fallible ParseError ℕ
word_at s i = do
  a ← byte_at s i
  b ← byte_at s (i + 2)
  c ← byte_at s (i + 4)
  d ← byte_at s (i + 6)
  ok ((a * 2 ^ 24 + b * 2 ^ 16 + c * 2 ^ 8 + d) % 2 ^ 32)

unfoldable pub swt_frame : Bytes → Fallible ParseError SwtFrame
swt_frame s = do
  word ← word_at s 11
  address ← word_at s 3
  high ← string_to_byte b'0' (peek s 0)
  low ← byte_at s 1
  ok (record { prefix = (high * 2 ^ 8 + low) % 2 ^ 16; address = address; word = word })

-- The digits of a frame behind its "0x", as SwtSequence and the electronics write them.
abbrev pub frame_text : SwtFrame → Bytes
frame_text f =
    half_byte_to_hex (f.prefix / 2 ^ 8)
    ∷ half_byte_to_hex (f.prefix / 2 ^ 4)
    ∷ half_byte_to_hex f.prefix
    ∷ (word_to_hex f.address ++ word_to_hex f.word)

-- The numbers have the width of their digits.
pub record IsFrame (f : SwtFrame) : Type 0 where
  pub prefix_fits : f.prefix < 2 ^ 12
  pub address_fits : f.address < 2 ^ 32
  pub word_fits : f.word < 2 ^ 32

mask : (x : ℕ) → bit_and x 15 ≡ x % 16
mask x = and_low_mask x 4

word_digits :
    (w : ℕ)
    → w < 2 ^ 32
    → ((w / 2 ^ 28 % 16 % 16 * 16 + w / 2 ^ 24 % 16 % 16) * 2 ^ 24
          + (w / 2 ^ 20 % 16 % 16 * 16 + w / 2 ^ 16 % 16 % 16) * 2 ^ 16
          + (w / 2 ^ 12 % 16 % 16 * 16 + w / 2 ^ 8 % 16 % 16) * 2 ^ 8
          + (w / 2 ^ 4 % 16 % 16 * 16 + w % 16 % 16))
        % 2 ^ 32
      ≡ w
word_digits w h = omega arith

prefix_digits :
    (w : ℕ) → w < 2 ^ 12 → (w / 2 ^ 8 % 16 * 2 ^ 8 + (w / 2 ^ 4 % 16 * 16 + w % 16)) % 2 ^ 16 ≡ w
prefix_digits w h = omega arith

-- The digits of a frame whose prefix has 12 bits and whose address and word have 32 are read back as
-- the frame, whatever text follows.
pub swt_frame-frame_text :
    (f : SwtFrame) (rest : Bytes) → IsFrame f → swt_frame (frame_text f ++ rest) ≡ ok f
unfolding swt_frame word_to_hex
swt_frame-frame_text f rest v =
    simp (string_to_byte_zero, string_to_byte-half_byte_to_hex, mask)
      (ground (
        arith,
        word_digits f.address v.address_fits,
        word_digits f.word v.word_fits,
        prefix_digits f.prefix v.prefix_fits,
      ))
