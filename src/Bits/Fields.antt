-- ===== src/Bits/Fields.antt =====
-- The binary digits of a word, and what the word operations do to each of them. Two words with the
-- same digits are equal, so the laws of `&`, `|`, `~`, shifts and masks are proved digit by digit.
use native.Mathlib.Nat.{pow-suc, pow-succ', one-le-pow, mod-eq_of_lt, mod-lt, div-div-eq-div-mul}
use Prim.Native.Nat.add
use fit_fred.Common.{
  ℕ, zero, suc, ◌+◌, ◌-◌, ◌*◌, ◌/◌, ◌%◌, ◌^◌, ◌≤◌, ◌<◌, max, min, bit_and, bit_or, ◌≡◌, refl, arith,
  ltb, ◌==◌, if◌then◌else◌, ap, sym,
}
use fit_fred.Bits.Step.{and_step, or_step}

-- Digit number `k` of `a`, the lowest first.
pub bit : ℕ → ℕ → ℕ
bit zero a = a % 2
bit (suc k) a = bit k (a / 2)

pub bit-le : (k a : ℕ) → bit k a ≤ 1
unfolding bit
bit-le zero a = omega arith
bit-le (suc k) a = bit-le k (a / 2)

pub bit-zero : (k : ℕ) → bit k 0 ≡ 0
unfolding bit
bit-zero zero = refl
bit-zero (suc k) = bit-zero k

-- Words with the same digits are equal.
ext_below : (n a b : ℕ) → a ≤ n → b ≤ n → ((k : ℕ) → bit k a ≡ bit k b) → a ≡ b
unfolding bit
ext_below zero a b ha hb h = omega arith
ext_below (suc n) a b ha hb h =
    omega (arith, h 0, ext_below n (a / 2) (b / 2) (omega arith) (omega arith) (λ k. h (suc k)))

pub bit_ext : (a b : ℕ) → ((k : ℕ) → bit k a ≡ bit k b) → a ≡ b
bit_ext a b h = ext_below (a + b) a b (omega arith) (omega arith) h

pub bit-and : (k a b : ℕ) → bit k (bit_and a b) ≡ min (bit k a) (bit k b)
unfolding bit
bit-and zero a b = omega (arith, and_step a b)
bit-and (suc k) a b =
    let half : bit_and a b / 2 ≡ bit_and (a / 2) (b / 2) = omega (arith, and_step a b) in
    rw half (bit-and k (a / 2) (b / 2))

pub bit-or : (k a b : ℕ) → bit k (bit_or a b) ≡ max (bit k a) (bit k b)
unfolding bit
bit-or zero a b = omega (arith, or_step a b)
bit-or (suc k) a b =
    let half : bit_or a b / 2 ≡ bit_or (a / 2) (b / 2) = omega (arith, or_step a b) in
    rw half (bit-or k (a / 2) (b / 2))

div-pow-suc : (a f : ℕ) → a / 2 ^ suc f ≡ a / 2 / 2 ^ f
div-pow-suc a f = rw (pow-succ' 2 f) (sym (div-div-eq-div-mul a 2 (2 ^ f)))

mod-pow-suc_half : (a l : ℕ) → a % 2 ^ suc l / 2 ≡ a / 2 % 2 ^ l
mod-pow-suc_half a l = rw (pow-suc 2 l) (grind (arith, one-le-pow l 2))

mod-pow-suc_parity : (a l : ℕ) → a % 2 ^ suc l % 2 ≡ a % 2
mod-pow-suc_parity a l = rw (pow-suc 2 l) (grind (arith, one-le-pow l 2))

mul-pow-suc : (a f : ℕ) → a * 2 ^ suc f ≡ 2 * (a * 2 ^ f)
mul-pow-suc a f = omega (arith, ap (λ (t : ℕ). a * t) (pow-suc 2 f))

-- A right shift drops the lowest digits.
pub bit-shr : (k f a : ℕ) → bit k (a / 2 ^ f) ≡ bit (f + k) a
unfolding bit
bit-shr k zero a = ground arith
bit-shr k (suc f) a = ground (arith, div-pow-suc a f, bit-shr k f (a / 2), add.suc f k)

-- The low `l` digits.
pub bit-mod : (k l a : ℕ) → bit k (a % 2 ^ l) ≡ (if ltb k l then bit k a else 0)
unfolding bit
bit-mod zero zero a = omega arith
bit-mod (suc k) zero a = ground (arith, bit-zero k)
bit-mod zero (suc l) a = ground (arith, mod-pow-suc_parity a l)
bit-mod (suc k) (suc l) a = rw (mod-pow-suc_half a l) (ground (arith, bit-mod k l (a / 2)))

-- A left shift puts zeros below.
pub bit-shl : (k f a : ℕ) → bit k (a * 2 ^ f) ≡ (if ltb k f then 0 else bit (k - f) a)
unfolding bit
bit-shl zero zero a = ground arith
bit-shl (suc k) zero a = ground arith
bit-shl zero (suc f) a = ground (arith, mul-pow-suc a f)
bit-shl (suc k) (suc f) a =
    let half : a * 2 ^ suc f / 2 ≡ a * 2 ^ f = omega (arith, mul-pow-suc a f) in
    rw half (ground (arith, bit-shl k f a))

-- The complement in `w` bits.
pub bit-not : (k w a : ℕ) → a < 2 ^ w → bit k (2 ^ w - 1 - a) ≡ (if ltb k w then 1 - bit k a else 0)
unfolding bit
bit-not zero zero a h = omega arith
bit-not (suc k) zero a h = ground (arith, bit-zero k)
bit-not zero (suc w) a h = ground (arith, pow-suc 2 w)
bit-not (suc k) (suc w) a h =
    let half : (2 ^ suc w - 1 - a) / 2 ≡ 2 ^ w - 1 - a / 2 = omega (arith, pow-suc 2 w) in
    rw half (ground (arith, pow-suc 2 w, bit-not k w (a / 2)))

-- A number below `2 ^ l` has no digit from `l` on.
pub bit_above : (k l a : ℕ) → a < 2 ^ l → l ≤ k → bit k a ≡ 0
bit_above k l a fits h = ground (arith, bit-mod k l a, mod-eq_of_lt fits)

pub pow_pos : (l : ℕ) → 0 < 2 ^ l
pow_pos l = one-le-pow l 2 (omega arith)

-- A mask of `l` ones.
pub bit-ones : (k l : ℕ) → bit k (2 ^ l - 1) ≡ (if ltb k l then 1 else 0)
bit-ones k l = ground (arith, bit-not k l 0 (pow_pos l), bit-zero k)

pub bit_digit : (k d : ℕ) → d ≤ 1 → bit k d ≡ (if k == 0 then d else 0)
unfolding bit
bit_digit zero d h = ground arith
bit_digit (suc k) d h =
    let none_left : d / 2 ≡ 0 = omega arith in rw none_left (ground (arith, bit-zero k))

-- A single one.
pub bit-pow : (k l : ℕ) → bit k (2 ^ l) ≡ (if k == l then 1 else 0)
bit-pow k l =
    let e : 2 ^ l ≡ 1 * 2 ^ l = omega arith in
    rw e (ground (arith, bit-shl k l 1, bit_digit (k - l) 1))

-- A digit as a quotient.
pub bit_lem : (k a : ℕ) → bit k a ≡ a / 2 ^ k % 2
unfolding bit
bit_lem zero a = ground arith
bit_lem (suc k) a = ground (arith, div-pow-suc a k, bit_lem k (a / 2))

-- A greater power of two.
pub pow_mono : (k l : ℕ) → k ≤ l → 2 ^ k ≤ 2 ^ l
pow_mono zero l h = pow_pos l
pow_mono (suc k) zero h = absurd (omega arith)
pow_mono (suc k) (suc l) h = omega (arith, pow-suc 2 k, pow-suc 2 l, pow_mono k l (omega arith))

-- A number with no digit from `w` on is below 2 ^ w.
pub lt_of_bits : (a w : ℕ) → ((k : ℕ) → w ≤ k → bit k a ≡ 0) → a < 2 ^ w
lt_of_bits a w high =
    let low : a ≡ a % 2 ^ w = bit_ext _ _ λ k. ground (arith, bit-mod k w a, high k) in
    rw low (mod-lt a (pow_pos w))

-- Two fields side by side, as a sum.
pub bit-join :
    (k f q r : ℕ) → r < 2 ^ f → bit k (q * 2 ^ f + r) ≡ (if ltb k f then bit k r else bit (k - f) q)
unfolding bit
bit-join zero zero q r h = ground arith
bit-join (suc k) zero q r h = ground arith
bit-join zero (suc f) q r h = ground (arith, mul-pow-suc q f)
bit-join (suc k) (suc f) q r h =
    let half : (q * 2 ^ suc f + r) / 2 ≡ q * 2 ^ f + r / 2 = omega (arith, mul-pow-suc q f) in
    rw half (ground (arith, pow-suc 2 f, bit-join k f q (r / 2)))

-- So `|` of a shifted word and a word that fits below it is their sum.
pub or_join : (f q r : ℕ) → r < 2 ^ f → bit_or (q * 2 ^ f) r ≡ q * 2 ^ f + r
or_join f q r h = bit_ext _ _ λ k.
    ground (arith, bit-or k (q * 2 ^ f) r, bit-shl k f q, bit-join k f q r h, bit_above k f r h)
