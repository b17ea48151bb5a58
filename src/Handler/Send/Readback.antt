-- ===== src/Handler/Send/Readback.antt =====
-- A write of BoardCommunicationHandler and the read that follows it.
use native.Mathlib.Nat.{mod-eq_of_lt}
use fit_fred.Common.{
  ℕ, ◌*◌, ◌%◌, ◌^◌, ◌<◌, ◌≡◌, refl, arith, some, ◌==◌, true, false, Bool-cases, ==_iff, inl, inr,
}
use fit_fred.Utils.BitField.{get_bit_field}
use fit_fred.Swt.Sequence.{Operation, SwtOperation}
use fit_fred.Swt.Mask.{create_and_mask, read_modify_write, get_bit_field-read_modify_write}
use fit_fred.Platform.{Platform}
use fit_fred.Board.Defs.{ParameterInfo, field_of}
use fit_fred.Board.Codes.{IsDescribed, shl-lt, shr-shl}
use fit_fred.Handler.Send.{write_operation, to_compare}
use fit_fred.WinCc.Request.{Command}

-- What a board does to a register on the two write requests: the electronics is not part of the
-- repository, so only what the code relies on is required.
pub record Electronics : Type 0 where
  pub applied : SwtOperation → ℕ → ℕ
  pub write_law :
      (op : SwtOperation) (reg : ℕ) → op.type ≡ Operation.write → applied op reg ≡ op.data0
  pub rmw_bits_law :
      (op : SwtOperation) (reg : ℕ)
      → op.type ≡ Operation.rmw_bits
      → applied op reg ≡ read_modify_write reg op.data0 op.data1

-- The positions of a described field are not changed by `uint8_t`.
byte_sized :
    {Double : Type 0} (info : ParameterInfo Double)
    → IsDescribed info
    → (info.start_bit % 2 ^ 8 ≡ info.start_bit) × (info.bit_length % 2 ^ 8 ≡ info.bit_length)
byte_sized info d = (
  mod-eq_of_lt {n = info.start_bit} {m = 2 ^ 8} (omega (arith, d.inside_word)),
  mod-eq_of_lt {n = info.bit_length} {m = 2 ^ 8} (omega (arith, d.inside_word)),
)

get_bit_field-whole : (word f : ℕ) → get_bit_field word f 32 ≡ word
unfolding get_bit_field
get_bit_field-whole word f = refl

-- The two kinds of write.
pub write_operation-whole :
    (platform : Platform) (info : ParameterInfo platform.Double) (raw : ℕ)
    → (info.bit_length == 32) ≡ true
    → let op = write_operation platform info raw in (op.type ≡ Operation.write) × (op.data0 ≡ raw)
unfolding write_operation
write_operation-whole platform info raw h = rw h (refl, refl)

pub write_operation-part :
    (platform : Platform) (info : ParameterInfo platform.Double) (raw : ℕ)
    → (info.bit_length == 32) ≡ false
    → let op = write_operation platform info raw in
      (op.type ≡ Operation.rmw_bits)
      × (op.data0 ≡ create_and_mask info.start_bit info.bit_length)
      × (op.data1 ≡ raw)
unfolding write_operation
write_operation-part platform info raw h = rw h (refl, refl, refl)

pub starts_at_zero :
    {Double : Type 0} (info : ParameterInfo Double)
    → IsDescribed info
    → (info.bit_length == 32) ≡ true
    → (info.bit_length ≡ 32) × (info.start_bit ≡ 0)
starts_at_zero info d h =
    let length : info.bit_length ≡ 32 = (==_iff info.bit_length 32).0 h in
    (length, omega (arith, d.inside_word))

pub raw_word :
    {Double : Type 0} (info : ParameterInfo Double) (code : ℕ)
    → IsDescribed info
    → code < 2 ^ info.bit_length
    → code * 2 ^ info.start_bit % 2 ^ 32 ≡ code * 2 ^ info.start_bit
raw_word info code d fits =
    mod-eq_of_lt (shl-lt code info.start_bit info.bit_length d.inside_word fits)

-- The field of the register after the write.
pub field-write_operation :
    (platform : Platform) (electronics : Electronics) (info : ParameterInfo platform.Double)
    (code reg : ℕ)
    → IsDescribed info
    → code < 2 ^ info.bit_length
    → reg < 2 ^ 32
    → field_of info (
        electronics.applied
          (write_operation platform info (code * 2 ^ info.start_bit % 2 ^ 32))
          reg)
      ≡ code
unfolding field_of
field-write_operation platform electronics info code reg d fits word =
    let raw = raw_word info code d fits in
    let shifted = code * 2 ^ info.start_bit in
    elim (Bool-cases (info.bit_length == 32)) [
      | inl whole ↦
          let op = write_operation-whole platform info shifted whole in
          let zero = starts_at_zero info d whole in
          let after = electronics.write_law (write_operation platform info shifted) reg op.0 in
          rw
            (
              raw,
              (byte_sized info d).0,
              (byte_sized info d).1,
              after,
              op.1,
              zero.0,
              get_bit_field-whole shifted info.start_bit,
              zero.1,
            )
            (omega arith)
      | inr part ↦
          let op = write_operation-part platform info shifted part in
          let after = electronics.rmw_bits_law (write_operation platform info shifted) reg op.0 in
          rw (raw, (byte_sized info d).0, (byte_sized info d).1, after, op.1, op.2)
            (get_bit_field-read_modify_write reg info.start_bit info.bit_length code 0 0
              d.inside_word fits word (omega arith) (inl (omega arith))).0
    ]

-- The value that the answer is compared with is the code of what was written.
pub to_compare-write_operation :
    (platform : Platform) (info : ParameterInfo platform.Double) (command : Command platform.Double)
    (value : platform.Double) (code : ℕ)
    → command.value ≡ some value
    → IsDescribed info
    → code < 2 ^ info.bit_length
    → to_compare platform info command
        (write_operation platform info (code * 2 ^ info.start_bit % 2 ^ 32))
      ≡ some code
unfolding to_compare
to_compare-write_operation platform info command value code given d fits =
    let raw = raw_word info code d fits in
    let shifted = code * 2 ^ info.start_bit in
    elim (Bool-cases (info.bit_length == 32)) [
      | inl whole ↦
          let op = write_operation-whole platform info shifted whole in
          let zero = starts_at_zero info d whole in
          let same : shifted ≡ code = rw zero.1 (omega arith) in rw (raw, given, op.0, op.1, same)
      | inr part ↦
          let op = write_operation-part platform info shifted part in
          rw (raw, given, op.0, op.2, shr-shl code info.start_bit)
    ]
