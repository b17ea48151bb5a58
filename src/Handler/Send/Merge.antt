-- ===== src/Handler/Send/Merge.antt =====
-- `mergeOperation`: several masked writes of one register become one.
use fit_fred.Common.{
  ℕ, ◌+◌, ◌-◌, ◌*◌, ◌%◌, ◌^◌, ◌==◌, false, ◌≤◌, ◌<◌, ◌≡◌, arith, ok, bit_and, bit_or, max, ltb,
  ◌||◌, if◌then◌else◌, ◌⊎◌,
}
use fit_fred.Bits.Fields.{bit, bit_ext, bit-and, bit-or, bit-shl, bit_above, bit-le, lt_of_bits}
use fit_fred.Swt.Sequence.{Operation, SwtOperation}
use fit_fred.Platform.{Platform}
use fit_fred.Board.Defs.{ParameterInfo, field_of}
use fit_fred.Board.Codes.{IsDescribed}
use fit_fred.Handler.Send.{merge_operation, write_operation}
use fit_fred.Handler.Send.Readback.{
  Electronics, write_operation-part, raw_word, field-write_operation,
}
use fit_fred.Swt.Mask.{
  inside, create_and_mask, read_modify_write, bit-create_and_mask, bit-read_modify_write,
  read_modify_write-lt,
}

-- A digit of a shifted value that fits its field.
bit-shifted :
    (k f l c : ℕ) → c < 2 ^ l → bit k (c * 2 ^ f) ≡ (if inside k f l then bit (k - f) c else 0)
bit-shifted k f l c fits = ground (arith, bit-shl k f c, bit_above (k - f) l c fits)

-- A digit of the merged masks and of the merged values.
merged_mask :
    (k f l f' l' : ℕ)
    → f + l ≤ 32
    → f' + l' ≤ 32
    → bit k (bit_and (create_and_mask f l) (create_and_mask f' l'))
      ≡ (if ltb k 32 then (if inside k f l || inside k f' l' then 0 else 1) else 0)
merged_mask k f l f' l' h h' = ground (
  arith,
  bit-and k (create_and_mask f l) (create_and_mask f' l'),
  bit-create_and_mask k f l h,
  bit-create_and_mask k f' l' h',
)

merged_digit :
    (k reg f l c f' l' c' : ℕ)
    → f + l ≤ 32
    → c < 2 ^ l
    → f' + l' ≤ 32
    → c' < 2 ^ l'
    → reg < 2 ^ 32
    → bit k (
        read_modify_write reg
          (bit_and (create_and_mask f l) (create_and_mask f' l'))
          (bit_or (c * 2 ^ f) (c' * 2 ^ f')))
      ≡ max (if inside k f l || inside k f' l' then 0 else bit k reg) (
          max
            (if inside k f l then bit (k - f) c else 0)
            (if inside k f' l' then bit (k - f') c' else 0))
merged_digit k reg f l c f' l' c' h fits h' fits' word =
    let mask = bit_and (create_and_mask f l) (create_and_mask f' l') in
    let value = bit_or (c * 2 ^ f) (c' * 2 ^ f') in
    let kept : bit k (bit_and reg mask)
        ≡ (if inside k f l || inside k f' l' then 0 else bit k reg) =
      ground (
        arith,
        bit-and k reg mask,
        merged_mask k f l f' l' h h',
        bit_above k 32 reg word,
        bit-le k reg,
      ) in
    rw (
      bit-or k (bit_and reg mask) value,
      kept,
      bit-or k (c * 2 ^ f) (c' * 2 ^ f'),
      bit-shifted k f l c fits,
      bit-shifted k f' l' c' fits',
    )

merged_write :
    (reg f l c f' l' c' : ℕ)
    → f + l ≤ 32
    → c < 2 ^ l
    → f' + l' ≤ 32
    → c' < 2 ^ l'
    → (f' + l' ≤ f) ⊎ (f + l ≤ f')
    → reg < 2 ^ 32
    → read_modify_write reg
        (bit_and (create_and_mask f l) (create_and_mask f' l'))
        (bit_or (c * 2 ^ f) (c' * 2 ^ f'))
      ≡ read_modify_write
          (read_modify_write reg (create_and_mask f l) (c * 2 ^ f))
          (create_and_mask f' l')
          (c' * 2 ^ f')
merged_write reg f l c f' l' c' h fits h' fits' apart word =
    let first = read_modify_write reg (create_and_mask f l) (c * 2 ^ f) in
    bit_ext _ _ λ k.
      rw
        (
          merged_digit k reg f l c f' l' c' h fits h' fits' word,
          bit-read_modify_write k first f' l' c' h' fits'
              (read_modify_write-lt reg f l c h fits word),
          bit-read_modify_write k reg f l c h fits word,
        )
        (ground (arith, apart))

-- A value that was written to the field twice.
or-lt : (l c c' : ℕ) → c < 2 ^ l → c' < 2 ^ l → bit_or c c' < 2 ^ l
or-lt l c c' fits fits' =
    lt_of_bits _ l λ k far. rw (bit-or k c c', bit_above k l c fits far, bit_above k l c' fits' far)

overwritten :
    (reg f l c c' : ℕ)
    → f + l ≤ 32
    → c < 2 ^ l
    → c' < 2 ^ l
    → reg < 2 ^ 32
    → read_modify_write reg
        (bit_and (create_and_mask f l) (create_and_mask f l))
        (bit_or (c * 2 ^ f) (c' * 2 ^ f))
      ≡ read_modify_write reg (create_and_mask f l) (bit_or c c' * 2 ^ f)
overwritten reg f l c c' h fits fits' word = bit_ext _ _ λ k.
    rw
      (
        merged_digit k reg f l c f l c' h fits h fits' word,
        bit-read_modify_write k reg f l (bit_or c c') h (or-lt l c c' fits fits') word,
        bit-or (k - f) c c',
      )
      (ground arith)

-- The write of a code to the field of a parameter.
abbrev pub write_of : (platform : Platform) → ParameterInfo platform.Double → ℕ → SwtOperation
write_of platform info code = write_operation platform info (code * 2 ^ info.start_bit % 2 ^ 32)

merge_operation-rmw_bits :
    (op op' : SwtOperation)
    → op.type ≡ Operation.rmw_bits
    → op'.type ≡ Operation.rmw_bits
    → merge_operation op op'
      ≡ ok (record op { data0 = bit_and op.data0 op'.data0; data1 = bit_or op.data1 op'.data1 })
unfolding merge_operation
merge_operation-rmw_bits op op' e e' = rw (e, e')

write_of-part :
    (platform : Platform) (info : ParameterInfo platform.Double) (code : ℕ)
    → IsDescribed info
    → (info.bit_length == 32) ≡ false
    → code < 2 ^ info.bit_length
    → let op = write_of platform info code in
      (op.type ≡ Operation.rmw_bits)
      × (op.data0 ≡ create_and_mask info.start_bit info.bit_length)
      × (op.data1 ≡ code * 2 ^ info.start_bit)
write_of-part platform info code d part fits =
    rw (raw_word info code d fits)
      (write_operation-part platform info (code * 2 ^ info.start_bit) part)

-- Masked writes to the fields of two soundly described parameters that do not overlap, of codes
-- that fit the fields: `mergeOperation` makes one operation of them, and it leaves a 32-bit
-- register as the two writes in a row do.
pub merge_operation-apart :
    (platform : Platform) (electronics : Electronics) (info info' : ParameterInfo platform.Double)
    (code code' reg : ℕ)
    → IsDescribed info
    → IsDescribed info'
    → (info.bit_length == 32) ≡ false
    → (info'.bit_length == 32) ≡ false
    → (info'.start_bit + info'.bit_length ≤ info.start_bit)
      ⊎ (info.start_bit + info.bit_length ≤ info'.start_bit)
    → code < 2 ^ info.bit_length
    → code' < 2 ^ info'.bit_length
    → reg < 2 ^ 32
    → (op : SwtOperation) × (merge_operation
          (write_of platform info code)
          (write_of platform info' code')
        ≡ ok op)
      × (electronics.applied op reg
          ≡ electronics.applied
              (write_of platform info' code')
              (electronics.applied (write_of platform info code) reg))
merge_operation-apart platform electronics info info' code code' reg d d' part part' apart fits
      fits' word =
    let op = write_of platform info code in
    let op' = write_of platform info' code' in
    let (type, mask, value) = write_of-part platform info code d part fits in
    let (type', mask', value') = write_of-part platform info' code' d' part' fits' in
    let merged = record op {
      data0 = bit_and op.data0 op'.data0;
      data1 = bit_or op.data1 op'.data1;
    } in
    let one = electronics.rmw_bits_law merged reg type in
    let after = electronics.rmw_bits_law op reg type in
    let both = electronics.rmw_bits_law op' (electronics.applied op reg) type' in
    (
      merged,
      merge_operation-rmw_bits op op' type type',
      rw (one, both, after, mask, mask', value, value')
          (merged_write reg info.start_bit info.bit_length code info'.start_bit info'.bit_length
            code' d.inside_word fits d'.inside_word fits' apart word),
    )

-- Two masked writes to the field of the same soundly described parameter, of codes that fit it:
-- `mergeOperation` makes one operation of them, after which the field of a 32-bit register holds the
-- bitwise OR of the two codes.
pub merge_operation-same_parameter :
    (platform : Platform) (electronics : Electronics) (info : ParameterInfo platform.Double)
    (code code' reg : ℕ)
    → IsDescribed info
    → (info.bit_length == 32) ≡ false
    → code < 2 ^ info.bit_length
    → code' < 2 ^ info.bit_length
    → reg < 2 ^ 32
    → (op : SwtOperation) × (merge_operation
          (write_of platform info code)
          (write_of platform info code')
        ≡ ok op)
      × (field_of info (electronics.applied op reg) ≡ bit_or code code')
merge_operation-same_parameter platform electronics info code code' reg d part fits fits' word =
    let op = write_of platform info code in
    let op' = write_of platform info code' in
    let both = write_of platform info (bit_or code code') in
    let below = or-lt info.bit_length code code' fits fits' in
    let (type, mask, value) = write_of-part platform info code d part fits in
    let (type', mask', value') = write_of-part platform info code' d part fits' in
    let (type'', mask'', value'') = write_of-part platform info (bit_or code code') d part below in
    let merged = record op {
      data0 = bit_and op.data0 op'.data0;
      data1 = bit_or op.data1 op'.data1;
    } in
    let one = electronics.rmw_bits_law merged reg type in
    let once = electronics.rmw_bits_law both reg type'' in
    let same : electronics.applied merged reg ≡ electronics.applied both reg =
      rw (one, once, mask, mask', mask'', value, value', value'')
        (overwritten reg info.start_bit info.bit_length code code' d.inside_word fits fits' word) in
    (
      merged,
      merge_operation-rmw_bits op op' type type',
      rw same
          (field-write_operation platform electronics info (bit_or code code') reg d below word),
    )
