-- ===== src/Tests/Words.antt =====
-- Examples of the theorems on codes, masks and operations.
use fit_fred.Common.{◌^◌, ◌≡◌, refl, arith, ok, some, [], bit_or, ◌<◌, inr, true, codes}
use fit_fred.Common.Int.{ℤ, negsuc}
use fit_fred.Utils.TwosComplement.{encode}
use fit_fred.Swt.Sequence.{Operation, SwtOperation}
use fit_fred.Swt.Mask.{create_and_mask}
use fit_fred.Board.Defs.{
  at, find, calculate_electronic, convert_electronic_to_raw, field_of, code_of, value_of_code,
  signed, parse_electronic,
}
use fit_fred.Board.Codes.{value_code, InRange}
use fit_fred.WinCc.Request.{CommandOperation}
use fit_fred.Handler.Send.{create_swt_operation, electronic_of, merge_operation, to_compare}
use fit_fred.Handler.Send.Merge.{write_of, merge_operation-apart, merge_operation-same_parameter}
use fit_fred.Handler.Receive.{comparison}
use fit_fred.Handler.WriteReadback.{write-readback}
use fit_fred.Tests.Fixtures.{
  platform, electronics, board, signed_byte, unsigned_byte, signed_byte-IsDescribed,
  unsigned_byte-IsDescribed, write_delay,
}

value_code_example :
    (code_of signed_byte (negsuc 4) < 2 ^ 8)
    × (value_of_code signed_byte (code_of signed_byte (negsuc 4)) ≡ negsuc 4)
value_code_example =
    value_code signed_byte signed (negsuc 4) refl signed_byte-IsDescribed (omega arith, omega arith)

-- -5 is sent as the byte 251.
delay_operation : SwtOperation
delay_operation = record {
  type = Operation.rmw_bits;
  address = 16;
  data0 = 4294963215;
  data1 = 4016;
  expect_response = true;
}

delay_is_sent : create_swt_operation platform board write_delay ≡ ok delay_operation
unfolding create_swt_operation delay_operation at find calculate_electronic
    convert_electronic_to_raw create_and_mask encode
delay_is_sent = refl

delay_is_found : at board (codes "DELAY") ≡ ok signed_byte
unfolding at find
delay_is_found = refl

delay_is_a_write : ¬ (CommandOperation.write ≡ CommandOperation.read)
delay_is_a_write e = cc

write-readback_example :
    (value : ℤ) × (write_delay.value ≡ some value)
    × (v : ℤ) × (electronic_of platform board signed_byte write_delay.operation value ≡ ok v)
    × InRange signed_byte v
    × (parse_electronic board signed_byte.name (electronics.applied delay_operation 4294967295)
        ≡ ok v)
    × (comparison signed_byte
          (record {
            name = signed_byte.name;
            to_compare = to_compare platform signed_byte write_delay delay_operation;
          })
          (electronics.applied delay_operation 4294967295)
        ≡ [])
write-readback_example =
    write-readback platform electronics board signed_byte write_delay delay_operation 4294967295
      delay_is_found signed_byte-IsDescribed delay_is_a_write delay_is_sent (omega arith)

merge_operation-apart_example :
    (op : SwtOperation) × (merge_operation
        (write_of platform signed_byte 251)
        (write_of platform unsigned_byte 17)
      ≡ ok op)
    × (electronics.applied op 4294967295
        ≡ electronics.applied
            (write_of platform unsigned_byte 17)
            (electronics.applied (write_of platform signed_byte 251) 4294967295))
merge_operation-apart_example =
    merge_operation-apart platform electronics signed_byte unsigned_byte 251 17 4294967295
      signed_byte-IsDescribed unsigned_byte-IsDescribed refl refl (inr (omega arith)) (omega arith)
      (omega arith) (omega arith)

-- 1 and 2 make 3.
merge_operation-same_parameter_example :
    (op : SwtOperation) × (merge_operation
        (write_of platform unsigned_byte 1)
        (write_of platform unsigned_byte 2)
      ≡ ok op)
    × (field_of unsigned_byte (electronics.applied op 4294967295) ≡ bit_or 1 2)
merge_operation-same_parameter_example =
    merge_operation-same_parameter platform electronics unsigned_byte 1 2 4294967295
      unsigned_byte-IsDescribed refl (omega arith) (omega arith) (omega arith)
