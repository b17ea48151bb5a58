-- ===== src/Tests/Fixtures.antt =====
-- The platform, the board and the requests of the examples. Whole numbers stand for `double`.
use fit_fred.Common.{
  ℕ, ◌+◌, ◌-◌, ◌==◌, arith, Bytes, codes, [], ◌∷◌, Option, none, some, List, true, false,
}
use fit_fred.Common.Int.{ℤ, pos, negsuc, pos_part, neg_part}
use fit_fred.Utils.Decimal.{signed_decimal}
use fit_fred.Swt.Sequence.{Operation}
use fit_fred.Swt.Mask.{read_modify_write}
use fit_fred.Platform.{Platform}
use fit_fred.Database.Columns.{Database}
use fit_fred.Board.Defs.{Board, ParameterInfo, Equation, unsigned, signed, not_refreshed, tcm}
use fit_fred.Board.Codes.{IsDescribed}
use fit_fred.WinCc.Request.{Command, CommandOperation}
use fit_fred.Handler.Defs.{Handler}
use fit_fred.Handler.Send.Readback.{Electronics}
use fit_fred.Services.Requests.{get_all}

abbrev pub digit : Bytes → Option ℤ
digit (c ∷ []) = some (pos (c - 48))
digit _ = none

abbrev pub first_value : List ℤ → ℤ
first_value [] = pos 0
first_value (v ∷ vs) = v

unfoldable pub split_at : Bytes → Bytes → List Bytes
unfolding get_all
split_at s [] = s ∷ []
split_at s (c ∷ _) = get_all c s

abbrev pub platform : Platform
platform = record {
  Double = ℤ;
  from_int64 = λ v. v;
  to_int64 = λ v. v;
  llround = λ v. v;
  read_double = digit;
  read_hex = λ s. none;
  calculate = λ equation variables values. first_value values;
  print_double = signed_decimal;
  same_double = λ a b. pos_part a + neg_part b == pos_part b + neg_part a;
  split_string = split_at;
  walk = λ ops. ops;
}

abbrev pub empty_equation : Equation
empty_equation = record { equation = []; variables = [] }

-- A signed byte in the middle of a register, an unsigned one above it, and a whole register.
abbrev pub signed_byte : ParameterInfo ℤ
signed_byte = record {
  name = codes "DELAY";
  base_address = 16;
  start_bit = 4;
  bit_length = 8;
  reg_block_size = 1;
  value_encoding = signed;
  min_value = negsuc 99;
  max_value = pos 100;
  electronic_to_physic = empty_equation;
  physic_to_electronic = empty_equation;
  is_fifo = false;
  is_readonly = false;
  refresh_type = not_refreshed;
  physical_value = none;
  electronic_value = none;
}

abbrev pub unsigned_byte : ParameterInfo ℤ
unsigned_byte = record signed_byte {
  name = codes "LEVEL";
  start_bit = 16;
  value_encoding = unsigned;
  min_value = pos 0;
  max_value = pos 255;
}

-- A FIFO with rows of two words.
abbrev pub fifo : ParameterInfo ℤ
fifo = record unsigned_byte {
  name = codes "FIFO";
  base_address = 32;
  start_bit = 0;
  reg_block_size = 2;
  is_fifo = true;
}

abbrev pub board : Board ℤ
board = record {
  name = codes "TCM0";
  type = tcm;
  address = 0;
  parent = none;
  environment = none;
  parameters = signed_byte ∷ unsigned_byte ∷ fifo ∷ [];
}

abbrev pub handler : Handler ℤ
handler = record { board = board; register_tasks = []; operations = [] }

pub signed_byte-IsDescribed : IsDescribed signed_byte
signed_byte-IsDescribed = record {
  some_bit = omega arith;
  inside_word = omega arith;
  holds = (omega arith, omega arith);
}

pub unsigned_byte-IsDescribed : IsDescribed unsigned_byte
unsigned_byte-IsDescribed = record {
  some_bit = omega arith;
  inside_word = omega arith;
  holds = (omega arith, omega arith);
}

-- A write of -5.
abbrev pub write_delay : Command ℤ
write_delay = record {
  name = codes "DELAY";
  operation = CommandOperation.write;
  value = some (negsuc 4);
}

apply_to : Operation → ℕ → ℕ → ℕ → ℕ
apply_to Operation.write data0 data1 reg = data0
apply_to Operation.rmw_bits data0 data1 reg = read_modify_write reg data0 data1
apply_to _ data0 data1 reg = reg

pub electronics : Electronics
unfolding apply_to
electronics = record {
  applied = λ op reg. apply_to op.type op.data0 op.data1 reg;
  write_law = λ op reg e. rw e;
  rmw_bits_law = λ op reg e. rw e;
}

-- Fields that are texts.
abbrev pub texts : Database
texts = record {
  Field = Bytes;
  get_string = λ s. s;
  get_integer = λ s. pos 0;
  get_unsigned = λ s. 0;
  get_double_as_int64 = λ s. pos 0;
  read_hex_word = λ s. 0;
}
