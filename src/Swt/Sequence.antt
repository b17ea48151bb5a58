-- ===== src/Swt/Sequence.antt =====
-- communication-utils/SwtSequence: operations, and the text that a sequence of them is sent as.
use fit_fred.Common.{ℕ, Bool, Bytes, codes, ◌∷◌, [], List, ◌++◌, if◌then◌else◌}
use fit_fred.Swt.Hex.{word_to_hex}

pub data Operation : Type 0 where
  read write rmw_bits rmw_sum block_read block_read_non_increment : Operation

-- `data` is an array of two words.
pub record SwtOperation : Type 0 where
  pub type : Operation
  pub address : ℕ
  pub data0 : ℕ
  pub data1 : ℕ
  pub expect_response : Bool

abbrev pub sequence_prefix : Bytes
sequence_prefix = codes "sc_reset"

abbrev pub frame_postfix : Bytes
frame_postfix = codes ",write"

abbrev pub read_word : Bytes
read_word = codes "\nread"

abbrev pub max_block_read_size : ℕ
max_block_read_size = 1024

-- The text that starts a frame: a new line, "0x" and three digits for the kind of access.
abbrev pub read_prefix : Bytes
read_prefix = codes "\n0x000"

abbrev pub write_prefix : Bytes
write_prefix = codes "\n0x001"

abbrev pub rmw_bits_and_prefix : Bytes
rmw_bits_and_prefix = codes "\n0x002"

abbrev pub rmw_bits_or_prefix : Bytes
rmw_bits_or_prefix = codes "\n0x003"

abbrev pub rmw_sum_prefix : Bytes
rmw_sum_prefix = codes "\n0x004"

abbrev pub block_read_prefix : Bytes
block_read_prefix = codes "\n0x008"

abbrev pub block_read_non_inc_prefix : Bytes
block_read_non_inc_prefix = codes "\n0x009"

-- `m_buffer.append` of the four parts of one frame.
append_frame : Bytes → Bytes → Bytes → ℕ → Bytes
append_frame buffer prefix address word =
    buffer ++ (prefix ++ (address ++ (word_to_hex word ++ frame_postfix)))

append_read : Bytes → Bool → Bytes
append_read buffer expect_response = if expect_response then buffer ++ read_word else buffer

-- `addOperation` with the address already in hexadecimal; the two words are those `data` points to.
add_operation_at : Bytes → Operation → Bytes → ℕ → ℕ → Bool → Bytes
unfolding append_frame append_read
add_operation_at buffer read address data0 data1 expect =
    append_read (append_frame buffer read_prefix address 0) expect
add_operation_at buffer write address data0 data1 expect =
    append_frame buffer write_prefix address data0
add_operation_at buffer rmw_bits address data0 data1 expect =
    append_read
      (append_frame (append_frame buffer rmw_bits_and_prefix address data0) rmw_bits_or_prefix
        address data1)
      expect
add_operation_at buffer rmw_sum address data0 data1 expect =
    append_read (append_frame buffer rmw_sum_prefix address data0) expect
add_operation_at buffer block_read address data0 data1 expect =
    append_frame buffer block_read_prefix address data0 ++ read_word
add_operation_at buffer block_read_non_increment address data0 data1 expect =
    append_frame buffer block_read_non_inc_prefix address data0 ++ read_word

unfoldable pub add_operation : Bytes → SwtOperation → Bytes
unfolding add_operation_at
add_operation buffer op =
    add_operation_at buffer op.type (word_to_hex op.address) op.data0 op.data1 op.expect_response

pub add_operations : Bytes → List SwtOperation → Bytes
unfolding add_operation
add_operations buffer [] = buffer
add_operations buffer (op ∷ ops) = add_operations (add_operation buffer op) ops

-- `SwtSequence(operations).getSequence()`.
unfoldable pub sequence : List SwtOperation → Bytes
unfolding add_operations
sequence operations = add_operations sequence_prefix operations
