-- ===== src/Protocol.antt =====
-- src/wslay/wslay.h: the constants of the protocol, the error values, and the control block of a
-- frame.
use wslay.Prelude.{ℕ, ◌/◌, ◌^◌, Bool, ◌==◌, List, bit_and, length, ℤ, negsuc}

-- `enum wslay_error`
pub data Error : Type 0 where
  want_read want_write proto invalid_argument invalid_callback no_more_msg : Error
  callback_failure wouldblock nomem : Error

-- The negative number of an error; `negsuc n` is -(n + 1).
abbrev pub code : Error → ℤ
code want_read = negsuc 99
code want_write = negsuc 100
code proto = negsuc 199
code invalid_argument = negsuc 299
code invalid_callback = negsuc 300
code no_more_msg = negsuc 301
code callback_failure = negsuc 399
code wouldblock = negsuc 400
code nomem = negsuc 499

-- `enum wslay_status_code`, those that the library itself uses
abbrev pub code_protocol_error : ℕ
code_protocol_error = 1002

abbrev pub code_no_status_rcvd : ℕ
code_no_status_rcvd = 1005

abbrev pub code_abnormal_closure : ℕ
code_abnormal_closure = 1006

abbrev pub code_invalid_frame_payload_data : ℕ
code_invalid_frame_payload_data = 1007

abbrev pub code_message_too_big : ℕ
code_message_too_big = 1009

-- `enum wslay_io_flags`
abbrev pub msg_more : ℕ
msg_more = 1

-- `enum wslay_opcode`
abbrev pub continuation_frame : ℕ
continuation_frame = 0x0

abbrev pub text_frame : ℕ
text_frame = 0x1

abbrev pub binary_frame : ℕ
binary_frame = 0x2

abbrev pub connection_close : ℕ
connection_close = 0x8

abbrev pub ping : ℕ
ping = 0x9

abbrev pub pong : ℕ
pong = 0xa

-- `wslay_is_ctrl_frame`
unfoldable pub is_ctrl_frame : ℕ → Bool
is_ctrl_frame opcode = bit_and (opcode / 2 ^ 3) 1 == 1

-- `struct wslay_frame_iocb`. The list is what `data` points to, so `data_length` is its length.
pub record Iocb : Type 0 where
  pub fin : ℕ
  pub rsv : ℕ
  pub opcode : ℕ
  pub payload_length : ℕ
  pub mask : Bool
  pub payload : List ℕ

abbrev pub data_length : Iocb → ℕ
data_length iocb = length iocb.payload
