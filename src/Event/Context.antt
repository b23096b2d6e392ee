-- ===== src/Event/Context.antt =====
-- The structures of src/wslay/event.h, and src/wslay/context.h and context.c, which build a context
-- and pass the callbacks on to the frame layer.
--
-- A queue is the list of what it holds. `user_data` is the world of the callbacks; together with
-- the field `error`, which callbacks set with `wslay_event_set_error`, it is what they change.
use wslay.Prelude.{ℕ, ◌-◌, ◌^◌, Bool, true, false, Option, none, List, [], replicate, ℤ, pos}
use wslay.Protocol.{code_abnormal_closure}
use wslay.Frame.Context.{FrameContext, frame_context_new, FrameCallbacks}
use wslay.Utf8.{utf8_accept}

pub record User (W : Type 0) : Type 0 where
  pub user_data : W
  pub error : ℤ

-- `enum wslay_event_msg_type`
pub data MsgType : Type 0 where
  non_fragmented fragmented : MsgType

-- `enum wslay_event_close_status`
abbrev pub close_received : ℕ
close_received = 1

abbrev pub close_queued : ℕ
close_queued = 2

abbrev pub close_sent : ℕ
close_sent = 4

-- `enum wslay_event_config`
abbrev pub config_no_buffering : ℕ
config_no_buffering = 1

-- `wslay_event_fragmented_msg_callback`, by its `len` and `source`: nothing is a negative return
-- value; else the bytes that it filled in and its `eof`. A source is the number in its union.
abbrev pub ReadCallback : Type 0 → Type 0
ReadCallback W = ℕ → ℕ → User W → Option (List ℕ × Bool) × User W

-- `struct wslay_event_omsg`
pub record Omsg (W : Type 0) : Type 0 where
  pub fin : ℕ
  pub opcode : ℕ
  pub type : MsgType
  pub bytes : List ℕ
  pub source : ℕ
  pub read_callback : ReadCallback W

-- The queue of the chunks of a message: in use, freed, or used or freed once more after that, which
-- has no defined result in C.
pub data QueueState : Type 0 where
  live freed misused : QueueState

-- `struct wslay_event_imsg`; the chunks, and whether their queue is still there.
pub record Imsg : Type 0 where
  pub fin : ℕ
  pub rsv : ℕ
  pub opcode : ℕ
  pub utf8state : ℕ
  pub chunks : List (List ℕ)
  pub queue : QueueState
  pub msg_length : ℕ

-- The part of `struct wslay_event_callbacks` that the frame layer reaches.
pub record EventCallbacks (W : Type 0) : Type 0 where
  pub recv_callback : ℕ → User W → List ℕ × User W
  pub send_callback : List ℕ → ℕ → Bool → User W → ℕ × User W
  pub genmask_callback : ℕ → User W → Bool × List ℕ × User W

-- `wslay_event_frame_recv_callback`, `wslay_event_frame_send_callback` and
-- `wslay_event_frame_genmask_callback`
abbrev pub frame_callbacks : {W : Type 0} → EventCallbacks W → FrameCallbacks (User W)
frame_callbacks cb = record {
  send_callback = λ xs flags user u. cb.send_callback xs flags user u;
  recv_callback = λ len u. cb.recv_callback len u;
  genmask_callback = λ len u. cb.genmask_callback len u;
}

-- `wslay_event_context`
pub record EventContext (W : Type 0) : Type 0 where
  pub config : ℕ
  pub max_recv_msg_length : ℕ
  pub server : Bool
  pub close_status : ℕ
  pub status_code_recv : ℕ
  pub status_code_sent : ℕ
  pub frame_ctx : FrameContext
  pub read_enabled : Bool
  pub write_enabled : Bool
  pub imsgs : Imsg × Imsg
  pub imsg_is_second : Bool
  pub ipayloadlen : ℕ
  pub ipayloadoff : ℕ
  pub omsg : Option (Omsg W)
  pub send_queue : List (Omsg W)
  pub send_ctrl_queue : List (Omsg W)
  pub queued_msg_count : ℕ
  pub queued_msg_length : ℕ
  pub obuf : List ℕ
  pub obuflimit : ℕ
  pub obufmark : ℕ
  pub opayloadlen : ℕ
  pub opayloadoff : ℕ
  pub user : User W

-- `wslay_event_imsg_reset`, and the queue that `wslay_event_context_new` then gives the message.
unfoldable pub imsg_new : Imsg
imsg_new = record {
  fin = 0;
  rsv = 0;
  opcode = 0xff;
  utf8state = utf8_accept;
  chunks = [];
  queue = live;
  msg_length = 0;
}

-- `wslay_event_context_new`, with the `server` that `wslay_server_new` and `wslay_client_new` set.
unfoldable pub event_context_new : {W : Type 0} → Bool → W → EventContext W
unfolding frame_context_new imsg_new
event_context_new server user_data = record {
  config = 0;
  max_recv_msg_length = 2 ^ 64 - 1;
  server = server;
  close_status = 0;
  status_code_recv = code_abnormal_closure;
  status_code_sent = code_abnormal_closure;
  frame_ctx = frame_context_new;
  read_enabled = true;
  write_enabled = true;
  imsgs = (imsg_new, imsg_new);
  imsg_is_second = false;
  ipayloadlen = 0;
  ipayloadoff = 0;
  omsg = none;
  send_queue = [];
  send_ctrl_queue = [];
  queued_msg_count = 0;
  queued_msg_length = 0;
  obuf = replicate 4096 0;
  obuflimit = 0;
  obufmark = 0;
  opayloadlen = 0;
  opayloadoff = 0;
  user = record { user_data = user_data; error = pos 0 };
}
