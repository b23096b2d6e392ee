-- ===== src/Event/Queueing.antt =====
-- src/wslay/event.c: the functions that queue messages, and those that read and set the state.
use wslay.Prelude.{
  ℕ, Bool, false, not, ◌&&◌, ◌||◌, ltb, leb, ◌==◌, if◌then◌else◌, none, List, [], ◌∷◌, ◌++◌, length,
  ℤ, pos, is_nonzero, same_int, bit_and, bit_or, bit_xor,
}
use wslay.Protocol.{code, no_more_msg, invalid_argument, is_ctrl_frame, connection_close}
use wslay.Frame.Bytes.{be_bytes, add64}
use wslay.Event.Context.{
  non_fragmented, fragmented, close_received, close_queued, close_sent, config_no_buffering,
  ReadCallback, Omsg, EventContext,
}

-- `struct wslay_event_msg_t`; `msg_length` is the length of the list.
pub record Msg : Type 0 where
  pub opcode : ℕ
  pub msg : List ℕ

-- `struct wslay_event_fragmented_msg`
pub record FragmentedMsg (W : Type 0) : Type 0 where
  pub opcode : ℕ
  pub source : ℕ
  pub read_callback : ReadCallback W

-- `wslay_event_is_valid_status_code`
unfoldable pub is_valid_status_code : ℕ → Bool
is_valid_status_code n =
    (leb 1000 n && leb n 1011 && not (n == 1004) && not (n == 1005) && not (n == 1006))
    || (leb 3000 n && leb n 4999)

-- The payload of a close frame.
unfoldable pub close_payload : ℕ → List ℕ → List ℕ
close_payload status_code reason = if status_code == 0 then [] else be_bytes 2 status_code ++ reason

module _ {W : Type 0} where
  -- `wslay_event_omsg_non_fragmented_new`; a NULL `read_callback` is never called.
  unfoldable pub omsg_non_fragmented_new : ℕ → List ℕ → Omsg W
  omsg_non_fragmented_new opcode msg = record {
    fin = 1;
    opcode = opcode;
    type = non_fragmented;
    bytes = msg;
    source = 0;
    read_callback = λ len source u. (none, u);
  }

  -- `wslay_event_omsg_fragmented_new`
  unfoldable pub omsg_fragmented_new : ℕ → ℕ → ReadCallback W → Omsg W
  omsg_fragmented_new opcode source read_callback = record {
    fin = 0;
    opcode = opcode;
    type = fragmented;
    bytes = [];
    source = source;
    read_callback = read_callback;
  }

  -- `wslay_event_is_msg_queueable`
  unfoldable pub is_msg_queueable : EventContext W → Bool
  is_msg_queueable ctx = ctx.write_enabled && bit_and ctx.close_status close_queued == 0

  -- `wslay_queue_push` on the queue that the opcode selects, and the counts.
  unfoldable pub push_msg : Msg → EventContext W → EventContext W
  unfolding omsg_non_fragmented_new
  push_msg arg ctx =
      let omsg = omsg_non_fragmented_new arg.opcode arg.msg in
      let ctrl = is_ctrl_frame arg.opcode in
      record ctx {
        send_ctrl_queue = if ctrl then ctx.send_ctrl_queue ++ omsg ∷ [] else ctx.send_ctrl_queue;
        send_queue = if ctrl then ctx.send_queue else ctx.send_queue ++ omsg ∷ [];
        queued_msg_count = add64 ctx.queued_msg_count 1;
        queued_msg_length = add64 ctx.queued_msg_length (length arg.msg);
      }

  -- `wslay_event_queue_msg`
  unfoldable pub queue_msg : EventContext W → Msg → ℤ × EventContext W
  unfolding is_msg_queueable push_msg
  queue_msg ctx arg =
      if not (is_msg_queueable ctx)
      then (code no_more_msg, ctx)
      else if is_ctrl_frame arg.opcode && ltb 125 (length arg.msg)
      then (code invalid_argument, ctx)
      else (pos 0, push_msg arg ctx)

  -- `wslay_event_queue_fragmented_msg`
  unfoldable pub queue_fragmented_msg : EventContext W → FragmentedMsg W → ℤ × EventContext W
  unfolding is_msg_queueable omsg_fragmented_new
  queue_fragmented_msg ctx arg =
      if not (is_msg_queueable ctx)
      then (code no_more_msg, ctx)
      else if is_ctrl_frame arg.opcode
      then (code invalid_argument, ctx)
      else (
        pos 0,
        record ctx {
          send_queue =
              ctx.send_queue ++ omsg_fragmented_new arg.opcode arg.source arg.read_callback ∷ [];
          queued_msg_count = add64 ctx.queued_msg_count 1;
        },
      )

  -- `wslay_event_queue_close`
  unfoldable pub queue_close : EventContext W → ℕ → List ℕ → ℤ × EventContext W
  unfolding is_msg_queueable close_payload queue_msg
  queue_close ctx status_code reason =
      if not (is_msg_queueable ctx)
      then (pos 1, ctx)
      else if ltb 123 (length reason)
      then (pos 2, ctx)
      else let (r, ctx') =
          queue_msg ctx
            (record { opcode = connection_close; msg = close_payload status_code reason }) in
        if is_nonzero r
        then (r, ctx')
        else (r, record ctx' { close_status = bit_or ctx'.close_status close_queued })

  -- `wslay_event_queue_close_wrapper`
  unfoldable pub queue_close_wrapper : EventContext W → ℕ → List ℕ → ℤ × EventContext W
  unfolding queue_close
  queue_close_wrapper ctx status_code reason =
      let (r, ctx') = queue_close (record ctx { read_enabled = false }) status_code reason in
      if is_nonzero r && not (same_int r (code no_more_msg)) then (r, ctx') else (pos 0, ctx')

  -- `wslay_event_set_error`
  unfoldable pub set_error : EventContext W → ℤ → EventContext W
  set_error ctx val = record ctx { user = record ctx.user { error = val } }

  -- `wslay_event_shutdown_read` and `wslay_event_shutdown_write`
  unfoldable pub shutdown_read : EventContext W → EventContext W
  shutdown_read ctx = record ctx { read_enabled = false }

  unfoldable pub shutdown_write : EventContext W → EventContext W
  shutdown_write ctx = record ctx { write_enabled = false }

  -- `wslay_event_get_close_received` and `wslay_event_get_close_sent`
  unfoldable pub get_close_received : EventContext W → Bool
  get_close_received ctx = ltb 0 (bit_and ctx.close_status close_received)

  unfoldable pub get_close_sent : EventContext W → Bool
  get_close_sent ctx = ltb 0 (bit_and ctx.close_status close_sent)

  -- `wslay_event_config_set_no_buffering`: `~1` in 32 bits. And its reader.
  unfoldable pub config_set_no_buffering : EventContext W → ℤ → EventContext W
  config_set_no_buffering ctx val = record ctx {
    config =
        if is_nonzero val
        then bit_or ctx.config config_no_buffering
        else bit_and ctx.config (bit_xor 0xffffffff config_no_buffering);
  }

  unfoldable pub config_get_no_buffering : EventContext W → Bool
  config_get_no_buffering ctx = ltb 0 (bit_and ctx.config config_no_buffering)

  -- `wslay_event_config_set_max_recv_msg_length`
  unfoldable pub config_set_max_recv_msg_length : EventContext W → ℕ → EventContext W
  config_set_max_recv_msg_length ctx val = record ctx { max_recv_msg_length = val }

  -- `wslay_event_want_read`
  unfoldable pub wants_to_read : EventContext W → Bool
  wants_to_read ctx = ctx.read_enabled

  -- `wslay_event_get_read_enabled` and `wslay_event_get_write_enabled`
  unfoldable pub get_read_enabled : EventContext W → Bool
  get_read_enabled ctx = ctx.read_enabled

  unfoldable pub get_write_enabled : EventContext W → Bool
  get_write_enabled ctx = ctx.write_enabled

  -- `wslay_event_get_status_code_received` and `wslay_event_get_status_code_sent`
  unfoldable pub get_status_code_received : EventContext W → ℕ
  get_status_code_received ctx = ctx.status_code_recv

  unfoldable pub get_status_code_sent : EventContext W → ℕ
  get_status_code_sent ctx = ctx.status_code_sent

  -- `wslay_event_get_queued_msg_count` and `wslay_event_get_queued_msg_length`
  unfoldable pub get_queued_msg_count : EventContext W → ℕ
  get_queued_msg_count ctx = ctx.queued_msg_count

  unfoldable pub get_queued_msg_length : EventContext W → ℕ
  get_queued_msg_length ctx = ctx.queued_msg_length
