-- ===== src/Event/Recv.antt =====
-- src/wslay/event.c: `wslay_event_recv` and the functions on the message that is received, one
-- function for each part of a round of the loop.
use wslay.Prelude.{
  ℕ, zero, suc, Bool, true, false, not, ◌&&◌, ◌||◌, ltb, ◌==◌, if◌then◌else◌, Option, none, some,
  List, [], ◌∷◌, ◌++◌, length, drop, replicate, ℤ, pos, is_nonzero,
}
use wslay.Protocol.{
  is_ctrl_frame, Iocb, data_length, continuation_frame, text_frame, binary_frame, connection_close,
  ping, pong, code_invalid_frame_payload_data,
}
use wslay.Utf8.{decode, utf8_accept, utf8_reject}
use wslay.Frame.Bytes.{add64}
use wslay.Frame.Recv.{store}
use wslay.Event.Context.{QueueState, live, freed, misused, Imsg, EventContext}
use wslay.Event.Queueing.{queue_close_wrapper, config_get_no_buffering}
use wslay.Event.Send.{Round, returns}

-- `struct wslay_event_on_msg_recv_arg`; a NULL message is empty.
pub record OnMsgRecvArg : Type 0 where
  pub rsv : ℕ
  pub opcode : ℕ
  pub msg : List ℕ
  pub status_code : ℕ

-- The callbacks that `wslay_event_recv` calls, nothing for NULL. Each leaves the context as the
-- functions of the library that it calls leave it.
pub record RecvCallbacks (W : Type 0) : Type 0 where
  pub on_frame_recv_start_callback : Option (Iocb → EventContext W → EventContext W)
  pub on_frame_recv_chunk_callback : Option (List ℕ → EventContext W → EventContext W)
  pub on_frame_recv_end_callback : Option (EventContext W → EventContext W)
  pub on_msg_recv_callback : Option (OnMsgRecvArg → EventContext W → EventContext W)

-- `wslay_event_imsg_set`
unfoldable pub imsg_set : ℕ → ℕ → ℕ → Imsg → Imsg
imsg_set fin rsv opcode m = record m { fin = fin; rsv = rsv; opcode = opcode; msg_length = 0 }

-- What becomes of the queue of the chunks when it is pushed to, and when it is freed. What else uses
-- the queue of a message, filling a chunk and putting the chunks together, comes after a push.
abbrev pub queue_used : QueueState → QueueState
queue_used live = live
queue_used freed = misused
queue_used misused = misused

abbrev pub queue_freed : QueueState → QueueState
queue_freed live = freed
queue_freed freed = misused
queue_freed misused = misused

-- `wslay_event_imsg_reset`. The code frees the queue of the chunks and keeps the pointer to it.
unfoldable pub imsg_reset : Imsg → Imsg
imsg_reset m = record m {
  opcode = 0xff;
  utf8state = utf8_accept;
  chunks = [];
  queue = queue_freed m.queue;
}

-- `wslay_event_imsg_append_chunk`; the bytes of a new chunk are not set yet.
unfoldable pub imsg_append_chunk : ℕ → Imsg → Imsg
imsg_append_chunk zero m = m
imsg_append_chunk (suc n) m = record m {
  chunks = m.chunks ++ replicate (suc n) 0 ∷ [];
  queue = queue_used m.queue;
  msg_length = add64 m.msg_length (suc n);
}

-- The `memcpy` into the last chunk.
unfoldable pub fill_chunk : ℕ → List ℕ → List (List ℕ) → List (List ℕ)
fill_chunk off bytes [] = []
fill_chunk off bytes (c ∷ []) = store c off bytes ∷ []
fill_chunk off bytes (c ∷ d ∷ cs) = c ∷ fill_chunk off bytes (d ∷ cs)

-- The loop of `wslay_event_flatten_queue`, with the bytes that are copied: the result, which is
-- nothing for NULL, and the chunks that are left.
unfoldable pub flatten_loop : ℕ → List ℕ → List (List ℕ) → Option (List ℕ) × List (List ℕ)
flatten_loop len buf [] = (if len == length buf then some buf else none, [])
flatten_loop len buf (c ∷ cs) =
    let rest = flatten_loop len (buf ++ c) cs in
    if ltb len (length (buf ++ c)) then (none, cs) else rest

-- `wslay_event_flatten_queue`
unfoldable pub flatten_queue : List (List ℕ) → ℕ → Option (List ℕ) × List (List ℕ)
unfolding flatten_loop
flatten_queue chunks len = if len == 0 then (none, chunks) else flatten_loop len [] chunks

abbrev pub is_control : ℕ → Bool
is_control opcode = opcode == connection_close || opcode == ping || opcode == pong

module _ {W : Type 0} where
  -- `ctx->imsg`
  abbrev pub imsg : EventContext W → Imsg
  imsg ctx = if ctx.imsg_is_second then ctx.imsgs.1 else ctx.imsgs.0

  abbrev pub set_imsg : Imsg → EventContext W → EventContext W
  set_imsg m ctx = record ctx {
    imsgs = if ctx.imsg_is_second then (ctx.imsgs.0, m) else (m, ctx.imsgs.1);
  }

  -- `if ((r = wslay_event_queue_close_wrapper(ctx, code, NULL, 0)) != 0) return r; break;`
  unfoldable pub close_and_stop : ℕ → EventContext W → Round W
  unfolding queue_close_wrapper
  close_and_stop status ctx =
      let (r, ctx') = queue_close_wrapper ctx status [] in
      if is_nonzero r then returns r ctx' else returns (pos 0) ctx'

  -- A reserved bit, or a mask that the role of the peer forbids.
  unfoldable pub bad_frame : Iocb → EventContext W → Bool
  bad_frame iocb ctx =
      not (iocb.rsv == 0) || ((ctx.server && not iocb.mask) || (not ctx.server && iocb.mask))

  -- The frame against the message in progress: whether it is a new frame, or nothing if it has no
  -- place here.
  unfoldable pub begin_frame : Iocb → EventContext W → Option (Bool × EventContext W)
  unfolding imsg_set
  begin_frame iocb ctx =
      if (imsg ctx).opcode == 0xff
      then (if iocb.opcode == text_frame || iocb.opcode == binary_frame || is_control iocb.opcode
          then some (true, set_imsg (imsg_set iocb.fin iocb.rsv iocb.opcode (imsg ctx)) ctx)
          else none)
      else if ctx.ipayloadlen == 0 && ctx.ipayloadoff == 0
      then (if iocb.opcode == continuation_frame
          then some (true, set_imsg (record (imsg ctx) { fin = iocb.fin }) ctx)
          else if is_control iocb.opcode
          then (let second = record ctx { imsg_is_second = true } in
              some (true, set_imsg (imsg_set iocb.fin iocb.rsv iocb.opcode ctx.imsgs.1) second))
          else none)
      else some (false, ctx)

  -- Whether the payload is kept.
  abbrev pub buffers : Iocb → EventContext W → Bool
  buffers iocb ctx = not (config_get_no_buffering ctx) || is_ctrl_frame iocb.opcode

  -- The bytes of a text or a close reason go through `decode`; the first bad one queues a close
  -- frame. A nonzero result of that is returned.
  unfoldable pub check_utf8 : List ℕ → EventContext W → Option ℤ × EventContext W
  unfolding queue_close_wrapper decode
  check_utf8 [] ctx = (none, ctx)
  check_utf8 (b ∷ bs) ctx =
      let state = (decode (record { state = (imsg ctx).utf8state; codep = 0 }) b).state in
      let ctx' = set_imsg (record (imsg ctx) { utf8state = state }) ctx in
      let (r, closed) = queue_close_wrapper ctx' code_invalid_frame_payload_data [] in
      let rest = check_utf8 bs ctx' in
      if state == utf8_reject then (if is_nonzero r then some r else none, closed) else rest

  -- The bytes that are checked; of a close frame all but the first two of each piece.
  unfoldable pub checked_bytes : Iocb → EventContext W → List ℕ
  checked_bytes iocb ctx =
      if (imsg ctx).opcode == text_frame
      then iocb.payload
      else if (imsg ctx).opcode == connection_close
      then drop 2 iocb.payload
      else []

  module _ (on : RecvCallbacks W) where
    -- `wslay_event_call_on_frame_recv_start_callback` and the two others
    abbrev pub call_start : Iocb → EventContext W → EventContext W
    call_start iocb ctx = elim on.on_frame_recv_start_callback [ none ↦ ctx | some f ↦ f iocb ctx ]

    abbrev pub call_chunk : Iocb → EventContext W → EventContext W
    call_chunk iocb ctx = elim on.on_frame_recv_chunk_callback [
      | none ↦ ctx
      | some f ↦ f iocb.payload ctx
    ]

    abbrev pub call_end : EventContext W → EventContext W
    call_end ctx = elim on.on_frame_recv_end_callback [ none ↦ ctx | some f ↦ f ctx ]

    abbrev pub call_msg : OnMsgRecvArg → EventContext W → EventContext W
    call_msg arg ctx = elim on.on_msg_recv_callback [
      | none ↦ ctx
      | some f ↦ f arg (record ctx { user = record ctx.user { error = pos 0 } })
    ]

    -- The body of `if (new_frame)`; nothing if the message is too long.
    unfoldable pub start_frame : Iocb → EventContext W → Option (EventContext W)
    unfolding imsg_append_chunk
    start_frame iocb ctx =
        if ltb ctx.max_recv_msg_length (add64 (imsg ctx).msg_length iocb.payload_length)
        then none
        else (let ctx' = call_start iocb (record ctx { ipayloadlen = iocb.payload_length }) in
            some (
              if buffers iocb ctx'
              then set_imsg (imsg_append_chunk iocb.payload_length (imsg ctx')) ctx'
              else ctx'))

    -- The piece of the payload is passed on and kept.
    unfoldable pub take_piece : Iocb → EventContext W → EventContext W
    unfolding fill_chunk
    take_piece iocb before =
        let ctx = call_chunk iocb before in
        if ltb 0 (data_length iocb)
        then (let kept =
              if buffers iocb ctx
              then set_imsg
                  (record (imsg ctx) {
                    chunks = fill_chunk ctx.ipayloadoff iocb.payload (imsg ctx).chunks;
                  })
                  ctx
              else ctx in
            record kept { ipayloadoff = add64 ctx.ipayloadoff (data_length iocb) })
        else ctx
