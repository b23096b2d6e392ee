-- ===== src/Event/RecvLoop.antt =====
-- src/wslay/event.c: the end of a frame and of a message in `wslay_event_recv`, and its loop.
use wslay.Prelude.{
  ℕ, zero, suc, false, not, ◌&&◌, ◌||◌, ltb, ◌==◌, if◌then◌else◌, Option, none, some, List, [],
  take, drop, ℤ, pos, is_nonzero, same_int, bit_or,
}
use wslay.Protocol.{
  Error, code, want_read, no_more_msg, callback_failure, wouldblock, nomem, Iocb, text_frame,
  connection_close, ping, pong, code_protocol_error, code_message_too_big,
  code_invalid_frame_payload_data, code_no_status_rcvd,
}
use wslay.Utf8.{utf8_accept, utf8_reject}
use wslay.Frame.Bytes.{be_number}
use wslay.Frame.Context.{RecvContext, Outcome, ok, err, At}
use wslay.Frame.Recv.{frame_recv}
use wslay.Event.Context.{User, EventCallbacks, frame_callbacks, EventContext, close_received}
use wslay.Event.Queueing.{queue_msg, queue_close_wrapper, is_valid_status_code}
use wslay.Event.Send.{Round, again, returns, is_some}
use wslay.Event.SendLoop.{after_round}
use wslay.Event.Recv.{
  RecvCallbacks, imsg_reset, flatten_queue, imsg, set_imsg, close_and_stop, bad_frame, begin_frame,
  buffers, check_utf8, checked_bytes, call_end, call_msg, start_frame, take_piece,
}

abbrev pub msg_bytes : Option (List ℕ) → List ℕ
msg_bytes none = []
msg_bytes (some bytes) = bytes

module _ {W : Type 0} where
  -- What goes on where the loop was not left.
  abbrev pub and_then : Round W → (EventContext W → Round W) → Round W
  and_then (again ctx) f = f ctx
  and_then (returns r ctx) f = returns r ctx

  -- A close message, by its payload: its status code and its reason.
  abbrev pub close_parts : EventContext W → List ℕ → ℕ × List ℕ
  close_parts ctx msg =
      if ltb 1 (imsg ctx).msg_length then (be_number 0 (take 2 msg), drop 2 msg) else (0, [])

  -- A close message is answered, and its status code kept.
  unfoldable pub receive_close : List ℕ → EventContext W → Round W
  unfolding close_and_stop is_valid_status_code queue_close_wrapper
  receive_close msg ctx =
      let (status, reason) = close_parts ctx msg in
      if ltb 1 (imsg ctx).msg_length && not (is_valid_status_code status)
      then close_and_stop code_protocol_error ctx
      else (let (r, ctx') =
            queue_close_wrapper
              (record ctx {
                close_status = bit_or ctx.close_status close_received;
                status_code_recv = if status == 0 then code_no_status_rcvd else status;
              })
              status reason in
          if is_nonzero r then returns r ctx' else again ctx')

  -- A ping is answered with its payload.
  unfoldable pub receive_ping : List ℕ → EventContext W → Round W
  unfolding queue_msg
  receive_ping msg ctx =
      let (r, ctx') = queue_msg ctx (record { opcode = pong; msg = msg }) in
      if is_nonzero r && not (same_int r (code no_more_msg))
      then returns r (record ctx' { read_enabled = false })
      else again ctx'

  module _ (on : RecvCallbacks W) where
    -- The whole message is handled and passed on; `msg` is its payload unless it was not kept.
    unfoldable pub receive_msg : List ℕ → EventContext W → Round W
    unfolding receive_close receive_ping
    receive_msg msg ctx =
        let closes = (imsg ctx).opcode == connection_close in
        let status = if closes then (close_parts ctx msg).0 else 0 in
        and_then
          (if closes
            then receive_close msg ctx
            else if (imsg ctx).opcode == ping
            then receive_ping msg ctx
            else again ctx)
          (λ ctx'. again (
            call_msg on
              (record {
                rsv = (imsg ctx').rsv;
                opcode = (imsg ctx').opcode;
                msg = msg;
                status_code = status;
              })
              ctx'))

    -- The body of `if (ctx->imsg->fin)` up to the reset: the chunks are put together if they were
    -- kept, and if anybody wants the message.
    unfoldable pub deliver : Iocb → EventContext W → Round W
    unfolding flatten_queue receive_msg
    deliver iocb ctx =
        let m = imsg ctx in
        let (bytes, chunks) = flatten_queue m.chunks m.msg_length in
        let flat = set_imsg (record m { chunks = chunks }) ctx in
        if not (is_some on.on_msg_recv_callback || m.opcode == connection_close || m.opcode == ping)
        then again ctx
        else if not (buffers iocb ctx)
        then receive_msg [] ctx
        else if not (m.msg_length == 0) && not (is_some bytes)
        then returns (code nomem) (record flat { read_enabled = false })
        else receive_msg (msg_bytes bytes) flat

    -- The message is over, and the other one goes on if it was a control message.
    unfoldable pub msg_over : EventContext W → EventContext W
    unfolding imsg_reset
    msg_over ctx = record (set_imsg (imsg_reset (imsg ctx)) ctx) { imsg_is_second = false }

    -- The body of `if (ctx->ipayloadoff == ctx->ipayloadlen)`.
    unfoldable pub finish_frame : Iocb → EventContext W → Round W
    unfolding close_and_stop deliver msg_over
    finish_frame iocb ctx =
        let m = imsg ctx in
        if not (m.fin == 0)
          && (m.opcode == text_frame || m.opcode == connection_close)
          && not (m.utf8state == utf8_accept)
        then close_and_stop code_invalid_frame_payload_data ctx
        else (let ctx' = call_end on ctx in
            and_then
              (if (imsg ctx').fin == 0
                then again ctx'
                else and_then (deliver iocb ctx') (λ c. again (msg_over c)))
              (λ c. again (record c { ipayloadlen = 0; ipayloadoff = 0 })))

    -- A piece of a frame that has its place.
    unfoldable pub receive_piece : Iocb → EventContext W → Round W
    unfolding check_utf8 checked_bytes take_piece finish_frame
    receive_piece iocb ctx =
        let (failed, checked) = check_utf8 (checked_bytes iocb ctx) ctx in
        elim failed [
          | some r ↦ returns r checked
          | none ↦
              if (imsg checked).utf8state == utf8_reject
              then returns (pos 0) checked
              else let taken = take_piece on iocb checked in
                if taken.ipayloadoff == taken.ipayloadlen
                then finish_frame iocb taken
                else again taken
        ]

    -- What `wslay_frame_recv` returned 0 with.
    unfoldable pub receive_frame : Iocb → EventContext W → Round W
    unfolding bad_frame close_and_stop begin_frame start_frame receive_piece
    receive_frame iocb ctx =
        if bad_frame iocb ctx
        then close_and_stop code_protocol_error ctx
        else elim (begin_frame iocb ctx) [
          | none ↦ close_and_stop code_protocol_error ctx
          | some (new_frame, begun) ↦
              if new_frame
              then elim (start_frame on iocb begun) [
                | none ↦ close_and_stop code_message_too_big begun
                | some started ↦ receive_piece iocb started
              ]
              else receive_piece iocb begun
        ]

    -- An error of `wslay_frame_recv`.
    unfoldable pub recv_failed : Error → EventContext W → Round W
    unfolding queue_close_wrapper
    recv_failed e ctx =
        if not (same_int (code e) (code want_read))
          || (not (same_int ctx.user.error (code wouldblock))
              && not (same_int ctx.user.error (pos 0)))
        then (let (r, ctx') = queue_close_wrapper ctx 0 [] in
            if is_nonzero r then returns r ctx' else returns (code callback_failure) ctx')
        else returns (pos 0) ctx

    -- What `wslay_frame_recv` changes.
    abbrev pub with_input : EventContext W → At RecvContext (User W) → EventContext W
    with_input ctx s = record ctx {
      frame_ctx = record ctx.frame_ctx { input = s.ctx };
      user = s.world;
    }

    unfoldable pub after_recv : EventContext W → Outcome (At RecvContext (User W)) Iocb → Round W
    unfolding receive_frame recv_failed
    after_recv ctx (ok iocb s) = receive_frame iocb (with_input ctx s)
    after_recv ctx (err e s) = recv_failed e (with_input ctx s)

    -- A round of the loop, when reading is enabled.
    unfoldable pub recv_round : EventCallbacks W → EventContext W → Round W
    unfolding after_recv
    recv_round cb ctx =
        after_recv ctx
          (frame_recv (frame_callbacks cb) (record { ctx = ctx.frame_ctx.input; world = ctx.user }))

    -- `wslay_event_recv` with a bound on the rounds; `none` means that they were not enough.
    unfoldable pub event_recv : EventCallbacks W → ℕ → EventContext W → Option (ℤ × EventContext W)
    unfolding recv_round after_round
    event_recv cb zero ctx = if ctx.read_enabled then none else some (pos 0, ctx)
    event_recv cb (suc rounds) ctx =
        let next : EventContext W → Option (ℤ × EventContext W) = event_recv cb rounds in
        if ctx.read_enabled then after_round next (recv_round cb ctx) else some (pos 0, ctx)
