-- ===== src/Event/Receiving/Message.antt =====
-- What the parts of a round of `wslay_event_recv` keep of the sending half, up to the end of a
-- message.
use wslay.Prelude.{
  ℕ, true, false, not, ◌&&◌, ◌||◌, ltb, ◌==◌, Bool, Bool-cases, inl, inr, if◌then◌else◌, Option,
  none, some, List, [], ◌∷◌, pos, is_nonzero, same_int, bit_or,
}
use wslay.Protocol.{
  code, nomem, no_more_msg, Iocb, text_frame, binary_frame, connection_close, continuation_frame,
  ping, pong, code_protocol_error, code_invalid_frame_payload_data, code_no_status_rcvd,
}
use wslay.Utf8.{decode, utf8_accept, utf8_reject}
use wslay.Event.Context.{EventContext, close_received}
use wslay.Event.Queueing.{Msg, queue_msg, queue_close_wrapper, is_valid_status_code}
use wslay.Event.Send.{again, returns, is_some}
use wslay.Event.Recv.{
  RecvCallbacks, imsg, set_imsg, is_control, flatten_queue, close_and_stop, begin_frame, buffers,
  check_utf8, call_end,
}
use wslay.Event.RecvLoop.{
  msg_bytes, and_then, close_parts, receive_close, receive_ping, receive_msg, deliver, msg_over,
  finish_frame,
}
use wslay.Event.Closing.{RoundAll}
use wslay.Event.Receiving.{Sending, Of, IsKept, round_either, and_then-Of}

module _ {W : Type 0} (Q : Sending W → Type 0) where
  -- The context of a frame that has its place.
  abbrev pub BegunAll : Option (Bool × EventContext W) → Type 0
  BegunAll none = Unit
  BegunAll (some (new_frame, ctx)) = Of Q ctx

  begun_either :
      (b : Bool) (p q : Option (Bool × EventContext W))
      → BegunAll p
      → BegunAll q
      → BegunAll (if b then p else q)
  begun_either true p q h k = h
  begun_either false p q h k = k

  pub begin_frame-Of :
      (iocb : Iocb) (ctx : EventContext W) → Of Q ctx → BegunAll (begin_frame iocb ctx)
  unfolding begin_frame
  begin_frame-Of iocb ctx h =
      begun_either ((imsg ctx).opcode == 0xff) _ _
        (begun_either
          (iocb.opcode == text_frame || iocb.opcode == binary_frame || is_control iocb.opcode) _
          none h tt)
        (begun_either (ctx.ipayloadlen == 0 && ctx.ipayloadoff == 0) _ (some (false, ctx))
          (begun_either (iocb.opcode == continuation_frame) _ _ h
            (begun_either (is_control iocb.opcode) _ none h tt))
          h)

  module _ (on : RecvCallbacks W) (kept : IsKept Q on) where
    pub close_and_stop-Of :
        (status : ℕ) (ctx : EventContext W) → Of Q ctx → RoundAll (Of Q) (close_and_stop status ctx)
    unfolding close_and_stop
    close_and_stop-Of status ctx h =
        let (r, ctx') = queue_close_wrapper ctx status [] in
        let after = kept.closing ctx status [] h in
        round_either Q (is_nonzero r) (returns r ctx') (returns (pos 0) ctx') after after

    pub check_utf8-Of : (bs : List ℕ) (ctx : EventContext W) → Of Q ctx → Of Q (check_utf8 bs ctx).1
    unfolding check_utf8
    check_utf8-Of [] ctx h = h
    check_utf8-Of (b ∷ bs) ctx h =
        let state = (decode (record { state = (imsg ctx).utf8state; codep = 0 }) b).state in
        let ctx' = set_imsg (record (imsg ctx) { utf8state = state }) ctx in
        let after = kept.closing ctx' code_invalid_frame_payload_data [] h in
        elim (Bool-cases (state == utf8_reject)) [
          | inl bad ↦ rw bad after
          | inr good ↦ rw good (check_utf8-Of bs ctx' h)
        ]

    receive_close-Of :
        (msg : List ℕ) (ctx : EventContext W) → Of Q ctx → RoundAll (Of Q) (receive_close msg ctx)
    unfolding receive_close
    receive_close-Of msg ctx h =
        let (status, reason) = close_parts ctx msg in
        let noted = record ctx {
          close_status = bit_or ctx.close_status close_received;
          status_code_recv = if status == 0 then code_no_status_rcvd else status;
        } in
        let (r, ctx') = queue_close_wrapper noted status reason in
        let after = kept.closing noted status reason (kept.closed ctx h) in
        round_either Q (ltb 1 (imsg ctx).msg_length && not (is_valid_status_code status))
          (close_and_stop code_protocol_error ctx) _ (close_and_stop-Of code_protocol_error ctx h)
          (round_either Q (is_nonzero r) (returns r ctx') (again ctx') after after)

    receive_ping-Of :
        (msg : List ℕ) (ctx : EventContext W) → Of Q ctx → RoundAll (Of Q) (receive_ping msg ctx)
    unfolding receive_ping
    receive_ping-Of msg ctx h =
        let arg : Msg = record { opcode = pong; msg = msg } in
        let (r, ctx') = queue_msg ctx arg in
        let after = kept.queueing ctx arg h in
        round_either Q (is_nonzero r && not (same_int r (code no_more_msg))) _ (again ctx') after
          after

    receive_msg-Of :
        (msg : List ℕ) (ctx : EventContext W) → Of Q ctx → RoundAll (Of Q) (receive_msg on msg ctx)
    unfolding receive_msg
    receive_msg-Of msg ctx h =
        and_then-Of Q
          (if (imsg ctx).opcode == connection_close
            then receive_close msg ctx
            else if (imsg ctx).opcode == ping
            then receive_ping msg ctx
            else again ctx)
          _
          (round_either Q ((imsg ctx).opcode == connection_close) _ _ (receive_close-Of msg ctx h) (
            round_either Q ((imsg ctx).opcode == ping) _ (again ctx) (receive_ping-Of msg ctx h) h))
          (λ c k. kept.passing _ c k)

    deliver-Of :
        (iocb : Iocb) (ctx : EventContext W) → Of Q ctx → RoundAll (Of Q) (deliver on iocb ctx)
    unfolding deliver
    deliver-Of iocb ctx h =
        let m = imsg ctx in
        let (bytes, chunks) = flatten_queue m.chunks m.msg_length in
        let flat = set_imsg (record m { chunks = chunks }) ctx in
        round_either Q
          (not
            (is_some on.on_msg_recv_callback || m.opcode == connection_close || m.opcode == ping))
          (again ctx) _ h
          (round_either Q (not (buffers iocb ctx)) _ _ (receive_msg-Of [] ctx h) (
            round_either Q (not (m.msg_length == 0) && not (is_some bytes))
              (returns (code nomem) (record flat { read_enabled = false })) _ h
              (receive_msg-Of (msg_bytes bytes) flat h)))

    msg_over-Of : (ctx : EventContext W) → Of Q ctx → Of Q (msg_over on ctx)
    unfolding msg_over
    msg_over-Of ctx h = h

    pub finish_frame-Of :
        (iocb : Iocb) (ctx : EventContext W) → Of Q ctx → RoundAll (Of Q) (finish_frame on iocb ctx)
    unfolding finish_frame
    finish_frame-Of iocb ctx h =
        let m = imsg ctx in
        let ctx' = call_end on ctx in
        let ended = kept.ending ctx h in
        round_either Q
          (not (m.fin == 0)
            && (m.opcode == text_frame || m.opcode == connection_close)
            && not (m.utf8state == utf8_accept))
          _ _ (close_and_stop-Of code_invalid_frame_payload_data ctx h)
          (and_then-Of Q
            (if (imsg ctx').fin == 0
              then again ctx'
              else and_then (deliver on iocb ctx') (λ c. again (msg_over on c)))
            (λ c. again (record c { ipayloadlen = 0; ipayloadoff = 0 }))
            (round_either Q ((imsg ctx').fin == 0) (again ctx') _ ended (
              and_then-Of Q (deliver on iocb ctx') (λ c. again (msg_over on c))
                (deliver-Of iocb ctx' ended) msg_over-Of))
            (λ c k. k))
