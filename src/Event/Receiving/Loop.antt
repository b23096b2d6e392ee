-- ===== src/Event/Receiving/Loop.antt =====
-- What a round of `wslay_event_recv` keeps of the sending half, and its loop.
use wslay.Prelude.{
  ℕ, true, false, not, ◌&&◌, ◌||◌, ltb, ◌==◌, Bool, Bool-cases, inl, inr, if◌then◌else◌, Option,
  none, some, [], ℤ, pos, is_nonzero, same_int,
}
use wslay.Protocol.{
  Error, code, want_read, wouldblock, callback_failure, Iocb, data_length, code_protocol_error,
  code_message_too_big,
}
use wslay.Utf8.{utf8_reject}
use wslay.Frame.Bytes.{add64}
use wslay.Frame.Context.{RecvContext, Outcome, ok, err, At}
use wslay.Frame.Recv.{frame_recv}
use wslay.Event.Context.{User, EventCallbacks, EventContext, frame_callbacks}
use wslay.Event.Queueing.{queue_close_wrapper}
use wslay.Event.Send.{Round, again, returns}
use wslay.Event.Recv.{
  RecvCallbacks, imsg, close_and_stop, bad_frame, begin_frame, buffers, check_utf8, checked_bytes,
  call_start, call_chunk, start_frame, take_piece,
}
use wslay.Event.RecvLoop.{
  receive_piece, receive_frame, recv_failed, with_input, after_recv, recv_round, event_recv,
}
use wslay.Event.Closing.{RoundAll, SentAll}
use wslay.Event.Kept.{event_recv-All}
use wslay.Event.Receiving.{Sending, Of, IsKept, round_either}
use wslay.Event.Receiving.Message.{
  BegunAll, begin_frame-Of, close_and_stop-Of, check_utf8-Of, finish_frame-Of,
}

module _ {W : Type 0} (Q : Sending W → Type 0) (on : RecvCallbacks W) (kept : IsKept Q on) where
  abbrev Started : Option (EventContext W) → Type 0
  Started none = Unit
  Started (some ctx) = Of Q ctx

  if_of : (b : Bool) (p q : EventContext W) → Of Q p → Of Q q → Of Q (if b then p else q)
  if_of true p q h k = h
  if_of false p q h k = k

  start_frame-Started :
      (iocb : Iocb) (ctx : EventContext W) → Of Q ctx → Started (start_frame on iocb ctx)
  unfolding start_frame
  start_frame-Started iocb ctx h =
      let begun = record ctx { ipayloadlen = iocb.payload_length } in
      let called = call_start on iocb begun in
      let after = kept.starting iocb begun h in
      elim (Bool-cases
        (ltb ctx.max_recv_msg_length (add64 (imsg ctx).msg_length iocb.payload_length))) [
          | inl long ↦ rw long tt
          | inr fits ↦ rw fits (if_of (buffers iocb called) _ called after after)
        ]

  take_piece-Of : (iocb : Iocb) (ctx : EventContext W) → Of Q ctx → Of Q (take_piece on iocb ctx)
  unfolding take_piece
  take_piece-Of iocb ctx h =
      let called = call_chunk on iocb ctx in
      let after = kept.taking iocb ctx h in
      if_of (ltb 0 (data_length iocb)) _ called (if_of (buffers iocb called) _ called after after)
        after

  receive_piece-Of :
      (iocb : Iocb) (ctx : EventContext W) → Of Q ctx → RoundAll (Of Q) (receive_piece on iocb ctx)
  unfolding receive_piece
  receive_piece-Of iocb ctx h =
      let (failed, checked) = check_utf8 (checked_bytes iocb ctx) ctx in
      let after = check_utf8-Of Q on kept (checked_bytes iocb ctx) ctx h in
      let taken = take_piece on iocb checked in
      let put = take_piece-Of iocb checked after in
      by_failure failed checked after _ (
        round_either Q ((imsg checked).utf8state == utf8_reject) (returns (pos 0) checked) _ after (
          round_either Q (taken.ipayloadoff == taken.ipayloadlen) _ (again taken)
            (finish_frame-Of Q on kept iocb taken put) put))
    where
      by_failure :
          (o : Option ℤ) (c : EventContext W)
          → Of Q c
          → (r : Round W) → RoundAll (Of Q) r
          → RoundAll (Of Q) (elim o [ some n ↦ returns n c | none ↦ r ])
      by_failure none c k r j = j
      by_failure (some n) c k r j = k

  by_start :
      (o : Option (EventContext W)) (iocb : Iocb) (ctx : EventContext W)
      → Started o
      → Of Q ctx
      → RoundAll (Of Q) (elim o [
        | none ↦ close_and_stop code_message_too_big ctx
        | some started ↦ receive_piece on iocb started
      ])
  by_start none iocb ctx s h = close_and_stop-Of Q on kept code_message_too_big ctx h
  by_start (some c) iocb ctx s h = receive_piece-Of iocb c s

  by_begin :
      (o : Option (Bool × EventContext W)) (iocb : Iocb) (ctx : EventContext W)
      → BegunAll Q o
      → Of Q ctx
      → RoundAll (Of Q) (elim o [
        | none ↦ close_and_stop code_protocol_error ctx
        | some (new_frame, begun) ↦
            if new_frame
            then elim (start_frame on iocb begun) [
              | none ↦ close_and_stop code_message_too_big begun
              | some started ↦ receive_piece on iocb started
            ]
            else receive_piece on iocb begun
      ])
  by_begin none iocb ctx s h = close_and_stop-Of Q on kept code_protocol_error ctx h
  by_begin (some (new_frame, c)) iocb ctx s h =
      round_either Q new_frame _ (receive_piece on iocb c)
        (by_start (start_frame on iocb c) iocb c (start_frame-Started iocb c s) s)
        (receive_piece-Of iocb c s)

  receive_frame-Of :
      (iocb : Iocb) (ctx : EventContext W) → Of Q ctx → RoundAll (Of Q) (receive_frame on iocb ctx)
  unfolding receive_frame
  receive_frame-Of iocb ctx h =
      round_either Q (bad_frame iocb ctx) _ _
        (close_and_stop-Of Q on kept code_protocol_error ctx h)
        (by_begin (begin_frame iocb ctx) iocb ctx (begin_frame-Of Q iocb ctx h) h)

  recv_failed-Of :
      (e : Error) (ctx : EventContext W) → Of Q ctx → RoundAll (Of Q) (recv_failed on e ctx)
  unfolding recv_failed
  recv_failed-Of e ctx h =
      let (r, ctx') = queue_close_wrapper ctx 0 [] in
      let after = kept.closing ctx 0 [] h in
      round_either Q
        (not (same_int (code e) (code want_read))
          || (not (same_int ctx.user.error (code wouldblock))
              && not (same_int ctx.user.error (pos 0))))
        _ (returns (pos 0) ctx)
        (round_either Q (is_nonzero r) (returns r ctx') (returns (code callback_failure) ctx') after
          after)
        h

  after_recv-Of :
      (ctx : EventContext W) (o : Outcome (At RecvContext (User W)) Iocb)
      → Of Q ctx
      → RoundAll (Of Q) (after_recv on ctx o)
  unfolding after_recv
  after_recv-Of ctx (ok iocb s) h = receive_frame-Of iocb (with_input on ctx s) h
  after_recv-Of ctx (err e s) h = recv_failed-Of e (with_input on ctx s) h

  pub recv_round-Of :
      (cb : EventCallbacks W) (ctx : EventContext W)
      → Of Q ctx
      → RoundAll (Of Q) (recv_round on cb ctx)
  unfolding recv_round
  recv_round-Of cb ctx h =
      after_recv-Of ctx
        (frame_recv (frame_callbacks cb) (record { ctx = ctx.frame_ctx.input; world = ctx.user })) h

  -- `wslay_event_recv` keeps of the sending half what the functions it calls keep.
  pub event_recv-Of :
      (cb : EventCallbacks W) (rounds : ℕ) (ctx : EventContext W)
      → Of Q ctx
      → SentAll (Of Q) (event_recv on cb rounds ctx)
  event_recv-Of cb = event_recv-All (Of Q) cb on (recv_round-Of cb)
