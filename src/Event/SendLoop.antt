-- ===== src/Event/SendLoop.antt =====
-- src/wslay/event.c: the second half of a round of `wslay_event_send`, and its loop.
use wslay.Prelude.{
  ℕ, zero, suc, ◌+◌, ◌-◌, Bool, false, not, ◌&&◌, ◌||◌, ◌==◌, if◌then◌else◌, Option, none, some,
  List, length, slice, ℤ, pos, same_int, bit_or,
}
use wslay.Protocol.{
  Error, code, want_write, callback_failure, wouldblock, connection_close, continuation_frame, Iocb,
}
use wslay.Frame.Bytes.{add64}
use wslay.Frame.Context.{SendContext, Outcome, ok, err, At}
use wslay.Frame.Send.{frame_send}
use wslay.Frame.Recv.{store}
use wslay.Event.Context.{
  User, MsgType, non_fragmented, fragmented, close_sent, Omsg, EventCallbacks, frame_callbacks,
  EventContext,
}
use wslay.Event.Send.{Round, again, choose, returns, sent_status, sub64, want_to_write}

module _ {W : Type 0} where
  -- What `wslay_frame_send` changes.
  unfoldable pub at_frame : EventContext W → At SendContext (User W)
  at_frame ctx = record { ctx = ctx.frame_ctx.output; world = ctx.user }

  unfoldable pub with_frame : EventContext W → At SendContext (User W) → EventContext W
  with_frame ctx s = record ctx {
    frame_ctx = record ctx.frame_ctx { output = s.ctx };
    user = s.world;
  }

  -- The branch for an error of `wslay_frame_send`.
  unfoldable pub send_failed : Error → EventContext W → Round W
  send_failed e ctx =
      if not (same_int (code e) (code want_write))
        || (not (same_int ctx.user.error (code wouldblock))
            && not (same_int ctx.user.error (pos 0)))
      then returns (code callback_failure) (record ctx { write_enabled = false })
      else returns (pos 0) ctx

  -- A message without fragments is sent.
  unfoldable pub msg_sent : Omsg W → EventContext W → EventContext W
  unfolding sent_status
  msg_sent m ctx =
      let ctx' = record ctx {
        queued_msg_count = sub64 ctx.queued_msg_count 1;
        queued_msg_length = sub64 ctx.queued_msg_length (length m.bytes);
        omsg = none;
      } in
      if m.opcode == connection_close
      then record ctx' {
        write_enabled = false;
        close_status = bit_or ctx.close_status close_sent;
        status_code_sent = sent_status m.bytes;
      }
      else ctx'

  unfoldable pub make_iocb : Omsg W → EventContext W → List ℕ → ℕ → Iocb
  make_iocb m ctx payload fin = record {
    fin = fin;
    rsv = 0;
    opcode = m.opcode;
    payload_length = ctx.opayloadlen;
    mask = not ctx.server;
    payload = payload;
  }

  -- What follows `wslay_frame_send` for a message without fragments.
  unfoldable pub after_whole :
      Omsg W → EventContext W → Outcome (At SendContext (User W)) ℕ → Round W
  unfolding with_frame send_failed msg_sent
  after_whole m ctx (ok n s) =
      let ctx' = record (with_frame ctx s) { opayloadoff = add64 ctx.opayloadoff n } in
      if ctx'.opayloadoff == ctx'.opayloadlen then again (msg_sent m ctx') else returns (pos 0) ctx'
  after_whole m ctx (err e s) = send_failed e (with_frame ctx s)

  -- A fragment is sent: the buffer is free, and the message over if it was the last.
  unfoldable pub fragment_sent : Omsg W → EventContext W → EventContext W
  fragment_sent m ctx =
      let ctx' = record ctx { obufmark = 0; obuflimit = 0 } in
      if m.fin == 0
      then record ctx' { omsg = some (record m { opcode = continuation_frame }) }
      else record ctx' { queued_msg_count = sub64 ctx.queued_msg_count 1; omsg = none }

  -- What follows `wslay_frame_send` for a fragment.
  unfoldable pub after_fragment :
      Omsg W → EventContext W → Outcome (At SendContext (User W)) ℕ → Round W
  unfolding with_frame send_failed fragment_sent
  after_fragment m ctx (ok n s) =
      let ctx' = record (with_frame ctx s) { obufmark = ctx.obufmark + n } in
      if ctx'.obufmark == ctx'.obuflimit then again (fragment_sent m ctx') else returns (pos 0) ctx'
  after_fragment m ctx (err e s) = send_failed e (with_frame ctx s)

  -- The end of a round: the loop goes on with what is left of the rounds.
  unfoldable pub after_round :
      (EventContext W → Option (ℤ × EventContext W)) → Round W → Option (ℤ × EventContext W)
  after_round next (again ctx) = next ctx
  after_round next (returns r ctx) = some (r, ctx)

  module _ (cb : EventCallbacks W) where
    -- The second half for a message without fragments.
    unfoldable pub send_whole : Omsg W → EventContext W → Round W
    unfolding at_frame after_whole make_iocb
    send_whole m ctx =
        let payload = slice ctx.opayloadoff (ctx.opayloadlen - ctx.opayloadoff) m.bytes in
        after_whole m ctx
          (frame_send (frame_callbacks cb) (make_iocb m ctx payload 1) (at_frame ctx))

    -- The frame of a fragment, from the buffer.
    unfoldable pub send_fragment : Omsg W → EventContext W → Round W
    unfolding at_frame after_fragment make_iocb
    send_fragment m ctx =
        let payload = slice ctx.obufmark (ctx.obuflimit - ctx.obufmark) ctx.obuf in
        after_fragment m ctx
          (frame_send (frame_callbacks cb) (make_iocb m ctx payload m.fin) (at_frame ctx))

    -- What follows `read_callback`, by its result.
    unfoldable pub after_read : Omsg W → Option (List ℕ × Bool) → EventContext W → Round W
    unfolding send_fragment
    after_read m none ctx = returns (code callback_failure) (record ctx { write_enabled = false })
    after_read m (some (bytes, eof)) ctx =
        let m' = record m { fin = if eof then 1 else m.fin } in
        if length bytes == 0
        then returns (pos 0) ctx
        else send_fragment m' (record ctx {
          obuf = store ctx.obuf 0 bytes;
          obuflimit = length bytes;
          omsg = some m';
          opayloadlen = length bytes;
          opayloadoff = 0;
        })

    -- The second half for a fragmented message: its next bytes are read when the buffer is empty.
    unfoldable pub send_fragmented : Omsg W → EventContext W → Round W
    unfolding send_fragment after_read
    send_fragmented m ctx =
        let (result, user) = m.read_callback 4096 m.source ctx.user in
        if m.fin == 0 && ctx.obuflimit == ctx.obufmark
        then after_read m result (record ctx { user = user })
        else send_fragment m ctx

    unfoldable pub send_msg : MsgType → Omsg W → EventContext W → Round W
    unfolding send_whole send_fragmented
    send_msg non_fragmented m ctx = send_whole m ctx
    send_msg fragmented m ctx = send_fragmented m ctx

    unfoldable pub send_chosen : Option (Omsg W) → EventContext W → Round W
    unfolding send_msg
    send_chosen none ctx = returns (pos 0) ctx
    send_chosen (some m) ctx = send_msg m.type m ctx

    -- A round of the loop, when its condition holds.
    unfoldable pub round : EventContext W → Round W
    unfolding choose send_chosen
    round ctx =
        let (going, ctx') = choose ctx in
        if going then send_chosen ctx'.omsg ctx' else returns (pos 0) ctx'

    -- `wslay_event_send` with a bound on the rounds; `none` means that they were not enough.
    unfoldable pub event_send : ℕ → EventContext W → Option (ℤ × EventContext W)
    unfolding want_to_write round after_round
    event_send zero ctx = if want_to_write ctx then none else some (pos 0, ctx)
    event_send (suc rounds) ctx =
        let next : EventContext W → Option (ℤ × EventContext W) = event_send rounds in
        if want_to_write ctx then after_round next (round ctx) else some (pos 0, ctx)
