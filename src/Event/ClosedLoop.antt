-- ===== src/Event/ClosedLoop.antt =====
-- A closing connection through a whole call of `wslay_event_send`.
use wslay.Prelude.{
  ℕ, ◌+◌, refl, inl, inr, Bool, ◌&&◌, ◌==◌, Bool-cases, if◌then◌else◌, Option, none, some, List,
  length, slice, ◌-◌,
}
use wslay.Frame.Bytes.{add64}
use wslay.Frame.Context.{SendContext, Outcome, ok, err, At}
use wslay.Frame.Send.{frame_send}
use wslay.Frame.Recv.{store}
use wslay.Event.Context.{
  User, MsgType, non_fragmented, fragmented, Omsg, EventCallbacks, EventContext, frame_callbacks,
}
use wslay.Event.Send.{choose}
use wslay.Event.SendLoop.{
  after_whole, fragment_sent, after_fragment, after_read, send_msg, send_chosen, make_iocb,
  at_frame, with_frame, send_whole, send_fragment, send_fragmented, event_send,
}
use wslay.Event.Kept.{round-All, event_send-All}
use wslay.Event.Closing.{
  IsClosed, RoundAll, SentAll, choose_from-IsClosed, msg_sent-IsClosed, send_failed-IsClosed,
}

module _ {W : Type 0} where
  after_whole-IsClosed :
      (m : Omsg W) (ctx : EventContext W) (o : Outcome (At SendContext (User W)) ℕ)
      → IsClosed ctx
      → RoundAll IsClosed (after_whole m ctx o)
  unfolding after_whole with_frame
  after_whole-IsClosed m ctx (ok n s) h =
      let ctx' = record (with_frame ctx s) { opayloadoff = add64 ctx.opayloadoff n } in
      elim (Bool-cases (ctx'.opayloadoff == ctx'.opayloadlen)) [
        | inl all_sent ↦ rw all_sent (msg_sent-IsClosed m ctx' h)
        | inr more ↦ rw more h
      ]
  after_whole-IsClosed m ctx (err e s) h = send_failed-IsClosed e (with_frame ctx s) h

  fragment_sent-IsClosed :
      (m : Omsg W) (ctx : EventContext W) → IsClosed ctx → IsClosed (fragment_sent m ctx)
  unfolding fragment_sent
  fragment_sent-IsClosed m ctx h = elim (Bool-cases (m.fin == 0)) [
    | inl last ↦ rw last h
    | inr more ↦ rw more h
  ]

  after_fragment-IsClosed :
      (m : Omsg W) (ctx : EventContext W) (o : Outcome (At SendContext (User W)) ℕ)
      → IsClosed ctx
      → RoundAll IsClosed (after_fragment m ctx o)
  unfolding after_fragment with_frame
  after_fragment-IsClosed m ctx (ok n s) h =
      let ctx' = record (with_frame ctx s) { obufmark = ctx.obufmark + n } in
      elim (Bool-cases (ctx'.obufmark == ctx'.obuflimit)) [
        | inl all_sent ↦ rw all_sent (fragment_sent-IsClosed m ctx' h)
        | inr more ↦ rw more h
      ]
  after_fragment-IsClosed m ctx (err e s) h = send_failed-IsClosed e (with_frame ctx s) h

  module _ (cb : EventCallbacks W) where
    send_fragment-IsClosed :
        (m : Omsg W) (ctx : EventContext W)
        → IsClosed ctx
        → RoundAll IsClosed (send_fragment cb m ctx)
    unfolding send_fragment
    send_fragment-IsClosed m ctx h =
        let payload = slice ctx.obufmark (ctx.obuflimit - ctx.obufmark) ctx.obuf in
        after_fragment-IsClosed m ctx
          (frame_send (frame_callbacks cb) (make_iocb m ctx payload m.fin) (at_frame ctx)) h

    after_read-IsClosed :
        (m : Omsg W) (o : Option (List ℕ × Bool)) (ctx : EventContext W)
        → IsClosed ctx
        → RoundAll IsClosed (after_read cb m o ctx)
    unfolding after_read
    after_read-IsClosed m none ctx h = (h.0, inl refl)
    after_read-IsClosed m (some (bytes, eof)) ctx h = elim (Bool-cases (length bytes == 0)) [
      | inl nothing ↦ rw nothing h
      | inr something ↦ rw something (
          let m' = record m { fin = if eof then 1 else m.fin } in
          send_fragment-IsClosed m'
            (record ctx {
              obuf = store ctx.obuf 0 bytes;
              obuflimit = length bytes;
              omsg = some m';
              opayloadlen = length bytes;
              opayloadoff = 0;
            })
            h)
    ]

    send_msg-IsClosed :
        (t : MsgType) (m : Omsg W) (ctx : EventContext W)
        → IsClosed ctx
        → RoundAll IsClosed (send_msg cb t m ctx)
    unfolding send_msg send_whole send_fragmented
    send_msg-IsClosed non_fragmented m ctx h =
        let payload = slice ctx.opayloadoff (ctx.opayloadlen - ctx.opayloadoff) m.bytes in
        after_whole-IsClosed m ctx
          (frame_send (frame_callbacks cb) (make_iocb m ctx payload 1) (at_frame ctx)) h
    send_msg-IsClosed fragmented m ctx h =
        elim (Bool-cases (m.fin == 0 && ctx.obuflimit == ctx.obufmark)) [
          | inl empty ↦ rw empty (
              let (result, user) = m.read_callback 4096 m.source ctx.user in
              after_read-IsClosed m result (record ctx { user = user }) h)
          | inr full ↦ rw full (send_fragment-IsClosed m ctx h)
        ]

    send_chosen-IsClosed :
        (o : Option (Omsg W)) (ctx : EventContext W)
        → IsClosed ctx
        → RoundAll IsClosed (send_chosen cb o ctx)
    unfolding send_chosen
    send_chosen-IsClosed none ctx h = h
    send_chosen-IsClosed (some m) ctx h = send_msg-IsClosed m.type m ctx h

    -- `wslay_event_send` never reopens a connection.
    pub event_send-IsClosed :
        (rounds : ℕ) (ctx : EventContext W)
        → IsClosed ctx
        → SentAll IsClosed (event_send cb rounds ctx)
    unfolding choose
    event_send-IsClosed = event_send-All IsClosed cb (
        round-All IsClosed cb (λ c h. choose_from-IsClosed c.omsg c h)
          (λ c h. send_chosen-IsClosed c.omsg c h))
