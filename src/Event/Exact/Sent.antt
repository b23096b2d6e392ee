-- ===== src/Event/Exact/Sent.antt =====
-- The count through the second half of a round, where a message ends.
use wslay.Prelude.{
  ℕ, ◌%◌, sym, ◌∙◌, true, all_below, all_below_sound, all_below_eq, ltb, ltb→lt, bit_and, bit_or,
  ◌+◌, ◌-◌, ◌^◌, ◌<◌, ◌≡◌, refl, ap, Bool, not, ◌&&◌, ◌||◌, ◌==◌, Bool-cases, inl, inr,
  if◌then◌else◌, Option, none, some, List, length, slice, arith, pos, same_int,
}
use wslay.Protocol.{code, Error, want_write, wouldblock, connection_close}
use wslay.Frame.Bytes.{add64}
use wslay.Frame.Context.{SendContext, Outcome, ok, err, At}
use wslay.Frame.Send.{frame_send}
use wslay.Frame.Recv.{store}
use wslay.Event.Context.{
  User, close_sent, close_queued, MsgType, non_fragmented, fragmented, Omsg, EventCallbacks,
  EventContext, frame_callbacks,
}
use wslay.Event.SendLoop.{
  with_frame, at_frame, make_iocb, msg_sent, send_failed, after_whole, send_whole, fragment_sent,
  after_fragment, send_fragment, after_read, send_fragmented, send_msg, send_chosen, event_send,
}
use wslay.Event.Kept.{round-All, event_send-All}
use wslay.Event.Closing.{RoundAll, SentAll}
use wslay.Event.Counts.{held_omsg}
use wslay.Event.Exact.{IsExact, choose-IsExact}

-- Sending a close frame leaves the other flags.
sent_small_table : all_below 8 (λ s. ltb (bit_or s close_sent) 8) ≡ true
unfolding all_below
sent_small_table = refl

sent_small : (s : ℕ) → s < 8 → bit_or s close_sent < 8
sent_small s h =
    ltb→lt (bit_or s close_sent) 8
      (all_below_sound 8 (λ k. ltb (bit_or k close_sent) 8) s sent_small_table h)

sent_kept_table :
    all_below 8 (λ s. bit_and (bit_or s close_sent) close_queued == bit_and s close_queued) ≡ true
unfolding all_below
sent_kept_table = refl

sent_kept : (s : ℕ) → s < 8 → bit_and (bit_or s close_sent) close_queued ≡ bit_and s close_queued
sent_kept s h =
    all_below_eq 8 (λ k. bit_and (bit_or k close_sent) close_queued) (λ k. bit_and k close_queued)
      sent_kept_table s h

module _ {W : Type 0} where
  msg_sent-IsExact :
      (m : Omsg W) (ctx : EventContext W)
      → held_omsg ctx.omsg ≡ 1
      → IsExact ctx
      → IsExact (msg_sent m ctx)
  unfolding msg_sent
  msg_sent-IsExact m ctx some_omsg (flags, exact) =
      elim (Bool-cases (m.opcode == connection_close)) [
        | inl close ↦ rw close (
          sent_small ctx.close_status flags,
          λ open_.
              let still = ap (λ k. k == 0) (sym (sent_kept ctx.close_status flags)) ∙ open_ in
              omega (arith, exact still, some_omsg),
        )
        | inr other ↦ rw other (flags, λ open_. omega (arith, exact open_, some_omsg))
      ]

  send_failed-IsExact :
      (e : Error) (ctx : EventContext W) → IsExact ctx → RoundAll IsExact (send_failed e ctx)
  unfolding send_failed
  send_failed-IsExact e ctx h =
      elim (Bool-cases (
        not (same_int (code e) (code want_write))
        || (not (same_int ctx.user.error (code wouldblock))
            && not (same_int ctx.user.error (pos 0))))) [
              | inl bad ↦ rw bad h
              | inr fine ↦ rw fine h
            ]

  after_whole-IsExact :
      (m : Omsg W) (ctx : EventContext W) (o : Outcome (At SendContext (User W)) ℕ)
      → held_omsg ctx.omsg ≡ 1
      → IsExact ctx
      → RoundAll IsExact (after_whole m ctx o)
  unfolding after_whole with_frame
  after_whole-IsExact m ctx (ok n s) some_omsg h =
      let ctx' = record (with_frame ctx s) { opayloadoff = add64 ctx.opayloadoff n } in
      let k : IsExact ctx' = h in
      elim (Bool-cases (ctx'.opayloadoff == ctx'.opayloadlen)) [
        | inl all_sent ↦ rw all_sent (msg_sent-IsExact m ctx' some_omsg k)
        | inr more ↦ rw more k
      ]
  after_whole-IsExact m ctx (err e s) some_omsg h = send_failed-IsExact e (with_frame ctx s) h

  fragment_sent-IsExact :
      (m : Omsg W) (ctx : EventContext W)
      → held_omsg ctx.omsg ≡ 1
      → IsExact ctx
      → IsExact (fragment_sent m ctx)
  unfolding fragment_sent
  fragment_sent-IsExact m ctx some_omsg h = elim (Bool-cases (m.fin == 0)) [
    | inl more ↦ rw more (
      h.0,
      λ open_.
          h.1 open_
          ∙ ap (λ n. (length ctx.send_queue + length ctx.send_ctrl_queue + n) % 2 ^ 64) some_omsg,
    )
    | inr last ↦ rw last (h.0, λ open_. omega (arith, h.1 open_, some_omsg))
  ]

  after_fragment-IsExact :
      (m : Omsg W) (ctx : EventContext W) (o : Outcome (At SendContext (User W)) ℕ)
      → held_omsg ctx.omsg ≡ 1
      → IsExact ctx
      → RoundAll IsExact (after_fragment m ctx o)
  unfolding after_fragment with_frame
  after_fragment-IsExact m ctx (ok n s) some_omsg h =
      let ctx' = record (with_frame ctx s) { obufmark = ctx.obufmark + n } in
      let k : IsExact ctx' = h in
      elim (Bool-cases (ctx'.obufmark == ctx'.obuflimit)) [
        | inl all_sent ↦ rw all_sent (fragment_sent-IsExact m ctx' some_omsg k)
        | inr more ↦ rw more k
      ]
  after_fragment-IsExact m ctx (err e s) some_omsg h = send_failed-IsExact e (with_frame ctx s) h

  module _ (cb : EventCallbacks W) where
    send_fragment-IsExact :
        (m : Omsg W) (ctx : EventContext W)
        → held_omsg ctx.omsg ≡ 1
        → IsExact ctx
        → RoundAll IsExact (send_fragment cb m ctx)
    unfolding send_fragment
    send_fragment-IsExact m ctx some_omsg h =
        let payload = slice ctx.obufmark (ctx.obuflimit - ctx.obufmark) ctx.obuf in
        after_fragment-IsExact m ctx
          (frame_send (frame_callbacks cb) (make_iocb m ctx payload m.fin) (at_frame ctx)) some_omsg
          h

    after_read-IsExact :
        (m : Omsg W) (o : Option (List ℕ × Bool)) (ctx : EventContext W)
        → held_omsg ctx.omsg ≡ 1
        → IsExact ctx
        → RoundAll IsExact (after_read cb m o ctx)
    unfolding after_read
    after_read-IsExact m none ctx some_omsg h = h
    after_read-IsExact m (some (bytes, eof)) ctx some_omsg h =
        elim (Bool-cases (length bytes == 0)) [
          | inl nothing ↦ rw nothing h
          | inr something ↦ rw something (
              let m' = record m { fin = if eof then 1 else m.fin } in
              send_fragment-IsExact m'
                (record ctx {
                  obuf = store ctx.obuf 0 bytes;
                  obuflimit = length bytes;
                  omsg = some m';
                  opayloadlen = length bytes;
                  opayloadoff = 0;
                })
                (omega arith)
                (
                  h.0,
                  λ open_.
                      h.1 open_
                      ∙ ap (λ n. (length ctx.send_queue + length ctx.send_ctrl_queue + n) % 2 ^ 64)
                          some_omsg,
                ))
        ]

    send_msg-IsExact :
        (t : MsgType) (m : Omsg W) (ctx : EventContext W)
        → held_omsg ctx.omsg ≡ 1
        → IsExact ctx
        → RoundAll IsExact (send_msg cb t m ctx)
    unfolding send_msg send_whole send_fragmented
    send_msg-IsExact non_fragmented m ctx some_omsg h =
        let payload = slice ctx.opayloadoff (ctx.opayloadlen - ctx.opayloadoff) m.bytes in
        after_whole-IsExact m ctx
          (frame_send (frame_callbacks cb) (make_iocb m ctx payload 1) (at_frame ctx)) some_omsg h
    send_msg-IsExact fragmented m ctx some_omsg h =
        elim (Bool-cases (m.fin == 0 && ctx.obuflimit == ctx.obufmark)) [
          | inl empty ↦ rw empty (
              let (result, user) = m.read_callback 4096 m.source ctx.user in
              after_read-IsExact m result (record ctx { user = user }) some_omsg h)
          | inr full ↦ rw full (send_fragment-IsExact m ctx some_omsg h)
        ]

    send_chosen-IsExact :
        (o : Option (Omsg W)) (ctx : EventContext W)
        → ctx.omsg ≡ o
        → IsExact ctx
        → RoundAll IsExact (send_chosen cb o ctx)
    unfolding send_chosen
    send_chosen-IsExact none ctx e h = h
    send_chosen-IsExact (some m) ctx e h =
        send_msg-IsExact m.type m ctx (omega (arith, ap held_omsg e)) h

    pub event_send-IsExact :
        (rounds : ℕ) (ctx : EventContext W)
        → IsExact ctx
        → SentAll IsExact (event_send cb rounds ctx)
    event_send-IsExact =
        event_send-All IsExact cb
          (round-All IsExact cb choose-IsExact (λ c h. send_chosen-IsExact c.omsg c refl h))
