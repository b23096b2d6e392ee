-- ===== src/Event/Bounds/Sent.antt =====
-- The bounds through the second half of a round, where `wslay_frame_send` says how much it has sent.
use wslay.Prelude.{
  ℕ, ◌+◌, ◌-◌, ◌≤◌, ◌≡◌, refl, sym, ◌<◌, subst, drop, ◌∙◌, Bool, not, ◌&&◌, ◌||◌, ◌==◌, Bool-cases,
  if◌then◌else◌, ◌⊎◌, inl, inr, Option, none, some, List, length, slice, length-take, arith,
  same_int, pos,
}
use wslay.Protocol.{
  code, Error, want_write, wouldblock, connection_close, continuation_frame, is_ctrl_frame,
}
use wslay.Frame.Bytes.{add64}
use wslay.Frame.Context.{SendContext, Outcome, ok, err, At}
use wslay.Frame.Send.{frame_send}
use wslay.Frame.Send.Taken.{Takes, within, frame_send-Takes}
use wslay.Frame.Recv.{store}
use wslay.Frame.Recv.Buffer.{length-store}
use wslay.Event.Context.{
  User, MsgType, non_fragmented, fragmented, Omsg, EventCallbacks, EventContext, frame_callbacks,
}
use wslay.Event.SendLoop.{
  with_frame, at_frame, make_iocb, msg_sent, send_failed, after_whole, send_whole, fragment_sent,
  after_fragment, send_fragment, after_read, send_fragmented, send_msg, send_chosen,
}
use wslay.Event.Closing.{RoundAll}
use wslay.Event.Counts.{OmsgAll}
use wslay.Event.Bounds.{read_size, IsData, IsEither, IsStored, IsUnderWay, Stored, InBounds}
use wslay.Event.Bounds.Chosen.{fragmented-ne}

-- A part of a list that a length bounds.
length-slice_le : (i n : ℕ) (xs : List ℕ) → length (slice i n xs) ≤ n
length-slice_le i n xs = omega (arith, length-take n (drop i xs))

module _ {W : Type 0} where
  msg_sent-InBounds :
      (m : Omsg W) (ctx : EventContext W)
      → Stored ctx
      → ctx.opayloadoff ≤ ctx.opayloadlen
      → InBounds (msg_sent m ctx)
  unfolding msg_sent
  msg_sent-InBounds m ctx st le =
      let way : IsUnderWay none ctx.opayloadoff ctx.opayloadlen = record {
        within = le;
        msg = tt;
        sized = tt;
      } in
      elim (Bool-cases (m.opcode == connection_close)) [
        | inl close ↦ rw close (st, way)
        | inr other ↦ rw other (st, way)
      ]

  send_failed-InBounds :
      (e : Error) (ctx : EventContext W) → InBounds ctx → RoundAll InBounds (send_failed e ctx)
  unfolding send_failed
  send_failed-InBounds e ctx h =
      elim (Bool-cases (
        not (same_int (code e) (code want_write))
        || (not (same_int ctx.user.error (code wouldblock))
            && not (same_int ctx.user.error (pos 0))))) [
              | inl bad ↦ rw bad h
              | inr fine ↦ rw fine h
            ]

  after_whole-InBounds :
      (m : Omsg W) (ctx : EventContext W) (o : Outcome (At SendContext (User W)) ℕ)
      → InBounds ctx
      → Takes (ctx.opayloadlen - ctx.opayloadoff) o
      → RoundAll InBounds (after_whole m ctx o)
  unfolding after_whole with_frame
  after_whole-InBounds m ctx (ok n s) (st, way) fits =
      let ctx' = record (with_frame ctx s) { opayloadoff = add64 ctx.opayloadoff n } in
      let le : ctx'.opayloadoff ≤ ctx'.opayloadlen = omega (arith, fits, way.within) in
      elim (Bool-cases (ctx'.opayloadoff == ctx'.opayloadlen)) [
        | inl all_sent ↦ rw all_sent (msg_sent-InBounds m ctx' st le)
        | inr more ↦ rw more (st, record { within = le; msg = way.msg; sized = way.sized })
      ]
  after_whole-InBounds m ctx (err e s) h fits = send_failed-InBounds e (with_frame ctx s) h

  -- The buffer with its two marks moved.
  marked_at :
      {cs ms : List (Omsg W)} {old_mark old_limit : ℕ} {obuf : List ℕ} (mark limit : ℕ)
      → (mark ≡ 0) ⊎ (mark < limit)
      → limit ≤ 4096
      → IsStored cs ms old_mark old_limit obuf
      → IsStored cs ms mark limit obuf
  marked_at mark limit a b st = record {
    ctrl = st.ctrl;
    plain = st.plain;
    marked = a;
    limited = b;
    size = st.size;
  }

  marked_le :
      {cs ms : List (Omsg W)} {mark limit : ℕ} {obuf : List ℕ}
      → IsStored cs ms mark limit obuf
      → mark ≤ limit
  marked_le st = elim st.marked [ inl e ↦ omega (arith, e) | inr lt ↦ omega (arith, lt) ]

  -- An empty buffer is free: the next bytes go to its start.
  marked_empty :
      {cs ms : List (Omsg W)} {mark limit : ℕ} {obuf : List ℕ}
      → IsStored cs ms mark limit obuf
      → limit ≡ mark
      → mark ≡ 0
  marked_empty st e = elim st.marked [ inl z ↦ z | inr lt ↦ absurd (omega (arith, lt, e)) ]

  -- A data message that has fragments has no size of its own.
  fragments :
      {off size : ℕ} (m : Omsg W)
      → off ≤ size
      → m.type ≡ fragmented
      → IsData m
      → IsUnderWay (some m) off size
  fragments m le e d = record { within = le; msg = inr d; sized = λ k. fragmented-ne (sym e ∙ k) }

  fragment_sent-InBounds :
      (m : Omsg W) (ctx : EventContext W)
      → m.type ≡ fragmented
      → IsData m
      → {mark limit : ℕ} → IsStored ctx.send_ctrl_queue ctx.send_queue mark limit ctx.obuf
      → IsUnderWay ctx.omsg ctx.opayloadoff ctx.opayloadlen
      → InBounds (fragment_sent m ctx)
  unfolding fragment_sent is_ctrl_frame
  fragment_sent-InBounds m ctx e d st way =
      let st' = marked_at 0 0 (inl refl) (omega arith) st in
      elim (Bool-cases (m.fin == 0)) [
        | inl more ↦
            rw more
              (st', fragments (record m { opcode = continuation_frame }) way.within e (refl, d.1))
        | inr last ↦ rw last (st', record { within = way.within; msg = tt; sized = tt })
      ]

  after_fragment-InBounds :
      (m : Omsg W) (ctx : EventContext W) (o : Outcome (At SendContext (User W)) ℕ)
      → m.type ≡ fragmented
      → IsData m
      → InBounds ctx
      → Takes (ctx.obuflimit - ctx.obufmark) o
      → RoundAll InBounds (after_fragment m ctx o)
  unfolding after_fragment with_frame
  after_fragment-InBounds m ctx (ok n s) e d (st, way) fits =
      let ctx' = record (with_frame ctx s) { obufmark = ctx.obufmark + n } in
      let le : ctx'.obufmark ≤ ctx'.obuflimit = omega (arith, fits, marked_le st) in
      elim (Bool-cases (ctx'.obufmark == ctx'.obuflimit)) [
        | inl all_sent ↦ rw all_sent (fragment_sent-InBounds m ctx' e d st way)
        | inr more ↦ rw more (
          marked_at ctx'.obufmark ctx'.obuflimit (inr (ground (arith, le, more))) st.limited st,
          way,
        )
      ]
  after_fragment-InBounds m ctx (err err_code s) e d h fits =
      send_failed-InBounds err_code (with_frame ctx s) h

  module _ (cb : EventCallbacks W) where
    send_fragment-InBounds :
        (m : Omsg W) (ctx : EventContext W)
        → m.type ≡ fragmented
        → IsData m
        → InBounds ctx
        → RoundAll InBounds (send_fragment cb m ctx)
    unfolding send_fragment make_iocb
    send_fragment-InBounds m ctx e d h =
        let size = ctx.obuflimit - ctx.obufmark in
        let payload = slice ctx.obufmark size ctx.obuf in
        let iocb = make_iocb m ctx payload m.fin in
        let o = frame_send (frame_callbacks cb) iocb (at_frame ctx) in
        after_fragment-InBounds m ctx o e d h (
          within (length payload) size (length-slice_le ctx.obufmark size ctx.obuf) o
            (frame_send-Takes (frame_callbacks cb) iocb (at_frame ctx)))

    after_read-InBounds :
        (m : Omsg W) (o : Option (List ℕ × Bool)) (ctx : EventContext W)
        → m.type ≡ fragmented
        → IsData m
        → InBounds ctx
        → ctx.obufmark ≡ 0
        → read_size o ≤ 4096
        → RoundAll InBounds (after_read cb m o ctx)
    unfolding after_read
    after_read-InBounds m none ctx e d h z le = h
    after_read-InBounds m (some (bytes, eof)) ctx e d (st, way) z le =
        elim (Bool-cases (length bytes == 0)) [
          | inl nothing ↦ rw nothing (st, way)
          | inr something ↦ rw something (
              let m' = record m { fin = if eof then 1 else m.fin } in
              send_fragment-InBounds m'
                (record ctx {
                  obuf = store ctx.obuf 0 bytes;
                  obuflimit = length bytes;
                  omsg = some m';
                  opayloadlen = length bytes;
                  opayloadoff = 0;
                })
                e d
                (
                  record {
                    ctrl = st.ctrl;
                    plain = st.plain;
                    marked = inl z;
                    limited = le;
                    size = length-store ctx.obuf bytes 0 (omega (arith, le, st.size)) ∙ st.size;
                  },
                  fragments m' (omega arith) e d,
                ))
        ]

    send_msg-InBounds :
        (t : MsgType) (m : Omsg W) (ctx : EventContext W)
        → m.type ≡ t
        → IsEither m
        → InBounds ctx
        → RoundAll InBounds (send_msg cb t m ctx)
    unfolding send_msg send_whole send_fragmented make_iocb
    send_msg-InBounds non_fragmented m ctx e d h =
        let size = ctx.opayloadlen - ctx.opayloadoff in
        let payload = slice ctx.opayloadoff size m.bytes in
        let iocb = make_iocb m ctx payload 1 in
        let o = frame_send (frame_callbacks cb) iocb (at_frame ctx) in
        after_whole-InBounds m ctx o h (
          within (length payload) size (length-slice_le ctx.opayloadoff size m.bytes) o
            (frame_send-Takes (frame_callbacks cb) iocb (at_frame ctx)))
    send_msg-InBounds fragmented m ctx e (inl c) h = fragmented-ne (sym e ∙ c.2)
    send_msg-InBounds fragmented m ctx e (inr d) h =
        elim (Bool-cases (m.fin == 0 && ctx.obuflimit == ctx.obufmark)) [
          | inl empty ↦ rw empty (
              let (result, user) = m.read_callback 4096 m.source ctx.user in
              after_read-InBounds m result (record ctx { user = user }) e d h
                (marked_empty h.0 (ground (arith, empty))) (d.1 4096 m.source ctx.user))
          | inr full ↦ rw full (send_fragment-InBounds m ctx e d h)
        ]

    pub send_chosen-InBounds :
        (o : Option (Omsg W)) (ctx : EventContext W)
        → ctx.omsg ≡ o
        → InBounds ctx
        → RoundAll InBounds (send_chosen cb o ctx)
    unfolding send_chosen
    send_chosen-InBounds none ctx e h = h
    send_chosen-InBounds (some m) ctx e h =
        send_msg-InBounds m.type m ctx refl (subst (OmsgAll IsEither) e h.1.msg) h
