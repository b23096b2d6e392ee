-- ===== src/Event/Whole/Putting.antt =====
-- A round of `wslay_event_send` for a message without fragments, against its frame.
use wslay.Prelude.{
  not, ℕ, ◌+◌, ◌-◌, ◌≤◌, ◌≡◌, refl, sym, ap, subst, ◌∙◌, Bool, ◌==◌, ==_iff, Bool-cases,
  if◌then◌else◌, inl, inr, List, length, take, slice, take_all, length-take, length-slice, arith,
}
use wslay.Protocol.{Error, Iocb}
use wslay.Frame.Bytes.{add64}
use wslay.Frame.Context.{
  prep_header, send_payload, SendContext, Outcome, ok, err, At, Ensures, Ensures-mono,
}
use wslay.Frame.Send.{frame_send}
use wslay.Frame.Send.Output.{IsSink, PayloadOut}
use wslay.Frame.Send.Stages.{Done}
use wslay.Frame.Send.Sound.{Sending, FailsFrom, frame_send-Done}
use wslay.Event.Context.{User, Omsg, EventCallbacks, EventContext, frame_callbacks}
use wslay.Event.SendLoop.{with_frame, at_frame, make_iocb, after_whole, send_whole}
use wslay.Event.Whole.{
  msg_header, IsSendableMsg, IsBegun, Puts, msg_sent-IsFinished, send_failed-Puts, Out-Sending,
  take-slice,
}

-- The control block for a part of the payload of a message.
abbrev sized : {W : Type 0} → Omsg W → Bool → ℕ → List ℕ → Iocb
sized m server size payload = record {
  fin = 1;
  rsv = 0;
  opcode = m.opcode;
  payload_length = size;
  mask = not server;
  payload = payload;
}

module _ {W : Type 0} (sent : User W → List ℕ) (log : List ℕ) (m : Omsg W)
    (fits : IsSendableMsg m) where
  -- What `wslay_frame_send` says of the bytes of the message from `off` on.
  abbrev Says : EventContext W → Outcome (At SendContext (User W)) ℕ → Type 0
  Says ctx o =
      let h = msg_header m ctx.server ctx.opayloadlen in
      let d = take ctx.opayloadoff m.bytes in
      Ensures
        (Done sent log h d (slice ctx.opayloadoff (ctx.opayloadlen - ctx.opayloadoff) m.bytes))
        (λ e t. Sending sent log h d t.ctx.ostate t) o

  after_whole-Puts :
      (ctx : EventContext W) (o : Outcome (At SendContext (User W)) ℕ)
      → IsBegun sent log m ctx.server ctx.opayloadoff ctx.opayloadlen (at_frame ctx)
      → Says ctx o
      → Puts sent log m ctx.server ctx.omsg (after_whole m ctx o)
  unfolding after_whole with_frame at_frame
  after_whole-Puts ctx (ok n s) h q =
      let rest = ctx.opayloadlen - ctx.opayloadoff in
      let ctx' = record (with_frame ctx s) { opayloadoff = add64 ctx.opayloadoff n } in
      let hdr = msg_header m ctx.server ctx.opayloadlen in
      let le : n ≤ rest = omega (
        arith,
        q.fits,
        h.inside,
        h.whole,
        length-slice ctx.opayloadoff rest m.bytes (omega (arith, h.inside, h.whole)),
      ) in
      let off : ctx'.opayloadoff ≡ ctx.opayloadoff + n =
        omega (arith, le, h.inside, h.whole, fits.size) in
      let d : length (take ctx.opayloadoff m.bytes) ≡ ctx.opayloadoff =
        omega (arith, length-take ctx.opayloadoff m.bytes, h.inside, h.whole) in
      let out : PayloadOut sent log hdr (take ctx'.opayloadoff m.bytes) s =
        subst (λ x. PayloadOut sent log hdr x s)
          (take-slice ctx.opayloadoff n rest m.bytes le ∙ ap (λ k. take k m.bytes) (sym off))
          q.payload in
      let st : s.ctx.ostate
          ≡ (if ctx'.opayloadoff == ctx'.opayloadlen then prep_header else send_payload) =
        q.state
        ∙ ap (λ k. if k == ctx.opayloadlen then prep_header else send_payload)
            (ap (λ k. k + n) d ∙ sym off) in
      elim (Bool-cases (ctx'.opayloadoff == ctx'.opayloadlen)) [
        | inl all_sent ↦
            let whole : take ctx'.opayloadoff m.bytes ≡ m.bytes =
              ap (λ k. take k m.bytes)
                ((==_iff ctx'.opayloadoff ctx'.opayloadlen).0 all_sent ∙ h.whole)
              ∙ take_all m.bytes in
            rw all_sent (
              msg_sent-IsFinished sent log m ctx.server ctx' h.whole
                (subst (λ x. PayloadOut sent log hdr x s) whole out)
                (st ∙ ap (λ b. if b then prep_header else send_payload) all_sent))
        | inr more ↦ rw more (
          record {
            inside = omega (arith, off, le, h.inside);
            whole = h.whole;
            sending =
                subst (λ x. Sending sent log hdr (take ctx'.opayloadoff m.bytes) x s)
                  (sym (st ∙ ap (λ b. if b then prep_header else send_payload) more)) out;
          },
          refl,
          refl,
        )
      ]
  after_whole-Puts ctx (err e s) h q =
      send_failed-Puts sent log m ctx.server e (with_frame ctx s)
        (record { inside = h.inside; whole = h.whole; sending = q }) refl

  module _ (cb : EventCallbacks W) (sink : IsSink (frame_callbacks cb) sent) where
    -- A call that failed leaves the frame where it was.
    still_begun :
        (server : Bool) (size off : ℕ) (payload : List ℕ) (e : Error)
        (s t : At SendContext (User W))
        → FailsFrom
            (frame_callbacks cb)
            (sized m server size payload)
            sent
            sink
            log
            s
            (take off m.bytes)
            e
            t
        → Sending sent log (msg_header m server size) (take off m.bytes) t.ctx.ostate t
    still_begun server size off payload e s t (inl q) =
        Out-Sending sent log m server size (take off m.bytes) t.ctx.ostate t q.1
    still_begun server size off payload e s t (inr q) = q.3

    pub send_whole-Puts :
        (ctx : EventContext W)
        → IsBegun sent log m ctx.server ctx.opayloadoff ctx.opayloadlen (at_frame ctx)
        → Puts sent log m ctx.server ctx.omsg (send_whole cb m ctx)
    unfolding send_whole make_iocb at_frame
    send_whole-Puts ctx h =
        let rest = ctx.opayloadlen - ctx.opayloadoff in
        let payload = slice ctx.opayloadoff rest m.bytes in
        let iocb = make_iocb m ctx payload 1 in
        let size = length-slice ctx.opayloadoff rest m.bytes (omega (arith, h.inside, h.whole)) in
        let h' = msg_header m ctx.server ctx.opayloadlen in
        let d = take ctx.opayloadoff m.bytes in
        let o = frame_send (frame_callbacks cb) iocb (at_frame ctx) in
        after_whole-Puts ctx o h (
          Ensures-mono (Done sent log h' d payload) (Done sent log h' d payload)
            (FailsFrom (frame_callbacks cb) iocb sent sink log (at_frame ctx) d)
            (λ e t. Sending sent log h' d t.ctx.ostate t) o
            (frame_send-Done (frame_callbacks cb) iocb sent sink log
              (record {
                fin = omega arith;
                rsv = omega arith;
                opcode = fits.opcode;
                size = omega (arith, fits.size, h.whole);
                ctrl_short = λ c. omega (arith, fits.ctrl_short c, h.whole);
              })
              d (omega (arith, size, length-take ctx.opayloadoff m.bytes, h.inside, h.whole))
              (at_frame ctx) h.sending)
            (λ _ _ q. q)
            (λ e t q.
              still_begun ctx.server ctx.opayloadlen ctx.opayloadoff payload e (at_frame ctx) t q))
