-- ===== src/Event/Whole/Streaming/Rounds.antt =====
-- A round of `wslay_event_send` with data messages in one frame each, and its loop.
use wslay.Prelude.{
  ℕ, ◌-◌, ◌≡◌, refl, sym, ap, subst, ◌∙◌, Bool, false, not, ◌&&◌, ◌||◌, ◌==◌, Bool-cases, inl, inr,
  Option, none, some, List, [], ◌∷◌, ◌++◌, length, slice, All, arith, same_int, pos,
}
use mathlib.Core.List.{append_assoc}
use wslay.Protocol.{code, want_write, wouldblock, connection_close, is_ctrl_frame}
use wslay.Frame.Bytes.{add64}
use wslay.Frame.Wire.{frame}
use wslay.Frame.Context.{SendContext, Outcome, ok, err, At}
use wslay.Frame.Send.{frame_send}
use wslay.Frame.Send.Output.{IsSink}
use wslay.Frame.Send.Sound.{Sending}
use wslay.Event.Context.{User, Omsg, EventCallbacks, EventContext, frame_callbacks}
use wslay.Event.Queueing.{Msg}
use wslay.Event.Send.{
  Round, again, returns, choose, choose_new, choose_from, take_up, on_non_fragmented_msg_popped,
  interrupts, is_empty, is_prep_header,
}
use wslay.Event.SendLoop.{
  with_frame, at_frame, make_iocb, msg_sent, send_failed, after_whole, send_whole, send_msg,
  send_chosen, event_send,
}
use wslay.Event.Closing.{RoundAll, SentAll}
use wslay.Event.Kept.{round-All, event_send-All}
use wslay.Event.Whole.{msg_header, IsBegun, Puts}
use wslay.Event.Whole.Putting.{send_whole-Puts}
use wslay.Event.Whole.Streaming.{
  as_msg, as_msgs, under_way, then_frame, IsPlain, HasPart, IsStreaming,
}

module _ {W : Type 0} where
  -- A round leaves the queues alone.
  abbrev IsSame : EventContext W → EventContext W → Type 0
  IsSame before after =
      (after.send_queue ≡ before.send_queue)
      × (after.send_ctrl_queue ≡ before.send_ctrl_queue)
      × (after.server ≡ before.server)

  after_whole-IsSame :
      (m : Omsg W) (ctx : EventContext W) (o : Outcome (At SendContext (User W)) ℕ)
      → RoundAll (IsSame ctx) (after_whole m ctx o)
  unfolding after_whole with_frame msg_sent send_failed
  after_whole-IsSame m ctx (ok n s) =
      let ctx' = record (with_frame ctx s) { opayloadoff = add64 ctx.opayloadoff n } in
      elim (Bool-cases (ctx'.opayloadoff == ctx'.opayloadlen)) [
        | inl all_sent ↦ rw all_sent (elim (Bool-cases (m.opcode == connection_close)) [
          | inl close ↦ rw close (refl, refl, refl)
          | inr other ↦ rw other (refl, refl, refl)
        ])
        | inr more ↦ rw more (refl, refl, refl)
      ]
  after_whole-IsSame m ctx (err e s) =
      elim (Bool-cases (
        not (same_int (code e) (code want_write))
        || (not (same_int s.world.error (code wouldblock))
            && not (same_int s.world.error (pos 0))))) [
              | inl bad ↦ rw bad (refl, refl, refl)
              | inr fine ↦ rw fine (refl, refl, refl)
            ]

  no_interrupt :
      (m : Omsg W) (ctx : EventContext W) → ctx.send_ctrl_queue ≡ [] → interrupts m ctx ≡ false
  unfolding interrupts
  no_interrupt m ctx e =
      ap
        (λ q.
          not (is_ctrl_frame m.opcode)
          && is_prep_header ctx.frame_ctx.output.ostate
          && not (is_empty q))
        e
      ∙ ground arith

  module _ (sent : User W → List ℕ) (log : List ℕ) (server : Bool) (args : List Msg) where
    popped-IsStreaming :
        (m : Omsg W) (ms : List (Omsg W)) (ctx : EventContext W)
        → IsStreaming sent log server args ctx
        → ctx.omsg ≡ none
        → ctx.send_queue ≡ m ∷ ms
        → IsStreaming sent log server args
            (on_non_fragmented_msg_popped m (record ctx { send_queue = ms }))
    unfolding on_non_fragmented_msg_popped at_frame
    popped-IsStreaming m ms ctx h e q =
        let idle = subst (λ o. HasPart sent (log ++ h.bytes) server o ctx) e h.part in
        let (fits, rest) = subst (All (IsPlain sent)) q h.plain in
        record {
          over = h.over;
          bytes = h.bytes;
          frames = h.frames;
          part = (
            (
              record { opcode = fits.0.opcode; size = fits.0.size; ctrl_short = fits.0.ctrl_short },
              fits.1,
            ),
            record {
              inside = omega arith;
              whole = refl;
              sending =
                  subst
                    (λ st.
                      Sending sent (log ++ h.bytes) (msg_header m server (length m.bytes)) [] st
                        (at_frame ctx))
                    (sym idle.1) (idle.0, refl, idle.2);
            },
          );
          split =
              h.split
              ∙ ap (λ o. h.over ++ (under_way o ++ as_msgs ctx.send_queue)) e
              ∙ ap (λ l. h.over ++ as_msgs l) q;
          plain = rest;
          no_ctrl = h.no_ctrl;
          side = h.side;
        }

    choose_new-IsStreaming :
        (cs ms : List (Omsg W)) (ctx : EventContext W)
        → cs ≡ []
        → ctx.send_queue ≡ ms
        → ctx.omsg ≡ none
        → IsStreaming sent log server args ctx
        → IsStreaming sent log server args (choose_new cs ms ctx).1
    unfolding choose_new take_up
    choose_new-IsStreaming (c ∷ cs) ms ctx z q e h = absurd (omega (arith, ap length z))
    choose_new-IsStreaming [] [] ctx z q e h = h
    choose_new-IsStreaming [] (m ∷ ms) ctx z q e h =
        subst (λ t. IsStreaming sent log server args (take_up t m (record ctx { send_queue = ms })))
          (sym (subst (All (IsPlain sent)) q h.plain).0.1) (popped-IsStreaming m ms ctx h e q)

    choose-IsStreaming :
        (ctx : EventContext W)
        → IsStreaming sent log server args ctx
        → IsStreaming sent log server args (choose ctx).1
    unfolding choose choose_from
    choose-IsStreaming ctx h = by_omsg ctx.omsg refl
      where
        by_omsg :
            (o : Option (Omsg W))
            → ctx.omsg ≡ o
            → IsStreaming sent log server args (choose_from o ctx).1
        by_omsg none e =
            choose_new-IsStreaming ctx.send_ctrl_queue ctx.send_queue ctx h.no_ctrl refl e h
        by_omsg (some m) e = rw (no_interrupt m ctx h.no_ctrl) h

    -- The round has put a part of the frame on the connection, or its end.
    put-IsStreaming :
        (m : Omsg W) (ctx : EventContext W) (r : Round W) (h : IsStreaming sent log server args ctx)
        → ctx.omsg ≡ some m
        → IsPlain sent m
        → Puts sent (log ++ h.bytes) m server (some m) r
        → RoundAll (IsSame ctx) r
        → RoundAll (IsStreaming sent log server args) r
    put-IsStreaming m ctx (again c) h e fits f same =
        let bytes =
          frame (msg_header m server (length m.bytes)) c.frame_ctx.output.omaskkey m.bytes in
        record {
          over = h.over ++ as_msg m ∷ [];
          bytes = h.bytes ++ bytes;
          frames = then_frame h.frames (as_msg m) c.frame_ctx.output.omaskkey f.key_size;
          part =
              subst (λ o. HasPart sent (log ++ (h.bytes ++ bytes)) server o c) (sym f.no_message)
                (f.out ∙ append_assoc log h.bytes bytes, f.state, λ plain. f.mask ∙ plain);
          split =
              h.split
              ∙ ap (λ o. h.over ++ (under_way o ++ as_msgs ctx.send_queue)) e
              ∙ sym (append_assoc h.over (as_msg m ∷ []) (as_msgs ctx.send_queue))
              ∙ ap (λ q. (h.over ++ as_msg m ∷ []) ++ as_msgs q) (sym same.0)
              ∙ ap (λ o. (h.over ++ as_msg m ∷ []) ++ (under_way o ++ as_msgs c.send_queue))
                  (sym f.no_message);
          plain = subst (All (IsPlain sent)) (sym same.0) h.plain;
          no_ctrl = same.1 ∙ h.no_ctrl;
          side = same.2 ∙ h.side;
        }
    put-IsStreaming m ctx (returns r c) h e fits (begun, still, role) same = record {
      over = h.over;
      bytes = h.bytes;
      frames = h.frames;
      part = subst (λ o. HasPart sent (log ++ h.bytes) server o c) (sym still) (fits, begun);
      split =
          h.split
          ∙ ap (λ o. h.over ++ (under_way o ++ as_msgs ctx.send_queue)) (e ∙ sym still)
          ∙ ap (λ q. h.over ++ (under_way c.omsg ++ as_msgs q)) (sym same.0);
      plain = subst (All (IsPlain sent)) (sym same.0) h.plain;
      no_ctrl = same.1 ∙ h.no_ctrl;
      side = same.2 ∙ h.side;
    }

    module _ (cb : EventCallbacks W) (sink : IsSink (frame_callbacks cb) sent) where
      send_whole-IsSame :
          (m : Omsg W) (ctx : EventContext W) → RoundAll (IsSame ctx) (send_whole cb m ctx)
      unfolding send_whole
      send_whole-IsSame m ctx =
          let payload = slice ctx.opayloadoff (ctx.opayloadlen - ctx.opayloadoff) m.bytes in
          after_whole-IsSame m ctx
            (frame_send (frame_callbacks cb) (make_iocb m ctx payload 1) (at_frame ctx))

      send_chosen-IsStreaming :
          (o : Option (Omsg W)) (ctx : EventContext W)
          → ctx.omsg ≡ o
          → IsStreaming sent log server args ctx
          → RoundAll (IsStreaming sent log server args) (send_chosen cb o ctx)
      unfolding send_chosen send_msg
      send_chosen-IsStreaming none ctx e h = h
      send_chosen-IsStreaming (some m) ctx e h =
          let (fits, begun) = subst (λ o. HasPart sent (log ++ h.bytes) server o ctx) e h.part in
          subst (λ t. RoundAll (IsStreaming sent log server args) (send_msg cb t m ctx))
            (sym fits.1)
            (put-IsStreaming m ctx (send_whole cb m ctx) h e fits
              (subst (λ o. Puts sent (log ++ h.bytes) m server o (send_whole cb m ctx)) e
                (subst (λ b. Puts sent (log ++ h.bytes) m b ctx.omsg (send_whole cb m ctx)) h.side
                  (send_whole-Puts sent (log ++ h.bytes) m fits.0 cb sink ctx (
                    subst
                      (λ b.
                        IsBegun sent (log ++ h.bytes) m b ctx.opayloadoff ctx.opayloadlen
                          (at_frame ctx))
                      (sym h.side) begun))))
              (send_whole-IsSame m ctx))

      pub event_send-IsStreaming :
          (rounds : ℕ) (ctx : EventContext W)
          → IsStreaming sent log server args ctx
          → SentAll (IsStreaming sent log server args) (event_send cb rounds ctx)
      event_send-IsStreaming = event_send-All (IsStreaming sent log server args) cb (
          round-All (IsStreaming sent log server args) cb choose-IsStreaming
            (λ c h. send_chosen-IsStreaming c.omsg c refl h))
