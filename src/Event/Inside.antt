-- ===== src/Event/Inside.antt =====
-- Whole frames in `wslay_event_recv`, by their place in a message.
use wslay.Prelude.{
  ℕ, ◌^◌, ◌≤◌, ◌<◌, ◌≡◌, ◌≢◌, refl, sym, ap, subst, ◌∙◌, true, false, not, ◌==◌, some, List, [],
  ◌∷◌, ◌++◌, arith, length, length-append, bit_and,
}
use wslay.Protocol.{connection_close, ping}
use wslay.Utf8.{utf8_accept, utf8_reject}
use wslay.Event.Context.{EventContext, User, config_no_buffering}
use wslay.Event.Send.{again}
use wslay.Event.Recv.{OnMsgRecvArg, RecvCallbacks, imsg, begin_frame}
use wslay.Event.Chunks.{concat}
use wslay.Event.View.{view, pick, IsObserver, text_state}
use wslay.Event.Pieces.{Slot, IsPlace}
use wslay.Event.Finish.{IsBetween, IsBlank, IsReset, IsOver, passed, finish_frame-IsBetween}
use wslay.Event.Deliver.{finish_frame-passed}
use wslay.Event.Start.{Begins, begin-control}
use wslay.Event.Cuts.{piece, frame_iocbs, receive_all, frame-InFrame}
use wslay.Event.Script.{IsControl, unchecked, IsFrameCut, accept-ne_reject}

module _ {W : Type 0} (on : RecvCallbacks W) (log : User W → List OnMsgRecvArg)
    (obs : IsObserver on log) where
  -- A frame that ends a message of the given place.
  pub last_frame :
      (k : Slot) (op opcode : ℕ) (m : List ℕ) (ps : List (List ℕ)) (ctx : EventContext W)
      → bit_and k.config config_no_buffering ≡ 0
      → (op == connection_close) ≡ false
      → (op == 0xff) ≡ false
      → ((op == ping) ≡ true → length (m ++ concat ps) ≤ 125)
      → IsFrameCut ps
      → k.max < 2 ^ 64
      → length (m ++ concat ps) ≤ k.max
      → text_state op (m ++ concat ps) ≡ utf8_accept
      → k.server ≡ ctx.server
      → ((p : List ℕ)
          → (c : EventContext W) × (begin_frame (piece 1 opcode (length (concat ps)) k.server p) ctx
              ≡ some (true, c))
            × Begins on log obs k op m 1 c
            × (c.user ≡ ctx.user))
      → (c : EventContext W) × (receive_all on (frame_iocbs 1 opcode k.server ps) ctx ≡ again c)
        × IsOver k (view c)
        × (log c.user ≡ log ctx.user ++ passed op (m ++ concat ps) ∷ [])
  last_frame k op opcode m ps ctx keep not_close used short cut max fits accepts role begins =
      let n = length (concat ps) in
      let (iocb, t, e, v, same) =
        frame-InFrame on log obs k op m n keep
          (omega (arith, fits, length-append m (concat ps), max)) not_close used 1 opcode ps ctx
          cut.0 refl cut.1 (accept-ne_reject accepts) max
          (omega (arith, fits, length-append m (concat ps))) role begins in
      let (c, f, over, told) =
        finish_frame-passed on log obs k op m n iocb (concat ps) t keep not_close short refl accepts
          v in
      (c, e ∙ f, over, told ∙ ap (λ x. x ++ passed op (m ++ concat ps) ∷ []) same)

  -- A frame that does not.
  pub inner_frame :
      (k : Slot) (op opcode : ℕ) (m : List ℕ) (ps : List (List ℕ)) (ctx : EventContext W)
      → bit_and k.config config_no_buffering ≡ 0
      → (op == connection_close) ≡ false
      → (op == 0xff) ≡ false
      → IsFrameCut ps
      → k.max < 2 ^ 64
      → length (m ++ concat ps) ≤ k.max
      → text_state op (m ++ concat ps) ≢ utf8_reject
      → k.server ≡ ctx.server
      → ((p : List ℕ)
          → (c : EventContext W) × (begin_frame (piece 0 opcode (length (concat ps)) k.server p) ctx
              ≡ some (true, c))
            × Begins on log obs k op m 0 c
            × (c.user ≡ ctx.user))
      → (c : EventContext W) × (receive_all on (frame_iocbs 0 opcode k.server ps) ctx ≡ again c)
        × IsBetween op (m ++ concat ps) (imsg c)
        × IsPlace k 0 0 (view c)
        × (log c.user ≡ log ctx.user)
  inner_frame k op opcode m ps ctx keep not_close used cut max fits alive role begins =
      let n = length (concat ps) in
      let (iocb, t, e, v, same) =
        frame-InFrame on log obs k op m n keep
          (omega (arith, fits, length-append m (concat ps), max)) not_close used 0 opcode ps ctx
          cut.0 refl cut.1 alive max (omega (arith, fits, length-append m (concat ps))) role
          begins in
      let (c, f, between, place, told) =
        finish_frame-IsBetween on log obs k op m n iocb (concat ps) t refl v in
      (c, e ∙ f, between, place, told ∙ same)

  -- A control message between two frames leaves the message that it comes in.
  pub control_inside :
      (k : Slot) (op : ℕ) (m : List ℕ) (o : ℕ) (ps : List (List ℕ)) (ctx : EventContext W)
      → bit_and k.config config_no_buffering ≡ 0
      → k.max < 2 ^ 64
      → (op == 0xff) ≡ false
      → IsControl o
      → k.second ≡ false
      → IsBlank k.other
      → IsFrameCut ps
      → length (concat ps) ≤ 125
      → length (concat ps) ≤ k.max
      → IsBetween op m (imsg ctx)
      → IsPlace k 0 0 (view ctx)
      → (c : EventContext W) × (receive_all on (frame_iocbs 1 o k.server ps) ctx ≡ again c)
        × IsBetween op m (imsg c)
        × IsReset c.imsgs.1
        × IsPlace (record k { other = c.imsgs.1 }) 0 0 (view c)
        × (log c.user ≡ log ctx.user ++ passed o (concat ps) ∷ [])
  control_inside k op m o ps ctx keep max used q slot blank cut short fits between place =
      let k2 : Slot = record {
        config = k.config;
        max = k.max;
        server = k.server;
        second = true;
        other = imsg ctx;
      } in
      let (c, e, over, told) =
        last_frame k2 o o [] ps ctx keep q.not_close q.used (λ _. short) cut max fits
          (unchecked o (concat ps) q.not_text) (sym place.server)
          (λ p.
            begin-control on log obs k op m (piece 1 o (length (concat ps)) k.server p) ctx used
              q.kind q.not_next refl slot blank between place) in
      let kept : imsg c ≡ imsg ctx = ap (λ b. pick b c.imsgs) over.first ∙ over.other in
      (
        c,
        e,
        subst (IsBetween op m) (sym kept) between,
        over.reset,
        record {
          config = over.config;
          max = over.max;
          server = over.server;
          second = over.first ∙ sym slot;
          other = ap (λ b. pick (not b) c.imsgs) over.first;
          len = over.len;
          off = over.off;
        },
        told,
      )
