-- ===== src/Event/Bounds/Chosen.antt =====
-- The bounds through the choice of the next message.
use wslay.Prelude.{
  ◌≤◌, ◌≡◌, refl, sym, subst, ◌∙◌, true, Bool-cases, inl, inr, Option, none, some, List, [], ◌∷◌,
  All, arith,
}
use wslay.Event.Context.{MsgType, non_fragmented, fragmented, Omsg, EventContext}
use wslay.Event.Send.{
  on_non_fragmented_msg_popped, take_up, take_ctrl, take_ctrl_first, send_ctrl_queue_pop,
  choose_new, interrupts, choose_from, choose,
}
use wslay.Event.Counts.{OmsgAll, ctrl_pop-Pops}
use wslay.Event.Bounds.{IsCtrl, IsData, IsEither, Stored, InBounds}

pub fragmented-ne : {A : Type 0} → fragmented ≡ non_fragmented → A
fragmented-ne e = absurd (cc e)

module _ {W : Type 0} where
  popped-InBounds :
      (m : Omsg W) (ctx : EventContext W)
      → IsEither m
      → Stored ctx
      → InBounds (on_non_fragmented_msg_popped m ctx)
  unfolding on_non_fragmented_msg_popped
  popped-InBounds m ctx h st = (st, record { within = omega arith; msg = h; sized = λ e. refl })

  take_up-InBounds :
      (t : MsgType) (m : Omsg W) (ctx : EventContext W)
      → m.type ≡ t
      → IsEither m
      → Stored ctx
      → ctx.opayloadoff ≤ ctx.opayloadlen
      → InBounds (take_up t m ctx)
  unfolding take_up
  take_up-InBounds non_fragmented m ctx e h st le = popped-InBounds m ctx h st
  take_up-InBounds fragmented m ctx e h st le =
      (st, record { within = le; msg = h; sized = λ k. fragmented-ne (sym e ∙ k) })

  take_ctrl-InBounds :
      (o : Option (Omsg W)) (ctx : EventContext W)
      → OmsgAll IsCtrl o
      → Stored ctx
      → ctx.opayloadoff ≤ ctx.opayloadlen
      → InBounds (take_ctrl o ctx).1
  unfolding take_ctrl
  take_ctrl-InBounds none ctx h st le = (st, record { within = le; msg = tt; sized = tt })
  take_ctrl-InBounds (some m) ctx h st le = take_up-InBounds m.type m ctx refl (inl h) st le

  take_ctrl_first-InBounds :
      (o : Option (Omsg W)) (ctx : EventContext W)
      → OmsgAll IsCtrl o
      → Stored ctx
      → ctx.opayloadoff ≤ ctx.opayloadlen
      → InBounds (take_ctrl_first o ctx).1
  unfolding take_ctrl_first
  take_ctrl_first-InBounds none ctx h st le = (st, record { within = le; msg = tt; sized = tt })
  take_ctrl_first-InBounds (some m) ctx h st le = popped-InBounds m ctx (inl h) st

  -- A pop of the control queue leaves control messages in it, and returns one.
  pop-Stored :
      (ctx : EventContext W)
      → Stored ctx
      → Stored (send_ctrl_queue_pop ctx).1 × OmsgAll IsCtrl (send_ctrl_queue_pop ctx).0
  unfolding send_ctrl_queue_pop
  pop-Stored ctx st =
      let (rest, first) = (ctrl_pop-Pops ctx).keeps IsCtrl st.ctrl in
      (
        record {
          ctrl = rest;
          plain = st.plain;
          marked = st.marked;
          limited = st.limited;
          size = st.size;
        },
        first,
      )

  choose_new-InBounds :
      (cs ms : List (Omsg W)) (ctx : EventContext W)
      → ctx.send_queue ≡ ms
      → InBounds ctx
      → InBounds (choose_new cs ms ctx).1
  unfolding choose_new send_ctrl_queue_pop
  choose_new-InBounds [] [] ctx e h = h
  choose_new-InBounds [] (m ∷ ms) ctx e (st, way) =
      let queue = subst (All IsData) e st.plain in
      take_up-InBounds m.type m (record ctx { send_queue = ms }) refl (inr queue.0)
        (record {
          ctrl = st.ctrl;
          plain = queue.1;
          marked = st.marked;
          limited = st.limited;
          size = st.size;
        })
        way.within
  choose_new-InBounds (c ∷ cs) ms ctx e (st, way) =
      let (st', first) = pop-Stored ctx st in
      take_ctrl-InBounds (send_ctrl_queue_pop ctx).0 (send_ctrl_queue_pop ctx).1 first st'
        way.within

  -- A message that gives way to a control message is not one.
  interrupts-IsData :
      (m : Omsg W) (ctx : EventContext W) → interrupts m ctx ≡ true → IsEither m → IsData m
  unfolding interrupts
  interrupts-IsData m ctx now (inr h) = h
  interrupts-IsData m ctx now (inl h) = absurd (ground (arith, now, h.0))

  choose_from-InBounds :
      (o : Option (Omsg W)) (ctx : EventContext W)
      → ctx.omsg ≡ o
      → InBounds ctx
      → InBounds (choose_from o ctx).1
  unfolding choose_from send_ctrl_queue_pop
  choose_from-InBounds none ctx e h =
      choose_new-InBounds ctx.send_ctrl_queue ctx.send_queue ctx refl h
  choose_from-InBounds (some m) ctx e (st, way) = elim (Bool-cases (interrupts m ctx)) [
    | inl now ↦ rw now (
        let back = record ctx { send_queue = m ∷ ctx.send_queue } in
        let (st', first) = pop-Stored back (record {
          ctrl = st.ctrl;
          plain = (interrupts-IsData m ctx now (subst (OmsgAll IsEither) e way.msg), st.plain);
          marked = st.marked;
          limited = st.limited;
          size = st.size;
        }) in
        take_ctrl_first-InBounds (send_ctrl_queue_pop back).0 (send_ctrl_queue_pop back).1 first st'
          way.within)
    | inr later ↦ rw later (st, way)
  ]

  pub choose-InBounds : (ctx : EventContext W) → InBounds ctx → InBounds (choose ctx).1
  unfolding choose
  choose-InBounds ctx h = choose_from-InBounds ctx.omsg ctx refl h
