-- ===== src/Event/Priority.antt =====
-- Which message `wslay_event_send` takes up when control messages wait.
use wslay.Prelude.{
  ◌≡◌, refl, sym, ap, subst, ◌∙◌, ◌⊎◌, inl, inr, Bool, true, false, ◌==◌, Bool-cases, if◌then◌else◌,
  Option, none, some, List, [], ◌∷◌, arith, bit_and,
}
use wslay.Protocol.{connection_close, is_ctrl_frame}
use wslay.Event.Context.{MsgType, non_fragmented, fragmented, Omsg, EventContext, close_queued}
use wslay.Event.Send.{
  drop_to_close, pop_first, send_ctrl_queue_pop, on_non_fragmented_msg_popped, take_up, take_ctrl,
  take_ctrl_first, choose_new, interrupts, choose_from, choose, is_prep_header, is_empty,
}

module _ {W : Type 0} where
  -- No frame is under way: there is no message, or a data message is between two of its frames.
  abbrev pub IsBetween : EventContext W → Type 0
  IsBetween ctx =
      (ctx.omsg ≡ none)
      ⊎ ((m : Omsg W) × (ctx.omsg ≡ some m)
          × (is_ctrl_frame m.opcode ≡ false)
          × (is_prep_header ctx.frame_ctx.output.ostate ≡ true))

  -- The data messages in the order in which they are sent, the one under way first.
  abbrev pub line_of : Option (Omsg W) → List (Omsg W) → List (Omsg W)
  line_of none ms = ms
  line_of (some m) ms = m ∷ ms

  abbrev pub data_line : EventContext W → List (Omsg W)
  data_line ctx = line_of ctx.omsg ctx.send_queue

  -- The control messages from a close frame on.
  abbrev pub from_close : List (Omsg W) → List (Omsg W)
  from_close [] = []
  from_close (m ∷ ms) = if m.opcode == connection_close then m ∷ ms else from_close ms

  -- The control messages that may still be sent.
  abbrev pub ctrl_line : EventContext W → List (Omsg W)
  ctrl_line ctx =
      if bit_and ctx.close_status close_queued == 0
      then ctx.send_ctrl_queue
      else from_close ctx.send_ctrl_queue

  -- The first of `line` is taken up, and the others wait; the loop ends if there is none.
  abbrev pub Takes : List (Omsg W) → Bool × EventContext W → Type 0
  Takes [] (going, ctx) = (going ≡ false) × (ctx.omsg ≡ none) × (ctx.send_ctrl_queue ≡ [])
  Takes (c ∷ cs) (going, ctx) =
      (going ≡ true)
      × ((m : Omsg W) × (ctx.omsg ≡ some m) × (m.opcode ≡ c.opcode) × (m.bytes ≡ c.bytes))
      × (ctx.send_ctrl_queue ≡ cs)

  -- A control message is taken up, and no data message is lost or overtaken.
  pub record TakesCtrl (before : EventContext W) (after : Bool × EventContext W) : Type 0 where
    pub ctrl : Takes (ctrl_line before) after
    pub behind : after.1.send_queue ≡ data_line before

  -- What a pop of the control queue returns and leaves.
  abbrev PopsLine : List (Omsg W) → Option (Omsg W) → List (Omsg W) → Type 0
  PopsLine [] o q = (o ≡ none) × (q ≡ [])
  PopsLine (c ∷ cs) o q = (o ≡ some c) × (q ≡ cs)

  pop_first-PopsLine : (cs : List (Omsg W)) → PopsLine cs (pop_first cs).0 (pop_first cs).1
  unfolding pop_first
  pop_first-PopsLine [] = (refl, refl)
  pop_first-PopsLine (m ∷ ms) = (refl, refl)

  drop_to_close-PopsLine :
      (cs : List (Omsg W)) → PopsLine (from_close cs) (drop_to_close cs).0 (drop_to_close cs).1
  unfolding drop_to_close
  drop_to_close-PopsLine [] = (refl, refl)
  drop_to_close-PopsLine (m ∷ ms) = elim (Bool-cases (m.opcode == connection_close)) [
    | inl close ↦ rw close (refl, refl)
    | inr other ↦ rw other (drop_to_close-PopsLine ms)
  ]

  ctrl_pop-PopsLine :
      (ctx : EventContext W)
      → PopsLine
          (ctrl_line ctx)
          (send_ctrl_queue_pop ctx).0
          (send_ctrl_queue_pop ctx).1.send_ctrl_queue
  unfolding send_ctrl_queue_pop
  ctrl_pop-PopsLine ctx = elim (Bool-cases (bit_and ctx.close_status close_queued == 0)) [
    | inl before ↦ rw before (pop_first-PopsLine ctx.send_ctrl_queue)
    | inr closing ↦ rw closing (drop_to_close-PopsLine ctx.send_ctrl_queue)
  ]

  take_up-Takes :
      (t : MsgType) (c : Omsg W) (cs : List (Omsg W)) (ctx : EventContext W)
      → ctx.send_ctrl_queue ≡ cs
      → Takes (c ∷ cs) (true, take_up t c ctx) × ((take_up t c ctx).send_queue ≡ ctx.send_queue)
  unfolding take_up on_non_fragmented_msg_popped
  take_up-Takes non_fragmented c cs ctx e =
      ((refl, (record c { fin = 1 }, refl, refl, refl), e), refl)
  take_up-Takes fragmented c cs ctx e = ((refl, (c, refl, refl, refl), e), refl)

  -- A popped message is taken up, in either branch.
  abbrev Taken : List (Omsg W) → EventContext W → Bool × EventContext W → Type 0
  Taken line ctx after = Takes line after × (after.1.send_queue ≡ ctx.send_queue)

  take_ctrl-Taken :
      (line : List (Omsg W)) (o : Option (Omsg W)) (ctx : EventContext W)
      → PopsLine line o ctx.send_ctrl_queue
      → Taken line ctx (take_ctrl o ctx)
  unfolding take_ctrl
  take_ctrl-Taken [] none ctx h = ((refl, refl, h.1), refl)
  take_ctrl-Taken [] (some m) ctx h = absurd (ground (arith, h.0))
  take_ctrl-Taken (c ∷ cs) o ctx h =
      subst (λ p. Taken (c ∷ cs) ctx (take_ctrl p ctx)) (sym h.0)
        (take_up-Takes c.type c cs ctx h.1)

  take_ctrl_first-Taken :
      (line : List (Omsg W)) (o : Option (Omsg W)) (ctx : EventContext W)
      → PopsLine line o ctx.send_ctrl_queue
      → Taken line ctx (take_ctrl_first o ctx)
  unfolding take_ctrl_first on_non_fragmented_msg_popped
  take_ctrl_first-Taken [] none ctx h = ((refl, refl, h.1), refl)
  take_ctrl_first-Taken [] (some m) ctx h = absurd (ground (arith, h.0))
  take_ctrl_first-Taken (c ∷ cs) o ctx h =
      subst (λ p. Taken (c ∷ cs) ctx (take_ctrl_first p ctx)) (sym h.0)
        ((refl, (record c { fin = 1 }, refl, refl, refl), h.1), refl)

  popped_queue : (ctx : EventContext W) → (send_ctrl_queue_pop ctx).1.send_queue ≡ ctx.send_queue
  unfolding send_ctrl_queue_pop
  popped_queue ctx = refl

  choose_new-Taken :
      (cs ms : List (Omsg W)) (ctx : EventContext W)
      → is_empty cs ≡ false
      → Taken (ctrl_line ctx) ctx (choose_new cs ms ctx)
  unfolding choose_new
  choose_new-Taken [] ms ctx h = absurd (ground (arith, h))
  choose_new-Taken (c ∷ cs) ms ctx h =
      let taken =
        take_ctrl-Taken (ctrl_line ctx) (send_ctrl_queue_pop ctx).0 (send_ctrl_queue_pop ctx).1
          (ctrl_pop-PopsLine ctx) in
      (taken.0, taken.1 ∙ popped_queue ctx)

  -- With control messages waiting and no frame under way, a round takes up the first of them, or
  -- the first close frame once one is queued, and drops what is before it; the data messages all
  -- wait, the one that was under way in front.
  pub choose-TakesCtrl :
      (ctx : EventContext W)
      → IsBetween ctx
      → is_empty ctx.send_ctrl_queue ≡ false
      → TakesCtrl ctx (choose ctx)
  unfolding choose choose_from interrupts
  choose-TakesCtrl ctx (inl e) some_ctrl =
      let taken = choose_new-Taken ctx.send_ctrl_queue ctx.send_queue ctx some_ctrl in
      record {
        ctrl = subst (λ o. Takes (ctrl_line ctx) (choose_from o ctx)) (sym e) taken.0;
        behind =
            ap (λ o. (choose_from o ctx).1.send_queue) e
            ∙ taken.1
            ∙ sym (ap (λ o. line_of o ctx.send_queue) e);
      }
  choose-TakesCtrl ctx (inr (m, e, plain, between)) some_ctrl =
      let back = record ctx { send_queue = m ∷ ctx.send_queue } in
      let (next, ctx') = send_ctrl_queue_pop back in
      let taken = take_ctrl_first-Taken (ctrl_line ctx) next ctx' (ctrl_pop-PopsLine back) in
      let now : interrupts m ctx ≡ true = rw (plain, between, some_ctrl) refl in
      let chosen : choose_from ctx.omsg ctx ≡ take_ctrl_first next ctx' =
        ap (λ o. choose_from o ctx) e
        ∙ ap (λ b. if b then take_ctrl_first next ctx' else (true, ctx)) now in
      record {
        ctrl = subst (Takes (ctrl_line ctx)) (sym chosen) taken.0;
        behind =
            ap (λ p. p.1.send_queue) chosen
            ∙ taken.1
            ∙ popped_queue back
            ∙ sym (ap (λ o. line_of o ctx.send_queue) e);
      }
