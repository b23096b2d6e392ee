-- ===== src/Event/Counts.antt =====
-- How many messages the context holds, through the choice of the next one.
use wslay.Prelude.{
  ℕ, ◌+◌, ◌≤◌, ◌<◌, ◌≡◌, refl, sym, ap, subst, Bool, true, false, not, ◌&&◌, ◌||◌, ◌==◌, Bool-cases,
  inl, inr, Option, none, some, List, [], ◌∷◌, length, All, arith, bit_and,
}
use wslay.Protocol.{connection_close}
use wslay.Event.Context.{MsgType, non_fragmented, fragmented, Omsg, EventContext, close_queued}
use wslay.Event.Send.{
  drop_to_close, pop_first, send_ctrl_queue_pop, on_non_fragmented_msg_popped, take_up, take_ctrl,
  take_ctrl_first, choose_new, interrupts, choose_from, choose, want_to_write, is_empty, is_some,
}

module _ {W : Type 0} where
  abbrev pub held_omsg : Option (Omsg W) → ℕ
  held_omsg none = 0
  held_omsg (some m) = 1

  -- The messages in the two queues and the one that is sent.
  abbrev pub held : EventContext W → ℕ
  held ctx = length ctx.send_queue + length ctx.send_ctrl_queue + held_omsg ctx.omsg

  abbrev pub IsWholeMsg : Omsg W → Type 0
  IsWholeMsg m = m.type ≡ non_fragmented

  -- What holds of the message, if there is one.
  abbrev pub OmsgAll : (Omsg W → Type 0) → Option (Omsg W) → Type 0
  OmsgAll P none = Unit
  OmsgAll P (some m) = P m

  abbrev pub IsWholeOmsg : Option (Omsg W) → Type 0
  IsWholeOmsg o = OmsgAll IsWholeMsg o

  -- No message has fragments.
  pub record IsWhole (ctx : EventContext W) : Type 0 where
    pub queue : All IsWholeMsg ctx.send_queue
    pub ctrl : All IsWholeMsg ctx.send_ctrl_queue
    pub omsg : IsWholeOmsg ctx.omsg

  -- What a pop of the control queue leaves: no more messages than there were, and those it had.
  pub record Pops (cs : List (Omsg W)) (r : Option (Omsg W) × List (Omsg W)) : Type 1 where
    pub fewer : length r.1 + held_omsg r.0 ≤ length cs
    pub keeps : (P : Omsg W → Type 0) → All P cs → All P r.1 × OmsgAll P r.0

  pop_first-Pops : (cs : List (Omsg W)) → Pops cs (pop_first cs)
  unfolding pop_first
  pop_first-Pops [] = record { fewer = omega arith; keeps = λ P h. (h, tt) }
  pop_first-Pops (m ∷ ms) = record { fewer = omega arith; keeps = λ P h. (h.1, h.0) }

  drop_to_close-Pops : (cs : List (Omsg W)) → Pops cs (drop_to_close cs)
  unfolding drop_to_close
  drop_to_close-Pops [] = record { fewer = omega arith; keeps = λ P h. (h, tt) }
  drop_to_close-Pops (m ∷ ms) =
      let ih = drop_to_close-Pops ms in
      elim (Bool-cases (m.opcode == connection_close)) [
        | inl close ↦ rw close (record { fewer = omega arith; keeps = λ P h. (h.1, h.0) })
        | inr other ↦
            rw other (record { fewer = omega (arith, ih.fewer); keeps = λ P h. ih.keeps P h.1 })
      ]

  pub ctrl_pop-Pops :
      (ctx : EventContext W)
      → Pops ctx.send_ctrl_queue
          ((send_ctrl_queue_pop ctx).0, (send_ctrl_queue_pop ctx).1.send_ctrl_queue)
  unfolding send_ctrl_queue_pop
  ctrl_pop-Pops ctx = elim (Bool-cases (bit_and ctx.close_status close_queued == 0)) [
    | inl before ↦ rw before (pop_first-Pops ctx.send_ctrl_queue)
    | inr closing ↦ rw closing (drop_to_close-Pops ctx.send_ctrl_queue)
  ]

  -- Whatever is chosen, no message is added, and the count of the queued messages stays.
  pub record Keeps (before : ℕ) (count : ℕ) (whole : Type 0) (ctx : EventContext W) : Type 0 where
    pub fewer : held ctx ≤ before
    pub count_same : ctx.queued_msg_count ≡ count
    pub still_whole : whole → IsWhole ctx

  Keeps-mono :
      {a b n : ℕ} {P Q : Type 0} {ctx : EventContext W}
      → Keeps a n P ctx
      → a ≤ b
      → (Q → P)
      → Keeps b n Q ctx
  Keeps-mono k le f = record {
    fewer = omega (arith, k.fewer, le);
    count_same = k.count_same;
    still_whole = λ q. k.still_whole (f q);
  }

  -- A message `o` is on its way from a queue to the field `omsg`.
  abbrev Moving : Option (Omsg W) → EventContext W → EventContext W → Type 0
  Moving o ctx after =
      Keeps (length ctx.send_queue + length ctx.send_ctrl_queue + held_omsg o) ctx.queued_msg_count
        (All IsWholeMsg ctx.send_queue × All IsWholeMsg ctx.send_ctrl_queue × IsWholeOmsg o) after

  take_up-Keeps :
      (t : MsgType) (m : Omsg W) (ctx : EventContext W) → Moving (some m) ctx (take_up t m ctx)
  unfolding take_up on_non_fragmented_msg_popped
  take_up-Keeps non_fragmented m ctx = record {
    fewer = omega arith;
    count_same = refl;
    still_whole = λ h. record { queue = h.0; ctrl = h.1; omsg = h.2 };
  }
  take_up-Keeps fragmented m ctx = record {
    fewer = omega arith;
    count_same = refl;
    still_whole = λ h. record { queue = h.0; ctrl = h.1; omsg = h.2 };
  }

  take_ctrl-Keeps : (o : Option (Omsg W)) (ctx : EventContext W) → Moving o ctx (take_ctrl o ctx).1
  unfolding take_ctrl
  take_ctrl-Keeps none ctx = record {
    fewer = omega arith;
    count_same = refl;
    still_whole = λ h. record { queue = h.0; ctrl = h.1; omsg = tt };
  }
  take_ctrl-Keeps (some m) ctx = take_up-Keeps m.type m ctx

  take_ctrl_first-Keeps :
      (o : Option (Omsg W)) (ctx : EventContext W) → Moving o ctx (take_ctrl_first o ctx).1
  unfolding take_ctrl_first on_non_fragmented_msg_popped
  take_ctrl_first-Keeps none ctx = record {
    fewer = omega arith;
    count_same = refl;
    still_whole = λ h. record { queue = h.0; ctrl = h.1; omsg = tt };
  }
  take_ctrl_first-Keeps (some m) ctx = record {
    fewer = omega arith;
    count_same = refl;
    still_whole = λ h. record { queue = h.0; ctrl = h.1; omsg = h.2 };
  }

  choose_new-Keeps :
      (cs ms : List (Omsg W)) (ctx : EventContext W)
      → ctx.send_ctrl_queue ≡ cs
      → ctx.send_queue ≡ ms
      → ctx.omsg ≡ none
      → Moving none ctx (choose_new cs ms ctx).1
  unfolding choose_new send_ctrl_queue_pop
  choose_new-Keeps [] [] ctx c q e = record {
    fewer = omega (arith, ap held_omsg e);
    count_same = refl;
    still_whole = λ h. record { queue = h.0; ctrl = h.1; omsg = subst IsWholeOmsg (sym e) tt };
  }
  choose_new-Keeps [] (m ∷ ms) ctx c q e =
      Keeps-mono (take_up-Keeps m.type m (record ctx { send_queue = ms }))
        (omega (arith, ap length q)) (λ h. let k = subst (All IsWholeMsg) q h.0 in (k.1, h.1, k.0))
  choose_new-Keeps (x ∷ cs) ms ctx c q e =
      let v = ctrl_pop-Pops ctx in
      Keeps-mono (take_ctrl-Keeps (send_ctrl_queue_pop ctx).0 (send_ctrl_queue_pop ctx).1)
        (omega (arith, v.fewer))
        (λ h. (h.0, (v.keeps IsWholeMsg h.1).0, (v.keeps IsWholeMsg h.1).1))

  choose_from-Keeps :
      (o : Option (Omsg W)) (ctx : EventContext W)
      → ctx.omsg ≡ o
      → Moving o ctx (choose_from o ctx).1
  unfolding choose_from
  choose_from-Keeps none ctx e = choose_new-Keeps ctx.send_ctrl_queue ctx.send_queue ctx refl refl e
  choose_from-Keeps (some m) ctx e =
      let back = record ctx { send_queue = m ∷ ctx.send_queue } in
      let v = ctrl_pop-Pops back in
      elim (Bool-cases (interrupts m ctx)) [
        | inl now ↦ rw now (
            Keeps-mono
              (take_ctrl_first-Keeps (send_ctrl_queue_pop back).0 (send_ctrl_queue_pop back).1)
              (omega (arith, v.fewer))
              (λ h. ((h.2, h.0), (v.keeps IsWholeMsg h.1).0, (v.keeps IsWholeMsg h.1).1)))
        | inr later ↦ rw later (record {
          fewer = omega (arith, ap held_omsg e);
          count_same = refl;
          still_whole =
              λ h. record { queue = h.0; ctrl = h.1; omsg = subst IsWholeOmsg (sym e) h.2 };
        })
      ]

  -- The choice of a message adds none, leaves the count, and brings in no fragments.
  pub choose-Keeps :
      (ctx : EventContext W) → Keeps (held ctx) ctx.queued_msg_count (IsWhole ctx) (choose ctx).1
  unfolding choose
  choose-Keeps ctx =
      Keeps-mono (choose_from-Keeps ctx.omsg ctx refl) (omega arith)
        (λ w. (w.queue, w.ctrl, w.omsg))

  pub want_to_write-held : (ctx : EventContext W) → want_to_write ctx ≡ true → 0 < held ctx
  unfolding want_to_write
  want_to_write-held ctx h =
      by_parts ctx.send_queue ctx.send_ctrl_queue ctx.omsg ctx.write_enabled h
    where
      by_parts :
          (ms cs : List (Omsg W)) (o : Option (Omsg W)) (w : Bool)
          → (w && (not (is_empty ms) || not (is_empty cs) || is_some o)) ≡ true
          → 0 < length ms + length cs + held_omsg o
      by_parts (m ∷ ms) cs o w k = omega arith
      by_parts [] (c ∷ cs) o w k = omega arith
      by_parts [] [] (some m) w k = omega arith
      by_parts [] [] none true k = absurd (ground arith)
      by_parts [] [] none false k = absurd (ground arith)
