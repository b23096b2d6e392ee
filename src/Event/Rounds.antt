-- ===== src/Event/Rounds.antt =====
-- The loop of `wslay_event_send` ends when no message has fragments: every round that goes on has
-- sent a message.
use wslay.Prelude.{
  ℕ, zero, suc, ◌+◌, ◌-◌, ◌≤◌, ◌<◌, ◌≡◌, refl, sym, ap, subst, ◌==◌, Bool-cases, inl, inr, Option,
  none, some, length, slice, arith, ℤ, pos,
}
use wslay.Protocol.{connection_close}
use wslay.Frame.Bytes.{add64}
use wslay.Frame.Context.{SendContext, Outcome, ok, err, At}
use wslay.Frame.Send.{frame_send}
use wslay.Event.Context.{User, Omsg, EventCallbacks, EventContext, frame_callbacks}
use wslay.Event.Send.{Round, again, returns, choose, want_to_write}
use wslay.Event.SendLoop.{
  with_frame, at_frame, make_iocb, msg_sent, after_whole, send_whole, send_msg, send_chosen,
  after_round, round, event_send,
}
use wslay.Event.Closing.{OnAgain, send_failed-again}
use wslay.Event.Counts.{
  held, held_omsg, IsWhole, IsWholeMsg, IsWholeOmsg, choose-Keeps, want_to_write-held,
}

module _ {W : Type 0} where
  -- The messages in the queues alone.
  abbrev queued : EventContext W → ℕ
  queued ctx = length ctx.send_queue + length ctx.send_ctrl_queue

  -- A message is gone, and the others have no fragments.
  abbrev Sent : ℕ → EventContext W → Type 0
  Sent n ctx = (held ctx ≤ n) × IsWhole ctx

  msg_sent-Sent :
      (m : Omsg W) (ctx : EventContext W) → IsWhole ctx → Sent (queued ctx) (msg_sent m ctx)
  unfolding msg_sent
  msg_sent-Sent m ctx w = elim (Bool-cases (m.opcode == connection_close)) [
    | inl close ↦ rw close (omega arith, record { queue = w.queue; ctrl = w.ctrl; omsg = tt })
    | inr other ↦ rw other (omega arith, record { queue = w.queue; ctrl = w.ctrl; omsg = tt })
  ]

  after_whole-Sent :
      (m : Omsg W) (ctx : EventContext W) (o : Outcome (At SendContext (User W)) ℕ)
      → IsWhole ctx
      → OnAgain (Sent (queued ctx)) (after_whole m ctx o)
  unfolding after_whole with_frame
  after_whole-Sent m ctx (ok n s) w =
      let ctx' = record (with_frame ctx s) { opayloadoff = add64 ctx.opayloadoff n } in
      elim (Bool-cases (ctx'.opayloadoff == ctx'.opayloadlen)) [
        | inl all_sent ↦
            rw all_sent
              (msg_sent-Sent m ctx' (record { queue = w.queue; ctrl = w.ctrl; omsg = w.omsg }))
        | inr more ↦ rw more tt
      ]
  after_whole-Sent m ctx (err e s) w = send_failed-again (Sent (queued ctx)) e (with_frame ctx s)

  -- The rounds were enough, and the function returned.
  pub record Returned (o : Option (ℤ × EventContext W)) : Type 0 where
    pub result : ℤ
    pub after : EventContext W
    pub is : o ≡ some (result, after)

  module _ (cb : EventCallbacks W) where
    send_chosen-Sent :
        (o : Option (Omsg W)) (ctx : EventContext W)
        → ctx.omsg ≡ o
        → IsWhole ctx
        → OnAgain (λ c. (held c < held ctx) × IsWhole c) (send_chosen cb o ctx)
    unfolding send_chosen send_msg send_whole
    send_chosen-Sent none ctx e w = tt
    send_chosen-Sent (some m) ctx e w =
        let payload = slice ctx.opayloadoff (ctx.opayloadlen - ctx.opayloadoff) m.bytes in
        let whole : IsWholeMsg m = subst IsWholeOmsg e w.omsg in
        subst (λ t. OnAgain (λ c. (held c < held ctx) × IsWhole c) (send_msg cb t m ctx))
          (sym whole)
          (closer ctx (omega (arith, ap held_omsg e))
            (after_whole m ctx
              (frame_send (frame_callbacks cb) (make_iocb m ctx payload 1) (at_frame ctx)))
            (after_whole-Sent m ctx
              (frame_send (frame_callbacks cb) (make_iocb m ctx payload 1) (at_frame ctx)) w))
      where
        closer :
            (c : EventContext W)
            → queued c < held c
            → (r : Round W) → OnAgain (Sent (queued c)) r
            → OnAgain (λ d. (held d < held c) × IsWhole d) r
        closer c lt (again d) h = (omega (arith, h.0, lt), h.1)
        closer c lt (returns n d) h = tt

    pub round-Sent :
        (ctx : EventContext W)
        → IsWhole ctx
        → OnAgain (λ c. (held c < held ctx) × IsWhole c) (round cb ctx)
    unfolding round
    round-Sent ctx w =
        let k = choose-Keeps ctx in
        let chosen = (choose ctx).1 in
        elim (Bool-cases (choose ctx).0) [
          | inl going ↦ rw going (
              further (held chosen) (held ctx) k.fewer (send_chosen cb chosen.omsg chosen)
                (send_chosen-Sent chosen.omsg chosen refl (k.still_whole w)))
          | inr stop ↦ rw stop tt
        ]
      where
        further :
            (a b : ℕ)
            → a ≤ b
            → (r : Round W) → OnAgain (λ d. (held d < a) × IsWhole d) r
            → OnAgain (λ d. (held d < b) × IsWhole d) r
        further a b le (again d) h = (omega (arith, h.0, le), h.1)
        further a b le (returns n d) h = tt

    after_round-Returned :
        (next : EventContext W → Option (ℤ × EventContext W)) (P : EventContext W → Type 0)
        → ((c : EventContext W) → P c → Returned (next c))
        → (r : Round W) → OnAgain P r
        → Returned (after_round next r)
    unfolding after_round
    after_round-Returned next P ih (again c) h = ih c h
    after_round-Returned next P ih (returns n c) h = record { result = n; after = c; is = refl }

    -- `wslay_event_send` returns: when no message has fragments, its loop makes at most one round for
    -- each message that the context holds.
    pub event_send-Returned :
        (rounds : ℕ) (ctx : EventContext W)
        → IsWhole ctx
        → held ctx ≤ rounds
        → Returned (event_send cb rounds ctx)
    unfolding event_send
    event_send-Returned zero ctx w le = elim (Bool-cases (want_to_write ctx)) [
      | inl more ↦ absurd (omega (arith, want_to_write-held ctx more, le))
      | inr idle ↦ rw idle (record { result = pos 0; after = ctx; is = refl })
    ]
    event_send-Returned (suc rounds) ctx w le = elim (Bool-cases (want_to_write ctx)) [
      | inl more ↦ rw more (
          after_round-Returned (event_send cb rounds) (λ c. (held c < held ctx) × IsWhole c)
            (λ c h. event_send-Returned rounds c h.1 (omega (arith, h.0, le))) (round cb ctx)
            (round-Sent ctx w))
      | inr idle ↦ rw idle (record { result = pos 0; after = ctx; is = refl })
    ]
