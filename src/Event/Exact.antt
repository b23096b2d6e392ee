-- ===== src/Event/Exact.antt =====
-- `queued_msg_count` is the number of the messages that the context holds, until a close frame is
-- queued: then `wslay_event_send_ctrl_queue_pop` drops messages and leaves the count.
pub mod Sent
pub mod Queued
use wslay.Prelude.{
  ◌+◌, ◌%◌, ◌^◌, ◌<◌, ◌≡◌, refl, sym, ap, subst, ◌∙◌, true, ◌==◌, Bool-cases, inl, inr, Option,
  none, some, List, [], ◌∷◌, length, arith, bit_and,
}
use wslay.Event.Context.{MsgType, non_fragmented, fragmented, Omsg, EventContext, close_queued}
use wslay.Event.Send.{
  pop_first, send_ctrl_queue_pop, on_non_fragmented_msg_popped, take_up, take_ctrl, take_ctrl_first,
  choose_new, interrupts, choose_from, choose,
}
use wslay.Event.Counts.{held, held_omsg, choose-Keeps}
use wslay.Event.Receiving.{Sending, sending}

-- The count is exact while the flag of a queued close frame is clear; it is a `size_t`, so modulo
-- 2^64.
abbrev pub IsExactOf : {W : Type 0} → Sending W → Type 0
IsExactOf s =
    (s.close_status < 8)
    × ((bit_and s.close_status close_queued == 0) ≡ true
        → s.queued_msg_count
          ≡ (length s.send_queue + length s.send_ctrl_queue + held_omsg s.omsg) % 2 ^ 64)

abbrev pub IsExact : {W : Type 0} → EventContext W → Type 0
IsExact ctx = IsExactOf (sending ctx)

module _ {W : Type 0} where
  -- The flag says that no close frame is queued.
  abbrev pub IsOpen : EventContext W → Type 0
  IsOpen ctx = (bit_and ctx.close_status close_queued == 0) ≡ true

  -- A message `o` is on its way from a queue to the field `omsg`, and no other is lost.
  abbrev Moves : Option (Omsg W) → EventContext W → EventContext W → Type 0
  Moves o ctx after =
      (IsOpen ctx → held after ≡ length ctx.send_queue + length ctx.send_ctrl_queue + held_omsg o)
      × (after.close_status ≡ ctx.close_status)

  take_up-Moves :
      (t : MsgType) (m : Omsg W) (ctx : EventContext W) → Moves (some m) ctx (take_up t m ctx)
  unfolding take_up on_non_fragmented_msg_popped
  take_up-Moves non_fragmented m ctx = (λ _. omega arith, refl)
  take_up-Moves fragmented m ctx = (λ _. omega arith, refl)

  take_ctrl-Moves : (o : Option (Omsg W)) (ctx : EventContext W) → Moves o ctx (take_ctrl o ctx).1
  unfolding take_ctrl
  take_ctrl-Moves none ctx = (λ _. omega arith, refl)
  take_ctrl-Moves (some m) ctx = take_up-Moves m.type m ctx

  take_ctrl_first-Moves :
      (o : Option (Omsg W)) (ctx : EventContext W) → Moves o ctx (take_ctrl_first o ctx).1
  unfolding take_ctrl_first on_non_fragmented_msg_popped
  take_ctrl_first-Moves none ctx = (λ _. omega arith, refl)
  take_ctrl_first-Moves (some m) ctx = (λ _. omega arith, refl)

  pop_first-length :
      (cs : List (Omsg W)) → length (pop_first cs).1 + held_omsg (pop_first cs).0 ≡ length cs
  unfolding pop_first
  pop_first-length [] = omega arith
  pop_first-length (c ∷ cs) = omega arith

  -- Without a queued close frame a pop of the control queue drops nothing.
  pop-length :
      (ctx : EventContext W)
      → IsOpen ctx
      → length (send_ctrl_queue_pop ctx).1.send_ctrl_queue + held_omsg (send_ctrl_queue_pop ctx).0
        ≡ length ctx.send_ctrl_queue
  unfolding send_ctrl_queue_pop
  pop-length ctx open_ = rw open_ (pop_first-length ctx.send_ctrl_queue)

  pop-rest :
      (ctx : EventContext W)
      → ((send_ctrl_queue_pop ctx).1.send_queue ≡ ctx.send_queue)
        × ((send_ctrl_queue_pop ctx).1.close_status ≡ ctx.close_status)
  unfolding send_ctrl_queue_pop
  pop-rest ctx = (refl, refl)

  choose_new-Moves :
      (cs ms : List (Omsg W)) (ctx : EventContext W)
      → ctx.send_queue ≡ ms
      → ctx.omsg ≡ none
      → Moves none ctx (choose_new cs ms ctx).1
  unfolding choose_new
  choose_new-Moves [] [] ctx q e = (λ _. omega (arith, ap held_omsg e), refl)
  choose_new-Moves [] (m ∷ ms) ctx q e =
      let k = take_up-Moves m.type m (record ctx { send_queue = ms }) in
      (λ open_. omega (arith, k.0 open_, ap length q), k.1)
  choose_new-Moves (c ∷ cs) ms ctx q e =
      let (m, popped) = send_ctrl_queue_pop ctx in
      let k = take_ctrl-Moves m popped in
      let r = pop-rest ctx in
      (
        λ open_. omega (
          arith,
          k.0 (ap (λ s. bit_and s close_queued == 0) r.1 ∙ open_),
          pop-length ctx open_,
          ap length r.0,
        ),
        k.1 ∙ r.1,
      )

  choose_from-Moves :
      (o : Option (Omsg W)) (ctx : EventContext W)
      → ctx.omsg ≡ o
      → Moves o ctx (choose_from o ctx).1
  unfolding choose_from
  choose_from-Moves none ctx e = choose_new-Moves ctx.send_ctrl_queue ctx.send_queue ctx refl e
  choose_from-Moves (some m) ctx e = elim (Bool-cases (interrupts m ctx)) [
    | inl now ↦ rw now (
        let back = record ctx { send_queue = m ∷ ctx.send_queue } in
        let (next, popped) = send_ctrl_queue_pop back in
        let k = take_ctrl_first-Moves next popped in
        let r = pop-rest back in
        (
          λ open_. omega (
            arith,
            k.0 (ap (λ s. bit_and s close_queued == 0) r.1 ∙ open_),
            pop-length back open_,
            ap length r.0,
          ),
          k.1 ∙ r.1,
        ))
    | inr later ↦ rw later (λ _. omega (arith, ap held_omsg e), refl)
  ]

  -- The choice of a message loses none until a close frame is queued.
  pub choose-IsExact : (ctx : EventContext W) → IsExact ctx → IsExact (choose ctx).1
  unfolding choose
  choose-IsExact ctx (flags, exact) =
      let k = choose_from-Moves ctx.omsg ctx refl in
      (
        subst (λ s. s < 8) (sym k.1) flags,
        λ open_.
            let still = ap (λ s. bit_and s close_queued == 0) (sym k.1) ∙ open_ in
            (choose-Keeps ctx).count_same ∙ exact still ∙ ap (λ n. n % 2 ^ 64) (sym (k.0 still)),
      )
