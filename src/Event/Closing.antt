-- ===== src/Event/Closing.antt =====
-- A connection that is closing: once a close frame is queued, or writing is disabled, nothing more
-- can be queued, whatever is called in between.
use wslay.Prelude.{
  ℕ, ◌<◌, ◌≡◌, refl, ◌⊎◌, inl, inr, Bool, true, false, not, ◌&&◌, ltb, ◌==◌, Bool-cases, Option,
  none, some, List, [], ◌∷◌, ◌||◌, same_int, all_below, all_below_sound, ltb→lt, ℤ, pos, bit_and,
  bit_or,
}
use wslay.Protocol.{code, want_write, wouldblock, connection_close, Error}
use wslay.Event.Context.{
  MsgType, non_fragmented, fragmented, Omsg, EventContext, close_queued, close_sent,
}
use wslay.Event.Send.{
  Round, again, returns, choose_new, choose_from, take_ctrl, take_ctrl_first, interrupts,
  on_non_fragmented_msg_popped, send_ctrl_queue_pop, take_up,
}
use wslay.Event.SendLoop.{msg_sent, send_failed}

-- What decides whether messages can be queued, for the flags that there are.
abbrev pub Closed : Bool → ℕ → Type 0
Closed write_enabled close_status =
    (close_status < 8)
    × ((write_enabled ≡ false) ⊎ ((bit_and close_status close_queued == 0) ≡ false))

abbrev pub IsClosed : {W : Type 0} → EventContext W → Type 0
IsClosed ctx = Closed ctx.write_enabled ctx.close_status

sent_flag :
    all_below 8 (λ s. bit_and (bit_or s close_sent) close_queued == bit_and s close_queued) ≡ true
unfolding all_below
sent_flag = refl

sent_flags : all_below 8 (λ s. ltb (bit_or s close_sent) 8) ≡ true
unfolding all_below
sent_flags = refl

-- Both ends of a round.
abbrev pub RoundAll : {W : Type 0} → (EventContext W → Type 0) → Round W → Type 0
RoundAll P (again ctx) = P ctx
RoundAll P (returns r ctx) = P ctx

-- A round after which the loop goes on.
abbrev pub OnAgain : {W : Type 0} → (EventContext W → Type 0) → Round W → Type 0
OnAgain P (again ctx) = P ctx
OnAgain P (returns r ctx) = Unit

-- The context that `wslay_event_send` leaves when it returns.
abbrev pub SentAll : {W : Type 0} → (EventContext W → Type 0) → Option (ℤ × EventContext W) → Type 0
SentAll P none = Unit
SentAll P (some (r, ctx)) = P ctx

module _ {W : Type 0} where
  pub msg_sent-IsClosed :
      (m : Omsg W) (ctx : EventContext W) → IsClosed ctx → IsClosed (msg_sent m ctx)
  unfolding msg_sent
  msg_sent-IsClosed m ctx h = elim (Bool-cases (m.opcode == connection_close)) [
    | inl e ↦ rw e (
      ltb→lt (bit_or ctx.close_status close_sent) 8
          (all_below_sound 8 (λ s. ltb (bit_or s close_sent) 8) ctx.close_status sent_flags h.0),
      inl refl,
    )
    | inr e ↦ rw e h
  ]

  pub send_failed-IsClosed :
      (e : Error) (ctx : EventContext W) → IsClosed ctx → RoundAll IsClosed (send_failed e ctx)
  unfolding send_failed
  send_failed-IsClosed e ctx h =
      elim (Bool-cases (
        not (same_int (code e) (code want_write))
        || (not (same_int ctx.user.error (code wouldblock))
            && not (same_int ctx.user.error (pos 0))))) [
              | inl bad ↦ rw bad (h.0, inl refl)
              | inr fine ↦ rw fine h
            ]

  pub send_failed-again :
      (P : EventContext W → Type 0) (e : Error) (ctx : EventContext W)
      → OnAgain P (send_failed e ctx)
  unfolding send_failed
  send_failed-again P e ctx =
      elim (Bool-cases (
        not (same_int (code e) (code want_write))
        || (not (same_int ctx.user.error (code wouldblock))
            && not (same_int ctx.user.error (pos 0))))) [
              | inl bad ↦ rw bad tt
              | inr fine ↦ rw fine tt
            ]

  take_up-IsClosed :
      (t : MsgType) (m : Omsg W) (ctx : EventContext W) → IsClosed ctx → IsClosed (take_up t m ctx)
  unfolding take_up
  take_up-IsClosed non_fragmented m ctx h = h
  take_up-IsClosed fragmented m ctx h = h

  take_ctrl-IsClosed :
      (o : Option (Omsg W)) (ctx : EventContext W) → IsClosed ctx → IsClosed (take_ctrl o ctx).1
  unfolding take_ctrl
  take_ctrl-IsClosed none ctx h = h
  take_ctrl-IsClosed (some m) ctx h = take_up-IsClosed m.type m ctx h

  take_ctrl_first-IsClosed :
      (o : Option (Omsg W)) (ctx : EventContext W)
      → IsClosed ctx
      → IsClosed (take_ctrl_first o ctx).1
  unfolding take_ctrl_first
  take_ctrl_first-IsClosed none ctx h = h
  take_ctrl_first-IsClosed (some m) ctx h = unfold on_non_fragmented_msg_popped in h

  pop-IsClosed : (ctx : EventContext W) → IsClosed ctx → IsClosed (send_ctrl_queue_pop ctx).1
  unfolding send_ctrl_queue_pop
  pop-IsClosed ctx h = h

  -- Choosing a message leaves the two fields alone.
  choose_new-IsClosed :
      (cs ms : List (Omsg W)) (ctx : EventContext W)
      → IsClosed ctx
      → IsClosed (choose_new cs ms ctx).1
  unfolding choose_new
  choose_new-IsClosed [] [] ctx h = h
  choose_new-IsClosed [] (m ∷ ms) ctx h =
      take_up-IsClosed m.type m (record ctx { send_queue = ms }) h
  choose_new-IsClosed (c ∷ cs) ms ctx h =
      take_ctrl-IsClosed (send_ctrl_queue_pop ctx).0 (send_ctrl_queue_pop ctx).1
        (pop-IsClosed ctx h)

  pub choose_from-IsClosed :
      (o : Option (Omsg W)) (ctx : EventContext W) → IsClosed ctx → IsClosed (choose_from o ctx).1
  unfolding choose_from
  choose_from-IsClosed none ctx h = choose_new-IsClosed ctx.send_ctrl_queue ctx.send_queue ctx h
  choose_from-IsClosed (some m) ctx h =
      let back = record ctx { send_queue = m ∷ ctx.send_queue } in
      elim (Bool-cases (interrupts m ctx)) [
        | inl now ↦ rw now (
            take_ctrl_first-IsClosed (send_ctrl_queue_pop back).0 (send_ctrl_queue_pop back).1
              (pop-IsClosed back h))
        | inr later ↦ rw later h
      ]
