-- ===== src/Event/Calls.antt =====
-- Calls of the event layer in any order, after a close frame was queued.
use wslay.Prelude.{
  ℕ, zero, suc, negsuc, ◌<◌, ◌≡◌, refl, ap, inl, inr, true, false, not, ◌&&◌, ltb, ◌==◌, ltb→lt,
  sym, subst, ◌≢◌, all_below_eq, Bool-cases, Option, none, some, List, [], ◌∷◌, length, all_below,
  all_below_sound, ℤ, pos, is_nonzero, same_int, bit_and, bit_or, arith,
}
use wslay.Protocol.{code, no_more_msg, invalid_argument, connection_close, is_ctrl_frame}
use wslay.Event.Context.{EventCallbacks, EventContext, close_queued}
use wslay.Event.Queueing.{
  Msg, FragmentedMsg, is_msg_queueable, push_msg, queue_msg, queue_fragmented_msg, close_payload,
  queue_close, queue_close_wrapper, set_error, shutdown_read, shutdown_write,
  config_set_no_buffering, config_set_max_recv_msg_length,
}
use wslay.Event.SendLoop.{event_send}
use wslay.Event.Closing.{SentAll, Closed, IsClosed}
use wslay.Event.ClosedLoop.{event_send-IsClosed}

-- A call of one of the functions, with its arguments; a bound on the rounds where it loops.
pub data Call (W : Type 0) : Type 0 where
  queues : Msg → Call W
  queues_fragmented : FragmentedMsg W → Call W
  closes : ℕ → List ℕ → Call W
  fails : ℕ → List ℕ → Call W
  sets_error : ℤ → Call W
  stops_reading : Call W
  stops_writing : Call W
  sets_no_buffering : ℤ → Call W
  sets_max_length : ℕ → Call W
  sends : ℕ → Call W

still_queued : all_below 8 (λ s. bit_and (bit_or s close_queued) close_queued == 2) ≡ true
unfolding all_below
still_queued = refl

queued_flags : all_below 8 (λ s. ltb (bit_or s close_queued) 8) ≡ true
unfolding all_below
queued_flags = refl

not_zero : (r : ℤ) → is_nonzero r ≡ true → r ≢ pos 0
not_zero (pos zero) h e = absurd (ground arith)
not_zero (pos (suc n)) h e = absurd (ground arith)
not_zero (negsuc n) h e = absurd (ground arith)

module _ {W : Type 0} where
  -- The context after `wslay_event_send`, or before it if the rounds were too few.
  unfoldable pub sent_context : EventContext W → Option (ℤ × EventContext W) → EventContext W
  sent_context ctx none = ctx
  sent_context ctx (some (r, ctx')) = ctx'

  unfoldable pub after_call : EventCallbacks W → Call W → EventContext W → EventContext W
  unfolding sent_context
  after_call cb (queues arg) ctx = (queue_msg ctx arg).1
  after_call cb (queues_fragmented arg) ctx = (queue_fragmented_msg ctx arg).1
  after_call cb (closes n reason) ctx = (queue_close ctx n reason).1
  after_call cb (fails n reason) ctx = (queue_close_wrapper ctx n reason).1
  after_call cb (sets_error val) ctx = set_error ctx val
  after_call cb stops_reading ctx = shutdown_read ctx
  after_call cb stops_writing ctx = shutdown_write ctx
  after_call cb (sets_no_buffering val) ctx = config_set_no_buffering ctx val
  after_call cb (sets_max_length val) ctx = config_set_max_recv_msg_length ctx val
  after_call cb (sends rounds) ctx = sent_context ctx (event_send cb rounds ctx)

  unfoldable pub after_calls : EventCallbacks W → List (Call W) → EventContext W → EventContext W
  unfolding after_call
  after_calls cb [] ctx = ctx
  after_calls cb (c ∷ cs) ctx = after_calls cb cs (after_call cb c ctx)

  pub IsClosed-not_queueable : (ctx : EventContext W) → IsClosed ctx → is_msg_queueable ctx ≡ false
  unfolding is_msg_queueable
  IsClosed-not_queueable ctx (flags, inl e) = rw e refl
  IsClosed-not_queueable ctx (flags, inr e) = elim (Bool-cases ctx.write_enabled) [
    | inl w ↦ rw (w, e) refl
    | inr w ↦ rw w refl
  ]

  -- Every function that queues refuses, and changes nothing.
  pub record Shut (ctx : EventContext W) : Type 0 where
    pub msg : (arg : Msg) → queue_msg ctx arg ≡ (code no_more_msg, ctx)
    pub fragmented :
        (arg : FragmentedMsg W) → queue_fragmented_msg ctx arg ≡ (code no_more_msg, ctx)
    pub close : (n : ℕ) (reason : List ℕ) → queue_close ctx n reason ≡ (pos 1, ctx)

  pub IsClosed-Shut : (ctx : EventContext W) → IsClosed ctx → Shut ctx
  unfolding queue_msg queue_fragmented_msg queue_close
  IsClosed-Shut ctx h =
      let e = IsClosed-not_queueable ctx h in
      record {
        msg = λ arg. rw e refl;
        fragmented = λ arg. rw e refl;
        close = λ n reason. rw e refl;
      }

  via :
      {p : ℤ × EventContext W} {r : ℤ} {ctx : EventContext W}
      → p ≡ (r, ctx)
      → IsClosed ctx
      → IsClosed p.1
  via {p} {r} {ctx} e h = subst (λ (q : ℤ × EventContext W). IsClosed q.1) (sym e) h

  wrapper-IsClosed :
      (ctx : EventContext W) (n : ℕ) (reason : List ℕ)
      → IsClosed ctx
      → IsClosed (queue_close_wrapper ctx n reason).1
  unfolding queue_close_wrapper
  wrapper-IsClosed ctx n reason h =
      let c = record ctx { read_enabled = false } in
      let (r, ctx') = queue_close c n reason in
      let after = via ((IsClosed-Shut c h).close n reason) h in
      elim (Bool-cases (is_nonzero r && not (same_int r (code no_more_msg)))) [
        | inl bad ↦ rw bad after
        | inr fine ↦ rw fine after
      ]

  pub after_call-IsClosed :
      (cb : EventCallbacks W) (c : Call W) (ctx : EventContext W)
      → IsClosed ctx
      → IsClosed (after_call cb c ctx)
  unfolding after_call sent_context queue_close_wrapper set_error shutdown_read shutdown_write
      config_set_no_buffering config_set_max_recv_msg_length
  after_call-IsClosed cb (queues arg) ctx h = via ((IsClosed-Shut ctx h).msg arg) h
  after_call-IsClosed cb (queues_fragmented arg) ctx h =
      via ((IsClosed-Shut ctx h).fragmented arg) h
  after_call-IsClosed cb (closes n reason) ctx h = via ((IsClosed-Shut ctx h).close n reason) h
  after_call-IsClosed cb (fails n reason) ctx h = wrapper-IsClosed ctx n reason h
  after_call-IsClosed cb (sets_error val) ctx h = h
  after_call-IsClosed cb stops_reading ctx h = h
  after_call-IsClosed cb stops_writing ctx h = (h.0, inl refl)
  after_call-IsClosed cb (sets_no_buffering val) ctx h = h
  after_call-IsClosed cb (sets_max_length val) ctx h = h
  after_call-IsClosed cb (sends rounds) ctx h =
      sent (event_send cb rounds ctx) (event_send-IsClosed cb rounds ctx h)
    where
      sent : (o : Option (ℤ × EventContext W)) → SentAll IsClosed o → IsClosed (sent_context ctx o)
      sent none k = h
      sent (some (r, ctx')) k = k

  -- A call that returned 0 queued the close frame and set its flag.
  pub queue_close-pushes :
      (ctx : EventContext W) (n : ℕ) (reason : List ℕ)
      → (queue_close ctx n reason).0 ≡ pos 0
      → (queue_close ctx n reason).1
        ≡ record (push_msg
            (record { opcode = connection_close; msg = close_payload n reason })
            ctx) { close_status = bit_or ctx.close_status close_queued }
  unfolding queue_close queue_msg push_msg
  queue_close-pushes ctx n reason = elim (Bool-cases (is_msg_queueable ctx)) [
    | inr e ↦ rw e (λ z. absurd (not_zero (pos 1) refl z))
    | inl e ↦ rw e (elim (Bool-cases (ltb 123 (length reason))) [
      | inl long ↦ rw long (λ z. absurd (not_zero (pos 2) refl z))
      | inr short ↦
          rw short
            (elim (Bool-cases
              (is_ctrl_frame connection_close && ltb 125 (length (close_payload n reason)))) [
                | inl big ↦ rw big (λ z. absurd (not_zero (code invalid_argument) refl z))
                | inr fine ↦ rw fine (λ z. refl)
              ])
    ])
  ]

  -- The flag of a queued close frame.
  pub queued-IsClosed :
      (ctx : EventContext W)
      → ctx.close_status < 8
      → Closed ctx.write_enabled (bit_or ctx.close_status close_queued)
  queued-IsClosed ctx flags =
      let status = bit_or ctx.close_status close_queued in
      let kept : bit_and status close_queued ≡ 2 =
        all_below_eq 8 (λ s. bit_and (bit_or s close_queued) close_queued) (λ _. 2) still_queued
          ctx.close_status flags in
      (
        ltb→lt status 8 (
            all_below_sound 8 (λ s. ltb (bit_or s close_queued) 8) ctx.close_status queued_flags
              flags),
        inr (ap (λ k. k == 0) kept),
      )

  pub queue_close-IsClosed :
      (ctx : EventContext W) (n : ℕ) (reason : List ℕ)
      → ctx.close_status < 8
      → (queue_close ctx n reason).0 ≡ pos 0
      → IsClosed (queue_close ctx n reason).1
  unfolding push_msg
  queue_close-IsClosed ctx n reason flags zero_result =
      subst IsClosed (sym (queue_close-pushes ctx n reason zero_result)) (queued-IsClosed ctx flags)
