-- ===== src/Event/Exact/Queued.antt =====
-- The count through the functions that queue messages, and the other calls.
use wslay.Prelude.{
  ℕ, ◌<◌, ◌≡◌, refl, sym, ap, ◌∙◌, true, false, not, ◌&&◌, ltb, ltb→lt, ◌==◌, Bool-cases, inl, inr,
  Option, none, some, List, [], ◌∷◌, length, length-append, arith, all_below, all_below_sound,
  all_below_eq, bit_and, bit_or, ℤ, pos, is_nonzero, same_int,
}
use wslay.Protocol.{code, no_more_msg, connection_close, is_ctrl_frame}
use wslay.Event.Context.{EventCallbacks, EventContext, close_received, close_queued}
use wslay.Event.Queueing.{
  Msg, FragmentedMsg, is_msg_queueable, omsg_non_fragmented_new, omsg_fragmented_new, push_msg,
  queue_msg, queue_fragmented_msg, close_payload, queue_close, queue_close_wrapper, set_error,
  shutdown_read, shutdown_write, config_set_no_buffering, config_set_max_recv_msg_length,
}
use wslay.Event.SendLoop.{event_send}
use wslay.Event.Closing.{SentAll}
use wslay.Event.Kept.{either}
use wslay.Event.Calls.{
  Call, queues, queues_fragmented, closes, fails, sets_error, stops_reading, stops_writing,
  sets_no_buffering, sets_max_length, sends, sent_context, after_call, queued-IsClosed,
}
use wslay.Event.Exact.{IsExact}
use wslay.Event.Exact.Sent.{event_send-IsExact}

received_small : all_below 8 (λ s. ltb (bit_or s close_received) 8) ≡ true
unfolding all_below
received_small = refl

received_kept :
    all_below 8 (λ s. bit_and (bit_or s close_received) close_queued == bit_and s close_queued)
    ≡ true
unfolding all_below
received_kept = refl

queued_set : all_below 8 (λ s. not (bit_and (bit_or s close_queued) close_queued == 0)) ≡ true
unfolding all_below
queued_set = refl

-- With the flag set, nothing is said of the count.
queued_flag : (s : ℕ) → s < 8 → (bit_and (bit_or s close_queued) close_queued == 0) ≡ false
queued_flag s flags = ground (
  arith,
  all_below_sound 8 (λ k. not (bit_and (bit_or k close_queued) close_queued == 0)) s queued_set
      flags,
)

module _ {W : Type 0} where
  -- A received close frame leaves the flag of a queued one.
  pub received-IsExact :
      (ctx : EventContext W)
      → IsExact ctx
      → IsExact (record ctx { close_status = bit_or ctx.close_status close_received })
  received-IsExact ctx (flags, exact) = (
    ltb→lt (bit_or ctx.close_status close_received) 8 (
        all_below_sound 8 (λ k. ltb (bit_or k close_received) 8) ctx.close_status received_small
          flags),
    λ open_. exact (
        ap (λ k. k == 0)
          (sym (
            all_below_eq 8 (λ k. bit_and (bit_or k close_received) close_queued)
              (λ k. bit_and k close_queued) received_kept ctx.close_status flags))
        ∙ open_),
  )

  push_msg-IsExact : (arg : Msg) (ctx : EventContext W) → IsExact ctx → IsExact (push_msg arg ctx)
  unfolding push_msg
  push_msg-IsExact arg ctx (flags, exact) =
      let omsg = omsg_non_fragmented_new arg.opcode arg.msg in
      let a = length-append ctx.send_ctrl_queue (omsg ∷ []) in
      let b = length-append ctx.send_queue (omsg ∷ []) in
      elim (Bool-cases (is_ctrl_frame arg.opcode)) [
        | inl ctrl ↦ rw ctrl (flags, λ open_. omega (arith, exact open_, a))
        | inr plain ↦ rw plain (flags, λ open_. omega (arith, exact open_, b))
      ]

  queue_msg-IsExact :
      (ctx : EventContext W) (arg : Msg) → IsExact ctx → IsExact (queue_msg ctx arg).1
  unfolding queue_msg
  queue_msg-IsExact ctx arg h =
      either IsExact (not (is_msg_queueable ctx)) (code no_more_msg, ctx) _ h
        (either IsExact (is_ctrl_frame arg.opcode && ltb 125 (length arg.msg)) _
          (pos 0, push_msg arg ctx) h (push_msg-IsExact arg ctx h))

  queue_fragmented_msg-IsExact :
      (ctx : EventContext W) (arg : FragmentedMsg W)
      → IsExact ctx
      → IsExact (queue_fragmented_msg ctx arg).1
  unfolding queue_fragmented_msg
  queue_fragmented_msg-IsExact ctx arg h =
      let omsg = omsg_fragmented_new arg.opcode arg.source arg.read_callback in
      let b = length-append ctx.send_queue (omsg ∷ []) in
      either IsExact (not (is_msg_queueable ctx)) (code no_more_msg, ctx) _ h
        (either IsExact (is_ctrl_frame arg.opcode) _ (pos 0, _) h
          (h.0, λ open_. omega (arith, h.1 open_, b)))

  queue_close-IsExact :
      (ctx : EventContext W) (n : ℕ) (reason : List ℕ)
      → IsExact ctx
      → IsExact (queue_close ctx n reason).1
  unfolding queue_close
  queue_close-IsExact ctx n reason h =
      let arg : Msg = record { opcode = connection_close; msg = close_payload n reason } in
      let (r, ctx') = queue_msg ctx arg in
      let after = queue_msg-IsExact ctx arg h in
      either IsExact (not (is_msg_queueable ctx)) (pos 1, ctx) _ h
        (either IsExact (ltb 123 (length reason)) (pos 2, ctx) _ h
          (either IsExact (is_nonzero r) (r, ctx')
            (r, record ctx' { close_status = bit_or ctx'.close_status close_queued }) after
            (
              (queued-IsClosed ctx' after.0).0,
              λ open_. absurd (ground (arith, open_, queued_flag ctx'.close_status after.0)),
            )))

  queue_close_wrapper-IsExact :
      (ctx : EventContext W) (n : ℕ) (reason : List ℕ)
      → IsExact ctx
      → IsExact (queue_close_wrapper ctx n reason).1
  unfolding queue_close_wrapper
  queue_close_wrapper-IsExact ctx n reason h =
      let c = record ctx { read_enabled = false } in
      let (r, ctx') = queue_close c n reason in
      let after = queue_close-IsExact c n reason h in
      either IsExact (is_nonzero r && not (same_int r (code no_more_msg))) (r, ctx') (pos 0, ctx')
        after after

  sent_context-IsExact :
      (ctx : EventContext W) (o : Option (ℤ × EventContext W))
      → IsExact ctx
      → SentAll IsExact o
      → IsExact (sent_context ctx o)
  unfolding sent_context
  sent_context-IsExact ctx none h k = h
  sent_context-IsExact ctx (some (r, c)) h k = k

  pub after_call-IsExact :
      (cb : EventCallbacks W) (c : Call W) (ctx : EventContext W)
      → IsExact ctx
      → IsExact (after_call cb c ctx)
  unfolding after_call set_error shutdown_read shutdown_write config_set_no_buffering
      config_set_max_recv_msg_length
  after_call-IsExact cb (queues arg) ctx h = queue_msg-IsExact ctx arg h
  after_call-IsExact cb (queues_fragmented arg) ctx h = queue_fragmented_msg-IsExact ctx arg h
  after_call-IsExact cb (closes n reason) ctx h = queue_close-IsExact ctx n reason h
  after_call-IsExact cb (fails n reason) ctx h = queue_close_wrapper-IsExact ctx n reason h
  after_call-IsExact cb (sends rounds) ctx h =
      sent_context-IsExact ctx (event_send cb rounds ctx) h (event_send-IsExact cb rounds ctx h)
  after_call-IsExact cb (sets_error val) ctx h = h
  after_call-IsExact cb stops_reading ctx h = h
  after_call-IsExact cb stops_writing ctx h = h
  after_call-IsExact cb (sets_no_buffering val) ctx h = h
  after_call-IsExact cb (sets_max_length val) ctx h = h
