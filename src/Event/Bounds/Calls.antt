-- ===== src/Event/Bounds/Calls.antt =====
-- The bounds over any sequence of calls.
use wslay.Prelude.{
  ℕ, ◌≡◌, refl, Bool, false, not, ◌&&◌, ltb, Bool-cases, inl, inr, Option, none, some, List, [],
  ◌∷◌, length, All-append, length-replicate, arith, bit_or, ℤ, pos, is_nonzero, same_int,
}
use wslay.Protocol.{code, no_more_msg, connection_close, is_ctrl_frame}
use wslay.Event.Context.{EventCallbacks, EventContext, event_context_new, close_queued}
use wslay.Event.Queueing.{
  Msg, FragmentedMsg, is_msg_queueable, omsg_non_fragmented_new, omsg_fragmented_new, push_msg,
  queue_msg, queue_fragmented_msg, close_payload, queue_close, queue_close_wrapper, set_error,
  shutdown_read, shutdown_write, config_set_no_buffering, config_set_max_recv_msg_length,
}
use wslay.Event.SendLoop.{event_send}
use wslay.Event.Closing.{SentAll}
use wslay.Event.Kept.{either, round-All, event_send-All}
use wslay.Event.Calls.{
  Call, queues, queues_fragmented, closes, fails, sets_error, stops_reading, stops_writing,
  sets_no_buffering, sets_max_length, sends, sent_context, after_call,
}
use wslay.Event.Bounds.{IsReader, IsCtrl, IsData, InBounds}
use wslay.Event.Bounds.Chosen.{choose-InBounds}
use wslay.Event.Bounds.Sent.{send_chosen-InBounds}

-- The callbacks of a call keep to what the library asks of them.
abbrev pub IsProper : {W : Type 0} → Call W → Type 0
IsProper (queues_fragmented arg) = IsReader arg.read_callback
IsProper _ = Unit

module _ {W : Type 0} where
  push_msg-InBounds :
      (arg : Msg) (ctx : EventContext W)
      → (is_ctrl_frame arg.opcode && ltb 125 (length arg.msg)) ≡ false
      → InBounds ctx
      → InBounds (push_msg arg ctx)
  unfolding push_msg
  push_msg-InBounds arg ctx fits (st, way) =
      let omsg = omsg_non_fragmented_new arg.opcode arg.msg in
      elim (Bool-cases (is_ctrl_frame arg.opcode)) [
        | inl ctrl ↦ rw ctrl (
          record {
            ctrl =
                All-append IsCtrl ctx.send_ctrl_queue (omsg ∷ []) st.ctrl
                  ((ctrl, ground (arith, ctrl, fits), refl), tt);
            plain = st.plain;
            marked = st.marked;
            limited = st.limited;
            size = st.size;
          },
          way,
        )
        | inr plain ↦ rw plain (
          record {
            ctrl = st.ctrl;
            plain =
                All-append IsData ctx.send_queue (omsg ∷ []) st.plain
                  ((plain, λ len source u. omega arith), tt);
            marked = st.marked;
            limited = st.limited;
            size = st.size;
          },
          way,
        )
      ]

  pub queue_msg-InBounds :
      (ctx : EventContext W) (arg : Msg) → InBounds ctx → InBounds (queue_msg ctx arg).1
  unfolding queue_msg
  queue_msg-InBounds ctx arg h =
      either InBounds (not (is_msg_queueable ctx)) (code no_more_msg, ctx) _ h
        (elim (Bool-cases (is_ctrl_frame arg.opcode && ltb 125 (length arg.msg))) [
          | inl long ↦ rw long h
          | inr fits ↦ rw fits (push_msg-InBounds arg ctx fits h)
        ])

  queue_fragmented_msg-InBounds :
      (ctx : EventContext W) (arg : FragmentedMsg W)
      → IsReader arg.read_callback
      → InBounds ctx
      → InBounds (queue_fragmented_msg ctx arg).1
  unfolding queue_fragmented_msg omsg_fragmented_new
  queue_fragmented_msg-InBounds ctx arg reader (st, way) =
      let omsg = omsg_fragmented_new arg.opcode arg.source arg.read_callback in
      either InBounds (not (is_msg_queueable ctx)) (code no_more_msg, ctx) _ (st, way)
        (elim (Bool-cases (is_ctrl_frame arg.opcode)) [
          | inl ctrl ↦ rw ctrl (st, way)
          | inr plain ↦ rw plain (
            record {
              ctrl = st.ctrl;
              plain = All-append IsData ctx.send_queue (omsg ∷ []) st.plain ((plain, reader), tt);
              marked = st.marked;
              limited = st.limited;
              size = st.size;
            },
            way,
          )
        ])

  queue_close-InBounds :
      (ctx : EventContext W) (n : ℕ) (reason : List ℕ)
      → InBounds ctx
      → InBounds (queue_close ctx n reason).1
  unfolding queue_close
  queue_close-InBounds ctx n reason h =
      let arg : Msg = record { opcode = connection_close; msg = close_payload n reason } in
      let (r, ctx') = queue_msg ctx arg in
      let after = queue_msg-InBounds ctx arg h in
      either InBounds (not (is_msg_queueable ctx)) (pos 1, ctx) _ h
        (either InBounds (ltb 123 (length reason)) (pos 2, ctx) _ h
          (either InBounds (is_nonzero r) (r, ctx')
            (r, record ctx' { close_status = bit_or ctx'.close_status close_queued }) after after))

  pub queue_close_wrapper-InBounds :
      (ctx : EventContext W) (n : ℕ) (reason : List ℕ)
      → InBounds ctx
      → InBounds (queue_close_wrapper ctx n reason).1
  unfolding queue_close_wrapper
  queue_close_wrapper-InBounds ctx n reason h =
      let c = record ctx { read_enabled = false } in
      let (r, ctx') = queue_close c n reason in
      let after = queue_close-InBounds c n reason h in
      either InBounds (is_nonzero r && not (same_int r (code no_more_msg))) (r, ctx') (pos 0, ctx')
        after after

  sent_context-InBounds :
      (ctx : EventContext W) (o : Option (ℤ × EventContext W))
      → InBounds ctx
      → SentAll InBounds o
      → InBounds (sent_context ctx o)
  unfolding sent_context
  sent_context-InBounds ctx none h k = h
  sent_context-InBounds ctx (some (r, c)) h k = k

  pub after_call-InBounds :
      (cb : EventCallbacks W) (c : Call W) (ctx : EventContext W)
      → IsProper c
      → InBounds ctx
      → InBounds (after_call cb c ctx)
  unfolding after_call set_error shutdown_read shutdown_write config_set_no_buffering
      config_set_max_recv_msg_length
  after_call-InBounds cb (queues arg) ctx p h = queue_msg-InBounds ctx arg h
  after_call-InBounds cb (queues_fragmented arg) ctx p h = queue_fragmented_msg-InBounds ctx arg p h
  after_call-InBounds cb (closes n reason) ctx p h = queue_close-InBounds ctx n reason h
  after_call-InBounds cb (fails n reason) ctx p h = queue_close_wrapper-InBounds ctx n reason h
  after_call-InBounds cb (sends rounds) ctx p h =
      sent_context-InBounds ctx (event_send cb rounds ctx) h (
        event_send-All InBounds cb
          (round-All InBounds cb choose-InBounds (λ c k. send_chosen-InBounds cb c.omsg c refl k))
          rounds ctx h)
  after_call-InBounds cb (sets_error val) ctx p h = h
  after_call-InBounds cb stops_reading ctx p h = h
  after_call-InBounds cb stops_writing ctx p h = h
  after_call-InBounds cb (sets_no_buffering val) ctx p h = h
  after_call-InBounds cb (sets_max_length val) ctx p h = h

  pub event_context_new-InBounds :
      (server : Bool) (user_data : W) → InBounds (event_context_new server user_data)
  unfolding event_context_new
  event_context_new-InBounds server user_data = (
    record {
      ctrl = tt;
      plain = tt;
      marked = inl refl;
      limited = omega arith;
      size = length-replicate {A = ℕ} 4096 0;
    },
    record { within = omega arith; msg = tt; sized = tt },
  )
