-- ===== src/Event/Status.antt =====
-- The close frame, from `wslay_event_queue_close` to the end of its sending.
use wslay.Prelude.{
  ℕ, ◌-◌, ◌^◌, ◌<◌, ◌≡◌, refl, sym, ap, subst, ◌∙◌, true, false, ltb, ◌==◌, lt→ltb, Bool-cases, inl,
  inr, if◌then◌else◌, none, some, List, ◌++◌, length, take, slice, all_below, all_below_sound,
  bit_and, bit_or, arith, take-append, length-append, pos,
}
use wslay.Protocol.{code_no_status_rcvd, connection_close, is_ctrl_frame}
use wslay.Frame.Bytes.{be_bytes, be_number, be_number-be_bytes_2, length-be_bytes, add64}
use wslay.Frame.Context.{SendContext, Outcome, ok, err, At}
use wslay.Frame.Send.{frame_send}
use wslay.Event.Context.{User, Omsg, EventCallbacks, EventContext, frame_callbacks, close_sent}
use wslay.Event.Closing.{OnAgain, send_failed-again}
use wslay.Event.Queueing.{close_payload, omsg_non_fragmented_new, get_close_sent}
use wslay.Event.Send.{again, returns, choose, choose_from, interrupts, sent_status}
use wslay.Event.SendLoop.{
  msg_sent, with_frame, at_frame, make_iocb, after_whole, send_whole, send_msg, send_chosen, round,
}

-- The code that is reported for a close frame queued with the code `n`.
abbrev pub reported : ℕ → ℕ
reported n = if n == 0 then code_no_status_rcvd else n

pub sent_status-close_payload :
    (n : ℕ) (reason : List ℕ) → n < 2 ^ 16 → sent_status (close_payload n reason) ≡ reported n
unfolding sent_status close_payload
sent_status-close_payload n reason h = elim (Bool-cases (n == 0)) [
  | inl e ↦ rw e refl
  | inr e ↦
      let size = length-be_bytes 2 n in
      let long : ltb 1 (length (be_bytes 2 n ++ reason)) ≡ true =
        lt→ltb 1 (length (be_bytes 2 n ++ reason))
          (omega (arith, length-append (be_bytes 2 n) reason, size)) in
      let front : take 2 (be_bytes 2 n ++ reason) ≡ be_bytes 2 n =
        sym (ap (λ k. take k (be_bytes 2 n ++ reason)) size) ∙ take-append (be_bytes 2 n) reason in
      let value : be_number 0 (take 2 (be_bytes 2 n ++ reason)) ≡ n =
        ap (be_number 0) front ∙ be_number-be_bytes_2 n h in
      rw (e, long, value, e) refl
]

-- What is known of a connection whose close frame is out.
pub record Ended {W : Type 0} (n : ℕ) (ctx : EventContext W) : Type 0 where
  pub no_writing : ctx.write_enabled ≡ false
  pub flag : get_close_sent ctx ≡ true
  pub status : ctx.status_code_sent ≡ reported n
  pub no_message : ctx.omsg ≡ none

flag_set : all_below 8 (λ s. ltb 0 (bit_and (bit_or s close_sent) close_sent)) ≡ true
unfolding all_below
flag_set = refl

module _ {W : Type 0} where
  unfoldable pub close_msg : ℕ → List ℕ → Omsg W
  unfolding omsg_non_fragmented_new
  close_msg n reason = omsg_non_fragmented_new connection_close (close_payload n reason)

  msg_sent-Ended :
      (ctx : EventContext W) (n : ℕ) (reason : List ℕ)
      → ctx.close_status < 8
      → n < 2 ^ 16
      → Ended n (msg_sent (close_msg n reason) ctx)
  unfolding msg_sent close_msg get_close_sent
  msg_sent-Ended ctx n reason flags h = record {
    no_writing = refl;
    flag =
        all_below_sound 8 (λ s. ltb 0 (bit_and (bit_or s close_sent) close_sent)) ctx.close_status
          flag_set flags;
    status = sent_status-close_payload n reason h;
    no_message = refl;
  }

  after_whole-Ended :
      (ctx : EventContext W) (n : ℕ) (reason : List ℕ)
      → ctx.close_status < 8
      → n < 2 ^ 16
      → (o : Outcome (At SendContext (User W)) ℕ)
      → OnAgain (Ended n) (after_whole (close_msg n reason) ctx o)
  unfolding after_whole with_frame
  after_whole-Ended ctx n reason flags h (ok k s) =
      let ctx' = record (with_frame ctx s) { opayloadoff = add64 ctx.opayloadoff k } in
      elim (Bool-cases (ctx'.opayloadoff == ctx'.opayloadlen)) [
        | inl all_sent ↦ rw all_sent (msg_sent-Ended ctx' n reason flags h)
        | inr more ↦ rw more tt
      ]
  after_whole-Ended ctx n reason flags h (err e s) =
      send_failed-again (Ended n) e (with_frame ctx s)

  module _ (cb : EventCallbacks W) where
    -- A control message under way is not interrupted.
    close_round :
        (ctx : EventContext W) (n : ℕ) (reason : List ℕ)
        → ctx.omsg ≡ some (close_msg n reason)
        → round cb ctx ≡ send_whole cb (close_msg n reason) ctx
    unfolding round choose choose_from interrupts send_chosen send_msg is_ctrl_frame close_msg
    close_round ctx n reason e =
        ap
          (λ o.
            let (going, ctx') = choose_from o ctx in
            if going then send_chosen cb ctx'.omsg ctx' else returns (pos 0) ctx')
          e
        ∙ ap (λ o. send_chosen cb o ctx) e

    -- The round that sends the last byte of a close frame disables writing, sets the flag, and
    -- reports the status code that the frame was queued with, or WSLAY_CODE_NO_STATUS_RCVD.
    pub round-Ended :
        (ctx ctx' : EventContext W) (n : ℕ) (reason : List ℕ)
        → ctx.omsg ≡ some (close_msg n reason)
        → ctx.close_status < 8
        → n < 2 ^ 16
        → round cb ctx ≡ again ctx'
        → Ended n ctx'
    unfolding send_whole
    round-Ended ctx ctx' n reason e flags h going =
        let m = close_msg n reason in
        let payload = slice ctx.opayloadoff (ctx.opayloadlen - ctx.opayloadoff) m.bytes in
        subst (OnAgain (Ended n)) (sym (close_round ctx n reason e) ∙ going) (
          after_whole-Ended ctx n reason flags h
            (frame_send (frame_callbacks cb) (make_iocb m ctx payload 1) (at_frame ctx)))
