-- ===== src/Event/Session/Shutting.antt =====
-- A closing connection over the rest of a session.
use wslay.Prelude.{
  false, subst, ℤ, ℕ, ◌<◌, ◌≡◌, refl, ap, ◌∙◌, true, ltb, ltb→lt, ◌==◌, inl, inr, if◌then◌else◌,
  is_nonzero, List, [], All, all_below, all_below_sound, all_below_eq, pos, bit_and, bit_or,
}
use wslay.Protocol.{code_protocol_error, Iocb}
use wslay.Frame.Context.{RecvContext, At}
use wslay.Event.Context.{User, EventCallbacks, EventContext, close_queued, close_received}
use wslay.Event.Queueing.{queue_close, queue_close_wrapper}
use wslay.Event.Send.{again, returns}
use wslay.Event.Recv.{RecvCallbacks, close_and_stop, bad_frame}
use wslay.Event.RecvLoop.{receive_frame, recv_round, with_input}
use wslay.Event.Closing.{Closed, IsClosed, RoundAll}
use wslay.Event.Answer.{wrapper-refuses}
use wslay.Event.Calls.{
  Call, Shut, IsClosed-Shut, IsClosed-not_queueable, after_call-IsClosed, queue_close-IsClosed,
}
use wslay.Event.Receiving.{Sending, Of}
use wslay.Event.Receiving.Loop.{recv_round-Of}
use wslay.Event.Session.{
  Step, after_steps, IsFineStep, IsActing, Lasts, acting-IsKept, after_steps-Of,
}

received_flags : all_below 8 (λ s. ltb (bit_or s close_received) 8) ≡ true
unfolding all_below
received_flags = refl

received_queued :
    all_below 8 (λ s. bit_and (bit_or s close_received) close_queued == bit_and s close_queued)
    ≡ true
unfolding all_below
received_queued = refl

abbrev SendingClosed : {W : Type 0} → Sending W → Type 0
SendingClosed s = Closed s.write_enabled s.close_status

-- A close message that comes in does not reopen the connection.
received-Closed : (w : _) (s : ℕ) → Closed w s → Closed w (bit_or s close_received)
received-Closed w s (flags, why) = (
  ltb→lt (bit_or s close_received) 8
      (all_below_sound 8 (λ k. ltb (bit_or k close_received) 8) s received_flags flags),
  elim why [
    | inl e ↦ inl e
    | inr e ↦ inr (
        ap (λ k. k == 0)
          (all_below_eq 8 (λ k. bit_and (bit_or k close_received) close_queued)
            (λ k. bit_and k close_queued) received_queued s flags)
        ∙ e)
  ],
)

-- A context in the loop of `wslay_event_recv`: at the start of one of its rounds.
pub data InLoop {W : Type 0} (cb : EventCallbacks W) (on : RecvCallbacks W) (first : EventContext W)
    : EventContext W → Type 0 where
  at_first : InLoop cb on first first
  next_round :
      {ctx : EventContext W}
      → InLoop cb on first ctx
      → (after : EventContext W) → recv_round on cb ctx ≡ again after
      → InLoop cb on first after

-- The wrapper fails with 1, having disabled reading and changed nothing else, and so does
-- `wslay_event_recv` where it would close the connection.
pub record Fails {W : Type 0} (on : RecvCallbacks W) (ctx : EventContext W) : Type 0 where
  pub wrapper :
      (n : ℕ) (reason : List ℕ)
      → queue_close_wrapper ctx n reason ≡ (pos 1, record ctx { read_enabled = false })
  pub stopping :
      (status : ℕ)
      → close_and_stop status ctx ≡ returns (pos 1) (record ctx { read_enabled = false })
  pub refusing :
      (iocb : Iocb)
      → bad_frame iocb ctx ≡ true
      → receive_frame on iocb ctx ≡ returns (pos 1) (record ctx { read_enabled = false })

module _ {W : Type 0} where
  -- Nothing that the application or its callbacks do is asked for anything.
  abbrev pub IsAny : Call W → Type 0
  IsAny c = Unit

  closed-Lasts : (cb : EventCallbacks W) → Lasts cb IsAny SendingClosed
  closed-Lasts cb = record {
    calling = λ c k p h. after_call-IsClosed cb c k h;
    failing = λ m r. tt;
    queueing = λ arg. tt;
    closed = λ k h. received-Closed k.write_enabled k.close_status h;
  }

  after_steps-IsClosed :
      (cb : EventCallbacks W) (ctx : EventContext W) (n : ℕ) (reason : List ℕ)
      → ctx.close_status < 8
      → (queue_close ctx n reason).0 ≡ pos 0
      → (steps : List (Step W)) → All (IsFineStep cb IsAny) steps
      → IsClosed (after_steps cb steps (queue_close ctx n reason).1)
  after_steps-IsClosed cb ctx n reason flags zero_result steps fine =
      after_steps-Of cb IsAny SendingClosed (closed-Lasts cb) steps (queue_close ctx n reason).1
        fine (queue_close-IsClosed ctx n reason flags zero_result)

  -- Once `wslay_event_queue_close` has returned 0, in every later state of the session, whatever
  -- is sent, received and called in the callbacks, every function that queues a message refuses it
  -- and changes nothing.
  pub after_steps-Shut :
      (cb : EventCallbacks W) (ctx : EventContext W) (n : ℕ) (reason : List ℕ)
      → ctx.close_status < 8
      → (queue_close ctx n reason).0 ≡ pos 0
      → (steps : List (Step W)) → All (IsFineStep cb IsAny) steps
      → Shut (after_steps cb steps (queue_close ctx n reason).1)
  after_steps-Shut cb ctx n reason flags zero_result steps fine =
      IsClosed-Shut (after_steps cb steps (queue_close ctx n reason).1)
        (after_steps-IsClosed cb ctx n reason flags zero_result steps fine)

  InLoop-IsClosed :
      (cb : EventCallbacks W) (on : RecvCallbacks W)
      → IsActing cb IsAny on
      → (first ctx : EventContext W) → InLoop cb on first ctx
      → IsClosed first
      → IsClosed ctx
  InLoop-IsClosed cb on acting first ctx at_first h = h
  InLoop-IsClosed cb on acting first ctx (next_round {ctx = c} l after e) h =
      subst (RoundAll (Of SendingClosed)) e (
        recv_round-Of SendingClosed on
          (acting-IsKept cb IsAny SendingClosed (closed-Lasts cb) on acting) cb c
          (InLoop-IsClosed cb on acting first c l h))

  IsClosed-Fails : (on : RecvCallbacks W) (ctx : EventContext W) → IsClosed ctx → Fails on ctx
  unfolding close_and_stop receive_frame
  IsClosed-Fails on ctx h =
      let refused = wrapper-refuses ctx in
      let shut = IsClosed-not_queueable ctx h in
      let stop : (status : ℕ)
          → close_and_stop status ctx ≡ returns (pos 1) (record ctx { read_enabled = false }) =
        λ status.
          ap
            (λ (p : ℤ × EventContext W).
              if is_nonzero p.0 then returns p.0 p.1 else returns (pos 0) p.1)
            (refused status [] shut) in
      record {
        wrapper = λ n reason. refused n reason shut;
        stopping = stop;
        refusing = λ iocb bad. rw bad (stop code_protocol_error);
      }

  -- Once `wslay_event_queue_close` has returned 0, in every later state of the session, and in every
  -- round of a call of `wslay_event_recv` in such a state, whatever `wslay_frame_recv` has read in
  -- the round: `wslay_event_queue_close_wrapper` returns 1, having disabled reading and changed
  -- nothing else, and so does `wslay_event_recv` on a frame with a reserved bit or a wrong mask.
  pub wrapper-Fails :
      (cb : EventCallbacks W) (ctx : EventContext W) (n : ℕ) (reason : List ℕ)
      → ctx.close_status < 8
      → (queue_close ctx n reason).0 ≡ pos 0
      → (steps : List (Step W)) → All (IsFineStep cb IsAny) steps
      → (on : RecvCallbacks W) → IsActing cb IsAny on
      → (c : EventContext W) → InLoop cb on (after_steps cb steps (queue_close ctx n reason).1) c
      → (read : At RecvContext (User W)) → Fails on (with_input on c read)
  wrapper-Fails cb ctx n reason flags zero_result steps fine on acting c l read =
      IsClosed-Fails on (with_input on c read) (
        InLoop-IsClosed cb on acting (after_steps cb steps (queue_close ctx n reason).1) c l
          (after_steps-IsClosed cb ctx n reason flags zero_result steps fine))
