-- ===== src/Event/Session.antt =====
-- A whole session with the event layer: calls that queue, configure and send, and calls of
-- `wslay_event_recv`, whose callbacks call functions of the library in their turn.
pub mod Shutting
pub mod Bounded
pub mod Counting
mod Tests
use wslay.Prelude.{ℕ, ◌≡◌, sym, subst, Option, none, some, List, [], ◌∷◌, All, ℤ, pos, bit_or}
use wslay.Protocol.{Iocb}
use wslay.Event.Context.{User, EventCallbacks, EventContext, close_received}
use wslay.Event.Queueing.{Msg}
use wslay.Event.Recv.{RecvCallbacks, OnMsgRecvArg, call_start, call_chunk, call_end, call_msg}
use wslay.Event.RecvLoop.{event_recv}
use wslay.Event.Closing.{SentAll}
use wslay.Event.Calls.{Call, queues, fails, sent_context, after_call}
use wslay.Event.Receiving.{Sending, Of, IsKept}
use wslay.Event.Receiving.Loop.{event_recv-Of}

-- What the application does outside `wslay_event_recv` and in its callbacks: a call, or a change of
-- its own data and of `error`.
pub data Act (W : Type 0) : Type 0 where
  does : Call W → Act W
  changes : User W → Act W

unfoldable pub after_acts :
    {W : Type 0} → EventCallbacks W → List (Act W) → EventContext W → EventContext W
after_acts cb [] ctx = ctx
after_acts cb (does c ∷ acts) ctx = after_acts cb acts (after_call cb c ctx)
after_acts cb (changes user ∷ acts) ctx = after_acts cb acts (record ctx { user = user })

-- A step of the session; `wslay_event_recv` has a bound on its rounds.
pub data Step (W : Type 0) : Type 0 where
  acts : Act W → Step W
  receives : RecvCallbacks W → ℕ → Step W

-- The context after `wslay_event_recv` is as it was if the rounds were too few.
unfoldable pub after_steps :
    {W : Type 0} → EventCallbacks W → List (Step W) → EventContext W → EventContext W
unfolding after_acts sent_context
after_steps cb [] ctx = ctx
after_steps cb (acts a ∷ steps) ctx = after_steps cb steps (after_acts cb (a ∷ []) ctx)
after_steps cb (receives on rounds ∷ steps) ctx =
    after_steps cb steps (sent_context ctx (event_recv on cb rounds ctx))

module _ {W : Type 0} (cb : EventCallbacks W) (IsFine : Call W → Type 0) where
  abbrev pub IsFineAct : Act W → Type 0
  IsFineAct (does c) = IsFine c
  IsFineAct (changes user) = Unit

  -- The context `after` a callback is one that the functions of the library lead to.
  pub record Acts (before after : EventContext W) : Type 0 where
    pub done : List (Act W)
    pub fine : All IsFineAct done
    pub is : after ≡ after_acts cb done before

  -- Every callback does what the application may do.
  pub record IsActing (on : RecvCallbacks W) : Type 0 where
    pub starting : (iocb : Iocb) (ctx : EventContext W) → Acts ctx (call_start on iocb ctx)
    pub taking : (iocb : Iocb) (ctx : EventContext W) → Acts ctx (call_chunk on iocb ctx)
    pub ending : (ctx : EventContext W) → Acts ctx (call_end on ctx)
    pub passing :
        (arg : OnMsgRecvArg) (ctx : EventContext W)
        → Acts (record ctx { user = record ctx.user { error = pos 0 } }) (call_msg on arg ctx)

  abbrev pub IsFineStep : Step W → Type 0
  IsFineStep (acts a) = IsFineAct a
  IsFineStep (receives on rounds) = IsActing on

  -- A property of the sending half that the calls keep.
  pub record Lasts (Q : Sending W → Type 0) : Type 0 where
    pub calling :
        (c : Call W) (ctx : EventContext W) → IsFine c → Of Q ctx → Of Q (after_call cb c ctx)
    pub failing : (n : ℕ) (reason : List ℕ) → IsFine (fails n reason)
    pub queueing : (arg : Msg) → IsFine (queues arg)
    pub closed :
        (ctx : EventContext W)
        → Of Q ctx
        → Of Q (record ctx { close_status = bit_or ctx.close_status close_received })

  module _ (Q : Sending W → Type 0) (lasts : Lasts Q) where
    after_acts-Of :
        (done : List (Act W)) (ctx : EventContext W)
        → All IsFineAct done
        → Of Q ctx
        → Of Q (after_acts cb done ctx)
    unfolding after_acts
    after_acts-Of [] ctx fine h = h
    after_acts-Of (does c ∷ done) ctx fine h =
        after_acts-Of done (after_call cb c ctx) fine.1 (lasts.calling c ctx fine.0 h)
    after_acts-Of (changes user ∷ done) ctx fine h =
        after_acts-Of done (record ctx { user = user }) fine.1 h

    acted : (before after : EventContext W) → Acts before after → Of Q before → Of Q after
    acted before after a h = subst (Of Q) (sym a.is) (after_acts-Of a.done before a.fine h)

    pub acting-IsKept : (on : RecvCallbacks W) → IsActing on → IsKept Q on
    unfolding after_call
    acting-IsKept on a = record {
      closing = λ ctx n reason h. lasts.calling (fails n reason) ctx (lasts.failing n reason) h;
      queueing = λ ctx arg h. lasts.calling (queues arg) ctx (lasts.queueing arg) h;
      closed = lasts.closed;
      starting = λ iocb ctx h. acted ctx (call_start on iocb ctx) (a.starting iocb ctx) h;
      taking = λ iocb ctx h. acted ctx (call_chunk on iocb ctx) (a.taking iocb ctx) h;
      ending = λ ctx h. acted ctx (call_end on ctx) (a.ending ctx) h;
      passing = λ arg ctx h.
          acted (record ctx { user = record ctx.user { error = pos 0 } }) (call_msg on arg ctx)
            (a.passing arg ctx) h;
    }

    sent_context-Of :
        (ctx : EventContext W) (o : Option (ℤ × EventContext W))
        → Of Q ctx
        → SentAll (Of Q) o
        → Of Q (sent_context ctx o)
    unfolding sent_context
    sent_context-Of ctx none h k = h
    sent_context-Of ctx (some (r, c)) h k = k

    -- What the calls keep, a whole session keeps.
    pub after_steps-Of :
        (steps : List (Step W)) (ctx : EventContext W)
        → All IsFineStep steps
        → Of Q ctx
        → Of Q (after_steps cb steps ctx)
    unfolding after_steps
    after_steps-Of [] ctx fine h = h
    after_steps-Of (acts a ∷ steps) ctx fine h =
        after_steps-Of steps (after_acts cb (a ∷ []) ctx) fine.1
          (after_acts-Of (a ∷ []) ctx (fine.0, tt) h)
    after_steps-Of (receives on rounds ∷ steps) ctx fine h =
        let o = event_recv on cb rounds ctx in
        after_steps-Of steps (sent_context ctx o) fine.1
          (sent_context-Of ctx o h (event_recv-Of Q on (acting-IsKept on fine.0) cb rounds ctx h))
