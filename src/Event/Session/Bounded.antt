-- ===== src/Event/Session/Bounded.antt =====
-- The bounds of the sending half over a whole session.
use wslay.Prelude.{Bool, List, All}
use wslay.Event.Context.{EventCallbacks, event_context_new}
use wslay.Event.Receiving.{Sending}
use wslay.Event.Bounds.{IsStored, IsUnderWay, InBounds}
use wslay.Event.Bounds.Calls.{IsProper, after_call-InBounds, event_context_new-InBounds}
use wslay.Event.Session.{Step, after_steps, IsFineStep, after_steps-Of}

module _ {W : Type 0} where
  abbrev SendingInBounds : Sending W → Type 0
  SendingInBounds s =
      IsStored s.send_ctrl_queue s.send_queue s.obufmark s.obuflimit s.obuf
      × IsUnderWay s.omsg s.opayloadoff s.opayloadlen

  -- In every state of a session with a new context, whatever is called in it and in the callbacks of
  -- `wslay_event_recv`, as long as reading callbacks fill in no more than they are asked for, the
  -- control messages that wait or are sent have at most 125 bytes, `obufmark` and `obuflimit` are
  -- inside the 4096 bytes of `obuf`, and `opayloadoff` is inside the payload that is sent.
  pub after_steps-InBounds :
      (cb : EventCallbacks W) (server : Bool) (user_data : W) (steps : List (Step W))
      → All (IsFineStep cb IsProper) steps
      → InBounds (after_steps cb steps (event_context_new server user_data))
  after_steps-InBounds cb server user_data steps fine =
      after_steps-Of cb IsProper SendingInBounds
        (record {
          calling = λ c ctx p h. after_call-InBounds cb c ctx p h;
          failing = λ n reason. tt;
          queueing = λ arg. tt;
          closed = λ ctx h. h;
        })
        steps (event_context_new server user_data) fine
        (event_context_new-InBounds server user_data)
