-- ===== src/Event/Messages.antt =====
-- The first message that `wslay_event_recv` passes to the user: a data message in any number of
-- fragments, with a control message between them, or a control message.
use wslay.Prelude.{ℕ, ◌≡◌, Bool, true, false, ◌==◌, List}
use wslay.Protocol.{connection_close}
use wslay.Event.Context.{EventContext, User}
use wslay.Event.Recv.{OnMsgRecvArg, RecvCallbacks}
use wslay.Event.View.{IsObserver}
use wslay.Event.Pieces.{Slot}
use wslay.Event.Start.{starts}

module _ {W : Type 0} (on : RecvCallbacks W) (log : User W → List OnMsgRecvArg)
    (obs : IsObserver on log) where
  record IsStart (op : ℕ) : Type 0 where
    not_close : (op == connection_close) ≡ false
    used : (op == 0xff) ≡ false
    kind : starts op ≡ true

  -- The place of a message that begins in an idle context.
  abbrev first_slot : ℕ → Bool → EventContext W → Slot
  first_slot max server ctx = record {
    config = ctx.config;
    max = max;
    server = server;
    second = false;
    other = ctx.imsgs.1;
  }
