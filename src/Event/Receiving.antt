-- ===== src/Event/Receiving.antt =====
-- What `wslay_event_recv` keeps of the sending half of a context: whatever the functions that queue
-- messages and the callbacks keep.
pub mod Message
pub mod Loop
use wslay.Prelude.{ℕ, true, false, Bool, if◌then◌else◌, Option, List, bit_or}
use wslay.Protocol.{Iocb}
use wslay.Event.Context.{Omsg, EventContext, close_received}
use wslay.Event.Queueing.{Msg, queue_msg, queue_close_wrapper}
use wslay.Event.Send.{Round, again, returns}
use wslay.Event.Recv.{RecvCallbacks, OnMsgRecvArg, call_start, call_chunk, call_end, call_msg}
use wslay.Event.RecvLoop.{and_then}
use wslay.Event.Closing.{RoundAll}

-- The fields of the sending half.
pub record Sending (W : Type 0) : Type 0 where
  pub write_enabled : Bool
  pub close_status : ℕ
  pub omsg : Option (Omsg W)
  pub send_queue : List (Omsg W)
  pub send_ctrl_queue : List (Omsg W)
  pub queued_msg_count : ℕ
  pub obuf : List ℕ
  pub obuflimit : ℕ
  pub obufmark : ℕ
  pub opayloadlen : ℕ
  pub opayloadoff : ℕ

abbrev pub sending : {W : Type 0} → EventContext W → Sending W
sending ctx = record {
  write_enabled = ctx.write_enabled;
  close_status = ctx.close_status;
  omsg = ctx.omsg;
  send_queue = ctx.send_queue;
  send_ctrl_queue = ctx.send_ctrl_queue;
  queued_msg_count = ctx.queued_msg_count;
  obuf = ctx.obuf;
  obuflimit = ctx.obuflimit;
  obufmark = ctx.obufmark;
  opayloadlen = ctx.opayloadlen;
  opayloadoff = ctx.opayloadoff;
}

module _ {W : Type 0} (Q : Sending W → Type 0) where
  abbrev pub Of : EventContext W → Type 0
  Of ctx = Q (sending ctx)

  -- The functions that `wslay_event_recv` calls keep the property, and the callbacks do.
  pub record IsKept (on : RecvCallbacks W) : Type 0 where
    pub closing :
        (ctx : EventContext W) (n : ℕ) (reason : List ℕ)
        → Of ctx
        → Of (queue_close_wrapper ctx n reason).1
    pub queueing : (ctx : EventContext W) (arg : Msg) → Of ctx → Of (queue_msg ctx arg).1
    pub closed :
        (ctx : EventContext W)
        → Of ctx
        → Of (record ctx { close_status = bit_or ctx.close_status close_received })
    pub starting : (iocb : Iocb) (ctx : EventContext W) → Of ctx → Of (call_start on iocb ctx)
    pub taking : (iocb : Iocb) (ctx : EventContext W) → Of ctx → Of (call_chunk on iocb ctx)
    pub ending : (ctx : EventContext W) → Of ctx → Of (call_end on ctx)
    pub passing : (arg : OnMsgRecvArg) (ctx : EventContext W) → Of ctx → Of (call_msg on arg ctx)

  pub round_either :
      (b : Bool) (p q : Round W) → RoundAll Of p → RoundAll Of q → RoundAll Of (if b then p else q)
  round_either true p q h k = h
  round_either false p q h k = k

  pub and_then-Of :
      (r : Round W) (f : EventContext W → Round W)
      → RoundAll Of r
      → ((c : EventContext W) → Of c → RoundAll Of (f c))
      → RoundAll Of (and_then r f)
  and_then-Of (again c) f h k = k c h
  and_then-Of (returns r c) f h k = h
