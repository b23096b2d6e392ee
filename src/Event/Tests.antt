-- ===== src/Event/Tests.antt =====
-- A server that queues a text message and a close frame, over a connection that takes everything;
-- and the pieces of a message that comes in.
use wslay.Prelude.{
  if◌then◌else◌, ◌==◌, ◌≢◌, ◌↔◌, are_bytes-All, false, inl, ℕ, ◌≡◌, refl, true, Option, none, some,
  List, [], ◌∷◌, ◌++◌, length, arith, ℤ, pos,
}
use wslay.Protocol.{text_frame, ping, connection_close, is_ctrl_frame, Iocb, code_protocol_error}
use wslay.Frame.Bytes.{be_bytes, be_number}
use wslay.Frame.Send.{frame_send}
use wslay.Utf8.{utf8_accept}
use wslay.Utf8.Grammar.{IsUtf8}
use wslay.Event.Recv.{imsg, check_utf8, flatten_queue, OnMsgRecvArg, RecvCallbacks}
use wslay.Event.Text.{check_utf8-accept_iff}
use wslay.Event.Chunks.{concat, flatten_queue-concat}
use wslay.Event.Context.{live, User, EventCallbacks, EventContext, event_context_new, imsg_new}
use wslay.Event.Queueing.{
  Msg, queue_msg, queue_close, close_payload, omsg_non_fragmented_new, is_valid_status_code,
}
use wslay.Event.Send.{Round, again, returns, sent_status, choose}
use wslay.Event.SendLoop.{round, event_send}
use wslay.Event.Calls.{queues, closes, after_calls}
use wslay.Event.Priority.{TakesCtrl, choose-TakesCtrl}
use wslay.Event.Status.{reported, sent_status-close_payload, close_msg, Ended, round-Ended}
use wslay.Event.Counts.{IsWhole}
use wslay.Event.Script.{begun, control, ends, Message}
use wslay.Event.Answer.{Stops}
use wslay.Event.Refusal.{wrong_mask, receive_frame-Closes}
use wslay.Event.Replies.{AnswersClose, receive_close-AnswersClose}
use wslay.Event.RecvLoop.{receive_frame, receive_close}
use wslay.Event.Rounds.{Returned, event_send-Returned}

abbrev wire : EventCallbacks (List ℕ)
wire = record {
  recv_callback = λ len u. ([], u);
  send_callback =
      λ xs flags user u. (length xs, record { user_data = u.user_data ++ xs; error = u.error });
  genmask_callback = λ len u. (true, 1 ∷ 2 ∷ 3 ∷ 4 ∷ [], u);
}

abbrev greeting : Msg
greeting = record { opcode = text_frame; msg = 72 ∷ 105 ∷ [] }

abbrev server : EventContext (List ℕ)
unfolding event_context_new
server = event_context_new true []

-- The server after the two calls.
abbrev filled : EventContext (List ℕ)
unfolding after_calls event_context_new queue_msg queue_close is_ctrl_frame close_payload be_bytes
filled = after_calls wire (queues greeting ∷ closes 1000 [] ∷ []) (event_context_new true [])

result_of : Option (ℤ × EventContext (List ℕ)) → Option (ℤ × List ℕ)
result_of none = none
result_of (some (r, ctx)) = some (r, ctx.user.user_data)

-- The close frame goes first, and ends the sending.
only_close : result_of (event_send wire 5 filled) ≡ some (pos 0, 0x88 ∷ 2 ∷ 3 ∷ 232 ∷ [])
unfolding result_of event_send filled frame_send is_ctrl_frame be_number be_bytes
only_close = refl

sent_status-close_payload_example : sent_status (close_payload 1000 []) ≡ reported 1000
sent_status-close_payload_example = sent_status-close_payload 1000 [] (omega arith)

filled-IsWhole : IsWhole filled
unfolding filled be_bytes
filled-IsWhole = record { queue = (refl, tt); ctrl = (refl, tt); omsg = tt }

event_send-Returned_example : Returned (event_send wire 2 filled)
unfolding filled be_bytes
event_send-Returned_example = event_send-Returned wire 2 filled filled-IsWhole (omega arith)

-- The close frame is under way.
abbrev closing : EventContext (List ℕ)
unfolding server
closing = record server { omsg = some (close_msg 1000 []); opayloadlen = 2; close_status = 2 }

context_of : Round (List ℕ) → EventContext (List ℕ)
context_of (again ctx) = ctx
context_of (returns r ctx) = ctx

abbrev ended : EventContext (List ℕ)
unfolding context_of round
ended = context_of (round wire closing)

goes_on : round wire closing ≡ again ended
unfolding context_of ended closing server event_context_new omsg_non_fragmented_new round frame_send
    is_ctrl_frame close_msg close_payload be_bytes be_number
goes_on = refl

round-Ended_example : Ended 1000 ended
unfolding closing
round-Ended_example =
    round-Ended wire closing ended 1000 [] refl (omega arith) (omega arith) goes_on

choose-TakesCtrl_example : TakesCtrl filled (choose filled)
unfolding filled be_bytes
choose-TakesCtrl_example = choose-TakesCtrl filled (inl refl) refl

check_utf8-accept_iff_example :
    ((imsg (check_utf8 (0xc3 ∷ 0xa9 ∷ []) server).1).utf8state ≡ utf8_accept)
    ↔ IsUtf8 (0xc3 ∷ 0xa9 ∷ [])
unfolding server event_context_new imsg_new
check_utf8-accept_iff_example =
    check_utf8-accept_iff (0xc3 ∷ 0xa9 ∷ []) server (are_bytes-All (0xc3 ∷ 0xa9 ∷ []) refl) refl

abbrev two_chunks : List (List ℕ)
two_chunks = (72 ∷ 105 ∷ []) ∷ (33 ∷ []) ∷ []

flatten_queue-concat_example :
    ((flatten_queue two_chunks (length (concat two_chunks))).0
      ≡ (if length (concat two_chunks) == 0 then none else some (concat two_chunks)))
    × (length (concat two_chunks) ≢ 0
        → (flatten_queue two_chunks (length (concat two_chunks))).1 ≡ [])
flatten_queue-concat_example = flatten_queue-concat two_chunks

-- Callbacks that note the messages.
abbrev noting : RecvCallbacks (List OnMsgRecvArg)
noting = record {
  on_frame_recv_start_callback = none;
  on_frame_recv_chunk_callback = none;
  on_frame_recv_end_callback = none;
  on_msg_recv_callback = some (λ arg ctx. record ctx {
    user = record ctx.user { user_data = ctx.user.user_data ++ arg ∷ [] };
  });
}

abbrev noted_by : User (List OnMsgRecvArg) → List OnMsgRecvArg
noted_by u = u.user_data

-- A text in two frames, the first in two pieces, with a ping between them.
abbrev hi : Message
hi =
    begun text_frame ((72 ∷ []) ∷ (105 ∷ []) ∷ [])
      (control ping ((1 ∷ 2 ∷ []) ∷ []) (ends ((33 ∷ []) ∷ [])))

abbrev listening : EventContext (List OnMsgRecvArg)
unfolding event_context_new imsg_new
listening = event_context_new true []

-- A frame without a mask, to a server.
abbrev unmasked_frame : Iocb
unmasked_frame = record {
  fin = 1;
  rsv = 0;
  opcode = text_frame;
  payload_length = 0;
  mask = false;
  payload = [];
}

receive_frame-Closes_example :
    Stops code_protocol_error listening (receive_frame noting unmasked_frame listening)
unfolding listening event_context_new
receive_frame-Closes_example =
    receive_frame-Closes noting unmasked_frame listening code_protocol_error (omega arith)
      (wrong_mask (λ e. absurd (ground (arith, e))))

-- A close message with status code 1000 came in.
abbrev told_to_close : EventContext (List OnMsgRecvArg)
told_to_close = record listening {
  imsgs = (
    record {
      fin = 1;
      rsv = 0;
      opcode = connection_close;
      utf8state = 0;
      chunks = [];
      queue = live;
      msg_length = 2;
    },
    listening.imsgs.1,
  );
}

receive_close-AnswersClose_example :
    AnswersClose (3 ∷ 232 ∷ []) told_to_close (receive_close (3 ∷ 232 ∷ []) told_to_close)
unfolding listening event_context_new is_valid_status_code be_number
receive_close-AnswersClose_example =
    receive_close-AnswersClose (3 ∷ 232 ∷ []) told_to_close refl (omega arith)
      (are_bytes-All (3 ∷ 232 ∷ []) refl) (omega arith) (λ _. refl)
