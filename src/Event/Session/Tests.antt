-- ===== src/Event/Session/Tests.antt =====
-- A session of a server: it queues a text, receives a ping, whose callback queues another text, and
-- closes.
use wslay.Prelude.{
  ℕ, refl, true, none, some, List, [], ◌∷◌, ◌++◌, length, take, length-take, arith, pos,
}
use wslay.Protocol.{code, wouldblock, text_frame, is_ctrl_frame}
use wslay.Frame.Bytes.{be_bytes}
use wslay.Event.Context.{EventCallbacks, event_context_new}
use wslay.Event.Queueing.{Msg, queue_msg, queue_close, close_payload, FragmentedMsg}
use wslay.Event.Recv.{RecvCallbacks}
use wslay.Frame.Context.{frame_context_new}
use wslay.Event.RecvLoop.{with_input}
use wslay.Event.Calls.{Call, queues, queues_fragmented, closes, sends, after_call, Shut}
use wslay.Event.Bounds.{IsReader, InBounds}
use wslay.Event.Bounds.Calls.{IsProper}
use wslay.Event.Session.{does, Step, acts, receives, after_acts, after_steps, IsActing}
use wslay.Event.Session.Bounded.{after_steps-InBounds}
use wslay.Event.Session.Shutting.{IsAny, Fails, at_first, after_steps-Shut, wrapper-Fails}

-- A connection that takes everything, and on which a ping comes in first.
abbrev pinged : EventCallbacks (List ℕ)
pinged = record {
  recv_callback = λ len u. elim u.user_data [
    | [] ↦ (0x89 ∷ 0x80 ∷ 1 ∷ 2 ∷ 3 ∷ 4 ∷ [], record { user_data = 0 ∷ []; error = pos 0 })
    | x ∷ xs ↦ ([], record { user_data = x ∷ xs; error = code wouldblock })
  ];
  send_callback =
      λ xs flags user u. (length xs, record { user_data = u.user_data ++ xs; error = u.error });
  genmask_callback = λ len u. (true, 1 ∷ 2 ∷ 3 ∷ 4 ∷ [], u);
}

abbrev text : Msg
text = record { opcode = text_frame; msg = 72 ∷ 105 ∷ [] }

-- A message whose callback reads one byte at a time.
abbrev streamed : FragmentedMsg (List ℕ)
streamed = record {
  opcode = text_frame;
  source = 0;
  read_callback = λ len source u. (some (take 1 (take len (65 ∷ [])), true), u);
}

abbrev answering : RecvCallbacks (List ℕ)
answering = record {
  on_frame_recv_start_callback = none;
  on_frame_recv_chunk_callback = none;
  on_frame_recv_end_callback = none;
  on_msg_recv_callback = some (λ arg ctx. (queue_msg ctx text).1);
}

answering-IsActing :
    (IsFine : Call (List ℕ) → Type 0) → IsFine (queues text) → IsActing pinged IsFine answering
unfolding after_acts after_call
answering-IsActing IsFine fine = record {
  starting = λ iocb ctx. record { done = []; fine = tt; is = refl };
  taking = λ iocb ctx. record { done = []; fine = tt; is = refl };
  ending = λ ctx. record { done = []; fine = tt; is = refl };
  passing = λ arg ctx. record { done = does (queues text) ∷ []; fine = (fine, tt); is = refl };
}

abbrev steps : List (Step (List ℕ))
steps =
    acts (does (queues text))
    ∷ receives answering 3
    ∷ acts (does (queues_fragmented streamed))
    ∷ acts (does (closes 1000 []))
    ∷ acts (does (sends 5))
    ∷ []

streamed-IsReader : IsReader streamed.read_callback
streamed-IsReader len source u =
    let bytes : List ℕ = 65 ∷ [] in
    omega (arith, length-take 1 (take len bytes), length-take len bytes)

after_steps-InBounds_example : InBounds (after_steps pinged steps (event_context_new true []))
after_steps-InBounds_example =
    after_steps-InBounds pinged true [] steps
      (tt, (answering-IsActing IsProper tt, (streamed-IsReader, (tt, (tt, tt)))))

after_steps-Shut_example :
    Shut (after_steps pinged steps (queue_close (event_context_new true []) 1000 []).1)
unfolding event_context_new queue_close is_ctrl_frame close_payload be_bytes
after_steps-Shut_example =
    after_steps-Shut pinged (event_context_new true []) 1000 [] (omega arith) refl steps
      (tt, (answering-IsActing IsAny tt, (tt, (tt, (tt, tt)))))

wrapper-Fails_example : Fails answering (
    with_input answering
      (after_steps pinged steps (queue_close (event_context_new true []) 1000 []).1)
      (record {
        ctx = frame_context_new.input;
        world = record { user_data = 0 ∷ []; error = pos 0 };
      }))
unfolding event_context_new queue_close is_ctrl_frame close_payload be_bytes
wrapper-Fails_example =
    wrapper-Fails pinged (event_context_new true []) 1000 [] (omega arith) refl steps
      (tt, (answering-IsActing IsAny tt, (tt, (tt, (tt, tt))))) answering
      (answering-IsActing IsAny tt)
      (after_steps pinged steps (queue_close (event_context_new true []) 1000 []).1) at_first
      (record {
        ctx = frame_context_new.input;
        world = record { user_data = 0 ∷ []; error = pos 0 };
      })

-- A session without a close frame.
abbrev open_steps : List (Step (List ℕ))
open_steps =
    acts (does (queues text)) ∷ receives answering 3 ∷ acts (does (queues_fragmented streamed)) ∷ []
