-- ===== src/Event/Whole/Tests.antt =====
-- A client that sends two messages over a connection that takes at most five bytes at once.
use wslay.Prelude.{
  ℕ, ◌≡◌, refl, min, length-replicate, true, false, List, [], ◌∷◌, ◌++◌, length, take, replicate,
  arith,
}
use wslay.Protocol.{text_frame, binary_frame, is_ctrl_frame}
use wslay.Frame.Bytes.{be_number, mask_bytes}
use wslay.Frame.Send.{frame_send}
use wslay.Frame.Send.Output.{IsSink}
use wslay.Event.Context.{User, EventCallbacks, EventContext, event_context_new, frame_callbacks}
use wslay.Event.Queueing.{Msg, queue_msg}
use wslay.Event.SendLoop.{event_send}
use wslay.Event.Calls.{Call, queues, sends, after_calls}
use wslay.Event.Whole.Streaming.{IsStreaming}
use wslay.Event.Whole.Streaming.Given.{taken, after_calls-IsStreaming}

abbrev narrow : EventCallbacks (List ℕ)
narrow = record {
  recv_callback = λ len u. ([], u);
  send_callback = λ xs flags user u. (
    min 5 (length xs),
    record { user_data = u.user_data ++ take (min 5 (length xs)) xs; error = u.error },
  );
  genmask_callback = λ len u. (true, replicate len 7, u);
}

abbrev on_wire : User (List ℕ) → List ℕ
on_wire u = u.user_data

narrow-IsSink : IsSink (frame_callbacks narrow) on_wire
narrow-IsSink = record {
  at_most = λ xs flags user w. omega arith;
  goes_out = λ xs flags user w. refl;
  key_size = λ len w good. length-replicate len 7;
  key_silent = λ len w. refl;
}

abbrev hi : Msg
hi = record { opcode = text_frame; msg = 72 ∷ 105 ∷ [] }

abbrev bye : Msg
bye = record { opcode = binary_frame; msg = 33 ∷ [] }

-- The first call of `wslay_event_send` stops in the header of the first message.
abbrev transfers : List (Call (List ℕ))
transfers = queues hi ∷ sends 3 ∷ queues bye ∷ sends 1 ∷ sends 3 ∷ sends 3 ∷ []

abbrev client : EventContext (List ℕ)
client = event_context_new false []

-- Both frames, masked with the key of sevens.
both_frames :
    (after_calls narrow transfers client).user.user_data
    ≡ 0x81 ∷ 0x82 ∷ 7 ∷ 7 ∷ 7 ∷ 7 ∷ 79 ∷ 110 ∷ 0x82 ∷ 0x81 ∷ 7 ∷ 7 ∷ 7 ∷ 7 ∷ 38 ∷ []
unfolding after_calls event_context_new event_send queue_msg frame_send is_ctrl_frame be_number
    mask_bytes
both_frames = refl

after_calls-IsStreaming_example :
    IsStreaming on_wire [] false
      (taken narrow transfers client)
      (after_calls narrow transfers client)
unfolding event_context_new is_ctrl_frame
after_calls-IsStreaming_example =
    after_calls-IsStreaming narrow on_wire narrow-IsSink false [] transfers (
      (refl, omega arith, omega arith),
      (tt, ((refl, omega arith, omega arith), (tt, (tt, (tt, tt))))),
    )
