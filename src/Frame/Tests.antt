-- ===== src/Frame/Tests.antt =====
-- The frame layer over a connection with small buffers.
use wslay.Prelude.{
  ℕ, zero, suc, ap, ◌<◌, ◌-◌, ◌≡◌, refl, sym, inl, inr, true, false, List, [], ◌∷◌, ◌++◌, arith,
  length, take, drop, replicate, length-take, take-append-drop, length-replicate, min,
  are_bytes-All,
}
use wslay.Protocol.{want_read, want_write, Iocb, is_ctrl_frame}
use wslay.Frame.Wire.{iocb_header, header, frame, masked}
use wslay.Frame.Bytes.{mask_bytes}
use wslay.Frame.Context.{
  prep_header, RecvContext, SendContext, frame_context_new, FrameCallbacks, Outcome, ok, err, At,
  Ensures,
}
use wslay.Frame.Send.{frame_send}
use wslay.Frame.Send.Header.{IsSendable}
use wslay.Frame.Send.Output.{IsSink}
use wslay.Frame.Send.Stages.{Done}
use wslay.Frame.Send.Sound.{FailsFrom, frame_send-Done}
use wslay.Frame.Send.Calls.{start, full, Calls-frame}
use wslay.Frame.Send.Refuse.{Rejects, frame_send-Rejects}
use wslay.Frame.Recv.{frame_recv}
use wslay.Frame.Recv.Input.{IsSource, IsEager}
use wslay.Frame.Recv.Progress.{InProgress, Received}
use wslay.Frame.Recv.Header.{Kept}
use wslay.Frame.Bytes.{be_number}
use wslay.Frame.Recv.Reads.{Whole, encode, no_calls, piece, Parsed, Reads-Parsed}
use wslay.Frame.Recv.Sound.{frame_recv-Received}
use wslay.Frame.Recv.Agrees.{Agrees, Reads-Agrees}
use wslay.Frame.Exchange.{no_frames, one_frame, IsFrame, payloads, Sends-Agrees, Sends-Delivered}
use wslay.Frame.Recv.Live.{Delivered}
use wslay.Frame.Recv.Legal.{IsPart, frame_recv-IsPart}

-- What is to come, what went out, and how many bytes the connection still takes.
record Net : Type 0 where
  incoming : List ℕ
  outgoing : List ℕ
  room : ℕ

-- At most three bytes come at once, and at most five go out.
abbrev net : FrameCallbacks Net
net = record {
  send_callback = λ xs flags user w.
      let n = min (min 5 w.room) (length xs) in
      (n, record { incoming = w.incoming; outgoing = w.outgoing ++ take n xs; room = w.room - n });
  recv_callback = λ len w. (
    take (min 3 len) w.incoming,
    record { incoming = drop (min 3 len) w.incoming; outgoing = w.outgoing; room = w.room },
  );
  genmask_callback = λ len w. (true, replicate len 7, w);
}

abbrev outgoing_of : Net → List ℕ
outgoing_of w = w.outgoing

abbrev incoming_of : Net → List ℕ
incoming_of w = w.incoming

net-IsSink : IsSink net outgoing_of
net-IsSink = record {
  at_most = λ xs flags user w. omega arith;
  goes_out = λ xs flags user w. refl;
  key_size = λ len w good. length-replicate len 7;
  key_silent = λ len w. refl;
}

net-IsSource : IsSource net incoming_of
net-IsSource = record {
  fits = λ len w. omega (arith, length-take (min 3 len) w.incoming);
  next = λ len w. sym (take-append-drop (min 3 len) w.incoming);
}

-- A masked text frame with three bytes.
abbrev hello : Iocb
hello = record {
  fin = 1;
  rsv = 0;
  opcode = 1;
  payload_length = 3;
  mask = true;
  payload = 72 ∷ 105 ∷ 33 ∷ [];
}

hello-IsSendable : IsSendable hello
unfolding is_ctrl_frame
hello-IsSendable = record {
  fin = omega arith;
  rsv = omega arith;
  opcode = omega arith;
  size = omega arith;
  ctrl_short = λ _. omega arith;
}

abbrev idle : ℕ → At SendContext Net
idle room = record {
  ctx = record {
    oheader = [];
    oheadermark = 0;
    oheaderlimit = 0;
    opayloadlen = 0;
    opayloadoff = 0;
    omask = false;
    omaskkey = [];
    ostate = prep_header;
  };
  world = record { incoming = []; outgoing = []; room = room };
}

state_of : Outcome (At SendContext Net) ℕ → At SendContext Net
state_of (ok n s) = s
state_of (err e s) = s

-- The connection takes five of the six header bytes first.
abbrev halfway : At SendContext Net
unfolding frame_send state_of is_ctrl_frame
halfway = state_of (frame_send net hello (idle 100))

abbrev finished : At SendContext Net
unfolding frame_send state_of is_ctrl_frame
finished = state_of (frame_send net hello halfway)

header_first : frame_send net hello (idle 100) ≡ err want_write halfway
unfolding frame_send state_of is_ctrl_frame
header_first = refl

payload_next : frame_send net hello halfway ≡ ok 3 finished
unfolding frame_send state_of is_ctrl_frame mask_bytes
payload_next = refl

bytes_out : finished.world.outgoing ≡ 0x81 ∷ 0x83 ∷ 7 ∷ 7 ∷ 7 ∷ 7 ∷ 79 ∷ 110 ∷ 38 ∷ []
unfolding frame_send state_of is_ctrl_frame mask_bytes
bytes_out = refl

frame_send-Done_example :
    Ensures
      (Done outgoing_of [] (iocb_header hello) [] hello.payload)
      (FailsFrom net hello outgoing_of net-IsSink [] (idle 100) [])
      (frame_send net hello (idle 100))
frame_send-Done_example =
    frame_send-Done net hello outgoing_of net-IsSink [] hello-IsSendable [] (omega arith) (idle 100)
      (refl, refl, λ _. refl)

Calls-frame_example :
    finished.world.outgoing ≡ [] ++ frame (iocb_header hello) finished.ctx.omaskkey hello.payload
unfolding frame_send state_of is_ctrl_frame mask_bytes
Calls-frame_example =
    Calls-frame net hello outgoing_of net-IsSink [] hello-IsSendable refl (idle 100)
      (refl, refl, λ _. refl) hello.payload halfway (full start want_write halfway header_first) 3
      finished payload_next refl

-- A ping that is too long.
abbrev long_ping : Iocb
long_ping = record {
  fin = 1;
  rsv = 0;
  opcode = 9;
  payload_length = 126;
  mask = false;
  payload = [];
}

frame_send-Rejects_example : Rejects (idle 100) (frame_send net long_ping (idle 100))
unfolding is_ctrl_frame
frame_send-Rejects_example =
    frame_send-Rejects net long_ping (idle 100) refl (inr (inl (refl, omega arith)))

-- A new context whose peer sends the same frame.
abbrev fresh : At RecvContext Net
unfolding frame_context_new
fresh = record {
  ctx = frame_context_new.input;
  world = record {
    incoming = 0x81 ∷ 0x83 ∷ 7 ∷ 7 ∷ 7 ∷ 7 ∷ 79 ∷ 110 ∷ 38 ∷ [];
    outgoing = [];
    room = 0;
  };
}

fresh-InProgress : InProgress incoming_of fresh.world.incoming [] fresh
unfolding fresh frame_context_new masked
fresh-InProgress = record {
  buffer = record {
    size = length-replicate {A = ℕ} 4096 0;
    order = omega arith;
    inside = omega arith;
  };
  state_ok = (refl, refl);
  wire = refl;
}

frame_recv-Received_example :
    Ensures
      (Received incoming_of fresh.world.incoming [])
      (Kept incoming_of fresh.world.incoming [])
      (frame_recv net fresh)
unfolding fresh
frame_recv-Received_example =
    frame_recv-Received net incoming_of net-IsSource fresh.world.incoming
      (are_bytes-All fresh.world.incoming refl) fresh [] fresh-InProgress

read_state : Outcome (At RecvContext Net) Iocb → At RecvContext Net
read_state (ok iocb s) = s
read_state (err e s) = s

read_iocb : Outcome (At RecvContext Net) Iocb → Iocb
read_iocb (ok iocb s) = iocb
read_iocb (err e s) = long_ping

abbrev after_read : At RecvContext Net
unfolding read_state
after_read = read_state (frame_recv net fresh)

abbrev first_read : Iocb
unfolding read_iocb
first_read = read_iocb (frame_recv net fresh)

one_read : frame_recv net fresh ≡ ok first_read after_read
unfolding read_state read_iocb fresh frame_context_new frame_recv is_ctrl_frame be_number after_read
    first_read
one_read = refl

Reads-Parsed_example :
    Parsed net incoming_of fresh.world.incoming ([] ++ first_read.payload) after_read
unfolding fresh
Reads-Parsed_example =
    Reads-Parsed net incoming_of net-IsSource fresh.world.incoming
      (are_bytes-All fresh.world.incoming refl) fresh fresh-InProgress ([] ++ first_read.payload)
      after_read (piece no_calls first_read after_read one_read)

abbrev seven : List ℕ
seven = 7 ∷ 7 ∷ 7 ∷ 7 ∷ []

abbrev hello_frames : List Whole
hello_frames = record { head = iocb_header hello; key = seven; body = hello.payload } ∷ []

Reads-Agrees_example :
    Agrees incoming_of (hello.payload ++ []) ([] ++ first_read.payload) after_read
unfolding fresh frame masked header mask_bytes is_ctrl_frame
Reads-Agrees_example =
    Reads-Agrees net incoming_of net-IsSource hello_frames
      (
        (
          record {
            fin = omega arith;
            rsv = omega arith;
            opcode = omega arith;
            size = omega arith;
            ctrl_short = λ _. omega arith;
            ctrl_whole = λ _. refl;
          },
          refl,
          λ _. refl,
        ),
        tt,
      )
      (are_bytes-All (encode hello_frames) refl) fresh fresh-InProgress ([] ++ first_read.payload)
      after_read (piece no_calls first_read after_read one_read)

hello-IsFrame : IsFrame true hello
unfolding is_ctrl_frame
hello-IsFrame = record {
  sendable = hello-IsSendable;
  whole = refl;
  ctrl_whole = λ _. refl;
  role = refl;
}

Sends-Agrees_example :
    Agrees incoming_of (payloads (hello ∷ [])) ([] ++ first_read.payload) after_read
unfolding fresh frame_send state_of is_ctrl_frame mask_bytes
Sends-Agrees_example =
    Sends-Agrees net outgoing_of net-IsSink net incoming_of net-IsSource true (hello ∷ [])
      (hello-IsFrame, tt) (idle 100) finished refl (λ h. absurd (ground (arith, h)))
      (one_frame no_frames hello hello.payload halfway (full start want_write halfway header_first)
        3 finished payload_next refl)
      fresh.world.incoming bytes_out (are_bytes-All fresh.world.incoming refl) fresh after_read
      fresh-InProgress ([] ++ first_read.payload) (piece no_calls first_read after_read one_read)

take_some : (n : ℕ) (xs : List ℕ) → 0 < n → take n xs ≡ [] → xs ≡ []
take_some zero xs some e = absurd (omega arith)
take_some (suc n) [] some e = refl
take_some (suc n) (x ∷ xs) some e = absurd (omega (arith, ap length e))

net-IsEager : IsEager net incoming_of
net-IsEager len w some e = take_some (min 3 len) w.incoming (omega arith) e

Sends-Delivered_example : Delivered net incoming_of fresh (payloads (hello ∷ [])) []
unfolding fresh frame_context_new frame_send state_of is_ctrl_frame mask_bytes
Sends-Delivered_example =
    Sends-Delivered net outgoing_of net-IsSink net incoming_of net-IsSource net-IsEager true
      (hello ∷ []) (hello-IsFrame, tt) (idle 100) finished refl (λ h. absurd (ground (arith, h)))
      (one_frame no_frames hello hello.payload halfway (full start want_write halfway header_first)
        3 finished payload_next refl)
      fresh bytes_out (are_bytes-All fresh.world.incoming refl) fresh-InProgress

frame_recv-IsPart_example :
    Ensures
      (IsPart incoming_of
        (record { head = iocb_header hello; key = seven; body = hello.payload })
        []
        fresh.world.incoming
        [])
      (λ e t. (e ≡ want_read) × InProgress incoming_of fresh.world.incoming [] t)
      (frame_recv net fresh)
unfolding fresh frame masked header mask_bytes is_ctrl_frame
frame_recv-IsPart_example =
    frame_recv-IsPart net incoming_of net-IsSource
      (record { head = iocb_header hello; key = seven; body = hello.payload })
      (
        record {
          fin = omega arith;
          rsv = omega arith;
          opcode = omega arith;
          size = omega arith;
          ctrl_short = λ _. omega arith;
          ctrl_whole = λ _. refl;
        },
        refl,
        λ _. refl,
      )
      [] (are_bytes-All fresh.world.incoming refl) fresh [] fresh-InProgress
