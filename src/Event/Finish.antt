-- ===== src/Event/Finish.antt =====
-- The end of a frame in `wslay_event_recv`, and of a message.
use wslay.Prelude.{
  ℕ, ◌+◌, ◌^◌, ◌≤◌, ◌<◌, ◌≡◌, ◌≢◌, refl, sym, ap, subst, ◌∙◌, inl, inr, Bool, true, false, not,
  ◌&&◌, ◌==◌, ==_iff, Bool-cases, if◌then◌else◌, Option, none, some, List, [], ◌++◌, arith, length,
  length-append, nil_of_length, All, IsByte, bit_and, ℤ, pos,
}
use wslay.Protocol.{connection_close, Iocb}
use wslay.Utf8.{utf8_accept, utf8_reject}
use wslay.Event.Context.{live, freed, Imsg, EventContext, User, config_no_buffering}
use wslay.Event.Send.{Round, again, returns, is_some}
use wslay.Event.Recv.{OnMsgRecvArg, RecvCallbacks, flatten_queue, imsg, call_end, take_piece}
use wslay.Event.RecvLoop.{msg_bytes, finish_frame, receive_piece}
use wslay.Event.Chunks.{concat, flatten_queue-concat}
use wslay.Event.Refusal.{differs}
use wslay.Event.View.{View, view, pick, msg_of, IsObserver, text_state, Held-whole}
use wslay.Event.Pieces.{IsMsg, Slot, IsPlace, InFrame, check-InFrame, take_piece-InFrame}

-- The message between two of its frames.
pub record IsBetween (op : ℕ) (m : List ℕ) (i : Imsg) : Type 0 where
  pub opcode : i.opcode ≡ op
  pub rsv : i.rsv ≡ 0
  pub utf8state : i.utf8state ≡ text_state op m
  pub total : i.msg_length ≡ length m
  pub held : concat i.chunks ≡ m
  pub queue : i.queue ≡ live

-- A place that no message has used.
pub record IsBlank (i : Imsg) : Type 0 where
  pub opcode : i.opcode ≡ 0xff
  pub utf8state : i.utf8state ≡ utf8_accept
  pub chunks : i.chunks ≡ []
  pub queue : i.queue ≡ live

-- A place after its first message: its queue has been freed once, and not used since.
pub record IsReset (i : Imsg) : Type 0 where
  pub opcode : i.opcode ≡ 0xff
  pub utf8state : i.utf8state ≡ utf8_accept
  pub chunks : i.chunks ≡ []
  pub queue : i.queue ≡ freed

-- A message is over: its place is reset, and the other message, if it is the first, goes on.
pub record IsOver (k : Slot) (v : View) : Type 0 where
  pub config : v.config ≡ k.config
  pub max : v.max ≡ k.max
  pub server : v.server ≡ k.server
  pub first : v.second ≡ false
  pub reset : IsReset (pick k.second v.imsgs)
  pub other : pick (not k.second) v.imsgs ≡ k.other
  pub len : v.len ≡ 0
  pub off : v.off ≡ 0

-- What the user is passed of a message without a status code.
abbrev pub passed : ℕ → List ℕ → OnMsgRecvArg
passed op msg = record { rsv = 0; opcode = op; msg = msg; status_code = 0 }

module _ {W : Type 0} (on : RecvCallbacks W) (log : User W → List OnMsgRecvArg)
    (obs : IsObserver on log) (k : Slot) (op : ℕ) (m : List ℕ) (n : ℕ) where
  -- A piece of a frame, up to the test whether the frame is whole.
  pub receive_piece-InFrame :
      (last : ℕ) (iocb : Iocb) (d : List ℕ) (ctx : EventContext W)
      → bit_and k.config config_no_buffering ≡ 0
      → n < 2 ^ 64
      → (op == connection_close) ≡ false
      → length d + length iocb.payload ≤ n
      → All IsByte iocb.payload
      → text_state op ((m ++ d) ++ iocb.payload) ≢ utf8_reject
      → InFrame k op last m n d (m ++ d) ctx
      → (t : EventContext W) × (receive_piece on iocb ctx
          ≡ (if t.ipayloadoff == t.ipayloadlen then finish_frame on iocb t else again t))
        × InFrame k op last m n (d ++ iocb.payload) ((m ++ d) ++ iocb.payload) t
        × (log t.user ≡ log ctx.user)
  unfolding receive_piece
  receive_piece-InFrame last iocb d ctx keep small not_close fits bytes alive v =
      let (c, e, checked, user) = check-InFrame k op last m n iocb d ctx not_close bytes alive v in
      let (taken, log_same) =
        take_piece-InFrame k op last m n on log obs iocb d ((m ++ d) ++ iocb.payload) c keep small
          fits checked in
      let fine : ((imsg c).utf8state == utf8_reject) ≡ false =
        ap (λ s. s == utf8_reject) checked.msg.utf8state ∙ differs _ _ alive in
      (
        take_piece on iocb c,
        ap after e
            ∙ ap
                (λ b.
                  if b
                  then returns (pos 0) c
                  else if (take_piece on iocb c).ipayloadoff == (take_piece on iocb c).ipayloadlen
                  then finish_frame on iocb (take_piece on iocb c)
                  else again (take_piece on iocb c))
                fine,
        taken,
        log_same ∙ ap log user,
      )
    where
      after : Option ℤ × EventContext W → Round W
      after (failed, checked) = elim failed [
        | some r ↦ returns r checked
        | none ↦
            if (imsg checked).utf8state == utf8_reject
            then returns (pos 0) checked
            else let taken = take_piece on iocb checked in
              if taken.ipayloadoff == taken.ipayloadlen
              then finish_frame on iocb taken
              else again taken
      ]

  -- After the callback at the end of a frame.
  pub after_end :
      (last : ℕ) (d seen : List ℕ) (ctx : EventContext W)
      → InFrame k op last m n d seen ctx
      → InFrame k op last m n d seen (call_end on ctx)
  after_end last d seen ctx v =
      let same = (obs.on_end ctx).0 in
      record {
        msg =
            subst (λ (x : View). IsMsg op last m n d (text_state op seen) (msg_of x)) (sym same)
              v.msg;
        place = subst (IsPlace k n (length d)) (sym same) v.place;
      }

  pub whole-IsBetween :
      (last : ℕ) (d : List ℕ) (i : Imsg)
      → length d ≡ n
      → IsMsg op last m n d (text_state op (m ++ d)) i
      → IsBetween op (m ++ d) i
  whole-IsBetween last d i size v = record {
    opcode = v.opcode;
    rsv = v.rsv;
    utf8state = v.utf8state;
    total = v.total ∙ omega (arith, length-append m d, size);
    held = Held-whole m d n i.chunks size v.held;
    queue = v.queue;
  }

  -- A frame that is not the last one leaves the message with its payload.
  pub finish_frame-IsBetween :
      (iocb : Iocb) (d : List ℕ) (ctx : EventContext W)
      → length d ≡ n
      → InFrame k op 0 m n d (m ++ d) ctx
      → (c : EventContext W) × (finish_frame on iocb ctx ≡ again c)
        × IsBetween op (m ++ d) (imsg c)
        × IsPlace k 0 0 (view c)
        × (log c.user ≡ log ctx.user)
  unfolding finish_frame
  finish_frame-IsBetween iocb d ctx size v =
      let ended = call_end on ctx in
      let u = after_end 0 d (m ++ d) ctx v in
      let more : ((imsg ctx).fin == 0) ≡ true = (==_iff (imsg ctx).fin 0).1 v.msg.fin in
      let more' : ((imsg ended).fin == 0) ≡ true = (==_iff (imsg ended).fin 0).1 u.msg.fin in
      (
        record ended { ipayloadlen = 0; ipayloadoff = 0 },
        rw (more, more') refl,
        whole-IsBetween 0 d (imsg ended) size u.msg,
        record {
          config = u.place.config;
          max = u.place.max;
          server = u.place.server;
          second = u.place.second;
          other = u.place.other;
          len = refl;
          off = refl;
        },
        (obs.on_end ctx).1,
      )

  -- The payload of a whole message, put together.
  pub flattened :
      (i : Imsg) (whole : List ℕ)
      → IsBetween op whole i
      → (msg_bytes (flatten_queue i.chunks i.msg_length).0 ≡ whole)
        × ((not (i.msg_length == 0) && not (is_some (flatten_queue i.chunks i.msg_length).0))
            ≡ false)
  flattened i whole v =
      let size : i.msg_length ≡ length (concat i.chunks) = v.total ∙ ap length (sym v.held) in
      let flat : (flatten_queue i.chunks i.msg_length).0
          ≡ (if length (concat i.chunks) == 0 then none else some (concat i.chunks)) =
        ap (λ s. (flatten_queue i.chunks s).0) size ∙ (flatten_queue-concat i.chunks).0 in
      elim (Bool-cases (length (concat i.chunks) == 0)) [
        | inl empty ↦
            let nil : concat i.chunks ≡ [] =
              nil_of_length (concat i.chunks) ((==_iff _ 0).0 empty) in
            let got : (flatten_queue i.chunks i.msg_length).0 ≡ none =
              flat ∙ ap (λ b. if b then none else some (concat i.chunks)) empty in
            (
              ap msg_bytes got ∙ sym nil ∙ v.held,
              ap (λ s. not (s == 0) && not (is_some (flatten_queue i.chunks i.msg_length).0)) size
                  ∙ ap (λ b. not b && not (is_some (flatten_queue i.chunks i.msg_length).0)) empty,
            )
        | inr full ↦
            let got : (flatten_queue i.chunks i.msg_length).0 ≡ some (concat i.chunks) =
              flat ∙ ap (λ b. if b then none else some (concat i.chunks)) full in
            (
              ap msg_bytes got ∙ v.held,
              ap (λ o. not (i.msg_length == 0) && not (is_some o)) got
                  ∙ never (not (i.msg_length == 0)),
            )
      ]
    where
      never : (b : Bool) → (b && false) ≡ false
      never true = refl
      never false = refl
