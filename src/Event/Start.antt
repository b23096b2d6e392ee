-- ===== src/Event/Start.antt =====
-- The start of a frame in `wslay_event_recv`: its place among the messages, and the room for it.
use wslay.Prelude.{
  ℕ, zero, suc, ◌+◌, ◌^◌, ◌≤◌, ◌<◌, ◌≡◌, refl, sym, ap, subst, ◌∙◌, inl, inr, Bool, true, false,
  not, ◌&&◌, ◌||◌, ltb, not_ltb, ◌==◌, ==_iff, Bool-cases, some, List, [], arith, length, bit_and,
}
use wslay.Protocol.{text_frame, binary_frame, Iocb, continuation_frame}
use wslay.Utf8.{utf8_accept, run}
use wslay.Frame.Bytes.{add64}
use wslay.Event.Context.{Imsg, EventContext, User, config_no_buffering}
use wslay.Event.Queueing.{config_get_no_buffering}
use wslay.Event.Recv.{
  OnMsgRecvArg, RecvCallbacks, imsg_set, imsg_append_chunk, imsg, set_imsg, queue_used, is_control,
  bad_frame, begin_frame, start_frame, call_start,
}
use wslay.Event.RecvLoop.{receive_piece, receive_frame}
use wslay.Event.Chunks.{concat}
use wslay.Event.Refusal.{differs, own_mask}
use wslay.Event.View.{
  View, view, pick, msg_of, msg_of-put, IsObserver, text_state, no_chunk, Held-new,
}
use wslay.Event.Pieces.{IsMsg, Slot, IsPlace, IsPlace-put, InFrame}
use wslay.Event.Finish.{IsBetween, IsBlank}

module _ {W : Type 0} (on : RecvCallbacks W) (log : User W → List OnMsgRecvArg)
    (obs : IsObserver on log) (k : Slot) (op : ℕ) (m : List ℕ) where
  -- The message with the frame's number and length taken over.
  abbrev pub Begins : ℕ → EventContext W → Type 0
  Begins last c = IsBetween op m (imsg c) × ((imsg c).fin ≡ last) × IsPlace k 0 0 (view c)

  with_chunk :
      (last n : ℕ) (i : Imsg)
      → length m + n < 2 ^ 64
      → IsBetween op m i
      → i.fin ≡ last
      → IsMsg op last m n [] (text_state op m) (imsg_append_chunk n i)
  unfolding imsg_append_chunk
  with_chunk last zero i small v fin = record {
    opcode = v.opcode;
    fin = fin;
    rsv = v.rsv;
    utf8state = v.utf8state;
    total = v.total ∙ omega arith;
    held = no_chunk refl v.held;
    queue = v.queue;
  }
  with_chunk last (suc n) i small v fin = record {
    opcode = v.opcode;
    fin = fin;
    rsv = v.rsv;
    utf8state = v.utf8state;
    total = ap (λ x. add64 x (suc n)) v.total ∙ omega (arith, small);
    held = Held-new m n i.chunks v.held;
    queue = ap queue_used v.queue;
  }

  start_frame-InFrame :
      (last n : ℕ) (iocb : Iocb) (c : EventContext W)
      → bit_and k.config config_no_buffering ≡ 0
      → k.max < 2 ^ 64
      → iocb.payload_length ≡ n
      → length m + n ≤ k.max
      → Begins last c
      → (s : EventContext W) × (start_frame on iocb c ≡ some s)
        × InFrame k op last m n [] m s
        × (log s.user ≡ log c.user)
  unfolding start_frame config_get_no_buffering
  start_frame-InFrame last n iocb c keep small size fits (between, fin, place) =
      let b : EventContext W = record c { ipayloadlen = iocb.payload_length } in
      let c' = call_start on iocb b in
      let same = (obs.on_start iocb b).0 in
      let between' : IsBetween op m (imsg c') =
        subst (λ (x : View). IsBetween op m (msg_of x)) (sym same) between in
      let fin' : (imsg c').fin ≡ last = ap (λ (x : View). (msg_of x).fin) same ∙ fin in
      let place' : IsPlace k n 0 (view c') = subst (IsPlace k n 0) (sym same) (record {
        config = place.config;
        max = place.max;
        server = place.server;
        second = place.second;
        other = place.other;
        len = size;
        off = place.off;
      }) in
      let room : ltb c.max_recv_msg_length (add64 (imsg c).msg_length iocb.payload_length) ≡ false =
        not_ltb _ _ (omega (arith, place.max, between.total, size, fits, small)) in
      let buffered : ltb 0 (bit_and c'.config config_no_buffering) ≡ false =
        ap (λ x. ltb 0 (bit_and x config_no_buffering)) place'.config ∙ ap (ltb 0) keep in
      let i = imsg_append_chunk iocb.payload_length (imsg c') in
      (
        set_imsg i c',
        rw (room, buffered) refl,
        record {
          msg =
              subst (IsMsg op last m n [] (text_state op m))
                (sym (msg_of-put i (view c') ∙ ap (λ s. imsg_append_chunk s (imsg c')) size))
                (with_chunk last n (imsg c') (omega (arith, fits, small)) between' fin');
          place = IsPlace-put i place';
        },
        (obs.on_start iocb b).1,
      )

  -- A frame that finds its place is started.
  pub receive_frame-starts :
      (last n : ℕ) (iocb : Iocb) (ctx c : EventContext W)
      → bit_and k.config config_no_buffering ≡ 0
      → k.max < 2 ^ 64
      → iocb.payload_length ≡ n
      → length m + n ≤ k.max
      → iocb.rsv ≡ 0
      → iocb.mask ≡ ctx.server
      → begin_frame iocb ctx ≡ some (true, c)
      → Begins last c
      → (s : EventContext W) × (receive_frame on iocb ctx ≡ receive_piece on iocb s)
        × InFrame k op last m n [] m s
        × (log s.user ≡ log c.user)
  unfolding receive_frame bad_frame
  receive_frame-starts last n iocb ctx c keep small size fits plain role place begins =
      let (s, e, v, same) = start_frame-InFrame last n iocb c keep small size fits begins in
      let good : (not (iocb.rsv == 0)
            || ((ctx.server && not iocb.mask) || (not ctx.server && iocb.mask)))
          ≡ false =
        rw ((==_iff iocb.rsv 0).1 plain, role) (own_mask ctx.server) in
      (s, rw (good, place, e) refl, v, same)

text_state-nil : (op : ℕ) → text_state op [] ≡ utf8_accept
unfolding run
text_state-nil op = elim (Bool-cases (op == text_frame)) [ inl e ↦ rw e refl | inr e ↦ rw e refl ]

set_begins : (op fin : ℕ) (i : Imsg) → IsBlank i → IsBetween op [] (imsg_set fin 0 op i)
unfolding imsg_set
set_begins op fin i b = record {
  opcode = refl;
  rsv = refl;
  utf8state = b.utf8state ∙ sym (text_state-nil op);
  total = refl;
  held = ap concat b.chunks;
  queue = b.queue;
}

-- The opcodes of new messages.
abbrev pub starts : ℕ → Bool
starts op = op == text_frame || op == binary_frame || is_control op

module _ {W : Type 0} (on : RecvCallbacks W) (log : User W → List OnMsgRecvArg)
    (obs : IsObserver on log) where
  -- A message from an idle context, in the first place.
  pub begin-idle :
      (k : Slot) (iocb : Iocb) (ctx : EventContext W)
      → starts iocb.opcode ≡ true
      → iocb.rsv ≡ 0
      → k.second ≡ false
      → IsBlank (imsg ctx)
      → IsPlace k 0 0 (view ctx)
      → (c : EventContext W) × (begin_frame iocb ctx ≡ some (true, c))
        × Begins on log obs k iocb.opcode [] iocb.fin c
        × (c.user ≡ ctx.user)
  unfolding begin_frame imsg_set
  begin-idle k iocb ctx kind plain slot blank place =
      let i = imsg_set iocb.fin iocb.rsv iocb.opcode (imsg ctx) in
      let now : imsg (set_imsg i ctx) ≡ i = msg_of-put i (view ctx) in
      (
        set_imsg i ctx,
        rw ((==_iff _ 0xff).1 blank.opcode, kind) refl,
        (
          subst (IsBetween iocb.opcode [])
              (ap (λ r. imsg_set iocb.fin r iocb.opcode (imsg ctx)) (sym plain) ∙ sym now)
              (set_begins iocb.opcode iocb.fin (imsg ctx) blank),
          ap (λ (x : Imsg). x.fin) now,
          IsPlace-put i place,
        ),
        refl,
      )

  -- The next frame of a message.
  pub begin-continues :
      (k : Slot) (op : ℕ) (m : List ℕ) (iocb : Iocb) (ctx : EventContext W)
      → (op == 0xff) ≡ false
      → iocb.opcode ≡ continuation_frame
      → IsBetween op m (imsg ctx)
      → IsPlace k 0 0 (view ctx)
      → (c : EventContext W) × (begin_frame iocb ctx ≡ some (true, c))
        × Begins on log obs k op m iocb.fin c
        × (c.user ≡ ctx.user)
  unfolding begin_frame
  begin-continues k op m iocb ctx used kind v place =
      let i : Imsg = record (imsg ctx) { fin = iocb.fin } in
      let now : imsg (set_imsg i ctx) ≡ i = msg_of-put i (view ctx) in
      (
        set_imsg i ctx,
        rw
            (
              ap (λ o. o == 0xff) v.opcode ∙ used,
              (==_iff _ 0).1 place.len,
              (==_iff _ 0).1 place.off,
              (==_iff _ _).1 kind,
            )
            refl,
        (
          subst (IsBetween op m) (sym now) (record {
            opcode = v.opcode;
            rsv = v.rsv;
            utf8state = v.utf8state;
            total = v.total;
            held = v.held;
            queue = v.queue;
          }),
          ap (λ (x : Imsg). x.fin) now,
          IsPlace-put i place,
        ),
        refl,
      )

  -- A control frame between the frames of a message takes the second place.
  pub begin-control :
      (k : Slot) (op : ℕ) (m : List ℕ) (iocb : Iocb) (ctx : EventContext W)
      → (op == 0xff) ≡ false
      → is_control iocb.opcode ≡ true
      → (iocb.opcode == continuation_frame) ≡ false
      → iocb.rsv ≡ 0
      → k.second ≡ false
      → IsBlank k.other
      → IsBetween op m (imsg ctx)
      → IsPlace k 0 0 (view ctx)
      → (c : EventContext W) × (begin_frame iocb ctx ≡ some (true, c))
        × Begins on log obs
            (record {
              config = k.config;
              max = k.max;
              server = k.server;
              second = true;
              other = imsg ctx;
            })
            iocb.opcode
            []
            iocb.fin
            c
        × (c.user ≡ ctx.user)
  unfolding begin_frame imsg_set
  begin-control k op m iocb ctx used kind other_kind plain slot blank v place =
      let first : ctx.imsg_is_second ≡ false = place.second ∙ slot in
      let second : IsBlank ctx.imsgs.1 =
        subst IsBlank (sym place.other ∙ ap (λ b. pick (not b) ctx.imsgs) first) blank in
      let i = imsg_set iocb.fin iocb.rsv iocb.opcode ctx.imsgs.1 in
      (
        record ctx { imsg_is_second = true; imsgs = (ctx.imsgs.0, i) },
        rw
            (
              ap (λ o. o == 0xff) v.opcode ∙ used,
              (==_iff _ 0).1 place.len,
              (==_iff _ 0).1 place.off,
              other_kind,
              kind,
            )
            refl,
        (
          subst (IsBetween iocb.opcode [])
              (ap (λ r. imsg_set iocb.fin r iocb.opcode ctx.imsgs.1) (sym plain))
              (set_begins iocb.opcode iocb.fin ctx.imsgs.1 second),
          refl,
          record {
            config = place.config;
            max = place.max;
            server = place.server;
            second = refl;
            other = ap (λ b. pick b ctx.imsgs) (sym first);
            len = place.len;
            off = place.off;
          },
        ),
        refl,
      )

  -- A further piece of a frame.
  pub receive_frame-goes_on :
      (k : Slot) (op last : ℕ) (m : List ℕ) (n : ℕ) (d seen : List ℕ) (iocb : Iocb)
      (ctx : EventContext W)
      → (op == 0xff) ≡ false
      → 0 < n
      → iocb.rsv ≡ 0
      → iocb.mask ≡ ctx.server
      → InFrame k op last m n d seen ctx
      → receive_frame on iocb ctx ≡ receive_piece on iocb ctx
  unfolding receive_frame bad_frame begin_frame
  receive_frame-goes_on k op last m n d seen iocb ctx used some_bytes plain role v =
      let inside : (ctx.ipayloadlen == 0) ≡ false =
        differs ctx.ipayloadlen 0 (λ e. absurd (omega (arith, e, v.place.len, some_bytes))) in
      rw ((==_iff iocb.rsv 0).1 plain, role, ap (λ o. o == 0xff) v.msg.opcode ∙ used, inside)
        (rw (own_mask ctx.server) refl)
