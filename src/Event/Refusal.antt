-- ===== src/Event/Refusal.antt =====
-- The frames that `wslay_event_recv` refuses.
use wslay.Prelude.{
  ℕ, ◌<◌, ◌≡◌, ◌≢◌, refl, ap, subst, ◌∙◌, inl, inr, Bool, true, false, not, ◌&&◌, ◌||◌, ltb, lt→ltb,
  bit_and, ap₂, ◌==◌, ==_iff, Bool-cases, if◌then◌else◌, Option, none, some, [], ◌∷◌, ◌++◌, arith,
  All, ℤ,
}
use wslay.Protocol.{
  Iocb, connection_close, code_protocol_error, code_message_too_big, continuation_frame, text_frame,
  binary_frame, ping, pong,
}
use wslay.Frame.Bytes.{add64}
use wslay.Event.Context.{EventContext, close_queued, Imsg}
use wslay.Event.Queueing.{is_msg_queueable, close_payload, omsg_non_fragmented_new}
use wslay.Event.Recv.{
  RecvCallbacks, imsg, set_imsg, bad_frame, begin_frame, start_frame, is_control,
}
use wslay.Event.RecvLoop.{receive_frame}
use wslay.Event.Answer.{Closes, Stops, close_and_stop-Closes}

pub differs : (a b : ℕ) → a ≢ b → (a == b) ≡ false
differs a b ne = elim (Bool-cases (a == b)) [ inl e ↦ absurd (ne ((==_iff a b).0 e)) | inr e ↦ e ]

pub own_mask : (server : Bool) → ((server && not server) || (not server && server)) ≡ false
own_mask true = refl
own_mask false = refl

bad_mask :
    (server mask : Bool) → mask ≢ server → ((server && not mask) || (not server && mask)) ≡ true
bad_mask true true ne = absurd (ne refl)
bad_mask true false ne = refl
bad_mask false true ne = refl
bad_mask false false ne = absurd (ne refl)

module _ {W : Type 0} where
  -- What a frame may violate, with the status code that answers it: a reserved bit, a mask that the
  -- role of the peer forbids, a place in the messages, the limit on their length.
  pub data Violates (iocb : Iocb) (ctx : EventContext W) : ℕ → Type 0 where
    reserved_bit : iocb.rsv ≢ 0 → Violates iocb ctx code_protocol_error
    wrong_mask : iocb.mask ≢ ctx.server → Violates iocb ctx code_protocol_error
    no_message :
        (imsg ctx).opcode ≡ 0xff
        → All
            (λ op. iocb.opcode ≢ op)
            (text_frame ∷ binary_frame ∷ connection_close ∷ ping ∷ pong ∷ [])
        → Violates iocb ctx code_protocol_error
    inside_message :
        (imsg ctx).opcode ≢ 0xff
        → ctx.ipayloadlen ≡ 0
        → ctx.ipayloadoff ≡ 0
        → All (λ op. iocb.opcode ≢ op) (continuation_frame ∷ connection_close ∷ ping ∷ pong ∷ [])
        → Violates iocb ctx code_protocol_error
    too_long :
        iocb.rsv ≡ 0
        → iocb.mask ≡ ctx.server
        → (begun : EventContext W) → begin_frame iocb ctx ≡ some (true, begun)
        → ctx.max_recv_msg_length < add64 (imsg begun).msg_length iocb.payload_length
        → Violates iocb ctx code_message_too_big

  Closes-bad :
      (on : RecvCallbacks W) (iocb : Iocb) (ctx : EventContext W)
      → ctx.close_status < 8
      → bad_frame iocb ctx ≡ true
      → Stops code_protocol_error ctx (receive_frame on iocb ctx)
  unfolding receive_frame
  Closes-bad on iocb ctx flags bad = rw bad (close_and_stop-Closes ctx code_protocol_error flags)

  Closes-misplaced :
      (on : RecvCallbacks W) (iocb : Iocb) (ctx : EventContext W)
      → ctx.close_status < 8
      → begin_frame iocb ctx ≡ none
      → Stops code_protocol_error ctx (receive_frame on iocb ctx)
  unfolding receive_frame
  Closes-misplaced on iocb ctx flags nowhere = elim (Bool-cases (bad_frame iocb ctx)) [
    | inl bad ↦ rw bad (close_and_stop-Closes ctx code_protocol_error flags)
    | inr good ↦ rw (good, nowhere) (close_and_stop-Closes ctx code_protocol_error flags)
  ]

  begin_frame-no_message :
      (iocb : Iocb) (ctx : EventContext W)
      → (imsg ctx).opcode ≡ 0xff
      → All
          (λ op. iocb.opcode ≢ op)
          (text_frame ∷ binary_frame ∷ connection_close ∷ ping ∷ pong ∷ [])
      → begin_frame iocb ctx ≡ none
  unfolding begin_frame
  begin_frame-no_message iocb ctx idle (a, (b, (c, (d, (e, _))))) =
      rw
        (
          (==_iff (imsg ctx).opcode 0xff).1 idle,
          differs iocb.opcode text_frame a,
          differs iocb.opcode binary_frame b,
          differs iocb.opcode connection_close c,
          differs iocb.opcode ping d,
          differs iocb.opcode pong e,
        )
        refl

  begin_frame-inside :
      (iocb : Iocb) (ctx : EventContext W)
      → (imsg ctx).opcode ≢ 0xff
      → ctx.ipayloadlen ≡ 0
      → ctx.ipayloadoff ≡ 0
      → All (λ op. iocb.opcode ≢ op) (continuation_frame ∷ connection_close ∷ ping ∷ pong ∷ [])
      → begin_frame iocb ctx ≡ none
  unfolding begin_frame
  begin_frame-inside iocb ctx busy len off (a, (c, (d, (e, _)))) =
      rw
        (
          differs (imsg ctx).opcode 0xff busy,
          (==_iff ctx.ipayloadlen 0).1 len,
          (==_iff ctx.ipayloadoff 0).1 off,
          differs iocb.opcode continuation_frame a,
          differs iocb.opcode connection_close c,
          differs iocb.opcode ping d,
          differs iocb.opcode pong e,
        )
        refl

  -- The fields that finding the place of a frame leaves alone.
  record Keeps (ctx c : EventContext W) : Type 0 where
    max : c.max_recv_msg_length ≡ ctx.max_recv_msg_length
    write : c.write_enabled ≡ ctx.write_enabled
    status : c.close_status ≡ ctx.close_status
    waiting : c.send_queue ≡ ctx.send_queue
    ctrl : c.send_ctrl_queue ≡ ctx.send_ctrl_queue
    user : c.user ≡ ctx.user

  abbrev Begun : EventContext W → Option (Bool × EventContext W) → Type 0
  Begun ctx none = Unit {0}
  Begun ctx (some (b, c)) = Keeps ctx c

  either :
      (ctx : EventContext W) (b : Bool) (p q : Option (Bool × EventContext W))
      → Begun ctx p
      → Begun ctx q
      → Begun ctx (if b then p else q)
  either ctx true p q h k = h
  either ctx false p q h k = k

  Keeps-refl : (ctx : EventContext W) → Keeps ctx ctx
  Keeps-refl ctx = record {
    max = refl;
    write = refl;
    status = refl;
    waiting = refl;
    ctrl = refl;
    user = refl;
  }

  Keeps-set_imsg :
      (second : Bool) (m : Imsg) (ctx : EventContext W)
      → Keeps ctx (set_imsg m (record ctx { imsg_is_second = second }))
  Keeps-set_imsg second m ctx = record {
    max = refl;
    write = refl;
    status = refl;
    waiting = refl;
    ctrl = refl;
    user = refl;
  }

  begin_frame-Keeps : (iocb : Iocb) (ctx : EventContext W) → Begun ctx (begin_frame iocb ctx)
  unfolding begin_frame
  begin_frame-Keeps iocb ctx =
      let starts =
        iocb.opcode == text_frame || iocb.opcode == binary_frame || is_control iocb.opcode in
      let between = ctx.ipayloadlen == 0 && ctx.ipayloadoff == 0 in
      either ctx ((imsg ctx).opcode == 0xff) _ _
        (either ctx starts _ _ (Keeps-set_imsg ctx.imsg_is_second _ ctx) tt)
        (either ctx between _ _
          (either ctx (iocb.opcode == continuation_frame) _ _
            (Keeps-set_imsg ctx.imsg_is_second _ ctx)
            (either ctx (is_control iocb.opcode) _ _ (Keeps-set_imsg true _ ctx) tt))
          (Keeps-refl ctx))

  Closes-Keeps :
      (n : ℕ) (ctx c : EventContext W) (r : ℤ) (out : EventContext W)
      → Keeps ctx c
      → Closes n [] c r out
      → Closes n [] ctx r out
  unfolding is_msg_queueable
  Closes-Keeps n ctx c r out k v =
      let queue : (w : Bool) (s : ℕ) → Bool = λ w s. w && bit_and s close_queued == 0 in
      let same : is_msg_queueable c ≡ is_msg_queueable ctx = ap₂ queue k.write k.status in
      let close = omsg_non_fragmented_new {W = W} connection_close (close_payload n []) in
      record {
        stopped = v.stopped;
        queues = λ free.
            let q = v.queues (same ∙ free) in (q.0, q.1 ∙ ap (λ x. x ++ close ∷ []) k.ctrl, q.2);
        silent = λ shut. let q = v.silent (same ∙ shut) in (q.0, q.1 ∙ k.ctrl);
        data_kept = v.data_kept ∙ k.waiting;
        user_kept = v.user_kept ∙ k.user;
      }

  Closes-too_long :
      (on : RecvCallbacks W) (iocb : Iocb) (ctx begun : EventContext W)
      → ctx.close_status < 8
      → bad_frame iocb ctx ≡ false
      → begin_frame iocb ctx ≡ some (true, begun)
      → ctx.max_recv_msg_length < add64 (imsg begun).msg_length iocb.payload_length
      → Stops code_message_too_big ctx (receive_frame on iocb ctx)
  unfolding receive_frame start_frame
  Closes-too_long on iocb ctx begun flags good e long =
      let k : Keeps ctx begun = subst (Begun ctx) e (begin_frame-Keeps iocb ctx) in
      let test : ltb begun.max_recv_msg_length (add64 (imsg begun).msg_length iocb.payload_length)
          ≡ true =
        lt→ltb _ _ (omega (arith, long, k.max)) in
      let (r, out, q, c) =
        close_and_stop-Closes begun code_message_too_big (omega (arith, flags, k.status)) in
      rw (good, e, test) (r, out, q, Closes-Keeps code_message_too_big ctx begun r out k c)

  -- Whatever a frame violates, the round stops reading, and answers with a close frame that tells
  -- the violation; it calls no callback.
  pub receive_frame-Closes :
      (on : RecvCallbacks W) (iocb : Iocb) (ctx : EventContext W) (status : ℕ)
      → ctx.close_status < 8
      → Violates iocb ctx status
      → Stops status ctx (receive_frame on iocb ctx)
  unfolding bad_frame
  receive_frame-Closes on iocb ctx status flags (reserved_bit ne) =
      Closes-bad on iocb ctx flags (rw (differs iocb.rsv 0 ne) refl)
  receive_frame-Closes on iocb ctx status flags (wrong_mask ne) =
      Closes-bad on iocb ctx flags (elim (Bool-cases (iocb.rsv == 0)) [
        | inl e ↦ rw e (bad_mask ctx.server iocb.mask ne)
        | inr e ↦ rw e refl
      ])
  receive_frame-Closes on iocb ctx status flags (no_message idle ne) =
      Closes-misplaced on iocb ctx flags (begin_frame-no_message iocb ctx idle ne)
  receive_frame-Closes on iocb ctx status flags (inside_message busy len off ne) =
      Closes-misplaced on iocb ctx flags (begin_frame-inside iocb ctx busy len off ne)
  receive_frame-Closes on iocb ctx status flags (too_long plain role begun e long) =
      Closes-too_long on iocb ctx begun flags
        (rw ((==_iff iocb.rsv 0).1 plain, role) (own_mask ctx.server)) e long
