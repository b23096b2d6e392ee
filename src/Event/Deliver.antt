-- ===== src/Event/Deliver.antt =====
-- The end of a message in `wslay_event_recv`: it is put together and passed on.
use wslay.Prelude.{
  ℕ, ◌≤◌, ◌≡◌, refl, sym, ap, ap₂, subst, ◌∙◌, inl, inr, Bool, true, false, not, ◌&&◌, ◌||◌, ltb,
  ◌==◌, ==_iff, Bool-cases, if◌then◌else◌, List, [], ◌∷◌, ◌++◌, arith, length, bit_and,
}
use wslay.Protocol.{text_frame, connection_close, ping, pong, Iocb}
use wslay.Utf8.{utf8_accept}
use wslay.Event.Context.{live, Imsg, EventContext, User, config_no_buffering}
use wslay.Event.Queueing.{config_get_no_buffering, is_msg_queueable, push_msg}
use wslay.Event.Send.{Round, again, is_some}
use wslay.Event.Recv.{
  OnMsgRecvArg, RecvCallbacks, imsg_reset, queue_freed, flatten_queue, imsg, set_imsg, call_end,
  call_msg,
}
use wslay.Event.RecvLoop.{msg_bytes, and_then, receive_msg, deliver, msg_over, finish_frame}
use wslay.Event.Replies.{receive_ping-answers}
use wslay.Event.View.{
  View, view, pick, msg_of, put, msg_of-put, other_of-put, IsObserver, text_state,
}
use wslay.Event.Pieces.{Slot, IsPlace, IsPlace-put, InFrame}
use wslay.Event.Finish.{IsReset, IsOver, passed, after_end, whole-IsBetween, flattened}

module _ {W : Type 0} (on : RecvCallbacks W) (log : User W → List OnMsgRecvArg)
    (obs : IsObserver on log) (k : Slot) (op : ℕ) (m : List ℕ) (n : ℕ) where
  receive_msg-passed :
      (msg : List ℕ) (c : EventContext W)
      → (op == connection_close) ≡ false
      → ((op == ping) ≡ true → length msg ≤ 125)
      → (imsg c).opcode ≡ op
      → (imsg c).rsv ≡ 0
      → (c' : EventContext W) × (receive_msg on msg c ≡ again (call_msg on (passed op msg) c'))
        × (view c' ≡ view c)
        × (c'.user ≡ c.user)
  unfolding receive_msg push_msg
  receive_msg-passed msg c not_close short opcode rsv =
      let no_close : ((imsg c).opcode == connection_close) ≡ false =
        ap (λ o. o == connection_close) opcode ∙ not_close in
      let arg : (c' : EventContext W) → view c' ≡ view c → OnMsgRecvArg = λ c' e. record {
        rsv = (imsg c').rsv;
        opcode = (imsg c').opcode;
        msg = msg;
        status_code = 0;
      } in
      let same_arg : (c' : EventContext W) (e : view c' ≡ view c) → arg c' e ≡ passed op msg =
        λ c' e.
          ap₂ (λ (r : ℕ) (o : ℕ). record { rsv = r; opcode = o; msg = msg; status_code = 0 })
            (ap (λ (x : View). (msg_of x).rsv) e ∙ rsv)
            (ap (λ (x : View). (msg_of x).opcode) e ∙ opcode) in
      elim (Bool-cases (op == ping)) [
        | inr other ↦
            let no_ping : ((imsg c).opcode == ping) ≡ false = ap (λ o. o == ping) opcode ∙ other in
            rw (no_close, no_ping)
              (c, ap (λ a. again (call_msg on a c)) (same_arg c refl), refl, refl)
        | inl pinged ↦
            let is_ping : ((imsg c).opcode == ping) ≡ true = ap (λ o. o == ping) opcode ∙ pinged in
            let answer = receive_ping-answers msg c (short pinged) in
            let c' =
              if is_msg_queueable c then push_msg (record { opcode = pong; msg = msg }) c else c in
            let kept : (view c' ≡ view c) × (c'.user ≡ c.user) =
              elim (Bool-cases (is_msg_queueable c)) [
                | inl free ↦ rw free (refl, refl)
                | inr shut ↦ rw shut (refl, refl)
              ] in
            rw (no_close, is_ping)
              (
                c',
                ap
                      (λ r. and_then r (λ x. again (
                        call_msg on
                          (record {
                            rsv = (imsg x).rsv;
                            opcode = (imsg x).opcode;
                            msg = msg;
                            status_code = 0;
                          })
                          x)))
                      answer
                    ∙ ap (λ a. again (call_msg on a c')) (same_arg c' kept.0),
                kept.0,
                kept.1,
              )
      ]

  -- What the end of a message leaves.
  msg_over-IsOver :
      (c : EventContext W)
      → (imsg c).queue ≡ live
      → IsPlace k n n (view c)
      → IsOver k (view (record (msg_over on c) { ipayloadlen = 0; ipayloadoff = 0 }))
  unfolding msg_over imsg_reset
  msg_over-IsOver c alive p =
      let i : Imsg = record (imsg c) {
        opcode = 0xff;
        utf8state = utf8_accept;
        chunks = [];
        queue = queue_freed (imsg c).queue;
      } in
      let slot : k.second ≡ c.imsg_is_second = sym p.second in
      record {
        config = p.config;
        max = p.max;
        server = p.server;
        first = refl;
        reset =
            subst IsReset
              (sym (ap (λ b. pick b (put i (view c)).imsgs) slot ∙ msg_of-put i (view c)))
              (record {
                opcode = refl;
                utf8state = refl;
                chunks = refl;
                queue = ap queue_freed alive;
              });
        other =
            ap (λ b. pick (not b) (put i (view c)).imsgs) slot ∙ other_of-put i (view c) ∙ p.other;
        len = refl;
        off = refl;
      }

  -- The message is put together where it is kept and wanted.
  deliver-flat :
      (iocb : Iocb) (c : EventContext W)
      → ltb 0 (bit_and c.config config_no_buffering) ≡ false
      → let i = imsg c in
        (not (i.msg_length == 0) && not (is_some (flatten_queue i.chunks i.msg_length).0)) ≡ false
        → deliver on iocb c
          ≡ receive_msg on (msg_bytes (flatten_queue (imsg c).chunks (imsg c).msg_length).0) (
              set_imsg
                (record (imsg c) { chunks = (flatten_queue (imsg c).chunks (imsg c).msg_length).1 })
                c)
  unfolding deliver config_get_no_buffering
  deliver-flat iocb c buffered no_mem = rw (obs.wanted, buffered, no_mem) refl

  no_bad_text : (a b c : Bool) → c ≡ true → (a && b && not c) ≡ false
  no_bad_text true true c e = ap not e
  no_bad_text true false c e = refl
  no_bad_text false true c e = refl
  no_bad_text false false c e = refl

  pub finish_frame-passed :
      (iocb : Iocb) (d : List ℕ) (ctx : EventContext W)
      → bit_and k.config config_no_buffering ≡ 0
      → (op == connection_close) ≡ false
      → ((op == ping) ≡ true → length (m ++ d) ≤ 125)
      → length d ≡ n
      → text_state op (m ++ d) ≡ utf8_accept
      → InFrame k op 1 m n d (m ++ d) ctx
      → (c : EventContext W) × (finish_frame on iocb ctx ≡ again c)
        × IsOver k (view c)
        × (log c.user ≡ log ctx.user ++ passed op (m ++ d) ∷ [])
  unfolding finish_frame
  finish_frame-passed iocb d ctx keep not_close short size accepts v =
      let ended = call_end on ctx in
      let u = after_end on log obs k op m n 1 d (m ++ d) ctx v in
      let i = imsg ended in
      let whole = whole-IsBetween on log obs k op m n 1 d i size u.msg in
      let flat = set_imsg (record i { chunks = (flatten_queue i.chunks i.msg_length).1 }) ended in
      let flat_msg : imsg flat ≡ record i { chunks = (flatten_queue i.chunks i.msg_length).1 } =
        msg_of-put (record i { chunks = (flatten_queue i.chunks i.msg_length).1 }) (view ended) in
      let msg = msg_bytes (flatten_queue i.chunks i.msg_length).0 in
      let (is_whole, no_mem) = flattened on log obs k op m n i (m ++ d) whole in
      let (c', passes, same_view, same_user) =
        receive_msg-passed msg flat not_close (λ e. omega (arith, short e, ap length is_whole))
          (ap (λ (x : Imsg). x.opcode) flat_msg ∙ u.msg.opcode)
          (ap (λ (x : Imsg). x.rsv) flat_msg ∙ u.msg.rsv) in
      let told = call_msg on (passed op msg) c' in
      let over : view told ≡ view flat = (obs.on_msg (passed op msg) c').0 ∙ same_view in
      let flat_place =
        IsPlace-put (record i { chunks = (flatten_queue i.chunks i.msg_length).1 }) u.place in
      let last : ((imsg ended).fin == 0) ≡ false = ap (λ x. x == 0) u.msg.fin in
      let fine =
        no_bad_text (not ((imsg ctx).fin == 0))
          ((imsg ctx).opcode == text_frame || (imsg ctx).opcode == connection_close)
          ((imsg ctx).utf8state == utf8_accept) ((==_iff _ _).1 (v.msg.utf8state ∙ accepts)) in
      let buffered : ltb 0 (bit_and ended.config config_no_buffering) ≡ false =
        ap (λ x. ltb 0 (bit_and x config_no_buffering)) u.place.config ∙ ap (ltb 0) keep in
      let ends : Round W → Round W = λ r.
        and_then (and_then r (λ c. again (msg_over on c)))
          (λ c. again (record c { ipayloadlen = 0; ipayloadoff = 0 })) in
      (
        record (msg_over on told) { ipayloadlen = 0; ipayloadoff = 0 },
        rw (fine, last) (ap ends (deliver-flat iocb ended buffered no_mem ∙ passes)),
        msg_over-IsOver told
            (ap (λ (x : View). (msg_of x).queue) over
              ∙ ap (λ (x : Imsg). x.queue) flat_msg
              ∙ u.msg.queue)
            (subst (λ x. IsPlace k n x (view told)) size
              (subst (IsPlace k n (length d)) (sym over) flat_place)),
        over_user told
            ∙ (obs.on_msg (passed op msg) c').1
            ∙ ap₂ (λ a x. a ++ passed op x ∷ []) (ap log same_user ∙ (obs.on_end ctx).1) is_whole,
      )
    where
      over_user :
          (c : EventContext W)
          → log (record (msg_over on c) { ipayloadlen = 0; ipayloadoff = 0 }).user ≡ log c.user
      over_user c = unfold msg_over in refl
