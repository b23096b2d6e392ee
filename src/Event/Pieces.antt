-- ===== src/Event/Pieces.antt =====
-- A piece of a frame in `wslay_event_recv`: the check of a text, and the bytes that are kept.
use wslay.Prelude.{
  ℕ, ◌+◌, ◌^◌, ◌≤◌, ◌<◌, ◌≡◌, ◌≢◌, refl, sym, ap, subst, ◌∙◌, inl, inr, Bool, true, false, ltb,
  ltb→lt, nil_of_length, ◌==◌, ==_iff, Bool-cases, none, List, [], ◌∷◌, ◌++◌, arith, length,
  length-append, All, IsByte, bit_and,
}
use mathlib.Core.List.{append-nil}
use wslay.Protocol.{text_frame, connection_close, Iocb}
use wslay.Utf8.{decode, run, utf8_accept, utf8_reject}
use wslay.Utf8.Prefix.{run-reject, run-append}
use wslay.Event.Context.{live, Imsg, EventContext, User, config_no_buffering}
use wslay.Event.Queueing.{config_get_no_buffering}
use wslay.Frame.Bytes.{add64}
use wslay.Event.Recv.{
  OnMsgRecvArg, RecvCallbacks, imsg, set_imsg, call_chunk, fill_chunk, check_utf8, checked_bytes,
  take_piece,
}
use wslay.Event.View.{
  View, view, msg_of, other_of, put, msg_of-put, other_of-put, put-put, put_self, IsObserver,
  text_state, Held, Held-fill,
}

-- The message in progress: its fields, and the bytes that are in.
pub record IsMsg (op last : ℕ) (m : List ℕ) (n : ℕ) (d : List ℕ) (state : ℕ) (i : Imsg)
    : Type 0 where
  pub opcode : i.opcode ≡ op
  pub fin : i.fin ≡ last
  pub rsv : i.rsv ≡ 0
  pub utf8state : i.utf8state ≡ state
  pub total : i.msg_length ≡ length m + n
  pub held : Held m n d i.chunks
  pub queue : i.queue ≡ live

-- What stays the same while a message comes in.
pub record Slot : Type 0 where
  pub config : ℕ
  pub max : ℕ
  pub server : Bool
  pub second : Bool
  pub other : Imsg

pub record IsPlace (k : Slot) (n at : ℕ) (v : View) : Type 0 where
  pub config : v.config ≡ k.config
  pub max : v.max ≡ k.max
  pub server : v.server ≡ k.server
  pub second : v.second ≡ k.second
  pub other : other_of v ≡ k.other
  pub len : v.len ≡ n
  pub off : v.off ≡ at

pub IsPlace-put :
    {k : Slot} {len off : ℕ} (m : Imsg) {v : View}
    → IsPlace k len off v
    → IsPlace k len off (put m v)
IsPlace-put m {v} p = record {
  config = p.config;
  max = p.max;
  server = p.server;
  second = p.second;
  other = other_of-put m v ∙ p.other;
  len = p.len;
  off = p.off;
}

module _ {W : Type 0} where
  -- A text that is not refused so far only moves the state of the check.
  check_utf8-alive :
      (bs : List ℕ) (ctx : EventContext W)
      → All IsByte bs
      → run (imsg ctx).utf8state bs ≢ utf8_reject
      → (c : EventContext W) × (check_utf8 bs ctx ≡ (none, c))
        × (view c ≡ put (record (imsg ctx) { utf8state = run (imsg ctx).utf8state bs }) (view ctx))
        × (c.user ≡ ctx.user)
  unfolding check_utf8 run
  check_utf8-alive [] ctx bytes alive = (ctx, refl, sym (put_self (view ctx)), refl)
  check_utf8-alive (b ∷ bs) ctx bytes alive =
      let state = (decode (record { state = (imsg ctx).utf8state; codep = 0 }) b).state in
      let m = record (imsg ctx) { utf8state = state } in
      let ctx' = set_imsg m ctx in
      let now : imsg ctx' ≡ m = msg_of-put m (view ctx) in
      let later : run (imsg ctx').utf8state bs ≡ run state bs =
        ap (λ (i : Imsg). run i.utf8state bs) now in
      let (c, e, seen, user) = check_utf8-alive bs ctx' bytes.1 (λ q. alive (sym later ∙ q)) in
      elim (Bool-cases (state == utf8_reject)) [
        | inl bad ↦
            absurd (
              alive (ap (λ s. run s bs) ((==_iff state utf8_reject).0 bad) ∙ run-reject bs bytes.1))
        | inr good ↦ rw good (
          c,
          e,
          seen
              ∙ ap
                  (λ (i : Imsg).
                    put (record i { utf8state = run i.utf8state bs }) (put m (view ctx)))
                  now
              ∙ put-put (record m { utf8state = run state bs }) m (view ctx),
          user,
        )
      ]

  checked_bytes-text :
      (iocb : Iocb) (ctx : EventContext W)
      → ((imsg ctx).opcode == text_frame) ≡ true
      → checked_bytes iocb ctx ≡ iocb.payload
  unfolding checked_bytes
  checked_bytes-text iocb ctx e = rw e refl

  checked_bytes-other :
      (iocb : Iocb) (ctx : EventContext W)
      → ((imsg ctx).opcode == text_frame) ≡ false
      → ((imsg ctx).opcode == connection_close) ≡ false
      → checked_bytes iocb ctx ≡ []
  unfolding checked_bytes
  checked_bytes-other iocb ctx e f = rw (e, f) refl

  module _ (k : Slot) (op last : ℕ) (m : List ℕ) (n : ℕ) where
    -- The message in the context, with the check after `seen`.
    pub record InFrame (d seen : List ℕ) (ctx : EventContext W) : Type 0 where
      pub msg : IsMsg op last m n d (text_state op seen) (imsg ctx)
      pub place : IsPlace k n (length d) (view ctx)

    -- The check of a piece lets it through.
    pub check-InFrame :
        (iocb : Iocb) (d : List ℕ) (ctx : EventContext W)
        → (op == connection_close) ≡ false
        → All IsByte iocb.payload
        → text_state op ((m ++ d) ++ iocb.payload) ≢ utf8_reject
        → InFrame d (m ++ d) ctx
        → (c : EventContext W) × (check_utf8 (checked_bytes iocb ctx) ctx ≡ (none, c))
          × InFrame d ((m ++ d) ++ iocb.payload) c
          × (c.user ≡ ctx.user)
    unfolding check_utf8
    check-InFrame iocb d ctx not_close bytes alive v =
        let p = iocb.payload in
        let before = m ++ d in
        elim (Bool-cases (op == text_frame)) [
          | inr other ↦
              let none_checked : checked_bytes iocb ctx ≡ [] =
                checked_bytes-other iocb ctx (ap (λ o. o == text_frame) v.msg.opcode ∙ other)
                  (ap (λ o. o == connection_close) v.msg.opcode ∙ not_close) in
              (
                ctx,
                ap (λ bs. check_utf8 bs ctx) none_checked,
                record {
                  msg = record {
                    opcode = v.msg.opcode;
                    fin = v.msg.fin;
                    rsv = v.msg.rsv;
                    utf8state = v.msg.utf8state ∙ plain before (before ++ p) other;
                    total = v.msg.total;
                    held = v.msg.held;
                    queue = v.msg.queue;
                  };
                  place = v.place;
                },
                refl,
              )
          | inl text ↦
              let state : run (imsg ctx).utf8state p ≡ text_state op (before ++ p) =
                ap (λ s. run s p) (v.msg.utf8state ∙ checked before text)
                ∙ sym (run-append before p utf8_accept)
                ∙ sym (checked (before ++ p) text) in
              let (c, e, seen, user) = check_utf8-alive p ctx bytes (λ q. alive (sym state ∙ q)) in
              let i : Imsg = record (imsg ctx) { utf8state = run (imsg ctx).utf8state p } in
              let now : imsg c ≡ i = ap msg_of seen ∙ msg_of-put i (view ctx) in
              (
                c,
                ap (λ bs. check_utf8 bs ctx)
                      (checked_bytes-text iocb ctx (ap (λ o. o == text_frame) v.msg.opcode ∙ text))
                    ∙ e,
                record {
                  msg =
                      subst (IsMsg op last m n d (text_state op (before ++ p))) (sym now) (record {
                        opcode = v.msg.opcode;
                        fin = v.msg.fin;
                        rsv = v.msg.rsv;
                        utf8state = state;
                        total = v.msg.total;
                        held = v.msg.held;
                        queue = v.msg.queue;
                      });
                  place = subst (IsPlace k n (length d)) (sym seen) (IsPlace-put i v.place);
                },
                user,
              )
        ]
      where
        checked : (bs : List ℕ) → (op == text_frame) ≡ true → text_state op bs ≡ run utf8_accept bs
        checked bs e = rw e refl

        plain : (bs cs : List ℕ) → (op == text_frame) ≡ false → text_state op bs ≡ text_state op cs
        plain bs cs e = rw e refl

    -- The piece is kept behind the earlier ones.
    pub take_piece-InFrame :
        (on : RecvCallbacks W) (log : User W → List OnMsgRecvArg) (obs : IsObserver on log)
        (iocb : Iocb) (d seen : List ℕ) (ctx : EventContext W)
        → (bit_and k.config config_no_buffering) ≡ 0
        → n < 2 ^ 64
        → length d + length iocb.payload ≤ n
        → InFrame d seen ctx
        → InFrame (d ++ iocb.payload) seen (take_piece on iocb ctx)
          × (log (take_piece on iocb ctx).user ≡ log ctx.user)
    unfolding take_piece config_get_no_buffering
    take_piece-InFrame on log obs iocb d seen ctx keep small fits v =
        let p = iocb.payload in
        let c = call_chunk on iocb ctx in
        let same = (obs.on_chunk iocb ctx).0 in
        let msg : IsMsg op last m n d (text_state op seen) (imsg c) =
          subst (λ (x : View). IsMsg op last m n d (text_state op seen) (msg_of x)) (sym same)
            v.msg in
        let place : IsPlace k n (length d) (view c) =
          subst (IsPlace k n (length d)) (sym same) v.place in
        elim (Bool-cases (ltb 0 (length p))) [
          | inr empty ↦
              let nil : p ≡ [] = nil_of_length p (ground (arith, empty)) in
              rw empty (
                subst (λ x. InFrame x seen c) (sym (ap (λ x. d ++ x) nil ∙ append-nil d))
                    (record { msg = msg; place = place }),
                (obs.on_chunk iocb ctx).1,
              )
          | inl some_bytes ↦
              let buffered : ltb 0 (bit_and c.config config_no_buffering) ≡ false =
                ap (λ x. ltb 0 (bit_and x config_no_buffering)) place.config ∙ ap (ltb 0) keep in
              let i : Imsg = record (imsg c) {
                chunks = fill_chunk c.ipayloadoff p (imsg c).chunks;
              } in
              let off : add64 c.ipayloadoff (length p) ≡ length (d ++ p) =
                ap (λ x. add64 x (length p)) place.off
                ∙ omega (arith, length-append d p, fits, small) in
              let kept = IsPlace-put i place in
              rw (some_bytes, buffered)
                (
                  record {
                    msg =
                        subst (IsMsg op last m n (d ++ p) (text_state op seen))
                          (sym (msg_of-put i (view c)))
                          (record {
                            opcode = msg.opcode;
                            fin = msg.fin;
                            rsv = msg.rsv;
                            utf8state = msg.utf8state;
                            total = msg.total;
                            held =
                                subst (λ o. Held m n (d ++ p) (fill_chunk o p (imsg c).chunks))
                                  (sym place.off)
                                  (Held-fill m d p n (imsg c).chunks fits (ltb→lt _ _ some_bytes)
                                    msg.held);
                            queue = msg.queue;
                          });
                    place = record {
                      config = kept.config;
                      max = kept.max;
                      server = kept.server;
                      second = kept.second;
                      other = kept.other;
                      len = kept.len;
                      off = off;
                    };
                  },
                  (obs.on_chunk iocb ctx).1,
                )
        ]
