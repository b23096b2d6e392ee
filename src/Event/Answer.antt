-- ===== src/Event/Answer.antt =====
-- The close frames that `wslay_event_recv` queues, and how it stops reading.
use wslay.Prelude.{
  ℕ, zero, suc, negsuc, ◌+◌, ◌≤◌, ◌<◌, ◌≡◌, refl, sym, subst, inl, inr, true, false, ltb, not_ltb,
  ◌==◌, Bool-cases, List, [], ◌∷◌, ◌++◌, arith, length, length-append, ℤ, pos, is_nonzero, bit_or,
}
use wslay.Protocol.{is_ctrl_frame, connection_close}
use wslay.Frame.Bytes.{be_bytes, length-be_bytes}
use wslay.Event.Context.{EventContext, close_queued}
use wslay.Event.Queueing.{
  is_msg_queueable, push_msg, queue_msg, queue_close, queue_close_wrapper, close_payload,
  omsg_non_fragmented_new,
}
use wslay.Event.Closing.{IsClosed}
use wslay.Event.Calls.{queued-IsClosed}
use wslay.Event.Send.{Round, returns}
use wslay.Event.Recv.{close_and_stop}

pub length-close_payload :
    (n : ℕ) (reason : List ℕ) → length (close_payload n reason) ≤ 2 + length reason
unfolding close_payload
length-close_payload n reason = elim (Bool-cases (n == 0)) [
  | inl e ↦ rw e (omega arith)
  | inr e ↦ rw e (omega (arith, length-append (be_bytes 2 n) reason, length-be_bytes 2 n))
]

pub zero_result : (r : ℤ) → is_nonzero r ≡ false → r ≡ pos 0
zero_result (pos zero) h = refl
zero_result (pos (suc n)) h = absurd (ground (arith, h))
zero_result (negsuc n) h = absurd (ground (arith, h))

module _ {W : Type 0} where
  pub wrapper-queues :
      (ctx : EventContext W) (n : ℕ) (reason : List ℕ)
      → length reason ≤ 123
      → is_msg_queueable ctx ≡ true
      → queue_close_wrapper ctx n reason ≡ (
        pos 0,
        record (push_msg
            (record { opcode = connection_close; msg = close_payload n reason })
            (record ctx { read_enabled = false })) {
              close_status = bit_or ctx.close_status close_queued;
            },
      )
  unfolding queue_close_wrapper queue_close queue_msg is_msg_queueable push_msg is_ctrl_frame
  wrapper-queues ctx n reason short open_ =
      let fits : ltb 123 (length reason) ≡ false = not_ltb 123 (length reason) short in
      let small : ltb 125 (length (close_payload n reason)) ≡ false =
        not_ltb 125 _ (omega (arith, length-close_payload n reason, short)) in
      rw (open_, fits, small) refl

  pub wrapper-refuses :
      (ctx : EventContext W) (n : ℕ) (reason : List ℕ)
      → is_msg_queueable ctx ≡ false
      → queue_close_wrapper ctx n reason ≡ (pos 1, record ctx { read_enabled = false })
  unfolding queue_close_wrapper queue_close is_msg_queueable
  wrapper-refuses ctx n reason shut = rw shut refl

  -- The function returns with reading disabled. It returns 0 if the close frame, with the status
  -- code and the reason, could be queued behind the other control messages, after which nothing
  -- can be queued; else it returns 1 and queues nothing. No callback is called.
  pub record Closes (status : ℕ) (reason : List ℕ) (ctx : EventContext W) (r : ℤ)
      (out : EventContext W) : Type 0 where
    pub stopped : out.read_enabled ≡ false
    pub queues :
        is_msg_queueable ctx ≡ true
        → (r ≡ pos 0)
          × (out.send_ctrl_queue
              ≡ ctx.send_ctrl_queue
                ++ omsg_non_fragmented_new connection_close (close_payload status reason) ∷ [])
          × IsClosed out
    pub silent :
        is_msg_queueable ctx ≡ false → (r ≡ pos 1) × (out.send_ctrl_queue ≡ ctx.send_ctrl_queue)
    pub data_kept : out.send_queue ≡ ctx.send_queue
    pub user_kept : out.user ≡ ctx.user

  pub wrapper-Closes :
      (ctx : EventContext W) (n : ℕ) (reason : List ℕ)
      → ctx.close_status < 8
      → length reason ≤ 123
      → Closes n reason ctx
          (queue_close_wrapper ctx n reason).0
          (queue_close_wrapper ctx n reason).1
  unfolding push_msg is_ctrl_frame
  wrapper-Closes ctx n reason flags short = elim (Bool-cases (is_msg_queueable ctx)) [
    | inl free ↦
        subst (λ (p : ℤ × EventContext W). Closes n reason ctx p.0 p.1)
          (sym (wrapper-queues ctx n reason short free))
          (record {
            stopped = refl;
            queues = λ _. (refl, refl, queued-IsClosed ctx flags);
            silent = λ shut. absurd (ground (arith, free, shut));
            data_kept = refl;
            user_kept = refl;
          })
    | inr shut ↦
        subst (λ (p : ℤ × EventContext W). Closes n reason ctx p.0 p.1)
          (sym (wrapper-refuses ctx n reason shut))
          (record {
            stopped = refl;
            queues = λ free. absurd (ground (arith, free, shut));
            silent = λ _. (refl, refl);
            data_kept = refl;
            user_kept = refl;
          })
  ]

  -- The round ends so.
  abbrev pub Stops : ℕ → EventContext W → Round W → Type 0
  Stops n ctx round =
      (r : ℤ) × (out : EventContext W) × (round ≡ returns r out) × Closes n [] ctx r out

  pub close_and_stop-Closes :
      (ctx : EventContext W) (n : ℕ) → ctx.close_status < 8 → Stops n ctx (close_and_stop n ctx)
  unfolding close_and_stop
  close_and_stop-Closes ctx n flags =
      let (r, out) = queue_close_wrapper ctx n [] in
      let c = wrapper-Closes ctx n [] flags (omega arith) in
      elim (Bool-cases (is_nonzero r)) [
        | inl bad ↦ rw bad (r, out, refl, c)
        | inr fine ↦
            rw fine (pos 0, out, refl, subst (λ r. Closes n [] ctx r out) (zero_result r fine) c)
      ]
