-- ===== src/Event/Replies.antt =====
-- How `wslay_event_recv` answers a close message and a ping.
use wslay.Prelude.{
  ℕ, ◌≤◌, ◌<◌, ◌≡◌, refl, sym, ap, subst, ◌∙◌, inl, inr, Bool, true, false, not, ◌&&◌, ltb, ltb→lt,
  not_ltb, ◌==◌, Bool-cases, if◌then◌else◌, List, [], ◌∷◌, ◌++◌, arith, length, take, drop,
  length-take, length-drop, take-append-drop, All, All-left, IsByte, all_below, all_below_sound,
  all_below_eq, ℤ, pos, is_nonzero, bit_and, bit_or,
}
use wslay.Protocol.{is_ctrl_frame, connection_close, pong, code_no_status_rcvd, code_protocol_error}
use wslay.Frame.Bytes.{be_bytes, be_number, be_bytes-be_number}
use wslay.Event.Context.{EventContext, close_received, close_queued}
use wslay.Event.Queueing.{
  is_msg_queueable, is_valid_status_code, push_msg, queue_msg, queue_close_wrapper, close_payload,
  omsg_non_fragmented_new, get_close_received,
}
use wslay.Event.Closing.{IsClosed}
use wslay.Event.Send.{Round, again, returns}
use wslay.Event.Recv.{imsg, close_and_stop}
use wslay.Event.RecvLoop.{receive_close, receive_ping}
use wslay.Event.Answer.{wrapper-queues, wrapper-refuses}
use wslay.Event.Calls.{queued-IsClosed}

-- The flags of `close_status` after a close frame came in.
received_flags : all_below 8 (λ s. ltb 0 (bit_and (bit_or s close_received) close_received)) ≡ true
unfolding all_below
received_flags = refl

answered_flags :
    all_below 8
      (λ s. ltb 0 (bit_and (bit_or (bit_or s close_received) close_queued) close_received))
    ≡ true
unfolding all_below
answered_flags = refl

received_small : all_below 8 (λ s. ltb (bit_or s close_received) 8) ≡ true
unfolding all_below
received_small = refl

-- The payload of the answer: that of the message, if it holds a status code.
abbrev pub reply : List ℕ → List ℕ
reply msg = if ltb 1 (length msg) then msg else []

abbrev pub status_of : List ℕ → ℕ
status_of msg = if ltb 1 (length msg) then be_number 0 (take 2 msg) else 0

-- The status code that is reported.
abbrev pub reported_status : List ℕ → ℕ
reported_status msg = if ltb 1 (length msg) then be_number 0 (take 2 msg) else code_no_status_rcvd

abbrev pub reason_of : List ℕ → List ℕ
reason_of msg = if ltb 1 (length msg) then drop 2 msg else []

abbrev pub IsValidClose : List ℕ → Type 0
IsValidClose msg = 1 < length msg → is_valid_status_code (be_number 0 (take 2 msg)) ≡ true

valid-ne_zero : (n : ℕ) → is_valid_status_code n ≡ true → (n == 0) ≡ false
unfolding is_valid_status_code
valid-ne_zero n h = ground (arith, h)

close_payload-reply :
    (msg : List ℕ)
    → All IsByte msg
    → IsValidClose msg
    → close_payload (status_of msg) (reason_of msg) ≡ reply msg
unfolding close_payload
close_payload-reply msg bytes valid = elim (Bool-cases (ltb 1 (length msg))) [
  | inr short ↦ rw short refl
  | inl long ↦
      let size : length (take 2 msg) ≡ 2 = omega (arith, length-take 2 msg, ltb→lt _ _ long) in
      let digits : be_bytes 2 (be_number 0 (take 2 msg)) ≡ take 2 msg =
        subst (λ k. be_bytes k (be_number 0 (take 2 msg)) ≡ take 2 msg) size
          (be_bytes-be_number (take 2 msg) 0 (
            All-left IsByte (take 2 msg) (drop 2 msg)
              (subst (All IsByte) (sym (take-append-drop 2 msg)) bytes))) in
      let some_status : (be_number 0 (take 2 msg) == 0) ≡ false =
        valid-ne_zero (be_number 0 (take 2 msg)) (valid (ltb→lt _ _ long)) in
      rw (long, some_status) (ap (λ t. t ++ drop 2 msg) digits ∙ take-append-drop 2 msg)
]

noted_status :
    (msg : List ℕ)
    → IsValidClose msg
    → (if status_of msg == 0 then code_no_status_rcvd else status_of msg) ≡ reported_status msg
noted_status msg valid = elim (Bool-cases (ltb 1 (length msg))) [
  | inr short ↦ rw short refl
  | inl long ↦ rw (long, valid-ne_zero (be_number 0 (take 2 msg)) (valid (ltb→lt _ _ long))) refl
]

kept_flags :
    all_below 8 (λ s. bit_and (bit_or s close_received) close_queued == bit_and s close_queued)
    ≡ true
unfolding all_below
kept_flags = refl

reason_short : (msg : List ℕ) → length msg ≤ 125 → length (reason_of msg) ≤ 123
reason_short msg small = elim (Bool-cases (ltb 1 (length msg))) [
  | inr short ↦ rw short (omega arith)
  | inl long ↦ rw long (omega (arith, length-drop 2 msg, small))
]

module _ {W : Type 0} where
  -- The context after the close message was taken note of.
  abbrev noted : List ℕ → EventContext W → EventContext W
  noted msg ctx = record ctx {
    close_status = bit_or ctx.close_status close_received;
    status_code_recv = if status_of msg == 0 then code_no_status_rcvd else status_of msg;
  }

  abbrev wrapped : ℤ × EventContext W → Round W
  wrapped p = if is_nonzero p.0 then returns p.0 p.1 else again p.1

  receive_close-noted :
      (msg : List ℕ) (ctx : EventContext W)
      → (imsg ctx).msg_length ≡ length msg
      → IsValidClose msg
      → receive_close msg ctx
        ≡ wrapped (queue_close_wrapper (noted msg ctx) (status_of msg) (reason_of msg))
  unfolding receive_close
  receive_close-noted msg ctx size valid =
      ap by_test (ap (ltb 1) size) ∙ by_case (ltb 1 (length msg)) (λ e. valid (ltb→lt _ _ e))
    where
      parts : Bool → ℕ × List ℕ
      parts b = if b then (be_number 0 (take 2 msg), drop 2 msg) else (0, [])

      answer : ℕ × List ℕ → Round W
      answer p = wrapped (
          queue_close_wrapper
            (record ctx {
              close_status = bit_or ctx.close_status close_received;
              status_code_recv = if p.0 == 0 then code_no_status_rcvd else p.0;
            })
            p.0 p.1)

      by_test : Bool → Round W
      by_test b =
          if b && not (is_valid_status_code (parts b).0)
          then close_and_stop code_protocol_error ctx
          else answer (parts b)

      by_case :
          (b : Bool)
          → (b ≡ true → is_valid_status_code (be_number 0 (take 2 msg)) ≡ true)
          → by_test b
            ≡ answer (if b then be_number 0 (take 2 msg) else 0, if b then drop 2 msg else [])
      by_case true v =
          ap (λ t. if not t then close_and_stop code_protocol_error ctx else answer (parts true))
            (v refl)
      by_case false v = refl

  noted-queueable :
      (msg : List ℕ) (ctx : EventContext W)
      → ctx.close_status < 8
      → is_msg_queueable (noted msg ctx) ≡ is_msg_queueable ctx
  unfolding is_msg_queueable
  noted-queueable msg ctx flags =
      ap (λ k. ctx.write_enabled && k == 0)
        (all_below_eq 8 (λ s. bit_and (bit_or s close_received) close_queued)
          (λ s. bit_and s close_queued) kept_flags ctx.close_status flags)

  -- A close message was taken: its status code is kept, and reading is disabled.
  pub record TookClose (msg : List ℕ) (out : EventContext W) : Type 0 where
    pub status : out.status_code_recv ≡ reported_status msg
    pub received : get_close_received out ≡ true
    pub stopped : out.read_enabled ≡ false

  -- The answer, where one can be queued: a close frame with the payload of the message, or with none
  -- if that is too short for a status code, behind the other control messages, and the last that can
  -- be queued. Where none can, because this side closed first or writing is disabled, the function
  -- returns 1.
  pub record AnswersClose (msg : List ℕ) (ctx : EventContext W) (round : Round W) : Type 0 where
    pub queued :
        is_msg_queueable ctx ≡ true
        → (out : EventContext W) × (round ≡ again out)
          × TookClose msg out
          × (out.send_ctrl_queue
              ≡ ctx.send_ctrl_queue ++ omsg_non_fragmented_new connection_close (reply msg) ∷ [])
          × IsClosed out
    pub already_closing :
        is_msg_queueable ctx ≡ false
        → (out : EventContext W) × (round ≡ returns (pos 1) out)
          × TookClose msg out
          × (out.send_ctrl_queue ≡ ctx.send_ctrl_queue)

  -- A close message of at most 125 bytes whose status code is valid is answered with a close frame of
  -- the same payload; one of fewer than two bytes, which has no status code, with a close frame
  -- without payload. The status code is kept, 1005 for none, and reading is disabled. Where nothing
  -- can be queued, because this side closed first or writing is disabled, nothing is queued and 1 is
  -- returned.
  pub receive_close-AnswersClose :
      (msg : List ℕ) (ctx : EventContext W)
      → (imsg ctx).msg_length ≡ length msg
      → length msg ≤ 125
      → All IsByte msg
      → ctx.close_status < 8
      → IsValidClose msg
      → AnswersClose msg ctx (receive_close msg ctx)
  unfolding push_msg is_ctrl_frame get_close_received
  receive_close-AnswersClose msg ctx size small bytes flags valid =
      let c = noted msg ctx in
      let flags' : c.close_status < 8 = ltb→lt _ _ (
        all_below_sound 8 (λ s. ltb (bit_or s close_received) 8) ctx.close_status received_small
          flags) in
      let short : length (reason_of msg) ≤ 123 = reason_short msg small in
      let e = receive_close-noted msg ctx size valid in
      record {
        queued = λ free.
            let q =
              wrapper-queues c (status_of msg) (reason_of msg) short
                (noted-queueable msg ctx flags ∙ free) in
            (
              _,
              e ∙ ap wrapped q,
              record {
                status = noted_status msg valid;
                received =
                    all_below_sound 8
                      (λ s.
                        ltb 0
                          (bit_and (bit_or (bit_or s close_received) close_queued) close_received))
                      ctx.close_status answered_flags flags;
                stopped = refl;
              },
              ap (λ p. ctx.send_ctrl_queue ++ omsg_non_fragmented_new connection_close p ∷ [])
                  (close_payload-reply msg bytes valid),
              queued-IsClosed c flags',
            );
        already_closing = λ shut.
            let q =
              wrapper-refuses c (status_of msg) (reason_of msg)
                (noted-queueable msg ctx flags ∙ shut) in
            (
              _,
              e ∙ ap wrapped q,
              record {
                status = noted_status msg valid;
                received =
                    all_below_sound 8
                      (λ s. ltb 0 (bit_and (bit_or s close_received) close_received))
                      ctx.close_status received_flags flags;
                stopped = refl;
              },
              refl,
            );
      }

  -- A ping is answered with a pong of the same payload, behind the other control messages, where a
  -- message can be queued; else it is let be. The loop goes on in both cases.
  pub receive_ping-answers :
      (msg : List ℕ) (ctx : EventContext W)
      → length msg ≤ 125
      → receive_ping msg ctx
        ≡ again (
            if is_msg_queueable ctx
            then push_msg (record { opcode = pong; msg = msg }) ctx
            else ctx)
  unfolding receive_ping queue_msg is_ctrl_frame
  receive_ping-answers msg ctx small = elim (Bool-cases (is_msg_queueable ctx)) [
    | inl free ↦ rw (free, not_ltb 125 (length msg) small) refl
    | inr shut ↦ rw shut refl
  ]
