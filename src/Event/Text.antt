-- ===== src/Event/Text.antt =====
-- The text that `wslay_event_recv` checks.
use wslay.Prelude.{
  ℕ, ◌≡◌, refl, sym, ap, ◌∙◌, ◌↔◌, Bool, true, false, not, ◌&&◌, ltb, ◌==◌, ==_iff, Bool-cases, inl,
  inr, if◌then◌else◌, List, [], ◌∷◌, length, All, IsByte, ℤ, pos, is_nonzero, same_int, bit_or,
}
use wslay.Protocol.{
  code, no_more_msg, connection_close, is_ctrl_frame, code_invalid_frame_payload_data,
}
use wslay.Utf8.{decode, run, utf8_accept, utf8_reject}
use wslay.Utf8.Grammar.{IsUtf8}
use wslay.Utf8.Accepts.{run-accept_iff}
use wslay.Utf8.Prefix.{run-reject}
use wslay.Event.Context.{Imsg, EventContext, close_queued}
use wslay.Event.Queueing.{
  Msg, is_msg_queueable, push_msg, queue_msg, close_payload, queue_close, queue_close_wrapper,
}
use wslay.Event.Recv.{imsg, set_imsg, check_utf8}

module _ {W : Type 0} where
  pub imsg-set_imsg : (m : Imsg) (ctx : EventContext W) → imsg (set_imsg m ctx) ≡ m
  imsg-set_imsg m ctx = elim (Bool-cases ctx.imsg_is_second) [
    | inl second ↦ rw second refl
    | inr first ↦ rw first refl
  ]

  -- The context holds the same message.
  abbrev SameImsg : Imsg → EventContext W → Type 0
  SameImsg m ctx = imsg ctx ≡ m

  branch :
      (P : EventContext W → Type 0) (b : Bool) (p q : ℤ × EventContext W)
      → P p.1
      → P q.1
      → P (if b then p else q).1
  branch P true p q h k = h
  branch P false p q h k = k

  queue_msg-imsg : (ctx : EventContext W) (arg : Msg) → imsg (queue_msg ctx arg).1 ≡ imsg ctx
  unfolding queue_msg push_msg
  queue_msg-imsg ctx arg =
      branch (SameImsg (imsg ctx)) (not (is_msg_queueable ctx)) (code no_more_msg, ctx) _ refl
        (branch (SameImsg (imsg ctx)) (is_ctrl_frame arg.opcode && ltb 125 (length arg.msg)) _ _
          refl refl)

  queue_close-imsg :
      (ctx : EventContext W) (n : ℕ) (reason : List ℕ)
      → imsg (queue_close ctx n reason).1 ≡ imsg ctx
  unfolding queue_close
  queue_close-imsg ctx n reason =
      let arg : Msg = record { opcode = connection_close; msg = close_payload n reason } in
      let (r, ctx') = queue_msg ctx arg in
      branch (SameImsg (imsg ctx)) (not (is_msg_queueable ctx)) (pos 1, ctx) _ refl
        (branch (SameImsg (imsg ctx)) (ltb 123 (length reason)) (pos 2, ctx) _ refl
          (branch (SameImsg (imsg ctx)) (is_nonzero r) (r, ctx')
            (r, record ctx' { close_status = bit_or ctx'.close_status close_queued })
            (queue_msg-imsg ctx arg) (queue_msg-imsg ctx arg)))

  wrapper-imsg :
      (ctx : EventContext W) (n : ℕ) (reason : List ℕ)
      → imsg (queue_close_wrapper ctx n reason).1 ≡ imsg ctx
  unfolding queue_close_wrapper
  wrapper-imsg ctx n reason =
      let (r, ctx') = queue_close (record ctx { read_enabled = false }) n reason in
      let same = queue_close-imsg (record ctx { read_enabled = false }) n reason in
      branch (SameImsg (imsg ctx)) (is_nonzero r && not (same_int r (code no_more_msg))) (r, ctx')
        (pos 0, ctx') same same

  -- The state that the check leaves is that of a run of `decode`, although it stops at the first bad
  -- byte.
  check_utf8-run :
      (bs : List ℕ) (ctx : EventContext W)
      → All IsByte bs
      → (imsg (check_utf8 bs ctx).1).utf8state ≡ run (imsg ctx).utf8state bs
  unfolding check_utf8 run
  check_utf8-run [] ctx h = refl
  check_utf8-run (b ∷ bs) ctx h =
      let state = (decode (record { state = (imsg ctx).utf8state; codep = 0 }) b).state in
      let m = record (imsg ctx) { utf8state = state } in
      let ctx' = set_imsg m ctx in
      let now : (imsg ctx').utf8state ≡ state =
        ap (λ (i : Imsg). i.utf8state) (imsg-set_imsg m ctx) in
      elim (Bool-cases (state == utf8_reject)) [
        | inl bad ↦
            let dead : state ≡ utf8_reject = (==_iff state utf8_reject).0 bad in
            rw bad (
              ap (λ (i : Imsg). i.utf8state) (wrapper-imsg ctx' code_invalid_frame_payload_data [])
              ∙ now
              ∙ dead
              ∙ sym (ap (λ s. run s bs) dead ∙ run-reject bs h.1))
        | inr good ↦ rw good (check_utf8-run bs ctx' h.1 ∙ ap (λ s. run s bs) now)
      ]

  -- A message that begins in UTF8_ACCEPT is there again after some bytes exactly when these are
  -- well-formed UTF-8.
  pub check_utf8-accept_iff :
      (bs : List ℕ) (ctx : EventContext W)
      → All IsByte bs
      → (imsg ctx).utf8state ≡ utf8_accept
      → ((imsg (check_utf8 bs ctx).1).utf8state ≡ utf8_accept) ↔ IsUtf8 bs
  check_utf8-accept_iff bs ctx h e =
      let whole : (imsg (check_utf8 bs ctx).1).utf8state ≡ run utf8_accept bs =
        check_utf8-run bs ctx h ∙ ap (λ s. run s bs) e in
      ((λ a. (run-accept_iff bs h).0 (sym whole ∙ a)), (λ u. whole ∙ (run-accept_iff bs h).1 u))
