-- ===== src/Frame/Send/Calls.antt =====
-- A frame that several calls of `wslay_frame_send` send, each with what is left of the payload, as
-- `wslay_event_send` makes them.
use wslay.Prelude.{
  ℕ, true, ◌+◌, ◌≡◌, refl, sym, ap, subst, ◌∙◌, ◌==◌, ==_iff, Bool-cases, if◌then◌else◌, List, [],
  ◌++◌, arith, length, take, drop, take_all, inl, inr, take-append-drop, length-append, ◌≢◌,
}
use mathlib.Core.List.{append_assoc}
use wslay.Protocol.{Error, Iocb}
use wslay.Frame.Wire.{frame, iocb_header}
use wslay.Frame.Context.{
  FrameState, prep_header, send_payload, SendContext, FrameCallbacks, ok, err, At, Ensures,
  Ensures-ok, Ensures-err,
}
use wslay.Frame.Send.{frame_send}
use wslay.Frame.Send.Header.{IsSendable}
use wslay.Frame.Send.Output.{IsSink, Out}
use wslay.Frame.Send.Stages.{Done}
use wslay.Frame.Send.Sound.{Sending, FailsFrom, frame_send-Done}

-- The control block for the rest of the payload.
abbrev pub with_data : Iocb → List ℕ → Iocb
with_data iocb left = record {
  fin = iocb.fin;
  rsv = iocb.rsv;
  opcode = iocb.opcode;
  payload_length = iocb.payload_length;
  mask = iocb.mask;
  payload = left;
}

prep-ne-send : prep_header ≢ send_payload
prep-ne-send e = subst (λ x. elim x [ FrameState.send_payload ↦ ⊥ | _ ↦ Unit {0} ]) e tt

module _ {W : Type 0} (cb : FrameCallbacks W) (iocb : Iocb) where
  -- Calls that leave the frame unfinished, from the start of the payload on: what is left of it, and
  -- the state.
  pub data Calls (s₀ : At SendContext W) : List ℕ → At SendContext W → Type 0 where
    start : Calls s₀ iocb.payload s₀
    sent_some :
        {left : List ℕ} {s : At SendContext W}
        → Calls s₀ left s
        → (n : ℕ) (t : At SendContext W) → frame_send cb (with_data iocb left) s ≡ ok n t
        → t.ctx.ostate ≡ send_payload
        → Calls s₀ (drop n left) t
    full :
        {left : List ℕ} {s : At SendContext W}
        → Calls s₀ left s
        → (e : Error) (t : At SendContext W) → frame_send cb (with_data iocb left) s ≡ err e t
        → Calls s₀ left t

  module _ (sent : W → List ℕ) (sink : IsSink cb sent) (log : List ℕ) (k : IsSendable iocb)
      (whole : length iocb.payload ≡ iocb.payload_length) where
    -- What the calls so far sent.
    record Split (left : List ℕ) (s : At SendContext W) : Type 0 where
      done : List ℕ
      split : done ++ left ≡ iocb.payload
      sending : Sending sent log (iocb_header iocb) done s.ctx.ostate s

    Out-Sending :
        (d : List ℕ) (st : FrameState) (s : At SendContext W)
        → Out sent log (iocb_header iocb) d st s
        → Sending sent log (iocb_header iocb) d st s
    Out-Sending d FrameState.prep_header s p = absurd p
    Out-Sending d _ s p = p

    -- The errors of a call.
    abbrev Failing :
        (left : List ℕ) (s : At SendContext W) → Split left s → Error → At SendContext W → Type 0
    Failing left s v e t = FailsFrom cb (with_data iocb left) sent sink log s v.done e t

    Failing-Sending :
        (left : List ℕ) (s : At SendContext W) (v : Split left s) (e : Error) (t : At SendContext W)
        → Failing left s v e t
        → Sending sent log (iocb_header iocb) v.done t.ctx.ostate t
    Failing-Sending left s v e t (inl q) = Out-Sending v.done t.ctx.ostate t q.1
    Failing-Sending left s v e t (inr q) = q.3

    one_call :
        (left : List ℕ) (s : At SendContext W) (v : Split left s)
        → Ensures
            (Done sent log (iocb_header iocb) v.done left)
            (Failing left s v)
            (frame_send cb (with_data iocb left) s)
    one_call left s v =
        frame_send-Done cb (with_data iocb left) sent sink log
          (record {
            fin = k.fin;
            rsv = k.rsv;
            opcode = k.opcode;
            size = k.size;
            ctrl_short = k.ctrl_short;
          })
          v.done (omega (arith, ap length v.split, length-append v.done left, whole)) s v.sending

    Calls-Split :
        (s₀ : At SendContext W)
        → Sending sent log (iocb_header iocb) [] s₀.ctx.ostate s₀
        → (left : List ℕ) (s : At SendContext W) → Calls s₀ left s
        → Split left s
    Calls-Split s₀ h left s start = record { done = []; split = refl; sending = h }
    Calls-Split s₀ h left s (sent_some {left = rest} {s = u} c n t e st) =
        let v = Calls-Split s₀ h rest u c in
        let q =
          Ensures-ok (Done sent log (iocb_header iocb) v.done rest) (Failing rest u v)
            (frame_send cb (with_data iocb rest) u) n t (one_call rest u v) e in
        record {
          done = v.done ++ take n rest;
          split =
              append_assoc v.done (take n rest) (drop n rest)
              ∙ ap (λ x. v.done ++ x) (take-append-drop n rest)
              ∙ v.split;
          sending =
              subst (λ x. Sending sent log (iocb_header iocb) (v.done ++ take n rest) x t) (sym st)
                q.payload;
        }
    Calls-Split s₀ h left s (full {left = rest} {s = u} c e t eq) =
        let v = Calls-Split s₀ h rest u c in
        let q =
          Ensures-err (Done sent log (iocb_header iocb) v.done rest) (Failing rest u v)
            (frame_send cb (with_data iocb rest) u) e t (one_call rest u v) eq in
        record { done = v.done; split = v.split; sending = Failing-Sending rest u v e t q }

    -- The frame is out: all bytes of it, and what the context keeps of it.
    pub record IsOut (t : At SendContext W) : Type 0 where
      pub out : sent t.world ≡ log ++ frame (iocb_header iocb) t.ctx.omaskkey iocb.payload
      pub mask : t.ctx.omask ≡ iocb.mask
      pub key_size : iocb.mask ≡ true → length t.ctx.omaskkey ≡ 4

    pub Calls-IsOut :
        (s₀ : At SendContext W)
        → Sending sent log (iocb_header iocb) [] s₀.ctx.ostate s₀
        → (left : List ℕ) (s : At SendContext W) → Calls s₀ left s
        → (n : ℕ) (t : At SendContext W) → frame_send cb (with_data iocb left) s ≡ ok n t
        → t.ctx.ostate ≡ prep_header
        → IsOut t
    Calls-IsOut s₀ h left s c n t e st =
        let v = Calls-Split s₀ h left s c in
        let q =
          Ensures-ok (Done sent log (iocb_header iocb) v.done left) (Failing left s v)
            (frame_send cb (with_data iocb left) s) n t (one_call left s v) e in
        elim (Bool-cases (length v.done + n == iocb.payload_length)) [
          | inl all_sent ↦
              let size : n ≡ length left = omega (
                arith,
                (==_iff (length v.done + n) iocb.payload_length).0 all_sent,
                ap length v.split,
                length-append v.done left,
                whole,
              ) in
              let everything : v.done ++ take n left ≡ iocb.payload =
                ap (λ k. v.done ++ take k left) size
                ∙ ap (λ x. v.done ++ x) (take_all left)
                ∙ v.split in
              record {
                out =
                    q.payload.out
                    ∙ ap (λ x. log ++ frame (iocb_header iocb) t.ctx.omaskkey x) everything;
                mask = q.payload.mask;
                key_size = q.payload.key_size;
              }
          | inr more ↦ absurd (
              prep-ne-send
                (sym st ∙ q.state ∙ ap (λ b. if b then prep_header else send_payload) more))
        ]

    -- However many calls a frame takes, and wherever the connection cuts it: the call that ends it
    -- has sent exactly the frame, with its payload masked by the key in the header.
    pub Calls-frame :
        (s₀ : At SendContext W)
        → Sending sent log (iocb_header iocb) [] s₀.ctx.ostate s₀
        → (left : List ℕ) (s : At SendContext W) → Calls s₀ left s
        → (n : ℕ) (t : At SendContext W) → frame_send cb (with_data iocb left) s ≡ ok n t
        → t.ctx.ostate ≡ prep_header
        → sent t.world ≡ log ++ frame (iocb_header iocb) t.ctx.omaskkey iocb.payload
    Calls-frame s₀ h left s c n t e st = (Calls-IsOut s₀ h left s c n t e st).out
