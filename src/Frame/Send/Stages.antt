-- ===== src/Frame/Send/Stages.antt =====
-- The last stage of `wslay_frame_send`, with the payload of the control block.
use wslay.Prelude.{
  ℕ, ◌+◌, ◌^◌, ◌≤◌, ◌<◌, ◌≡◌, refl, sym, ap, ap₂, subst, ◌∙◌, ◌⊎◌, inl, inr, Bool, true, false, ltb,
  ltb→lt, ltb→ge, not_ltb, ◌==◌, Bool-cases, if◌then◌else◌, List, [], ◌++◌, arith, length, take,
  nil_of_length, length-append, length-take,
}
use mathlib.Core.List.{append-nil}
use wslay.Protocol.{Error, want_write, Iocb, data_length}
use wslay.Frame.Wire.{Header, masked, masked-nil, frame}
use wslay.Frame.Context.{
  FrameState, prep_header, send_payload, SendContext, FrameCallbacks, ok, At, Ensures, Ensures-bind,
  Ensures-mono,
}
use wslay.Frame.Send.{masked_loop, write_plain, finish, write_payload}
use wslay.Frame.Send.Output.{IsSink, PayloadOut}
use wslay.Frame.Send.Masked.{Part, none_more, moved_on, masked_loop-Part}

-- What a call reports with its result `n`: it sent `n` bytes of the data `left`, behind `d`, at
-- least one unless there are none, and the frame is over when that is its whole payload.
pub record Done {W : Type 0} (sent : W → List ℕ) (log : List ℕ) (h : Header) (d left : List ℕ)
    (n : ℕ) (t : At SendContext W) : Type 0 where
  pub fits : n ≤ length left
  pub payload : PayloadOut sent log h (d ++ take n left) t
  pub state :
      t.ctx.ostate ≡ (if length d + n == h.payload_length then prep_header else send_payload)
  pub progress : (0 < n) ⊎ (left ≡ [])

masked-false :
    (m : Bool) (key : List ℕ) (off : ℕ) (xs : List ℕ) → m ≡ false → xs ≡ masked m key off xs
unfolding masked
masked-false true key off xs h = absurd (ground arith)
masked-false false key off xs h = refl

module _ {W : Type 0} (cb : FrameCallbacks W) (iocb : Iocb) (sent : W → List ℕ)
    (sink : IsSink cb sent) (log : List ℕ) (h : Header) (size : h.payload_length < 2 ^ 63) where
  -- The stage failed with no byte of the payload sent.
  abbrev Waits : List ℕ → FrameState → Error → At SendContext W → Type 0
  Waits d st e t = (e ≡ want_write) × PayloadOut sent log h d t × (t.ctx.ostate ≡ st)

  write_plain-Part :
      (d : List ℕ) (s : At SendContext W)
      → h.mask ≡ false
      → length d + data_length iocb ≤ h.payload_length
      → PayloadOut sent log h d s
      → Ensures
          (Part sent log h d iocb.payload 0 s.ctx.ostate)
          (Waits d s.ctx.ostate)
          (write_plain cb iocb s)
  unfolding write_plain
  write_plain-Part d s m room p =
      let c = s.ctx in
      let left = iocb.payload in
      let r = (cb.send_callback left 0 true s.world).0 in
      let w' = (cb.send_callback left 0 true s.world).1 in
      let fits : r ≤ length left = sink.at_most left 0 true s.world in
      let out : sent w' ≡ sent s.world ++ masked h.mask c.omaskkey (length d) (take r left) =
        sink.goes_out left 0 true s.world
        ∙ ap (λ t. sent s.world ++ t) (masked-false h.mask c.omaskkey (length d) (take r left) m) in
      let too_long : ltb (data_length iocb) r ≡ false = not_ltb (data_length iocb) r fits in
      elim (Bool-cases (ltb 0 r)) [
        | inr none_sent ↦
            let e : r ≡ 0 = omega (arith, ltb→ge 0 r none_sent) in
            rw none_sent (
              refl,
              record {
                out =
                    out
                    ∙ ap₂ ◌++◌ p.out (
                        ap (λ k. masked h.mask c.omaskkey (length d) (take k left)) e
                        ∙ masked-nil h.mask c.omaskkey (length d))
                    ∙ append-nil (log ++ frame h c.omaskkey d);
                off = p.off;
                len = p.len;
                mask = p.mask;
                key_size = p.key_size;
              },
              refl,
            )
        | inl some_sent ↦
            rw (some_sent, too_long)
              (record {
                more = r;
                sum = omega arith;
                fits = fits;
                payload = moved_on cb iocb sent sink log h size d left r s w' p room fits out;
                state = refl;
                progress = inl (ltb→lt 0 r some_sent);
              })
      ]

  finish-Done :
      (d : List ℕ) (n : ℕ) (s : At SendContext W)
      → s.ctx.ostate ≡ send_payload
      → Part sent log h d iocb.payload 0 send_payload n s
      → Ensures (Done sent log h d iocb.payload) (Waits d send_payload) (finish cb iocb n s)
  unfolding finish
  finish-Done d n s st p =
      let left = iocb.payload in
      let e : p.more ≡ n = omega (arith, p.sum) in
      let payload : PayloadOut sent log h (d ++ take n left) s =
        subst (λ k. PayloadOut sent log h (d ++ take k left) s) e p.payload in
      let fits : n ≤ length left = omega (arith, p.fits, e) in
      let off : s.ctx.opayloadoff ≡ length d + n =
        payload.off ∙ omega (arith, length-append d (take n left), length-take n left, fits) in
      let test : (s.ctx.opayloadoff == s.ctx.opayloadlen) ≡ (length d + n == h.payload_length) =
        ap₂ (λ a b. a == b) off payload.len in
      elim (Bool-cases (length d + n == h.payload_length)) [
        | inl all_sent ↦
            rw (test, all_sent)
              (record {
                fits = fits;
                payload = record {
                  out = payload.out;
                  off = payload.off;
                  len = payload.len;
                  mask = payload.mask;
                  key_size = payload.key_size;
                };
                state = sym (ap (λ b. if b then prep_header else send_payload) all_sent);
                progress = p.progress;
              })
        | inr more ↦
            rw (test, more)
              (record {
                fits = fits;
                payload = payload;
                state = st ∙ sym (ap (λ b. if b then prep_header else send_payload) more);
                progress = p.progress;
              })
      ]

  data-Part :
      (d : List ℕ) (s : At SendContext W)
      → length d + data_length iocb ≤ h.payload_length
      → PayloadOut sent log h d s
      → Ensures (Part sent log h d iocb.payload 0 s.ctx.ostate) (Waits d s.ctx.ostate) (
          if ltb 0 (data_length iocb)
          then (if s.ctx.omask
              then masked_loop cb iocb (data_length iocb) iocb.payload 0 s
              else write_plain cb iocb s)
          else ok 0 s)
  data-Part d s room p = elim (Bool-cases (ltb 0 (data_length iocb))) [
    | inr nothing ↦ rw nothing (
        none_more cb iocb sent sink log h size d iocb.payload 0 s p
          (inr (nil_of_length iocb.payload (omega (arith, ltb→ge 0 (data_length iocb) nothing)))))
    | inl something ↦ rw something (elim (Bool-cases s.ctx.omask) [
      | inl m ↦
          subst
            (λ b. Ensures (Part sent log h d iocb.payload 0 s.ctx.ostate) (Waits d s.ctx.ostate) (
              if b
              then masked_loop cb iocb (data_length iocb) iocb.payload 0 s
              else write_plain cb iocb s))
            (sym m)
            (Ensures-mono (Part sent log h d iocb.payload 0 s.ctx.ostate)
              (Part sent log h d iocb.payload 0 s.ctx.ostate)
              (λ e t.
                (e ≡ want_write)
                × (0 ≡ 0)
                × PayloadOut sent log h d t
                × (t.ctx.ostate ≡ s.ctx.ostate))
              (Waits d s.ctx.ostate) (masked_loop cb iocb (data_length iocb) iocb.payload 0 s)
              (masked_loop-Part cb iocb sent sink log h size (data_length iocb) d iocb.payload 0 s
                (sym p.mask ∙ m) (omega arith) room p)
              (λ _ _ q. q) (λ e t q. (q.0, q.2, q.3)))
      | inr m ↦
          subst
            (λ b. Ensures (Part sent log h d iocb.payload 0 s.ctx.ostate) (Waits d s.ctx.ostate) (
              if b
              then masked_loop cb iocb (data_length iocb) iocb.payload 0 s
              else write_plain cb iocb s))
            (sym m) (write_plain-Part d s (sym p.mask ∙ m) room p)
    ])
  ]

  pub write_payload-Done :
      (d : List ℕ) (s : At SendContext W)
      → length d + data_length iocb ≤ h.payload_length
      → s.ctx.ostate ≡ send_payload
      → PayloadOut sent log h d s
      → Ensures (Done sent log h d iocb.payload) (Waits d send_payload) (write_payload cb iocb s)
  unfolding write_payload
  write_payload-Done d s room st p =
      Ensures-bind (Part sent log h d iocb.payload 0 send_payload) (Waits d send_payload)
        (Done sent log h d iocb.payload)
        (if ltb 0 (data_length iocb)
          then (if s.ctx.omask
              then masked_loop cb iocb (data_length iocb) iocb.payload 0 s
              else write_plain cb iocb s)
          else ok 0 s)
        (finish cb iocb)
        (subst
          (λ x. Ensures (Part sent log h d iocb.payload 0 x) (Waits d x) (
            if ltb 0 (data_length iocb)
            then (if s.ctx.omask
                then masked_loop cb iocb (data_length iocb) iocb.payload 0 s
                else write_plain cb iocb s)
            else ok 0 s))
          st (data-Part d s room p))
        (λ n t q. finish-Done d n t q.state q)
