-- ===== src/Frame/Send/Output.antt =====
-- The frame that is being sent, against what went out on the connection.
use wslay.Prelude.{
  ℕ, ◌+◌, ◌-◌, ◌≤◌, ◌<◌, ◌≡◌, refl, sym, ap, ap₂, ◌∙◌, inl, inr, Bool, true, false, ltb, ◌==◌,
  ==_iff, Bool-cases, if◌then◌else◌, List, [], ◌++◌, arith, length, take, drop, slice, take-add,
  take-take, length-slice,
}
use mathlib.Core.List.{append_assoc, append-nil}
use wslay.Protocol.{msg_more, want_write, Iocb, data_length}
use wslay.Frame.Wire.{masked-nil, Header, header, frame, frame_lem, iocb_header}
use wslay.Frame.Context.{
  FrameState, send_header, send_payload, SendContext, FrameCallbacks, At, Ensures,
}
use wslay.Frame.Send.{write_header}

-- The documented contract of the sending callback: it sends a prefix of what it is given, and
-- returns its length. That of the key callback: it fills in a key of `len` bytes or fails, and sends
-- nothing.
pub record IsSink {W : Type 0} (cb : FrameCallbacks W) (sent : W → List ℕ) : Type 0 where
  pub at_most :
      (xs : List ℕ) (flags : ℕ) (user : Bool) (w : W)
      → (cb.send_callback xs flags user w).0 ≤ length xs
  pub goes_out :
      (xs : List ℕ) (flags : ℕ) (user : Bool) (w : W)
      → sent (cb.send_callback xs flags user w).1
        ≡ sent w ++ take (cb.send_callback xs flags user w).0 xs
  pub key_size :
      (len : ℕ) (w : W)
      → (cb.genmask_callback len w).0 ≡ true
      → length (cb.genmask_callback len w).1 ≡ len
  pub key_silent : (len : ℕ) (w : W) → sent (cb.genmask_callback len w).2 ≡ sent w

-- What holds in each state while the frame `h` is being sent behind `log`, with the payload `d`
-- that went out so far.
pub record HeaderOut {W : Type 0} (sent : W → List ℕ) (log : List ℕ) (h : Header)
    (s : At SendContext W) : Type 0 where
  pub whole : take s.ctx.oheaderlimit s.ctx.oheader ≡ header h s.ctx.omaskkey
  pub order : s.ctx.oheadermark < s.ctx.oheaderlimit
  pub inside : s.ctx.oheaderlimit ≤ length s.ctx.oheader
  pub out : sent s.world ≡ log ++ take s.ctx.oheadermark s.ctx.oheader
  pub off : s.ctx.opayloadoff ≡ 0
  pub len : s.ctx.opayloadlen ≡ h.payload_length
  pub mask : s.ctx.omask ≡ h.mask
  pub key_size : h.mask ≡ true → length s.ctx.omaskkey ≡ 4

pub record PayloadOut {W : Type 0} (sent : W → List ℕ) (log : List ℕ) (h : Header) (d : List ℕ)
    (s : At SendContext W) : Type 0 where
  pub out : sent s.world ≡ log ++ frame h s.ctx.omaskkey d
  pub off : s.ctx.opayloadoff ≡ length d
  pub len : s.ctx.opayloadlen ≡ h.payload_length
  pub mask : s.ctx.omask ≡ h.mask
  pub key_size : h.mask ≡ true → length s.ctx.omaskkey ≡ 4

abbrev pub Out :
    {W : Type 0} → (W → List ℕ) → List ℕ → Header → List ℕ → FrameState → At SendContext W → Type 0
Out sent log h d send_header s = HeaderOut sent log h s × (d ≡ [])
Out sent log h d send_payload s = PayloadOut sent log h d s
Out sent log h d _ s = ⊥

pub frame-nil : (h : Header) (key : List ℕ) → frame h key [] ≡ header h key
frame-nil h key =
    frame_lem h key []
    ∙ ap (λ t. header h key ++ t) (masked-nil h.mask key 0)
    ∙ append-nil (header h key)

module _ {W : Type 0} (cb : FrameCallbacks W) (sent : W → List ℕ) (sink : IsSink cb sent)
    (log : List ℕ) (iocb : Iocb) where
  pub write_header-PayloadOut :
      (s : At SendContext W)
      → HeaderOut sent log (iocb_header iocb) s
      → Ensures
          (λ _ t. PayloadOut sent log (iocb_header iocb) [] t × (t.ctx.ostate ≡ send_payload))
          (λ e t.
            (e ≡ want_write)
            × HeaderOut sent log (iocb_header iocb) t
            × (t.ctx.ostate ≡ s.ctx.ostate))
          (write_header cb iocb s)
  unfolding write_header
  write_header-PayloadOut s p =
      let c = s.ctx in
      let h = iocb_header iocb in
      let len = c.oheaderlimit - c.oheadermark in
      let xs = slice c.oheadermark len c.oheader in
      let flags : ℕ = if ltb 0 (data_length iocb) then msg_more else 0 in
      let r = (cb.send_callback xs flags false s.world).0 in
      let w' = (cb.send_callback xs flags false s.world).1 in
      let size : length xs ≡ len =
        length-slice c.oheadermark len c.oheader (omega (arith, p.order, p.inside)) in
      let fits : r ≤ len = omega (arith, sink.at_most xs flags false s.world, size) in
      let out : sent w' ≡ log ++ take (c.oheadermark + r) c.oheader =
        sink.goes_out xs flags false s.world
        ∙ ap₂ ◌++◌ p.out (take-take r len (drop c.oheadermark c.oheader) fits)
        ∙ append_assoc log (take c.oheadermark c.oheader) (take r (drop c.oheadermark c.oheader))
        ∙ ap (λ t. log ++ t) (sym (take-add c.oheadermark r c.oheader)) in
      let too_long : ltb len r ≡ false = ground arith in
      let waits : (m : ℕ)
          → m ≡ c.oheadermark + r
          → m < c.oheaderlimit
          → HeaderOut sent log h (record { ctx = record c { oheadermark = m }; world = w' }) =
        λ m e lt. record {
          whole = p.whole;
          order = lt;
          inside = p.inside;
          out = out ∙ ap (λ k. log ++ take k c.oheader) (sym e);
          off = p.off;
          len = p.len;
          mask = p.mask;
          key_size = p.key_size;
        } in
      elim (Bool-cases (ltb 0 r)) [
        | inr none_sent ↦ rw none_sent (refl, waits c.oheadermark (ground arith) p.order, refl)
        | inl some_sent ↦
            rw (some_sent, too_long)
              (elim (Bool-cases (c.oheadermark + r == c.oheaderlimit)) [
                | inl all_sent ↦ rw all_sent (
                  record {
                    out =
                        out
                        ∙ ap (λ k. log ++ take k c.oheader)
                            ((==_iff (c.oheadermark + r) c.oheaderlimit).0 all_sent)
                        ∙ ap (λ t. log ++ t) (p.whole ∙ sym (frame-nil h c.omaskkey));
                    off = p.off;
                    len = p.len;
                    mask = p.mask;
                    key_size = p.key_size;
                  },
                  refl,
                )
                | inr more ↦ rw more (refl, waits (c.oheadermark + r) refl (ground arith), refl)
              ])
      ]
