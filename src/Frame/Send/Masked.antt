-- ===== src/Frame/Send/Masked.antt =====
-- The loop that masks and sends the payload, against what went out on the connection.
use wslay.Prelude.{
  ℕ, zero, suc, ◌+◌, ◌^◌, ◌≤◌, ◌<◌, ◌≡◌, refl, sym, ap, ap₂, subst, ◌∙◌, ◌⊎◌, inl, inr, Bool, true,
  false, ltb, ltb→lt, ltb→ge, not_ltb, Bool-cases, List, [], ◌∷◌, ◌++◌, arith, length, take, drop,
  take-add, length-take, take-take, length-drop, length-append,
}
use mathlib.Core.List.{append_assoc, append-nil}
use wslay.Protocol.{want_write, Iocb}
use wslay.Frame.Bytes.{mask_bytes, take-mask_bytes, length-mask_bytes, add64}
use wslay.Frame.Wire.{masked-nil, frame-append, Header, masked, frame}
use wslay.Frame.Context.{FrameState, SendContext, FrameCallbacks, At, Ensures, Ensures-mono}
use wslay.Frame.Send.{masked_loop}
use wslay.Frame.Send.Output.{IsSink, PayloadOut}

masked-true :
    (m : Bool) (key : List ℕ) (off : ℕ) (xs : List ℕ)
    → m ≡ true
    → mask_bytes key off xs ≡ masked m key off xs
unfolding masked
masked-true true key off xs h = refl
masked-true false key off xs h = absurd (ground arith)

-- What a part of the stage has sent of the data `left`, behind `d`.
pub record Part {W : Type 0} (sent : W → List ℕ) (log : List ℕ) (h : Header) (d left : List ℕ)
    (total : ℕ) (st : FrameState) (n : ℕ) (t : At SendContext W) : Type 0 where
  pub more : ℕ
  pub sum : n ≡ total + more
  pub fits : more ≤ length left
  pub payload : PayloadOut sent log h (d ++ take more left) t
  pub state : t.ctx.ostate ≡ st
  pub progress : (0 < n) ⊎ (left ≡ [])

module _ {W : Type 0} (cb : FrameCallbacks W) (iocb : Iocb) (sent : W → List ℕ)
    (sink : IsSink cb sent) (log : List ℕ) (h : Header) (size : h.payload_length < 2 ^ 63) where
  pub none_more :
      (d left : List ℕ) (total : ℕ) (s : At SendContext W)
      → PayloadOut sent log h d s
      → (0 < total) ⊎ (left ≡ [])
      → Part sent log h d left total s.ctx.ostate total s
  none_more d left total s p q = record {
    more = 0;
    sum = omega arith;
    fits = omega arith;
    payload = subst (λ x. PayloadOut sent log h x s) (sym (append-nil d)) p;
    state = refl;
    progress = q;
  }

  -- A send of some bytes of the payload moves the frame on by as many.
  pub moved_on :
      (d left : List ℕ) (r : ℕ) (s : At SendContext W) (w' : W)
      → PayloadOut sent log h d s
      → length d + length left ≤ h.payload_length
      → r ≤ length left
      → sent w' ≡ sent s.world ++ masked h.mask s.ctx.omaskkey (length d) (take r left)
      → PayloadOut sent log h
          (d ++ take r left)
          (record { ctx = record s.ctx { opayloadoff = add64 s.ctx.opayloadoff r }; world = w' })
  moved_on d left r s w' p room fits out = record {
    out =
        out
        ∙ ap (λ t. t ++ masked h.mask s.ctx.omaskkey (length d) (take r left)) p.out
        ∙ append_assoc log (frame h s.ctx.omaskkey d)
            (masked h.mask s.ctx.omaskkey (length d) (take r left))
        ∙ ap (λ t. log ++ t) (sym (frame-append h s.ctx.omaskkey d (take r left)));
    off = omega (arith, p.off, length-append d (take r left), length-take r left, size);
    len = p.len;
    mask = p.mask;
    key_size = p.key_size;
  }

  -- A round that sends `r` bytes, and the rounds behind it.
  joined :
      (d left : List ℕ) (r total n : ℕ) (t : At SendContext W) {st : FrameState}
      → r ≤ length left
      → ltb 0 r ≡ true
      → Part sent log h (d ++ take r left) (drop r left) (total + r) st n t
      → Part sent log h d left total st n t
  joined d left r total n t fits some_sent q = record {
    more = r + q.more;
    sum = omega (arith, q.sum);
    fits = omega (arith, q.fits, fits, length-drop r left);
    payload =
        subst (λ x. PayloadOut sent log h x t)
          (append_assoc d (take r left) (take q.more (drop r left))
            ∙ ap (λ x. d ++ x) (sym (take-add r q.more left)))
          q.payload;
    state = q.state;
    progress = inl (omega (arith, q.sum, ltb→lt 0 r some_sent));
  }

  pub masked_loop-Part :
      (fuel : ℕ) (d left : List ℕ) (total : ℕ) (s : At SendContext W)
      → h.mask ≡ true
      → length left ≤ fuel
      → length d + length left ≤ h.payload_length
      → PayloadOut sent log h d s
      → Ensures
          (Part sent log h d left total s.ctx.ostate)
          (λ e t.
            (e ≡ want_write)
            × (total ≡ 0)
            × PayloadOut sent log h d t
            × (t.ctx.ostate ≡ s.ctx.ostate))
          (masked_loop cb iocb fuel left total s)
  unfolding masked_loop
  masked_loop-Part zero d [] total s m f room p = none_more d [] total s p (inr refl)
  masked_loop-Part zero d (x ∷ xs) total s m f room p = absurd (omega arith)
  masked_loop-Part (suc fuel) d [] total s m f room p = none_more d [] total s p (inr refl)
  masked_loop-Part (suc fuel) d (x ∷ xs) total s m f room p =
      let left = x ∷ xs in
      let c = s.ctx in
      let chunk = take 4096 left in
      let ys = mask_bytes c.omaskkey c.opayloadoff chunk in
      let r = (cb.send_callback ys 0 false s.world).0 in
      let w' = (cb.send_callback ys 0 false s.world).1 in
      let cut = length-take 4096 left in
      let width : length ys ≡ length chunk = length-mask_bytes c.omaskkey c.opayloadoff chunk in
      let fits : r ≤ length chunk = omega (arith, sink.at_most ys 0 false s.world, width) in
      let in_time : r ≤ 4096 = omega (arith, fits, cut) in
      let in_left : r ≤ length left = omega (arith, fits, cut) in
      let bytes : take r ys ≡ masked h.mask c.omaskkey (length d) (take r left) =
        take-mask_bytes r c.omaskkey c.opayloadoff chunk
        ∙ ap₂ (mask_bytes c.omaskkey) p.off (take-take r 4096 left in_time)
        ∙ masked-true h.mask c.omaskkey (length d) (take r left) m in
      let out : sent w' ≡ sent s.world ++ masked h.mask c.omaskkey (length d) (take r left) =
        sink.goes_out ys 0 false s.world ∙ ap (λ t. sent s.world ++ t) bytes in
      let next : At SendContext W = record {
        ctx = record c { opayloadoff = add64 c.opayloadoff r };
        world = w';
      } in
      let moved = moved_on d left r s w' p room in_left out in
      let shorter = length-drop r left in
      elim (Bool-cases (ltb 0 r)) [
        | inr none_sent ↦
            let e : r ≡ 0 = omega (arith, ltb→ge 0 r none_sent) in
            let still : PayloadOut sent log h d (record s { world = w' }) = record {
              out =
                  out
                  ∙ ap₂ ◌++◌ p.out (
                      ap (λ k. masked h.mask c.omaskkey (length d) (take k left)) e
                      ∙ masked-nil h.mask c.omaskkey (length d))
                  ∙ append-nil (log ++ frame h c.omaskkey d);
              off = p.off;
              len = p.len;
              mask = p.mask;
              key_size = p.key_size;
            } in
            rw none_sent (elim (Bool-cases (ltb 0 total)) [
              | inl some_total ↦ rw some_total (
                  none_more d left total (record s { world = w' }) still
                    (inl (ltb→lt 0 total some_total)))
              | inr no_total ↦
                  rw no_total (refl, omega (arith, ltb→ge 0 total no_total), still, refl)
            ])
        | inl some_sent ↦
            let too_long : ltb (length chunk) r ≡ false = not_ltb (length chunk) r fits in
            let ih =
              masked_loop-Part fuel (d ++ take r left) (drop r left) (total + r) next m
                (omega (arith, shorter, f, ltb→lt 0 r some_sent))
                (omega (
                  arith,
                  length-append d (take r left),
                  length-take r left,
                  shorter,
                  room,
                  in_left,
                ))
                moved in
            rw (some_sent, too_long)
              (Ensures-mono (Part sent log h (d ++ take r left) (drop r left) (total + r) c.ostate)
                (Part sent log h d left total c.ostate)
                (λ e t.
                  (e ≡ want_write)
                  × (total + r ≡ 0)
                  × PayloadOut sent log h (d ++ take r left) t
                  × (t.ctx.ostate ≡ c.ostate))
                (λ e t.
                  (e ≡ want_write)
                  × (total ≡ 0)
                  × PayloadOut sent log h d t
                  × (t.ctx.ostate ≡ c.ostate))
                (masked_loop cb iocb fuel (drop r left) (total + r) next) ih
                (λ n t q. joined d left r total n t in_left some_sent q)
                (λ e t q. absurd (omega (arith, q.1, ltb→lt 0 r some_sent))))
      ]
