-- ===== src/Frame/Recv/Lacking.antt =====
-- While a whole legal frame is in the stream, no stage of `wslay_frame_recv` lacks bytes for good.
use wslay.Prelude.{
  ℕ, ◌+◌, ◌≤◌, ◌<◌, ◌≡◌, sym, ap, ◌∙◌, ◌⊎◌, inl, inr, Bool, true, List, [], ◌∷◌, ◌++◌, arith,
  length, length-append, ◌==◌, if◌then◌else◌,
}
use wslay.Frame.Bytes.{length-be_bytes}
use wslay.Frame.Wire.{
  Header, first, second, short_length, extended_length, mask_flag, prefix, header, masked, frame,
  IsLegal,
}
use wslay.Frame.Unique.{
  cons_inj, second_inj, short_length_lt, LengthForm, in_second, in_two, in_eight, length_form,
  sent_key, prefix_inj, header_inj, frame-split, prefix-split, length-masked,
}
use wslay.Frame.Context.{
  FrameState, recv_header1, recv_ext_payloadlen, recv_maskkey, recv_payload, RecvContext, At,
}
use wslay.Frame.Recv.{avail}
use wslay.Frame.Recv.Buffer.{length-pending, pending}
use wslay.Frame.Recv.Input.{fields, stream}
use wslay.Frame.Recv.Progress.{
  StateOk, InProgress, at_state, header_of, consumed, nothing_delivered,
}
use wslay.Frame.Recv.Fed.{Stuck}
use wslay.Frame.Recv.Reads.{Whole, IsLegalWhole}

module _ {W : Type 0} (tape : W → List ℕ) (f : Whole) (legal : IsLegalWhole f) (rest : List ℕ)
    (t : At RecvContext W) where
  -- The bytes that an extended length still lacks.
  extended-lacks :
      (x reqread : ℕ) (m : Bool)
      → (reqread ≡ 2) ⊎ (reqread ≡ 8)
      → x ∷ (mask_flag m + (if reqread == 8 then 127 else 126)) ∷ stream tape t
        ≡ frame f.head f.key f.body ++ rest
      → reqread ≤ length (stream tape t)
  extended-lacks x reqread m which e =
      let h = f.head in
      let code : ℕ = if reqread == 8 then 127 else 126 in
      let tail = sent_key h.mask f.key ++ (masked h.mask f.key 0 f.body ++ rest) in
      let (_, behind) = cons_inj x (first h) (e ∙ prefix-split h f.key f.body rest) in
      let (flags, lengths) = cons_inj (mask_flag m + code) (second h) behind in
      let (_, short) =
        second_inj m h.mask code (short_length h.payload_length) (ground arith)
          (short_length_lt h.payload_length) flags in
      let size : length (stream tape t) ≡ length (extended_length h.payload_length) + length tail =
        ap length lengths ∙ length-append (extended_length h.payload_length) tail in
      by_form (length tail) which (length_form h.payload_length) short size
    where
      by_form :
          (n : ℕ)
          → (reqread ≡ 2) ⊎ (reqread ≡ 8)
          → LengthForm f.head.payload_length
          → (if reqread == 8 then 127 else 126) ≡ short_length f.head.payload_length
          → length (stream tape t) ≡ length (extended_length f.head.payload_length) + n
          → reqread ≤ length (stream tape t)
      by_form n (inl two) (in_two a b c d) short size =
          omega (arith, two, size, ap length d, length-be_bytes 2 f.head.payload_length)
      by_form n (inr eight) (in_eight a c d) short size =
          omega (arith, eight, size, ap length d, length-be_bytes 8 f.head.payload_length)
      by_form n w (in_second a b c) short size = absurd (ground (arith, w, short, b, a))
      by_form n (inl two) (in_eight a c d) short size = absurd (ground (arith, two, short, c))
      by_form n (inr eight) (in_two a b c d) short size = absurd (ground (arith, eight, short, c))

  -- The bytes that a key still lacks.
  key-lacks :
      (h : Header)
      → IsLegal h
      → h.mask ≡ true
      → prefix h ++ stream tape t ≡ frame f.head f.key f.body ++ rest
      → 4 ≤ length (stream tape t)
  key-lacks h p m e =
      let tail = masked f.head.mask f.key 0 f.body ++ rest in
      let (same, behind) =
        prefix_inj h f.head p legal.0 (e ∙ prefix-split f.head f.key f.body rest) in
      let masks : f.head.mask ≡ true = ap (λ (x : Header). x.mask) (sym same) ∙ m in
      omega (
        arith,
        legal.2 masks,
        ap length (behind ∙ ap (λ b. sent_key b f.key ++ tail) masks),
        length-append f.key tail,
      )

  -- A payload that is not all delivered has bytes left.
  payload-lacks :
      (h : Header) (key d : List ℕ)
      → IsLegal h
      → (h.mask ≡ true → length key ≡ 4)
      → length d < h.payload_length
      → header h key ++ (masked h.mask key 0 d ++ stream tape t) ≡ frame f.head f.key f.body ++ rest
      → 0 < length (stream tape t)
  payload-lacks h key d p k n e =
      let g = f.head in
      let (same, keys, payloads) =
        header_inj h g key f.key p legal.0 k legal.2 (e ∙ frame-split g f.key f.body rest) in
      let len = ap (λ (x : Header). x.payload_length) same in
      let payload_sizes = ap length payloads in
      omega (
        arith,
        n,
        len,
        legal.1,
        payload_sizes,
        length-append (masked h.mask key 0 d) (stream tape t),
        length-append (masked g.mask f.key 0 f.body) rest,
        length-masked h.mask key 0 d,
        length-masked g.mask f.key 0 f.body,
      )

  -- When all bytes are in, each stage has what it needs of the frame.
  pub never-Stuck :
      (d : List ℕ) (st : FrameState)
      → t.ctx.istate ≡ st
      → tape t.world ≡ []
      → InProgress tape (frame f.head f.key f.body ++ rest) d t
      → Stuck st t.ctx
      → ⊥
  never-Stuck d st e none p stuck = by_state st stuck (at_state st p e)
    where
      size : length (stream tape t) ≡ avail t.ctx
      size =
          length-append (pending t.ctx) (tape t.world)
          ∙ omega (arith, length-pending p.buffer, ap length none)

      by_state :
          (st : FrameState)
          → Stuck st t.ctx
          → StateOk st (fields t.ctx) d
            × (consumed st (fields t.ctx)
                  ++ (masked t.ctx.imask t.ctx.imaskkey 0 d ++ stream tape t)
                ≡ frame f.head f.key f.body ++ rest)
          → ⊥
      by_state recv_header1 stuck (fine, wire) =
          let whole = ap length (
            nothing_delivered t.ctx.imask t.ctx.imaskkey [] (stream tape t) fine.1 wire
            ∙ prefix-split f.head f.key f.body rest) in
          omega (arith, stuck, size, fine.0, whole)
      by_state recv_ext_payloadlen stuck (fine, wire) =
          let c = consumed recv_ext_payloadlen (fields t.ctx) in
          omega (
            arith,
            stuck,
            size,
            extended-lacks (first (header_of (fields t.ctx))) t.ctx.ireqread t.ctx.imask fine.1
                (nothing_delivered t.ctx.imask t.ctx.imaskkey c (stream tape t) fine.2 wire),
          )
      by_state recv_maskkey stuck (fine, wire) =
          let h = header_of (fields t.ctx) in
          omega (
            arith,
            stuck,
            size,
            fine.2,
            key-lacks h fine.0 fine.1 (
                nothing_delivered t.ctx.imask t.ctx.imaskkey (prefix h) (stream tape t) fine.4
                  wire),
          )
      by_state recv_payload stuck (fine, wire) = omega (
        arith,
        stuck.0,
        size,
        payload-lacks (header_of (fields t.ctx)) t.ctx.imaskkey d fine.0 fine.3
            (omega (arith, fine.1, stuck.1)) wire,
      )
      by_state FrameState.prep_header stuck (fine, wire) = fine
      by_state FrameState.send_header stuck (fine, wire) = fine
      by_state FrameState.send_payload stuck (fine, wire) = fine
      by_state FrameState.recv_payloadlen stuck (fine, wire) = fine
