-- ===== src/Frame/Recv/Header.antt =====
-- The stages of `wslay_frame_recv` that read a header keep the frame in progress.
use wslay.Prelude.{
  ℕ, ◌+◌, ◌*◌, ◌≤◌, ◌<◌, ◌≡◌, ◌≢◌, refl, sym, ap, ap₂, subst, ◌∙◌, ◌⊎◌, inl, inr, Bool, true, false,
  ltb, ◌==◌, Bool-cases, if◌then◌else◌, List, [], ◌∷◌, ◌++◌, arith, All, IsByte, ◌&&◌, ◌||◌, get_or,
  bit_and,
}
use mathlib.Core.List.{append-nil}
use mathlib.Core.Bool.{false≢true}
use wslay.Protocol.{Error, want_read, proto, is_ctrl_frame}
use wslay.Frame.Wire.{masked-nil, Header, first, prefix, header, masked, mask_flag, IsLegal}
use wslay.Frame.Context.{
  recv_header1, recv_ext_payloadlen, recv_maskkey, recv_payload, RecvContext, FrameCallbacks, At,
  Ensures,
}
use wslay.Frame.Recv.{avail, header_fields, after_header1, after_length, parse_header1}
use wslay.Frame.Recv.Buffer.{IsBuffer, pending, pending-split, slice_two}
use wslay.Frame.Recv.Input.{fields, stream}
use wslay.Frame.Recv.Bits.{first_fields, second_fields, field_ranges}
use wslay.Frame.Recv.Illegal.{IsIllegal, bad_ctrl-IsIllegal}
use wslay.Frame.Recv.Progress.{header_of, InProgress, at_state, nothing_delivered}

after_length-masked :
    (c : RecvContext)
    → c.imask ≡ true
    → after_length c ≡ record c { istate = recv_maskkey; ireqread = 4 }
unfolding after_length
after_length-masked c m =
    ap
      (λ b.
        if b
        then record c { istate = recv_maskkey; ireqread = 4 }
        else record c { istate = recv_payload })
      m

after_length-plain :
    (c : RecvContext) → c.imask ≡ false → after_length c ≡ record c { istate = recv_payload }
unfolding after_length
after_length-plain c m =
    ap
      (λ b.
        if b
        then record c { istate = recv_maskkey; ireqread = 4 }
        else record c { istate = recv_payload })
      m

header-plain : (h : Header) (key : List ℕ) → h.mask ≡ false → header h key ≡ prefix h
unfolding header
header-plain h key m = ap (λ b. prefix h ++ (if b then key else [])) m ∙ append-nil (prefix h)

-- A new frame has delivered nothing yet.
pub start_wire :
    {input : List ℕ} (m : Bool) (key xs r : List ℕ)
    → xs ++ r ≡ input
    → xs ++ (masked m key 0 [] ++ r) ≡ input
start_wire m key xs r e = rw (masked-nil m key 0) e

after_header1-cases :
    (pl : ℕ) (c : RecvContext)
    → ((pl ≡ 126) × (after_header1 pl c ≡ record c { istate = recv_ext_payloadlen; ireqread = 2 }))
      ⊎ ((pl ≡ 127)
          × (after_header1 pl c ≡ record c { istate = recv_ext_payloadlen; ireqread = 8 }))
      ⊎ ((pl ≢ 126)
          × (pl ≢ 127)
          × (after_header1 pl c ≡ after_length (record c { ipayloadlen = pl; ipayloadoff = 0 })))
unfolding after_header1
after_header1-cases pl c = ground arith

prefix-short :
    (h : Header)
    → h.payload_length < 126
    → prefix h ≡ first h ∷ (mask_flag h.mask + h.payload_length) ∷ []
prefix-short h small = ground arith

module _ {W : Type 0} (tape : W → List ℕ) (input : List ℕ) where
  pub after_length-InProgress :
      (c : RecvContext) (w : W)
      → IsBuffer c
      → IsLegal (header_of (fields c))
      → c.ipayloadoff ≡ 0
      → prefix (header_of (fields c)) ++ (pending c ++ tape w) ≡ input
      → InProgress tape input [] (record { ctx = after_length c; world = w })
  after_length-InProgress c w v legal zero_off e =
      let P : RecvContext → Type 0 =
        λ x. InProgress tape input [] (record { ctx = x; world = w }) in
      elim (Bool-cases c.imask) [
        | inl m ↦ subst P (sym (after_length-masked c m)) (record {
          buffer = record { size = v.size; order = v.order; inside = v.inside };
          state_ok = (legal, m, refl, zero_off, refl);
          wire =
              start_wire c.imask c.imaskkey (prefix (header_of (fields c))) (pending c ++ tape w) e;
        })
        | inr m ↦ subst P (sym (after_length-plain c m)) (record {
          buffer = record { size = v.size; order = v.order; inside = v.inside };
          state_ok = (legal, zero_off, omega arith, λ t. absurd (false≢true (sym m ∙ t)));
          wire =
              start_wire c.imask c.imaskkey (header (header_of (fields c)) c.imaskkey)
                (pending c ++ tape w)
                (ap (λ t. t ++ (pending c ++ tape w))
                    (header-plain (header_of (fields c)) c.imaskkey m)
                  ∙ e);
        })
      ]

  extended-InProgress :
      (reqread pl : ℕ) (c : RecvContext) (w : W)
      → IsBuffer c
      → c.iom.fin < 2
      → c.iom.rsv < 8
      → c.iom.opcode < 16
      → (is_ctrl_frame c.iom.opcode ≡ true → (pl ≤ 125) × (c.iom.fin ≡ 1))
      → first (header_of (fields c)) ∷ (mask_flag c.imask + pl) ∷ (pending c ++ tape w) ≡ input
      → ((reqread ≡ 2) × (pl ≡ 126)) ⊎ ((reqread ≡ 8) × (pl ≡ 127))
      → InProgress tape input [] (record {
        ctx = record c { istate = recv_ext_payloadlen; ireqread = reqread };
        world = w;
      })
  extended-InProgress reqread pl c w v fin rsv opcode ctrl e which = record {
    buffer = record { size = v.size; order = v.order; inside = v.inside };
    state_ok = (
      record { fin = fin; rsv = rsv; opcode = opcode; not_ctrl = ground arith },
      ground arith,
      refl,
    );
    wire =
        start_wire c.imask c.imaskkey
          (first (header_of (fields c))
            ∷ (mask_flag c.imask + (if reqread == 8 then 127 else 126))
            ∷ [])
          (pending c ++ tape w)
          (ap (λ k. first (header_of (fields c)) ∷ (mask_flag c.imask + k) ∷ (pending c ++ tape w))
              (ground arith)
            ∙ e);
  }

  after_header1-InProgress :
      (pl : ℕ) (c : RecvContext) (w : W)
      → IsBuffer c
      → pl < 128
      → c.iom.fin < 2
      → c.iom.rsv < 8
      → c.iom.opcode < 16
      → (is_ctrl_frame c.iom.opcode ≡ true → (pl ≤ 125) × (c.iom.fin ≡ 1))
      → first (header_of (fields c)) ∷ (mask_flag c.imask + pl) ∷ (pending c ++ tape w) ≡ input
      → InProgress tape input [] (record { ctx = after_header1 pl c; world = w })
  after_header1-InProgress pl c w v small fin rsv opcode ctrl e =
      let P : RecvContext → Type 0 =
        λ x. InProgress tape input [] (record { ctx = x; world = w }) in
      elim (after_header1-cases pl c) [
        | inl (long, q) ↦
            subst P (sym q)
              (extended-InProgress 2 pl c w v fin rsv opcode ctrl e (inl (refl, long)))
        | inr (inl (long, q)) ↦
            subst P (sym q)
              (extended-InProgress 8 pl c w v fin rsv opcode ctrl e (inr (refl, long)))
        | inr (inr (ne126, ne127, q)) ↦ subst P (sym q) (
            after_length-InProgress (record c { ipayloadlen = pl; ipayloadoff = 0 }) w
              (record { size = v.size; order = v.order; inside = v.inside })
              (record {
                fin = fin;
                rsv = rsv;
                opcode = opcode;
                size = omega arith;
                ctrl_short = λ t. (ctrl t).0;
                ctrl_whole = λ t. (ctrl t).1;
              })
              refl (ap (λ t. t ++ (pending c ++ tape w)) (prefix-short _ (omega arith)) ∙ e))
      ]

-- A call that fails waits for more input and keeps the frame in progress, or refuses input that is
-- not the beginning of a legal frame.
abbrev pub Kept : {W : Type 0} → (W → List ℕ) → List ℕ → List ℕ → Error → At RecvContext W → Type 0
Kept tape input d e t =
    ((e ≡ want_read) × InProgress tape input d t) ⊎ ((e ≡ proto) × IsBuffer t.ctx × IsIllegal input)

module _ {W : Type 0} (cb : FrameCallbacks W) (tape : W → List ℕ) (input : List ℕ) where
  -- The first two bytes are read as the fields that they are sent from, or refused.
  pub parse_header1-InProgress :
      (s : At RecvContext W) (d : List ℕ)
      → InProgress tape input d s
      → All IsByte input
      → s.ctx.istate ≡ recv_header1
      → 2 ≤ avail s.ctx
      → Ensures (λ _ t. InProgress tape input [] t) (Kept tape input []) (parse_header1 cb s)
  unfolding parse_header1 header_fields
  parse_header1-InProgress s d p bytes state enough =
      let b0 = get_or s.ctx.ibuf s.ctx.ibufmark 0 in
      let b1 = get_or s.ctx.ibuf (s.ctx.ibufmark + 1) 0 in
      let c = header_fields b0 b1 s.ctx in
      let rest = pending c ++ tape s.world in
      let heads : stream tape s ≡ b0 ∷ b1 ∷ rest =
        ap (λ t. t ++ tape s.world) (pending-split 2 p.buffer enough)
        ∙ ap (λ t. (t ++ pending c) ++ tape s.world)
            (slice_two s.ctx (omega (arith, p.buffer.size, p.buffer.inside))) in
      let here = at_state recv_header1 p state in
      let whole : b0 ∷ b1 ∷ rest ≡ input =
        sym heads
        ∙ nothing_delivered s.ctx.imask s.ctx.imaskkey [] (stream tape s) here.0.1 here.1 in
      let head_bytes : All IsByte (b0 ∷ b1 ∷ rest) = subst (All IsByte) (sym whole) bytes in
      let v : IsBuffer c = record {
        size = p.buffer.size;
        order = omega (arith, p.buffer.order);
        inside = p.buffer.inside;
      } in
      let fields_whole : (c.iom.fin * 128 + c.iom.rsv * 16 + c.iom.opcode)
            ∷ (mask_flag c.imask + bit_and b1 0x7f)
            ∷ rest
          ≡ input =
        ap₂ (λ x y. x ∷ y ∷ rest) (sym (first_fields b0 head_bytes.0))
          (sym (second_fields b1 head_bytes.1.0))
        ∙ whole in
      let legal_ctrl : is_ctrl_frame c.iom.opcode ≡ true
          → (is_ctrl_frame c.iom.opcode && (ltb 125 (bit_and b1 0x7f) || c.iom.fin == 0)) ≡ false
          → (bit_and b1 0x7f ≤ 125) × (c.iom.fin ≡ 1) =
        λ t g. ground (arith, field_ranges b0 head_bytes.0) in
      elim (Bool-cases
        (is_ctrl_frame c.iom.opcode && (ltb 125 (bit_and b1 0x7f) || c.iom.fin == 0))) [
          | inl bad ↦ rw bad (
              inr (
                refl,
                v,
                subst IsIllegal fields_whole (
                    bad_ctrl-IsIllegal c.iom.fin c.iom.rsv c.iom.opcode (bit_and b1 0x7f) c.imask
                      rest (field_ranges b0 head_bytes.0).0 (field_ranges b0 head_bytes.0).1
                      (field_ranges b0 head_bytes.0).2 (field_ranges b1 head_bytes.1.0).3 bad),
              ))
          | inr good ↦ rw good (
              after_header1-InProgress tape input (bit_and b1 0x7f) c s.world v
                (field_ranges b1 head_bytes.1.0).3 (field_ranges b0 head_bytes.0).0
                (field_ranges b0 head_bytes.0).1 (field_ranges b0 head_bytes.0).2
                (λ t. legal_ctrl t good) fields_whole)
        ]
