-- ===== src/Frame/Recv/Length.antt =====
-- The stages of `wslay_frame_recv` that read the extended length and the key keep the frame in
-- progress.
use wslay.Prelude.{
  ℕ, ◌+◌, ◌^◌, ◌≤◌, ◌<◌, ◌≡◌, refl, sym, ap, ap₂, subst, ◌∙◌, ◌⊎◌, inl, inr, false, ◌==◌,
  Bool-cases, if◌then◌else◌, List, [], ◌∷◌, ◌++◌, arith, length, slice, All, IsByte, All-left,
  All-right, length-slice,
}
use wslay.Prelude.Bits.{bit_and_bit}
use mathlib.Core.List.{append_assoc}
use mathlib.Core.Bool.{false≢true}
use wslay.Frame.Bytes.{be_bytes, be_number, be_number-lt, be_bytes-be_number}
use wslay.Frame.Wire.{short_length, extended_length, first, prefix, header, mask_flag}
use wslay.Frame.Context.{
  recv_ext_payloadlen, recv_maskkey, recv_payload, RecvContext, FrameCallbacks, At, Ensures,
}
use wslay.Frame.Recv.{avail, bad_length, parse_ext_length, parse_maskkey, after_length}
use wslay.Frame.Recv.Buffer.{IsBuffer, pending, pending-split}
use wslay.Frame.Recv.Input.{fields, stream}
use wslay.Frame.Recv.Illegal.{IsIllegal, bad_length-IsIllegal}
use wslay.Frame.Recv.Progress.{header_of, IsDataHead, InProgress, at_state, nothing_delivered}
use wslay.Frame.Recv.Header.{Kept, after_length-InProgress, start_wire}

-- A length that is not refused is the shortest form of its number.
record IsShortest (reqread : ℕ) (xs : List ℕ) : Type 0 where
  small : be_number 0 xs < 2 ^ 63
  extended : extended_length (be_number 0 xs) ≡ xs
  short : short_length (be_number 0 xs) ≡ (if reqread == 8 then 127 else 126)
  long : 125 < be_number 0 xs

good_length :
    (reqread : ℕ) (xs : List ℕ)
    → (reqread ≡ 2) ⊎ (reqread ≡ 8)
    → length xs ≡ reqread
    → All IsByte xs
    → bad_length reqread (be_number 0 xs) ≡ false
    → IsShortest reqread xs
unfolding bad_length
good_length reqread xs (inl two) size bytes good =
    let bound : be_number 0 xs < 65536 =
      subst (λ (k : ℕ). be_number 0 xs < 256 ^ k) (size ∙ two) (be_number-lt xs bytes) in
    let again : be_bytes 2 (be_number 0 xs) ≡ xs =
      subst (λ (k : ℕ). be_bytes k (be_number 0 xs) ≡ xs) (size ∙ two)
        (be_bytes-be_number xs 0 bytes) in
    record {
      small = omega arith;
      extended = ground (arith, again);
      short = ground arith;
      long = ground arith;
    }
good_length reqread xs (inr eight) size bytes good =
    let bound : be_number 0 xs < 2 ^ 64 =
      subst (λ (k : ℕ). be_number 0 xs < 256 ^ k) (size ∙ eight) (be_number-lt xs bytes) in
    let again : be_bytes 8 (be_number 0 xs) ≡ xs =
      subst (λ (k : ℕ). be_bytes k (be_number 0 xs) ≡ xs) (size ∙ eight)
        (be_bytes-be_number xs 0 bytes) in
    let top : be_number 0 xs < 2 ^ 63 = ground (arith, bit_and_bit 63 (be_number 0 xs)) in
    record {
      small = top;
      extended = ground (arith, again);
      short = ground arith;
      long = ground arith;
    }

accepted :
    {W : Type 0} (tape : W → List ℕ) (input : List ℕ) (c : RecvContext) (w : W) (xs : List ℕ)
    → IsBuffer c
    → IsDataHead c.iom
    → c.ipayloadlen ≡ be_number 0 xs
    → c.ipayloadoff ≡ 0
    → IsShortest c.ireqread xs
    → first (header_of (fields c))
        ∷ (mask_flag c.imask + (if c.ireqread == 8 then 127 else 126))
        ∷ (xs ++ (pending c ++ tape w))
      ≡ input
    → InProgress tape input [] (record { ctx = after_length c; world = w })
accepted tape input c w xs v h len off shortest e =
    after_length-InProgress tape input c w v
      (record {
        fin = h.fin;
        rsv = h.rsv;
        opcode = h.opcode;
        size = omega (arith, len, shortest.small);
        ctrl_short = λ t. absurd (false≢true (sym h.not_ctrl ∙ t));
        ctrl_whole = λ t. absurd (false≢true (sym h.not_ctrl ∙ t));
      })
      off
      (ap₂
          (λ (k : ℕ) x.
            first (header_of (fields c)) ∷ (mask_flag c.imask + k) ∷ (x ++ (pending c ++ tape w)))
          (ap short_length len ∙ shortest.short) (ap extended_length len ∙ shortest.extended)
        ∙ e)

module _ {W : Type 0} (cb : FrameCallbacks W) (tape : W → List ℕ) (input : List ℕ) where
  -- The extended length is read as the number that it is sent from, or refused.
  pub parse_ext_length-InProgress :
      (s : At RecvContext W) (d : List ℕ)
      → InProgress tape input d s
      → All IsByte input
      → s.ctx.istate ≡ recv_ext_payloadlen
      → s.ctx.ireqread ≤ avail s.ctx
      → Ensures (λ _ t. InProgress tape input [] t) (Kept tape input []) (parse_ext_length cb s)
  unfolding parse_ext_length
  parse_ext_length-InProgress s d p bytes state enough =
      let k = s.ctx.ireqread in
      let xs = slice s.ctx.ibufmark k s.ctx.ibuf in
      let n = be_number 0 xs in
      let c : RecvContext = record s.ctx {
        ipayloadlen = n;
        ipayloadoff = 0;
        ibufmark = s.ctx.ibufmark + k;
      } in
      let rest = pending c ++ tape s.world in
      let here = at_state recv_ext_payloadlen p state in
      let heads : List ℕ =
        first (header_of (fields s.ctx))
        ∷ (mask_flag s.ctx.imask + (if k == 8 then 127 else 126))
        ∷ [] in
      let whole : heads ++ (xs ++ rest) ≡ input =
        ap (λ t. heads ++ t)
          (sym (append_assoc xs (pending c) (tape s.world))
            ∙ ap (λ t. t ++ tape s.world) (sym (pending-split k p.buffer enough)))
        ∙ nothing_delivered s.ctx.imask s.ctx.imaskkey heads (stream tape s) here.0.2 here.1 in
      let xs_bytes : All IsByte xs =
        All-left IsByte xs rest
          (All-right IsByte heads (xs ++ rest) (subst (All IsByte) (sym whole) bytes)) in
      let v : IsBuffer c = record {
        size = p.buffer.size;
        order = omega (arith, p.buffer.order, enough);
        inside = p.buffer.inside;
      } in
      let size : length xs ≡ k =
        length-slice s.ctx.ibufmark k s.ctx.ibuf
          (omega (arith, p.buffer.size, p.buffer.inside, p.buffer.order, enough)) in
      elim (Bool-cases (bad_length k n)) [
        | inl bad ↦ rw bad (
            inr (
              refl,
              v,
              subst IsIllegal whole (
                  bad_length-IsIllegal k (first (header_of (fields s.ctx))) s.ctx.imask xs rest
                    here.0.1 size bad),
            ))
        | inr good ↦ rw good (
            accepted tape input c s.world xs v here.0.0 refl refl
              (good_length k xs here.0.1 size xs_bytes good) whole)
      ]

  -- The key is the four bytes behind the length.
  pub parse_maskkey-InProgress :
      (s : At RecvContext W) (d : List ℕ)
      → InProgress tape input d s
      → s.ctx.istate ≡ recv_maskkey
      → s.ctx.ireqread ≤ avail s.ctx
      → Ensures (λ _ t. InProgress tape input [] t) (Kept tape input []) (parse_maskkey cb s)
  unfolding parse_maskkey header
  parse_maskkey-InProgress s d p state enough =
      let here = at_state recv_maskkey p state in
      let four : 4 ≤ avail s.ctx = omega (arith, here.0.2, enough) in
      let key = slice s.ctx.ibufmark 4 s.ctx.ibuf in
      let c : RecvContext = record s.ctx {
        imaskkey = key;
        ibufmark = s.ctx.ibufmark + 4;
        istate = recv_payload;
      } in
      let h = header_of (fields s.ctx) in
      let rest = pending c ++ tape s.world in
      let whole : prefix h ++ (key ++ rest) ≡ input =
        ap (λ t. prefix h ++ t)
          (sym (append_assoc key (pending c) (tape s.world))
            ∙ ap (λ t. t ++ tape s.world) (sym (pending-split 4 p.buffer four)))
        ∙ nothing_delivered s.ctx.imask s.ctx.imaskkey (prefix h) (stream tape s) here.0.4 here.1 in
      record {
        buffer = record {
          size = p.buffer.size;
          order = omega (arith, p.buffer.order, four);
          inside = p.buffer.inside;
        };
        state_ok = (
          here.0.0,
          here.0.3,
          omega (arith, here.0.3),
          λ _.
              length-slice s.ctx.ibufmark 4 s.ctx.ibuf
                (omega (arith, p.buffer.size, p.buffer.inside, p.buffer.order, four)),
        );
        wire = start_wire s.ctx.imask key (header h key) rest (
            append_assoc (prefix h) (if h.mask then key else []) rest
            ∙ ap (λ b. prefix h ++ ((if b then key else []) ++ rest)) here.0.1
            ∙ whole);
      }
