-- ===== src/Frame/Recv/Agrees.antt =====
-- Input that encodes a sequence of frames, and what the calls of `wslay_frame_recv` return of it.
use wslay.Prelude.{
  ℕ, ◌+◌, ◌≤◌, ◌<◌, ◌≡◌, refl, sym, ap, ap₂, subst, ◌∙◌, Bool, true, List, [], ◌∷◌, ◌++◌, arith,
  length, drop, All, IsByte, ◌==◌, if◌then◌else◌, take-append-drop, length-append, nil_of_length,
}
use mathlib.Core.List.{append_assoc, append-nil}
use wslay.Frame.Wire.{
  Header, first, second, prefix, mask_flag, header, short_length, extended_length, frame, masked,
  IsLegal,
}
use wslay.Frame.Unique.{
  cons_inj, prefix_inj, header_inj, payload_inj, frame-split, frame_inj, prefix-split,
  some_extended, second_inj, short_length_lt, sent_key, length-masked,
}
use wslay.Frame.Context.{
  FrameState, recv_header1, recv_ext_payloadlen, recv_maskkey, recv_payload, RecvContext,
  FrameCallbacks, At,
}
use wslay.Frame.Recv.Input.{IsSource, stream, fields}
use wslay.Frame.Recv.Progress.{InProgress, at_state, header_of, consumed, nothing_delivered}
use wslay.Frame.Recv.Reads.{Whole, encode, bodies, IsLegalWhole, Reads, Reads-Parsed}

frame_not_nil : (h : Header) (key xs r : List ℕ) → frame h key xs ++ r ≡ [] → ⊥
unfolding frame header
frame_not_nil h key xs r e = absurd (omega (arith, ap length e))

encode_nil : (fs : List Whole) → encode fs ≡ [] → fs ≡ []
encode_nil [] e = refl
encode_nil (f ∷ fs) e = absurd (frame_not_nil f.head f.key f.body (encode fs) e)

-- Frames in front of anything are the first of the frames that the whole encodes.
record Behind (gs fs : List Whole) (rest : List ℕ) : Type 0 where
  others : List Whole
  legal : All IsLegalWhole others
  split : bodies gs ++ bodies others ≡ bodies fs
  wire : rest ≡ encode others

encode-Behind :
    (gs fs : List Whole) {rest : List ℕ}
    → All IsLegalWhole gs
    → All IsLegalWhole fs
    → encode gs ++ rest ≡ encode fs
    → Behind gs fs rest
encode-Behind [] fs p q e = record { others = fs; legal = q; split = refl; wire = e }
encode-Behind (g ∷ gs) [] {rest} p q e = absurd (
    frame_not_nil g.head g.key g.body (encode gs ++ rest)
      (sym (append_assoc (frame g.head g.key g.body) (encode gs) rest) ∙ e))
encode-Behind (g ∷ gs) (f ∷ fs) {rest} p q e =
    let (_, body, behind) =
      frame_inj g.head f.head g.key f.key g.body f.body p.0.0 q.0.0 p.0.2 q.0.2 p.0.1 q.0.1
        (sym (append_assoc (frame g.head g.key g.body) (encode gs) rest) ∙ e) in
    let v = encode-Behind gs fs p.1 q.1 behind in
    record {
      others = v.others;
      legal = v.legal;
      split = append_assoc g.body (bodies gs) (bodies v.others) ∙ ap₂ ◌++◌ body v.split;
      wire = v.wire;
    }

-- What was returned is the first part of the bytes wanted, and all of them once all input is in.
pub record Agrees {W : Type 0} (tape : W → List ℕ) (wanted ps : List ℕ) (s : At RecvContext W)
    : Type 0 where
  pub more : List ℕ
  pub split : ps ++ more ≡ wanted
  pub all_read : stream tape s ≡ [] → more ≡ []

module _ {W : Type 0} (tape : W → List ℕ) (s : At RecvContext W) where
  -- Nothing was returned of the frames, and they are not all in yet.
  none_returned :
      (fs : List Whole) {d : List ℕ}
      → d ≡ []
      → (stream tape s ≡ [] → fs ≡ [])
      → Agrees tape (bodies fs) d s
  none_returned fs none h = record {
    more = bodies fs;
    split = ap (λ t. t ++ bodies fs) none;
    all_read = λ e. ap bodies (h e);
  }

  -- Two bytes that announce an extended length are no whole frame.
  no_short_frame :
      (fs : List Whole) (x a : ℕ) (m : Bool)
      → 126 ≤ a
      → a < 128
      → x ∷ (mask_flag m + a) ∷ [] ≡ encode fs
      → ⊥
  no_short_frame [] x a m p q e = absurd (omega (arith, ap length e))
  no_short_frame (f ∷ fs) x a m p q e =
      let h = f.head in
      let tail = sent_key h.mask f.key ++ (masked h.mask f.key 0 f.body ++ encode fs) in
      let (_, behind) = cons_inj x (first h) (e ∙ prefix-split h f.key f.body (encode fs)) in
      let (flags, rest) = cons_inj (mask_flag m + a) (second h) behind in
      let (_, short) =
        second_inj m h.mask a (short_length h.payload_length) q (short_length_lt h.payload_length)
          flags in
      absurd (
        omega (
          arith,
          some_extended h.payload_length (omega (arith, p, short)),
          ap length rest,
          length-append (extended_length h.payload_length) tail,
        ))

  -- A header that still lacks its key is no whole frame.
  no_keyless_frame :
      (fs : List Whole) (h : Header)
      → All IsLegalWhole fs
      → IsLegal h
      → h.mask ≡ true
      → prefix h ≡ encode fs
      → ⊥
  no_keyless_frame [] h p q m e = absurd (omega (arith, ap length e))
  no_keyless_frame (f ∷ fs) h p q m e =
      let tail = masked f.head.mask f.key 0 f.body ++ encode fs in
      let (same, rest) =
        prefix_inj h f.head q p.0.0
          (append-nil (prefix h) ∙ e ∙ prefix-split f.head f.key f.body (encode fs)) in
      let masks : f.head.mask ≡ true = ap (λ (x : Header). x.mask) (sym same) ∙ m in
      absurd (
        omega (
          arith,
          p.0.2 masks,
          ap length (rest ∙ ap (λ b. sent_key b f.key ++ tail) masks),
          length-append f.key tail,
        ))

  -- A part of a payload, behind a whole header.
  part_returned :
      (fs : List Whole) (h : Header) (key d : List ℕ)
      → All IsLegalWhole fs
      → IsLegal h
      → (h.mask ≡ true → length key ≡ 4)
      → length d ≤ h.payload_length
      → header h key ++ (masked h.mask key 0 d ++ stream tape s) ≡ encode fs
      → Agrees tape (bodies fs) d s
  unfolding header
  part_returned [] h key d p q k n e = absurd (omega (arith, ap length e))
  part_returned (f ∷ fs) h key d p q k n e =
      let g = f.head in
      let (same, keys, payloads) =
        header_inj h g key f.key q p.0.0 k p.0.2 (e ∙ frame-split g f.key f.body (encode fs)) in
      let size : length d ≤ length f.body =
        omega (arith, n, p.0.1, ap (λ (x : Header). x.payload_length) same) in
      let (body, rest) =
        payload_inj h g key f.key d f.body (stream tape s) (encode fs) (same, keys) size payloads in
      let left = drop (length d) f.body in
      record {
        more = left ++ bodies fs;
        split =
            sym (append_assoc d left (bodies fs))
            ∙ ap (λ t. t ++ bodies fs)
                (ap (λ t. t ++ left) body ∙ take-append-drop (length d) f.body);
        all_read = λ none.
            let lengths = ap length (sym rest ∙ none) in
            let both = length-append (masked g.mask f.key (length d) left) (encode fs) in
            let no_left : left ≡ [] =
              nil_of_length left
                (omega (arith, lengths, both, length-masked g.mask f.key (length d) left)) in
            let no_frames : fs ≡ [] =
              encode_nil fs (nil_of_length (encode fs) (omega (arith, lengths, both))) in
            ap₂ (λ a b. a ++ bodies b) no_left no_frames;
      }

  progress-Agrees :
      (fs : List Whole) (d : List ℕ) (st : FrameState)
      → All IsLegalWhole fs
      → s.ctx.istate ≡ st
      → InProgress tape (encode fs) d s
      → Agrees tape (bodies fs) d s
  progress-Agrees fs d recv_header1 p e v =
      let (fine, wire) = at_state recv_header1 v e in
      none_returned fs fine.1 (λ none.
        encode_nil fs (
          sym (nothing_delivered s.ctx.imask s.ctx.imaskkey [] (stream tape s) fine.1 wire) ∙ none))
  progress-Agrees fs d recv_ext_payloadlen p e v =
      let (fine, wire) = at_state recv_ext_payloadlen v e in
      let f = fields s.ctx in
      let code : ℕ = if f.reqread == 8 then 127 else 126 in
      none_returned fs fine.2 (λ none. absurd (
        no_short_frame fs (first (header_of f)) code f.mask (ground arith) (ground arith) (
          sym (ap (λ r. consumed recv_ext_payloadlen f ++ r) none)
          ∙ nothing_delivered s.ctx.imask s.ctx.imaskkey (consumed recv_ext_payloadlen f)
              (stream tape s) fine.2 wire)))
  progress-Agrees fs d recv_maskkey p e v =
      let (fine, wire) = at_state recv_maskkey v e in
      let h = header_of (fields s.ctx) in
      none_returned fs fine.4 (λ none. absurd (
        no_keyless_frame fs h p fine.0 fine.1 (
          sym (append-nil (prefix h))
          ∙ sym (ap (λ r. prefix h ++ r) none)
          ∙ nothing_delivered s.ctx.imask s.ctx.imaskkey (prefix h) (stream tape s) fine.4 wire)))
  progress-Agrees fs d recv_payload p e v =
      let (fine, wire) = at_state recv_payload v e in
      part_returned fs (header_of (fields s.ctx)) s.ctx.imaskkey d p fine.0 fine.3
        (omega (arith, fine.1, fine.2)) wire
  progress-Agrees fs d FrameState.prep_header p e v = absurd (at_state FrameState.prep_header v e).0
  progress-Agrees fs d FrameState.send_header p e v = absurd (at_state FrameState.send_header v e).0
  progress-Agrees fs d FrameState.send_payload p e v =
      absurd (at_state FrameState.send_payload v e).0
  progress-Agrees fs d FrameState.recv_payloadlen p e v =
      absurd (at_state FrameState.recv_payloadlen v e).0

-- Reading the encoding of any legal frames, in however many calls and pieces: the bytes returned so
-- far are the first of the frames' payloads, in order and unmasked; and once the input is used up,
-- they are all of them.
pub Reads-Agrees :
    {W : Type 0} (cb : FrameCallbacks W) (tape : W → List ℕ) (source : IsSource cb tape)
    (fs : List Whole)
    → All IsLegalWhole fs
    → All IsByte (encode fs)
    → (s₀ : At RecvContext W) → InProgress tape (encode fs) [] s₀
    → (ps : List ℕ) (s : At RecvContext W) → Reads cb s₀ ps s
    → Agrees tape (bodies fs) ps s
Reads-Agrees cb tape source fs p bytes s₀ v ps s c =
    let r = Reads-Parsed cb tape source (encode fs) bytes s₀ v ps s c in
    let b = encode-Behind r.frames fs r.legal p r.wire in
    let a =
      progress-Agrees tape s b.others r.partial s.ctx.istate b.legal refl
        (subst (λ x. InProgress tape x r.partial s) b.wire r.progress) in
    record {
      more = a.more;
      split =
          ap (λ t. t ++ a.more) (sym r.returned)
          ∙ append_assoc (bodies r.frames) r.partial a.more
          ∙ ap (λ t. bodies r.frames ++ t) a.split
          ∙ b.split;
      all_read = a.all_read;
    }
