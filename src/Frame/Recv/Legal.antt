-- ===== src/Frame/Recv/Legal.antt =====
-- A legal frame at the start of the input, and what `wslay_frame_recv` returns of it.
use wslay.Prelude.{
  ℕ, ◌≡◌, ◌≤◌, ◌<◌, sym, ap, subst, ◌∙◌, ◌⊎◌, inl, inr, List, [], ◌++◌, arith, length, take,
  take_all, drop, drop_all, All, IsByte,
}
use wslay.Protocol.{Error, want_read, Iocb}
use wslay.Frame.Wire.{Header, masked-nil, masked, frame, iocb_header}
use wslay.Frame.Unique.{frame-split, prefix-split, header_inj, payload_inj, sent_key}
use wslay.Frame.Context.{RecvContext, FrameCallbacks, At, Ensures, Ensures-mono}
use wslay.Frame.Recv.{frame_recv}
use wslay.Frame.Recv.Input.{IsSource, stream}
use wslay.Frame.Recv.Progress.{InProgress, Received}
use wslay.Frame.Recv.Header.{Kept}
use wslay.Frame.Recv.Sound.{frame_recv-Received}
use wslay.Frame.Recv.Reads.{Whole, IsLegalWhole}

-- A part of the frame's payload behind `d`, with its header: the last part, with the input behind
-- the frame left, or an inner part of at least one byte.
pub record IsPart {W : Type 0} (tape : W → List ℕ) (f : Whole) (rest input d : List ℕ) (iocb : Iocb)
    (t : At RecvContext W) : Type 0 where
  pub head : iocb_header iocb ≡ f.head
  pub payload : d ++ iocb.payload ≡ take (length (d ++ iocb.payload)) f.body
  pub next :
      ((d ++ iocb.payload ≡ f.body) × (stream tape t ≡ rest) × InProgress tape rest [] t)
      ⊎ ((length (d ++ iocb.payload) < length f.body)
          × (0 < length iocb.payload)
          × InProgress tape input (d ++ iocb.payload) t)

module _ {W : Type 0} (cb : FrameCallbacks W) (tape : W → List ℕ) (source : IsSource cb tape)
    (f : Whole) (legal : IsLegalWhole f) (rest : List ℕ) where
  Received-IsPart :
      (d : List ℕ) (iocb : Iocb) (t : At RecvContext W)
      → Received tape (frame f.head f.key f.body ++ rest) d iocb t
      → IsPart tape f rest (frame f.head f.key f.body ++ rest) d iocb t
  Received-IsPart d iocb t r =
      let h = iocb_header iocb in
      let g = f.head in
      let xs = d ++ iocb.payload in
      let (same, keys, payloads) =
        header_inj h g r.key f.key r.legal legal.0 r.key_size legal.2 (
          sym (frame-split h r.key xs (stream tape t))
          ∙ r.wire
          ∙ frame-split g f.key f.body rest) in
      let len : iocb.payload_length ≡ length f.body =
        ap (λ (x : Header). x.payload_length) same ∙ sym legal.1 in
      let fits : length xs ≤ length f.body = elim r.next [
        | inl (whole, _) ↦ omega (arith, whole, len)
        | inr (short, _, _) ↦ omega (arith, short, len)
      ] in
      let (body, left) =
        payload_inj h g r.key f.key xs f.body (stream tape t) rest (same, keys) fits payloads in
      record {
        head = same;
        payload = body;
        next = elim r.next [
          | inl (whole, begun) ↦
              let size : length xs ≡ length f.body = whole ∙ len in
              let gone : stream tape t ≡ rest =
                left
                ∙ ap (λ x. x ++ rest)
                    (ap (λ k. masked g.mask f.key (length xs) (drop k f.body)) size
                      ∙ ap (masked g.mask f.key (length xs)) (drop_all f.body)
                      ∙ masked-nil g.mask f.key (length xs)) in
              inl (
                body ∙ ap (λ k. take k f.body) size ∙ take_all f.body,
                gone,
                subst (λ x. InProgress tape x [] t) gone begun,
              )
          | inr (short, some_bytes, going) ↦ inr (omega (arith, short, len), some_bytes, going)
        ];
      }

  -- While a legal frame is in progress, of which the payload `d` was delivered: a call returns the
  -- next part of its payload, unmasked, with the fields of its header, and leaves exactly the input
  -- behind it when that was the last part; or it returns WSLAY_ERR_WANT_READ and the frame is still
  -- in progress. So no legal frame is refused.
  pub frame_recv-IsPart :
      All IsByte (frame f.head f.key f.body ++ rest)
      → (s : At RecvContext W) (d : List ℕ)
      → InProgress tape (frame f.head f.key f.body ++ rest) d s
      → Ensures
          (IsPart tape f rest (frame f.head f.key f.body ++ rest) d)
          (λ e t. (e ≡ want_read) × InProgress tape (frame f.head f.key f.body ++ rest) d t)
          (frame_recv cb s)
  frame_recv-IsPart bytes s d p =
      let input = frame f.head f.key f.body ++ rest in
      Ensures-mono (Received tape input d) (IsPart tape f rest input d) (Kept tape input d)
        (λ e t. (e ≡ want_read) × InProgress tape input d t) (frame_recv cb s)
        (frame_recv-Received cb tape source input bytes s d p) (Received-IsPart d) kept
    where
      kept :
          (e : Error) (t : At RecvContext W)
          → Kept tape (frame f.head f.key f.body ++ rest) d e t
          → (e ≡ want_read) × InProgress tape (frame f.head f.key f.body ++ rest) d t
      kept e t (inl k) = k
      kept e t (inr (_, _, illegal)) = absurd (
          illegal f.head (sent_key f.head.mask f.key ++ (masked f.head.mask f.key 0 f.body ++ rest))
            legal.0 (sym (prefix-split f.head f.key f.body rest)))
