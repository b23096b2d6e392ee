-- ===== src/Frame/Recv/Reads.antt =====
-- Any number of calls of `wslay_frame_recv`, against the frames that the input consists of.
use wslay.Prelude.{
  ℕ, ◌≡◌, refl, sym, ap, subst, ◌∙◌, inl, inr, List, [], ◌∷◌, ◌++◌, arith, length, true, All,
  All-append, All-right, IsByte,
}
use mathlib.Core.List.{append_assoc, append-nil}
use wslay.Protocol.{want_read, Iocb}
use wslay.Frame.Wire.{Header, frame, iocb_header, IsLegal}
use wslay.Frame.Context.{RecvContext, FrameCallbacks, ok, err, At, Ensures-ok, Ensures-err}
use wslay.Frame.Recv.{frame_recv}
use wslay.Frame.Recv.Input.{IsSource, stream}
use wslay.Frame.Recv.Progress.{InProgress, Received}
use wslay.Frame.Recv.Header.{Kept}
use wslay.Frame.Recv.Sound.{frame_recv-Received}

-- A whole frame: its fields, its key, and its payload before masking.
pub record Whole : Type 0 where
  pub head : Header
  pub key : List ℕ
  pub body : List ℕ

abbrev pub encode : List Whole → List ℕ
encode [] = []
encode (f ∷ fs) = frame f.head f.key f.body ++ encode fs

abbrev pub bodies : List Whole → List ℕ
bodies [] = []
bodies (f ∷ fs) = f.body ++ bodies fs

abbrev pub IsLegalWhole : Whole → Type 0
IsLegalWhole f =
    IsLegal f.head
    × (length f.body ≡ f.head.payload_length)
    × (f.head.mask ≡ true → length f.key ≡ 4)

pub encode-append : (fs gs : List Whole) → encode (fs ++ gs) ≡ encode fs ++ encode gs
encode-append [] gs = refl
encode-append (f ∷ fs) gs =
    ap (λ t. frame f.head f.key f.body ++ t) (encode-append fs gs)
    ∙ sym (append_assoc (frame f.head f.key f.body) (encode fs) (encode gs))

pub bodies-append : (fs gs : List Whole) → bodies (fs ++ gs) ≡ bodies fs ++ bodies gs
bodies-append [] gs = refl
bodies-append (f ∷ fs) gs =
    ap (λ t. f.body ++ t) (bodies-append fs gs) ∙ sym (append_assoc f.body (bodies fs) (bodies gs))

module _ {W : Type 0} (cb : FrameCallbacks W) where
  -- Calls that return 0 or WSLAY_ERR_WANT_READ, with all the payload bytes that they return.
  pub data Reads (s₀ : At RecvContext W) : List ℕ → At RecvContext W → Type 0 where
    no_calls : Reads s₀ [] s₀
    piece :
        {ps : List ℕ} {s : At RecvContext W}
        → Reads s₀ ps s
        → (iocb : Iocb) (t : At RecvContext W) → frame_recv cb s ≡ ok iocb t
        → Reads s₀ (ps ++ iocb.payload) t
    waits :
        {ps : List ℕ} {s : At RecvContext W}
        → Reads s₀ ps s
        → (t : At RecvContext W) → frame_recv cb s ≡ err want_read t
        → Reads s₀ ps t

  -- The input begins with the encodings of legal frames; what was returned is their payloads, and
  -- the part `partial` of the frame in progress behind them.
  pub record Parsed (tape : W → List ℕ) (input ps : List ℕ) (s : At RecvContext W) : Type 0 where
    pub frames : List Whole
    pub legal : All IsLegalWhole frames
    pub rest : List ℕ
    pub wire : encode frames ++ rest ≡ input
    pub partial : List ℕ
    pub progress : InProgress tape rest partial s
    pub returned : bodies frames ++ partial ≡ ps

  module _ (tape : W → List ℕ) (source : IsSource cb tape) (input : List ℕ)
      (bytes : All IsByte input) where
    next_piece :
        (ps : List ℕ) (iocb : Iocb) (t : At RecvContext W) {s : At RecvContext W}
        (v : Parsed tape input ps s)
        → Received tape v.rest v.partial iocb t
        → Parsed tape input (ps ++ iocb.payload) t
    next_piece ps iocb t v r =
        let moved : bodies v.frames ++ (v.partial ++ iocb.payload) ≡ ps ++ iocb.payload =
          sym (append_assoc (bodies v.frames) v.partial iocb.payload)
          ∙ ap (λ x. x ++ iocb.payload) v.returned in
        let f : Whole = record {
          head = iocb_header iocb;
          key = r.key;
          body = v.partial ++ iocb.payload;
        } in
        elim r.next [
          | inl (whole, begun) ↦ record {
            frames = v.frames ++ f ∷ [];
            legal =
                All-append IsLegalWhole v.frames (f ∷ []) v.legal
                  ((r.legal, whole, r.key_size), tt);
            rest = stream tape t;
            wire =
                ap (λ x. x ++ stream tape t)
                  (encode-append v.frames (f ∷ [])
                    ∙ ap (λ x. encode v.frames ++ x) (append-nil (frame f.head f.key f.body)))
                ∙ append_assoc (encode v.frames) (frame f.head f.key f.body) (stream tape t)
                ∙ ap (λ x. encode v.frames ++ x) r.wire
                ∙ v.wire;
            partial = [];
            progress = begun;
            returned =
                append-nil (bodies (v.frames ++ f ∷ []))
                ∙ bodies-append v.frames (f ∷ [])
                ∙ ap (λ x. bodies v.frames ++ x) (append-nil f.body)
                ∙ moved;
          }
          | inr (short, some_bytes, going) ↦ record {
            frames = v.frames;
            legal = v.legal;
            rest = v.rest;
            wire = v.wire;
            partial = v.partial ++ iocb.payload;
            progress = going;
            returned = moved;
          }
        ]

    still_waits :
        (ps : List ℕ) (t : At RecvContext W) {s : At RecvContext W} (v : Parsed tape input ps s)
        → Kept tape v.rest v.partial want_read t
        → Parsed tape input ps t
    still_waits ps t v (inl (e, going)) = record {
      frames = v.frames;
      legal = v.legal;
      rest = v.rest;
      wire = v.wire;
      partial = v.partial;
      progress = going;
      returned = v.returned;
    }
    still_waits ps t v (inr (e, buffer, illegal)) = absurd (ground (arith, e))

    -- However the input comes in and however many calls read it: the payload bytes that
    -- `wslay_frame_recv` returns are those of the legal frames that the input begins with, unmasked
    -- and in order, and a part of the frame behind them.
    pub Reads-Parsed :
        (s₀ : At RecvContext W)
        → InProgress tape input [] s₀
        → (ps : List ℕ) (s : At RecvContext W) → Reads s₀ ps s
        → Parsed tape input ps s
    Reads-Parsed s₀ p ps s no_calls = record {
      frames = [];
      legal = tt;
      rest = input;
      wire = refl;
      partial = [];
      progress = p;
      returned = refl;
    }
    Reads-Parsed s₀ p ps s (piece {ps = qs} {s = u} c iocb t e) =
        let v = Reads-Parsed s₀ p qs u c in
        let behind =
          All-right IsByte (encode v.frames) v.rest (subst (All IsByte) (sym v.wire) bytes) in
        next_piece qs iocb t v (
          Ensures-ok (Received tape v.rest v.partial) (Kept tape v.rest v.partial) (frame_recv cb u)
            iocb t (frame_recv-Received cb tape source v.rest behind u v.partial v.progress) e)
    Reads-Parsed s₀ p ps s (waits {ps = qs} {s = u} c t e) =
        let v = Reads-Parsed s₀ p qs u c in
        let behind =
          All-right IsByte (encode v.frames) v.rest (subst (All IsByte) (sym v.wire) bytes) in
        still_waits qs t v (
          Ensures-err (Received tape v.rest v.partial) (Kept tape v.rest v.partial)
            (frame_recv cb u) want_read t
            (frame_recv-Received cb tape source v.rest behind u v.partial v.progress) e)
