-- ===== src/Frame/Recv/Progress.antt =====
-- The frame in progress, and what each stage of `wslay_frame_recv` does to it.
use wslay.Prelude.{
  ℕ, ◌+◌, ◌≤◌, ◌<◌, ◌≡◌, sym, ap, ap₂, subst, ◌∙◌, ◌⊎◌, Bool, true, false, ◌==◌, if◌then◌else◌,
  List, [], ◌∷◌, ◌++◌, length,
}
use wslay.Protocol.{is_ctrl_frame, Iocb}
use wslay.Frame.Wire.{
  iocb_header, masked-nil, Header, first, prefix, header, masked, frame, mask_flag, IsLegal,
}
use wslay.Frame.Context.{
  FrameState, OpcodeMemo, recv_header1, recv_ext_payloadlen, recv_maskkey, recv_payload,
  RecvContext, At,
}
use wslay.Frame.Recv.Buffer.{IsBuffer}
use wslay.Frame.Recv.Input.{Fields, fields, stream, IsSame}

abbrev pub header_of : Fields → Header
header_of f = record {
  fin = f.iom.fin;
  rsv = f.iom.rsv;
  opcode = f.iom.opcode;
  mask = f.mask;
  payload_length = f.len;
}

-- The header bytes that are used up in each state.
abbrev pub consumed : FrameState → Fields → List ℕ
consumed recv_ext_payloadlen f =
    first (header_of f) ∷ (mask_flag f.mask + (if f.reqread == 8 then 127 else 126)) ∷ []
consumed recv_maskkey f = prefix (header_of f)
consumed recv_payload f = header (header_of f) f.key
consumed _ f = []

-- The first byte holds a data frame: its length is extended, so it is no control frame.
pub record IsDataHead (m : OpcodeMemo) : Type 0 where
  pub fin : m.fin < 2
  pub rsv : m.rsv < 8
  pub opcode : m.opcode < 16
  pub not_ctrl : is_ctrl_frame m.opcode ≡ false

-- What holds in each state, with the payload delivered so far.
abbrev pub StateOk : FrameState → Fields → List ℕ → Type 0
StateOk recv_header1 f d = (f.reqread ≡ 2) × (d ≡ [])
StateOk recv_ext_payloadlen f d = IsDataHead f.iom × ((f.reqread ≡ 2) ⊎ (f.reqread ≡ 8)) × (d ≡ [])
StateOk recv_maskkey f d =
    IsLegal (header_of f) × (f.mask ≡ true) × (f.reqread ≡ 4) × (f.off ≡ 0) × (d ≡ [])
StateOk recv_payload f d =
    IsLegal (header_of f)
    × (f.off ≡ length d)
    × (f.off ≤ f.len)
    × (f.mask ≡ true → length f.key ≡ 4)
StateOk _ f d = ⊥

-- `input` is the stream from the first byte of the frame in progress, and `d` the payload that
-- was delivered of it.
pub record InProgress {W : Type 0} (tape : W → List ℕ) (input d : List ℕ) (s : At RecvContext W)
    : Type 0 where
  pub buffer : IsBuffer s.ctx
  pub state_ok : StateOk s.ctx.istate (fields s.ctx) d
  pub wire :
      consumed s.ctx.istate (fields s.ctx)
        ++ (masked s.ctx.imask s.ctx.imaskkey 0 d ++ stream tape s)
      ≡ input

-- The fields and the stream determine the progress.
pub InProgress-IsSame :
    {W : Type 0} {tape : W → List ℕ} {input d : List ℕ} {s t : At RecvContext W}
    → IsSame tape s t
    → InProgress tape input d s
    → InProgress tape input d t
InProgress-IsSame {input} {d} {s} {t} same p = record {
  buffer = same.buffer;
  state_ok = subst (λ (f : Fields). StateOk f.state f d) (sym same.same_fields) p.state_ok;
  wire =
      ap₂ (λ (f : Fields) r. consumed f.state f ++ (masked f.mask f.key 0 d ++ r)) same.same_fields
        same.same_stream
      ∙ p.wire;
}

-- What is known of the frame in a given state.
pub at_state :
    {W : Type 0} {tape : W → List ℕ} {input d : List ℕ} {s : At RecvContext W} (st : FrameState)
    → InProgress tape input d s
    → s.ctx.istate ≡ st
    → StateOk st (fields s.ctx) d
      × (consumed st (fields s.ctx) ++ (masked s.ctx.imask s.ctx.imaskkey 0 d ++ stream tape s)
          ≡ input)
at_state {tape} {input} {d} {s} st p e =
    subst
      (λ x.
        StateOk x (fields s.ctx) d
        × (consumed x (fields s.ctx) ++ (masked s.ctx.imask s.ctx.imaskkey 0 d ++ stream tape s)
            ≡ input))
      e (p.state_ok, p.wire)

pub of_state :
    {W : Type 0} {tape : W → List ℕ} {input d : List ℕ} (s : At RecvContext W) (st : FrameState)
    → IsBuffer s.ctx
    → s.ctx.istate ≡ st
    → StateOk st (fields s.ctx) d
    → consumed st (fields s.ctx) ++ (masked s.ctx.imask s.ctx.imaskkey 0 d ++ stream tape s) ≡ input
    → InProgress tape input d s
of_state {tape} {input} {d} s st v e fine wire = record {
  buffer = v;
  state_ok = subst (λ x. StateOk x (fields s.ctx) d) (sym e) fine;
  wire =
      ap
        (λ x. consumed x (fields s.ctx) ++ (masked s.ctx.imask s.ctx.imaskkey 0 d ++ stream tape s))
        e
      ∙ wire;
}

-- While nothing is delivered, the rest of the stream follows the header bytes.
pub nothing_delivered :
    {input d : List ℕ} (m : Bool) (key xs rest : List ℕ)
    → d ≡ []
    → xs ++ (masked m key 0 d ++ rest) ≡ input
    → xs ++ rest ≡ input
nothing_delivered m key xs rest none e =
    ap (λ t. xs ++ (t ++ rest)) (sym (ap (masked m key 0) none ∙ masked-nil m key 0)) ∙ e

-- What a successful call has received of the frame that begins `input`, after the payload `d`:
-- the fields and the payload are those of a legal frame of which `input` is the encoding. Either
-- the frame is complete and the next one begins, or at least one byte came and more is to come.
pub record Received {W : Type 0} (tape : W → List ℕ) (input d : List ℕ) (iocb : Iocb)
    (t : At RecvContext W) : Type 0 where
  pub key : List ℕ
  pub key_size : iocb.mask ≡ true → length key ≡ 4
  pub legal : IsLegal (iocb_header iocb)
  pub wire : frame (iocb_header iocb) key (d ++ iocb.payload) ++ stream tape t ≡ input
  pub next :
      ((length (d ++ iocb.payload) ≡ iocb.payload_length) × InProgress tape (stream tape t) [] t)
      ⊎ ((length (d ++ iocb.payload) < iocb.payload_length)
          × (0 < length iocb.payload)
          × InProgress tape input (d ++ iocb.payload) t)
