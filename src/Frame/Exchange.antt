-- ===== src/Frame/Exchange.antt =====
-- One side sends frames with `wslay_frame_send`, the other side receives the bytes with
-- `wslay_frame_recv`.
use wslay.Prelude.{
  ℕ, ◌≡◌, refl, sym, ap, subst, ◌∙◌, Bool, true, false, List, [], ◌∷◌, ◌++◌, length, All,
  All-append, All-left, All-right, IsByte,
}
use mathlib.Core.List.{append_assoc, append-nil}
use wslay.Protocol.{is_ctrl_frame, Iocb}
use wslay.Frame.Wire.{frame, iocb_header}
use wslay.Frame.Context.{prep_header, SendContext, RecvContext, FrameCallbacks, ok, At}
use wslay.Frame.Send.{frame_send}
use wslay.Frame.Send.Header.{IsSendable}
use wslay.Frame.Send.Output.{IsSink}
use wslay.Frame.Send.Sound.{Sending}
use wslay.Frame.Send.Calls.{Calls, with_data, Calls-IsOut, IsOut}
use wslay.Frame.Unique.{append_inj}
use wslay.Frame.Recv.Input.{IsSource, IsEager, stream}
use wslay.Frame.Recv.Progress.{InProgress}
use wslay.Frame.Recv.Reads.{
  Whole, encode, bodies, encode-append, bodies-append, IsLegalWhole, Reads, no_calls,
}
use wslay.Frame.Recv.Agrees.{Agrees, Reads-Agrees}
use wslay.Frame.Recv.Live.{Delivered, frames-Delivered}

abbrev pub payloads : List Iocb → List ℕ
payloads [] = []
payloads (iocb ∷ iocbs) = iocb.payload ++ payloads iocbs

-- A control block for a whole legal frame, from a side that masks its frames or does not.
pub record IsFrame (mask : Bool) (iocb : Iocb) : Type 0 where
  pub sendable : IsSendable iocb
  pub whole : length iocb.payload ≡ iocb.payload_length
  pub ctrl_whole : is_ctrl_frame iocb.opcode ≡ true → iocb.fin ≡ 1
  pub role : iocb.mask ≡ mask

module _ {W : Type 0} (cb : FrameCallbacks W) where
  -- Frames sent one after the other, each in as many calls as the connection needs.
  pub data Sends (s₀ : At SendContext W) : List Iocb → At SendContext W → Type 0 where
    no_frames : Sends s₀ [] s₀
    one_frame :
        {iocbs : List Iocb} {s : At SendContext W}
        → Sends s₀ iocbs s
        → (iocb : Iocb) (left : List ℕ) (u : At SendContext W) → Calls cb iocb s left u
        → (n : ℕ) (t : At SendContext W) → frame_send cb (with_data iocb left) u ≡ ok n t
        → t.ctx.ostate ≡ prep_header
        → Sends s₀ (iocbs ++ iocb ∷ []) t

  module _ (sent : W → List ℕ) (sink : IsSink cb sent) (mask : Bool) where
    -- What is out is the encoding of frames with those payloads.
    record IsEncoded (log : List ℕ) (iocbs : List Iocb) (s : At SendContext W) : Type 0 where
      frames : List Whole
      legal : All IsLegalWhole frames
      out : sent s.world ≡ log ++ encode frames
      same : bodies frames ≡ payloads iocbs
      ready : s.ctx.ostate ≡ prep_header
      unmasked : mask ≡ false → s.ctx.omask ≡ false

    payloads-append : (xs ys : List Iocb) → payloads (xs ++ ys) ≡ payloads xs ++ payloads ys
    payloads-append [] ys = refl
    payloads-append (x ∷ xs) ys =
        ap (λ t. x.payload ++ t) (payloads-append xs ys)
        ∙ sym (append_assoc x.payload (payloads xs) (payloads ys))

    next_frame :
        (log : List ℕ) (iocbs : List Iocb) (iocb : Iocb) (k : IsFrame mask iocb)
        (s : At SendContext W) (v : IsEncoded log iocbs s) (t : At SendContext W)
        → IsOut cb iocb sent sink (log ++ encode v.frames) k.sendable k.whole t
        → t.ctx.ostate ≡ prep_header
        → IsEncoded log (iocbs ++ iocb ∷ []) t
    next_frame log iocbs iocb k s v t o ready =
        let f : Whole = record {
          head = iocb_header iocb;
          key = t.ctx.omaskkey;
          body = iocb.payload;
        } in
        let one : encode (f ∷ []) ≡ frame f.head f.key f.body =
          append-nil (frame f.head f.key f.body) in
        record {
          frames = v.frames ++ f ∷ [];
          legal = All-append IsLegalWhole v.frames (f ∷ []) v.legal (
            (
              record {
                fin = k.sendable.fin;
                rsv = k.sendable.rsv;
                opcode = k.sendable.opcode;
                size = k.sendable.size;
                ctrl_short = k.sendable.ctrl_short;
                ctrl_whole = k.ctrl_whole;
              },
              k.whole,
              o.key_size,
            ),
            tt,
          );
          out =
              o.out
              ∙ append_assoc log (encode v.frames) (frame f.head f.key f.body)
              ∙ ap (λ x. log ++ x)
                  (ap (λ x. encode v.frames ++ x) (sym one)
                    ∙ sym (encode-append v.frames (f ∷ [])));
          same =
              bodies-append v.frames (f ∷ [])
              ∙ ap (λ x. x ++ payloads (iocb ∷ [])) v.same
              ∙ sym (payloads-append iocbs (iocb ∷ []));
          ready = ready;
          unmasked = λ plain. o.mask ∙ k.role ∙ plain;
        }

    Sends-IsEncoded :
        (s₀ : At SendContext W)
        → s₀.ctx.ostate ≡ prep_header
        → (mask ≡ false → s₀.ctx.omask ≡ false)
        → (iocbs : List Iocb) (s : At SendContext W) → All (IsFrame mask) iocbs
        → Sends s₀ iocbs s
        → IsEncoded (sent s₀.world) iocbs s
    Sends-IsEncoded s₀ ready plain iocbs s k no_frames = record {
      frames = [];
      legal = tt;
      out = sym (append-nil (sent s₀.world));
      same = refl;
      ready = ready;
      unmasked = plain;
    }
    Sends-IsEncoded s₀ ready plain iocbs s k
          (one_frame {iocbs = before} {s = from} c iocb left u calls n t e st) =
        let v =
          Sends-IsEncoded s₀ ready plain before from (All-left (IsFrame mask) before (iocb ∷ []) k)
            c in
        let now : IsFrame mask iocb = (All-right (IsFrame mask) before (iocb ∷ []) k).0 in
        let log = sent s₀.world ++ encode v.frames in
        let begun : Sending sent log (iocb_header iocb) [] from.ctx.ostate from =
          subst (λ x. Sending sent log (iocb_header iocb) [] x from) (sym v.ready)
            (v.out, refl, λ h. v.unmasked (sym now.role ∙ h)) in
        next_frame (sent s₀.world) before iocb now from v t
          (Calls-IsOut cb iocb sent sink log now.sendable now.whole from begun left u calls n t e
            st)
          st

-- Whatever frames one side sends, however the connections cut the bytes on both sides: the payload
-- bytes that the other side has returned so far are the first of those that were sent, in order;
-- and once it has used up what was sent, they are all of them.
pub Sends-Agrees :
    {V W : Type 0} (out : FrameCallbacks V) (sent : V → List ℕ) (sink : IsSink out sent)
    (incoming : FrameCallbacks W) (tape : W → List ℕ) (source : IsSource incoming tape)
    (mask : Bool) (iocbs : List Iocb)
    → All (IsFrame mask) iocbs
    → (s₀ s : At SendContext V) → s₀.ctx.ostate ≡ prep_header
    → (mask ≡ false → s₀.ctx.omask ≡ false)
    → Sends out s₀ iocbs s
    → (input : List ℕ) → sent s.world ≡ sent s₀.world ++ input
    → All IsByte input
    → (r₀ r : At RecvContext W) → InProgress tape input [] r₀
    → (ps : List ℕ) → Reads incoming r₀ ps r
    → Agrees tape (payloads iocbs) ps r
Sends-Agrees out sent sink incoming tape source mask iocbs k s₀ s ready plain c input e bytes r₀ r v
      ps reads =
    let w = Sends-IsEncoded out sent sink mask s₀ ready plain iocbs s k c in
    let same : input ≡ encode w.frames =
      (append_inj (sent s₀.world) (sent s₀.world) refl (sym e ∙ w.out)).1 in
    subst (λ x. Agrees tape x ps r) w.same
      (Reads-Agrees incoming tape source w.frames w.legal (subst (All IsByte) same bytes) r₀
        (subst (λ x. InProgress tape x [] r₀) same v) ps r reads)

-- Whatever frames one side sends, to a side whose receiving callback waits only at the end of the
-- input: finitely many calls of `wslay_frame_recv` return all the payload bytes that were sent, use
-- up all that was sent, and leave the context ready for a next frame.
pub Sends-Delivered :
    {V W : Type 0} (out : FrameCallbacks V) (sent : V → List ℕ) (sink : IsSink out sent)
    (incoming : FrameCallbacks W) (tape : W → List ℕ) (source : IsSource incoming tape)
    (eager : IsEager incoming tape) (mask : Bool) (iocbs : List Iocb)
    → All (IsFrame mask) iocbs
    → (s₀ s : At SendContext V) → s₀.ctx.ostate ≡ prep_header
    → (mask ≡ false → s₀.ctx.omask ≡ false)
    → Sends out s₀ iocbs s
    → (r₀ : At RecvContext W) → sent s.world ≡ sent s₀.world ++ stream tape r₀
    → All IsByte (stream tape r₀)
    → InProgress tape (stream tape r₀) [] r₀
    → Delivered incoming tape r₀ (payloads iocbs) []
Sends-Delivered out sent sink incoming tape source eager mask iocbs k s₀ s ready plain c r₀ e bytes
      v =
    let w = Sends-IsEncoded out sent sink mask s₀ ready plain iocbs s k c in
    let same : stream tape r₀ ≡ encode w.frames ++ [] =
      (append_inj (sent s₀.world) (sent s₀.world) refl (sym e ∙ w.out)).1
      ∙ sym (append-nil (encode w.frames)) in
    subst (λ x. Delivered incoming tape r₀ x []) w.same
      (frames-Delivered incoming tape source eager w.frames [] w.legal
        (subst (All IsByte) same bytes) r₀ [] r₀ no_calls same
        (subst (λ x. InProgress tape x [] r₀) same v))
