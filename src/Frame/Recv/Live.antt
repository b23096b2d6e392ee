-- ===== src/Frame/Recv/Live.antt =====
-- With a receiving callback that waits only at the end of the input, repeated calls of
-- `wslay_frame_recv` come to the end of every frame.
use wslay.Prelude.{
  ℕ, zero, suc, ◌+◌, ◌-◌, ◌≤◌, ◌<◌, ◌≡◌, refl, sym, ap, subst, ◌∙◌, inl, inr, List, [], ◌∷◌, ◌++◌,
  arith, length, length-append, All, IsByte, All-right,
}
use mathlib.Core.List.{append_assoc, append-nil}
use wslay.Protocol.{want_read}
use wslay.Frame.Wire.{frame}
use wslay.Frame.Context.{
  RecvContext, FrameCallbacks, err, At, Ensures-ok, Ensures-err, Outcome-cases,
}
use wslay.Frame.Recv.{frame_recv}
use wslay.Frame.Recv.Input.{IsSource, IsEager, stream}
use wslay.Frame.Recv.Progress.{InProgress, Received}
use wslay.Frame.Recv.Header.{Kept}
use wslay.Frame.Recv.Fed.{Fed}
use wslay.Frame.Recv.Sound.{frame_recv-Fed}
use wslay.Frame.Recv.Reads.{Whole, encode, bodies, IsLegalWhole, Reads, piece, waits}
use wslay.Frame.Recv.Legal.{IsPart, frame_recv-IsPart}
use wslay.Frame.Recv.Lacking.{never-Stuck}

module _ {W : Type 0} (cb : FrameCallbacks W) (tape : W → List ℕ) where
  -- Calls from `s₀` on return `ps`, and leave the input `rest` to a next frame.
  pub record Delivered (s₀ : At RecvContext W) (ps rest : List ℕ) : Type 0 where
    pub last : At RecvContext W
    pub reads : Reads cb s₀ ps last
    pub left : stream tape last ≡ rest
    pub begun : InProgress tape rest [] last

  module _ (source : IsSource cb tape) (eager : IsEager cb tape) where
    module _ (f : Whole) (legal : IsLegalWhole f) (rest : List ℕ)
        (bytes : All IsByte (frame f.head f.key f.body ++ rest)) (s₀ : At RecvContext W)
        (ps : List ℕ) where
      -- Every call delivers some of the payload or takes in some of the input.
      frame-Delivered :
          (n : ℕ) (d : List ℕ) (s : At RecvContext W)
          → (length f.body - length d) + length (tape s.world) < n
          → Reads cb s₀ (ps ++ d) s
          → InProgress tape (frame f.head f.key f.body ++ rest) d s
          → Delivered s₀ (ps ++ f.body) rest
      frame-Delivered zero d s small c p = absurd (omega (arith, small))
      frame-Delivered (suc n) d s small c p =
          let input = frame f.head f.key f.body ++ rest in
          elim (Outcome-cases (frame_recv cb s)) [
            | inl (iocb, t, e) ↦
                let part =
                  Ensures-ok (IsPart tape f rest input d)
                    (λ e t. (e ≡ want_read) × InProgress tape input d t) (frame_recv cb s) iocb t
                    (frame_recv-IsPart cb tape source f legal rest bytes s d p) e in
                let fed =
                  Ensures-ok
                    (λ iocb t.
                      Received tape input d iocb t
                      × (length (tape t.world) ≤ length (tape s.world)))
                    (λ e t. Kept tape input d e t × Fed cb tape (length (tape s.world)) e t)
                    (frame_recv cb s) iocb t (frame_recv-Fed cb tape source input bytes s d p) e in
                let reads : Reads cb s₀ (ps ++ (d ++ iocb.payload)) t =
                  subst (λ x. Reads cb s₀ x t) (append_assoc ps d iocb.payload)
                    (piece c iocb t e) in
                elim part.next [
                  | inl (whole, gone, begun) ↦ record {
                    last = t;
                    reads = subst (λ x. Reads cb s₀ (ps ++ x) t) whole reads;
                    left = gone;
                    begun = begun;
                  }
                  | inr (short, some_bytes, going) ↦
                      frame-Delivered n (d ++ iocb.payload) t
                        (omega
                          (arith, small, fed.1, short, some_bytes, length-append d iocb.payload))
                        reads going
                ]
            | inr (x, t, e) ↦
                let waiting =
                  Ensures-err (IsPart tape f rest input d)
                    (λ e t. (e ≡ want_read) × InProgress tape input d t) (frame_recv cb s) x t
                    (frame_recv-IsPart cb tape source f legal rest bytes s d p) e in
                let fed =
                  Ensures-err
                    (λ iocb t.
                      Received tape input d iocb t
                      × (length (tape t.world) ≤ length (tape s.world)))
                    (λ e t. Kept tape input d e t × Fed cb tape (length (tape s.world)) e t)
                    (frame_recv cb s) x t (frame_recv-Fed cb tape source input bytes s d p) e in
                elim (fed.1 eager waiting.0) [
                  | inl less ↦
                      frame-Delivered n d t (omega (arith, small, less))
                        (waits c t (e ∙ ap (λ x. err x t) waiting.0)) waiting.1
                  | inr (none, stuck) ↦
                      absurd
                        (never-Stuck tape f legal rest t d t.ctx.istate refl none waiting.1 stuck)
                ]
          ]

    pub frames-Delivered :
        (fs : List Whole) (rest : List ℕ)
        → All IsLegalWhole fs
        → All IsByte (encode fs ++ rest)
        → (s₀ : At RecvContext W) (ps : List ℕ) (s : At RecvContext W) → Reads cb s₀ ps s
        → stream tape s ≡ encode fs ++ rest
        → InProgress tape (encode fs ++ rest) [] s
        → Delivered s₀ (ps ++ bodies fs) rest
    frames-Delivered [] rest legal bytes s₀ ps s c e p = record {
      last = s;
      reads = subst (λ x. Reads cb s₀ x s) (sym (append-nil ps)) c;
      left = e;
      begun = p;
    }
    frames-Delivered (f ∷ fs) rest legal bytes s₀ ps s c e p =
        let assoc = append_assoc (frame f.head f.key f.body) (encode fs) rest in
        let all_bytes = subst (All IsByte) assoc bytes in
        let one =
          frame-Delivered f legal.0 (encode fs ++ rest) all_bytes s₀ ps
            (suc (length f.body + length (tape s.world))) [] s (omega arith)
            (subst (λ x. Reads cb s₀ x s) (sym (append-nil ps)) c)
            (subst (λ x. InProgress tape x [] s) assoc p) in
        subst (λ x. Delivered s₀ x rest) (append_assoc ps f.body (bodies fs))
          (frames-Delivered fs rest legal.1
            (All-right IsByte (frame f.head f.key f.body) (encode fs ++ rest) all_bytes) s₀
            (ps ++ f.body) one.last one.reads one.left one.begun)
