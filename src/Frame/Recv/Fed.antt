-- ===== src/Frame/Recv/Fed.antt =====
-- What a call of `wslay_frame_recv` that asks to wait took from the receiving callback.
use wslay.Prelude.{ℕ, ◌≤◌, ◌<◌, ◌≡◌, ◌⊎◌, List, [], length}
use wslay.Protocol.{Error, want_read, Iocb}
use wslay.Frame.Context.{
  FrameState, recv_payload, RecvContext, FrameCallbacks, At, Outcome, Ensures,
}
use wslay.Frame.Recv.Progress.{InProgress, Received}
use wslay.Frame.Recv.Header.{Kept}
use wslay.Frame.Recv.{avail, remaining}
use wslay.Frame.Recv.Input.{IsEager}

-- The bytes at hand are too few for the stage.
abbrev pub Stuck : FrameState → RecvContext → Type 0
Stuck recv_payload c = (avail c ≡ 0) × (0 < remaining c)
Stuck _ c = avail c < c.ireqread

module _ {W : Type 0} (cb : FrameCallbacks W) (tape : W → List ℕ) where
  -- Of the `n` bytes that were to come, some came in; or the stage lacks bytes, and all are in.
  abbrev pub Fed : ℕ → Error → At RecvContext W → Type 0
  Fed n e t =
      IsEager cb tape
      → e ≡ want_read
      → (length (tape t.world) < n) ⊎ ((tape t.world ≡ []) × Stuck t.ctx.istate t.ctx)

module _ {W : Type 0} (cb : FrameCallbacks W) (tape : W → List ℕ) (input : List ℕ) (n : ℕ) where
  -- What a call may return while the frame that begins `input` is in progress, and at most `n`
  -- bytes are still to come.
  abbrev pub Good : List ℕ → Iocb → At RecvContext W → Type 0
  Good d iocb t = Received tape input d iocb t × (length (tape t.world) ≤ n)

  abbrev pub Bad : List ℕ → Error → At RecvContext W → Type 0
  Bad d e t = Kept tape input d e t × Fed cb tape n e t

  abbrev pub Returns : List ℕ → Outcome (At RecvContext W) Iocb → Type 0
  Returns d m = Ensures (Good d) (Bad d) m

  -- Before each stage.
  abbrev pub Ready : List ℕ → At RecvContext W → Type 0
  Ready d s = InProgress tape input d s × (length (tape s.world) ≤ n)
