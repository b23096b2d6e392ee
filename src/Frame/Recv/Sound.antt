-- ===== src/Frame/Recv/Sound.antt =====
-- `wslay_frame_recv` as a whole: whatever it returns, at whichever byte the input was cut.
use wslay.Prelude.{
  ℕ, length, ◌≤◌, ◌<◌, ◌≡◌, refl, ap, ◌∙◌, ◌⊎◌, ltb, ◌==◌, ◌&&◌, if◌then◌else◌, List, [], arith,
  All, IsByte,
}
use wslay.Protocol.{proto}
use wslay.Frame.Context.{
  FrameState, prep_header, send_header, send_payload, recv_header1, recv_payloadlen,
  recv_ext_payloadlen, recv_maskkey, recv_payload, RecvContext, FrameCallbacks, ok, At, Ensures,
  Ensures-bind, Ensures-mono, Ensures-and,
}
use wslay.Frame.Recv.{
  avail, remaining, recv, parse_header1, parse_ext_length, parse_maskkey, read_payload,
  take_payload, recv_from_payload, recv_from_maskkey, recv_from_length, recv_from, frame_recv,
}
use wslay.Frame.Recv.Input.{IsSource, Fields, IsSame}
use wslay.Frame.Recv.Fed.{Fed, Good, Bad, Ready, Returns}
use wslay.Frame.Recv.Order.{rank, parse_header1-rank, parse_ext_length-rank, parse_maskkey-rank}
use wslay.Frame.Recv.Progress.{InProgress, InProgress-IsSame, at_state, Received}
use wslay.Frame.Recv.Header.{Kept, parse_header1-InProgress}
use wslay.Frame.Recv.Length.{parse_ext_length-InProgress, parse_maskkey-InProgress}
use wslay.Frame.Recv.Payload.{take_payload-Received}
use wslay.Frame.Recv.Staged.{some_payload, staged}

module _ {W : Type 0} (cb : FrameCallbacks W) (tape : W → List ℕ) (source : IsSource cb tape)
    (input : List ℕ) (bytes : All IsByte input) (n : ℕ) where
  from_payload :
      (st : FrameState) (s : At RecvContext W) (d : List ℕ)
      → s.ctx.istate ≡ st
      → 3 ≤ rank st
      → Ready cb tape input n d s
      → Returns cb tape input n d (recv_from_payload cb st s)
  unfolding recv_from_payload read_payload rank
  from_payload recv_payload s d e later p =
      Ensures-bind (λ _ t. IsSame tape s t × ((remaining t.ctx ≡ 0) ⊎ (0 < avail t.ctx)))
        (Bad cb tape input n d) (Good cb tape input n d)
        (if avail s.ctx == 0 && ltb 0 (remaining s.ctx) then recv cb s else ok tt s)
        (λ _. take_payload cb) (some_payload cb tape source input n s d e p)
        λ _ t h.
          Ensures-mono (λ i u. Received tape input d i u × (u.world ≡ t.world))
            (Good cb tape input n d) (λ _ _. ⊥) (Bad cb tape input n d) (take_payload cb t)
            (take_payload-Received cb tape input t d (InProgress-IsSame h.0 p.0)
              (ap (λ (f : Fields). f.state) h.0.same_fields ∙ e) h.1)
            (λ _ u r. (r.0, omega (arith, ap (λ w. length (tape w)) r.1, h.0.used, p.1)))
            (λ _ _ r. absurd r)
  from_payload _ s d e later p = absurd (omega arith)

  from_maskkey :
      (st : FrameState) (s : At RecvContext W) (d : List ℕ)
      → s.ctx.istate ≡ st
      → 2 ≤ rank st
      → Ready cb tape input n d s
      → Returns cb tape input n d (recv_from_maskkey cb st s)
  unfolding recv_from_maskkey rank
  from_maskkey recv_maskkey s d e later p =
      let here = at_state recv_maskkey p.0 e in
      staged cb tape source input n recv_maskkey 3 s d (parse_maskkey cb) (recv_from_payload cb) e
        (omega arith) (omega (arith, here.0.2)) here.0.4 p
        (λ t q f h.
          Ensures-and (λ _ u. InProgress tape input [] u)
            (λ _ u. (3 ≤ rank u.ctx.istate) × (u.world ≡ t.world)) (Kept tape input [])
            (λ e _. e ≡ proto) (parse_maskkey cb t)
            (parse_maskkey-InProgress cb tape input t d q f h) (parse_maskkey-rank cb t))
        (λ u r q. from_payload u.ctx.istate u [] refl r q)
  from_maskkey recv_payload s d e later p =
      from_payload recv_payload s d e (unfold rank in omega arith) p
  from_maskkey _ s d e later p = absurd (omega arith)

  from_length :
      (st : FrameState) (s : At RecvContext W) (d : List ℕ)
      → s.ctx.istate ≡ st
      → 1 ≤ rank st
      → Ready cb tape input n d s
      → Returns cb tape input n d (recv_from_length cb st s)
  unfolding recv_from_length rank
  from_length recv_ext_payloadlen s d e later p =
      let here = at_state recv_ext_payloadlen p.0 e in
      staged cb tape source input n recv_ext_payloadlen 2 s d (parse_ext_length cb)
        (recv_from_maskkey cb) e (omega arith) (ground (arith, here.0.1)) here.0.2 p
        (λ t q f h.
          Ensures-and (λ _ u. InProgress tape input [] u)
            (λ _ u. (2 ≤ rank u.ctx.istate) × (u.world ≡ t.world)) (Kept tape input [])
            (λ e _. e ≡ proto) (parse_ext_length cb t)
            (parse_ext_length-InProgress cb tape input t d q bytes f h)
            (parse_ext_length-rank cb t))
        (λ u r q. from_maskkey u.ctx.istate u [] refl r q)
  from_length recv_maskkey s d e later p = from_maskkey recv_maskkey s d e (omega arith) p
  from_length recv_payload s d e later p = from_maskkey recv_payload s d e (omega arith) p
  from_length _ s d e later p = absurd (omega arith)

  from_start :
      (st : FrameState) (s : At RecvContext W) (d : List ℕ)
      → s.ctx.istate ≡ st
      → Ready cb tape input n d s
      → Returns cb tape input n d (recv_from cb st s)
  unfolding recv_from rank
  from_start recv_header1 s d e p =
      let here = at_state recv_header1 p.0 e in
      staged cb tape source input n recv_header1 1 s d (parse_header1 cb) (recv_from_length cb) e
        (omega arith) (omega (arith, here.0.0)) here.0.1 p
        (λ t q f h.
          Ensures-and (λ _ u. InProgress tape input [] u)
            (λ _ u. (1 ≤ rank u.ctx.istate) × (u.world ≡ t.world)) (Kept tape input [])
            (λ e _. e ≡ proto) (parse_header1 cb t)
            (parse_header1-InProgress cb tape input t d q bytes f (two t q f h))
            (parse_header1-rank cb t))
        (λ u r q. from_length u.ctx.istate u [] refl r q)
    where
      two :
          (t : At RecvContext W)
          → InProgress tape input d t
          → t.ctx.istate ≡ recv_header1
          → t.ctx.ireqread ≤ avail t.ctx
          → 2 ≤ avail t.ctx
      two t q f h = let k = (at_state recv_header1 q f).0.0 in omega (arith, k, h)
  from_start recv_ext_payloadlen s d e p = from_length recv_ext_payloadlen s d e (omega arith) p
  from_start recv_maskkey s d e p = from_length recv_maskkey s d e (omega arith) p
  from_start recv_payload s d e p = from_length recv_payload s d e (omega arith) p
  from_start prep_header s d e p = absurd (at_state prep_header p.0 e).0
  from_start send_header s d e p = absurd (at_state send_header p.0 e).0
  from_start send_payload s d e p = absurd (at_state send_payload p.0 e).0
  from_start recv_payloadlen s d e p = absurd (at_state recv_payloadlen p.0 e).0

module _ {W : Type 0} (cb : FrameCallbacks W) (tape : W → List ℕ) (source : IsSource cb tape)
    (input : List ℕ) (bytes : All IsByte input) where
  -- The same with what the call took from an eager callback.
  pub frame_recv-Fed :
      (s : At RecvContext W) (d : List ℕ)
      → InProgress tape input d s
      → Ensures
          (λ iocb t. Received tape input d iocb t × (length (tape t.world) ≤ length (tape s.world)))
          (λ e t. Kept tape input d e t × Fed cb tape (length (tape s.world)) e t)
          (frame_recv cb s)
  unfolding frame_recv
  frame_recv-Fed s d p =
      from_start cb tape source input bytes (length (tape s.world)) s.ctx.istate s d refl
        (p, omega arith)

  -- With a callback that keeps its contract, while a frame is in progress of which the payload `d`
  -- was delivered, `wslay_frame_recv` returns 0 with fields and payload of a legal frame whose
  -- encoding the input begins with; or it returns WSLAY_ERR_WANT_READ and the frame is still in
  -- progress, with nothing lost; or it returns WSLAY_ERR_PROTO, and no header of a legal frame
  -- begins the input. It never returns another error, and never leaves its buffer.
  pub frame_recv-Received :
      (s : At RecvContext W) (d : List ℕ)
      → InProgress tape input d s
      → Ensures (Received tape input d) (Kept tape input d) (frame_recv cb s)
  frame_recv-Received s d p =
      Ensures-mono
        (λ iocb t. Received tape input d iocb t × (length (tape t.world) ≤ length (tape s.world)))
        (Received tape input d)
        (λ e t. Kept tape input d e t × Fed cb tape (length (tape s.world)) e t) (Kept tape input d)
        (frame_recv cb s) (frame_recv-Fed s d p) (λ _ _ r. r.0) (λ _ _ r. r.0)
