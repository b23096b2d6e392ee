-- ===== src/Frame/Recv/Staged.antt =====
-- One stage of `wslay_frame_recv`: the bytes that it needs, and what follows.
use wslay.Prelude.{
  ℕ, length, ◌≤◌, ◌<◌, ◌≡◌, sym, ap, subst, ◌∙◌, ◌⊎◌, inl, inr, ltb, ◌==◌, ◌&&◌, Bool-cases,
  if◌then◌else◌, List, [], arith,
}
use wslay.Protocol.{Error, want_read, proto, Iocb}
use wslay.Frame.Context.{
  FrameState, prep_header, send_header, send_payload, recv_header1, recv_payloadlen,
  recv_ext_payloadlen, recv_maskkey, recv_payload, RecvContext, ibuf_size, FrameCallbacks, Outcome,
  ok, ◌>>=◌, At, Ensures, Ensures-bind, Ensures-mono,
}
use wslay.Frame.Recv.{avail, remaining, recv, need}
use wslay.Frame.Recv.Input.{
  IsSource, Fields, IsSame, recv-IsSame, need-IsSame, IsSame-refl, Starved, Lacks,
}
use wslay.Frame.Recv.Fed.{Stuck, Good, Bad, Ready, Returns}
use wslay.Frame.Recv.Order.{rank, proto-ne-want}
use wslay.Frame.Recv.Progress.{InProgress, InProgress-IsSame}
use wslay.Frame.Recv.Header.{Kept}

module _ {W : Type 0} (cb : FrameCallbacks W) (tape : W → List ℕ) (source : IsSource cb tape)
    (input : List ℕ) (n : ℕ) where
  Ready-IsSame :
      (d : List ℕ) {s t : At RecvContext W}
      → IsSame tape s t
      → Ready cb tape input n d s
      → Ready cb tape input n d t
  Ready-IsSame d same p = (InProgress-IsSame same p.0, omega (arith, same.used, p.1))

  -- The bytes of the payload that are at hand, or a new try to have some.
  pub some_payload :
      (s : At RecvContext W) (d : List ℕ)
      → s.ctx.istate ≡ recv_payload
      → Ready cb tape input n d s
      → Ensures
          (λ _ t. IsSame tape s t × ((remaining t.ctx ≡ 0) ⊎ (0 < avail t.ctx)))
          (Bad cb tape input n d)
          (if avail s.ctx == 0 && ltb 0 (remaining s.ctx) then recv cb s else ok tt s)
  some_payload s d e p = elim (Bool-cases (avail s.ctx == 0 && ltb 0 (remaining s.ctx))) [
    | inl short ↦ rw short (
        Ensures-mono
          (λ _ t.
            IsSame tape s t × (0 < avail t.ctx) × (length (tape t.world) < length (tape s.world)))
          _ (λ e t. (e ≡ want_read) × IsSame tape s t × Starved source s t) (Bad cb tape input n d)
          (recv cb s) (recv-IsSame source s p.0.buffer) (λ _ t h. (h.0, inr h.1))
          (λ x t h. (
            inl (h.0, InProgress-IsSame h.1 p.0),
            λ eager _.
                let empty : avail s.ctx ≡ 0 = ground (arith, short) in
                let more : 0 < remaining s.ctx = ground (arith, short) in
                let (none, same) = h.2 eager (omega (arith, empty)) in
                inr (
                  none,
                  subst (λ st. Stuck st t.ctx)
                      (sym (ap (λ (f : Fields). f.state) h.1.same_fields ∙ e))
                      (
                        omega (arith, same, empty),
                        omega (
                          arith,
                          more,
                          ap (λ (f : Fields). f.len) h.1.same_fields,
                          ap (λ (f : Fields). f.off) h.1.same_fields,
                        ),
                      ),
                ),
          )))
    | inr enough ↦ rw enough (IsSame-refl source s p.0.buffer, ground arith)
  ]

  -- A stage of the header that lacks bytes.
  Lacks-Bad :
      (st : FrameState) (s : At RecvContext W) (d : List ℕ)
      → s.ctx.istate ≡ st
      → rank st < 3
      → s.ctx.ireqread < ibuf_size
      → Ready cb tape input n d s
      → (e : Error) (t : At RecvContext W) → (e ≡ want_read) × IsSame tape s t × Lacks source s t
      → Bad cb tape input n d e t
  unfolding rank
  Lacks-Bad st s d e early small p x t h = (
    inl (h.0, InProgress-IsSame h.1 p.0),
    λ eager _. elim (h.2 eager small) [
      | inl less ↦ inl (omega (arith, less, p.1))
      | inr (none, short) ↦ inr (
        none,
        subst (λ st. Stuck st t.ctx) (sym (ap (λ (f : Fields). f.state) h.1.same_fields ∙ e))
            (header_stuck st early short),
      )
    ],
  )
    where
      header_stuck : (st : FrameState) → rank st < 3 → avail t.ctx < t.ctx.ireqread → Stuck st t.ctx
      header_stuck recv_payload early short = absurd (omega arith)
      header_stuck prep_header early short = short
      header_stuck send_header early short = short
      header_stuck send_payload early short = short
      header_stuck recv_header1 early short = short
      header_stuck recv_payloadlen early short = short
      header_stuck recv_ext_payloadlen early short = short
      header_stuck recv_maskkey early short = short

  -- A stage that needs `ireqread` bytes, the parsing that follows, and the rest of the call.
  pub staged :
      (st : FrameState) (r : ℕ) (s : At RecvContext W) (d : List ℕ)
      (parse : At RecvContext W → Outcome (At RecvContext W) (Unit {0}))
      (next : FrameState → At RecvContext W → Outcome (At RecvContext W) Iocb)
      → s.ctx.istate ≡ st
      → rank st < 3
      → s.ctx.ireqread < ibuf_size
      → d ≡ []
      → Ready cb tape input n d s
      → ((t : At RecvContext W)
          → InProgress tape input d t
          → t.ctx.istate ≡ st
          → t.ctx.ireqread ≤ avail t.ctx
          → Ensures
              (λ _ u. InProgress tape input [] u × ((r ≤ rank u.ctx.istate) × (u.world ≡ t.world)))
              (λ e u. Kept tape input [] e u × (e ≡ proto))
              (parse t))
      → ((u : At RecvContext W)
          → r ≤ rank u.ctx.istate
          → Ready cb tape input n [] u
          → Returns cb tape input n [] (next u.ctx.istate u))
      → Returns cb tape input n d (need cb s >>= λ _ t. parse t >>= λ _ u. next u.ctx.istate u)
  staged st r s d parse next e early small none p parsed go =
      subst
        (λ x.
          Returns cb tape input n x (need cb s >>= λ _ t. parse t >>= λ _ u. next u.ctx.istate u))
        (sym none)
        (Ensures-bind (λ _ t. IsSame tape s t × (t.ctx.ireqread ≤ avail t.ctx))
          (Bad cb tape input n []) (Good cb tape input n []) (need cb s)
          (λ _ t. parse t >>= λ _ u. next u.ctx.istate u)
          (Ensures-mono (λ _ t. IsSame tape s t × (t.ctx.ireqread ≤ avail t.ctx)) _
            (λ e t. (e ≡ want_read) × IsSame tape s t × Lacks source s t) (Bad cb tape input n [])
            (need cb s) (need-IsSame source s p.0.buffer) (λ _ _ h. h)
            (λ x t h.
              subst (λ d. Bad cb tape input n d x t) none (Lacks-Bad st s d e early small p x t h)))
          λ _ t h.
            Ensures-bind
              (λ _ u. InProgress tape input [] u × ((r ≤ rank u.ctx.istate) × (u.world ≡ t.world)))
              (Bad cb tape input n []) (Good cb tape input n []) (parse t)
              (λ _ u. next u.ctx.istate u)
              (Ensures-mono
                (λ _ u.
                  InProgress tape input [] u × ((r ≤ rank u.ctx.istate) × (u.world ≡ t.world)))
                _ (λ e u. Kept tape input [] e u × (e ≡ proto)) (Bad cb tape input n []) (parse t)
                (parsed t (InProgress-IsSame h.0 p.0)
                  (ap (λ (f : Fields). f.state) h.0.same_fields ∙ e) h.1)
                (λ _ _ k. k) (λ x u k. (k.0, λ _ waits. absurd (proto-ne-want (sym k.1 ∙ waits)))))
              λ _ u k.
                go u k.1.0 (k.0, omega (arith, ap (λ w. length (tape w)) k.1.1, h.0.used, p.1)))
