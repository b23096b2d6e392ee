-- ===== src/Frame/Send/Sound.antt =====
-- What a call of `wslay_frame_send` does to the frame that is being sent.
use wslay.Prelude.{
  ℕ, ◌+◌, ◌-◌, ◌≤◌, ◌<◌, ◌≡◌, refl, sym, ap, subst, ◌∙◌, ◌⊎◌, inl, inr, true, false, ltb, not_ltb,
  Bool-cases, if◌then◌else◌, List, [], ◌++◌, arith, length, replicate, take-append, length-append,
}
use mathlib.Core.List.{append-nil}
use wslay.Protocol.{Error, want_write, invalid_callback, Iocb, data_length}
use wslay.Frame.Wire.{Header, prefix, header, iocb_header}
use wslay.Frame.Context.{
  FrameState, prep_header, send_header, send_payload, SendContext, FrameCallbacks, Outcome, err, At,
  Ensures, Ensures-bind, Ensures-mono,
}
use wslay.Frame.Send.{
  header_buffer, start_header, add_mask, prepare, write_header, write_payload, send_from_payload,
  send_from_header, send_from, frame_send,
}
use wslay.Frame.Send.Header.{IsSendable, prepare-header}
use wslay.Frame.Send.Output.{IsSink, HeaderOut, PayloadOut, Out, write_header-PayloadOut}
use wslay.Frame.Send.Stages.{Done, write_payload-Done}

-- Before a call: nothing of the frame went out, or all of it up to the payload `d`. A control
-- block without a mask needs a context without one.
abbrev pub Sending :
    {W : Type 0} → (W → List ℕ) → List ℕ → Header → List ℕ → FrameState → At SendContext W → Type 0
Sending sent log h d prep_header s =
    (sent s.world ≡ log) × (d ≡ []) × (h.mask ≡ false → s.ctx.omask ≡ false)
Sending sent log h d state s = Out sent log h d state s

-- The key callback failed: nothing is sent, and the next call begins the frame again.
pub record IsKeyless {W : Type 0} (cb : FrameCallbacks W) (s t : At SendContext W) : Type 0 where
  pub no_key : (cb.genmask_callback 4 s.world).0 ≡ false
  pub world : t.world ≡ (cb.genmask_callback 4 s.world).2
  pub before : s.ctx.ostate ≡ prep_header
  pub after : t.ctx.ostate ≡ prep_header

module _ {W : Type 0} (cb : FrameCallbacks W) (iocb : Iocb) (sent : W → List ℕ)
    (sink : IsSink cb sent) (log : List ℕ) where
  abbrev Fails : List ℕ → Error → At SendContext W → Type 0
  Fails d e t = (e ≡ want_write) × Out sent log (iocb_header iocb) d t.ctx.ostate t

  -- The connection is full, or there is no key for a masked frame.
  abbrev pub FailsFrom : At SendContext W → List ℕ → Error → At SendContext W → Type 0
  FailsFrom s d e t =
      Fails d e t
      ⊎ ((e ≡ invalid_callback)
          × IsKeyless cb s t
          × (iocb.mask ≡ true)
          × Sending sent log (iocb_header iocb) d t.ctx.ostate t)

  abbrev Keyless : At SendContext W → Error → At SendContext W → Type 0
  Keyless s e t =
      (e ≡ invalid_callback)
      × IsKeyless cb s t
      × (iocb.mask ≡ true)
      × Sending sent log (iocb_header iocb) [] t.ctx.ostate t

  abbrev Begun : At SendContext W → Outcome (At SendContext W) (Unit {0}) → Type 0
  Begun s m =
      Ensures (λ _ t. HeaderOut sent log (iocb_header iocb) t × (t.ctx.ostate ≡ send_header))
        (Keyless s) m

  start_header-HeaderOut :
      (s₀ : At SendContext W) (bytes : List ℕ) (s : At SendContext W)
      → bytes ≡ header (iocb_header iocb) s.ctx.omaskkey
      → 0 < length bytes
      → sent s.world ≡ log
      → s.ctx.omask ≡ iocb.mask
      → (iocb.mask ≡ true → length s.ctx.omaskkey ≡ 4)
      → Begun s₀ (start_header cb iocb bytes s)
  unfolding start_header header_buffer
  start_header-HeaderOut s₀ bytes s e some w m k = (
    record {
      whole = take-append bytes (replicate (14 - length bytes) 0) ∙ e;
      order = some;
      inside = omega (arith, length-append bytes (replicate (14 - length bytes) 0));
      out = w ∙ sym (append-nil log);
      off = refl;
      len = refl;
      mask = m;
      key_size = k;
    },
    refl,
  )

  add_mask-masked :
      (bytes : List ℕ) (s : At SendContext W)
      → iocb.mask ≡ true
      → (cb.genmask_callback 4 s.world).0 ≡ true
      → add_mask cb iocb bytes s
        ≡ start_header cb iocb (bytes ++ (cb.genmask_callback 4 s.world).1) (record {
          ctx = record s.ctx { omaskkey = (cb.genmask_callback 4 s.world).1; omask = true };
          world = (cb.genmask_callback 4 s.world).2;
        })
  unfolding add_mask
  add_mask-masked bytes s m good = rw (m, good) refl

  add_mask-keyless :
      (bytes : List ℕ) (s : At SendContext W)
      → iocb.mask ≡ true
      → (cb.genmask_callback 4 s.world).0 ≡ false
      → add_mask cb iocb bytes s
        ≡ err invalid_callback (record {
          ctx = record s.ctx {
            omaskkey = (cb.genmask_callback 4 s.world).1;
            oheader = header_buffer bytes;
          };
          world = (cb.genmask_callback 4 s.world).2;
        })
  unfolding add_mask
  add_mask-keyless bytes s m bad = rw (m, bad) refl

  add_mask-plain :
      (bytes : List ℕ) (s : At SendContext W)
      → iocb.mask ≡ false
      → add_mask cb iocb bytes s ≡ start_header cb iocb bytes s
  unfolding add_mask
  add_mask-plain bytes s m = rw m refl

  add_mask-HeaderOut :
      (s : At SendContext W)
      → s.ctx.ostate ≡ prep_header
      → sent s.world ≡ log
      → (iocb.mask ≡ false → s.ctx.omask ≡ false)
      → Begun s (add_mask cb iocb (prefix (iocb_header iocb)) s)
  unfolding header
  add_mask-HeaderOut s st w m =
      let before = prefix (iocb_header iocb) in
      let (good, key, world) = cb.genmask_callback 4 s.world in
      elim (Bool-cases iocb.mask) [
        | inl masked ↦ elim (Bool-cases good) [
          | inl fine ↦ subst (Begun s) (sym (add_mask-masked before s masked fine)) (
              start_header-HeaderOut s (before ++ key)
                (record { ctx = record s.ctx { omaskkey = key; omask = true }; world = world })
                (ap (λ b. before ++ (if b then key else [])) (sym masked))
                (omega (arith, length-append before key)) (sink.key_silent 4 s.world ∙ w)
                (sym masked) (λ _. sink.key_size 4 s.world fine))
          | inr bad ↦ subst (Begun s) (sym (add_mask-keyless before s masked bad)) (
            refl,
            record { no_key = bad; world = refl; before = st; after = st },
            masked,
            subst
                (λ x. Sending sent log (iocb_header iocb) [] x (record {
                  ctx = record s.ctx { omaskkey = key; oheader = header_buffer before };
                  world = world;
                }))
                (sym st)
                (sink.key_silent 4 s.world ∙ w, refl, λ h. absurd (ground (arith, h, masked))),
          )
        ]
        | inr plain ↦ subst (Begun s) (sym (add_mask-plain before s plain)) (
            start_header-HeaderOut s before s
              (sym (append-nil before)
                ∙ ap (λ b. before ++ (if b then s.ctx.omaskkey else [])) (sym plain))
              (omega arith) w (m plain ∙ sym plain) (λ h. absurd (ground (arith, h, plain))))
      ]

  abbrev Good : List ℕ → Outcome (At SendContext W) ℕ → Type 0
  Good d m = Ensures (Done sent log (iocb_header iocb) d iocb.payload) (Fails d) m

  -- The same, from a state in which the key callback may be called.
  abbrev GoodFrom : At SendContext W → List ℕ → Outcome (At SendContext W) ℕ → Type 0
  GoodFrom s d m = Ensures (Done sent log (iocb_header iocb) d iocb.payload) (FailsFrom s d) m

  from_full :
      (s : At SendContext W) (d : List ℕ) (m : Outcome (At SendContext W) ℕ)
      → Good d m
      → GoodFrom s d m
  from_full s d m h =
      Ensures-mono (Done sent log (iocb_header iocb) d iocb.payload)
        (Done sent log (iocb_header iocb) d iocb.payload) (Fails d) (FailsFrom s d) m h (λ _ _ q. q)
        (λ _ _ q. inl q)

  module _ (k : IsSendable iocb) (d : List ℕ)
      (room : length d + data_length iocb ≤ iocb.payload_length) where
    from_payload :
        (s : At SendContext W)
        → s.ctx.ostate ≡ send_payload
        → PayloadOut sent log (iocb_header iocb) d s
        → Good d (send_from_payload cb iocb s.ctx.ostate s)
    unfolding send_from_payload
    from_payload s st p =
        subst (λ x. Good d (send_from_payload cb iocb x s)) (sym st)
          (Ensures-mono (Done sent log (iocb_header iocb) d iocb.payload)
            (Done sent log (iocb_header iocb) d iocb.payload)
            (λ e t.
              (e ≡ want_write)
              × PayloadOut sent log (iocb_header iocb) d t
              × (t.ctx.ostate ≡ send_payload))
            (Fails d) (write_payload cb iocb s)
            (write_payload-Done cb iocb sent sink log (iocb_header iocb) k.size d s room st p)
            (λ _ _ q. q)
            (λ e t q. (q.0, subst (λ x. Out sent log (iocb_header iocb) d x t) (sym q.2) q.1)))

    from_header :
        (s : At SendContext W)
        → s.ctx.ostate ≡ send_header
        → d ≡ []
        → HeaderOut sent log (iocb_header iocb) s
        → Good d (send_from_header cb iocb s.ctx.ostate s)
    unfolding send_from_header
    from_header s st nil p =
        subst (λ x. Good d (send_from_header cb iocb x s)) (sym st)
          (Ensures-bind
            (λ _ t. PayloadOut sent log (iocb_header iocb) [] t × (t.ctx.ostate ≡ send_payload))
            (Fails d) (Done sent log (iocb_header iocb) d iocb.payload) (write_header cb iocb s)
            (λ _ t. send_from_payload cb iocb t.ctx.ostate t)
            (Ensures-mono
              (λ _ t. PayloadOut sent log (iocb_header iocb) [] t × (t.ctx.ostate ≡ send_payload))
              (λ _ t. PayloadOut sent log (iocb_header iocb) [] t × (t.ctx.ostate ≡ send_payload))
              (λ e t.
                (e ≡ want_write)
                × HeaderOut sent log (iocb_header iocb) t
                × (t.ctx.ostate ≡ s.ctx.ostate))
              (Fails d) (write_header cb iocb s) (write_header-PayloadOut cb sent sink log iocb s p)
              (λ _ _ q. q)
              (λ e t q. (
                q.0,
                subst (λ x. Out sent log (iocb_header iocb) d x t) (sym (q.2 ∙ st)) (q.1, nil),
              )))
            (λ _ t q.
              from_payload t q.1
                (subst (λ x. PayloadOut sent log (iocb_header iocb) x t) (sym nil) q.0)))

    from_start :
        (s : At SendContext W)
        → s.ctx.ostate ≡ prep_header
        → Sending sent log (iocb_header iocb) d prep_header s
        → GoodFrom s d (send_from cb iocb s.ctx.ostate s)
    unfolding send_from
    from_start s st p =
        subst (λ x. GoodFrom s d (send_from cb iocb x s)) (sym st)
          (Ensures-bind
            (λ _ t. HeaderOut sent log (iocb_header iocb) t × (t.ctx.ostate ≡ send_header))
            (FailsFrom s d) (Done sent log (iocb_header iocb) d iocb.payload) (prepare cb iocb s)
            (λ _ t. send_from_header cb iocb t.ctx.ostate t)
            (Ensures-mono
              (λ _ t. HeaderOut sent log (iocb_header iocb) t × (t.ctx.ostate ≡ send_header))
              (λ _ t. HeaderOut sent log (iocb_header iocb) t × (t.ctx.ostate ≡ send_header))
              (Keyless s) (FailsFrom s d) (prepare cb iocb s)
              (subst (Begun s) (sym (prepare-header cb s k)) (add_mask-HeaderOut s st p.0 p.2))
              (λ _ _ q. q)
              (λ e t q. inr (
                subst
                  (λ x.
                    (e ≡ invalid_callback)
                    × IsKeyless cb s t
                    × (iocb.mask ≡ true)
                    × Sending sent log (iocb_header iocb) x t.ctx.ostate t)
                  (sym p.1) q)))
            (λ _ t q.
              from_full s d (send_from_header cb iocb t.ctx.ostate t) (from_header t q.1 p.1 q.0)))

    by_state :
        (st : FrameState) (s : At SendContext W)
        → s.ctx.ostate ≡ st
        → Sending sent log (iocb_header iocb) d st s
        → GoodFrom s d (send_from cb iocb s.ctx.ostate s)
    unfolding send_from send_from_header
    by_state prep_header s e p = from_start s e p
    by_state send_header s e p =
        subst (λ x. GoodFrom s d (send_from cb iocb x s)) (sym e)
          (subst (λ x. GoodFrom s d (send_from_header cb iocb x s)) e
            (from_full s d (send_from_header cb iocb s.ctx.ostate s) (from_header s e p.1 p.0)))
    by_state send_payload s e p =
        subst (λ x. GoodFrom s d (send_from cb iocb x s)) (sym e)
          (subst (λ x. GoodFrom s d (send_from_payload cb iocb x s)) e
            (from_full s d (send_from_payload cb iocb s.ctx.ostate s) (from_payload s e p)))
    by_state _ s e p = absurd p

  -- One call for a frame that can be sent, with the rest of its payload or a first part of that,
  -- over callbacks that keep their contract, and for an unmasked frame on a context whose `omask` is
  -- not set. The call succeeds with the number of bytes that it sent next, and ends the frame exactly
  -- when the whole payload is out; or the connection is full, the error is WSLAY_ERR_WANT_WRITE, and
  -- the frame can be continued; or the frame is masked and not begun, the key callback failed, the
  -- error is WSLAY_ERR_INVALID_CALLBACK, and nothing was sent, so the frame can be begun again.
  pub frame_send-Done :
      IsSendable iocb
      → (d : List ℕ) → length d + data_length iocb ≤ iocb.payload_length
      → (s : At SendContext W) → Sending sent log (iocb_header iocb) d s.ctx.ostate s
      → Ensures
          (Done sent log (iocb_header iocb) d iocb.payload)
          (FailsFrom s d)
          (frame_send cb iocb s)
  unfolding frame_send
  frame_send-Done k d room s p =
      let short : ltb iocb.payload_length (data_length iocb) ≡ false =
        not_ltb iocb.payload_length (data_length iocb) (omega arith) in
      rw short (by_state k d room s.ctx.ostate s refl p)
