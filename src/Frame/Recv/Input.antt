-- ===== src/Frame/Recv/Input.antt =====
-- What the frame layer receives as one stream: the pending bytes, and the bytes that the callback
-- is still to supply. Refilling the buffer leaves the stream as it is.
use wslay.Prelude.{
  ℕ, ◌+◌, ◌-◌, ◌≤◌, ◌≡◌, refl, sym, ap, ap₂, ◌∙◌, ◌⊎◌, inl, inr, Bool, [], length-append, ltb, ◌==◌,
  Bool-cases, ltb→lt, ◌<◌, if◌then◌else◌, List, ◌++◌, arith, length, take, slice, nil_of_length,
}
use mathlib.Core.List.{append_assoc}
use wslay.Protocol.{want_read}
use wslay.Frame.Context.{
  FrameState, OpcodeMemo, RecvContext, ibuf_size, FrameCallbacks, ok, At, Ensures, Ensures-bind,
  Ensures-mono,
}
use wslay.Frame.Recv.{avail, shift_ibuf, compact, refill, recv, need}
use wslay.Frame.Recv.Buffer.{
  IsBuffer, pending, length-pending, pending-store, length-store, shift_ibuf-IsBuffer,
  pending-shift_ibuf,
}

-- The documented contract of the receiving callback: it fills in at most `len` bytes, and what it
-- fills in is what comes next on the connection.
pub record IsSource {W : Type 0} (cb : FrameCallbacks W) (tape : W → List ℕ) : Type 0 where
  pub fits : (len : ℕ) (w : W) → length (cb.recv_callback len w).0 ≤ len
  pub next :
      (len : ℕ) (w : W) → tape w ≡ (cb.recv_callback len w).0 ++ tape (cb.recv_callback len w).1

-- A callback that waits only at the end: it fills in at least one byte if there is one.
abbrev pub IsEager : {W : Type 0} → FrameCallbacks W → (W → List ℕ) → Type 0
IsEager {W} cb tape = (len : ℕ) (w : W) → 0 < len → (cb.recv_callback len w).0 ≡ [] → tape w ≡ []

-- The fields that the buffer leaves alone.
pub record Fields : Type 0 where
  pub iom : OpcodeMemo
  pub len : ℕ
  pub off : ℕ
  pub mask : Bool
  pub key : List ℕ
  pub state : FrameState
  pub reqread : ℕ

abbrev pub fields : RecvContext → Fields
fields c = record {
  iom = c.iom;
  len = c.ipayloadlen;
  off = c.ipayloadoff;
  mask = c.imask;
  key = c.imaskkey;
  state = c.istate;
  reqread = c.ireqread;
}

abbrev pub stream : {W : Type 0} → (W → List ℕ) → At RecvContext W → List ℕ
stream tape s = pending s.ctx ++ tape s.world

-- The buffer is sound, and neither the stream nor the other fields have changed.
pub record IsSame {W : Type 0} (tape : W → List ℕ) (s t : At RecvContext W) : Type 0 where
  pub buffer : IsBuffer t.ctx
  pub same_fields : fields t.ctx ≡ fields s.ctx
  pub same_stream : stream tape t ≡ stream tape s
  pub used : length (tape t.world) ≤ length (tape s.world)

-- The context that `wslay_recv` hands to the callback.
record IsCompact (c d : RecvContext) : Type 0 where
  buffer : IsBuffer d
  start : d.ibufmark ≡ 0
  same_fields : fields d ≡ fields c
  same_pending : pending d ≡ pending c

compact-IsCompact : {c : RecvContext} → IsBuffer c → IsCompact c (compact c)
unfolding compact
compact-IsCompact {c} v = elim (Bool-cases (c.ibufmark == 0)) [
  | inl e ↦
      rw e (record { buffer = v; start = ground arith; same_fields = refl; same_pending = refl })
  | inr e ↦ rw e (record {
    buffer = shift_ibuf-IsBuffer v;
    start = unfold shift_ibuf in refl;
    same_fields = unfold shift_ibuf in refl;
    same_pending = pending-shift_ibuf v;
  })
]

slice_start : (m l : ℕ) (xs : List ℕ) → m ≡ 0 → slice m (l - m) xs ≡ slice 0 l xs
slice_start m l xs e = rw e (ap (λ k. take k xs) (omega arith))

module _ {W : Type 0} {cb : FrameCallbacks W} {tape : W → List ℕ} (source : IsSource cb tape) where
  -- The callback had nothing to fill in: with an eager one, the input is used up.
  abbrev pub Starved : At RecvContext W → At RecvContext W → Type 0
  Starved s t =
      IsEager cb tape → avail s.ctx < ibuf_size → (tape t.world ≡ []) × (avail t.ctx ≡ avail s.ctx)

  refill-IsSame :
      {c d : RecvContext} (w : W)
      → IsBuffer c
      → IsCompact c d
      → Ensures
          (λ _ t.
            IsSame tape (record { ctx = c; world = w }) t
            × (0 < avail t.ctx)
            × (length (tape t.world) < length (tape w)))
          (λ e t.
            (e ≡ want_read)
            × IsSame tape (record { ctx = c; world = w }) t
            × Starved (record { ctx = c; world = w }) t)
          (refill cb d w)
  unfolding refill
  refill-IsSame {c} {d} w v k =
      let bytes = (cb.recv_callback (ibuf_size - d.ibuflimit) w).0 in
      let w' = (cb.recv_callback (ibuf_size - d.ibuflimit) w).1 in
      let room : length bytes ≤ ibuf_size - d.ibuflimit = source.fits _ w in
      let fits : d.ibuflimit + length bytes ≤ ibuf_size = omega (arith, k.buffer.inside, room) in
      let less : length (tape w) ≡ length bytes + length (tape w') =
        ap length (source.next (ibuf_size - d.ibuflimit) w) ∙ length-append bytes (tape w') in
      let same_avail : avail d ≡ avail c =
        sym (length-pending k.buffer) ∙ ap length k.same_pending ∙ length-pending v in
      let now : stream tape (record { ctx = c; world = w }) ≡ pending d ++ (bytes ++ tape w') =
        ap₂ ◌++◌ (sym k.same_pending) (source.next _ w) in
      elim (Bool-cases (ltb 0 (length bytes))) [
        | inl some_bytes ↦ rw some_bytes (
          record {
            buffer = record {
              size =
                  length-store d.ibuf bytes d.ibuflimit (omega (arith, fits, k.buffer.size))
                  ∙ k.buffer.size;
              order = omega (arith, k.start);
              inside = fits;
            };
            same_fields = k.same_fields;
            same_stream =
                ap (λ t. t ++ tape w')
                  (slice_start d.ibufmark _ _ k.start
                    ∙ pending-store d bytes k.buffer k.start fits
                    ∙ ap (λ t. t ++ bytes)
                        (sym (slice_start d.ibufmark d.ibuflimit d.ibuf k.start)))
                ∙ append_assoc (pending d) bytes (tape w')
                ∙ sym now;
            used = omega (arith, less);
          },
          omega (arith, ltb→lt 0 (length bytes) some_bytes, k.start, k.buffer.order),
          omega (arith, ltb→lt 0 (length bytes) some_bytes, less),
        )
        | inr no_bytes ↦ rw no_bytes (
          refl,
          record {
            buffer = k.buffer;
            same_fields = k.same_fields;
            same_stream =
                sym (
                  now ∙ ap (λ b. pending d ++ (b ++ tape w')) (nil_of_length bytes (ground arith)));
            used = omega (arith, less);
          },
          λ eager space.
              let none : bytes ≡ [] = nil_of_length bytes (ground arith) in
              let all : tape w ≡ [] =
                eager (ibuf_size - d.ibuflimit) w (omega (arith, same_avail, k.start, space))
                  none in
              (nil_of_length (tape w') (omega (arith, less, ap length all)), same_avail),
        )
      ]

  -- `wslay_recv` succeeds or asks to wait, and changes nothing but the place of bytes.
  pub recv-IsSame :
      (s : At RecvContext W)
      → IsBuffer s.ctx
      → Ensures
          (λ _ t.
            IsSame tape s t × (0 < avail t.ctx) × (length (tape t.world) < length (tape s.world)))
          (λ e t. (e ≡ want_read) × IsSame tape s t × Starved s t)
          (recv cb s)
  unfolding recv
  recv-IsSame s v = refill-IsSame s.world v (compact-IsCompact v)

  IsSame-trans : {s t u : At RecvContext W} → IsSame tape s t → IsSame tape t u → IsSame tape s u
  IsSame-trans p q = record {
    buffer = q.buffer;
    same_fields = q.same_fields ∙ p.same_fields;
    same_stream = q.same_stream ∙ p.same_stream;
    used = omega (arith, p.used, q.used);
  }

  pub IsSame-refl : (s : At RecvContext W) → IsBuffer s.ctx → IsSame tape s s
  IsSame-refl s v = record {
    buffer = v;
    same_fields = refl;
    same_stream = refl;
    used = omega arith;
  }

  -- The stage lacks bytes, and either the callback gave some of them, or none are left.
  abbrev pub Lacks : At RecvContext W → At RecvContext W → Type 0
  Lacks s t =
      IsEager cb tape
      → s.ctx.ireqread < ibuf_size
      → (length (tape t.world) < length (tape s.world))
        ⊎ ((tape t.world ≡ []) × (avail t.ctx < t.ctx.ireqread))

  tried :
      (s : At RecvContext W)
      → IsBuffer s.ctx
      → Ensures
          (λ _ t.
            IsSame tape s t
            × ((avail t.ctx < t.ctx.ireqread) → length (tape t.world) < length (tape s.world)))
          (λ e t. (e ≡ want_read) × IsSame tape s t × Lacks s t)
          (if ltb (avail s.ctx) s.ctx.ireqread then recv cb s else ok tt s)
  tried s v = elim (Bool-cases (ltb (avail s.ctx) s.ctx.ireqread)) [
    | inl short ↦ rw short (
        Ensures-mono
          (λ _ t.
            IsSame tape s t × (0 < avail t.ctx) × (length (tape t.world) < length (tape s.world)))
          (λ _ t.
            IsSame tape s t
            × ((avail t.ctx < t.ctx.ireqread) → length (tape t.world) < length (tape s.world)))
          (λ e t. (e ≡ want_read) × IsSame tape s t × Starved s t)
          (λ e t. (e ≡ want_read) × IsSame tape s t × Lacks s t) (recv cb s) (recv-IsSame s v)
          (λ _ t h. (h.0, λ _. h.2))
          (λ e t h. (
            h.0,
            h.1,
            λ eager fits.
                let lacking : avail s.ctx < s.ctx.ireqread = ltb→lt _ _ short in
                let (none, same) = h.2 eager (omega (arith, lacking, fits)) in
                inr (
                  none,
                  omega (arith, same, lacking, ap (λ (f : Fields). f.reqread) h.1.same_fields),
                ),
          )))
    | inr enough ↦ rw enough (IsSame-refl s v, λ lacking. absurd (ground (arith, lacking)))
  ]

  -- A stage goes on only with the bytes that it needs; otherwise it asks to wait.
  pub need-IsSame :
      (s : At RecvContext W)
      → IsBuffer s.ctx
      → Ensures
          (λ _ t. IsSame tape s t × (t.ctx.ireqread ≤ avail t.ctx))
          (λ e t. (e ≡ want_read) × IsSame tape s t × Lacks s t)
          (need cb s)
  unfolding need
  need-IsSame s v =
      Ensures-bind
        (λ _ t.
          IsSame tape s t
          × ((avail t.ctx < t.ctx.ireqread) → length (tape t.world) < length (tape s.world)))
        (λ e t. (e ≡ want_read) × IsSame tape s t × Lacks s t) _ _ _ (tried s v)
        λ _ t h. elim (Bool-cases (ltb (avail t.ctx) t.ctx.ireqread)) [
          | inl short ↦ rw short (refl, h.0, λ _ _. inl (h.1 (ltb→lt _ _ short)))
          | inr enough ↦ rw enough (h.0, ground arith)
        ]
