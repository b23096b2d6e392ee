-- ===== src/Frame/Recv/Payload.antt =====
-- The last stage of `wslay_frame_recv`: the payload bytes at hand are delivered, unmasked.
use wslay.Prelude.{
  ℕ, ◌+◌, ◌-◌, ◌≤◌, ◌<◌, ◌≡◌, refl, sym, ap, ap₂, ◌∙◌, ◌⊎◌, inl, inr, Bool, true, false, ltb, ◌==◌,
  Bool-cases, ==_iff, if◌then◌else◌, List, ◌++◌, arith, length, take, drop, slice, length-slice,
  length-append,
}
use mathlib.Core.List.{append_assoc}
use wslay.Frame.Wire.{masked-nil, masked-append, masked_cancel, header, masked, frame, frame_lem}
use wslay.Frame.Context.{recv_payload, RecvContext, FrameCallbacks, At, Ensures}
use wslay.Frame.Recv.{avail, remaining, unmask_loop, unmask, take_payload}
use wslay.Frame.Recv.Buffer.{
  IsBuffer, pending, pending-split, length-unmask_loop, drop-unmask_loop, slice-unmask_loop,
}
use wslay.Frame.Recv.Input.{fields}
use wslay.Frame.Recv.Progress.{header_of, InProgress, at_state, of_state, Received}

-- What the call leaves in the buffer.
record IsUnmasked (n : ℕ) (c : RecvContext) (ibuf : List ℕ) : Type 0 where
  size : length ibuf ≡ length c.ibuf
  behind : drop (c.ibufmark + n) ibuf ≡ drop (c.ibufmark + n) c.ibuf
  inside :
      slice c.ibufmark n ibuf ≡ masked c.imask c.imaskkey c.ipayloadoff (slice c.ibufmark n c.ibuf)

IsUnmasked_if :
    (m : Bool) (n : ℕ) (c : RecvContext)
    → c.ibufmark + n ≤ length c.ibuf
    → let ibuf = if m then unmask_loop n c.imaskkey c.ibufmark c.ipayloadoff c.ibuf else c.ibuf in
      (length ibuf ≡ length c.ibuf)
      × (drop (c.ibufmark + n) ibuf ≡ drop (c.ibufmark + n) c.ibuf)
      × (slice c.ibufmark n ibuf ≡ masked m c.imaskkey c.ipayloadoff (slice c.ibufmark n c.ibuf))
unfolding masked
IsUnmasked_if true n c h = (
  length-unmask_loop c.imaskkey n c.ibufmark c.ipayloadoff c.ibuf,
  drop-unmask_loop c.imaskkey n c.ibufmark c.ipayloadoff (c.ibufmark + n) c.ibuf (omega arith),
  slice-unmask_loop c.imaskkey n c.ibufmark c.ipayloadoff c.ibuf h,
)
IsUnmasked_if false n c h = (refl, refl, refl)

unmask-IsUnmasked :
    (n : ℕ) (c : RecvContext) → c.ibufmark + n ≤ length c.ibuf → IsUnmasked n c (unmask n c)
unfolding unmask
unmask-IsUnmasked n c h =
    let r = IsUnmasked_if c.imask n c h in record { size = r.0; behind = r.1; inside = r.2 }

-- How many bytes the call delivers.
abbrev portion : RecvContext → ℕ
portion c = if ltb (avail c) (remaining c) then avail c else remaining c

module _ {W : Type 0} (cb : FrameCallbacks W) (tape : W → List ℕ) (input : List ℕ) where
  pub take_payload-Received :
      (s : At RecvContext W) (d : List ℕ)
      → InProgress tape input d s
      → s.ctx.istate ≡ recv_payload
      → (remaining s.ctx ≡ 0) ⊎ (0 < avail s.ctx)
      → Ensures
          (λ iocb t. Received tape input d iocb t × (t.world ≡ s.world))
          (λ e t. ⊥)
          (take_payload cb s)
  unfolding take_payload
  take_payload-Received s d p state some_bytes =
      let c = s.ctx in
      let n = portion c in
      let here = at_state recv_payload p state in
      let fits : n ≤ avail c = ground arith in
      let within : n ≤ remaining c = ground arith in
      let raw = slice c.ibufmark n c.ibuf in
      let behind : RecvContext = record c { ibufmark = c.ibufmark + n } in
      let u =
        unmask-IsUnmasked n c
          (omega (arith, fits, p.buffer.size, p.buffer.order, p.buffer.inside)) in
      let payload = slice c.ibufmark n (unmask n c) in
      let rest = pending behind ++ tape s.world in
      let sent : masked c.imask c.imaskkey (length d) payload ≡ raw =
        ap (masked c.imask c.imaskkey (length d))
          (u.inside ∙ ap (λ k. masked c.imask c.imaskkey k raw) here.0.1)
        ∙ masked_cancel c.imask c.imaskkey (length d) raw in
      let size : length payload ≡ n =
        length-slice c.ibufmark n (unmask n c)
          (omega (arith, u.size, fits, p.buffer.size, p.buffer.order, p.buffer.inside)) in
      let total : length (d ++ payload) ≡ c.ipayloadoff + n =
        length-append d payload ∙ omega (arith, here.0.1, size) in
      let h = header_of (fields c) in
      let key = c.imaskkey in
      let whole : header h key ++ (masked c.imask key 0 d ++ (raw ++ rest)) ≡ input =
        ap (λ t. header h key ++ (masked c.imask key 0 d ++ t))
          (sym (append_assoc raw (pending behind) (tape s.world))
            ∙ ap (λ t. t ++ tape s.world) (sym (pending-split n p.buffer fits)))
        ∙ here.1 in
      let wire : (r : List ℕ)
          → r ≡ pending behind
          → frame h key (d ++ payload) ++ (r ++ tape s.world) ≡ input =
        λ r e.
          ap₂ (λ t x. t ++ (x ++ tape s.world)) (frame_lem h key (d ++ payload)) e
          ∙ append_assoc (header h key) (masked c.imask key 0 (d ++ payload)) rest
          ∙ ap (λ t. header h key ++ (t ++ rest)) (masked-append c.imask key d payload)
          ∙ ap (λ t. header h key ++ t)
              (append_assoc (masked c.imask key 0 d) (masked c.imask key (length d) payload) rest)
          ∙ ap (λ t. header h key ++ (masked c.imask key 0 d ++ (t ++ rest))) sent
          ∙ whole in
      let left : pending (record behind { ibuf = unmask n c }) ≡ pending behind =
        ap (take (c.ibuflimit - (c.ibufmark + n))) u.behind in
      let c' : RecvContext = record behind { ibuf = unmask n c; ipayloadoff = c.ipayloadoff + n } in
      let v : IsBuffer c' = record {
        size = u.size ∙ p.buffer.size;
        order = omega (arith, fits, p.buffer.order);
        inside = p.buffer.inside;
      } in
      let next_wire : header h key
            ++ (masked c.imask key 0 (d ++ payload) ++ (pending c' ++ tape s.world))
          ≡ input =
        ap (λ t. header h key ++ (masked c.imask key 0 (d ++ payload) ++ (t ++ tape s.world))) left
        ∙ sym (append_assoc (header h key) (masked c.imask key 0 (d ++ payload)) rest)
        ∙ ap (λ t. t ++ rest) (sym (frame_lem h key (d ++ payload)))
        ∙ wire (pending behind) refl in
      let short : (c.ipayloadlen == c.ipayloadoff + n) ≡ false → c.ipayloadoff + n < c.ipayloadlen =
        λ more. ground (arith, here.0.2, within) in
      let positive : (c.ipayloadlen == c.ipayloadoff + n) ≡ false → 0 < n =
        λ more. ground (arith, here.0.2, short more) in
      elim (Bool-cases (c.ipayloadlen == c.ipayloadoff + n)) [
        | inl done ↦ rw done (
          record {
            key = key;
            key_size = here.0.3;
            legal = here.0.0;
            wire = wire (pending c') left;
            next = inl (
              total ∙ sym ((==_iff c.ipayloadlen (c.ipayloadoff + n)).0 done),
              record {
                buffer = record { size = v.size; order = v.order; inside = v.inside };
                state_ok = (refl, refl);
                wire = ap (λ t. t ++ (pending c' ++ tape s.world)) (masked-nil c.imask key 0);
              },
            );
          },
          refl,
        )
        | inr more ↦ rw more (
          record {
            key = key;
            key_size = here.0.3;
            legal = here.0.0;
            wire = wire (pending c') left;
            next = inr (
              omega (arith, total, short more),
              omega (arith, size, positive more),
              of_state (record s { ctx = c' }) recv_payload v state
                  (here.0.0, sym total, omega (arith, here.0.2, within), here.0.3) (next_wire),
            );
          },
          refl,
        )
      ]
