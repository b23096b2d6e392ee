-- ===== src/Frame/Send/Taken.antt =====
-- How much of the data that it is given a call of `wslay_frame_send` can report as sent.
use wslay.Prelude.{
  Bool, true, false, if◌then◌else◌, ℕ, zero, suc, ◌+◌, ◌≤◌, Bool-cases, inl, inr, ltb, ltb→ge, List,
  [], ◌∷◌, length, take, drop, length-take, length-drop, arith, ◌==◌,
}
use wslay.Protocol.{Iocb, data_length}
use wslay.Frame.Bytes.{mask_bytes, add64}
use wslay.Frame.Context.{
  FrameState, prep_header, send_header, send_payload, SendContext, FrameCallbacks, Outcome, ok, err,
  At, Ensures, Ensures-bind,
}
use wslay.Frame.Send.{
  temp_size, prepare, write_header, masked_loop, write_plain, finish, write_payload,
  send_from_payload, send_from_header, send_from, frame_send,
}

-- A result that is at most `n`; an error says nothing.
abbrev pub Takes : {W : Type 0} → ℕ → Outcome (At SendContext W) ℕ → Type 0
Takes n m = Ensures (λ a s. a ≤ n) (λ e s. Unit) m

-- An outcome that says nothing of its return.
anything : {S A : Type 0} (m : Outcome S A) → Ensures (λ a s. Unit {0}) (λ e s. Unit {0}) m
anything (ok a s) = tt
anything (err e s) = tt

-- A larger bound.
pub within :
    {W : Type 0} (a b : ℕ) → a ≤ b → (m : Outcome (At SendContext W) ℕ) → Takes a m → Takes b m
within a b le (ok n s) h = omega (arith, h, le)
within a b le (err e s) h = tt

module _ {W : Type 0} (cb : FrameCallbacks W) (iocb : Iocb) where
  masked_loop-Takes :
      (fuel : ℕ) (left : List ℕ) (total : ℕ) (s : At SendContext W)
      → Takes (total + length left) (masked_loop cb iocb fuel left total s)
  unfolding masked_loop
  masked_loop-Takes zero left total s = omega arith
  masked_loop-Takes (suc fuel) [] total s = omega arith
  masked_loop-Takes (suc fuel) (x ∷ xs) total s =
      let chunk = take temp_size (x ∷ xs) in
      let (r, world) =
        cb.send_callback (mask_bytes s.ctx.omaskkey s.ctx.opayloadoff chunk) 0 false s.world in
      let next : At SendContext W = record {
        ctx = record s.ctx { opayloadoff = add64 s.ctx.opayloadoff r };
        world = world;
      } in
      elim (Bool-cases (ltb 0 r)) [
        | inl some_sent ↦ rw some_sent (elim (Bool-cases (ltb (length chunk) r)) [
          | inl long ↦ rw long tt
          | inr fits ↦ rw fits (
              within (total + r + length (drop r (x ∷ xs))) (total + length (x ∷ xs))
                (omega (
                  arith,
                  ltb→ge (length chunk) r fits,
                  length-take temp_size (x ∷ xs),
                  length-drop r (x ∷ xs),
                ))
                (masked_loop cb iocb fuel (drop r (x ∷ xs)) (total + r) next)
                (masked_loop-Takes fuel (drop r (x ∷ xs)) (total + r) next))
        ])
        | inr nothing ↦ rw nothing (elim (Bool-cases (ltb 0 total)) [
          | inl before ↦ rw before (omega arith)
          | inr none_before ↦ rw none_before tt
        ])
      ]

  write_plain-Takes : (s : At SendContext W) → Takes (data_length iocb) (write_plain cb iocb s)
  unfolding write_plain
  write_plain-Takes s =
      let (r, world) = cb.send_callback iocb.payload 0 true s.world in
      elim (Bool-cases (ltb 0 r)) [
        | inl some_sent ↦ rw some_sent (elim (Bool-cases (ltb (data_length iocb) r)) [
          | inl long ↦ rw long tt
          | inr fits ↦ rw fits (ltb→ge (data_length iocb) r fits)
        ])
        | inr nothing ↦ rw nothing tt
      ]

  finish-Takes :
      (n : ℕ) (s : At SendContext W)
      → n ≤ data_length iocb
      → Takes (data_length iocb) (finish cb iocb n s)
  unfolding finish
  finish-Takes n s h = elim (Bool-cases (s.ctx.opayloadoff == s.ctx.opayloadlen)) [
    | inl over ↦ rw over h
    | inr more ↦ rw more h
  ]

  write_payload-Takes : (s : At SendContext W) → Takes (data_length iocb) (write_payload cb iocb s)
  unfolding write_payload
  write_payload-Takes s =
      Ensures-bind (λ a t. a ≤ data_length iocb) (λ e t. Unit) (λ a t. a ≤ data_length iocb) _
        (finish cb iocb) (sends (ltb 0 (data_length iocb)) s.ctx.omask) finish-Takes
    where
      sends :
          (some_data mask : Bool)
          → Takes (data_length iocb) (
              if some_data
              then (if mask
                  then masked_loop cb iocb (data_length iocb) iocb.payload 0 s
                  else write_plain cb iocb s)
              else ok 0 s)
      sends false mask = omega arith
      sends true true =
          within (0 + length iocb.payload) (data_length iocb) (omega arith)
            (masked_loop cb iocb (data_length iocb) iocb.payload 0 s)
            (masked_loop-Takes (data_length iocb) iocb.payload 0 s)
      sends true false = write_plain-Takes s

  send_from_payload-Takes :
      (st : FrameState) (s : At SendContext W)
      → Takes (data_length iocb) (send_from_payload cb iocb st s)
  unfolding send_from_payload
  send_from_payload-Takes send_payload s = write_payload-Takes s
  send_from_payload-Takes _ s = tt

  send_from_header-Takes :
      (st : FrameState) (s : At SendContext W)
      → Takes (data_length iocb) (send_from_header cb iocb st s)
  unfolding send_from_header
  send_from_header-Takes send_header s =
      Ensures-bind (λ a t. Unit) (λ e t. Unit) (λ a t. a ≤ data_length iocb)
        (write_header cb iocb s) (λ _ t. send_from_payload cb iocb t.ctx.ostate t)
        (anything (write_header cb iocb s)) (λ _ t k. send_from_payload-Takes t.ctx.ostate t)
  send_from_header-Takes st s = send_from_payload-Takes st s

  send_from-Takes :
      (st : FrameState) (s : At SendContext W) → Takes (data_length iocb) (send_from cb iocb st s)
  unfolding send_from
  send_from-Takes prep_header s =
      Ensures-bind (λ a t. Unit) (λ e t. Unit) (λ a t. a ≤ data_length iocb) (prepare cb iocb s)
        (λ _ t. send_from_header cb iocb t.ctx.ostate t) (anything (prepare cb iocb s))
        (λ _ t k. send_from_header-Takes t.ctx.ostate t)
  send_from-Takes st s = send_from_header-Takes st s

  -- The number of bytes that `wslay_frame_send` reports is at most that of the data it was given.
  pub frame_send-Takes : (s : At SendContext W) → Takes (data_length iocb) (frame_send cb iocb s)
  unfolding frame_send
  frame_send-Takes s = elim (Bool-cases (ltb iocb.payload_length (data_length iocb))) [
    | inl long ↦ rw long tt
    | inr fits ↦ rw fits (send_from-Takes s.ctx.ostate s)
  ]
