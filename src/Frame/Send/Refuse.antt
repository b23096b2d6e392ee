-- ===== src/Frame/Send/Refuse.antt =====
-- The arguments that `wslay_frame_send` refuses.
use wslay.Prelude.{
  ℕ, ◌^◌, ◌≤◌, ◌<◌, ◌≡◌, refl, ap, ◌∙◌, ◌⊎◌, inl, inr, true, ltb, lt→ltb, ◌&&◌, Bool-cases, [], ◌∷◌,
}
use wslay.Protocol.{invalid_argument, is_ctrl_frame, Iocb, data_length}
use wslay.Frame.Context.{prep_header, SendContext, FrameCallbacks, Outcome, err, ◌>>=◌, At}
use wslay.Frame.Send.{
  first_byte, mask_bit, header_buffer, prepare, send_from, send_from_header, frame_send,
}
use wslay.Frame.Send.Header.{length_field-large}

-- More data than the frame has, a long control frame, or a length that has the highest bit.
abbrev pub Refused : Iocb → Type 0
Refused iocb =
    (iocb.payload_length < data_length iocb)
    ⊎ (((is_ctrl_frame iocb.opcode ≡ true) × (125 < iocb.payload_length))
        ⊎ (2 ^ 63 ≤ iocb.payload_length))

-- The error of a call that sent nothing and began no frame.
pub record Rejects {W : Type 0} (s : At SendContext W) (m : Outcome (At SendContext W) ℕ)
    : Type 0 where
  pub after : At SendContext W
  pub result : m ≡ err invalid_argument after
  pub world : after.world ≡ s.world
  pub state : after.ctx.ostate ≡ s.ctx.ostate

module _ {W : Type 0} (cb : FrameCallbacks W) (iocb : Iocb) where
  -- The state that such a call leaves: the header buffer is written.
  abbrev refused : At SendContext W → At SendContext W
  refused s = record s {
    ctx = record s.ctx { oheader = header_buffer (first_byte iocb ∷ mask_bit iocb ∷ []) };
  }

  prepare-refused :
      (s : At SendContext W)
      → ((is_ctrl_frame iocb.opcode ≡ true) × (125 < iocb.payload_length))
        ⊎ (2 ^ 63 ≤ iocb.payload_length)
      → prepare cb iocb s ≡ err invalid_argument (refused s)
  unfolding prepare
  prepare-refused s (inl (c, l)) = rw (c, lt→ltb 125 iocb.payload_length l) refl
  prepare-refused s (inr l) =
      elim (Bool-cases (is_ctrl_frame iocb.opcode && ltb 125 iocb.payload_length)) [
        | inl c ↦ rw c refl
        | inr c ↦ rw (c, length_field-large iocb.payload_length l) refl
      ]

  -- An argument that does not fit a frame is refused before anything is sent, and the next call
  -- can begin another frame.
  pub frame_send-Rejects :
      (s : At SendContext W)
      → s.ctx.ostate ≡ prep_header
      → Refused iocb
      → Rejects s (frame_send cb iocb s)
  unfolding frame_send send_from
  frame_send-Rejects s st (inl l) = record {
    after = s;
    result = rw (lt→ltb iocb.payload_length (data_length iocb) l) refl;
    world = refl;
    state = refl;
  }
  frame_send-Rejects s st (inr r) = elim (Bool-cases (ltb iocb.payload_length (data_length iocb))) [
    | inl l ↦ record { after = s; result = rw l refl; world = refl; state = refl }
    | inr l ↦ record {
      after = refused s;
      result = rw l (
          ap (λ x. send_from cb iocb x s) st
          ∙ ap (λ m. m >>= λ _ s'. send_from_header cb iocb s'.ctx.ostate s')
              (prepare-refused s r));
      world = refl;
      state = refl;
    }
  ]
