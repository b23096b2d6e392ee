-- ===== src/Frame/Send.antt =====
-- src/wslay/frame.c: `wslay_frame_send`, in the three stages that it falls through.
pub mod Header
pub mod Refuse
pub mod Output
pub mod Masked
pub mod Stages
pub mod Sound
pub mod Calls
pub mod Taken
use wslay.Prelude.{
  ℕ, zero, suc, ◌+◌, ◌-◌, ◌*◌, ◌^◌, true, false, ◌&&◌, ltb, ◌==◌, if◌then◌else◌, Option, none, some,
  List, [], ◌∷◌, ◌++◌, length, take, drop, replicate, slice, bit_and, bit_or,
}
use wslay.Protocol.{
  invalid_argument, invalid_callback, want_write, msg_more, is_ctrl_frame, Iocb, data_length,
}
use wslay.Frame.Bytes.{be_bytes, mask_bytes, add64}
use wslay.Frame.Context.{
  FrameState, prep_header, send_header, send_payload, SendContext, FrameCallbacks, Outcome, ok, err,
  ◌>>=◌, At,
}

abbrev header_size : ℕ
header_size = 14

abbrev temp_size : ℕ
temp_size = 4096

-- `oheader` after the `memset` and writes from its start.
unfoldable pub header_buffer : List ℕ → List ℕ
header_buffer bytes = bytes ++ replicate (header_size - length bytes) 0

-- The first byte: fin, the reserved bits and the opcode. `fin << 7` is an `int`.
unfoldable pub first_byte : Iocb → ℕ
first_byte iocb =
    bit_or (bit_or (bit_and (iocb.fin * 2 ^ 7) 0x80) (bit_and (iocb.rsv * 2 ^ 4) 0x70))
      (bit_and iocb.opcode 0xf)

-- The mask bit of the second byte.
unfoldable pub mask_bit : Iocb → ℕ
mask_bit iocb = bit_and ((if iocb.mask then 1 else 0) * 2 ^ 7) 0x80

-- The seven bits of the second byte and the extended length; `none` is a length that is too large.
unfoldable pub length_field : ℕ → Option (ℕ × List ℕ)
length_field n =
    if ltb n 126
    then some (n, [])
    else if ltb n (2 ^ 16)
    then some (126, be_bytes 2 n)
    else if ltb n (2 ^ 63)
    then some (127, be_bytes 8 n)
    else none

module _ {W : Type 0} (cb : FrameCallbacks W) (iocb : Iocb) where
  -- The end of the first stage: the header is complete and its sending begins.
  unfoldable pub start_header : List ℕ → At SendContext W → Outcome (At SendContext W) (Unit {0})
  unfolding header_buffer
  start_header header s = ok tt (record s {
    ctx = record s.ctx {
      oheader = header_buffer header;
      ostate = send_header;
      oheadermark = 0;
      oheaderlimit = length header;
      opayloadlen = iocb.payload_length;
      opayloadoff = 0;
    };
  })

  -- `genmask_callback`, and the key at the end of the header.
  unfoldable pub add_mask : List ℕ → At SendContext W → Outcome (At SendContext W) (Unit {0})
  unfolding start_header header_buffer
  add_mask header s =
      if iocb.mask
      then (let (good, key, world) = cb.genmask_callback 4 s.world in
          let ctx = record s.ctx { omaskkey = key } in
          if good
          then start_header (header ++ key)
              (record { ctx = record ctx { omask = true }; world = world })
          else err invalid_callback
              (record { ctx = record ctx { oheader = header_buffer header }; world = world }))
      else start_header header s

  -- The body of `if (ctx->ostate == PREP_HEADER)`.
  unfoldable pub prepare : At SendContext W → Outcome (At SendContext W) (Unit {0})
  unfolding first_byte mask_bit length_field add_mask header_buffer
  prepare s =
      let refuse = err invalid_argument (record s {
        ctx = record s.ctx { oheader = header_buffer (first_byte iocb ∷ mask_bit iocb ∷ []) };
      }) in
      if is_ctrl_frame iocb.opcode && ltb 125 iocb.payload_length
      then refuse
      else elim (length_field iocb.payload_length) [
        | none ↦ refuse
        | some (bits, extended) ↦
            add_mask (first_byte iocb ∷ bit_or (mask_bit iocb) bits ∷ extended) s
      ]

  -- The body of `if (ctx->ostate == SEND_HEADER)`.
  unfoldable pub write_header : At SendContext W → Outcome (At SendContext W) (Unit {0})
  write_header s =
      let len = s.ctx.oheaderlimit - s.ctx.oheadermark in
      let flags : ℕ = if ltb 0 (data_length iocb) then msg_more else 0 in
      let (r, world) =
        cb.send_callback (slice s.ctx.oheadermark len s.ctx.oheader) flags false s.world in
      let mark = s.ctx.oheadermark + r in
      if ltb 0 r
      then (if ltb len r
          then err invalid_callback (record s { world = world })
          else if mark == s.ctx.oheaderlimit
          then ok tt (record {
            ctx = record s.ctx { oheadermark = mark; ostate = send_payload };
            world = world;
          })
          else err want_write (record { ctx = record s.ctx { oheadermark = mark }; world = world }))
      else err want_write (record s { world = world })

  -- The loop that masks and sends, with the data that is left and the bytes sent by this call.
  -- Each round sends at least one byte, so the length of the data is fuel enough.
  unfoldable pub masked_loop : ℕ → List ℕ → ℕ → At SendContext W → Outcome (At SendContext W) ℕ
  masked_loop zero left totallen s = ok totallen s
  masked_loop (suc fuel) [] totallen s = ok totallen s
  masked_loop (suc fuel) (x ∷ xs) totallen s =
      let chunk = take temp_size (x ∷ xs) in
      let writelen = length chunk in
      let (r, world) =
        cb.send_callback (mask_bytes s.ctx.omaskkey s.ctx.opayloadoff chunk) 0 false s.world in
      let rest = masked_loop fuel (drop r (x ∷ xs)) (totallen + r) (record {
        ctx = record s.ctx { opayloadoff = add64 s.ctx.opayloadoff r };
        world = world;
      }) in
      if ltb 0 r
      then (if ltb writelen r then err invalid_callback (record s { world = world }) else rest)
      else (if ltb 0 totallen
          then ok totallen (record s { world = world })
          else err want_write (record s { world = world }))

  -- The unmasked payload, sent by one call.
  unfoldable pub write_plain : At SendContext W → Outcome (At SendContext W) ℕ
  write_plain s =
      let (r, world) = cb.send_callback iocb.payload 0 true s.world in
      if ltb 0 r
      then (if ltb (data_length iocb) r
          then err invalid_callback (record s { world = world })
          else ok r (record {
            ctx = record s.ctx { opayloadoff = add64 s.ctx.opayloadoff r };
            world = world;
          }))
      else err want_write (record s { world = world })

  -- The frame is over when its whole payload is sent.
  unfoldable pub finish : ℕ → At SendContext W → Outcome (At SendContext W) ℕ
  finish totallen s =
      if s.ctx.opayloadoff == s.ctx.opayloadlen
      then ok totallen (record s { ctx = record s.ctx { ostate = prep_header } })
      else ok totallen s

  -- The body of `if (ctx->ostate == SEND_PAYLOAD)`.
  unfoldable pub write_payload : At SendContext W → Outcome (At SendContext W) ℕ
  unfolding masked_loop write_plain finish
  write_payload s =
      (if ltb 0 (data_length iocb)
        then (if s.ctx.omask
            then masked_loop (data_length iocb) iocb.payload 0 s
            else write_plain s)
        else ok 0 s)
      >>= finish

  -- `wslay_frame_send` from SEND_HEADER on, and from SEND_PAYLOAD on.
  unfoldable pub send_from_payload : FrameState → At SendContext W → Outcome (At SendContext W) ℕ
  unfolding write_payload
  send_from_payload send_payload s = write_payload s
  send_from_payload _ s = err invalid_argument s

  unfoldable pub send_from_header : FrameState → At SendContext W → Outcome (At SendContext W) ℕ
  unfolding write_header send_from_payload
  send_from_header send_header s = write_header s >>= λ _ s'. send_from_payload s'.ctx.ostate s'
  send_from_header state s = send_from_payload state s

  unfoldable pub send_from : FrameState → At SendContext W → Outcome (At SendContext W) ℕ
  unfolding prepare send_from_header
  send_from prep_header s = prepare s >>= λ _ s'. send_from_header s'.ctx.ostate s'
  send_from state s = send_from_header state s

  -- `wslay_frame_send`
  unfoldable pub frame_send : At SendContext W → Outcome (At SendContext W) ℕ
  unfolding send_from
  frame_send s =
      if ltb iocb.payload_length (data_length iocb)
      then err invalid_argument s
      else send_from s.ctx.ostate s
