-- ===== src/Frame/Recv.antt =====
-- src/wslay/frame.c: `wslay_frame_recv`, in the four stages that it falls through, with
-- `wslay_shift_ibuf` and `wslay_recv`.
pub mod Buffer
pub mod Input
pub mod Bits
pub mod Progress
pub mod Illegal
pub mod Header
pub mod Length
pub mod Payload
pub mod Fed
pub mod Order
pub mod Staged
pub mod Sound
pub mod Reads
pub mod Agrees
pub mod Legal
pub mod Lacking
pub mod Live
use wslay.Prelude.{
  ℕ, zero, suc, ◌+◌, ◌-◌, ◌/◌, ◌%◌, ◌^◌, Bool, not, ◌&&◌, ◌||◌, ltb, ◌==◌, if◌then◌else◌, List,
  ◌++◌, length, get_or, set, take, drop, slice, bit_and, bit_xor,
}
use wslay.Protocol.{invalid_argument, proto, want_read, is_ctrl_frame, Iocb}
use wslay.Frame.Bytes.{be_number}
use wslay.Frame.Context.{
  FrameState, recv_header1, recv_ext_payloadlen, recv_maskkey, recv_payload, RecvContext, ibuf_size,
  FrameCallbacks, Outcome, ok, err, ◌>>=◌, At,
}

-- `WSLAY_AVAIL_IBUF`
abbrev pub avail : RecvContext → ℕ
avail c = c.ibuflimit - c.ibufmark

-- What a write of some bytes from an index on leaves in a buffer.
abbrev pub store : List ℕ → ℕ → List ℕ → List ℕ
store buf at bytes = take at buf ++ (bytes ++ drop (at + length bytes) buf)

-- `wslay_shift_ibuf`
unfoldable pub shift_ibuf : RecvContext → RecvContext
shift_ibuf c =
    let len = avail c in
    record c { ibuf = store c.ibuf 0 (slice c.ibufmark len c.ibuf); ibuflimit = len; ibufmark = 0 }

-- `if (ctx->ibufmark != ctx->ibuf) wslay_shift_ibuf(ctx)`
unfoldable pub compact : RecvContext → RecvContext
unfolding shift_ibuf
compact c = if c.ibufmark == 0 then c else shift_ibuf c

-- `for ( ; ibufmark != readlimit; ++ibufmark, ++ipayloadoff) ibufmark[0] ^= imaskkey[ipayloadoff % 4]`,
-- with the number of rounds left: the buffer that it leaves.
unfoldable pub unmask_loop : ℕ → List ℕ → ℕ → ℕ → List ℕ → List ℕ
unmask_loop zero key mark off ibuf = ibuf
unmask_loop (suc n) key mark off ibuf =
    unmask_loop n key (mark + 1) (off + 1)
      (set ibuf mark (bit_xor (get_or ibuf mark 0) (get_or key (off % 4) 0)))

-- The buffer with the next `n` payload bytes unmasked, if they are masked.
unfoldable pub unmask : ℕ → RecvContext → List ℕ
unfolding unmask_loop
unmask n c = if c.imask then unmask_loop n c.imaskkey c.ibufmark c.ipayloadoff c.ibuf else c.ibuf

-- The fields of the first two bytes, and the state and the count of bytes to read that follow.
unfoldable pub header_fields : ℕ → ℕ → RecvContext → RecvContext
header_fields b0 b1 c = record c {
  iom = record {
    fin = bit_and (b0 / 2 ^ 7) 1;
    opcode = bit_and b0 0xf;
    rsv = bit_and (b0 / 2 ^ 4) 7;
  };
  imask = bit_and (b1 / 2 ^ 7) 1 == 1;
  ibufmark = c.ibufmark + 2;
}

-- Where the payload follows, behind the key if there is one.
unfoldable pub after_length : RecvContext → RecvContext
after_length c =
    if c.imask
    then record c { istate = recv_maskkey; ireqread = 4 }
    else record c { istate = recv_payload }

unfoldable pub after_header1 : ℕ → RecvContext → RecvContext
unfolding after_length
after_header1 payloadlen c =
    if payloadlen == 126
    then record c { istate = recv_ext_payloadlen; ireqread = 2 }
    else if payloadlen == 127
    then record c { istate = recv_ext_payloadlen; ireqread = 8 }
    else after_length (record c { ipayloadlen = payloadlen; ipayloadoff = 0 })

-- A length of 8 bytes that needs fewer, or that has the top bit; or one of 2 bytes that needs none.
unfoldable pub bad_length : ℕ → ℕ → Bool
bad_length ireqread n =
    if ireqread == 8 then ltb n (2 ^ 16) || not (bit_and n (2 ^ 63) == 0) else ltb n 126

-- What is left of the payload. `ipayloadoff` never passes `ipayloadlen`, so nothing wraps.
abbrev pub remaining : RecvContext → ℕ
remaining c = c.ipayloadlen - c.ipayloadoff

module _ {W : Type 0} (cb : FrameCallbacks W) where
  -- The call of `recv_callback` into what is free behind the limit.
  unfoldable pub refill : RecvContext → W → Outcome (At RecvContext W) (Unit {0})
  refill c w =
      let (bytes, world) = cb.recv_callback (ibuf_size - c.ibuflimit) w in
      if ltb 0 (length bytes)
      then ok tt (record {
        ctx = record c {
          ibuf = store c.ibuf c.ibuflimit bytes;
          ibuflimit = c.ibuflimit + length bytes;
        };
        world = world;
      })
      else err want_read (record { ctx = c; world = world })

  -- `wslay_recv`
  unfoldable pub recv : At RecvContext W → Outcome (At RecvContext W) (Unit {0})
  unfolding refill
  recv s = refill (compact s.ctx) s.world

  -- One try to have `ireqread` bytes at hand.
  unfoldable pub need : At RecvContext W → Outcome (At RecvContext W) (Unit {0})
  unfolding recv compact
  need s = (if ltb (avail s.ctx) s.ctx.ireqread then recv s else ok tt s) >>= λ _ s'.
      if ltb (avail s'.ctx) s'.ctx.ireqread then err want_read s' else ok tt s'

  unfoldable pub parse_header1 : At RecvContext W → Outcome (At RecvContext W) (Unit {0})
  unfolding header_fields after_header1
  parse_header1 s =
      let b0 = get_or s.ctx.ibuf s.ctx.ibufmark 0 in
      let b1 = get_or s.ctx.ibuf (s.ctx.ibufmark + 1) 0 in
      let c = header_fields b0 b1 s.ctx in
      let payloadlen = bit_and b1 0x7f in
      if is_ctrl_frame c.iom.opcode && (ltb 125 payloadlen || c.iom.fin == 0)
      then err proto (record s { ctx = c })
      else ok tt (record s { ctx = after_header1 payloadlen c })

  unfoldable pub parse_ext_length : At RecvContext W → Outcome (At RecvContext W) (Unit {0})
  unfolding bad_length after_length
  parse_ext_length s =
      let n = be_number 0 (slice s.ctx.ibufmark s.ctx.ireqread s.ctx.ibuf) in
      let c = record s.ctx {
        ipayloadlen = n;
        ipayloadoff = 0;
        ibufmark = s.ctx.ibufmark + s.ctx.ireqread;
      } in
      if bad_length c.ireqread n
      then err proto (record s { ctx = c })
      else ok tt (record s { ctx = after_length c })

  unfoldable pub parse_maskkey : At RecvContext W → Outcome (At RecvContext W) (Unit {0})
  parse_maskkey s = ok tt (record s {
    ctx = record s.ctx {
      imaskkey = slice s.ctx.ibufmark 4 s.ctx.ibuf;
      ibufmark = s.ctx.ibufmark + 4;
      istate = recv_payload;
    };
  })

  -- The payload bytes at hand, unmasked in place, and the control block filled in.
  unfoldable pub take_payload : At RecvContext W → Outcome (At RecvContext W) Iocb
  unfolding unmask
  take_payload s =
      let c = s.ctx in
      let n = if ltb (avail c) (remaining c) then avail c else remaining c in
      let ibuf = unmask n c in
      let c' = record c {
        ibuf = ibuf;
        ibufmark = c.ibufmark + n;
        ipayloadoff = c.ipayloadoff + n;
      } in
      let iocb : Iocb = record {
        fin = c.iom.fin;
        rsv = c.iom.rsv;
        opcode = c.iom.opcode;
        payload_length = c.ipayloadlen;
        mask = c.imask;
        payload = slice c.ibufmark n ibuf;
      } in
      ok iocb (record s {
        ctx =
            if c'.ipayloadlen == c'.ipayloadoff
            then record c' { istate = recv_header1; ireqread = 2 }
            else c';
      })

  -- The body of `if (ctx->istate == RECV_PAYLOAD)`.
  unfoldable pub read_payload : At RecvContext W → Outcome (At RecvContext W) Iocb
  unfolding recv compact take_payload
  read_payload s =
      (if avail s.ctx == 0 && ltb 0 (remaining s.ctx) then recv s else ok tt s) >>= λ _.
      take_payload

  -- `wslay_frame_recv` from each of its states on.
  unfoldable pub recv_from_payload : FrameState → At RecvContext W → Outcome (At RecvContext W) Iocb
  unfolding read_payload
  recv_from_payload recv_payload s = read_payload s
  recv_from_payload _ s = err invalid_argument s

  unfoldable pub recv_from_maskkey : FrameState → At RecvContext W → Outcome (At RecvContext W) Iocb
  unfolding need parse_maskkey recv_from_payload
  recv_from_maskkey recv_maskkey s = do
    _ ← need s
    λ s. parse_maskkey s >>= λ _ s. recv_from_payload s.ctx.istate s
  recv_from_maskkey state s = recv_from_payload state s

  unfoldable pub recv_from_length : FrameState → At RecvContext W → Outcome (At RecvContext W) Iocb
  unfolding need parse_ext_length recv_from_maskkey
  recv_from_length recv_ext_payloadlen s = do
    _ ← need s
    λ s. parse_ext_length s >>= λ _ s. recv_from_maskkey s.ctx.istate s
  recv_from_length state s = recv_from_maskkey state s

  unfoldable pub recv_from : FrameState → At RecvContext W → Outcome (At RecvContext W) Iocb
  unfolding need parse_header1 recv_from_length
  recv_from recv_header1 s = do
    _ ← need s
    λ s. parse_header1 s >>= λ _ s. recv_from_length s.ctx.istate s
  recv_from state s = recv_from_length state s

  -- `wslay_frame_recv`
  unfoldable pub frame_recv : At RecvContext W → Outcome (At RecvContext W) Iocb
  unfolding recv_from
  frame_recv s = recv_from s.ctx.istate s
