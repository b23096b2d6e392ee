-- ===== src/Event/Whole.antt =====
-- What the rounds of `wslay_event_send` for a message without fragments put on the connection.
pub mod Putting
pub mod Streaming
mod Tests
use wslay.Prelude.{
  ℕ, ◌+◌, ◌-◌, ◌^◌, ◌≤◌, ◌<◌, ◌≡◌, refl, sym, ap, ◌∙◌, Bool, true, not, ◌&&◌, ◌||◌, ◌==◌,
  Bool-cases, inl, inr, Option, none, List, ◌++◌, length, take, drop, slice, take-add, take-take,
  same_int, pos,
}
use wslay.Protocol.{Error, code, want_write, wouldblock, connection_close, is_ctrl_frame}
use wslay.Frame.Wire.{Header, frame}
use wslay.Frame.Context.{FrameState, prep_header, SendContext, At}
use wslay.Frame.Send.Output.{PayloadOut, Out}
use wslay.Frame.Send.Sound.{Sending}
use wslay.Event.Context.{User, Omsg, EventContext}
use wslay.Event.Send.{Round, again, returns}
use wslay.Event.SendLoop.{at_frame, msg_sent, send_failed}

-- A piece behind what was out before it.
pub take-slice :
    (off n size : ℕ) (xs : List ℕ)
    → n ≤ size
    → take off xs ++ take n (slice off size xs) ≡ take (off + n) xs
take-slice off n size xs le =
    ap (λ t. take off xs ++ t) (take-take n size (drop off xs) le) ∙ sym (take-add off n xs)

-- The header of the one frame of a message.
abbrev pub msg_header : {W : Type 0} → Omsg W → Bool → ℕ → Header
msg_header m server size = record {
  fin = 1;
  rsv = 0;
  opcode = m.opcode;
  mask = not server;
  payload_length = size;
}

-- A message that fits a frame.
pub record IsSendableMsg {W : Type 0} (m : Omsg W) : Type 0 where
  pub opcode : m.opcode < 16
  pub size : length m.bytes < 2 ^ 63
  pub ctrl_short : is_ctrl_frame m.opcode ≡ true → length m.bytes ≤ 125

module _ {W : Type 0} (sent : User W → List ℕ) (log : List ℕ) (m : Omsg W) (server : Bool) where
  -- Behind `log`, the connection has a first part of the frame, up to the payload byte `off`.
  pub record IsBegun (off size : ℕ) (s : At SendContext (User W)) : Type 0 where
    pub inside : off ≤ size
    pub whole : size ≡ length m.bytes
    pub sending : Sending sent log (msg_header m server size) (take off m.bytes) s.ctx.ostate s

  -- The frame is out.
  pub record IsFinished (ctx : EventContext W) : Type 0 where
    pub out :
        sent ctx.user
        ≡ log ++ frame (msg_header m server (length m.bytes)) ctx.frame_ctx.output.omaskkey m.bytes
    pub state : ctx.frame_ctx.output.ostate ≡ prep_header
    pub mask : ctx.frame_ctx.output.omask ≡ not server
    pub key_size : not server ≡ true → length ctx.frame_ctx.output.omaskkey ≡ 4
    pub no_message : ctx.omsg ≡ none

  -- A round: the loop goes on once the frame is out; else the function returns, and the message is
  -- still under way.
  abbrev pub Puts : Option (Omsg W) → Round W → Type 0
  Puts omsg (again ctx) = IsFinished ctx
  Puts omsg (returns r ctx) =
      IsBegun ctx.opayloadoff ctx.opayloadlen (at_frame ctx)
      × (ctx.omsg ≡ omsg)
      × (ctx.server ≡ server)

  pub msg_sent-IsFinished :
      (ctx : EventContext W)
      → ctx.opayloadlen ≡ length m.bytes
      → PayloadOut sent log (msg_header m server ctx.opayloadlen) m.bytes (at_frame ctx)
      → ctx.frame_ctx.output.ostate ≡ prep_header
      → IsFinished (msg_sent m ctx)
  unfolding msg_sent at_frame
  msg_sent-IsFinished ctx size p st =
      let out =
        p.out
        ∙ ap (λ n. log ++ frame (msg_header m server n) ctx.frame_ctx.output.omaskkey m.bytes)
            size in
      elim (Bool-cases (m.opcode == connection_close)) [
        | inl close ↦ rw close (record {
          out = out;
          state = st;
          mask = p.mask;
          key_size = p.key_size;
          no_message = refl;
        })
        | inr other ↦ rw other (record {
          out = out;
          state = st;
          mask = p.mask;
          key_size = p.key_size;
          no_message = refl;
        })
      ]

  pub send_failed-Puts :
      (e : Error) (ctx : EventContext W)
      → IsBegun ctx.opayloadoff ctx.opayloadlen (at_frame ctx)
      → ctx.server ≡ server
      → Puts ctx.omsg (send_failed e ctx)
  unfolding send_failed at_frame
  send_failed-Puts e ctx h side =
      elim (Bool-cases (
        not (same_int (code e) (code want_write))
        || (not (same_int ctx.user.error (code wouldblock))
            && not (same_int ctx.user.error (pos 0))))) [
              | inl bad ↦ rw bad (h, refl, side)
              | inr fine ↦ rw fine (h, refl, side)
            ]

  pub Out-Sending :
      (size : ℕ) (d : List ℕ) (st : FrameState) (s : At SendContext (User W))
      → Out sent log (msg_header m server size) d st s
      → Sending sent log (msg_header m server size) d st s
  Out-Sending size d FrameState.prep_header s p = absurd p
  Out-Sending size d _ s p = p
