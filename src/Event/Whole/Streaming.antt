-- ===== src/Event/Whole/Streaming.antt =====
-- What `wslay_event_send` has put on the connection of the messages that a context was given.
pub mod Rounds
pub mod Given
use wslay.Prelude.{
  ℕ, ◌≡◌, Bool, true, false, not, Option, none, some, List, [], ◌∷◌, ◌++◌, length, All,
}
use wslay.Frame.Wire.{frame}
use wslay.Frame.Context.{prep_header}
use wslay.Event.Context.{User, non_fragmented, Omsg, EventContext}
use wslay.Event.Queueing.{Msg}
use wslay.Event.SendLoop.{at_frame}
use wslay.Event.Whole.{IsSendableMsg, IsBegun}

abbrev pub as_msg : {W : Type 0} → Omsg W → Msg
as_msg m = record { opcode = m.opcode; msg = m.bytes }

abbrev pub as_msgs : {W : Type 0} → List (Omsg W) → List Msg
as_msgs [] = []
as_msgs (m ∷ ms) = as_msg m ∷ as_msgs ms

abbrev pub under_way : {W : Type 0} → Option (Omsg W) → List Msg
under_way none = []
under_way (some m) = as_msg m ∷ []

-- The bytes are the frames of the messages, one for each and in their order, masked for a client,
-- each with a key of its own.
pub data IsFrames (server : Bool) : List Msg → List ℕ → Type 0 where
  no_frames : IsFrames server [] []
  then_frame :
      {args : List Msg} {bytes : List ℕ}
      → IsFrames server args bytes
      → (arg : Msg) (key : List ℕ) → (not server ≡ true → length key ≡ 4)
      → IsFrames server (args ++ arg ∷ []) (
          bytes
          ++ frame
              (record {
                fin = 1;
                rsv = 0;
                opcode = arg.opcode;
                mask = not server;
                payload_length = length arg.msg;
              })
              key
              arg.msg)

module _ {W : Type 0} (sent : User W → List ℕ) where
  -- A data message in one frame.
  abbrev pub IsPlain : Omsg W → Type 0
  IsPlain m = IsSendableMsg m × (m.type ≡ non_fragmented)

  -- Behind `log`, the connection has a first part of the frame of the message under way; or nothing,
  -- and the frame layer is ready for another.
  abbrev pub HasPart : List ℕ → Bool → Option (Omsg W) → EventContext W → Type 0
  HasPart log server none ctx =
      (sent ctx.user ≡ log)
      × (ctx.frame_ctx.output.ostate ≡ prep_header)
      × (not server ≡ false → ctx.frame_ctx.output.omask ≡ false)
  HasPart log server (some m) ctx =
      IsPlain m × IsBegun sent log m server ctx.opayloadoff ctx.opayloadlen (at_frame ctx)

  -- Of the messages `args` that the context was given, the first ones are on the connection behind
  -- `log`, each as exactly its frame, then a first part of the frame of the one under way; the
  -- others wait in order.
  pub record IsStreaming (log : List ℕ) (server : Bool) (args : List Msg) (ctx : EventContext W)
      : Type 0 where
    pub over : List Msg
    pub bytes : List ℕ
    pub frames : IsFrames server over bytes
    pub part : HasPart (log ++ bytes) server ctx.omsg ctx
    pub split : args ≡ over ++ (under_way ctx.omsg ++ as_msgs ctx.send_queue)
    pub plain : All IsPlain ctx.send_queue
    pub no_ctrl : ctx.send_ctrl_queue ≡ []
    pub side : ctx.server ≡ server
