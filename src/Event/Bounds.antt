-- ===== src/Event/Bounds.antt =====
-- What the buffers and the sizes of the sending half of a context are bounded by.
pub mod Chosen
pub mod Sent
pub mod Calls
use wslay.Prelude.{ℕ, ◌≤◌, ◌<◌, ◌≡◌, ◌⊎◌, Bool, true, false, Option, none, some, List, length, All}
use wslay.Protocol.{is_ctrl_frame}
use wslay.Event.Context.{ReadCallback, non_fragmented, Omsg, EventContext}
use wslay.Event.Counts.{OmsgAll}

-- The bytes that a callback filled in.
abbrev pub read_size : Option (List ℕ × Bool) → ℕ
read_size none = 0
read_size (some (bytes, eof)) = length bytes

-- A `wslay_event_fragmented_msg_callback` that fills in no more than it is asked for.
abbrev pub IsReader : {W : Type 0} → ReadCallback W → Type 0
IsReader read = (len source : ℕ) (u : _) → read_size (read len source u).0 ≤ len

module _ {W : Type 0} where
  -- A control message: it fits a frame, and has no fragments.
  abbrev pub IsCtrl : Omsg W → Type 0
  IsCtrl m = (is_ctrl_frame m.opcode ≡ true) × (length m.bytes ≤ 125) × (m.type ≡ non_fragmented)

  abbrev pub IsData : Omsg W → Type 0
  IsData m = (is_ctrl_frame m.opcode ≡ false) × IsReader m.read_callback

  abbrev pub IsEither : Omsg W → Type 0
  IsEither m = IsCtrl m ⊎ IsData m

  -- The size that the frame layer is told of a message without fragments.
  abbrev pub HasSize : ℕ → Omsg W → Type 0
  HasSize size m = m.type ≡ non_fragmented → length m.bytes ≡ size

  -- The two queues, and the marks in the buffer for fragments.
  pub record IsStored (ctrl_queue queue : List (Omsg W)) (mark limit : ℕ) (obuf : List ℕ)
      : Type 0 where
    pub ctrl : All IsCtrl ctrl_queue
    pub plain : All IsData queue
    pub marked : (mark ≡ 0) ⊎ (mark < limit)
    pub limited : limit ≤ 4096
    pub size : length obuf ≡ 4096

  -- The message that is sent, and how much of it is.
  pub record IsUnderWay (omsg : Option (Omsg W)) (off size : ℕ) : Type 0 where
    pub within : off ≤ size
    pub msg : OmsgAll IsEither omsg
    pub sized : OmsgAll (HasSize size) omsg

  abbrev pub Stored : EventContext W → Type 0
  Stored ctx = IsStored ctx.send_ctrl_queue ctx.send_queue ctx.obufmark ctx.obuflimit ctx.obuf

  -- Control messages have at most 125 bytes, and the marks and offsets are inside what they are of:
  -- `obufmark` and `obuflimit` inside `obuf`, where the mark is at the start or has bytes behind it,
  -- and `opayloadoff` inside the payload.
  abbrev pub InBounds : EventContext W → Type 0
  InBounds ctx = Stored ctx × IsUnderWay ctx.omsg ctx.opayloadoff ctx.opayloadlen
