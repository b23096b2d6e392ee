-- ===== src/Event/Send.antt =====
-- src/wslay/event.c: what `wslay_event_send` sends next, the first half of a round of its loop.
use wslay.Prelude.{
  ℕ, ◌+◌, ◌-◌, ◌%◌, ◌^◌, Bool, true, false, not, ◌&&◌, ◌||◌, ltb, ◌==◌, if◌then◌else◌, Option, none,
  some, List, [], ◌∷◌, length, take, ℤ, bit_and,
}
use wslay.Protocol.{is_ctrl_frame, connection_close, code_no_status_rcvd}
use wslay.Frame.Bytes.{be_number}
use wslay.Frame.Context.{FrameState, prep_header}
use wslay.Event.Context.{MsgType, non_fragmented, fragmented, close_queued, Omsg, EventContext}

-- `a -= b` on a `size_t`
abbrev pub sub64 : ℕ → ℕ → ℕ
sub64 a b = (a + (2 ^ 64 - b)) % 2 ^ 64

-- How a round of the loop ends: the loop goes on, or the function returns.
pub data Round (W : Type 0) : Type 0 where
  again : EventContext W → Round W
  returns : ℤ → EventContext W → Round W

abbrev pub is_empty : {A : Type 0} → List A → Bool
is_empty [] = true
is_empty (x ∷ xs) = false

abbrev pub is_some : {A : Type 0} → Option A → Bool
is_some none = false
is_some (some a) = true

abbrev pub is_prep_header : FrameState → Bool
is_prep_header prep_header = true
is_prep_header _ = false

-- The status code in the payload of a close frame.
unfoldable pub sent_status : List ℕ → ℕ
sent_status payload =
    let n : ℕ = if ltb 1 (length payload) then be_number 0 (take 2 payload) else 0 in
    if n == 0 then code_no_status_rcvd else n

module _ {W : Type 0} where
  -- `wslay_event_want_write`, which is the condition of the loop as well.
  unfoldable pub want_to_write : EventContext W → Bool
  want_to_write ctx =
      ctx.write_enabled
      && (not (is_empty ctx.send_queue) || not (is_empty ctx.send_ctrl_queue) || is_some ctx.omsg)

  -- The loop of `wslay_event_send_ctrl_queue_pop` that drops all but a close frame.
  unfoldable pub drop_to_close : List (Omsg W) → Option (Omsg W) × List (Omsg W)
  drop_to_close [] = (none, [])
  drop_to_close (m ∷ ms) =
      let rest = drop_to_close ms in if m.opcode == connection_close then (some m, ms) else rest

  -- `wslay_queue_top` and `wslay_queue_pop`.
  unfoldable pub pop_first : List (Omsg W) → Option (Omsg W) × List (Omsg W)
  pop_first [] = (none, [])
  pop_first (m ∷ ms) = (some m, ms)

  -- `wslay_event_send_ctrl_queue_pop`; its callers know that the queue is not empty.
  unfoldable pub send_ctrl_queue_pop : EventContext W → Option (Omsg W) × EventContext W
  unfolding drop_to_close pop_first
  send_ctrl_queue_pop ctx =
      let (m, ms) =
        if bit_and ctx.close_status close_queued == 0
        then pop_first ctx.send_ctrl_queue
        else drop_to_close ctx.send_ctrl_queue in
      (m, record ctx { send_ctrl_queue = ms })

  -- A message becomes the one that is sent; `wslay_event_on_non_fragmented_msg_popped`.
  unfoldable pub on_non_fragmented_msg_popped : Omsg W → EventContext W → EventContext W
  on_non_fragmented_msg_popped m ctx = record ctx {
    omsg = some (record m { fin = 1 });
    opayloadlen = length m.bytes;
    opayloadoff = 0;
  }

  unfoldable pub take_up : MsgType → Omsg W → EventContext W → EventContext W
  unfolding on_non_fragmented_msg_popped
  take_up non_fragmented m ctx = on_non_fragmented_msg_popped m ctx
  take_up fragmented m ctx = record ctx { omsg = some m }

  -- The message that `wslay_event_send_ctrl_queue_pop` returned; NULL leaves the loop.
  unfoldable pub take_ctrl : Option (Omsg W) → EventContext W → Bool × EventContext W
  unfolding take_up
  take_ctrl none ctx = (false, record ctx { omsg = none })
  take_ctrl (some m) ctx = (true, take_up m.type m ctx)

  -- The same where another message was under way: the type is not looked at.
  unfoldable pub take_ctrl_first : Option (Omsg W) → EventContext W → Bool × EventContext W
  unfolding on_non_fragmented_msg_popped
  take_ctrl_first none ctx = (false, record ctx { omsg = none })
  take_ctrl_first (some m) ctx = (true, on_non_fragmented_msg_popped m ctx)

  -- `if (!ctx->omsg)`, by the two queues.
  unfoldable pub choose_new : List (Omsg W) → List (Omsg W) → EventContext W → Bool × EventContext W
  unfolding take_up take_ctrl send_ctrl_queue_pop
  choose_new (c ∷ cs) queue ctx = let (m, ctx') = send_ctrl_queue_pop ctx in take_ctrl m ctx'
  choose_new [] (m ∷ ms) ctx = (true, take_up m.type m (record ctx { send_queue = ms }))
  choose_new [] [] ctx = (false, ctx)

  -- `else if`: a control message goes before one that has no frame under way.
  unfoldable pub interrupts : Omsg W → EventContext W → Bool
  interrupts m ctx =
      not (is_ctrl_frame m.opcode)
      && is_prep_header ctx.frame_ctx.output.ostate
      && not (is_empty ctx.send_ctrl_queue)

  unfoldable pub choose_from : Option (Omsg W) → EventContext W → Bool × EventContext W
  unfolding choose_new take_ctrl_first send_ctrl_queue_pop interrupts
  choose_from none ctx = choose_new ctx.send_ctrl_queue ctx.send_queue ctx
  choose_from (some m) ctx =
      let (next, ctx') = send_ctrl_queue_pop (record ctx { send_queue = m ∷ ctx.send_queue }) in
      if interrupts m ctx then take_ctrl_first next ctx' else (true, ctx)

  -- The first half of a round: what is sent next. False leaves the loop.
  unfoldable pub choose : EventContext W → Bool × EventContext W
  unfolding choose_from
  choose ctx = choose_from ctx.omsg ctx
