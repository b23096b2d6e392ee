-- ===== src/Event/Whole/Streaming/Given.antt =====
-- Data messages that are queued, and calls of `wslay_event_send` in between.
use wslay.Prelude.{
  ℕ, ◌^◌, ◌<◌, ◌≡◌, refl, sym, ap, subst, ◌∙◌, Bool, true, false, Bool-cases, inl, inr,
  if◌then◌else◌, Option, none, some, List, [], ◌∷◌, ◌++◌, length, All, All-append, arith, ℤ, pos,
}
use mathlib.Core.List.{append_assoc, append-nil}
use wslay.Protocol.{is_ctrl_frame}
use wslay.Frame.Bytes.{add64}
use wslay.Frame.Send.Output.{IsSink}
use wslay.Event.Context.{
  User, Omsg, EventCallbacks, EventContext, event_context_new, frame_callbacks,
}
use wslay.Event.Queueing.{Msg, omsg_non_fragmented_new, is_msg_queueable, push_msg, queue_msg}
use wslay.Event.SendLoop.{at_frame, event_send}
use wslay.Event.Closing.{SentAll}
use wslay.Event.Calls.{Call, queues, sends, sent_context, after_call, after_calls}
use wslay.Event.Whole.Streaming.{
  as_msg, as_msgs, under_way, IsFrames, no_frames, IsPlain, HasPart, IsStreaming,
}
use wslay.Event.Whole.Streaming.Rounds.{event_send-IsStreaming}

-- A data message that fits a frame is queued, or `wslay_event_send` is called.
abbrev pub IsTransfer : {W : Type 0} → Call W → Type 0
IsTransfer (queues arg) =
    (is_ctrl_frame arg.opcode ≡ false) × (arg.opcode < 16) × (length arg.msg < 2 ^ 63)
IsTransfer (sends rounds) = Unit
IsTransfer _ = ⊥

as_msgs-append :
    {W : Type 0} (ms ns : List (Omsg W)) → as_msgs (ms ++ ns) ≡ as_msgs ms ++ as_msgs ns
as_msgs-append [] ns = refl
as_msgs-append (m ∷ ms) ns = ap (λ t. as_msg m ∷ t) (as_msgs-append ms ns)

module _ {W : Type 0} (cb : EventCallbacks W) where
  -- The messages that `wslay_event_queue_msg` took.
  abbrev pub taken : List (Call W) → EventContext W → List Msg
  taken [] ctx = []
  taken (queues arg ∷ cs) ctx =
      let rest = taken cs (after_call cb (queues arg) ctx) in
      if is_msg_queueable ctx then arg ∷ rest else rest
  taken (c ∷ cs) ctx = taken cs (after_call cb c ctx)

  module _ (sent : User W → List ℕ) (log : List ℕ) (server : Bool) where
    plain_pushed : Msg → EventContext W → EventContext W
    plain_pushed arg ctx = record ctx {
      send_queue = ctx.send_queue ++ omsg_non_fragmented_new arg.opcode arg.msg ∷ [];
      queued_msg_count = add64 ctx.queued_msg_count 1;
      queued_msg_length = add64 ctx.queued_msg_length (length arg.msg);
    }

    part_kept :
        (o : Option (Omsg W)) (l : List ℕ) (arg : Msg) (ctx : EventContext W)
        → HasPart sent l server o ctx
        → HasPart sent l server o (plain_pushed arg ctx)
    unfolding plain_pushed at_frame
    part_kept none l arg ctx h = h
    part_kept (some m) l arg ctx h = h

    pushed-IsStreaming :
        (args : List Msg) (arg : Msg) (ctx : EventContext W)
        → IsTransfer {W = W} (queues arg)
        → IsStreaming sent log server args ctx
        → IsStreaming sent log server (args ++ arg ∷ []) (plain_pushed arg ctx)
    unfolding plain_pushed omsg_non_fragmented_new
    pushed-IsStreaming args arg ctx fits h =
        let m = omsg_non_fragmented_new arg.opcode arg.msg in
        record {
          over = h.over;
          bytes = h.bytes;
          frames = h.frames;
          part = part_kept ctx.omsg (log ++ h.bytes) arg ctx h.part;
          split =
              ap (λ l. l ++ arg ∷ []) h.split
              ∙ append_assoc h.over (under_way ctx.omsg ++ as_msgs ctx.send_queue) (arg ∷ [])
              ∙ ap (λ l. h.over ++ l)
                  (append_assoc (under_way ctx.omsg) (as_msgs ctx.send_queue) (arg ∷ [])
                    ∙ ap (λ l. under_way ctx.omsg ++ l)
                        (sym (as_msgs-append ctx.send_queue (m ∷ []))));
          plain = All-append (IsPlain sent) ctx.send_queue (m ∷ []) h.plain (
            (
              record {
                opcode = fits.1;
                size = fits.2;
                ctrl_short = λ c. absurd (ground (arith, c, fits.0));
              },
              refl,
            ),
            tt,
          );
          no_ctrl = h.no_ctrl;
          side = h.side;
        }

    queue_msg-pushes :
        (arg : Msg) (ctx : EventContext W)
        → is_ctrl_frame arg.opcode ≡ false
        → is_msg_queueable ctx ≡ true
        → (queue_msg ctx arg).1 ≡ plain_pushed arg ctx
    unfolding queue_msg push_msg plain_pushed
    queue_msg-pushes arg ctx plain free = rw (free, plain) refl

    queue_msg-keeps :
        (arg : Msg) (ctx : EventContext W)
        → is_msg_queueable ctx ≡ false
        → (queue_msg ctx arg).1 ≡ ctx
    unfolding queue_msg
    queue_msg-keeps arg ctx shut = rw shut refl

    module _ (sink : IsSink (frame_callbacks cb) sent) where
      sent_context-IsStreaming :
          (args : List Msg) (ctx : EventContext W) (o : Option (ℤ × EventContext W))
          → IsStreaming sent log server args ctx
          → SentAll (IsStreaming sent log server args) o
          → IsStreaming sent log server args (sent_context ctx o)
      unfolding sent_context
      sent_context-IsStreaming args ctx none h k = h
      sent_context-IsStreaming args ctx (some (r, c)) h k = k

      transfers-IsStreaming :
          (cs : List (Call W)) (args : List Msg) (ctx : EventContext W)
          → All IsTransfer cs
          → IsStreaming sent log server args ctx
          → IsStreaming sent log server (args ++ taken cs ctx) (after_calls cb cs ctx)
      unfolding after_calls after_call
      transfers-IsStreaming [] args ctx p h =
          subst (λ l. IsStreaming sent log server l ctx) (sym (append-nil args)) h
      transfers-IsStreaming (sends rounds ∷ cs) args ctx p h =
          transfers-IsStreaming cs args (sent_context ctx (event_send cb rounds ctx)) p.1 (
            sent_context-IsStreaming args ctx (event_send cb rounds ctx) h
              (event_send-IsStreaming sent log server args cb sink rounds ctx h))
      transfers-IsStreaming (queues arg ∷ cs) args ctx p h =
          elim (Bool-cases (is_msg_queueable ctx)) [
            | inl free ↦ rw free (
                subst (λ l. IsStreaming sent log server l (after_calls cb cs (queue_msg ctx arg).1))
                  (append_assoc args (arg ∷ []) (taken cs (queue_msg ctx arg).1))
                  (transfers-IsStreaming cs (args ++ arg ∷ []) (queue_msg ctx arg).1 p.1 (
                    subst (IsStreaming sent log server (args ++ arg ∷ []))
                      (sym (queue_msg-pushes arg ctx p.0.0 free))
                      (pushed-IsStreaming args arg ctx p.0 h))))
            | inr shut ↦ rw shut (
                transfers-IsStreaming cs args (queue_msg ctx arg).1 p.1
                  (subst (IsStreaming sent log server args) (sym (queue_msg-keeps arg ctx shut)) h))
          ]
      transfers-IsStreaming (Call.queues_fragmented arg ∷ cs) args ctx p h = absurd p.0
      transfers-IsStreaming (Call.closes n reason ∷ cs) args ctx p h = absurd p.0
      transfers-IsStreaming (Call.fails n reason ∷ cs) args ctx p h = absurd p.0
      transfers-IsStreaming (Call.sets_error val ∷ cs) args ctx p h = absurd p.0
      transfers-IsStreaming (Call.stops_reading ∷ cs) args ctx p h = absurd p.0
      transfers-IsStreaming (Call.stops_writing ∷ cs) args ctx p h = absurd p.0
      transfers-IsStreaming (Call.sets_no_buffering val ∷ cs) args ctx p h = absurd p.0
      transfers-IsStreaming (Call.sets_max_length val ∷ cs) args ctx p h = absurd p.0

-- The connection has exactly the frames of the messages behind `log`.
pub record HasAll {W : Type 0} (sent : User W → List ℕ) (log : List ℕ) (server : Bool)
    (args : List Msg) (ctx : EventContext W) : Type 0 where
  pub bytes : List ℕ
  pub frames : IsFrames server args bytes
  pub out : sent ctx.user ≡ log ++ bytes

IsStreaming-HasAll :
    {W : Type 0} (sent : User W → List ℕ) (log : List ℕ) (server : Bool) (args : List Msg)
    (ctx : EventContext W)
    → IsStreaming sent log server args ctx
    → ctx.omsg ≡ none
    → ctx.send_queue ≡ []
    → HasAll sent log server args ctx
IsStreaming-HasAll sent log server args ctx h e q =
    let all_over : args ≡ h.over =
      h.split
      ∙ ap (λ o. h.over ++ (under_way o ++ as_msgs ctx.send_queue)) e
      ∙ ap (λ l. h.over ++ as_msgs l) q
      ∙ append-nil h.over in
    record {
      bytes = h.bytes;
      frames = subst (λ l. IsFrames server l h.bytes) (sym all_over) h.frames;
      out = (subst (λ o. HasPart sent (log ++ h.bytes) server o ctx) e h.part).0;
    }

new-IsStreaming :
    {W : Type 0} (sent : User W → List ℕ) (server : Bool) (user_data : W)
    → IsStreaming sent
        (sent (event_context_new server user_data).user)
        server
        []
        (event_context_new server user_data)
unfolding event_context_new
new-IsStreaming sent server user_data = record {
  over = [];
  bytes = [];
  frames = no_frames;
  part =
      (sym (append-nil (sent (record { user_data = user_data; error = pos 0 }))), refl, λ e. refl);
  split = refl;
  plain = tt;
  no_ctrl = refl;
  side = refl;
}

-- From a new context, while data messages that fit a frame are queued and `wslay_event_send` is
-- called, in any order and with sends that the connection cuts anywhere: of the messages that
-- `wslay_event_queue_msg` took, the first ones are on the connection, in order, each as exactly its
-- frame, then a first part of the frame of the one under way, and the others wait in order.
pub after_calls-IsStreaming :
    {W : Type 0} (cb : EventCallbacks W) (sent : User W → List ℕ)
    → IsSink (frame_callbacks cb) sent
    → (server : Bool) (user_data : W) (cs : List (Call W)) → All IsTransfer cs
    → IsStreaming sent
        (sent (event_context_new server user_data).user)
        server
        (taken cb cs (event_context_new server user_data))
        (after_calls cb cs (event_context_new server user_data))
after_calls-IsStreaming cb sent sink server user_data cs transfers =
    let first = event_context_new server user_data in
    transfers-IsStreaming cb sent (sent first.user) server sink cs [] first transfers
      (new-IsStreaming sent server user_data)

-- When no message is under way and none waits, the connection has exactly the frames of all the
-- messages that were taken.
pub after_calls-HasAll :
    {W : Type 0} (cb : EventCallbacks W) (sent : User W → List ℕ)
    → IsSink (frame_callbacks cb) sent
    → (server : Bool) (user_data : W) (cs : List (Call W)) → All IsTransfer cs
    → (after_calls cb cs (event_context_new server user_data)).omsg ≡ none
    → (after_calls cb cs (event_context_new server user_data)).send_queue ≡ []
    → HasAll sent
        (sent (event_context_new server user_data).user)
        server
        (taken cb cs (event_context_new server user_data))
        (after_calls cb cs (event_context_new server user_data))
after_calls-HasAll cb sent sink server user_data cs transfers e q =
    let first = event_context_new server user_data in
    IsStreaming-HasAll sent (sent first.user) server (taken cb cs first) (after_calls cb cs first)
      (after_calls-IsStreaming cb sent sink server user_data cs transfers) e q
