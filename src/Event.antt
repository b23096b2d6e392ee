-- ===== src/Event.antt =====
-- src/wslay/event.h, event.c and context.c: the event layer.
pub mod Context
pub mod Queueing
pub mod Send
pub mod SendLoop
pub mod Closing
pub mod Kept
pub mod ClosedLoop
pub mod Calls
pub mod Answer
pub mod Refusal
pub mod Replies
pub mod Status
pub mod Counts
pub mod Priority
pub mod Rounds
pub mod Bounds
pub mod Recv
pub mod RecvLoop
pub mod Receiving
pub mod Text
pub mod Chunks
pub mod View
pub mod Pieces
pub mod Finish
pub mod Deliver
pub mod Start
pub mod Cuts
pub mod Script
pub mod Inside
pub mod Messages
pub mod Exact
pub mod Session
pub mod Whole
mod Tests
