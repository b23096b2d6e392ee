-- ===== src/Frame.antt =====
-- src/wslay/frame.h and frame.c: the frame layer.
pub mod Context
pub mod Bytes
pub mod Wire
pub mod Unique
pub mod Send
pub mod Recv
pub mod Exchange
mod Tests
