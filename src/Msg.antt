-- ===== src/Msg.antt =====
-- msg/: the messages of the protocol.
pub mod Status
pub mod Types
pub mod Args
pub mod Replies
pub mod Ops
