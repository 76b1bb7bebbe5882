-- ===== src/Frame.antt =====
-- The native wire framing of protocol/src/native/frame: header, descriptor collections, the
-- sending queue, the receiving state machine and the ancillary-data parser.
pub mod Limits
pub mod Header
pub mod Fds
pub mod Send
pub mod Recv
pub mod Control
mod Examples
