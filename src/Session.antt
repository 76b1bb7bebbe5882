-- ===== src/Session.antt =====
-- The client-node session of node/src/session: shared activation records, imported memory, output
-- buffers and cycles, peers.
pub mod Activation
pub mod Shm
pub mod Memory
pub mod Port
pub mod Cycle
pub mod Transport
pub mod Peer
pub mod Owner
mod Examples
