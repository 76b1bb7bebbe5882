-- ===== src/Pod.antt =====
-- The POD values of spa/src/pod: their encoding into a buffer and their decoding from one.
pub mod Bytes
pub mod Types
pub mod Codec
pub mod Primitive
pub mod Text
pub mod Array
pub mod Choice
pub mod Property
mod Examples
