-- ===== src/Stun.antt =====
-- src/hev-stun.c: the STUN client.
pub mod Wire
pub mod Message
pub mod Unpack
pub mod Compare
pub mod Exchange
pub mod Client
pub mod Task
mod Tests
