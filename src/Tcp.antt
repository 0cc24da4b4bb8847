-- ===== src/Tcp.antt =====
-- tcp.c and tcp.h.
pub mod Cb
pub mod Segment
pub mod Event
pub mod Rx
pub mod Api
pub mod Block
pub mod Reach
pub mod Open
pub mod Init
