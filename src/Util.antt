-- ===== src/Util.antt =====
-- util.c
pub mod ByteOrder
pub mod Checksum
pub mod Mask
pub mod Text
